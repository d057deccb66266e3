-- ===== src/Storage/Bolt/Paging.antt =====
-- `Messages` as a page of the history: the newest messages before a point, and whether there are more.
use Prim.Native.Nat.{◌<◌}
use dispatch.Base.{
  ℕ, zero, suc, ◌+◌, ◌-◌, min, Bytes, bytes_lt, Bool, false, not, List, [], ◌∷◌, ◌++◌, Option, none,
  some, nat_eq, bytes_eq, if◌then◌else◌, length, is_empty, lookup, map, take, drop,
  take-append-drop, length-take, ◌≡◌, refl, sym, ap, ◌∙◌, arith, append_assoc,
}
use dispatch.Storage.Bolt.{Bucket}
use dispatch.Storage.Bolt.Messages.{
  Message, MessageCodec, Page, entries_before, entries_back, fill_page, page_result, bucket_name,
  messages, entries,
}

abbrev Entries : Type 0
Entries = List (Bytes × Bytes)

entries_back-append :
    (xs ys acc : Entries) → entries_back (xs ++ ys) acc ≡ entries_back ys (entries_back xs acc)
entries_back-append [] ys acc = refl
entries_back-append (x ∷ xs) ys acc = entries_back-append xs ys (x ∷ acc)

entries_back-acc : (xs acc : Entries) → entries_back xs acc ≡ entries_back xs [] ++ acc
entries_back-acc [] acc = refl
entries_back-acc (x ∷ xs) acc =
    entries_back-acc xs (x ∷ acc)
    ∙ sym (append_assoc (entries_back xs []) (x ∷ []) acc)
    ∙ ap (λ l. l ++ acc) (sym (entries_back-acc xs (x ∷ [])))

entries_back_twice :
    (xs acc : Entries) → entries_back (entries_back xs acc) [] ≡ entries_back acc xs
entries_back_twice [] acc = refl
entries_back_twice (x ∷ xs) acc = entries_back_twice xs (x ∷ acc)

-- The entries whose keys come before a point; all of them when there is no point
abbrev pub until : Bytes → Entries → Entries
until from [] = []
until from ((k, v) ∷ m) = if bytes_lt k from then (k, v) ∷ until from m else []

abbrev pub earlier : Bytes → Entries → Entries
earlier from m = if is_empty from then m else until from m

entries_before-until :
    (from : Bytes) (m back : Entries)
    → entries_before from m back ≡ entries_back (until from m) back
unfolding entries_before
entries_before-until from [] back = refl
entries_before-until from ((k, v) ∷ m) back =
    ground (arith, entries_before-until from m ((k, v) ∷ back))

length-entries_back : (xs acc : Entries) → length (entries_back xs acc) ≡ length xs + length acc
length-entries_back [] acc = omega arith
length-entries_back (x ∷ xs) acc = omega (arith, length-entries_back xs (x ∷ acc))

abbrev messages_of : MessageCodec → Entries → List Message
messages_of codec es = map (λ e. codec.unmarshal e.1) es

fill_page-take :
    (codec : MessageCodec) (n : ℕ) (back acc : Entries)
    → fill_page codec n back (messages_of codec acc) ≡ record {
      filled = messages_of codec (entries_back (take n back) acc);
      missing = n - length back;
      before = drop n back;
    }
unfolding fill_page
fill_page-take codec zero back acc = ap (λ n. with_missing n) (omega arith)
  where
    with_missing : ℕ → Page
    with_missing n = record { filled = messages_of codec acc; missing = n; before = back }
fill_page-take codec (suc n) [] acc = ap (λ m. with_missing m) (omega arith)
  where
    with_missing : ℕ → Page
    with_missing m = record { filled = messages_of codec acc; missing = m; before = [] }
fill_page-take codec (suc n) ((k, v) ∷ back) acc =
    fill_page-take codec n back ((k, v) ∷ acc) ∙ ap (λ m. with_missing m) (omega arith)
  where
    with_missing : ℕ → Page
    with_missing m = record {
      filled = messages_of codec (entries_back (take n back) ((k, v) ∷ acc));
      missing = m;
      before = drop n back;
    }

page_result-full :
    (codec : MessageCodec) (count : ℕ) (p : Page)
    → p.missing < count
    → page_result codec count p ≡ (p.filled, not (is_empty p.before))
page_result-full codec count p h = ground (arith, h)

page_result-empty :
    (codec : MessageCodec) (n : ℕ)
    → page_result codec (suc n) (record { filled = []; missing = suc n; before = [] }) ≡ ([], false)
page_result-empty codec n = ground arith

is_empty-entries_back :
    (xs : Entries) (e : Bytes × Bytes) (acc : Entries)
    → is_empty (entries_back xs (e ∷ acc)) ≡ false
is_empty-entries_back [] e acc = refl
is_empty-entries_back (x ∷ xs) e acc = is_empty-entries_back xs x (e ∷ acc)

is_empty_back : (xs : Entries) → is_empty (entries_back xs []) ≡ is_empty xs
is_empty_back [] = refl
is_empty_back (x ∷ xs) = is_empty-entries_back xs x []

-- The page over the entries before the cursor, nearest first
page_back :
    (codec : MessageCodec) (n : ℕ) (back : Entries)
    → page_result codec (suc n) (fill_page codec (suc n) back []) ≡ (
      messages_of codec (entries_back (take (suc n) back) []),
      not (is_empty (entries_back (drop (suc n) back) [])),
    )
page_back codec n [] = unfold fill_page in page_result-empty codec n
page_back codec n (e ∷ back) =
    ap (λ p. page_result codec (suc n) p) (fill_page-take codec (suc n) (e ∷ back) [])
    ∙ page_result-full codec (suc n)
        (record {
          filled = messages_of codec (entries_back (take (suc n) (e ∷ back)) []);
          missing = suc n - length (e ∷ back);
          before = drop (suc n) (e ∷ back);
        })
        (omega arith)
    ∙ ap (λ b. (messages_of codec (entries_back (take (suc n) (e ∷ back)) []), not b))
        (sym (is_empty_back (drop (suc n) (e ∷ back))))

-- The newest entries and the rest
abbrev pub newest : ℕ → Entries → Entries
newest count xs = entries_back (take count (entries_back xs [])) []

abbrev pub older : ℕ → Entries → Entries
older count xs = entries_back (drop count (entries_back xs [])) []

older-newest : (count : ℕ) (xs : Entries) → older count xs ++ newest count xs ≡ xs
older-newest count xs =
    let back = entries_back xs [] in
    sym (entries_back-acc (drop count back) (newest count xs))
    ∙ sym (entries_back-append (take count back) (drop count back) [])
    ∙ ap (λ l. entries_back l []) (take-append-drop count back)
    ∙ entries_back_twice xs []

length-newest : (count : ℕ) (xs : Entries) → length (newest count xs) ≡ min count (length xs)
length-newest count xs = omega (
  arith,
  length-entries_back (take count (entries_back xs [])) [],
  length-take count (entries_back xs []),
  length-entries_back xs [],
)

page_before :
    (codec : MessageCodec) (n : ℕ) (from : Bytes) (all : Entries)
    → page_result codec (suc n) (
        fill_page codec
          (suc n)
          (if is_empty from then entries_back all [] else entries_before from all [])
          [])
      ≡ (
        messages_of codec (newest (suc n) (earlier from all)),
        not (is_empty (older (suc n) (earlier from all))),
      )
page_before codec n [] all = page_back codec n (entries_back all [])
page_before codec n (c ∷ from) all =
    ap (λ back. page_result codec (suc n) (fill_page codec (suc n) back []))
      (entries_before-until (c ∷ from) all [])
    ∙ page_back codec n (entries_back (until (c ∷ from) all) [])

no_entries :
    (codec : MessageCodec) (n : ℕ) (from : Bytes)
    → ◌≡◌ {A = List Message × Bool}
        ([], false)
        (
          messages_of codec (newest (suc n) (earlier from [])),
          not (is_empty (older (suc n) (earlier from []))),
        )
no_entries codec n [] = refl
no_entries codec n (c ∷ from) = refl

module _ (B : Type 0) (bucket : Bucket B) (codec : MessageCodec) where
  messages_newest :
      (network channel : Bytes) (n : ℕ) (from : Bytes) (buckets : List (Bytes × B))
      → messages B bucket codec network channel (suc n) from buckets ≡ (
        messages_of codec
            (newest (suc n) (earlier from (entries B bucket network channel buckets))),
        not (is_empty (older (suc n) (earlier from (entries B bucket network channel buckets)))),
      )
  unfolding messages entries
  messages_newest network channel n from buckets =
      go (lookup (bucket_name network channel) buckets) refl
    where
      go :
          (found : Option B)
          → lookup (bucket_name network channel) buckets ≡ found
          → messages B bucket codec network channel (suc n) from buckets ≡ (
            messages_of codec
                (newest (suc n) (earlier from (entries B bucket network channel buckets))),
            not (
                is_empty (older (suc n) (earlier from (entries B bucket network channel buckets)))),
          )
      go none e = rw (e, messages, entries) (no_entries codec n from)
      go (some b) e = rw (e, messages, entries) (page_before codec n from (bucket.scan [] b))

  -- A page: the entries before the point in two parts, the later of them on the page
  abbrev pub IsPage : Bytes → Bytes → ℕ → Bytes → List (Bytes × B) → Type 0
  IsPage network channel count from buckets =
      (before page : Entries) × (earlier from (entries B bucket network channel buckets)
        ≡ before ++ page)
      × (length page ≡ min count (length (earlier from (entries B bucket network channel buckets))))
      × (messages B bucket codec network channel count from buckets
          ≡ (map (λ e. codec.unmarshal e.1) page, not (is_empty before)))

  -- A page of at least one message: the entries before the point are split in two, the page is the messages
  -- of the later part in order, that part has as many as were asked for or all that there are, and `hasMore`
  -- says whether the earlier part holds any.
  pub messages-IsPage :
      (network channel : Bytes) (n : ℕ) (from : Bytes) (buckets : List (Bytes × B))
      → IsPage network channel (suc n) from buckets
  messages-IsPage network channel n from buckets =
      let xs = earlier from (entries B bucket network channel buckets) in
      (
        older (suc n) xs,
        newest (suc n) xs,
        sym (older-newest (suc n) xs),
        length-newest (suc n) xs,
        messages_newest network channel n from buckets,
      )
