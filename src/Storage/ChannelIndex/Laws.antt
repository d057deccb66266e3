-- ===== src/Storage/ChannelIndex/Laws.antt =====
-- The search of the index against a plain description of it, its pages, and the updates that the manager starts.
use Prim.Native.Nat.{◌≤◌}
use dispatch.Base.{
  ℕ, zero, suc, ◌+◌, min, Bytes, true, ◌&&◌, List, [], ◌∷◌, ◌++◌, Option, none, some, ◌==◌, nat_eq,
  bytes_eq, if◌then◌else◌, ltb, leb, Outcome, ok, panic, length, take, drop, has_prefix, lookup,
  lookup-insert, ◌≡◌, refl, sym, ap, ◌∙◌, arith, append-nil, append_assoc, bytes_beq, Bool-cases,
  inl, inr, bytes_beq_iff,
}
use dispatch.Base.Int.{ℤ, pos, negsuc}
use dispatch.Storage.ChannelIndex.{
  ChannelListItem, MapChannelListIndex, add_at, add_prefixes, found, index_key, index_all, finish,
  search, slice_from, search_n, new_index, add,
}

-- The channels whose key starts with a text, in order
abbrev pub matches : (ChannelListItem → Bytes) → Bytes → List ChannelListItem → List ChannelListItem
matches key q [] = []
matches key q (ch ∷ chs) =
    let rest = matches key q chs in if has_prefix (key ch) q then ch ∷ rest else rest

found-add_at :
    (ch : ChannelListItem) (k q : Bytes) (m : List (Bytes × List ChannelListItem))
    → found q (add_at ch k m) ≡ (if k == q then found q m ++ ch ∷ [] else found q m)
unfolding found add_at
found-add_at ch k q m = go (lookup k m) refl
  where
    go :
        (l : Option (List ChannelListItem))
        → lookup k m ≡ l
        → found q (add_at ch k m) ≡ (if k == q then found q m ++ ch ∷ [] else found q m)
    go none e = ground (arith, e, bytes_beq_iff k q, lookup-insert k q (ch ∷ []) m)
    go (some chs) e = ground (arith, e, bytes_beq_iff k q, lookup-insert k q (chs ++ ch ∷ []) m)

take_prefix :
    (i : ℕ) (key q : Bytes)
    → i ≤ length key
    → (take i key == q) ≡ (has_prefix key q && length q == i)
unfolding has_prefix bytes_beq
take_prefix zero key [] h = refl
take_prefix zero key (c ∷ q) h = ground arith
take_prefix (suc i) (k ∷ key) [] h = ground arith
take_prefix (suc i) (k ∷ key) (c ∷ q) h = ground (arith, take_prefix i key q (omega arith))
take_prefix (suc i) [] q h = ground arith

length-prefix : (key q : Bytes) → has_prefix key q ≡ true → length q ≤ length key
unfolding has_prefix
length-prefix key [] h = omega arith
length-prefix [] (c ∷ q) h = ground (arith, h)
length-prefix (k ∷ key) (c ∷ q) h = ground (arith, h, length-prefix key q)

found-add_prefixes :
    (ch : ChannelListItem) (key q : Bytes) (i n : ℕ) (m : List (Bytes × List ChannelListItem))
    → i + n ≤ suc (length key)
    → found q (add_prefixes ch key i n m) ≡ (
        if has_prefix key q && (leb i (length q) && ltb (length q) (i + n))
        then found q m ++ ch ∷ []
        else found q m)
unfolding add_prefixes
found-add_prefixes ch key q i zero m h = ground arith
found-add_prefixes ch key q i (suc n) m h = ground (
  arith,
  found-add_prefixes ch key q (suc i) n (add_at ch (take i key) m) (omega (arith, h)),
  found-add_at ch (take i key) q m,
  take_prefix i key q (omega (arith, h)),
)

module _ (lower : Bytes → Bytes) where
  found-index_all :
      (chs : List ChannelListItem) (c : ℕ) (q : Bytes) (m : List (Bytes × List ChannelListItem))
      → found (c ∷ q) (index_all lower chs m)
        ≡ found (c ∷ q) m ++ matches (index_key lower) (c ∷ q) chs
  unfolding index_all
  found-index_all [] c q m = sym (append-nil (found (c ∷ q) m))
  found-index_all (ch ∷ chs) c q m = ground (
    arith,
    found-index_all chs c q
        (add_prefixes ch (index_key lower ch) 1 (length (index_key lower ch)) m),
    found-add_prefixes ch (index_key lower ch) (c ∷ q) 1 (length (index_key lower ch)) m
        (omega arith),
    length-prefix (index_key lower ch) (c ∷ q),
    append_assoc (found (c ∷ q) m) (ch ∷ []) (matches (index_key lower) (c ∷ q) chs),
  )

  matches-all : (chs : List ChannelListItem) → matches (index_key lower) [] chs ≡ chs
  unfolding has_prefix
  matches-all [] = refl
  matches-all (ch ∷ chs) = ap (◌∷◌ ch) (matches-all chs)

  -- What `Add` has collected
  abbrev pub add_all : List ChannelListItem → MapChannelListIndex → MapChannelListIndex
  add_all [] idx = idx
  add_all (ch ∷ chs) idx = add_all chs (add ch idx)

  add_all-channels :
      (chs before : List ChannelListItem) (m : List (Bytes × List ChannelListItem))
      → add_all chs (record { channels = before; m = m })
        ≡ record { channels = before ++ chs; m = m }
  unfolding add
  add_all-channels [] before m = ap (λ l. with_channels l) (sym (append-nil before))
    where
      with_channels : List ChannelListItem → MapChannelListIndex
      with_channels l = record { channels = l; m = m }
  add_all-channels (ch ∷ chs) before m =
      add_all-channels chs (before ++ ch ∷ []) m
      ∙ ap (λ l. with_channels l) (append_assoc before (ch ∷ []) chs)
    where
      with_channels : List ChannelListItem → MapChannelListIndex
      with_channels l = record { channels = l; m = m }

  pub search-index_all :
      (sorted : List ChannelListItem) (q : Bytes)
      → search q (record { channels = sorted; m = index_all lower sorted [] })
        ≡ matches (index_key lower) q sorted
  unfolding search
  search-index_all sorted [] = sym (matches-all sorted)
  search-index_all sorted (c ∷ q) = found-index_all sorted c q [] ∙ unfold found lookup in refl

  -- After `Add` of some channels to a new index and `Finish`, a search finds exactly the channels whose key
  -- starts with the text, each once for each time that it was added, in the order that the sort gave them.
  pub search-finish :
      (sort : List ChannelListItem → List ChannelListItem) (items : List ChannelListItem)
      (q : Bytes)
      → search q (finish lower sort (add_all items new_index))
        ≡ matches (index_key lower) q (sort items)
  search-finish sort items q =
      ap (λ idx. search q (finish lower sort idx)) (add_all-channels items [] [])
      ∙ unfold finish in search-index_all (sort items) q

drop_past : (start : ℕ) (l : List ChannelListItem) → length l ≤ start → drop start l ≡ []
drop_past zero [] h = refl
drop_past (suc start) [] h = refl
drop_past zero (x ∷ l) h = ground (arith, h)
drop_past (suc start) (x ∷ l) h = drop_past start l (omega (arith, h))

take_nil : (n : ℕ) → take {A = ChannelListItem} n [] ≡ []
take_nil zero = refl
take_nil (suc n) = refl

drop-take_nil : (start k : ℕ) → drop start (take {A = ChannelListItem} k []) ≡ []
drop-take_nil zero k = take_nil k
drop-take_nil (suc start) k = ap (λ l. drop (suc start) l) (take_nil k)

take_length : (k : ℕ) (l : List ChannelListItem) → take (min k (length l)) l ≡ take k l
take_length zero l = ap (λ k. take k l) {y = 0} (omega arith)
take_length (suc k) [] = take_nil (min (suc k) 0)
take_length (suc k) (x ∷ l) =
    ap (λ j. take j (x ∷ l)) (step k (length l)) ∙ ap (◌∷◌ x) (take_length k l)
  where
    step : (k n : ℕ) → min (suc k) (suc n) ≡ suc (min k n)
    step k n = omega arith

drop-take :
    (start n : ℕ) (l : List ChannelListItem)
    → drop start (take (start + n) l) ≡ take n (drop start l)
drop-take zero n l = ap (λ k. take k l) (omega arith)
drop-take (suc start) n [] = drop-take_nil (suc start) (suc start + n) ∙ sym (take_nil n)
drop-take (suc start) n (x ∷ l) =
    ap (λ k. drop (suc start) (take k (x ∷ l))) (step start n) ∙ drop-take start n l
  where
    step : (start n : ℕ) → suc start + n ≡ suc (start + n)
    step start n = omega arith

take_drop :
    (start n : ℕ) (l : List ChannelListItem)
    → ◌≡◌ {A = Outcome (List ChannelListItem)}
        (if leb (length l) start
          then ok []
          else ok (drop start (take (min (start + n) (length l)) l)))
        (ok (take n (drop start l)))
take_drop start n l = elim (Bool-cases (leb (length l) start)) [
  | inl e ↦ rw (e, drop_past start l (ground (arith, e))) (ap (λ l. ok l) (sym (take_nil n)))
  | inr e ↦ rw (e, take_length (start + n) l, drop-take start n l) refl
]

-- The page that a search asks for
abbrev pub page_of : ℤ → ℕ → List ChannelListItem → Outcome (List ChannelListItem)
page_of (pos start) n l = ok (take n (drop start l))
page_of (negsuc start) n l = panic

-- `SearchN` gives the part of what `Search` finds that begins at the start and has at most `n` channels;
-- it panics exactly when the start is negative.
pub search_n_lem :
    (q : Bytes) (start : ℤ) (n : ℕ) (idx : MapChannelListIndex)
    → search_n q start n idx ≡ page_of start n (search q idx)
unfolding search_n search slice_from
search_n_lem [] (pos start) n idx = take_drop start n idx.channels
search_n_lem (c ∷ q) (pos start) n idx = take_drop start n (found (c ∷ q) idx.m)
search_n_lem [] (negsuc start) n idx = refl
search_n_lem (c ∷ q) (negsuc start) n idx = refl
