-- ===== src/Irc/Message/TagList.antt =====
-- The loop over the tags reads what was printed for each of them.
use mathlib.Core.Path.{subst}
use mathlib.Core.Bool.{Bool}
use dispatch.Base.{
  ℕ, Bytes, [], ◌∷◌, ◌++◌, ◌≡◌, ◌≢◌, refl, sym, ap, ◌∙◌, arith, List, Lacks, All, All-append, map,
  join, codes, split, split-join, split_n2_at, is_empty, insert, bytes_beq_iff, bytes_eq,
  append_assoc, append-nil,
}
use dispatch.Irc.Message.{split_param, add_tag, add_tags}
use dispatch.Irc.Message.Escape.{escape_byte, escape_tag, unescape_tag-escape_tag}
use dispatch.Irc.Message.Printer.{tag_text, IsKey, Fresh, Distinct}

escape_byte-Lacks : (c : ℕ) → Lacks b';' (escape_byte c) × Lacks b' ' (escape_byte c)
escape_byte-Lacks c = ground arith

escape_tag-Lacks : (v : Bytes) → Lacks b';' (escape_tag v) × Lacks b' ' (escape_tag v)
escape_tag-Lacks [] = (tt, tt)
escape_tag-Lacks (c ∷ v) = (
  All-append _ (escape_byte c) _ (escape_byte-Lacks c).0 (escape_tag-Lacks v).0,
  All-append _ (escape_byte c) _ (escape_byte-Lacks c).1 (escape_tag-Lacks v).1,
)

escape_byte-ne-nil : (c : ℕ) (s : Bytes) → is_empty (escape_byte c ++ s) ≡ Bool.false
escape_byte-ne-nil c s = ground arith

split_param-tag_text :
    (k v : Bytes) → Lacks b'=' k → split_param (tag_text (k, v)) ≡ (k, escape_tag v)
unfolding split_param
split_param-tag_text k v h = rw (split_n2_at b'=' k (escape_tag v) h)

insert-Fresh :
    (k v : Bytes) (m : List (Bytes × Bytes)) → Fresh k m → insert k v m ≡ m ++ (k, v) ∷ []
unfolding insert
insert-Fresh k v [] h = refl
insert-Fresh k v ((j, w) ∷ m) h = ground (arith, bytes_beq_iff j k, insert-Fresh k v m h.1)

add_tag_text :
    (m : List (Bytes × Bytes)) (k v : Bytes)
    → IsKey k
    → Fresh k m
    → add_tag m (tag_text (k, v)) ≡ m ++ (k, v) ∷ []
unfolding add_tag
add_tag_text m [] v h f = absurd (h.0 refl)
add_tag_text m (c ∷ k) [] h f =
    ground (arith, split_param-tag_text (c ∷ k) [] h.1, insert-Fresh (c ∷ k) [] m f)
add_tag_text m (c ∷ k) (d ∷ v) h f = ground (
  arith,
  split_param-tag_text (c ∷ k) (d ∷ v) h.1,
  escape_byte-ne-nil d (escape_tag v),
  unescape_tag-escape_tag (d ∷ v),
  insert-Fresh (c ∷ k) (d ∷ v) m f,
)

-- The tags behind `m` are new to it.
Distinct-Fresh :
    (m : List (Bytes × Bytes)) (k v : Bytes) (ts : List (Bytes × Bytes))
    → Distinct (m ++ (k, v) ∷ ts)
    → Fresh k m
Distinct-Fresh [] k v ts h = tt
Distinct-Fresh ((j, w) ∷ m) k v ts h = (λ e. later m h.0 (sym e), Distinct-Fresh m k v ts h.1)
  where
    later : (m : List (Bytes × Bytes)) → Fresh j (m ++ (k, v) ∷ ts) → k ≢ j
    later [] f = f.0
    later (x ∷ m) f = later m f.1

add_tag_texts :
    (ts m : List (Bytes × Bytes))
    → All (λ t. IsKey t.0) ts
    → Distinct (m ++ ts)
    → add_tags m (map tag_text ts) ≡ m ++ ts
unfolding add_tags
add_tag_texts [] m h d = sym (append-nil m)
add_tag_texts ((k, v) ∷ ts) m h d =
    ap (λ n. add_tags n (map tag_text ts)) (add_tag_text m k v h.0 (Distinct-Fresh m k v ts d))
    ∙ add_tag_texts ts (m ++ (k, v) ∷ []) h.1
        (subst Distinct (sym (append_assoc m ((k, v) ∷ []) ts)) d)
    ∙ append_assoc m ((k, v) ∷ []) ts

tag_text-Lacks :
    (k v : Bytes) → IsKey k → Lacks b';' (tag_text (k, v)) × Lacks b' ' (tag_text (k, v))
tag_text-Lacks k v h = (
  All-append _ k _ h.2 (omega arith, (escape_tag-Lacks v).0),
  All-append _ k _ h.3 (omega arith, (escape_tag-Lacks v).1),
)

tag_texts-Lacks :
    (ts : List (Bytes × Bytes)) → All (λ t. IsKey t.0) ts → All (Lacks b';') (map tag_text ts)
tag_texts-Lacks [] h = tt
tag_texts-Lacks ((k, v) ∷ ts) h = ((tag_text-Lacks k v h.0).0, tag_texts-Lacks ts h.1)

pub joined_tags-Lacks :
    (t : Bytes × Bytes) (ts : List (Bytes × Bytes))
    → All (λ t. IsKey t.0) (t ∷ ts)
    → Lacks b' ' (join (map tag_text (t ∷ ts)) (codes ";"))
unfolding join
joined_tags-Lacks (k, v) [] h = (tag_text-Lacks k v h.0).1
joined_tags-Lacks (k, v) (u ∷ ts) h =
    All-append _ (tag_text (k, v)) _ (tag_text-Lacks k v h.0).1
      (omega arith, joined_tags-Lacks u ts h.1)

-- The tags between the '@' and the blank.
pub add_tags-split-join :
    (t : Bytes × Bytes) (ts : List (Bytes × Bytes))
    → All (λ t. IsKey t.0) (t ∷ ts)
    → Distinct (t ∷ ts)
    → add_tags [] (split (join (map tag_text (t ∷ ts)) (codes ";")) b';') ≡ t ∷ ts
add_tags-split-join t ts h d =
    ap (add_tags []) (split-join b';' (tag_text t) (map tag_text ts) (tag_texts-Lacks (t ∷ ts) h))
    ∙ add_tag_texts (t ∷ ts) [] h d
