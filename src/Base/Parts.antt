-- ===== src/Base/Parts.antt =====
-- Laws of the text functions on texts that are put together from parts.
use Prim.Native.Nat.{ℕ, ◌≤◌, ◌<◌}
use mathlib.Core.Path.{◌≡◌, refl, sym, ap, ◌∙◌}
use mathlib.Core.Logic.{◌≢◌, ◌⊎◌, inl, inr}
use mathlib.Core.Bool.{Bool, true, false}
use mathlib.Core.Option.{none, some}
use mathlib.Core.List.{List, [], ◌∷◌, ◌++◌, append-nil, append_assoc}
use native.Mathlib.Omega.{arith}
use dispatch.Base.Tests.{nat_beq, Bytes, Bool-cases}
use dispatch.Base.Lists.{All, length}
use dispatch.Base.Utf8.{decode_rune_ascii, is_space}
use dispatch.Base.Text.{
  has_prefix, index, split_from, split, split_n2, join, fields_from, fields, push_field, trim_right,
}

abbrev pub Lacks : ℕ → Bytes → Type 0
Lacks b = All (λ c. c ≢ b)

-- The position of a byte that does not occur before.
pub index_byte :
    (b : ℕ) (p rest : Bytes) → Lacks b p → index (p ++ b ∷ rest) (b ∷ []) ≡ some (length p)
unfolding index
index_byte b [] rest h = ground arith
index_byte b (c ∷ p) rest h = ground (arith, index_byte b p rest h.1)

pub index_byte_none : (b : ℕ) (p : Bytes) → Lacks b p → index p (b ∷ []) ≡ none
unfolding index
index_byte_none b [] h = ground arith
index_byte_none b (c ∷ p) h = ground (arith, index_byte_none b p h.1)

pub split_n2_at : (b : ℕ) (p rest : Bytes) → Lacks b p → split_n2 (p ++ b ∷ rest) b ≡ (p, some rest)
unfolding split_n2
split_n2_at b [] rest h = ground arith
split_n2_at b (c ∷ p) rest h = ground (arith, split_n2_at b p rest h.1)

pub split_n2-none : (b : ℕ) (p : Bytes) → Lacks b p → split_n2 p b ≡ (p, none)
unfolding split_n2
split_n2-none b [] h = ground arith
split_n2-none b (c ∷ p) h = ground (arith, split_n2-none b p h.1)

split_from-append :
    (b : ℕ) (p rest cur : Bytes)
    → Lacks b p
    → split_from cur (p ++ rest) b ≡ split_from (cur ++ p) rest b
unfolding split_from
split_from-append b [] rest cur h = rw append-nil
split_from-append b (c ∷ p) rest cur h =
    ground (arith, split_from-append b p rest (cur ++ c ∷ []) h.1, append_assoc cur (c ∷ []) p)

split_from_at :
    (b : ℕ) (rest cur : Bytes) → split_from cur (b ∷ rest) b ≡ cur ∷ split_from [] rest b
unfolding split_from
split_from_at b rest cur = ground arith

split_from_nil : (b : ℕ) (p cur : Bytes) → Lacks b p → split_from cur p b ≡ (cur ++ p) ∷ []
unfolding split_from
split_from_nil b [] cur h = rw append-nil
split_from_nil b (c ∷ p) cur h =
    ground (arith, split_from_nil b p (cur ++ c ∷ []) h.1, append_assoc cur (c ∷ []) p)

-- Splitting a join gives the parts back.
pub split-join :
    (b : ℕ) (p : Bytes) (ps : List Bytes)
    → All (Lacks b) (p ∷ ps)
    → split (join (p ∷ ps) (b ∷ [])) b ≡ p ∷ ps
unfolding split join
split-join b p [] h = split_from_nil b p [] h.0
split-join b p (q ∷ ps) h =
    split_from-append b p _ [] h.0 ∙ split_from_at b _ p ∙ ap (◌∷◌ p) (split-join b q ps h.1)

-- A word of printable ASCII characters.
abbrev pub IsWordByte : ℕ → Type 0
IsWordByte c = (0x21 ≤ c) × (c < 128)

abbrev pub IsWord : Bytes → Type 0
IsWord w = All IsWordByte w × (w ≢ [])

is_space_word : (c : ℕ) → IsWordByte c → is_space c ≡ false
unfolding is_space
is_space_word c h = ground arith

is_space_blank : is_space 0x20 ≡ true
unfolding is_space
is_space_blank = refl

fields_from_word :
    (c : ℕ) (s cur : Bytes) (blank : Bool)
    → IsWordByte c
    → fields_from cur blank 0 (c ∷ s) ≡ fields_from (cur ++ c ∷ []) false 0 s
unfolding fields_from
fields_from_word c s cur blank h =
    rw (decode_rune_ascii c s h.1, is_space_word c h, fields_from) (rw (decode_rune_ascii c s h.1))

fields_from_blank :
    (s cur : Bytes) (blank : Bool)
    → fields_from cur blank 0 (0x20 ∷ s) ≡ push_field cur (fields_from [] true 0 s)
unfolding fields_from
fields_from_blank s cur blank =
    rw (decode_rune_ascii 0x20 s (omega arith), is_space_blank, fields_from)
      (rw (decode_rune_ascii 0x20 s (omega arith)))

fields_from-append :
    (w s cur : Bytes) (blank : Bool)
    → All IsWordByte w
    → w ≢ []
    → fields_from cur blank 0 (w ++ s) ≡ fields_from (cur ++ w) false 0 s
fields_from-append [] s cur blank h ne = absurd (ne refl)
fields_from-append (c ∷ []) s cur blank h ne = fields_from_word c s cur blank h.0
fields_from-append (c ∷ d ∷ w) s cur blank h ne =
    fields_from_word c (d ∷ (w ++ s)) cur blank h.0
    ∙ fields_from-append (d ∷ w) s (cur ++ c ∷ []) false h.1 (λ e. cc)
    ∙ ap (λ t. fields_from t false 0 s) (append_assoc cur (c ∷ []) (d ∷ w))

push_field_word : (w : Bytes) (rest : List Bytes) → w ≢ [] → push_field w rest ≡ w ∷ rest
push_field_word [] rest ne = absurd (ne refl)
push_field_word (c ∷ w) rest ne = refl

fields_from-join :
    (w : Bytes) (ws : List Bytes) (blank : Bool)
    → All IsWord (w ∷ ws)
    → fields_from [] blank 0 (join (w ∷ ws) (0x20 ∷ [])) ≡ w ∷ ws
unfolding join
fields_from-join w [] blank ((h, ne), _) =
    ap (fields_from [] blank 0) (sym (append-nil w))
    ∙ fields_from-append w [] [] blank h ne
    ∙ (unfold fields_from in push_field_word w [] ne)
fields_from-join w (v ∷ ws) blank ((h, ne), hs) =
    fields_from-append w _ [] blank h ne
    ∙ fields_from_blank _ w false
    ∙ ap (push_field w) (fields_from-join v ws true hs)
    ∙ push_field_word w (v ∷ ws) ne

-- The fields of words that single blanks separate.
pub fields-join :
    (w : Bytes) (ws : List Bytes)
    → All IsWord (w ∷ ws)
    → fields (join (w ∷ ws) (0x20 ∷ [])) ≡ w ∷ ws
unfolding fields
fields-join w ws h = fields_from-join w ws true h

-- A text that does not start with a byte of its own kind.
pub has_prefix_byte : (b c : ℕ) (s : Bytes) → has_prefix (c ∷ s) (b ∷ []) ≡ nat_beq c b
unfolding has_prefix
has_prefix_byte b c [] = ground arith
has_prefix_byte b c (d ∷ s) = ground arith

-- A text lacks a byte, or splits at its first occurrence.
pub record FirstAt (b : ℕ) (s : Bytes) : Type 0 where
  pub before : Bytes
  pub behind : Bytes
  pub splits : s ≡ before ++ b ∷ behind
  pub lacks : Lacks b before

pub first-cases : (b : ℕ) (s : Bytes) → Lacks b s ⊎ FirstAt b s
first-cases b [] = inl tt
first-cases b (c ∷ s) = elim (Bool-cases (nat_beq c b)) [
  | inl same ↦ inr (record { before = []; behind = s; splits = ground arith; lacks = tt })
  | inr other ↦ elim (first-cases b s) [
    | inl none_left ↦ inl (ground arith, none_left)
    | inr f ↦ inr (record {
      before = c ∷ f.before;
      behind = f.behind;
      splits = ap (◌∷◌ c) f.splits;
      lacks = (ground arith, f.lacks);
    })
  ]
]

-- What is left after trimming on the right does not end with the byte that was cut.
abbrev pub EndsWith : ℕ → Bytes → Type 0
EndsWith b [] = ⊥
EndsWith b (c ∷ []) = c ≡ b
EndsWith b (c ∷ d ∷ s) = EndsWith b (d ∷ s)

pub trim_right-not-EndsWith : (b : ℕ) (s : Bytes) → ¬ EndsWith b (trim_right s b)
unfolding trim_right
trim_right-not-EndsWith b [] = λ e. e
trim_right-not-EndsWith b (c ∷ s) = go (trim_right s b) refl (trim_right-not-EndsWith b s)
  where
    go : (t : Bytes) → trim_right s b ≡ t → ¬ EndsWith b t → ¬ EndsWith b (trim_right (c ∷ s) b)
    go [] e n = rw e (ground arith)
    go (d ∷ t) e n = rw e (ground arith)
