-- ===== src/Irc/Casefold/Laws.antt =====
-- `toLower` against a map over the bytes, and `equalFold` against equality of the folded strings.
use Prim.Native.Nat.{◌<◌, ◌≤◌}
use mathlib.Core.Logic.{◌↔◌}
use dispatch.Base.{
  ℕ, zero, suc, ◌-◌, Bytes, true, false, List, [], ◌∷◌, codes, nat_eq, bytes_eq, bytes_beq_iff,
  decode_rune, runes, runes_ascii, IsAscii, HighFor, decode_rune-HighFor, map, ◌≡◌, ◌≢◌, refl, sym,
  ◌∙◌, arith, Bool-cases, inl, inr, rune_error, runes_from, bytes_beq,
}
use dispatch.Irc.Casefold.{
  fold_byte, has_upper, to_lower_from, to_lower, runes_match, equal_runes, equal_fold_to, casefold,
  equal_fold,
}

abbrev fold_bytes : ℕ → Bytes → Bytes
fold_bytes end = map (fold_byte end)

to_lower_from-map :
    (s : Bytes) (end skip : ℕ)
    → end < 128
    → HighFor skip s
    → to_lower_from end skip s ≡ fold_bytes end s
unfolding to_lower_from
to_lower_from-map [] end skip e h = refl
to_lower_from-map (c ∷ s) end zero e h = ground (
  arith,
  to_lower_from-map s end ((decode_rune c s).size - 1) e (decode_rune-HighFor c s),
  to_lower_from-map s end 0 e tt,
)
to_lower_from-map (c ∷ s) end (suc skip) e h = ground (arith, to_lower_from-map s end skip e h.1)

map-no_upper : (s : Bytes) (end : ℕ) → has_upper end s ≡ false → fold_bytes end s ≡ s
unfolding has_upper
map-no_upper [] end h = refl
map-no_upper (c ∷ s) end h = ground (arith, map-no_upper s end)

-- `toLower`, with its early return and its copying of multi-byte characters, folds every byte on its
-- own: for every string, valid UTF-8 or not, and every last upper-case byte below 128.
pub to_lower-map : (s : Bytes) (end : ℕ) → end < 128 → to_lower s end ≡ map (fold_byte end) s
unfolding to_lower
to_lower-map s end e = elim (Bool-cases (has_upper end s)) [
  | inl up ↦ rw up (to_lower_from-map s end 0 e tt)
  | inr plain ↦ rw plain (sym (map-no_upper s end plain))
]

runes_match_iff :
    (end r1 r2 : ℕ)
    → end ≤ 94
    → (runes_match end r1 r2 ≡ true) ↔ (fold_byte end r1 ≡ fold_byte end r2)
runes_match_iff end r1 r2 h = ground arith

equal_runes_iff :
    (end : ℕ) (rs qs : List ℕ)
    → end ≤ 94
    → (equal_runes end rs qs ≡ true) ↔ (map (fold_byte end) rs ≡ map (fold_byte end) qs)
unfolding equal_runes
equal_runes_iff end [] [] h = ground arith
equal_runes_iff end (r ∷ rs) (q ∷ qs) h =
    ground (arith, runes_match_iff end r q h, equal_runes_iff end rs qs h)
equal_runes_iff end [] (q ∷ qs) h = ground arith
equal_runes_iff end (r ∷ rs) [] h = ground arith

equal_fold_to_iff :
    (s1 s2 : Bytes) (end : ℕ)
    → end ≤ 94
    → IsAscii s1
    → IsAscii s2
    → (equal_fold_to s1 s2 end ≡ true) ↔ (to_lower s1 end ≡ to_lower s2 end)
unfolding equal_fold_to
equal_fold_to_iff s1 s2 end h a1 a2 =
    rw
      (
        runes_ascii s1 a1,
        runes_ascii s2 a2,
        to_lower-map s1 end (omega arith),
        to_lower-map s2 end (omega arith),
      )
      (equal_runes_iff end s1 s2 h)

-- On ASCII strings `EqualFold` says that two strings are equal exactly when `Casefold` maps them to
-- one string, for every case mapping, the unknown ones included.
pub equal_fold-casefold_iff :
    (mapping s1 s2 : Bytes)
    → IsAscii s1
    → IsAscii s2
    → (equal_fold mapping s1 s2 ≡ true) ↔ (casefold mapping s1 ≡ casefold mapping s2)
unfolding equal_fold casefold
equal_fold-casefold_iff mapping s1 s2 a1 a2 = ground (
  arith,
  equal_fold_to_iff s1 s2 b'Z' (omega arith) a1 a2,
  equal_fold_to_iff s1 s2 b'^' (omega arith) a1 a2,
  equal_fold_to_iff s1 s2 b']' (omega arith) a1 a2,
  bytes_beq_iff s1 s2,
)

fold_byte_idem : (end c : ℕ) → end ≤ 94 → fold_byte end (fold_byte end c) ≡ fold_byte end c
fold_byte_idem end c h = ground arith

map-fold_byte_idem :
    (end : ℕ) (s : Bytes) → end ≤ 94 → fold_bytes end (fold_bytes end s) ≡ fold_bytes end s
map-fold_byte_idem end [] h = refl
map-fold_byte_idem end (c ∷ s) h =
    ground (arith, fold_byte_idem end c h, map-fold_byte_idem end s h)

to_lower_idem : (s : Bytes) (end : ℕ) → end ≤ 94 → to_lower (to_lower s end) end ≡ to_lower s end
to_lower_idem s end h =
    rw (to_lower-map s end (omega arith))
      (to_lower-map (fold_bytes end s) end (omega arith) ∙ map-fold_byte_idem end s h)

-- `Casefold` maps every string to a representative: folding it again changes nothing.
pub casefold_idem : (mapping s : Bytes) → casefold mapping (casefold mapping s) ≡ casefold mapping s
unfolding casefold
casefold_idem mapping s = ground (
  arith,
  to_lower_idem s b'Z' (omega arith),
  to_lower_idem s b'^' (omega arith),
  to_lower_idem s b']' (omega arith),
)

runes_invalid : (b : ℕ) → 0xF5 ≤ b → runes (b ∷ []) ≡ rune_error ∷ []
unfolding runes_from decode_rune
runes_invalid b h = ground arith

-- Two bytes of 0xF5 and more, which start no character, are equal for `EqualFold` under the rfc1459
-- mapping, though `Casefold` keeps them apart.
pub equal_fold_invalid :
    (b1 b2 : ℕ)
    → 0xF5 ≤ b1
    → 0xF5 ≤ b2
    → b1 ≢ b2
    → (equal_fold (codes "rfc1459") (b1 ∷ []) (b2 ∷ []) ≡ true)
      × (casefold (codes "rfc1459") (b1 ∷ []) ≢ casefold (codes "rfc1459") (b2 ∷ []))
unfolding equal_fold casefold equal_fold_to bytes_beq
equal_fold_invalid b1 b2 h1 h2 ne = (
  rw (runes_invalid b1 h1, runes_invalid b2 h2) refl,
  rw (to_lower-map (b1 ∷ []) b'^' (omega arith), to_lower-map (b2 ∷ []) b'^' (omega arith))
      (ground arith),
)

runes_match_refl : (end r : ℕ) → runes_match end r r ≡ true
runes_match_refl end r = ground arith

equal_runes_refl : (end : ℕ) (rs : List ℕ) → equal_runes end rs rs ≡ true
unfolding equal_runes
equal_runes_refl end [] = refl
equal_runes_refl end (r ∷ rs) = rw (runes_match_refl end r) (equal_runes_refl end rs)

equal_fold_to_refl : (s : Bytes) (end : ℕ) → equal_fold_to s s end ≡ true
unfolding equal_fold_to
equal_fold_to_refl s end = equal_runes_refl end (runes s)

-- Every string, valid UTF-8 or not, is equal to itself.
pub equal_fold_refl : (mapping s : Bytes) → equal_fold mapping s s ≡ true
unfolding equal_fold
equal_fold_refl mapping s = ground (
  arith,
  equal_fold_to_refl s b'Z',
  equal_fold_to_refl s b'^',
  equal_fold_to_refl s b']',
  bytes_beq_iff s s,
)
