-- ===== src/Base/Int.antt =====
-- Go's 64-bit `int` as an integer, and `strconv.Atoi`.
use Prim.Native.Nat.{ℕ, zero, suc, ◌+◌, ◌-◌, ◌*◌, ◌^◌}
use mathlib.Core.Bool.{Bool, true, false, ◌&&◌}
use mathlib.Core.Option.{Option, none, some}
use mathlib.Core.List.{[], ◌∷◌}
use dispatch.Base.Tests.{ltb, leb, Bytes, if◌then◌else◌}

-- `negsuc n` is -(n + 1).
pub data ℤ : Type 0 where
  pos : ℕ → ℤ
  negsuc : ℕ → ℤ

abbrev pub negate : ℕ → ℤ
negate zero = pos 0
negate (suc n) = negsuc n

abbrev pub is_digit : ℕ → Bool
is_digit c = leb b'0' c && leb c b'9'

-- The digits of a number; `none` is a syntax error.
unfoldable pub digits_from : ℕ → Bytes → Option ℕ
digits_from n [] = some n
digits_from n (c ∷ s) = elim (is_digit c) [
  | true ↦ digits_from (n * 10 + (c - b'0')) s
  | false ↦ none
]

unfoldable pub digits : Bytes → Option ℕ
unfolding digits_from
digits [] = none
digits (c ∷ s) = digits_from 0 (c ∷ s)

abbrev pub max_int : ℕ
max_int = 2 ^ 63 - 1

-- An unsigned value out of range gives the nearest int, with `err` set.
abbrev pub clamp_pos : Option ℕ → ℤ
clamp_pos none = pos 0
clamp_pos (some n) = if ltb max_int n then pos max_int else pos n

abbrev pub clamp_neg : Option ℕ → ℤ
clamp_neg none = pos 0
clamp_neg (some n) = if ltb max_int n then negsuc max_int else negate n

abbrev pub in_range : Option ℕ → ℕ → (Option ℕ → ℤ) → Option ℤ
in_range none bound clamp = none
in_range (some n) bound clamp = if leb n bound then some (clamp (some n)) else none

-- `i, _ := strconv.Atoi(s)`: 0 on a syntax error, the nearest int on a range error.
unfoldable pub atoi : Bytes → ℤ
unfolding digits
atoi [] = pos 0
atoi (c ∷ s) =
    if leb c b'+' && leb b'+' c
    then clamp_pos (digits s)
    else if leb c b'-' && leb b'-' c
    then clamp_neg (digits s)
    else clamp_pos (digits (c ∷ s))

-- `i, err := strconv.Atoi(s)`, with `none` for any error.
unfoldable pub atoi? : Bytes → Option ℤ
unfolding digits
atoi? [] = none
atoi? (c ∷ s) =
    if leb c b'+' && leb b'+' c
    then in_range (digits s) max_int clamp_pos
    else if leb c b'-' && leb b'-' c
    then in_range (digits s) (max_int + 1) clamp_neg
    else in_range (digits (c ∷ s)) max_int clamp_pos

-- `strconv.ParseUint(s, 10, 64)`
unfoldable pub parse_uint : Bytes → Option ℕ
unfolding digits
parse_uint s = elim (digits s) [ none ↦ none | some n ↦ if ltb n (2 ^ 64) then some n else none ]
