-- ===== src/Base/Utf8.antt =====
-- `unicode/utf8` and the `range` loop over a string: runes of a Go string, byte by byte.
use Prim.Native.Nat.{ℕ, zero, suc, ◌+◌, ◌-◌, ◌*◌, ◌%◌, ◌≤◌, ◌<◌}
use mathlib.Core.Path.{◌≡◌, refl, ap}
use mathlib.Core.Bool.{Bool, ◌&&◌, ◌||◌}
use mathlib.Core.List.{List, [], ◌∷◌}
use native.Mathlib.Omega.{arith}
use dispatch.Base.Tests.{ltb, leb, nat_beq, if◌then◌else◌, Bytes}
use dispatch.Base.Lists.{All, take}

abbrev pub rune_error : ℕ
rune_error = 0xFFFD

abbrev pub rune_self : ℕ
rune_self = 0x80

abbrev pub within : ℕ → ℕ → ℕ → Bool
within lo hi c = leb lo c && leb c hi

-- A rune and the number of bytes that it takes.
pub record Rune : Type 0 where
  pub value : ℕ
  pub size : ℕ

abbrev bad : Rune
bad = record { value = rune_error; size = 1 }

decode2 : ℕ → Bytes → Rune
decode2 b0 [] = bad
decode2 b0 (b1 ∷ s) =
    if within 0x80 0xBF b1 then record { value = b0 % 32 * 64 + b1 % 64; size = 2 } else bad

-- `lo` and `hi` bound the second byte.
decode3 : ℕ → ℕ → ℕ → Bytes → Rune
decode3 lo hi b0 (b1 ∷ b2 ∷ s) =
    if within lo hi b1 && within 0x80 0xBF b2
    then record { value = b0 % 16 * 4096 + b1 % 64 * 64 + b2 % 64; size = 3 }
    else bad
decode3 lo hi b0 _ = bad

decode4 : ℕ → ℕ → ℕ → Bytes → Rune
decode4 lo hi b0 (b1 ∷ b2 ∷ b3 ∷ s) =
    if within lo hi b1 && within 0x80 0xBF b2 && within 0x80 0xBF b3
    then record { value = b0 % 8 * 262144 + b1 % 64 * 4096 + b2 % 64 * 64 + b3 % 64; size = 4 }
    else bad
decode4 lo hi b0 _ = bad

-- `utf8.DecodeRuneInString` of the string `b0 ∷ s`.
unfoldable pub decode_rune : ℕ → Bytes → Rune
unfolding decode2 decode3 decode4
decode_rune b0 s =
    if ltb b0 rune_self
    then record { value = b0; size = 1 }
    else if within 0xC2 0xDF b0
    then decode2 b0 s
    else if within 0xE0 0xEF b0
    then decode3 (if nat_beq b0 0xE0 then 0xA0 else 0x80) (if nat_beq b0 0xED then 0x9F else 0xBF)
        b0 s
    else if within 0xF0 0xF4 b0
    then decode4 (if nat_beq b0 0xF0 then 0x90 else 0x80) (if nat_beq b0 0xF4 then 0x8F else 0xBF)
        b0 s
    else bad

-- The runes of a string; the number counts the bytes of the current rune that are still to pass.
unfoldable pub runes_from : ℕ → Bytes → List ℕ
runes_from skip [] = []
runes_from zero (c ∷ s) = let r = decode_rune c s in r.value ∷ runes_from (r.size - 1) s
runes_from (suc skip) (c ∷ s) = runes_from skip s

abbrev pub runes : Bytes → List ℕ
runes = runes_from 0

-- `string(c)` for the rune at the head: U+FFFD for a byte that starts no rune.
unfoldable pub rune_text : ℕ → Bytes → Bytes
rune_text c s =
    let r = decode_rune c s in
    if nat_beq r.value rune_error then 0xEF ∷ 0xBF ∷ 0xBD ∷ [] else take r.size (c ∷ s)

-- `for _, c := range s { … string(c) … }`
unfoldable pub chars_from : ℕ → Bytes → List Bytes
chars_from skip [] = []
chars_from zero (c ∷ s) = rune_text c s ∷ chars_from ((decode_rune c s).size - 1) s
chars_from (suc skip) (c ∷ s) = chars_from skip s

abbrev pub chars : Bytes → List Bytes
chars = chars_from 0

-- `unicode.IsSpace`
unfoldable pub is_space : ℕ → Bool
is_space r =
    within 0x09 0x0D r
    || nat_beq r 0x20
    || nat_beq r 0x85
    || nat_beq r 0xA0
    || nat_beq r 0x1680
    || within 0x2000 0x200A r
    || nat_beq r 0x2028
    || nat_beq r 0x2029
    || nat_beq r 0x202F
    || nat_beq r 0x205F
    || nat_beq r 0x3000

abbrev pub IsAscii : Bytes → Type 0
IsAscii = All (λ c. c < 128)

pub decode_rune_ascii :
    (c : ℕ) (s : Bytes) → c < 128 → decode_rune c s ≡ record { value = c; size = 1 }
unfolding decode_rune
decode_rune_ascii c s h = ground arith

pub runes_ascii : (s : Bytes) → IsAscii s → runes s ≡ s
unfolding runes_from
runes_ascii [] h = refl
runes_ascii (c ∷ s) h = rw (decode_rune_ascii c s h.0) (ap (◌∷◌ c) (runes_ascii s h.1))

pub rune_text_ascii : (c : ℕ) (s : Bytes) → c < 128 → rune_text c s ≡ c ∷ []
unfolding rune_text
rune_text_ascii c s h = rw (decode_rune_ascii c s h) (ground arith)

-- Every string of single bytes.
abbrev pub singletons : Bytes → List Bytes
singletons [] = []
singletons (c ∷ s) = (c ∷ []) ∷ singletons s

pub chars_ascii : (s : Bytes) → IsAscii s → chars s ≡ singletons s
unfolding chars_from
chars_ascii [] h = refl
chars_ascii (c ∷ s) h =
    rw (decode_rune_ascii c s h.0, rune_text_ascii c s h.0) (ap (◌∷◌ (c ∷ [])) (chars_ascii s h.1))

-- A rune that does not fit its first byte stands for bytes of 128 and more only.
abbrev pub HighFor : ℕ → Bytes → Type 0
HighFor zero s = Unit
HighFor (suc k) [] = Unit
HighFor (suc k) (c ∷ s) = (128 ≤ c) × HighFor k s

pub decode_rune-HighFor : (c : ℕ) (s : Bytes) → HighFor ((decode_rune c s).size - 1) s
unfolding decode_rune
decode_rune-HighFor c [] = ground arith
decode_rune-HighFor c (b1 ∷ []) = ground arith
decode_rune-HighFor c (b1 ∷ b2 ∷ []) = ground arith
decode_rune-HighFor c (b1 ∷ b2 ∷ b3 ∷ s) = ground arith
