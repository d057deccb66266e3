-- ===== src/Base/Base64.antt =====
-- `base64.StdEncoding` of Go's library.
use Prim.Native.Nat.{ℕ, ◌+◌, ◌-◌, ◌*◌, ◌/◌, ◌%◌}
use mathlib.Core.Bool.{Bool, true, false, ◌&&◌, ◌||◌}
use mathlib.Core.Option.{Option, none, some}
use mathlib.Core.List.{[], ◌∷◌}
use dispatch.Base.Tests.{ltb, leb, nat_beq, Bytes, if◌then◌else◌}

-- The character for six bits.
unfoldable pub symbol : ℕ → ℕ
symbol n =
    if ltb n 26
    then b'A' + n
    else if ltb n 52
    then b'a' + (n - 26)
    else if ltb n 62
    then b'0' + (n - 52)
    else if nat_beq n 62
    then b'+'
    else b'/'

-- `EncodeToString`
unfoldable pub encode64 : Bytes → Bytes
unfolding symbol
encode64 [] = []
encode64 (a ∷ []) = symbol (a / 4) ∷ symbol (a % 4 * 16) ∷ b'=' ∷ b'=' ∷ []
encode64 (a ∷ b ∷ []) =
    symbol (a / 4) ∷ symbol (a % 4 * 16 + b / 16) ∷ symbol (b % 16 * 4) ∷ b'=' ∷ []
encode64 (a ∷ b ∷ c ∷ s) =
    symbol (a / 4)
    ∷ symbol (a % 4 * 16 + b / 16)
    ∷ symbol (b % 16 * 4 + c / 64)
    ∷ symbol (c % 64)
    ∷ encode64 s

within : ℕ → ℕ → ℕ → Bool
within lo hi c = leb lo c && leb c hi

-- The six bits of a character.
unfoldable pub bits : ℕ → Option ℕ
unfolding within
bits c =
    if within b'A' b'Z' c
    then some (c - b'A')
    else if within b'a' b'z' c
    then some (c - b'a' + 26)
    else if within b'0' b'9' c
    then some (c - b'0' + 52)
    else if nat_beq c b'+'
    then some 62
    else if nat_beq c b'/'
    then some 63
    else none

-- Line ends are not part of the encoded text.
no_line_ends : Bytes → Bytes
no_line_ends [] = []
no_line_ends (c ∷ s) =
    let rest = no_line_ends s in if nat_beq c 0x0D || nat_beq c 0x0A then rest else c ∷ rest

prepend : Bytes → Option Bytes → Option Bytes
prepend s none = none
prepend [] (some t) = some t
prepend (a ∷ []) (some t) = some (a ∷ t)
prepend (a ∷ b ∷ []) (some t) = some (a ∷ b ∷ t)
prepend (a ∷ b ∷ c ∷ s) (some t) = some (a ∷ b ∷ c ∷ t)

-- A group of four characters, the last of them with padding; `last` says that nothing follows it.
group : Bool → ℕ → ℕ → ℕ → ℕ → Option Bytes
group last x y z w = elim (bits x) [
  | none ↦ none
  | some a ↦ elim (bits y) [
    | none ↦ none
    | some b ↦
        if last && nat_beq z b'=' && nat_beq w b'='
        then some ((a * 4 + b / 16) ∷ [])
        else elim (bits z) [
          | none ↦ none
          | some c ↦
              if last && nat_beq w b'='
              then some ((a * 4 + b / 16) ∷ (b % 16 * 16 + c / 4) ∷ [])
              else elim (bits w) [
                | none ↦ none
                | some d ↦ some ((a * 4 + b / 16) ∷ (b % 16 * 16 + c / 4) ∷ (c % 4 * 64 + d) ∷ [])
              ]
        ]
  ]
]

abbrev is_nil : Bytes → Bool
is_nil [] = true
is_nil (c ∷ s) = false

abbrev join_group : Option Bytes → Option Bytes → Option Bytes
join_group none rest = none
join_group (some g) rest = prepend g rest

decode_groups : Bytes → Option Bytes
decode_groups [] = some []
decode_groups (x ∷ y ∷ z ∷ w ∷ s) = join_group (group (is_nil s) x y z w) (decode_groups s)
decode_groups _ = none

-- `DecodeString`, with `none` for an error
unfoldable pub decode64 : Bytes → Option Bytes
unfolding no_line_ends decode_groups group bits prepend
decode64 s = decode_groups (no_line_ends s)
