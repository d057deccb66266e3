-- ===== src/Base/Text.antt =====
-- Package `strings` of Go's library, as far as the program uses it, on byte lists.
use Prim.Native.Nat.{ℕ, zero, suc, ◌-◌}
use mathlib.Core.Bool.{Bool, true, false, ◌&&◌}
use mathlib.Core.Option
use mathlib.Core.Option.{Option, none, some}
use mathlib.Core.List.{List, [], ◌∷◌, ◌++◌}
use dispatch.Base.Tests.{ltb, ◌==◌, nat_eq, bytes_eq, Bytes, if◌then◌else◌}
use dispatch.Base.Lists.{contains, drop, length, is_empty}
use dispatch.Base.Utf8.{decode_rune, is_space}

-- `s < t` of strings
unfoldable pub bytes_lt : Bytes → Bytes → Bool
bytes_lt [] [] = false
bytes_lt [] (y ∷ t) = true
bytes_lt (x ∷ s) [] = false
bytes_lt (x ∷ s) (y ∷ t) =
    let rest = bytes_lt s t in if ltb x y then true else if x == y then rest else false

-- `strings.HasPrefix(s, prefix)`
unfoldable pub has_prefix : Bytes → Bytes → Bool
has_prefix s [] = true
has_prefix [] (p ∷ ps) = false
has_prefix (c ∷ s) (p ∷ ps) = c == p && has_prefix s ps

-- `strings.Index(s, sub)`, with `none` for -1
unfoldable pub index : Bytes → Bytes → Option ℕ
unfolding has_prefix
index [] sub = if is_empty sub then some 0 else none
index (c ∷ s) sub =
    let later = index s sub in if has_prefix (c ∷ s) sub then some 0 else Option.map suc later

-- `strings.Contains(s, sub)`
unfoldable pub contains_text : Bytes → Bytes → Bool
unfolding index
contains_text s sub = elim (index s sub) [ none ↦ false | some i ↦ true ]

-- `strings.IndexAny(s, set)` for a set of ASCII characters
unfoldable pub index_any : Bytes → Bytes → Option ℕ
unfolding contains
index_any [] set = none
index_any (c ∷ s) set =
    let later = index_any s set in if contains set c then some 0 else Option.map suc later

-- `strings.Split(s, sep)` for a separator of one byte; `cur` is the part read so far
unfoldable pub split_from : Bytes → Bytes → ℕ → List Bytes
split_from cur [] sep = cur ∷ []
split_from cur (c ∷ s) sep = elim (c == sep) [
  | true ↦ cur ∷ split_from [] s sep
  | false ↦ split_from (cur ++ c ∷ []) s sep
]

unfoldable pub split : Bytes → ℕ → List Bytes
unfolding split_from
split s sep = split_from [] s sep

-- `strings.SplitN(s, sep, 2)`: the part before the first separator, and the part behind it
unfoldable pub split_n2 : Bytes → ℕ → Bytes × Option Bytes
split_n2 [] sep = ([], none)
split_n2 (c ∷ s) sep =
    let later = split_n2 s sep in if c == sep then ([], some s) else (c ∷ later.0, later.1)

-- `strings.Join(parts, sep)`
unfoldable pub join : List Bytes → Bytes → Bytes
join [] sep = []
join (p ∷ []) sep = p
join (p ∷ q ∷ ps) sep = p ++ (sep ++ join (q ∷ ps) sep)

-- `strings.TrimLeft(s, cut)`, `TrimRight` and `Trim` for a cutset of one byte
unfoldable pub trim_left : Bytes → ℕ → Bytes
trim_left [] cut = []
trim_left (c ∷ s) cut = let later = trim_left s cut in if c == cut then later else c ∷ s

unfoldable pub trim_right : Bytes → ℕ → Bytes
trim_right [] cut = []
trim_right (c ∷ s) cut =
    let later = trim_right s cut in if c == cut && is_empty later then [] else c ∷ later

unfoldable pub trim : Bytes → ℕ → Bytes
unfolding trim_left trim_right
trim s cut = trim_right (trim_left s cut) cut

-- `strings.TrimSuffix(s, suffix)`
unfoldable pub trim_suffix : Bytes → Bytes → Bytes
trim_suffix [] suffix = []
trim_suffix (c ∷ s) suffix =
    let later = trim_suffix s suffix in if (c ∷ s) == suffix then [] else c ∷ later

-- `strings.Replace(s, old, "", 1)` for an `old` that is not empty
unfoldable pub remove_first : Bytes → Bytes → Bytes
unfolding has_prefix
remove_first [] old = []
remove_first (c ∷ s) old =
    let later = remove_first s old in
    if has_prefix (c ∷ s) old then drop (length old) (c ∷ s) else c ∷ later

abbrev pub push_field : Bytes → List Bytes → List Bytes
push_field cur rest = if is_empty cur then rest else cur ∷ rest

-- `strings.Fields(s)`: `cur` is the field read so far, and `skip` counts the bytes of the current
-- rune that are still to pass, in a field or in a space.
unfoldable pub fields_from : Bytes → Bool → ℕ → Bytes → List Bytes
fields_from cur blank skip [] = push_field cur []
fields_from cur blank zero (c ∷ s) =
    let r = decode_rune c s in
    elim (is_space r.value) [
      | true ↦ push_field cur (fields_from [] true (r.size - 1) s)
      | false ↦ fields_from (cur ++ c ∷ []) false (r.size - 1) s
    ]
fields_from cur blank (suc skip) (c ∷ s) =
    fields_from (if blank then cur else cur ++ c ∷ []) blank skip s

unfoldable pub fields : Bytes → List Bytes
unfolding fields_from decode_rune is_space
fields s = fields_from [] true 0 s
