-- ===== src/Irc/Features.antt =====
-- pkg/irc/feature.go: the values that RPL_ISUPPORT announces.
pub mod Laws
use dispatch.Base.{
  ℕ, zero, suc, ◌-◌, Bytes, Bool, true, false, List, [], ◌∷◌, ◌++◌, Option, none, some, codes, ◌==◌,
  nat_eq, bytes_eq, if◌then◌else◌, Outcome, ok, panic, ◌>>=◌, length, take, is_empty, contains, map,
  split, lookup, insert, delete, has_key, decode_rune, Rune,
}
use dispatch.Base.Int.{ℤ, pos, negsuc, atoi}
use dispatch.Irc.Message.{split_param}

-- `interface{}`: the values that the transforms make
pub data Feature : Type 0 where
  text : Bytes → Feature
  num : ℤ → Feature
  char_list : List Bytes → Feature
  limits : List (Bytes × ℤ) → Feature

abbrev pub Features : Type 0
Features = List (Bytes × Feature)

-- `toInt`
unfoldable pub to_int : Bytes → Feature
to_int s = if is_empty s then num (pos 0) else num (atoi s)

-- The loop of `toCharList` over the runes: `list[i]` is set at the first byte of each, the bytes behind
-- it keep the empty string.
char_list_from : ℕ → Bytes → List Bytes
char_list_from skip [] = []
char_list_from zero (c ∷ s) = (c ∷ []) ∷ char_list_from ((decode_rune c s).size - 1) s
char_list_from (suc skip) (c ∷ s) = [] ∷ char_list_from skip s

unfoldable pub to_char_list : Bytes → Feature
unfolding char_list_from
to_char_list s = char_list (char_list_from 0 s)

-- The inner loop of `parseChanlimit`: the first byte of each rune of the prefixes gets the limit.
set_limits : ℕ → Bytes → ℤ → List (Bytes × ℤ) → List (Bytes × ℤ)
set_limits skip [] limit m = m
set_limits zero (c ∷ s) limit m =
    set_limits ((decode_rune c s).size - 1) s limit (insert (c ∷ []) limit m)
set_limits (suc skip) (c ∷ s) limit m = set_limits skip s limit m

add_limit : List (Bytes × ℤ) → List Bytes → List (Bytes × ℤ)
unfolding set_limits
add_limit m (prefixes ∷ limit ∷ []) = set_limits 0 prefixes (atoi limit) m
add_limit m _ = m

add_limits : List (Bytes × ℤ) → List Bytes → List (Bytes × ℤ)
unfolding add_limit
add_limits m [] = m
add_limits m (p ∷ ps) = add_limits (add_limit m (split p b':')) ps

unfoldable pub parse_chanlimit : Bytes → Feature
unfolding add_limits
parse_chanlimit s = limits (add_limits [] (split s b','))

abbrev int_features : List Bytes
int_features = map codes (
    "AWAYLEN" ∷ "CHANNELLEN" ∷ "HOSTLEN" ∷ "KICKLEN" ∷ "MAXCHANNELS" ∷ "MAXTARGETS" ∷ "MODES"
    ∷ "NICKLEN" ∷ "TOPICLEN" ∷ "USERLEN" ∷ [])

-- `featureTransforms`
unfoldable pub feature_of : Bytes → Bytes → Feature
unfolding to_int to_char_list parse_chanlimit
feature_of key val =
    if contains int_features key
    then to_int val
    else if key == codes "CHANTYPES"
    then to_char_list val
    else if key == codes "CHANLIMIT"
    then parse_chanlimit val
    else text val

-- The body of the loop of `Parse`.
unfoldable pub apply_feature : Features → Bytes × Bytes → Features
apply_feature f ([], val) = f
apply_feature f (c ∷ key, val) =
    if c == b'-' then delete key f else insert (c ∷ key) (feature_of (c ∷ key) val) f

unfoldable pub apply_features : Features → List Bytes → Features
apply_features f [] = f
apply_features f (p ∷ ps) = apply_features (apply_feature f (split_param p)) ps

-- `params[1 : len(params)-1]`, which needs two parameters
unfoldable pub middle_params : List Bytes → Outcome (List Bytes)
middle_params [] = panic
middle_params (p ∷ []) = panic
middle_params (p ∷ q ∷ ps) = ok (take (length ps) (q ∷ ps))

-- `Parse`
unfoldable pub parse_features : Features → List Bytes → Outcome Features
parse_features f params = middle_params params >>= λ ps. ok (apply_features f ps)

abbrev as_text : Option Feature → Bytes
as_text (some (text s)) = s
as_text _ = []

-- `String(key)`
unfoldable pub feature_text : Bytes → Features → Bytes
feature_text key f = as_text (lookup key f)

abbrev as_int : Option Feature → ℤ
as_int (some (num i)) = i
as_int _ = pos 0

-- `Int(key)`
unfoldable pub feature_int : Bytes → Features → ℤ
feature_int key f = as_int (lookup key f)
