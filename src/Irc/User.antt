-- ===== src/Irc/User.antt =====
-- pkg/irc/state.go: `User`, its modes and the prefix that shows the highest of them.
pub mod Modes
use mathlib.Core.Option
use dispatch.Base.{
  ℕ, zero, suc, Bytes, Bool, true, false, List, [], ◌∷◌, ◌++◌, Option, none, some, codes, ◌==◌,
  nat_eq, if◌then◌else◌, get_or, index, index_any, contains_text, remove_first, chars, chars_from,
  contains,
}

pub record User : Type 0 where
  pub nick : Bytes
  pub modes : Bytes
  pub prefix : Bytes

abbrev pub user_mode_prefixes : Bytes
user_mode_prefixes = codes "~&@%+"

abbrev pub user_mode_chars : Bytes
user_mode_chars = codes "qaohv"

-- The loop of `updatePrefix`, over the characters with the prefixes beside them.
unfoldable pub prefix_for : Bytes → Bytes → Bytes → Bytes
prefix_for modes (c ∷ cs) (p ∷ ps) =
    let rest = prefix_for modes cs ps in if contains_text modes (c ∷ []) then p ∷ [] else rest
prefix_for modes _ _ = []

unfoldable pub update_prefix : User → User
update_prefix u = record u { prefix = prefix_for u.modes user_mode_chars user_mode_prefixes }

-- `i == 0` for a nick that starts with a prefix; then `i` is its place among the prefixes.
abbrev new_user_at : Bytes → User
new_user_at [] = record { nick = []; modes = []; prefix = [] }
new_user_at (p ∷ nick) =
    let i = Option.get_or (index user_mode_prefixes (p ∷ [])) 0 in
    update_prefix (record { nick = nick; modes = get_or user_mode_chars i 0 ∷ []; prefix = [] })

-- `NewUser`
unfoldable pub new_user : Bytes → User
new_user nick = elim (index_any nick user_mode_prefixes) [
  | some zero ↦ new_user_at nick
  | _ ↦ record { nick = nick; modes = []; prefix = [] }
]

-- `User.String`
abbrev pub to_string : User → Bytes
to_string u = u.prefix ++ u.nick

unfoldable pub add_chars : Bytes → List Bytes → Bytes
add_chars modes [] = modes
add_chars modes (c ∷ cs) = add_chars (if contains_text modes c then modes else modes ++ c) cs

unfoldable pub add_modes : User → Bytes → User
add_modes u modes = update_prefix (record u { modes = add_chars u.modes (chars modes) })

unfoldable pub remove_chars : Bytes → List Bytes → Bytes
remove_chars modes [] = modes
remove_chars modes (c ∷ cs) = remove_chars (remove_first modes c) cs

unfoldable pub remove_modes : User → Bytes → User
remove_modes u modes = update_prefix (record u { modes = remove_chars u.modes (chars modes) })
