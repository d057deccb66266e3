-- ===== src/Irc/State.antt =====
-- pkg/irc/state.go: the users, topics and NAMES buffers of the channels. The lock makes each operation
-- one step. A `*User` belongs to one channel list only, so lists of values stand for lists of pointers.
pub mod Members
pub mod Everywhere
use dispatch.Base.{
  ℕ, Bytes, Bool, true, false, ◌&&◌, ◌||◌, List, [], ◌∷◌, ◌++◌, Option, none, some, ◌==◌, bytes_eq,
  if◌then◌else◌, map, lookup, insert, delete,
}
use dispatch.Irc.User.{User, new_user, to_string, add_modes, remove_modes}

abbrev pub Roster : Type 0
Roster = List (Bytes × List User)

pub record State : Type 0 where
  pub users : Roster
  pub topic : List (Bytes × Bytes)
  pub user_buffers : List (Bytes × List Bytes)
  pub motd : List Bytes

abbrev pub new_state : State
new_state = record { users = []; topic = []; user_buffers = []; motd = [] }

unfoldable pub reset : State → State
reset s = record { users = []; topic = []; user_buffers = []; motd = [] }

unfoldable pub remove_channel : Bytes → State → State
remove_channel channel s = record s {
  users = delete channel s.users;
  topic = delete channel s.topic;
}

-- `s.users[channel]`, nil when the channel is missing
unfoldable pub users_of : Bytes → Roster → List User
users_of channel r = elim (lookup channel r) [ none ↦ [] | some us ↦ us ]

unfoldable pub get_users : Bytes → State → List Bytes
get_users channel s = map to_string (users_of channel s.users)

unfoldable pub set_users : List Bytes → Bytes → State → State
set_users users channel s = record s { users = insert channel (map new_user users) s.users }

unfoldable pub has_nick : Bytes → List User → Bool
has_nick nick [] = false
has_nick nick (u ∷ us) = u.nick == nick || has_nick nick us

unfoldable pub add_user : Bytes → Bytes → State → State
add_user user channel s = elim (lookup channel s.users) [
  | some us ↦
      if has_nick user us
      then s
      else record s { users = insert channel (us ++ new_user user ∷ []) s.users }
  | none ↦ record s { users = insert channel (new_user user ∷ []) s.users }
]

-- `append(users[:i], users[i+1:]...)` at the first user with the nick
unfoldable pub remove_nick : Bytes → List User → List User
remove_nick nick [] = []
remove_nick nick (u ∷ us) =
    let rest = remove_nick nick us in if u.nick == nick then us else u ∷ rest

-- `internalRemoveUser`: the state and whether the user was there
unfoldable pub internal_remove_user : Bytes → Bytes → State → State × Bool
internal_remove_user user channel s =
    let us = users_of channel s.users in
    if has_nick user us
    then (record s { users = insert channel (remove_nick user us) s.users }, true)
    else (s, false)

unfoldable pub remove_user : Bytes → Bytes → State → State
unfolding internal_remove_user
remove_user user channel s = (internal_remove_user user channel s).0

-- The loop of `removeUserAll` over the channels.
unfoldable pub remove_all : Bytes → Roster → Roster
remove_all user [] = []
remove_all user ((channel, us) ∷ r) =
    (channel, if has_nick user us then remove_nick user us else us) ∷ remove_all user r

-- The channels whose list has the nick, in the order of the loop.
unfoldable pub channels_with : Bytes → Roster → List Bytes
channels_with user [] = []
channels_with user ((channel, us) ∷ r) =
    let rest = channels_with user r in if has_nick user us then channel ∷ rest else rest

unfoldable pub remove_user_all : Bytes → State → State × List Bytes
unfolding remove_all channels_with
remove_user_all user s = (record s { users = remove_all user s.users }, channels_with user s.users)

-- `rename` within one channel: the first user with the old nick
unfoldable pub rename_nick : Bytes → Bytes → List User → List User
rename_nick old new [] = []
rename_nick old new (u ∷ us) =
    let rest = rename_nick old new us in
    if u.nick == old then record u { nick = new } ∷ us else u ∷ rest

unfoldable pub rename_all : Bytes → Bytes → Roster → Roster
rename_all old new [] = []
rename_all old new ((channel, us) ∷ r) = (channel, rename_nick old new us) ∷ rename_all old new r

unfoldable pub rename_user : Bytes → Bytes → State → State × List Bytes
unfolding rename_all channels_with
rename_user old new s = (record s { users = rename_all old new s.users }, channels_with old s.users)

-- The loop of `setMode`: the first user with the nick
unfoldable pub mode_nick : Bytes → Bytes → Bytes → List User → List User
mode_nick user add remove [] = []
mode_nick user add remove (u ∷ us) =
    let rest = mode_nick user add remove us in
    if u.nick == user then remove_modes (add_modes u add) remove ∷ us else u ∷ rest

unfoldable pub set_mode : Bytes → Bytes → Bytes → Bytes → State → State
set_mode channel user add remove s = elim (lookup channel s.users) [
  | some us ↦ record s { users = insert channel (mode_nick user add remove us) s.users }
  | none ↦ s
]

unfoldable pub get_topic : Bytes → State → Bytes
get_topic channel s = elim (lookup channel s.topic) [ none ↦ [] | some t ↦ t ]

unfoldable pub set_topic : Bytes → Bytes → State → State
set_topic topic channel s = record s { topic = insert channel topic s.topic }
