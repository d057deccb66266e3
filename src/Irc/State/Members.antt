-- ===== src/Irc/State/Members.antt =====
-- Who is in which channel, before and after each operation.
use dispatch.Base.{
  Bytes, Bool, false, not, ◌&&◌, ◌||◌, List, [], ◌∷◌, ◌++◌, none, some, ◌==◌, nat_eq, bytes_eq,
  bytes_beq_iff, if◌then◌else◌, map, lookup, insert, lookup-insert, keys, contains, ◌≡◌, refl,
  arith, Bool-cases, Option-cases, inl, inr, index_any,
}
use dispatch.Irc.User.{User, new_user, to_string, user_mode_prefixes}
use dispatch.Irc.User.Modes.{to_string-new_user}
use dispatch.Irc.State.{
  Roster, State, users_of, get_users, set_users, has_nick, add_user, remove_nick, remove_user,
}

-- The view of a roster: is the nick in the channel?
unfoldable pub is_member : Bytes → Bytes → State → Bool
is_member nick channel s = has_nick nick (users_of channel s.users)

map-to_string-new_user : (names : List Bytes) → map to_string (map new_user names) ≡ names
map-to_string-new_user [] = refl
map-to_string-new_user (n ∷ names) = cc (to_string-new_user n, map-to_string-new_user names)

-- After `setUsers` the channel lists the names as they came, prefixes included, and every other
-- channel is as before.
pub get_users-set_users :
    (names : List Bytes) (channel other : Bytes) (s : State)
    → get_users other (set_users names channel s)
      ≡ (if channel == other then names else get_users other s)
unfolding get_users set_users users_of
get_users-set_users names channel other s =
    ground (
      arith,
      lookup-insert channel other (map new_user names) s.users,
      map-to_string-new_user names,
    )

-- No nick stands twice in one list.
abbrev pub DistinctNicks : List User → Type 0
DistinctNicks [] = Unit
DistinctNicks (u ∷ us) = (has_nick u.nick us ≡ false) × DistinctNicks us

abbrev pub IsRoster : Roster → Type 0
IsRoster [] = Unit
IsRoster ((channel, us) ∷ r) = DistinctNicks us × IsRoster r

pub has_nick-remove_nick :
    (user nick : Bytes) (us : List User)
    → DistinctNicks us
    → has_nick nick (remove_nick user us) ≡ (has_nick nick us && not (nick == user))
unfolding has_nick remove_nick
has_nick-remove_nick user nick [] h = refl
has_nick-remove_nick user nick (u ∷ us) h = ground (
  arith,
  bytes_beq_iff u.nick user,
  bytes_beq_iff u.nick nick,
  bytes_beq_iff nick user,
  has_nick-remove_nick user nick us h.1,
  h.0,
)

pub users_of_cons :
    (channel c : Bytes) (us : List User) (r : Roster)
    → users_of channel ((c, us) ∷ r) ≡ (if c == channel then us else users_of channel r)
unfolding users_of lookup
users_of_cons channel c us r = ground arith

users_of-DistinctNicks :
    (channel : Bytes) (r : Roster) → IsRoster r → DistinctNicks (users_of channel r)
users_of-DistinctNicks channel [] h = unfold users_of lookup in tt
users_of-DistinctNicks channel ((c, us) ∷ r) h = elim (Bool-cases (c == channel)) [
  | inl same ↦ rw (users_of_cons channel c us r, same) h.0
  | inr other ↦ rw (users_of_cons channel c us r, other) (users_of-DistinctNicks channel r h.1)
]

users_of-insert :
    (channel other : Bytes) (us : List User) (r : Roster)
    → users_of other (insert channel us r) ≡ (if channel == other then us else users_of other r)
unfolding users_of
users_of-insert channel other us r = ground (arith, lookup-insert channel other us r)

-- A nick that `NewUser` does not take a prefix from.
abbrev pub Unprefixed : Bytes → Type 0
Unprefixed [] = Unit
Unprefixed (c ∷ s) = contains user_mode_prefixes c ≡ false

nick-new_user : (n : Bytes) → Unprefixed n → (new_user n).nick ≡ n
unfolding new_user index_any
nick-new_user [] h = refl
nick-new_user (c ∷ s) h = ground arith

has_nick-concat :
    (nick : Bytes) (us : List User) (u : User)
    → has_nick nick (us ++ u ∷ []) ≡ (has_nick nick us || u.nick == nick)
unfolding has_nick
has_nick-concat nick [] u = ground arith
has_nick-concat nick (v ∷ us) u = ground (arith, has_nick-concat nick us u)

abbrev pub added : Bytes → List User → List User
added user us = if has_nick user us then us else us ++ new_user user ∷ []

users_of_found :
    (channel : Bytes) (r : Roster) (us : List User)
    → lookup channel r ≡ some us
    → users_of channel r ≡ us
unfolding users_of
users_of_found channel r us e = rw (e, users_of)

users_of_missing :
    (channel : Bytes) (r : Roster) → lookup channel r ≡ none → users_of channel r ≡ []
unfolding users_of
users_of_missing channel r e = rw (e, users_of)

add_user_users :
    (user channel : Bytes) (s : State)
    → (add_user user channel s).users ≡ (
        if has_nick user (users_of channel s.users)
        then s.users
        else insert channel (added user (users_of channel s.users)) s.users)
unfolding add_user
add_user_users user channel s = elim (Option-cases (lookup channel s.users)) [
  | inl missing ↦
      rw (users_of_missing channel s.users missing, missing, add_user) (unfold has_nick in refl)
  | inr (us, found) ↦ rw (users_of_found channel s.users us found, found, add_user) (ground arith)
]

users_of-add_user :
    (user channel other : Bytes) (s : State)
    → users_of other (add_user user channel s).users
      ≡ (if channel == other then added user (users_of channel s.users) else users_of other s.users)
users_of-add_user user channel other s = rw (add_user_users user channel s) (
    ground (
      arith,
      bytes_beq_iff channel other,
      users_of-insert channel other (added user (users_of channel s.users)) s.users,
    ))

-- JOIN of a nick that starts with no mode prefix: the user is in the channel, and no other membership
-- changes.
pub is_member-add_user :
    (user channel nick other : Bytes) (s : State)
    → Unprefixed user
    → is_member nick other (add_user user channel s)
      ≡ (is_member nick other s || (channel == other && user == nick))
unfolding is_member
is_member-add_user user channel nick other s h = ground (
  arith,
  users_of-add_user user channel other s,
  nick-new_user user h,
  bytes_beq_iff channel other,
  bytes_beq_iff user nick,
  has_nick-concat nick (users_of channel s.users) (new_user user),
)

-- PART and KICK of another, when no channel lists a nick twice: the user is not in the channel, and no
-- other membership changes.
pub is_member-remove_user :
    (user channel nick other : Bytes) (s : State)
    → IsRoster s.users
    → is_member nick other (remove_user user channel s)
      ≡ (is_member nick other s && not (channel == other && nick == user))
unfolding is_member remove_user
is_member-remove_user user channel nick other s h = ground (
  arith,
  users_of-insert channel other (remove_nick user (users_of channel s.users)) s.users,
  has_nick-remove_nick user nick (users_of channel s.users)
      (users_of-DistinctNicks channel s.users h),
  bytes_beq_iff channel other,
  bytes_beq_iff nick user,
)

-- The channels of a map are distinct.
abbrev pub DistinctChannels : Roster → Type 0
DistinctChannels [] = Unit
DistinctChannels ((c, us) ∷ r) = (contains (keys r) c ≡ false) × DistinctChannels r
