-- ===== src/Irc/State/Everywhere.antt =====
-- QUIT and NICK, which go through all the channels.
use dispatch.Base.{
  Bytes, false, not, ◌&&◌, ◌||◌, List, [], ◌∷◌, ◌==◌, nat_eq, bytes_eq, bytes_beq_iff,
  if◌then◌else◌, lookup, keys, contains, ◌≡◌, refl, ap, arith, map,
}
use dispatch.Irc.User.{User}
use dispatch.Irc.State.{
  Roster, State, users_of, has_nick, remove_nick, remove_all, channels_with, remove_user_all,
  rename_nick, rename_all, rename_user,
}
use dispatch.Irc.State.Members.{
  is_member, IsRoster, DistinctNicks, DistinctChannels, has_nick-remove_nick, users_of_cons,
}

has_nick-remove_all :
    (user nick other : Bytes) (r : Roster)
    → IsRoster r
    → has_nick nick (users_of other (remove_all user r))
      ≡ (has_nick nick (users_of other r) && not (nick == user))
unfolding remove_all
has_nick-remove_all user nick other [] h = unfold users_of lookup has_nick in refl
has_nick-remove_all user nick other ((c, us) ∷ r) h = ground (
  arith,
  users_of_cons other c us r,
  users_of_cons other c (if has_nick user us then remove_nick user us else us) (remove_all user r),
  has_nick-remove_nick user nick us h.0,
  has_nick-remove_all user nick other r h.1,
  bytes_beq_iff nick user,
)

-- QUIT, when no channel lists a nick twice: the user is in no channel, and everybody else stays where
-- they are.
pub is_member-remove_user_all :
    (user nick other : Bytes) (s : State)
    → IsRoster s.users
    → is_member nick other (remove_user_all user s).0
      ≡ (is_member nick other s && not (nick == user))
unfolding is_member remove_user_all
is_member-remove_user_all user nick other s h = has_nick-remove_all user nick other s.users h

contains-channels_with :
    (user channel : Bytes) (r : Roster)
    → contains (keys r) channel ≡ false
    → contains (channels_with user r) channel ≡ false
unfolding contains channels_with
contains-channels_with user channel [] h = refl
contains-channels_with user channel ((c, us) ∷ r) h =
    ground (arith, contains-channels_with user channel r)

has_nick-absent :
    (user channel : Bytes) (r : Roster)
    → contains (keys r) channel ≡ false
    → has_nick user (users_of channel r) ≡ false
unfolding contains
has_nick-absent user channel [] h = unfold users_of lookup has_nick in refl
has_nick-absent user channel ((c, us) ∷ r) h =
    ground (arith, users_of_cons channel c us r, has_nick-absent user channel r)

channels_with_iff :
    (user channel : Bytes) (r : Roster)
    → DistinctChannels r
    → contains (channels_with user r) channel ≡ has_nick user (users_of channel r)
unfolding channels_with contains
channels_with_iff user channel [] h = unfold users_of lookup has_nick in refl
channels_with_iff user channel ((c, us) ∷ r) h = ground (
  arith,
  users_of_cons channel c us r,
  bytes_beq_iff c channel,
  channels_with_iff user channel r h.1,
  contains-channels_with user channel r,
  h.0,
  has_nick-absent user channel r,
)

-- `removeUserAll` returns exactly the channels that the user was in; the channels of the map are distinct.
pub remove_user_all-channels :
    (user channel : Bytes) (s : State)
    → DistinctChannels s.users
    → contains (remove_user_all user s).1 channel ≡ is_member user channel s
unfolding is_member remove_user_all
remove_user_all-channels user channel s h = channels_with_iff user channel s.users h

has_nick-rename_nick :
    (old new nick : Bytes) (us : List User)
    → DistinctNicks us
    → has_nick nick (rename_nick old new us) ≡ (
        if has_nick old us
        then new == nick || (has_nick nick us && not (nick == old))
        else has_nick nick us)
unfolding has_nick rename_nick
has_nick-rename_nick old new nick [] h = refl
has_nick-rename_nick old new nick (u ∷ us) h = ground (
  arith,
  bytes_beq_iff u.nick old,
  bytes_beq_iff u.nick nick,
  bytes_beq_iff nick old,
  has_nick-rename_nick old new nick us h.1,
  h.0,
)

has_nick-rename_all :
    (old new nick other : Bytes) (r : Roster)
    → IsRoster r
    → has_nick nick (users_of other (rename_all old new r)) ≡ (
        if has_nick old (users_of other r)
        then new == nick || (has_nick nick (users_of other r) && not (nick == old))
        else has_nick nick (users_of other r))
unfolding rename_all
has_nick-rename_all old new nick other [] h = unfold users_of lookup has_nick in refl
has_nick-rename_all old new nick other ((c, us) ∷ r) h = ground (
  arith,
  users_of_cons other c us r,
  users_of_cons other c (rename_nick old new us) (rename_all old new r),
  has_nick-rename_nick old new nick us h.0,
  has_nick-rename_all old new nick other r h.1,
)

-- A user under the new nick, if it has the old one
abbrev pub renamed : Bytes → Bytes → User → User
renamed old new u = if u.nick == old then record u { nick = new } else u

abbrev pub everywhere : (User → User) → Roster → Roster
everywhere f [] = []
everywhere f ((channel, us) ∷ r) = (channel, map f us) ∷ everywhere f r

map-renamed_absent :
    (old new : Bytes) (us : List User) → has_nick old us ≡ false → map (renamed old new) us ≡ us
unfolding has_nick
map-renamed_absent old new [] h = refl
map-renamed_absent old new (u ∷ us) h = ground (arith, h, map-renamed_absent old new us)

rename_nick_lem :
    (old new : Bytes) (us : List User)
    → DistinctNicks us
    → rename_nick old new us ≡ map (renamed old new) us
unfolding rename_nick
rename_nick_lem old new [] h = refl
rename_nick_lem old new (u ∷ us) h = ground (
  arith,
  bytes_beq_iff u.nick old,
  rename_nick_lem old new us h.1,
  map-renamed_absent old new us,
  h.0,
)

rename_all_lem :
    (old new : Bytes) (r : Roster)
    → IsRoster r
    → rename_all old new r ≡ everywhere (renamed old new) r
unfolding rename_all
rename_all_lem old new [] h = refl
rename_all_lem old new ((c, us) ∷ r) h =
    rw (rename_nick_lem old new us h.0, rename_all_lem old new r h.1) refl

-- NICK, when no channel lists a nick twice: in each channel the user with the old nick, if it is there, has
-- the new one, with its modes and its place in the list as before, and nothing else of the state changes. So
-- the new nick stands for the old one in the channels of the user, and in no other.
pub is_member-rename_user :
    (old new nick other : Bytes) (s : State)
    → IsRoster s.users
    → ((rename_user old new s).0 ≡ record s { users = everywhere (renamed old new) s.users })
      × (is_member nick other (rename_user old new s).0 ≡ (
          if is_member old other s
          then new == nick || (is_member nick other s && not (nick == old))
          else is_member nick other s))
unfolding is_member rename_user
is_member-rename_user old new nick other s h = (
  ap (λ r. record s { users = r }) (rename_all_lem old new s.users h),
  has_nick-rename_all old new nick other s.users h,
)
