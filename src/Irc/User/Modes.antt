-- ===== src/Irc/User/Modes.antt =====
-- The modes of a user as a set of letters, and the prefix of the highest mode.
use dispatch.Base.{
  ℕ, Bytes, Bool, true, false, not, ◌&&◌, ◌||◌, [], ◌∷◌, ◌++◌, codes, ◌==◌, nat_eq, if◌then◌else◌,
  index, index_any, contains_text, remove_first, has_prefix, contains, chars_ascii, singletons,
  IsAscii, ◌≡◌, refl, arith, Bool-cases, inl, inr,
}
use dispatch.Irc.User.{
  User, user_mode_prefixes, user_mode_chars, prefix_for, update_prefix, new_user, to_string,
  add_chars, add_modes, remove_chars, remove_modes,
}

-- A mode letter is looked up as a text of one byte.
contains_text_byte : (s : Bytes) (c : ℕ) → contains_text s (c ∷ []) ≡ contains s c
unfolding contains_text index has_prefix contains
contains_text_byte [] c = refl
contains_text_byte (x ∷ s) c = ground (arith, contains_text_byte s c)

abbrev pub Nodup : Bytes → Type 0
Nodup [] = Unit
Nodup (x ∷ s) = (contains s x ≡ false) × Nodup s

contains-concat : (s : Bytes) (x c : ℕ) → contains (s ++ x ∷ []) c ≡ (contains s c || x == c)
unfolding contains
contains-concat [] x c = ground arith
contains-concat (y ∷ s) x c = ground (arith, contains-concat s x c)

Nodup-concat : (s : Bytes) (x : ℕ) → Nodup s → contains s x ≡ false → Nodup (s ++ x ∷ [])
unfolding contains
Nodup-concat [] x h n = (refl, tt)
Nodup-concat (y ∷ s) x h n =
    (ground (arith, contains-concat s x y), Nodup-concat s x h.1 (ground arith))

contains-add_chars :
    (add modes : Bytes) (c : ℕ)
    → contains (add_chars modes (singletons add)) c ≡ (contains modes c || contains add c)
unfolding add_chars contains
contains-add_chars [] modes c = ground arith
contains-add_chars (a ∷ add) modes c = ground (
  arith,
  contains_text_byte modes a,
  contains-concat modes a c,
  contains-add_chars add modes c,
  contains-add_chars add (modes ++ a ∷ []) c,
)

add_chars-Nodup : (add modes : Bytes) → Nodup modes → Nodup (add_chars modes (singletons add))
unfolding add_chars
add_chars-Nodup [] modes h = h
add_chars-Nodup (a ∷ add) modes h = elim (Bool-cases (contains modes a)) [
  | inl old ↦ rw (contains_text_byte modes a, old, add_chars) (add_chars-Nodup add modes h)
  | inr new ↦
      rw (contains_text_byte modes a, new, add_chars)
        (add_chars-Nodup add (modes ++ a ∷ []) (Nodup-concat modes a h new))
]

remove_first_byte :
    (x a : ℕ) (s : Bytes)
    → remove_first (x ∷ s) (a ∷ []) ≡ (if x == a then s else x ∷ remove_first s (a ∷ []))
unfolding remove_first has_prefix
remove_first_byte x a s = ground arith

contains-remove_first :
    (s : Bytes) (a c : ℕ)
    → Nodup s
    → contains (remove_first s (a ∷ [])) c ≡ (contains s c && not (a == c))
unfolding contains
contains-remove_first [] a c h = unfold remove_first in refl
contains-remove_first (x ∷ s) a c h =
    ground (arith, remove_first_byte x a s, contains-remove_first s a c h.1, h.0)

remove_first-Nodup : (s : Bytes) (a : ℕ) → Nodup s → Nodup (remove_first s (a ∷ []))
remove_first-Nodup [] a h = unfold remove_first in tt
remove_first-Nodup (x ∷ s) a h = elim (Bool-cases (x == a)) [
  | inl same ↦ rw (remove_first_byte x a s, same) h.1
  | inr other ↦
      rw (remove_first_byte x a s, other)
        (ground (arith, contains-remove_first s a x h.1, h.0), remove_first-Nodup s a h.1)
]

contains-remove_chars :
    (remove modes : Bytes) (c : ℕ)
    → Nodup modes
    → contains (remove_chars modes (singletons remove)) c
      ≡ (contains modes c && not (contains remove c))
unfolding remove_chars contains
contains-remove_chars [] modes c h = ground arith
contains-remove_chars (a ∷ remove) modes c h = ground (
  arith,
  contains-remove_first modes a c h,
  contains-remove_chars remove (remove_first modes (a ∷ [])) c (remove_first-Nodup modes a h),
)

remove_chars-Nodup :
    (remove modes : Bytes) → Nodup modes → Nodup (remove_chars modes (singletons remove))
unfolding remove_chars
remove_chars-Nodup [] modes h = h
remove_chars-Nodup (a ∷ remove) modes h =
    remove_chars-Nodup remove (remove_first modes (a ∷ [])) (remove_first-Nodup modes a h)

-- The prefix of the highest of the modes that `has` holds of.
abbrev pub highest_prefix : (ℕ → Bool) → Bytes
highest_prefix has =
    if has b'q'
    then codes "~"
    else if has b'a'
    then codes "&"
    else if has b'o'
    then codes "@"
    else if has b'h'
    then codes "%"
    else if has b'v'
    then codes "+"
    else []

prefix_for-highest :
    (modes : Bytes)
    → prefix_for modes user_mode_chars user_mode_prefixes ≡ highest_prefix (contains modes)
unfolding prefix_for
prefix_for-highest modes = ground (
  arith,
  contains_text_byte modes b'q',
  contains_text_byte modes b'a',
  contains_text_byte modes b'o',
  contains_text_byte modes b'h',
  contains_text_byte modes b'v',
)

-- The letters are distinct, and the prefix is that of the highest mode.
pub record IsUser (u : User) : Type 0 where
  pub distinct : Nodup u.modes
  pub highest : u.prefix ≡ highest_prefix (contains u.modes)

-- Adding ASCII modes keeps a user well-formed: its letters distinct, and its prefix that of the highest mode.
pub add_modes-IsUser : (u : User) (add : Bytes) → IsAscii add → IsUser u → IsUser (add_modes u add)
unfolding add_modes update_prefix
add_modes-IsUser u add a h =
    rw (chars_ascii add a)
      (record { distinct = add_chars-Nodup add u.modes h.distinct; highest = prefix_for-highest _ })

-- Removing ASCII modes keeps a user well-formed.
pub remove_modes-IsUser :
    (u : User) (remove : Bytes) → IsAscii remove → IsUser u → IsUser (remove_modes u remove)
unfolding remove_modes update_prefix
remove_modes-IsUser u remove a h = rw (chars_ascii remove a) (record {
  distinct = remove_chars-Nodup remove u.modes h.distinct;
  highest = prefix_for-highest _;
})

-- After ASCII modes are added, a user has the modes it had and the added ones, and no others.
pub contains-add_modes :
    (u : User) (add : Bytes) (c : ℕ)
    → IsAscii add
    → contains (add_modes u add).modes c ≡ (contains u.modes c || contains add c)
unfolding add_modes update_prefix
contains-add_modes u add c a = rw (chars_ascii add a) (contains-add_chars add u.modes c)

-- After ASCII modes are removed from a well-formed user, it has the modes it had without the removed ones.
pub contains-remove_modes :
    (u : User) (remove : Bytes) (c : ℕ)
    → IsAscii remove
    → IsUser u
    → contains (remove_modes u remove).modes c ≡ (contains u.modes c && not (contains remove c))
unfolding remove_modes update_prefix
contains-remove_modes u remove c a h =
    rw (chars_ascii remove a) (contains-remove_chars remove u.modes c h.distinct)

new_user_text :
    (p : ℕ) (s : Bytes)
    → contains user_mode_prefixes p ≡ true
    → to_string (new_user (p ∷ s)) ≡ p ∷ s
unfolding new_user index_any index has_prefix contains update_prefix prefix_for contains_text
new_user_text p s h = ground arith

new_user_plain :
    (p : ℕ) (s : Bytes)
    → contains user_mode_prefixes p ≡ false
    → to_string (new_user (p ∷ s)) ≡ p ∷ s
unfolding new_user index_any
new_user_plain p s h = ground arith

-- A name of a NAMES reply, with its prefix or without, is shown again as it came.
pub to_string-new_user : (n : Bytes) → to_string (new_user n) ≡ n
to_string-new_user [] = unfold new_user index_any in refl
to_string-new_user (p ∷ s) = elim (Bool-cases (contains user_mode_prefixes p)) [
  | inl prefixed ↦ new_user_text p s prefixed
  | inr plain ↦ new_user_plain p s plain
]
