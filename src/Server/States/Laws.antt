-- ===== src/Server/States/Laws.antt =====
-- Deleting, refreshing and pruning sessions.
use mathlib.Core.Path.{subst}
use mathlib.Core.Logic.{◌↔◌}
use dispatch.Base.{
  ℕ, Bytes, Bool, true, false, List, [], ◌∷◌, Option, none, some, ◌==◌, nat_eq, nat_beq_iff,
  bytes_eq, bytes_beq_iff, if◌then◌else◌, ok, panic, lookup, insert, delete, lookup-insert,
  lookup-delete, is_empty, keys, contains, ◌≡◌, ◌≢◌, refl, sym, ap, ◌∙◌, arith, Option-cases,
  has_key, Outcome, inl, inr,
}
use dispatch.Server.States.{
  Session, StateStore, Effect, expired, refresh, get, get_session, set_session, keys_of, clean_up,
  internal_delete_session, prune_sessions,
}

ok-not-panic : {A : Type 0} {a : A} → ok a ≢ panic
ok-not-panic = λ e. cc

-- Whether it was the last session of its user, once it is gone.
abbrev pub was_last : {S : Type 0} → Bytes → Session → StateStore S → Bool
was_last key session store = is_empty (keys_of session.user_id (delete key store.sessions))

abbrev pub after_delete : {S : Type 0} → Bytes → Session → StateStore S → StateStore S
after_delete key session store = record {
  states = if was_last key session store then delete session.user_id store.states else store.states;
  sessions = delete key store.sessions;
}

internal_delete_session_found :
    {S : Type 0} (key : Bytes) (session : Session) (store : StateStore S)
    → lookup key store.sessions ≡ some session
    → internal_delete_session key store
      ≡ ok (
        after_delete key session store,
        clean_up (was_last key session store) (lookup session.user_id store.states) key,
      )
unfolding internal_delete_session
internal_delete_session_found key session store found = rw (found, internal_delete_session) refl

internal_delete_session_missing :
    {S : Type 0} (key : Bytes) (store : StateStore S)
    → lookup key store.sessions ≡ none
    → internal_delete_session key store ≡ panic
unfolding internal_delete_session
internal_delete_session_missing key store missing = rw (missing, internal_delete_session) refl

-- Deleting a session panics exactly when there is none under the key.
pub internal_delete_session-panic_iff :
    {S : Type 0} (key : Bytes) (store : StateStore S)
    → (internal_delete_session key store ≡ panic) ↔ (get_session key store ≡ none)
unfolding get_session
internal_delete_session-panic_iff key store = (there, internal_delete_session_missing key store)
  where
    there : internal_delete_session key store ≡ panic → lookup key store.sessions ≡ none
    there h = elim (Option-cases (lookup key store.sessions)) [
      | inl missing ↦ missing
      | inr (session, found) ↦
          absurd (ok-not-panic (sym (internal_delete_session_found key session store found) ∙ h))
    ]

-- The keys of a map are distinct.
abbrev pub DistinctKeys : List (Bytes × Session) → Type 0
DistinctKeys [] = Unit
DistinctKeys ((key, session) ∷ rest) = (contains (keys rest) key ≡ false) × DistinctKeys rest

-- Each entry of the list is in the store, and the keys of the list are distinct.
abbrev pub Listed : {S : Type 0} → List (Bytes × Session) → StateStore S → Type 0
Listed [] store = Unit
Listed ((key, session) ∷ rest) store =
    (lookup key store.sessions ≡ some session)
    × (contains (keys rest) key ≡ false)
    × Listed rest store

abbrev pub expired_in : ℕ → Option Session → Bool
expired_in now none = false
expired_in now (some session) = expired now session

keys_of-found :
    (key : Bytes) (session : Session) (m : List (Bytes × Session))
    → lookup key m ≡ some session
    → is_empty (keys_of session.user_id m) ≡ false
unfolding keys_of lookup
keys_of-found key session [] found = ground (arith, found)
keys_of-found key session ((k, s) ∷ rest) found =
    ground (arith, found, keys_of-found key session rest, nat_beq_iff s.user_id session.user_id)

-- Each session's user has a live state.
abbrev pub HasStates : {S : Type 0} → StateStore S → Type 0
HasStates store =
    (key : Bytes) (session : Session)
    → lookup key store.sessions ≡ some session
    → has_key session.user_id store.states ≡ true

abbrev pub Finishes : {S : Type 0} → List (Outcome (List (Effect S))) → Type 0
Finishes [] = Unit
Finishes (o ∷ os) = (o ≢ panic) × Finishes os

abbrev pub Pruned : {S : Type 0} → ℕ → List (Bytes × Session) → StateStore S → Bytes → Type 0
Pruned {S = S} now rest store key =
    (after : StateStore S) × (started : List (Outcome (List (Effect S)))) × (prune_sessions now rest
        store
      ≡ ok (after, started))
    × (lookup key after.sessions
        ≡ (if expired_in now (lookup key rest) then none else lookup key store.sessions))
    × (HasStates store → Finishes started)

refresh_drawn :
    (now : ℕ) (drawn : Bytes) (session : Session)
    → (refresh now drawn session).1 ≡ some drawn
    → ((refresh now drawn session).0.key ≡ drawn)
      × ((refresh now drawn session).0.user_id ≡ session.user_id)
unfolding refresh
refresh_drawn now drawn session drew = (ground (arith, drew), ground arith)

-- Refreshing a session as a request does, when the session is stored under its key, is old enough to be
-- refreshed, and draws a key other than its own: it is stored under the new key before the old one is
-- deleted. Nothing panics, the old key is gone, the new one has the session, no other session changes,
-- and no user's state does.
pub refreshed_session :
    {S : Type 0} (now : ℕ) (drawn key other : Bytes) (id : ℕ) (session : Session)
    (store : StateStore S)
    → lookup key store.sessions ≡ some session
    → drawn ≢ key
    → (refresh now drawn session).1 ≡ some drawn
    → (after : StateStore S) × (internal_delete_session key
          (set_session (refresh now drawn session).0 store).0
        ≡ ok (after, ok (Effect.delete_stored key ∷ [])))
      × (get_session other after ≡ (
          if key == other
          then none
          else if drawn == other
          then some (refresh now drawn session).0
          else get_session other store))
      × (get id after ≡ get id store)
unfolding get_session get set_session
refreshed_session {S = S} now drawn key other id session store found new drew =
    let s = (refresh now drawn session).0 in
    let (named, owner) = refresh_drawn now drawn session drew in
    let stored : StateStore S = record store { sessions = insert s.key s store.sessions } in
    let found_yet : lookup key stored.sessions ≡ some session = ground (
      arith,
      lookup-insert s.key key s store.sessions,
      named,
      new,
      found,
      bytes_beq_iff s.key key,
    ) in
    let stays : lookup s.key (delete key stored.sessions) ≡ some s = ground (
      arith,
      lookup-insert s.key s.key s store.sessions,
      lookup-delete key s.key stored.sessions,
      named,
      new,
      bytes_beq_iff key s.key,
      bytes_beq_iff s.key s.key,
    ) in
    let kept : was_last key session stored ≡ false =
      subst (λ i. is_empty (keys_of i (delete key stored.sessions)) ≡ false) owner
        (keys_of-found s.key s (delete key stored.sessions) stays) in
    (
      after_delete key session stored,
      internal_delete_session_found key session stored found_yet
          ∙ ap
              (λ b. ok (
                after_delete key session stored,
                clean_up b (lookup session.user_id store.states) key,
              ))
              kept,
      ground (
        arith,
        lookup-delete key other stored.sessions,
        lookup-insert s.key other s store.sessions,
        named,
        bytes_beq_iff key other,
        bytes_beq_iff s.key other,
      ),
      ap (λ b. lookup id (if b then delete session.user_id store.states else store.states)) kept,
    )
