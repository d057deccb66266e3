-- ===== src/Server/States.antt =====
-- server/state.go: `stateStore`, the sessions and the live states of the users; pkg/session/session.go:
-- the age of a session. The lock makes each operation one step; what an operation starts with `go` is
-- given beside its result. Times are in seconds, and the session store is the caller's.
pub mod Laws
use dispatch.Base.{
  ℕ, zero, suc, ◌+◌, ◌-◌, ◌*◌, Bytes, Bool, true, false, List, [], ◌∷◌, ◌++◌, Option, none, some,
  ◌==◌, nat_eq, bytes_eq, if◌then◌else◌, Outcome, ok, panic, ◌>>=◌, ltb, lookup, insert, delete,
  is_empty,
}

pub record Session : Type 0 where
  pub user_id : ℕ
  pub key : Bytes
  pub created_at : ℕ

-- `time.Hour * 24 * 7` and `time.Hour`
abbrev pub expiration : ℕ
expiration = 604800

abbrev pub refresh_interval : ℕ
refresh_interval = 3600

-- `Expired` at a time
unfoldable pub expired : ℕ → Session → Bool
expired now s = ltb expiration (now - s.created_at)

-- `Refresh` at a time, with the key that would be drawn: the session, and the new key if it has one
unfoldable pub refresh : ℕ → Bytes → Session → Session × Option Bytes
refresh now key s =
    if ltb refresh_interval (now - s.created_at)
    then (record s { created_at = now; key = key }, some key)
    else (s, none)

-- What a goroutine does: the calls of `internalDeleteSession` and of the session store.
pub data Effect (S : Type 0) : Type 0 where
  kill_state : S → Effect S
  remove_user : S → Effect S
  save_stored : Session → Effect S
  delete_stored : Bytes → Effect S

pub record StateStore (S : Type 0) : Type 0 where
  pub states : List (ℕ × S)
  pub sessions : List (Bytes × Session)

-- The sessions that are not the user's, and the keys of those that are
unfoldable pub without_user : ℕ → List (Bytes × Session) → List (Bytes × Session)
without_user id [] = []
without_user id ((key, session) ∷ rest) =
    let others = without_user id rest in
    if session.user_id == id then others else (key, session) ∷ others

unfoldable pub keys_of : ℕ → List (Bytes × Session) → List Bytes
keys_of id [] = []
keys_of id ((key, session) ∷ rest) =
    let others = keys_of id rest in if session.user_id == id then key ∷ others else others

module _ {S : Type 0} where
  -- The loop of `newStateStore`
  unfoldable pub load_sessions :
      ℕ → List Session → StateStore S × List (Effect S) → StateStore S × List (Effect S)
  load_sessions now [] loaded = loaded
  load_sessions now (session ∷ rest) (store, effects) = load_sessions now rest (
      if expired now session
      then (store, effects ++ Effect.delete_stored session.key ∷ [])
      else (record store { sessions = insert session.key session store.sessions }, effects))

  -- `newStateStore`, with the sessions that the session store has
  unfoldable pub new_state_store : ℕ → List Session → StateStore S × List (Effect S)
  unfolding load_sessions
  new_state_store now stored = load_sessions now stored (record { states = []; sessions = [] }, [])

  unfoldable pub get : ℕ → StateStore S → Option S
  get id store = lookup id store.states

  -- `set`, with `state.user.ID`
  unfoldable pub set : ℕ → S → StateStore S → StateStore S
  set id state store = record store { states = insert id state store.states }

  unfoldable pub get_session : Bytes → StateStore S → Option Session
  get_session key store = lookup key store.sessions

  unfoldable pub set_session : Session → StateStore S → StateStore S × List (Effect S)
  set_session session store = (
    record store { sessions = insert session.key session store.sessions },
    Effect.save_stored session ∷ [],
  )

  deletions : List Bytes → List (Effect S)
  deletions [] = []
  deletions (key ∷ keys) = Effect.delete_stored key ∷ deletions keys

  -- `delete`
  unfoldable pub delete_user : ℕ → StateStore S → StateStore S × List (Effect S)
  unfolding deletions
  delete_user id store = (
    record { states = delete id store.states; sessions = without_user id store.sessions },
    deletions (keys_of id store.sessions),
  )

  -- The goroutine of `internalDeleteSession`; a method of a nil state panics.
  abbrev pub clean_up : Bool → Option S → Bytes → Outcome (List (Effect S))
  clean_up true none key = panic
  clean_up true (some state) key =
      ok (Effect.kill_state state ∷ Effect.remove_user state ∷ Effect.delete_stored key ∷ [])
  clean_up false state key = ok (Effect.delete_stored key ∷ [])

  -- `internalDeleteSession`, and `deleteSession`: the store and the goroutine. The session must be there.
  unfoldable pub internal_delete_session :
      Bytes → StateStore S → Outcome (StateStore S × Outcome (List (Effect S)))
  internal_delete_session key store = elim (lookup key store.sessions) [
    | none ↦ panic
    | some session ↦
        let left = delete key store.sessions in
        let last = is_empty (keys_of session.user_id left) in
        ok (
          record {
            states = if last then delete session.user_id store.states else store.states;
            sessions = left;
          },
          clean_up last (lookup session.user_id store.states) key,
        )
  ]

  -- The loop of `run` over the sessions at a time: the store, and the goroutines that it starts
  unfoldable pub prune_sessions :
      ℕ
      → List (Bytes × Session)
      → StateStore S
      → Outcome (StateStore S × List (Outcome (List (Effect S))))
  prune_sessions now [] store = ok (store, [])
  prune_sessions now ((key, session) ∷ rest) store = elim (expired now session) [
    | true ↦ internal_delete_session key store >>= λ after.
        prune_sessions now rest after.0 >>= λ done. ok (done.0, after.1 ∷ done.1)
    | false ↦ prune_sessions now rest store
  ]

  unfoldable pub prune :
      ℕ → StateStore S → Outcome (StateStore S × List (Outcome (List (Effect S))))
  unfolding prune_sessions
  prune now store = prune_sessions now store.sessions store
