-- ===== src/Storage/Bolt/Accounts.antt =====
-- storage/boltdb/boltdb.go: users and sessions. The next number of a sequence and `strconv.FormatUint` are the
-- library's: the number is given, and the text is a parameter. The generated encoders return no error.
use dispatch.Base.{ℕ, Bytes, List, [], ◌∷◌, ◌==◌, nat_eq, if◌then◌else◌}
use dispatch.Server.States.{Session}
use dispatch.Storage.Bolt.{Bucket, Codec, Store, User, id_to_bytes}

module _ (B : Type 0) (bucket : Bucket B) where
  -- The id that `SaveUser` gives to a user that has none, and the name
  abbrev pub with_id : (ℕ → Bytes) → ℕ → User → User
  with_id text next user =
      if user.id == 0
      then record { id = next; id_bytes = id_to_bytes next; username = text next }
      else record user { username = text user.id }

  -- `SaveUser`, for the next number of the sequence
  unfoldable pub save_user : Codec User → (ℕ → Bytes) → ℕ → User → Store B → User × Store B
  save_user codec text next user s =
      let saved = with_id text next user in
      (saved, record s { users = bucket.put saved.id_bytes (codec.marshal saved) s.users })

  unfoldable users_in : Codec User → List (Bytes × Bytes) → List User
  users_in codec [] = []
  users_in codec ((k, v) ∷ rest) = record (codec.unmarshal v) { id_bytes = k } ∷ users_in codec rest

  -- `Users`
  unfoldable pub all_users : Codec User → Store B → List User
  unfolding users_in
  all_users codec s = users_in codec (bucket.scan [] s.users)

  -- `SaveSession`, `DeleteSession` and `Sessions`, on the bucket of the sessions
  unfoldable pub save_session : Codec Session → Session → B → B
  save_session codec session b = bucket.put session.key (codec.marshal session) b

  unfoldable pub delete_session : Bytes → B → B
  delete_session key b = bucket.delete key b

  unfoldable sessions_in : Codec Session → List (Bytes × Bytes) → List Session
  sessions_in codec [] = []
  sessions_in codec ((k, v) ∷ rest) = codec.unmarshal v ∷ sessions_in codec rest

  unfoldable pub all_sessions : Codec Session → B → List Session
  unfolding sessions_in
  all_sessions codec b = sessions_in codec (bucket.scan [] b)
