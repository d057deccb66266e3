-- ===== src/Storage/Bolt/Messages.antt =====
-- storage/boltdb/boltdb.go: the message log. Each network and channel has a bucket in the bucket of the
-- messages, with the id of a message as its key. `Network` and `To` are not among the stored fields.
use dispatch.Base.{
  ℕ, zero, suc, Bytes, bytes_lt, Bool, false, not, List, [], ◌∷◌, ◌++◌, Option, none, some, codes,
  ◌==◌, nat_eq, bytes_eq, if◌then◌else◌, ltb, is_empty, lookup, insert, ◌≡◌,
}
use dispatch.Storage.Bolt.{Bucket}

pub record Event : Type 0 where
  pub kind : Bytes
  pub params : List Bytes
  pub time : ℕ

pub record Message : Type 0 where
  pub id : Bytes
  pub network : Bytes
  pub sender : Bytes
  pub to : Bytes
  pub content : Bytes
  pub time : ℕ
  pub events : List Event

-- The fields that `Marshal` writes.
abbrev pub stored : Message → Message
stored m = record m { network = []; to = [] }

pub record MessageCodec : Type 0 where
  pub marshal : Message → Bytes
  pub unmarshal : Bytes → Message
  pub unmarshal-marshal : (m : Message) → unmarshal (marshal m) ≡ stored m
  -- `Unmarshal` leaves the other fields of a new message as they are.
  pub unmarshal-stored : (v : Bytes) → unmarshal v ≡ stored (unmarshal v)

unfoldable pub put_sorted : Bytes → Bytes → List (Bytes × Bytes) → List (Bytes × Bytes)
unfolding bytes_lt
put_sorted k v [] = (k, v) ∷ []
put_sorted k v ((j, w) ∷ m) =
    let rest = put_sorted k v m in
    if bytes_lt j k then (j, w) ∷ rest else if j == k then (k, v) ∷ m else (k, v) ∷ (j, w) ∷ m

-- A new bucket, and what the library documents of the order of the keys.
pub record Ordered (B : Type 0) (bucket : Bucket B) : Type 0 where
  pub empty : B
  pub walk_empty : bucket.scan [] empty ≡ []
  pub walk-put :
      (k v : Bytes) (b : B) → bucket.scan [] (bucket.put k v b) ≡ put_sorted k v (bucket.scan [] b)
  pub get_lookup : (k : Bytes) (b : B) → bucket.get k b ≡ lookup k (bucket.scan [] b)

abbrev pub bucket_name : Bytes → Bytes → Bytes
bucket_name network to = network ++ codes ":" ++ to

-- The entries that a cursor meets before a key, nearest first; `c.Prev()` after `c.Seek(from)`
unfoldable pub entries_before :
    Bytes → List (Bytes × Bytes) → List (Bytes × Bytes) → List (Bytes × Bytes)
unfolding bytes_lt
entries_before from [] back = back
entries_before from ((k, v) ∷ m) back =
    if bytes_lt k from then entries_before from m ((k, v) ∷ back) else back

-- All the entries, nearest first; `c.Last()`
abbrev pub entries_back : List (Bytes × Bytes) → List (Bytes × Bytes) → List (Bytes × Bytes)
entries_back [] back = back
entries_back (e ∷ m) back = entries_back m (e ∷ back)

-- What the loops of `Messages` leave: the messages that are filled in, how many are missing, and the
-- entries before the cursor
pub record Page : Type 0 where
  pub filled : List Message
  pub missing : ℕ
  pub before : List (Bytes × Bytes)

module _ (codec : MessageCodec) where
  -- The loops of `Messages`, which fill the page from its end
  unfoldable pub fill_page : ℕ → List (Bytes × Bytes) → List Message → Page
  fill_page zero back filled = record { filled = filled; missing = 0; before = back }
  fill_page (suc count) [] filled = record { filled = filled; missing = suc count; before = [] }
  fill_page (suc count) ((k, v) ∷ back) filled = fill_page count back (codec.unmarshal v ∷ filled)

  -- The page that is returned, with `hasMore`, for a count that was asked for
  abbrev pub page_result : ℕ → Page → List Message × Bool
  page_result count p =
      if p.missing == 0
      then (p.filled, not (is_empty p.before))
      else if ltb p.missing count
      then (p.filled, not (is_empty p.before))
      else ([], false)

module _ (B : Type 0) (bucket : Bucket B) (codec : MessageCodec) where
  -- `CreateBucketIfNotExists`
  abbrev pub bucket_for : Ordered B bucket → Bytes → List (Bytes × B) → B
  bucket_for ordered name buckets = elim (lookup name buckets) [ none ↦ ordered.empty | some b ↦ b ]

  -- `logMessage`, which `LogMessage` runs in a transaction of its own
  unfoldable pub log_message : Ordered B bucket → Message → List (Bytes × B) → List (Bytes × B)
  log_message ordered m buckets =
      let name = bucket_name m.network m.to in
      insert name (bucket.put m.id (codec.marshal m) (bucket_for ordered name buckets)) buckets

  -- `LogMessages`
  unfoldable pub log_messages :
      Ordered B bucket → List Message → List (Bytes × B) → List (Bytes × B)
  unfolding log_message
  log_messages ordered [] buckets = buckets
  log_messages ordered (m ∷ ms) buckets = log_messages ordered ms (log_message ordered m buckets)

  -- `Messages`
  unfoldable pub messages : Bytes → Bytes → ℕ → Bytes → List (Bytes × B) → List Message × Bool
  unfolding fill_page entries_before
  messages network channel count from buckets =
      elim (lookup (bucket_name network channel) buckets) [
        | none ↦ ([], false)
        | some b ↦
            let all = bucket.scan [] b in
            let back = if is_empty from then entries_back all [] else entries_before from all [] in
            page_result codec count (fill_page codec count back [])
      ]

  -- `LastMessages` of storage/user.go
  unfoldable pub last_messages : Bytes → Bytes → ℕ → List (Bytes × B) → List Message × Bool
  unfolding messages
  last_messages network channel count buckets = messages network channel count [] buckets

  abbrev by_id : B → Bytes → Option Message
  by_id b id = elim (bucket.get id b) [ none ↦ none | some v ↦ some (codec.unmarshal v) ]

  all_by_id : B → List Bytes → Option (List Message)
  all_by_id b [] = some []
  all_by_id b (id ∷ ids) =
      let rest = all_by_id b ids in
      elim (by_id b id) [
        | none ↦ none
        | some m ↦ elim rest [ none ↦ none | some ms ↦ some (m ∷ ms) ]
      ]

  -- `MessagesByID`; `none` is a panic, on a bucket or a message that is missing
  unfoldable pub messages_by_id :
      Bytes → Bytes → List Bytes → List (Bytes × B) → Option (List Message)
  unfolding all_by_id
  messages_by_id network channel ids buckets = elim (lookup (bucket_name network channel) buckets) [
    | none ↦ elim ids [ [] ↦ some [] | _ ∷ _ ↦ none ]
    | some b ↦ all_by_id b ids
  ]

module _ (B : Type 0) (bucket : Bucket B) where
  -- What a channel's bucket holds, oldest first
  unfoldable pub entries : Bytes → Bytes → List (Bytes × B) → List (Bytes × Bytes)
  entries network channel buckets = elim (lookup (bucket_name network channel) buckets) [
    | none ↦ []
    | some b ↦ bucket.scan [] b
  ]
