-- ===== src/Storage/History/Steps.antt =====
-- What one call of the user's log does to the buckets and to the last messages.
use dispatch.Base.{
  ℕ, suc, Bytes, true, List, [], ◌∷◌, ◌++◌, Option, none, some, nat_eq, bytes_eq, bytes_beq_iff,
  lookup, insert, lookup-insert, ◌≡◌, ◌≢◌, refl, ap, ◌∙◌, arith,
}
use dispatch.Storage.Bolt.{Bucket}
use dispatch.Storage.Bolt.Messages.{
  Event, Message, MessageCodec, Ordered, bucket_name, entries, log_message,
}
use dispatch.Storage.History.{
  LastMessages, Log, collapsing, get_last_message, event_message, log_event_in, messages_of,
  set_last_message, should_collapse, stored_and_last,
}

pub lookup-insert_same :
    {V : Type 0} (k : Bytes) (v : V) (m : List (Bytes × V)) → lookup k (insert k v m) ≡ some v
lookup-insert_same k v m = ground (arith, lookup-insert k k v m, bytes_beq_iff k k)

pub get_last_message-set_last_message :
    (network channel : Bytes) (m : Message) (last : LastMessages)
    → get_last_message network channel (set_last_message network channel m last) ≡ some m
unfolding get_last_message set_last_message
get_last_message-set_last_message network channel m last = ground (
  arith,
  bytes_beq_iff network network,
  bytes_beq_iff channel channel,
  lookup-insert network network (insert channel m (messages_of network last)) last,
  lookup-insert channel channel m (messages_of network last),
)

module _ (B : Type 0) (bucket : Bucket B) where
  abbrev pub scan_all : Option B → List (Bytes × Bytes)
  scan_all none = []
  scan_all (some b) = bucket.scan [] b

module _ (B : Type 0) (bucket : Bucket B) (codec : MessageCodec) (ordered : Ordered B bucket) where
  -- A message is stored in the bucket of its own place only.
  pub entries-log_message_elsewhere :
      (network channel : Bytes) (m : Message) (buckets : List (Bytes × B))
      → bucket_name m.network m.to ≢ bucket_name network channel
      → entries B bucket network channel (log_message B bucket codec ordered m buckets)
        ≡ entries B bucket network channel buckets
  unfolding entries log_message
  entries-log_message_elsewhere network channel m buckets ne =
      ap (λ o. scan_all B bucket o)
        (lookup-insert (bucket_name m.network m.to) (bucket_name network channel) _ buckets
          ∙ ground
              (arith, bytes_beq_iff (bucket_name m.network m.to) (bucket_name network channel), ne))

module _ (B : Type 0) (bucket : Bucket B) (codec : MessageCodec) (ordered : Ordered B bucket)
    (guid : ℕ → Bytes) where
  pub log_event_in-collapsed :
      (network channel : Bytes) (event : Event) (log : Log B) (m : Message)
      → get_last_message network channel log.last ≡ some m
      → should_collapse m event ≡ true
      → log_event_in B bucket codec ordered guid network event channel log
        ≡ stored_and_last B bucket codec ordered guid network channel
            (record m { events = m.events ++ event ∷ [] })
            log.drawn
            log
  unfolding log_event_in collapsing
  log_event_in-collapsed network channel event log m e hs =
      rw (e, hs, log_event_in, collapsing) refl

  pub log_event_in-apart :
      (network channel : Bytes) (event : Event) (log : Log B)
      → collapsing event (get_last_message network channel log.last) ≡ none
      → log_event_in B bucket codec ordered guid network event channel log
        ≡ stored_and_last B bucket codec ordered guid network channel
            (event_message network channel event (guid log.drawn))
            (suc log.drawn)
            log
  unfolding log_event_in
  log_event_in-apart network channel event log e = rw (e, log_event_in) refl
