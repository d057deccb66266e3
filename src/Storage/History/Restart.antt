-- ===== src/Storage/History/Restart.antt =====
-- The last messages that `LoadUsers` reads back, and the events that are collapsed into them.
use mathlib.Core.Path.{subst}
use dispatch.Base.{
  ℕ, Bytes, Bool, true, List, [], ◌∷◌, ◌++◌, codes, nat_eq, bytes_eq, map, All, ◌≡◌, ◌≢◌, refl, sym,
  ap, ◌∙◌,
}
use dispatch.Storage.Bolt.{Bucket, Channel}
use dispatch.Storage.Bolt.Messages.{
  Event, Message, MessageCodec, Ordered, bucket_name, entries, last_messages,
}
use dispatch.Storage.Bolt.Paging.{messages-IsPage}
use dispatch.Storage.History.Steps.{
  entries-log_message_elsewhere, get_last_message-set_last_message, log_event_in-collapsed,
}
use dispatch.Storage.History.{Log, load_last, log_event, set_last_message, should_collapse}

abbrev Unplaced : Message → Type 0
Unplaced m = (m.network ≡ []) × (m.to ≡ [])

module _ (B : Type 0) (bucket : Bucket B) (codec : MessageCodec) (ordered : Ordered B bucket)
    (guid : ℕ → Bytes) where
  unmarshal-Unplaced : (v : Bytes) → Unplaced (codec.unmarshal v)
  unmarshal-Unplaced v =
      (ap (λ m. m.network) (codec.unmarshal-stored v), ap (λ m. m.to) (codec.unmarshal-stored v))

  all_Unplaced : (page : List (Bytes × Bytes)) → All Unplaced (map (λ e. codec.unmarshal e.1) page)
  all_Unplaced [] = tt
  all_Unplaced (e ∷ page) = (unmarshal-Unplaced e.1, all_Unplaced page)

  last_messages-Unplaced :
      (network channel : Bytes) (buckets : List (Bytes × B)) (m : Message) (more : Bool)
      → last_messages B bucket codec network channel 1 buckets ≡ (m ∷ [], more)
      → Unplaced m
  unfolding last_messages
  last_messages-Unplaced network channel buckets m more e =
      let (before, page, _, _, found) =
        messages-IsPage B bucket codec network channel 0 [] buckets in
      (subst (λ ms. All Unplaced ms) (ap (λ r. r.0) (sym found ∙ e)) (all_Unplaced page)).0

  load_last-found :
      (channel : Channel) (log : Log B) (m : Message) (more : Bool)
      → last_messages B bucket codec channel.network channel.name 1 log.buckets ≡ (m ∷ [], more)
      → load_last B bucket codec ordered guid channel log
        ≡ record log { last = set_last_message channel.network channel.name m log.last }
  unfolding load_last
  load_last-found channel log m more e = rw (e, load_last) refl

  -- After a restart, when the last message of a channel is one that an event is collapsed into, logging the
  -- event leaves the stored history of the channel as it was.
  pub load_last-log_event :
      (channel : Channel) (log : Log B) (event : Event) (m : Message) (more : Bool)
      → last_messages B bucket codec channel.network channel.name 1 log.buckets ≡ (m ∷ [], more)
      → should_collapse m event ≡ true
      → bucket_name channel.network channel.name ≢ codes ":"
      → entries B bucket channel.network channel.name
          (log_event B bucket codec ordered guid channel.network event
            (channel.name ∷ [])
            (load_last B bucket codec ordered guid channel log)).buckets
        ≡ entries B bucket channel.network channel.name log.buckets
  unfolding log_event
  load_last-log_event channel log event m more e hs ne =
      let (hn, ht) = last_messages-Unplaced channel.network channel.name log.buckets m more e in
      let recalled = get_last_message-set_last_message channel.network channel.name m log.last in
      let loaded : Log B = record log {
        last = set_last_message channel.network channel.name m log.last;
      } in
      ap
        (λ l.
          entries B bucket channel.network channel.name
            (log_event B bucket codec ordered guid channel.network event (channel.name ∷ [])
              l).buckets)
        (load_last-found channel log m more e)
      ∙ ap (λ l. entries B bucket channel.network channel.name l.buckets)
          (log_event_in-collapsed B bucket codec ordered guid channel.network channel.name event
            loaded m recalled hs)
      ∙ entries-log_message_elsewhere B bucket codec ordered channel.network channel.name
          (record m { events = m.events ++ event ∷ [] }) log.buckets
          (λ h.
            ne (sym (sym (ap (λ n. bucket_name n m.to) hn ∙ ap (λ t. bucket_name [] t) ht) ∙ h)))
