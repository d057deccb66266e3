-- ===== src/Storage/History/Timeline.antt =====
-- The events of a channel, in the order in which its bucket keeps them, and what `LogEvent` adds.
use mathlib.Core.Path.{subst}
use dispatch.Base.{
  ℕ, suc, Bytes, bytes_lt, true, false, List, [], ◌∷◌, ◌++◌, Option, none, some, nat_eq, bytes_eq,
  lookup, ◌≡◌, refl, sym, ap, ◌∙◌, append-nil, append_assoc, Bool-cases, inl, inr,
}
use dispatch.Storage.Bolt.{Bucket}
use dispatch.Storage.Bolt.Messages.{
  Event, Message, MessageCodec, Ordered, bucket_name, bucket_for, entries, log_message, put_sorted,
}
use dispatch.Storage.History.Steps.{
  get_last_message-set_last_message, log_event_in-apart, log_event_in-collapsed, lookup-insert_same,
  scan_all,
}
use dispatch.Storage.History.{
  Log, collapsing, event_message, get_last_message, log_event_in, should_collapse, stored_and_last,
}
use dispatch.Storage.History.Order.{
  Before, Before-append, Before-later, Before-split, Entries, put_sorted-again, put_sorted-last,
}

module _ (codec : MessageCodec) where
  -- The events of the messages of a bucket
  abbrev pub timeline : Entries → List Event
  timeline [] = []
  timeline ((k, v) ∷ es) = (codec.unmarshal v).events ++ timeline es

  timeline-append : (es fs : Entries) → timeline (es ++ fs) ≡ timeline es ++ timeline fs
  timeline-append [] fs = refl
  timeline-append ((k, v) ∷ es) fs =
      ap (λ l. (codec.unmarshal v).events ++ l) (timeline-append es fs)
      ∙ sym (append_assoc (codec.unmarshal v).events (timeline es) (timeline fs))

  timeline-one : (k : Bytes) (m : Message) → timeline ((k, codec.marshal m) ∷ []) ≡ m.events
  timeline-one k m =
      append-nil (codec.unmarshal (codec.marshal m)).events
      ∙ ap (λ n. n.events) (codec.unmarshal-marshal m)

module _ (B : Type 0) (bucket : Bucket B) (codec : MessageCodec) (ordered : Ordered B bucket) where
  scan-bucket_for :
      (name : Bytes) (buckets : List (Bytes × B))
      → bucket.scan [] (bucket_for B bucket codec ordered name buckets)
        ≡ scan_all B bucket (lookup name buckets)
  scan-bucket_for name buckets = go (lookup name buckets) refl
    where
      go :
          (found : Option B)
          → lookup name buckets ≡ found
          → bucket.scan [] (bucket_for B bucket codec ordered name buckets)
            ≡ scan_all B bucket (lookup name buckets)
      go none e = rw (e, bucket_for) ordered.walk_empty
      go (some b) e = rw (e, bucket_for) refl

  -- What storing a message does to the bucket of its place
  entries-log_message :
      (m : Message) (buckets : List (Bytes × B))
      → entries B bucket m.network m.to (log_message B bucket codec ordered m buckets)
        ≡ put_sorted m.id (codec.marshal m) (entries B bucket m.network m.to buckets)
  unfolding entries log_message
  entries-log_message m buckets =
      let name = bucket_name m.network m.to in
      let b = bucket_for B bucket codec ordered name buckets in
      ap (λ o. scan_all B bucket o)
        (lookup-insert_same name (bucket.put m.id (codec.marshal m) b) buckets)
      ∙ ordered.walk-put m.id (codec.marshal m) b
      ∙ ap (λ es. put_sorted m.id (codec.marshal m) es) (scan-bucket_for name buckets)

  -- A remembered message is the last of the bucket of its place, as it was stored.
  abbrev pub IsLast : Bytes → Bytes → Entries → Message → Type 0
  IsLast network channel es m =
      (m.network ≡ network)
      × (m.to ≡ channel)
      × ((before : Entries) × (es ≡ before ++ (m.id, codec.marshal m) ∷ []) × Before m.id before)

  -- What is remembered of a channel, and that its ids come before the one that is drawn next
  abbrev pub Remembers : Bytes → Bytes → Bytes → Entries → Option Message → Type 0
  Remembers network channel next es none = Before next es
  Remembers network channel next es (some m) = Before next es × IsLast network channel es m

  entries-log_message_at :
      (network channel : Bytes) (m : Message) (buckets : List (Bytes × B))
      → m.network ≡ network
      → m.to ≡ channel
      → entries B bucket network channel (log_message B bucket codec ordered m buckets)
        ≡ put_sorted m.id (codec.marshal m) (entries B bucket network channel buckets)
  entries-log_message_at network channel m buckets hn ht =
      let after = log_message B bucket codec ordered m buckets in
      ap (λ n. entries B bucket n channel after) (sym hn)
      ∙ ap (λ c. entries B bucket m.network c after) (sym ht)
      ∙ entries-log_message m buckets
      ∙ ap (λ n. put_sorted m.id (codec.marshal m) (entries B bucket n m.to buckets)) hn
      ∙ ap (λ c. put_sorted m.id (codec.marshal m) (entries B bucket network c buckets)) ht

  Remembers-at :
      (network channel next : Bytes) (es es' : Entries) (found found' : Option Message)
      → es ≡ es'
      → found ≡ found'
      → Remembers network channel next es' found'
      → Remembers network channel next es found
  Remembers-at network channel next es es' found found' he hf r =
      subst (λ o. Remembers network channel next es o) (sym hf)
        (subst (λ l. Remembers network channel next l found') (sym he) r)

module _ (B : Type 0) (bucket : Bucket B) (codec : MessageCodec) (ordered : Ordered B bucket)
    (guid : ℕ → Bytes) where
  -- The log remembers the channel's last message.
  abbrev pub IsCurrent : Bytes → Bytes → Log B → Type 0
  IsCurrent network channel log =
      Remembers B bucket codec ordered network channel (guid log.drawn)
        (entries B bucket network channel log.buckets) (get_last_message network channel log.last)

  -- One event more on the timeline, and the channel's last message is remembered again
  abbrev pub Adds : Bytes → Bytes → Event → Log B → Log B → Type 0
  Adds network channel event log after =
      (timeline codec (entries B bucket network channel after.buckets)
        ≡ timeline codec (entries B bucket network channel log.buckets) ++ event ∷ [])
      × IsCurrent network channel after

  Adds-apart :
      ((n : ℕ) → bytes_lt (guid n) (guid (suc n)) ≡ true)
      → (network channel : Bytes) (event : Event) (log : Log B)
      → Before (guid log.drawn) (entries B bucket network channel log.buckets)
      → Adds network channel event log (
          stored_and_last B bucket codec ordered guid network channel
            (event_message network channel event (guid log.drawn))
            (suc log.drawn)
            log)
  Adds-apart increasing network channel event log before =
      let m = event_message network channel event (guid log.drawn) in
      let es = entries B bucket network channel log.buckets in
      let stored_last =
        entries-log_message_at B bucket codec ordered network channel m log.buckets refl refl
        ∙ put_sorted-last (guid log.drawn) (codec.marshal m) es before in
      (
        ap (λ l. timeline codec l) stored_last
            ∙ timeline-append codec es ((guid log.drawn, codec.marshal m) ∷ [])
            ∙ ap (λ l. timeline codec es ++ l) (timeline-one codec (guid log.drawn) m),
        Remembers-at B bucket codec ordered network channel (guid (suc log.drawn)) _
            (es ++ (guid log.drawn, codec.marshal m) ∷ []) _ (some m) stored_last
            (get_last_message-set_last_message network channel m log.last)
            (
              Before-append (guid (suc log.drawn)) (guid log.drawn) (codec.marshal m) es
                  (Before-later (guid log.drawn) (guid (suc log.drawn)) es (increasing log.drawn)
                    before)
                  (increasing log.drawn),
              (refl, refl, (es, refl, before)),
            ),
      )

  Adds-collapsed :
      (network channel : Bytes) (event : Event) (log : Log B) (m : Message)
      → Before (guid log.drawn) (entries B bucket network channel log.buckets)
      → IsLast B bucket codec ordered network channel
          (entries B bucket network channel log.buckets)
          m
      → Adds network channel event log (
          stored_and_last B bucket codec ordered guid network channel
            (record m { events = m.events ++ event ∷ [] })
            log.drawn
            log)
  Adds-collapsed network channel event log m before (hn, ht, (earlier, split, order)) =
      let longer : Message = record m { events = m.events ++ event ∷ [] } in
      let es = entries B bucket network channel log.buckets in
      let stored_last =
        entries-log_message_at B bucket codec ordered network channel longer log.buckets hn ht
        ∙ ap (λ l. put_sorted m.id (codec.marshal longer) l) split
        ∙ put_sorted-again m.id (codec.marshal longer) (codec.marshal m) earlier order in
      let (earlier_before, id_before) =
        Before-split (guid log.drawn) m.id (codec.marshal m) earlier
          (subst (λ l. Before (guid log.drawn) l) split before) in
      (
        ap (λ l. timeline codec l) stored_last
            ∙ timeline-append codec earlier ((m.id, codec.marshal longer) ∷ [])
            ∙ ap (λ l. timeline codec earlier ++ l) (timeline-one codec m.id longer)
            ∙ sym (append_assoc (timeline codec earlier) m.events (event ∷ []))
            ∙ ap (λ l. l ++ event ∷ [])
                (sym (
                  ap (λ l. timeline codec l) split
                  ∙ timeline-append codec earlier ((m.id, codec.marshal m) ∷ [])
                  ∙ ap (λ l. timeline codec earlier ++ l) (timeline-one codec m.id m))),
        Remembers-at B bucket codec ordered network channel (guid log.drawn) _
            (earlier ++ (m.id, codec.marshal longer) ∷ []) _ (some longer) stored_last
            (get_last_message-set_last_message network channel longer log.last)
            (
              Before-append (guid log.drawn) m.id (codec.marshal longer) earlier earlier_before
                  id_before,
              (hn, ht, (earlier, refl, order)),
            ),
      )

  Adds-after :
      (network channel : Bytes) (event : Event) (log after result : Log B)
      → result ≡ after
      → Adds network channel event log after
      → Adds network channel event log result
  Adds-after network channel event log after result e a =
      subst (λ l. Adds network channel event log l) (sym e) a

  collapsing-apart :
      (event : Event) (m : Message)
      → should_collapse m event ≡ false
      → collapsing event (some m) ≡ none
  unfolding collapsing
  collapsing-apart event m e = rw e refl

  -- When ids are drawn in increasing order and the log remembers the last message of a channel, logging an
  -- event in the channel adds exactly this event to the end of the channel's timeline, whether or not it is
  -- collapsed into the last message, and the log remembers the channel's last message again.
  pub log_event_in-timeline :
      ((n : ℕ) → bytes_lt (guid n) (guid (suc n)) ≡ true)
      → (network channel : Bytes) (event : Event) (log : Log B) → IsCurrent network channel log
      → Adds network channel event log
          (log_event_in B bucket codec ordered guid network event channel log)
  log_event_in-timeline increasing network channel event log h =
      go (get_last_message network channel log.last) refl
    where
      apart :
          Before (guid log.drawn) (entries B bucket network channel log.buckets)
          → collapsing event (get_last_message network channel log.last) ≡ none
          → Adds network channel event log
              (log_event_in B bucket codec ordered guid network event channel log)
      apart before e =
          Adds-after network channel event log _ _
            (log_event_in-apart B bucket codec ordered guid network channel event log e)
            (Adds-apart increasing network channel event log before)

      go :
          (found : Option Message)
          → get_last_message network channel log.last ≡ found
          → Adds network channel event log
              (log_event_in B bucket codec ordered guid network event channel log)
      go none e =
          apart
            (subst
              (λ o.
                Remembers B bucket codec ordered network channel (guid log.drawn)
                  (entries B bucket network channel log.buckets) o)
              e h)
            (ap (λ o. collapsing event o) e ∙ unfold collapsing in refl)
      go (some m) e =
          let (before, last) =
            subst
              (λ o.
                Remembers B bucket codec ordered network channel (guid log.drawn)
                  (entries B bucket network channel log.buckets) o)
              e h in
          elim (Bool-cases (should_collapse m event)) [
            | inl c ↦
                Adds-after network channel event log _ _
                  (log_event_in-collapsed B bucket codec ordered guid network channel event log m e
                    c)
                  (Adds-collapsed network channel event log m before last)
            | inr c ↦ apart before (ap (λ o. collapsing event o) e ∙ collapsing-apart event m c)
          ]
