-- ===== src/Storage/History.antt =====
-- storage/user.go: the messages and events that a user logs, over the message log of the store. The ids are
-- the library's, the n-th that is drawn for each n; the search index and the errors of the store are left out.
pub mod Order
pub mod Steps
pub mod Timeline
pub mod Restart
use dispatch.Base.{
  ℕ, zero, suc, ◌+◌, Bytes, Bool, true, false, ◌&&◌, List, [], ◌∷◌, ◌++◌, Option, none, some, codes,
  ◌==◌, nat_eq, bytes_eq, if◌then◌else◌, is_empty, lookup, insert,
}
use dispatch.Storage.Bolt.{Bucket, Channel}
use dispatch.Storage.Bolt.Messages.{
  Event, Message, MessageCodec, Ordered, log_message, last_messages,
}

abbrev pub LastMessages : Type 0
LastMessages = List (Bytes × List (Bytes × Message))

-- The message buckets, the `lastMessages` of the user, and how many ids were drawn
pub record Log (B : Type 0) : Type 0 where
  pub buckets : List (Bytes × B)
  pub last : LastMessages
  pub drawn : ℕ

-- `getLastMessage`
unfoldable pub get_last_message : Bytes → Bytes → LastMessages → Option Message
get_last_message network channel last = elim (lookup network last) [
  | none ↦ none
  | some messages ↦ lookup channel messages
]

-- `u.lastMessages[network]` behind the test that it is there
abbrev pub messages_of : Bytes → LastMessages → List (Bytes × Message)
messages_of network last = elim (lookup network last) [ none ↦ [] | some messages ↦ messages ]

-- `setLastMessage`
unfoldable pub set_last_message : Bytes → Bytes → Message → LastMessages → LastMessages
set_last_message network channel msg last =
    insert network (insert channel msg (messages_of network last)) last

abbrev pub collapsed : List Bytes
collapsed = codes "join" ∷ codes "part" ∷ codes "quit" ∷ codes "nick" ∷ []

abbrev one_if : Bool → ℕ
one_if true = 1
one_if false = 0

-- The loop of `shouldCollapse`, which counts the matches
unfoldable pub count_matches : Bytes → Bytes → List Bytes → ℕ
count_matches first kind [] = 0
count_matches first kind (c ∷ cs) =
    one_if (first == c) + one_if (kind == c) + count_matches first kind cs

unfoldable pub should_collapse : Message → Event → Bool
unfolding count_matches
should_collapse msg event = elim msg.events [
  | [] ↦ false
  | first ∷ _ ↦ count_matches first.kind event.kind collapsed == 2
]

-- The message that `LogEvent` makes for an event of its own
abbrev pub event_message : Bytes → Bytes → Event → Bytes → Message
event_message network channel event id = record {
  id = id;
  network = network;
  sender = [];
  to = channel;
  content = [];
  time = event.time;
  events = event ∷ [];
}

-- The last message, when an event is to be collapsed into it
unfoldable pub collapsing : Event → Option Message → Option Message
unfolding should_collapse
collapsing event none = none
collapsing event (some m) = if should_collapse m event then some m else none

module _ (B : Type 0) (bucket : Bucket B) (codec : MessageCodec) (ordered : Ordered B bucket)
    (guid : ℕ → Bytes) where
  -- The defaults of `LogMessage`
  abbrev pub completed : ℕ → Message → Log B → Message
  completed now msg log = record msg {
    time = if msg.time == 0 then now else msg.time;
    id = if is_empty msg.id then guid log.drawn else msg.id;
    to = if is_empty msg.to then msg.sender else msg.to;
  }

  -- `LogMessage`
  unfoldable pub user_log_message : ℕ → Message → Log B → Log B
  unfolding set_last_message log_message
  user_log_message now msg log =
      let m = completed now msg log in
      record {
        buckets = log_message B bucket codec ordered m log.buckets;
        last = set_last_message m.network m.to m log.last;
        drawn = if is_empty msg.id then suc log.drawn else log.drawn;
      }

  -- What `LogEvent` stores and remembers for a channel
  abbrev pub stored_and_last : Bytes → Bytes → Message → ℕ → Log B → Log B
  stored_and_last network channel m drawn log = record {
    buckets = log_message B bucket codec ordered m log.buckets;
    last = set_last_message network channel m log.last;
    drawn = drawn;
  }

  -- The body of the loop of `LogEvent`
  unfoldable pub log_event_in : Bytes → Event → Bytes → Log B → Log B
  unfolding get_last_message collapsing set_last_message log_message
  log_event_in network event channel log =
      elim (collapsing event (get_last_message network channel log.last)) [
        | some m ↦
            stored_and_last network channel (record m { events = m.events ++ event ∷ [] }) log.drawn
              log
        | none ↦
            stored_and_last network channel (event_message network channel event (guid log.drawn))
              (suc log.drawn) log
      ]

  -- `LogEvent`
  unfoldable pub log_event : Bytes → Event → List Bytes → Log B → Log B
  unfolding log_event_in
  log_event network event [] log = log
  log_event network event (channel ∷ channels) log =
      log_event network event channels (log_event_in network event channel log)

  -- The body of the loop of `LoadUsers` over the channels
  unfoldable pub load_last : Channel → Log B → Log B
  unfolding last_messages set_last_message
  load_last channel log =
      let (found, more) = last_messages B bucket codec channel.network channel.name 1 log.buckets in
      elim found [
        | [] ↦ log
        | m ∷ rest ↦
            if is_empty rest
            then record log { last = set_last_message channel.network channel.name m log.last }
            else log
      ]

  -- That loop, for a user whose `lastMessages` is new
  unfoldable pub load_user : List Channel → Log B → Log B
  unfolding load_last
  load_user [] log = log
  load_user (channel ∷ channels) log = load_user channels (load_last channel log)
