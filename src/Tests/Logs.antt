-- ===== src/Tests/Logs.antt =====
-- The log of messages and events and the channel index at concrete inputs.
use dispatch.Base.{
  Bytes, true, false, List, [], ◌∷◌, codes, Returns, ◌≡◌, ◌≢◌, refl, arith, bytes_beq, has_prefix,
  lookup,
}
use dispatch.Base.Int.{pos}
use dispatch.Storage.Bolt.{Channel}
use dispatch.Storage.Bolt.Messages.{Event, Message, bucket_name, entries, last_messages}
use dispatch.Storage.Bolt.Paging.{IsPage, messages-IsPage}
use dispatch.Storage.ChannelIndex.{
  ChannelListItem, MapChannelListIndex, get, search, search_n, timeout_update,
}
use dispatch.Storage.ChannelIndex.Laws.{page_of, search_n_lem}
use dispatch.Storage.ChannelIndex.Updates.{get_once, gets}
use dispatch.Storage.History.{
  Log, get_last_message, load_last, log_event, log_event_in, should_collapse,
}
use dispatch.Storage.History.Restart.{load_last-log_event}
use dispatch.Storage.History.Timeline.{Adds, IsCurrent, log_event_in-timeline}
use dispatch.Tests.Codec.{
  drawn_id, drawn_id-increasing, marshal_message, message_codec, sorted_bucket,
  sorted_bucket-Ordered,
}

abbrev Entries : Type 0
Entries = List (Bytes × Bytes)

abbrev join_event : Event
join_event = record { kind = codes "join"; params = codes "ann" ∷ []; time = 7 }

abbrev empty_log : Log Entries
empty_log = record { buckets = []; last = []; drawn = 0 }

empty_log-IsCurrent :
    IsCurrent Entries sorted_bucket message_codec sorted_bucket-Ordered drawn_id
      (codes "n")
      (codes "#a")
      empty_log
unfolding entries get_last_message lookup
empty_log-IsCurrent = tt

log_event_in-timeline_example :
    Adds Entries sorted_bucket message_codec sorted_bucket-Ordered drawn_id
      (codes "n")
      (codes "#a")
      join_event
      empty_log
      (log_event_in Entries sorted_bucket message_codec sorted_bucket-Ordered drawn_id
        (codes "n")
        join_event
        (codes "#a")
        empty_log)
log_event_in-timeline_example =
    log_event_in-timeline Entries sorted_bucket message_codec sorted_bucket-Ordered drawn_id
      drawn_id-increasing (codes "n") (codes "#a") join_event empty_log empty_log-IsCurrent

-- What a bucket gives back of a message that was logged for the event
abbrev joined : Message
joined = record {
  id = 5 ∷ [];
  network = [];
  sender = [];
  to = [];
  content = [];
  time = 7;
  events = join_event ∷ [];
}

abbrev one_bucket : List (Bytes × Entries)
one_bucket = (codes "n:#a", (5 ∷ [], marshal_message joined) ∷ []) ∷ []

messages-IsPage_example :
    IsPage Entries sorted_bucket message_codec (codes "n") (codes "#a") 2 [] one_bucket
messages-IsPage_example =
    messages-IsPage Entries sorted_bucket message_codec (codes "n") (codes "#a") 1 [] one_bucket

abbrev stored_log : Log Entries
stored_log = record { buckets = one_bucket; last = []; drawn = 9 }

abbrev channel_a : Channel
channel_a = record { network = codes "n"; name = codes "#a" }

last_found :
    last_messages Entries sorted_bucket message_codec (codes "n") (codes "#a") 1 one_bucket
    ≡ (joined ∷ [], false)
unfolding last_messages lookup bytes_beq has_prefix
last_found = refl

collapses : should_collapse joined join_event ≡ true
unfolding should_collapse bytes_beq
collapses = refl

placed : bucket_name (codes "n") (codes "#a") ≢ codes ":"
placed h = ground (arith, h)

load_last-log_event_example :
    entries Entries sorted_bucket
      (codes "n")
      (codes "#a")
      (log_event Entries sorted_bucket message_codec sorted_bucket-Ordered drawn_id
        (codes "n")
        join_event
        (codes "#a" ∷ [])
        (load_last Entries sorted_bucket message_codec sorted_bucket-Ordered drawn_id channel_a
          stored_log)).buckets
    ≡ entries Entries sorted_bucket (codes "n") (codes "#a") one_bucket
load_last-log_event_example =
    load_last-log_event Entries sorted_bucket message_codec sorted_bucket-Ordered drawn_id channel_a
      stored_log join_event joined false last_found collapses placed

abbrev channel_go : ChannelListItem
channel_go = record { name = codes "#go"; user_count = pos 3; topic = codes "Go" }

abbrev one_index : MapChannelListIndex
one_index = record { channels = channel_go ∷ []; m = (codes "g", channel_go ∷ []) ∷ [] }

search_n_lem_example :
    search_n (codes "g") (pos 0) 10 one_index ≡ page_of (pos 0) 10 (search (codes "g") one_index)
search_n_lem_example = search_n_lem (codes "g") (pos 0) 10 one_index

first_get_asks : (get (codes "n") 5 []).1 ≡ true
unfolding get lookup
first_get_asks = refl

get_once_example :
    ((get (codes "n") 90000 (gets ((codes "m", 6) ∷ []) (get (codes "n") 5 []).2)).1 ≡ false)
    × Returns (timeout_update (codes "n") (gets ((codes "m", 6) ∷ []) (get (codes "n") 5 []).2))
get_once_example = get_once (codes "n") 5 [] first_get_asks ((codes "m", 6) ∷ []) 90000
