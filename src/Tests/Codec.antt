-- ===== src/Tests/Codec.antt =====
-- A bucket and a codec that satisfy what the store relies on: a sorted list, and fields with their lengths.
use dispatch.Base.{
  keys, ℕ, zero, suc, Bytes, bytes_lt, true, List, [], ◌∷◌, ◌++◌, bytes_eq, length, take, drop,
  take-append, drop-append, has_prefix, if◌then◌else◌, lookup, delete, ◌≡◌, refl, sym, ap, ◌∙◌,
  arith,
}
use dispatch.Storage.Bolt.{Bucket}
use dispatch.Storage.Bolt.Messages.{Event, Message, MessageCodec, Ordered, put_sorted, stored}

abbrev Entries : Type 0
Entries = List (Bytes × Bytes)

abbrev pub with_prefix : Bytes → Entries → Entries
with_prefix p [] = []
with_prefix p ((k, v) ∷ es) =
    let rest = with_prefix p es in if has_prefix k p then (k, v) ∷ rest else rest

with_prefix-all : (es : Entries) → with_prefix [] es ≡ es
unfolding has_prefix
with_prefix-all [] = refl
with_prefix-all (e ∷ es) = ap (◌∷◌ e) (with_prefix-all es)

abbrev pub sorted_bucket : Bucket Entries
sorted_bucket = record {
  get = lookup;
  put = put_sorted;
  delete = delete;
  scan = with_prefix;
  walk = λ prefix b. keys (with_prefix prefix b);
}

pub sorted_bucket-Ordered : Ordered Entries sorted_bucket
sorted_bucket-Ordered = record {
  empty = [];
  walk_empty = refl;
  walk-put = λ k v b.
      with_prefix-all (put_sorted k v b) ∙ ap (λ es. put_sorted k v es) (sym (with_prefix-all b));
  get_lookup = λ k b. ap (λ es. lookup k es) (sym (with_prefix-all b));
}

abbrev put_text : Bytes → Bytes → Bytes
put_text s rest = length s ∷ (s ++ rest)

abbrev get_text : Bytes → Bytes × Bytes
get_text [] = ([], [])
get_text (n ∷ rest) = (take n rest, drop n rest)

abbrev put_texts : List Bytes → Bytes → Bytes
put_texts [] rest = rest
put_texts (s ∷ ss) rest = put_text s (put_texts ss rest)

abbrev get_texts : ℕ → Bytes → List Bytes × Bytes
get_texts zero rest = ([], rest)
get_texts (suc n) rest =
    let one = get_text rest in let others = get_texts n one.1 in (one.0 ∷ others.0, others.1)

get_texts-put_texts :
    (ss : List Bytes) (rest : Bytes) → get_texts (length ss) (put_texts ss rest) ≡ (ss, rest)
get_texts-put_texts [] rest = refl
get_texts-put_texts (s ∷ ss) rest =
    rw
      (
        take-append s (put_texts ss rest),
        drop-append s (put_texts ss rest),
        get_texts-put_texts ss rest,
      )
      refl

abbrev head_or_zero : Bytes → ℕ
head_or_zero [] = 0
head_or_zero (n ∷ rest) = n

abbrev put_event : Event → Bytes → Bytes
put_event e rest = put_text e.kind (length e.params ∷ put_texts e.params (e.time ∷ rest))

abbrev get_event : Bytes → Event × Bytes
get_event b =
    let kind = get_text b in
    let params = get_texts (head_or_zero kind.1) (drop 1 kind.1) in
    (record { kind = kind.0; params = params.0; time = head_or_zero params.1 }, drop 1 params.1)

get_event-put_event : (e : Event) (rest : Bytes) → get_event (put_event e rest) ≡ (e, rest)
get_event-put_event e rest =
    rw
      (
        take-append e.kind (length e.params ∷ put_texts e.params (e.time ∷ rest)),
        drop-append e.kind (length e.params ∷ put_texts e.params (e.time ∷ rest)),
        get_texts-put_texts e.params (e.time ∷ rest),
      )
      refl

abbrev put_events : List Event → Bytes
put_events [] = []
put_events (e ∷ es) = put_event e (put_events es)

abbrev get_events : ℕ → Bytes → List Event
get_events zero b = []
get_events (suc n) b = let one = get_event b in one.0 ∷ get_events n one.1

get_events-put_events : (es : List Event) → get_events (length es) (put_events es) ≡ es
get_events-put_events [] = refl
get_events-put_events (e ∷ es) =
    ap (λ one. one.0 ∷ get_events (length es) one.1) (get_event-put_event e (put_events es))
    ∙ ap (◌∷◌ e) (get_events-put_events es)

abbrev pub marshal_message : Message → Bytes
marshal_message m =
    put_text m.id
      (put_text m.sender (put_text m.content (m.time ∷ length m.events ∷ put_events m.events)))

abbrev unmarshal_message : Bytes → Message
unmarshal_message b =
    let id = get_text b in
    let sender = get_text id.1 in
    let content = get_text sender.1 in
    record {
      id = id.0;
      network = [];
      sender = sender.0;
      to = [];
      content = content.0;
      time = head_or_zero content.1;
      events = get_events (head_or_zero (drop 1 content.1)) (drop 2 content.1);
    }

pub unmarshal-marshal_message : (m : Message) → unmarshal_message (marshal_message m) ≡ stored m
unmarshal-marshal_message m =
    let tail = m.time ∷ length m.events ∷ put_events m.events in
    rw
      (
        take-append m.id (put_text m.sender (put_text m.content tail)),
        drop-append m.id (put_text m.sender (put_text m.content tail)),
        take-append m.sender (put_text m.content tail),
        drop-append m.sender (put_text m.content tail),
        take-append m.content tail,
        drop-append m.content tail,
        get_events-put_events m.events,
      )
      refl

abbrev pub message_codec : MessageCodec
message_codec = record {
  marshal = marshal_message;
  unmarshal = unmarshal_message;
  unmarshal-marshal = unmarshal-marshal_message;
  unmarshal-stored = λ v. refl;
}

abbrev pub drawn_id : ℕ → Bytes
drawn_id n = n ∷ []

pub drawn_id-increasing : (n : ℕ) → bytes_lt (drawn_id n) (drawn_id (suc n)) ≡ true
unfolding bytes_lt
drawn_id-increasing n = ground arith
