-- ===== src/Service/Events.antt =====
-- service.go: `Publish`, `Subscribe` and the channels between them.
pub mod Laws
pub mod Delivery
pub mod Resumed
use model_interface_gateway.Base.{
  ℕ, ◌+◌, String, Bool, true, false, List, [], ◌∷◌, ◌++◌, map, Option, none, some, Result, ok, err,
  ◌==◌, if◌then◌else◌, eqb, ltb, leb, length, drop,
}
use Prim.Native.String
use mathlib.Core.Option
use model_interface_gateway.Base.Int.{ℤ, pos, negsuc, to_int64}
use model_interface_gateway.Base.GoMap.{GoMap, lookup, lookup_or, insert}
use model_interface_gateway.Text.{contains, atoi, trim_space, replace_char, of_code}
use model_interface_gateway.Types.{
  MessageHeader, MigError, PublishRequest, PublishAck, EventMessage, Env, new_message_id,
}
use model_interface_gateway.Header.{or_default, open_header}
use model_interface_gateway.Service.{Service, Subscriber, Outcome, invalid, fail}

-- `sanitizeNATSSubject`
unfoldable pub sanitize_nats_subject : String → String
unfolding replace_char of_code
sanitize_nats_subject value =
    replace_char b'/' (of_code b'.') (replace_char b' ' (of_code b'_') value)

-- `sanitizeNATSSegment`
unfoldable pub sanitize_nats_segment : String → String
unfolding sanitize_nats_subject trim_space
sanitize_nats_segment value =
    if trim_space value == "" then "unknown" else sanitize_nats_subject (trim_space value)

-- `publishEventToNATS`: the subject of an event. Its encoding as JSON does not fail.
unfoldable pub event_subject : EventMessage → String
unfolding sanitize_nats_segment
event_subject event = String.◌++◌ "mig.v0_1." (
    String.◌++◌ (sanitize_nats_segment event.header.tenant_id)
      (String.◌++◌ ".events." (sanitize_nats_subject event.topic)))

abbrev pub channel_capacity : ℕ
channel_capacity = 32

-- `select { case sub <- event: default: }`: a channel that is full loses the event.
unfoldable pub offer : EventMessage → Subscriber → Subscriber
offer event sub =
    if ltb (length sub.queue) channel_capacity
    then record sub { queue = sub.queue ++ event ∷ [] }
    else sub

abbrev pub events_of : Service → String → List EventMessage
events_of s topic = lookup_or [] topic s.events

abbrev pub subscribers_of : Service → String → List Subscriber
subscribers_of s topic = lookup_or [] topic s.subscribers

-- A topic is refused for being empty, or for lack of a namespace.
unfoldable pub topic_error : String → Option String
topic_error topic =
    if topic == ""
    then some "topic is required"
    else if contains topic "."
    then none
    else some "topic names must be namespaced"

-- The event that `Publish` makes of a request.
abbrev pub new_event : Env → MessageHeader → String → PublishRequest → Service → EventMessage
new_event env head topic req s = record {
  header = head;
  topic = topic;
  event_id = new_message_id env.for_entry;
  sequence = to_int64 (length (events_of s topic) + 1);
  payload = req.payload;
  published_at = env.now;
  replay = false;
}

-- The writes of `Publish`: the log of the topic, the channels, NATS. Ranging over a topic without
-- subscribers does nothing.
unfoldable pub append_event : EventMessage → Service → Service
append_event event s = record s {
  events = insert event.topic (events_of s event.topic ++ event ∷ []) s.events;
  subscribers = elim (lookup event.topic s.subscribers) [
    | none ↦ s.subscribers
    | some subs ↦ insert event.topic (map (offer event) subs) s.subscribers
  ];
  nats_out = Option.map (λ sent. sent ++ (event_subject event, event) ∷ []) s.nats_out;
}

-- `Publish`, once the header is accepted and the topic is known.
unfoldable pub publish_to :
    Env → MessageHeader → String → PublishRequest → Service → Outcome PublishAck
publish_to env head topic req s = elim (topic_error topic) [
  | some e ↦ fail "publish" (invalid e) s
  | none ↦
      let event = new_event env head topic req s in
      (
        append_event event s,
        ok (record {
          header = head;
          topic = topic;
          event_id = event.event_id;
          sequence = event.sequence;
          accepted = true;
        }),
      )
]

unfoldable pub publish : Env → String → PublishRequest → Service → Outcome PublishAck
publish env topic req s = elim (open_header env req.header) [
  | err e ↦ fail "publish" (invalid e) s
  | ok head ↦ publish_to env head (or_default topic req.topic) req s
]

-- `strconv.Atoi` of the cursor, and its sign.
unfoldable pub parse_cursor : String → Option ℕ
parse_cursor cursor =
    if cursor == ""
    then some 0
    else elim (atoi cursor) [ some (pos n) ↦ some n | some (negsuc _) ↦ none | none ↦ none ]

-- What `Subscribe` returns: the events to replay, and the channel. Its third result, the function that
-- unsubscribes, is `unsubscribe`.
pub record Subscription : Type 0 where
  pub snapshot : List EventMessage
  pub channel : ℕ

abbrev pub as_replay : EventMessage → EventMessage
as_replay event = record event { replay = true }

-- `all[start:]`, where a start past the end is the end.
abbrev pub snapshot_from : ℕ → List EventMessage → List EventMessage
snapshot_from start all = map as_replay (drop start all)

unfoldable pub subscribe : String → String → Service → Outcome Subscription
subscribe topic resume_cursor s = elim (topic_error topic) [
  | some e ↦ fail "subscribe" (invalid e) s
  | none ↦ elim (parse_cursor resume_cursor) [
    | none ↦ fail "subscribe" (invalid "resume_cursor must be a non-negative integer") s
    | some start ↦ (
      record s {
        subscribers =
            insert topic (subscribers_of s topic ++ record { id = s.next_channel; queue = [] } ∷ [])
              s.subscribers;
        next_channel = s.next_channel + 1;
      },
      ok (record { snapshot = snapshot_from start (events_of s topic); channel = s.next_channel }),
    )
  ]
]

-- `delete(subs, ch)`
unfoldable pub without_channel : ℕ → List Subscriber → List Subscriber
without_channel ch [] = []
without_channel ch (sub ∷ subs) =
    let rest = without_channel ch subs in if eqb sub.id ch then rest else sub ∷ rest

-- The function that `Subscribe` returns. The channel is closed after it left the map, so nothing is
-- sent on a closed channel.
unfoldable pub unsubscribe : String → ℕ → Service → Service
unsubscribe topic ch s = elim (lookup topic s.subscribers) [
  | none ↦ s
  | some subs ↦ record s { subscribers = insert topic (without_channel ch subs) s.subscribers }
]

-- The receiver takes the oldest event of its channel.
unfoldable pub receive_from : ℕ → List Subscriber → List Subscriber × Option EventMessage
receive_from ch [] = ([], none)
receive_from ch (sub ∷ subs) =
    let (rest, found) = receive_from ch subs in
    if eqb sub.id ch
    then (elim sub.queue [
      | [] ↦ (sub ∷ subs, none)
      | event ∷ later ↦ (record sub { queue = later } ∷ subs, some event)
    ])
    else (sub ∷ rest, found)

-- A receive on the channel that `Subscribe` made; it takes nothing where the channel is empty.
unfoldable pub receive : String → ℕ → Service → Service × Option EventMessage
receive topic ch s = elim (lookup topic s.subscribers) [
  | none ↦ (s, none)
  | some subs ↦
      let (rest, found) = receive_from ch subs in
      (record s { subscribers = insert topic rest s.subscribers }, found)
]
