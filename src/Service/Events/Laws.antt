-- ===== src/Service/Events/Laws.antt =====
-- The logs of the topics: their numbering, and what a subscriber replays.
use model_interface_gateway.Base.{
  ℕ, zero, suc, ◌+◌, ◌-◌, ◌≤◌, String, ◌≡◌, refl, sym, ap, subst₂, ◌∙◌, true, none, some, List, [],
  ◌∷◌, ◌++◌, map, Result, ok, arith, ◌==◌, eq_iff, eq_refl, eq_cases, inl, inr, Option-cases,
  Result-cases, length, length-append, drop, length-drop, length-map, if◌then◌else◌,
}
use mathlib.Core.Option.{some-injective}
use model_interface_gateway.Base.Int.{to_int64, max_int64}
use model_interface_gateway.Base.GoMap.{lookup-insert}
use model_interface_gateway.Text.{decimal, atoi}
use model_interface_gateway.Text.Decimal.{atoi-decimal}
use model_interface_gateway.Types.{
  MessageHeader, MigError, EventMessage, PublishRequest, PublishAck, Env,
}
use model_interface_gateway.Header.{or_default, open_header}
use model_interface_gateway.Service.{Service}
use model_interface_gateway.Service.Events.{
  events_of, topic_error, new_event, append_event, publish_to, publish, parse_cursor, Subscription,
  as_replay, snapshot_from, subscribe,
}

-- The events carry the numbers after `n`, one after the other, and the name of the topic.
abbrev pub NumberedFrom : ℕ → String → List EventMessage → Type 0
NumberedFrom n topic [] = Unit
NumberedFrom n topic (e ∷ es) =
    (e.sequence ≡ to_int64 (n + 1)) × (e.topic ≡ topic) × NumberedFrom (suc n) topic es

-- Every topic's log counts from 1, and holds events of that topic alone.
abbrev pub IsNumbered : Service → Type 0
IsNumbered s = (topic : String) → NumberedFrom 0 topic (events_of s topic)

NumberedFrom-append :
    (n : ℕ) (topic : String) (es : List EventMessage) (e : EventMessage)
    → NumberedFrom n topic es
    → e.sequence ≡ to_int64 (n + length es + 1)
    → e.topic ≡ topic
    → NumberedFrom n topic (es ++ e ∷ [])
NumberedFrom-append n topic [] e h p q = (p ∙ ap to_int64 (omega arith), q, tt)
NumberedFrom-append n topic (d ∷ es) e (here, same, h) p q =
    (here, same, NumberedFrom-append (suc n) topic es e h (p ∙ ap to_int64 (omega arith)) q)

pub events_of-append_event :
    (e : EventMessage) (s : Service) (topic : String)
    → events_of (append_event e s) topic
      ≡ (if e.topic == topic then events_of s topic ++ e ∷ [] else events_of s topic)
unfolding append_event
events_of-append_event e s topic = ground (
  arith,
  lookup-insert e.topic topic (events_of s e.topic ++ e ∷ []) s.events,
  eq_iff e.topic topic,
)

pub append_event-IsNumbered :
    (e : EventMessage) (s : Service)
    → e.sequence ≡ to_int64 (length (events_of s e.topic) + 1)
    → IsNumbered s
    → IsNumbered (append_event e s)
append_event-IsNumbered e s seq h topic = elim (eq_cases e.topic topic) [
  | inl same ↦
      rw (events_of-append_event e s topic, (eq_iff e.topic topic).1 same)
        (NumberedFrom-append 0 topic (events_of s topic) e (h topic)
          (seq
            ∙ ap (λ (u : String). to_int64 (length (events_of s u) + 1)) same
            ∙ ap to_int64 (omega arith))
          same)
  | inr differs ↦ rw (events_of-append_event e s topic, differs) (h topic)
]

-- What an accepted publication has done to the logs.
pub record IsPublished (req : PublishRequest) (s s' : Service) (ack : PublishAck) : Type 0 where
  pub event : EventMessage
  pub id : event.event_id ≡ ack.event_id
  pub numbered : event.sequence ≡ ack.sequence
  pub position : ack.sequence ≡ to_int64 (length (events_of s' ack.topic))
  pub payload : event.payload ≡ req.payload
  pub namespaced : topic_error ack.topic ≡ none
  pub logs :
      (topic : String)
      → events_of s' topic
        ≡ (if ack.topic == topic then events_of s topic ++ event ∷ [] else events_of s topic)

module _ (env : Env) (req : PublishRequest) (s : Service) where
  abbrev ack_of : MessageHeader → String → PublishAck
  ack_of head name = record {
    header = head;
    topic = name;
    event_id = (new_event env head name req s).event_id;
    sequence = (new_event env head name req s).sequence;
    accepted = true;
  }

  ack_of-IsPublished :
      (head : MessageHeader) (name : String)
      → topic_error name ≡ none
      → IsPublished req s (append_event (new_event env head name req s) s) (ack_of head name)
  ack_of-IsPublished head name valid =
      let e = new_event env head name req s in
      let written : events_of (append_event e s) name ≡ events_of s name ++ e ∷ [] =
        events_of-append_event e s name ∙ rw (eq_refl name) refl in
      record {
        event = e;
        id = refl;
        numbered = refl;
        position =
            ap to_int64
              (omega (arith, ap length written, length-append (events_of s name) (e ∷ [])));
        payload = refl;
        namespaced = valid;
        logs = events_of-append_event e s;
      }

  publish_to-ok :
      (head : MessageHeader) (topic : String) (s' : Service) (ack : PublishAck)
      → publish_to env head topic req s ≡ (s', ok ack)
      → IsPublished req s s' ack
  unfolding publish_to
  publish_to-ok head topic s' ack h = elim (Option-cases (topic_error topic)) [
    | inl valid ↦
        let k : Path (Service × Result MigError PublishAck)
            (append_event (new_event env head topic req s) s, ok (ack_of head topic)) (s', ok ack) =
          rw (valid, publish_to) at h in
        let wrote : append_event (new_event env head topic req s) s ≡ s' = cc in
        let made : ack_of head topic ≡ ack = cc in
        subst₂ (IsPublished req s) wrote made (ack_of-IsPublished head topic valid)
    | inr (e, invalid_topic) ↦ absurd (ground arith)
  ]

-- A publication that is accepted appends one event with the payload of the request to the log of its
-- topic, under the number that the acknowledgement reports, and leaves the other topics alone.
pub publish-IsPublished :
    (env : Env) (topic : String) (req : PublishRequest) (s s' : Service) (ack : PublishAck)
    → publish env topic req s ≡ (s', ok ack)
    → IsPublished req s s' ack
unfolding publish
publish-IsPublished env topic req s s' ack h = elim (Result-cases (open_header env req.header)) [
  | inl (e, refused) ↦ absurd (ground arith)
  | inr (head, opened) ↦
      publish_to-ok env req s head (or_default topic req.topic) s' ack (rw (opened, publish) at h)
]

NumberedFrom-drop :
    (n m : ℕ) (topic : String) (es : List EventMessage)
    → NumberedFrom m topic es
    → NumberedFrom (m + n) topic (drop n es)
NumberedFrom-drop zero m topic es h = let same : m + 0 ≡ m = omega arith in rw same h
NumberedFrom-drop (suc n) m topic [] h = tt
NumberedFrom-drop (suc n) m topic (e ∷ es) (_, _, h) =
    let same : suc m + n ≡ m + suc n = omega arith in
    rw (← same) (NumberedFrom-drop n (suc m) topic es h)

NumberedFrom-as_replay :
    (n : ℕ) (topic : String) (es : List EventMessage)
    → NumberedFrom n topic es
    → NumberedFrom n topic (map as_replay es)
NumberedFrom-as_replay n topic [] h = tt
NumberedFrom-as_replay n topic (e ∷ es) (p, q, h) =
    (p, q, NumberedFrom-as_replay (suc n) topic es h)

-- What an accepted subscription starts with.
pub record IsSubscribed (topic cursor : String) (s s' : Service) (sub : Subscription) : Type 0 where
  pub start : ℕ
  pub cursor_read : parse_cursor cursor ≡ some start
  pub replayed : sub.snapshot ≡ snapshot_from start (events_of s topic)
  pub logs_kept : s'.events ≡ s.events

pub subscribe-IsSubscribed :
    (topic cursor : String) (s s' : Service) (sub : Subscription)
    → subscribe topic cursor s ≡ (s', ok sub)
    → IsSubscribed topic cursor s s' sub
unfolding subscribe
subscribe-IsSubscribed topic cursor s s' sub h = elim (Option-cases (topic_error topic)) [
  | inr (e, refused) ↦ absurd (ground arith)
  | inl valid ↦ elim (Option-cases (parse_cursor cursor)) [
    | inl unread ↦ absurd (ground arith)
    | inr (start, cursor_read) ↦ record {
      start = start;
      cursor_read = cursor_read;
      replayed = ground arith;
      logs_kept = ground arith;
    }
  ]
]

atoi_empty : atoi "" ≡ none
unfolding atoi
atoi_empty = refl

parse_cursor-decimal : (n : ℕ) → n ≤ max_int64 → parse_cursor (decimal n) ≡ some n
unfolding parse_cursor
parse_cursor-decimal n h = elim (eq_cases (decimal n) "") [
  | inl empty ↦ absurd (ground (arith, ap atoi empty, atoi-decimal n h, atoi_empty))
  | inr digits ↦ rw digits (rw (atoi-decimal n h))
]

-- A client that has seen the event number `n` of a topic, and subscribes with `n` as its cursor, is
-- replayed exactly the events after it: they are numbered from `n + 1` on without a gap, all that are
-- in the log, each marked as a replay.
pub resume_exact :
    (topic : String) (n : ℕ) (s s' : Service) (sub : Subscription)
    → IsNumbered s
    → n ≤ max_int64
    → subscribe topic (decimal n) s ≡ (s', ok sub)
    → NumberedFrom n topic sub.snapshot
      × (sub.snapshot ≡ map as_replay (drop n (events_of s topic)))
      × (length sub.snapshot ≡ length (events_of s topic) - n)
resume_exact topic n s s' sub h small e =
    let v = subscribe-IsSubscribed topic (decimal n) s s' sub e in
    let same : v.start ≡ n =
      some-injective _ _ (sym v.cursor_read ∙ parse_cursor-decimal n small) in
    let from_zero : 0 + n ≡ n = omega arith in
    let tail : NumberedFrom n topic (drop n (events_of s topic)) =
      rw from_zero at (NumberedFrom-drop n 0 topic _ (h topic)) in
    let shot : sub.snapshot ≡ map as_replay (drop n (events_of s topic)) =
      v.replayed ∙ ap (λ (k : ℕ). snapshot_from k (events_of s topic)) same in
    (
      rw shot (NumberedFrom-as_replay n topic _ tail),
      shot,
      ap length shot ∙ length-map as_replay _ ∙ length-drop n (events_of s topic),
    )
