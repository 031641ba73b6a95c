-- ===== src/Service/Events/Resumed.antt =====
-- A subscription as its client sees it: what is replayed to it, and then what its channel delivers.
use model_interface_gateway.Base.{
  ℕ, ◌≤◌, ◌<◌, String, ◌≡◌, refl, sym, ap, ◌∙◌, ◌⊎◌, inl, inr, none, some, List, [], ◌∷◌, ◌++◌, map,
  ok, arith, ◌==◌, Option-cases, Bool-cases, length, drop, drop-append, IsSubsequence,
  IsSubsequence-append, IsSubsequence-map,
}
use mathlib.Core.List.{append_assoc, append-nil, map-append}
use model_interface_gateway.Base.Int.{max_int64}
use model_interface_gateway.Base.GoMap.{lookup_or, lookup-insert_self}
use model_interface_gateway.Text.{decimal}
use model_interface_gateway.Types.{EventMessage}
use model_interface_gateway.Service.{Service, Subscriber, new_service}
use model_interface_gateway.Service.Events.{
  channel_capacity, events_of, subscribers_of, append_event, topic_error, parse_cursor,
  Subscription, as_replay, subscribe, receive,
}
use model_interface_gateway.Service.Events.Laws.{
  events_of-append_event, subscribe-IsSubscribed, resume_exact,
}
use model_interface_gateway.Service.Events.Delivery.{
  queue_in, queue_of, Act, publishes, takes, play, published, play-IsDelivered,
}
use model_interface_gateway.Service.History.{History}
use model_interface_gateway.Service.History.Laws.{reached-IsSound}
use model_interface_gateway.Service.History.Channels.{next_channel-IsNew}

receive-events : (topic : String) (ch : ℕ) (s : Service) → (receive topic ch s).0.events ≡ s.events
unfolding receive
receive-events topic ch s = ground arith

-- The log of a topic after what has been published to it.
events_of-play :
    (topic : String) (ch : ℕ) (acts : List Act) (s : Service)
    → events_of (play topic ch acts s).0 topic ≡ events_of s topic ++ published topic acts
unfolding play published
events_of-play topic ch [] s = sym (append-nil (events_of s topic))
events_of-play topic ch (takes ∷ acts) s =
    events_of-play topic ch acts (receive topic ch s).0
    ∙ ap (λ log. lookup_or [] topic log ++ published topic acts) (receive-events topic ch s)
events_of-play topic ch (publishes e ∷ acts) s =
    let later = events_of-play topic ch acts (append_event e s) in
    let logged = events_of-append_event e s topic in
    elim (Bool-cases (e.topic == topic)) [
      | inl same ↦
          later
          ∙ ap (λ log. log ++ published topic acts) (rw (same) at logged)
          ∙ rw same (append_assoc (events_of s topic) (e ∷ []) (published topic acts))
      | inr other ↦
          later ∙ ap (λ log. log ++ published topic acts) (rw (other) at logged) ∙ rw other refl
    ]

-- A new channel at the end of a list.
queue_in-append :
    (ch : ℕ) (subs : List Subscriber)
    → queue_in ch subs ≡ none
    → queue_in ch (subs ++ record { id = ch; queue = [] } ∷ []) ≡ some []
unfolding queue_in
queue_in-append ch [] h = ground arith
queue_in-append ch (sub ∷ subs) h = ground (arith, queue_in-append ch subs)

-- A subscription opens a channel that holds nothing yet.
subscribe-queue :
    (topic cursor : String) (s s' : Service) (sub : Subscription)
    → queue_of s topic s.next_channel ≡ none
    → subscribe topic cursor s ≡ (s', ok sub)
    → queue_of s' topic sub.channel ≡ some []
unfolding subscribe queue_of
subscribe-queue topic cursor s s' sub new h =
    let opened = queue_in-append s.next_channel (subscribers_of s topic) new in
    let subs : List Subscriber =
      subscribers_of s topic ++ record { id = s.next_channel; queue = [] } ∷ [] in
    elim (Option-cases (topic_error topic)) [
      | inr (e, refused) ↦ absurd (ground arith)
      | inl valid ↦ elim (Option-cases (parse_cursor cursor)) [
        | inl unread ↦ absurd (ground arith)
        | inr (from, read) ↦
            let there : subscribers_of s' topic ≡ subs =
              ground (arith, lookup-insert_self topic subs s.subscribers) in
            let same : sub.channel ≡ s.next_channel = ground arith in rw (there, same) opened
      ]
    ]

-- What a client has from the log of a topic after the event number `n`: `sent`, and what is held for it
-- in its channel. A replayed event is marked, so the events are compared with that mark.
pub record IsResumed (topic : String) (n ch : ℕ) (acts : List Act) (end : Service)
    (sent : List EventMessage) : Type 0 where
  pub held : List EventMessage
  pub queued : queue_of end topic ch ≡ some held
  pub in_order :
      IsSubsequence (map as_replay (sent ++ held)) (map as_replay (drop n (events_of end topic)))
  pub complete :
      (channel_capacity < length (published topic acts))
      ⊎ (map as_replay (sent ++ held) ≡ map as_replay (drop n (events_of end topic)))

as_replay-idempotent :
    (es : List EventMessage) → map as_replay (map as_replay es) ≡ map as_replay es
as_replay-idempotent [] = refl
as_replay-idempotent (e ∷ es) = ap (λ rest. as_replay e ∷ rest) (as_replay-idempotent es)

-- The log from the cursor on: what was there when the client subscribed, and what was published since.
log_since :
    (topic : String) (n ch : ℕ) (acts : List Act) (s s' : Service)
    → n ≤ length (events_of s topic)
    → s'.events ≡ s.events
    → map as_replay (drop n (events_of (play topic ch acts s').0 topic))
      ≡ map as_replay (drop n (events_of s topic)) ++ map as_replay (published topic acts)
log_since topic n ch acts s s' h kept =
    let log : events_of s' topic ≡ events_of s topic = ap (lookup_or [] topic) kept in
    ap (λ es. map as_replay (drop n es)) (events_of-play topic ch acts s')
    ∙ ap (λ es. map as_replay (drop n (es ++ published topic acts))) log
    ∙ ap (map as_replay) (drop-append n (events_of s topic) (published topic acts) h)
    ∙ map-append as_replay (drop n (events_of s topic)) (published topic acts)

-- A client that subscribes with the number `n` of an event that the log has, at whatever state the
-- operations have led to, has been sent, and its channel still holds, events of the log after `n` alone,
-- in their order and each once, whatever is published and received after that; and these are all of
-- them, with no gap between what is replayed and what is delivered, if 32 at most have been published
-- to the topic since.
pub resume_delivers :
    (topic : String) (n : ℕ) (s s' : Service) (sub : Subscription) (acts : List Act)
    → History new_service s
    → n ≤ length (events_of s topic)
    → n ≤ max_int64
    → subscribe topic (decimal n) s ≡ (s', ok sub)
    → IsResumed topic n sub.channel acts
        (play topic sub.channel acts s').0
        (sub.snapshot ++ (play topic sub.channel acts s').1)
resume_delivers topic n s s' sub acts past there small e =
    let (_, shot, _) = resume_exact topic n s s' sub (reached-IsSound past).logs small e in
    let kept = (subscribe-IsSubscribed topic (decimal n) s s' sub e).logs_kept in
    let d =
      play-IsDelivered topic sub.channel acts s' [] (omega arith)
        (subscribe-queue topic (decimal n) s s' sub (next_channel-IsNew topic past) e) in
    let got = (play topic sub.channel acts s').1 in
    let seen : map as_replay ((sub.snapshot ++ got) ++ d.held)
        ≡ map as_replay (drop n (events_of s topic)) ++ map as_replay (got ++ d.held) =
      ap (map as_replay) (append_assoc sub.snapshot got d.held)
      ∙ map-append as_replay sub.snapshot (got ++ d.held)
      ∙ ap (λ es. es ++ map as_replay (got ++ d.held))
          (ap (map as_replay) shot ∙ as_replay-idempotent (drop n (events_of s topic))) in
    let log = log_since topic n sub.channel acts s s' there kept in
    record {
      held = d.held;
      queued = d.queued;
      in_order =
          rw (seen, log)
            (IsSubsequence-append (map as_replay (drop n (events_of s topic)))
              (IsSubsequence-map as_replay d.in_order));
      complete = elim d.complete [ inl over ↦ inl over | inr all ↦ inr (rw (seen, log, all) refl) ];
    }
