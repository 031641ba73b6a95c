-- ===== src/Service/History/Channels.antt =====
-- The channels that are open: a new one has a number of its own.
use model_interface_gateway.Base.{
  ℕ, ◌+◌, ◌<◌, String, ◌≡◌, refl, inl, inr, Bool, none, List, [], ◌∷◌, ◌++◌, map, arith, eq_iff,
  eq_cases, All, All-append, Option-cases, Result-cases, Bool-cases, eqb,
}
use model_interface_gateway.Base.GoMap.{lookup, lookup_or, lookup-insert, insert}
use model_interface_gateway.Types.{EventMessage, PublishRequest, Env}
use model_interface_gateway.Header.{or_default, open_header}
use model_interface_gateway.Service.{
  Service, Subscriber, record_error, set_metrics, close, new_service, bootstrap_defaults,
}
use model_interface_gateway.Service.Protocol.{cancel}
use model_interface_gateway.Service.Invoke.{
  Admission, refused, replayed, admitted, admit, commit, conclude, invoke, finish,
}
use model_interface_gateway.Service.Events.{
  offer, subscribers_of, append_event, topic_error, parse_cursor, new_event, publish, publish_to,
  subscribe, without_channel, unsubscribe, receive_from, receive,
}
use model_interface_gateway.Service.Events.Delivery.{
  queue_in, queue_of, subscribers_of-append_event,
}
use model_interface_gateway.Service.Cloud.{create_org, create_tenant, create_gateway}
use model_interface_gateway.Service.Admin.{add_capability, add_schema, set_quota}
use model_interface_gateway.Service.Connections.{register_connection, unregister}
use model_interface_gateway.Service.History.{
  Step, History, errored, metered, closed, cancelled, invoked, finished, published, subscribed,
  unsubscribed, received, capability_added, schema_added, quota_set, org_created, tenant_created,
  gateway_created, registered, unregistered, start, then_step,
}

-- The channels of a list have numbers below `n`.
abbrev Below : ℕ → List Subscriber → Type 0
Below n subs = All (λ (sub : Subscriber). sub.id < n) subs

-- Every channel that is open was made before the next one.
abbrev pub ChannelsAreOld : Service → Type 0
ChannelsAreOld s = (topic : String) → Below s.next_channel (subscribers_of s topic)

abbrev KeepsChannels : Service → Service → Type 0
KeepsChannels s s' = (s'.subscribers ≡ s.subscribers) × (s'.next_channel ≡ s.next_channel)

KeepsChannels-ChannelsAreOld :
    (s s' : Service) → KeepsChannels s s' → ChannelsAreOld s → ChannelsAreOld s'
KeepsChannels-ChannelsAreOld s s' (subs, next) h topic = rw (subs, next) (h topic)

Below-offer :
    (n : ℕ) (e : EventMessage) (subs : List Subscriber)
    → Below n subs
    → Below n (map (offer e) subs)
unfolding offer
Below-offer n e [] h = tt
Below-offer n e (sub ∷ subs) (here, h) = (ground arith, Below-offer n e subs h)

Below-later : (n : ℕ) (subs : List Subscriber) → Below n subs → Below (n + 1) subs
Below-later n [] h = tt
Below-later n (sub ∷ subs) (here, h) = (omega arith, Below-later n subs h)

Below-without_channel :
    (n ch : ℕ) (subs : List Subscriber) → Below n subs → Below n (without_channel ch subs)
unfolding without_channel
Below-without_channel n ch [] h = tt
Below-without_channel n ch (sub ∷ subs) (here, h) = elim (Bool-cases (eqb sub.id ch)) [
  | inl same ↦ rw (same, without_channel) (Below-without_channel n ch subs h)
  | inr other ↦ rw (other, without_channel) (here, Below-without_channel n ch subs h)
]

Below-receive_from :
    (n ch : ℕ) (subs : List Subscriber) → Below n subs → Below n (receive_from ch subs).0
unfolding receive_from
Below-receive_from n ch [] h = tt
Below-receive_from n ch (sub ∷ subs) (here, h) = ground (arith, Below-receive_from n ch subs h)

append_event-ChannelsAreOld :
    (e : EventMessage) (s : Service) → ChannelsAreOld s → ChannelsAreOld (append_event e s)
unfolding append_event
append_event-ChannelsAreOld e s h topic = elim (eq_cases e.topic topic) [
  | inl same ↦
      rw (subscribers_of-append_event e s topic, (eq_iff e.topic topic).1 same)
        (Below-offer s.next_channel e (subscribers_of s topic) (h topic))
  | inr differs ↦ rw (subscribers_of-append_event e s topic, differs) (h topic)
]

-- The subscribers of a topic, one more of them under the next number.
opened-Below :
    (topic other : String) (s : Service)
    → ChannelsAreOld s
    → Below (s.next_channel + 1) (
        lookup_or [] other (
          insert topic
            (subscribers_of s topic ++ record { id = s.next_channel; queue = [] } ∷ [])
            s.subscribers))
opened-Below topic other s h =
    let put =
      lookup-insert topic other
        (subscribers_of s topic ++ record { id = s.next_channel; queue = [] } ∷ []) s.subscribers in
    elim (eq_cases topic other) [
      | inl same ↦
          rw (put, (eq_iff topic other).1 same)
            (All-append _ (subscribers_of s topic) _
              (Below-later s.next_channel (subscribers_of s topic) (h topic)) (omega arith, tt))
      | inr differs ↦
          rw (put, differs) (Below-later s.next_channel (subscribers_of s other) (h other))
    ]

subscribe-ChannelsAreOld :
    (topic cursor : String) (s : Service)
    → ChannelsAreOld s
    → ChannelsAreOld (subscribe topic cursor s).0
unfolding subscribe record_error
subscribe-ChannelsAreOld topic cursor s h other = elim (Option-cases (topic_error topic)) [
  | inr (e, bad) ↦ rw (bad, subscribe) (h other)
  | inl valid ↦ elim (Option-cases (parse_cursor cursor)) [
    | inl unread ↦ rw (valid, unread, subscribe) (h other)
    | inr (from, read) ↦ rw (valid, read, subscribe) (opened-Below topic other s h)
  ]
]

-- A channel with a number that none of the topic's has, has no queue.
no_queue-Below : (n : ℕ) (subs : List Subscriber) → Below n subs → queue_in n subs ≡ none
unfolding queue_in
no_queue-Below n [] h = refl
no_queue-Below n (sub ∷ subs) (here, h) = ground (arith, no_queue-Below n subs h)

-- Other subscribers of one topic, where all are old.
put-Below :
    (topic other : String) (subs : List Subscriber) (s : Service)
    → Below s.next_channel subs
    → ChannelsAreOld s
    → Below s.next_channel (lookup_or [] other (insert topic subs s.subscribers))
put-Below topic other subs s new h =
    let put = lookup-insert topic other subs s.subscribers in
    elim (eq_cases topic other) [
      | inl same ↦ rw (put, (eq_iff topic other).1 same) new
      | inr differs ↦ rw (put, differs) (h other)
    ]

unsubscribe-ChannelsAreOld :
    (topic : String) (ch : ℕ) (s : Service)
    → ChannelsAreOld s
    → ChannelsAreOld (unsubscribe topic ch s)
unfolding unsubscribe
unsubscribe-ChannelsAreOld topic ch s h other = elim (Option-cases (lookup topic s.subscribers)) [
  | inl nobody ↦ rw (nobody, unsubscribe) (h other)
  | inr (subs, there) ↦
      let old : Below s.next_channel (subscribers_of s topic) = h topic in
      rw (there, unsubscribe)
        (put-Below topic other (without_channel ch subs) s
          (Below-without_channel s.next_channel ch subs (rw (there) at old)) h)
]

receive-ChannelsAreOld :
    (topic : String) (ch : ℕ) (s : Service)
    → ChannelsAreOld s
    → ChannelsAreOld (receive topic ch s).0
unfolding receive
receive-ChannelsAreOld topic ch s h other = elim (Option-cases (lookup topic s.subscribers)) [
  | inl nobody ↦ rw (nobody, receive) (h other)
  | inr (subs, there) ↦
      let old : Below s.next_channel (subscribers_of s topic) = h topic in
      rw (there, receive)
        (put-Below topic other (receive_from ch subs).0 s
          (Below-receive_from s.next_channel ch subs (rw (there) at old)) h)
]

publish-ChannelsAreOld :
    (env : Env) (topic : String) (req : PublishRequest) (s : Service)
    → ChannelsAreOld s
    → ChannelsAreOld (publish env topic req s).0
unfolding publish publish_to record_error
publish-ChannelsAreOld env topic req s h = elim (Result-cases (open_header env req.header)) [
  | inl (e, bad) ↦ rw (bad, publish) h
  | inr (head, opens) ↦ elim (Option-cases (topic_error (or_default topic req.topic))) [
    | inr (e, bad) ↦ rw (opens, publish, bad, publish_to) h
    | inl valid ↦
        rw (opens, publish, valid, publish_to)
          (append_event-ChannelsAreOld (new_event env head (or_default topic req.topic) req s) s h)
  ]
]

conclude-KeepsChannels :
    (env : Env) (expired : Bool) (a : Admission) (s : Service)
    → KeepsChannels s (conclude env expired a s).0
unfolding conclude finish commit record_error
conclude-KeepsChannels env expired (refused e) s = ground arith
conclude-KeepsChannels env expired (replayed r) s = ground arith
conclude-KeepsChannels env expired (admitted t) s = ground arith

Step-ChannelsAreOld : {s s' : Service} → Step s s' → ChannelsAreOld s → ChannelsAreOld s'
unfolding invoke conclude cancel record_error set_metrics close add_capability add_schema set_quota
    create_org create_tenant create_gateway register_connection unregister
Step-ChannelsAreOld {s} (published env topic req) h = publish-ChannelsAreOld env topic req s h
Step-ChannelsAreOld {s} (subscribed topic cursor) h = subscribe-ChannelsAreOld topic cursor s h
Step-ChannelsAreOld {s} (unsubscribed topic ch) h = unsubscribe-ChannelsAreOld topic ch s h
Step-ChannelsAreOld {s} (received topic ch) h = receive-ChannelsAreOld topic ch s h
Step-ChannelsAreOld {s} {s'} (invoked env expired capability req actor p) h =
    KeepsChannels-ChannelsAreOld s s'
      (conclude-KeepsChannels env expired (admit env capability req actor p s) s) h
Step-ChannelsAreOld {s} {s'} (finished env expired t) h =
    KeepsChannels-ChannelsAreOld s s' (conclude-KeepsChannels env expired (admitted t) s) h
Step-ChannelsAreOld {s} {s'} (errored code operation) h =
    KeepsChannels-ChannelsAreOld s s' (ground arith) h
Step-ChannelsAreOld {s} {s'} (metered m) h = KeepsChannels-ChannelsAreOld s s' (ground arith) h
Step-ChannelsAreOld {s} {s'} closed h = KeepsChannels-ChannelsAreOld s s' (ground arith) h
Step-ChannelsAreOld {s} {s'} (cancelled env req id) h =
    KeepsChannels-ChannelsAreOld s s' (ground arith) h
Step-ChannelsAreOld {s} {s'} (capability_added req) h =
    KeepsChannels-ChannelsAreOld s s' (ground arith) h
Step-ChannelsAreOld {s} {s'} (schema_added req) h =
    KeepsChannels-ChannelsAreOld s s' (ground arith) h
Step-ChannelsAreOld {s} {s'} (quota_set req) h = KeepsChannels-ChannelsAreOld s s' (ground arith) h
Step-ChannelsAreOld {s} {s'} (org_created env org) h =
    KeepsChannels-ChannelsAreOld s s' (ground arith) h
Step-ChannelsAreOld {s} {s'} (tenant_created env tenant) h =
    KeepsChannels-ChannelsAreOld s s' (ground arith) h
Step-ChannelsAreOld {s} {s'} (gateway_created env gw) h =
    KeepsChannels-ChannelsAreOld s s' (ground arith) h
Step-ChannelsAreOld {s} {s'} (registered env conn) h =
    KeepsChannels-ChannelsAreOld s s' (ground arith) h
Step-ChannelsAreOld {s} {s'} (unregistered id) h =
    KeepsChannels-ChannelsAreOld s s' (ground arith) h

pub History-ChannelsAreOld : {s : Service} → History new_service s → ChannelsAreOld s
unfolding new_service bootstrap_defaults lookup
History-ChannelsAreOld start = λ topic. tt
History-ChannelsAreOld (then_step h st) = Step-ChannelsAreOld st (History-ChannelsAreOld h)

-- The next channel is not in use, whatever has happened so far.
pub next_channel-IsNew :
    (topic : String) {s : Service} → History new_service s → queue_of s topic s.next_channel ≡ none
unfolding queue_of
next_channel-IsNew topic {s} h =
    no_queue-Below s.next_channel (subscribers_of s topic) (History-ChannelsAreOld h topic)
