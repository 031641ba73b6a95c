-- ===== src/Nats/Echo.antt =====
-- The gateway's own events, delivered to it again and again.
use model_interface_gateway.Base.{
  ◌+◌, String, ◌≡◌, refl, ap, ◌∙◌, List, [], ◌∷◌, ◌++◌, Option, none, some, arith, eq_refl, length,
  length-append,
}
use model_interface_gateway.Nats.Subjects.{event_subject-round_trip}
use model_interface_gateway.Service.Events.Laws.{events_of-append_event}
use model_interface_gateway.Types.{EventMessage, Env}
use model_interface_gateway.Header.{add_idg_meta}
use model_interface_gateway.Service.{Service}
use model_interface_gateway.Service.Events.{event_subject, events_of, append_event}
use model_interface_gateway.Nats.{Answer, publish_msg, nats_publish, deliver}
use model_interface_gateway.Nats.Laws.{own_message, echo, IsRepublished, publish-echo}

-- The message that was sent last, of those that were.
abbrev pub last_sent : List (String × EventMessage) → Option EventMessage
last_sent [] = none
last_sent ((subject, event) ∷ []) = some event
last_sent (first ∷ second ∷ later) = last_sent (second ∷ later)

last_sent-append :
    (sent : List (String × EventMessage)) (subject : String) (event : EventMessage)
    → last_sent (sent ++ (subject, event) ∷ []) ≡ some event
last_sent-append [] subject event = refl
last_sent-append (first ∷ []) subject event = refl
last_sent-append (first ∷ second ∷ later) subject event =
    last_sent-append (second ∷ later) subject event

unfoldable pub last_out : Service → Option EventMessage
last_out s = elim s.nats_out [ none ↦ none | some sent ↦ last_sent sent ]

-- The gateway's subscription delivers the event, and then what was sent last, and so on, once for each
-- clock and random source. `none` if a delivery panics or nothing was sent.
unfoldable pub echoes : List Env → EventMessage → Service → Option Service
echoes [] event s = some s
echoes (env ∷ envs) event s = elim (deliver env (publish_msg (own_message event)) s) [
  | none ↦ none
  | some (s', answer) ↦ elim (last_out s') [ none ↦ none | some again ↦ echoes envs again s' ]
]

echo-IsRepublished :
    (env : Env) (event : EventMessage) (s : Service)
    → IsRepublished event
    → IsRepublished (echo env event s)
unfolding add_idg_meta
echo-IsRepublished env event s h = record {
  header = record {
    version = h.header.version;
    tenant = h.header.tenant;
    message = h.header.message;
    timestamp = h.header.timestamp;
    deadline = h.header.deadline;
    meta = λ e. cc;
  };
  topic = h.topic;
  tenant = h.tenant;
}

deliver-echo :
    (env : Env) (event : EventMessage) (s : Service)
    → IsRepublished event
    → deliver env (publish_msg (own_message event)) s
      ≡ some (append_event (echo env event s) s, none)
unfolding deliver nats_publish
deliver-echo env event s h =
    let (tenant, name, matched) = event_subject-round_trip event h.tenant in
    rw name (ap (λ (o : Service × Option Answer). some o) (publish-echo env event s _ h))

append_event-sent :
    (event : EventMessage) (s : Service) {sent : List (String × EventMessage)}
    → s.nats_out ≡ some sent
    → (append_event event s).nats_out ≡ some (sent ++ (event_subject event, event) ∷ [])
unfolding append_event
append_event-sent event s h = rw h refl

last_out-append_event :
    (event : EventMessage) (s : Service) {sent : List (String × EventMessage)}
    → s.nats_out ≡ some sent
    → last_out (append_event event s) ≡ some event
unfolding last_out
last_out-append_event event s {sent} h =
    rw (append_event-sent event s h) (last_sent-append sent (event_subject event) event)

append_event-count :
    (event : EventMessage) (s : Service)
    → length (events_of (append_event event s) event.topic) ≡ length (events_of s event.topic) + 1
append_event-count event s =
    rw (events_of-append_event event s event.topic, eq_refl event.topic)
      (length-append (events_of s event.topic) (event ∷ []))

echoes-step :
    (env : Env) (envs : List Env) (event : EventMessage) (s : Service)
    {sent : List (String × EventMessage)}
    → IsRepublished event
    → s.nats_out ≡ some sent
    → echoes (env ∷ envs) event s
      ≡ echoes envs (echo env event s) (append_event (echo env event s) s)
unfolding echoes
echoes-step env envs event s h out =
    rw (deliver-echo env event s h, echoes, last_out-append_event (echo env event s) s out)

-- Take an event whose header is normal, whose topic is accepted, and whose tenant stands in its subject
-- without a dot, and a gateway with a NATS connection. When the event is delivered to the gateway by its
-- own subscription, and then what the gateway sent last, and so on, each of any number of deliveries
-- succeeds and publishes one event more on the topic.
pub echoes-never_end :
    (envs : List Env) (event : EventMessage) (s : Service) (sent : List (String × EventMessage))
    → IsRepublished event
    → s.nats_out ≡ some sent
    → (s' : Service) × (echoes envs event s ≡ some s')
      × (length (events_of s' event.topic) ≡ length (events_of s event.topic) + length envs)
unfolding echoes
echoes-never_end [] event s sent h out = (s, refl, omega arith)
echoes-never_end (env ∷ envs) event s sent h out =
    let once = echo env event s in
    let (s', ran, more) =
      echoes-never_end envs once (append_event once s) _ (echo-IsRepublished env event s h)
        (append_event-sent once s out) in
    (s', echoes-step env envs event s h out ∙ ran, ground (arith, more, append_event-count once s))
