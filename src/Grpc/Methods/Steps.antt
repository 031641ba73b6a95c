-- ===== src/Grpc/Methods/Steps.antt =====
-- What a call over gRPC does to the state is what the operations of the service do.
use model_interface_gateway.Base.{
  String, ◌≡◌, refl, inl, inr, Bool, Option, List, [], ◌∷◌, ok, err, All, ◌==◌, Bool-cases,
  Option-cases, Result-cases, if◌then◌else◌,
}
use model_interface_gateway.Types.{MessageHeader, StreamFrame, InvokeRequest, CancelRequest, Env}
use model_interface_gateway.Service.Invoke.{invoke}
use model_interface_gateway.Service.Protocol.{cancel}
use model_interface_gateway.Auth.{Principal}
use model_interface_gateway.Service.{Service, Outcome}
use model_interface_gateway.Service.Events.{subscribe}
use model_interface_gateway.Service.Connections.{register_connection}
use model_interface_gateway.Service.History.{
  History, start, invoked, published, cancelled, registered, unregistered, subscribed, unsubscribed,
}
use model_interface_gateway.Service.History.Served.{
  one_step, followed_by, hello-History, discover-History, heartbeat-History,
}
use model_interface_gateway.Frames.{Turn, Listener, stream_connection}
use model_interface_gateway.Frames.Steps.{
  Behaves, opened-History, closed-History, serve_events-History,
}
use model_interface_gateway.Types.Json.{text}
use model_interface_gateway.Grpc.Convert.{
  Wire, ProtoHeader, ProtoFrame, message_header_from_proto, stream_frame_from_proto,
}
use model_interface_gateway.Grpc.Handlers.{
  apply_principal_header_from_principal, answer, unary, grpc_hello, grpc_discover, grpc_invoke,
  grpc_publish, grpc_cancel, grpc_heartbeat,
}
use model_interface_gateway.Grpc.Handlers.Laws.{
  hello_call, discover_call, invoke_call, publish_call, cancel_call, heartbeat_call,
}
use model_interface_gateway.Grpc.Streams.{
  grpc_invoke_frame, grpc_cancel_frame, grpc_switch, grpc_answer, grpc_loop, grpc_stream_invoke,
  grpc_events, grpc_subscribe,
}
use model_interface_gateway.Grpc.Methods.{
  MethodCall, unary_call, stream_invoke_call, subscribe_call, run_method,
}

answer-state :
    {A B : Type 0} (reply : A → B) (outcome : Outcome A) → (answer reply outcome).0 ≡ outcome.0
answer-state reply (s, ok a) = refl
answer-state reply (s, err e) = refl

unary-History :
    {A B : Type 0} (reply : A → B) (operation : MessageHeader → Service → Outcome A)
    (head : MessageHeader) (p : Principal) (s : Service)
    → ((h : MessageHeader) → History s (operation h s).0)
    → History s (unary reply operation head p s).0
unfolding unary
unary-History reply operation head p s ran =
    let head' = (apply_principal_header_from_principal head p).0 in
    elim (Option-cases (apply_principal_header_from_principal head p).1) [
      | inr (e, refused) ↦ rw (refused, unary) start
      | inl free ↦ rw (free, unary, answer-state reply (operation head' s)) (ran head')
    ]

grpc_invoke_frame-History :
    (env : Env) (expired : Bool) (p : Principal) (frame : StreamFrame) (s : Service)
    → History s (grpc_invoke_frame env expired p frame s).0
unfolding grpc_invoke_frame
grpc_invoke_frame-History env expired p frame s =
    let actor = if p.subject == "" then "anonymous" else p.subject in
    let req : InvokeRequest = record {
      header = frame.header;
      capability = frame.capability;
      payload = frame.payload;
      stream_preference = "";
    } in
    let ran = one_step (invoked env expired frame.capability req actor p) in
    elim (Result-cases (invoke env expired frame.capability req actor p s).1) [
      | inl (e, failed) ↦ rw (failed, grpc_invoke_frame) ran
      | inr (reply, served) ↦ rw (served, grpc_invoke_frame) ran
    ]

grpc_cancel_frame-History :
    (env : Env) (frame : StreamFrame) (s : Service) → History s (grpc_cancel_frame env frame s).0
unfolding grpc_cancel_frame
grpc_cancel_frame-History env frame s =
    let target = frame.header.message_id in
    let req : CancelRequest = record {
      header = frame.header;
      target_message_id = target;
      reason = "grpc stream control cancel";
    } in
    let ran = one_step (cancelled env req target) in
    elim (Result-cases (cancel env req target s).1) [
      | inl (e, failed) ↦ rw (failed, grpc_cancel_frame) ran
      | inr (ack, accepted) ↦ rw (accepted, grpc_cancel_frame) ran
    ]

grpc_switch-History :
    (env : Env) (expired : Bool) (p : Principal) (frame : StreamFrame) (s : Service)
    → History s (grpc_switch env expired p frame s).0
unfolding grpc_switch
grpc_switch-History env expired p frame s = elim (Bool-cases (frame.kind == "request")) [
  | inl request ↦ rw (request, grpc_switch) (grpc_invoke_frame-History env expired p frame s)
  | inr other ↦ elim (Bool-cases (frame.kind == "control")) [
    | inr unknown ↦ rw (other, unknown, grpc_switch) start
    | inl control ↦ rw (other, control, grpc_switch) (grpc_cancel_frame-History env frame s)
  ]
]

grpc_answer-History :
    (env : Env) (expired : Bool) (p : Principal) (frame : StreamFrame) (s : Service)
    → History s (grpc_answer env expired p frame s).0
unfolding grpc_answer
grpc_answer-History env expired p frame s =
    elim (Option-cases (apply_principal_header_from_principal frame.header p).1) [
      | inr (e, refused) ↦ rw (refused, grpc_answer) start
      | inl free ↦ rw (free, grpc_answer) (grpc_switch-History env expired p _ s)
    ]

-- What other requests do while a stream is served is what operations do.
abbrev pub AreBehaved : {Struct Stamp : Type 0} → MethodCall Struct Stamp → Type 0
AreBehaved (unary_call call) = Unit
AreBehaved {Struct = Struct} {Stamp = Stamp} (stream_invoke_call remote_addr turns) =
    All (λ (turn : Turn (Option (ProtoFrame Struct Stamp))). Behaves turn.others) turns
AreBehaved (subscribe_call remote_addr header topic cursor peer) = All Behaves peer.wakes

module _ {Struct Stamp : Type 0} (wire : Wire Struct Stamp) (env : Env) (p : Principal) where
  grpc_loop-History :
      (turns : List (Turn (Option (ProtoFrame Struct Stamp)))) (s : Service)
      → All (λ (turn : Turn (Option (ProtoFrame Struct Stamp))). Behaves turn.others) turns
      → History s (grpc_loop wire env p turns s).0
  unfolding grpc_loop
  grpc_loop-History [] s h = start
  grpc_loop-History (turn ∷ turns) s (here, h) =
      let before = turn.others s in
      let frame = stream_frame_from_proto wire turn.received in
      let out = grpc_answer turn.env turn.expired p frame before in
      let now = followed_by (here s) (grpc_answer-History turn.env turn.expired p frame before) in
      elim (Bool-cases turn.written) [
        | inl written ↦ rw (written, grpc_loop) (followed_by now (grpc_loop-History turns out.0 h))
        | inr lost ↦ rw (lost, grpc_loop) now
      ]

  grpc_events-History :
      (remote_addr tenant topic cursor : String) (peer : Listener) (s : Service)
      → All Behaves peer.wakes
      → History s (grpc_events wire env p remote_addr tenant topic cursor peer s).0
  unfolding grpc_events
  grpc_events-History remote_addr tenant topic cursor peer s h =
      let about =
        ("service", text "Events/Subscribe")
        ∷ ("topic", text topic)
        ∷ ("resume_cursor", text cursor)
        ∷ [] in
      let conn = stream_connection "grpc" "event_subscribe" tenant p remote_addr about in
      let s' = (register_connection env conn s).0 in
      let begun =
        followed_by (one_step (registered env conn))
          (one_step {s = s'} (subscribed topic cursor)) in
      elim (Result-cases (subscribe topic cursor s').1) [
        | inl (e, refused) ↦
            rw (refused, grpc_events) (followed_by begun (one_step (unregistered _)))
        | inr (sub, accepted) ↦
            rw (accepted, grpc_events)
              (followed_by (followed_by begun (serve_events-History peer topic sub _ h)) (
                followed_by (one_step (unsubscribed topic sub.channel))
                  (one_step (unregistered _))))
      ]

  grpc_subscribe-History :
      (remote_addr : String) (header : Option (ProtoHeader Struct Stamp)) (topic cursor : String)
      (peer : Listener) (s : Service)
      → All Behaves peer.wakes
      → History s (grpc_subscribe wire env p remote_addr header topic cursor peer s).0
  unfolding grpc_subscribe
  grpc_subscribe-History remote_addr header topic cursor peer s h =
      let head = message_header_from_proto wire header in
      elim (Option-cases (apply_principal_header_from_principal head p).1) [
        | inr (e, refused) ↦
            rw (refused, grpc_subscribe)
              (followed_by (opened-History "grpc_events" s) (closed-History "grpc_events" _))
        | inl free ↦
            rw (free, grpc_subscribe)
              (followed_by
                (followed_by (opened-History "grpc_events" s)
                  (grpc_events-History remote_addr _ topic cursor peer _ h))
                (closed-History "grpc_events" _))
      ]

  -- What a method does to the state is a sequence of operations of the service, if what other requests
  -- do while it runs is.
  pub run_method-History :
      (call : MethodCall Struct Stamp) (s : Service)
      → AreBehaved call
      → History s (run_method wire env call p s)
  unfolding run_method grpc_hello grpc_discover grpc_invoke grpc_publish grpc_cancel grpc_heartbeat
      grpc_stream_invoke
  run_method-History (unary_call (hello_call req)) s h =
      unary-History _ _ _ p s (λ head. hello-History env _ s)
  run_method-History (unary_call (discover_call req)) s h =
      unary-History _ _ _ p s (λ head. discover-History env _ p s)
  run_method-History (unary_call (invoke_call expired req)) s h =
      unary-History _ _ _ p s (λ head. one_step (invoked env expired req.capability _ _ p))
  run_method-History (unary_call (publish_call req)) s h =
      unary-History _ _ _ p s (λ head. one_step (published env req.topic _))
  run_method-History (unary_call (cancel_call req)) s h =
      unary-History _ _ _ p s (λ head. one_step (cancelled env _ req.target_message_id))
  run_method-History (unary_call (heartbeat_call req)) s h =
      unary-History _ _ _ p s (λ head. heartbeat-History env _ s)
  run_method-History (stream_invoke_call remote_addr turns) s h =
      followed_by (opened-History "grpc_bidi" s) (
        followed_by (followed_by (one_step (registered env _)) (grpc_loop-History turns _ h))
          (followed_by (one_step (unregistered _)) (closed-History "grpc_bidi" _)))
  run_method-History (subscribe_call remote_addr header topic cursor peer) s h =
      grpc_subscribe-History remote_addr header topic cursor peer s h
