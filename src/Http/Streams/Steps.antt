-- ===== src/Http/Streams/Steps.antt =====
-- What the two streams over HTTP do to the state is what the operations of the service do.
use model_interface_gateway.Base.{
  ℕ, String, inl, inr, Bool, Option, none, some, List, [], ◌∷◌, All, ◌==◌, Bool-cases, Option-cases,
  Result-cases,
}
use model_interface_gateway.Types.{StreamFrame, Env}
use model_interface_gateway.Auth.{Principal, apply_principal_header}
use model_interface_gateway.Service.{Service}
use model_interface_gateway.Service.Events.{Subscription, subscribe}
use model_interface_gateway.Service.History.{
  History, start, subscribed, unsubscribed, registered, unregistered,
}
use model_interface_gateway.Service.History.Served.{one_step, followed_by}
use model_interface_gateway.Frames.{Turn, Listener, serve_events, stream_opened}
use model_interface_gateway.Frames.Steps.{
  Behaves, invoke_frame-History, cancel_frame-History, opened-History, closed-History,
  serve_events-History,
}
use model_interface_gateway.Http.{Incoming, query_value}
use model_interface_gateway.Http.Streams.{
  stream_events, handle_subscribe, control_action, ws_switch, ws_answer_named, ws_answer, ws_loop,
  stream_frames, handle_stream,
}

module _ (env : Env) (p : Principal) (r : Incoming) where
  stream_events-History :
      (peer : Listener) (topic cursor : String) (sub : Subscription) (s : Service)
      → All Behaves peer.wakes
      → History s (stream_events env p r peer topic cursor sub s).0
  unfolding stream_events serve_events
  stream_events-History peer topic cursor sub s h = elim (Bool-cases peer.flushes) [
    | inl flushes ↦
        rw (flushes, stream_events)
          (followed_by
            (followed_by (one_step (registered env _)) (serve_events-History peer topic sub _ h))
            (followed_by (one_step (unregistered _)) (one_step (unsubscribed topic sub.channel))))
    | inr plain ↦
        rw (plain, stream_events)
          (followed_by (one_step (registered env _))
            (followed_by (one_step (unregistered _)) (one_step (unsubscribed topic sub.channel))))
  ]

  pub handle_subscribe-History :
      (peer : Listener) (topic : String) (s : Service)
      → All Behaves peer.wakes
      → History s (handle_subscribe env p r peer topic s).0
  unfolding handle_subscribe
  handle_subscribe-History peer topic s h =
      let cursor = query_value r "resume_cursor" in
      let begun =
        followed_by (opened-History "sse" s)
          (one_step {s = stream_opened "sse" s} (subscribed topic cursor)) in
      elim (Result-cases (subscribe topic cursor (stream_opened "sse" s)).1) [
        | inl (e, refused) ↦
            rw (refused, handle_subscribe) (followed_by begun (closed-History "sse" _))
        | inr (sub, open_) ↦
            rw (open_, handle_subscribe)
              (followed_by (followed_by begun (stream_events-History peer topic cursor sub _ h))
                (closed-History "sse" _))
      ]

ws_switch-History :
    (env : Env) (expired : Bool) (p : Principal) (frame : StreamFrame) (s : Service)
    → History s (ws_switch env expired p frame s).0
unfolding ws_switch
ws_switch-History env expired p frame s = elim (Bool-cases (frame.kind == "request")) [
  | inl request ↦ rw (request, ws_switch) (invoke_frame-History env expired p frame s)
  | inr other ↦ elim (Bool-cases (frame.kind == "control")) [
    | inr unknown ↦ rw (other, unknown, ws_switch) start
    | inl control ↦ elim (Bool-cases (control_action frame.payload == "cancel")) [
      | inl cancels ↦ rw (other, control, cancels, ws_switch) (cancel_frame-History env _ _ frame s)
      | inr none_known ↦ rw (other, control, none_known, ws_switch) start
    ]
  ]
]

ws_answer_named-History :
    (env : Env) (expired : Bool) (p : Principal) (tenant_header : String) (frame : StreamFrame)
    (s : Service)
    → History s (ws_answer_named env expired p tenant_header frame s).0
unfolding ws_answer_named
ws_answer_named-History env expired p tenant_header frame s =
    elim (Option-cases (apply_principal_header frame.header p tenant_header).1) [
      | inr (e, refused) ↦ rw (refused, ws_answer_named) start
      | inl free ↦ rw (free, ws_answer_named) (ws_switch-History env expired p _ s)
    ]

ws_loop-History :
    (p : Principal) (tenant_header : String) (turns : List (Turn StreamFrame)) (s : Service)
    → All (λ (turn : Turn StreamFrame). Behaves turn.others) turns
    → History s (ws_loop p tenant_header turns s).0
unfolding ws_loop
ws_loop-History p tenant_header [] s h = start
ws_loop-History p tenant_header (turn ∷ turns) s (here, h) =
    let before = turn.others s in
    let answer = ws_answer turn.env turn.expired p tenant_header turn.received before in
    let now =
      followed_by (here s)
        (ws_answer_named-History turn.env turn.expired p tenant_header _ before) in
    let later = followed_by now (ws_loop-History p tenant_header turns answer.0 h) in
    elim (Bool-cases turn.written) [
      | inl written ↦ rw (written, ws_loop) later
      | inr lost ↦ elim (Bool-cases answer.2) [
        | inl checked ↦ rw (lost, checked, ws_loop) now
        | inr free ↦ rw (lost, free, ws_loop) later
      ]
    ]

module _ (env : Env) (p : Principal) (r : Incoming) where
  stream_frames-History :
      (turns : List (Turn StreamFrame)) (s : Service)
      → All (λ (turn : Turn StreamFrame). Behaves turn.others) turns
      → History s (stream_frames env p r turns s).0
  unfolding stream_frames
  stream_frames-History turns s h =
      followed_by
        (followed_by (one_step (registered env _)) (ws_loop-History p r.tenant_header turns _ h))
        (one_step (unregistered _))

  pub handle_stream-History :
      (refused : Option ℕ) (turns : List (Turn StreamFrame)) (s : Service)
      → All (λ (turn : Turn StreamFrame). Behaves turn.others) turns
      → History s (handle_stream env p r refused turns s).0
  unfolding handle_stream
  handle_stream-History (some status) turns s h =
      followed_by (opened-History "websocket" s) (closed-History "websocket" _)
  handle_stream-History none turns s h =
      followed_by (opened-History "websocket" s)
        (followed_by (stream_frames-History turns _ h) (closed-History "websocket" _))
