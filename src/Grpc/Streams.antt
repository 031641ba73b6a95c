-- ===== src/Grpc/Streams.antt =====
-- grpc_server.go: the streaming methods, `StreamInvoke` and `Subscribe`, and the interceptors.
pub mod Laws
use model_interface_gateway.Base.{
  ℕ, String, Bool, true, false, Option, none, some, List, [], ◌∷◌, ◌++◌, map, Result, ok, err, ◌==◌,
  if◌then◌else◌,
}
use model_interface_gateway.Types.{
  StreamFrame, EventMessage, MigError, InvokeRequest, CancelRequest, Env,
}
use model_interface_gateway.Types.Json.{text, boolean}
use model_interface_gateway.Auth.{Principal, Jwt, AuthConfig}
use model_interface_gateway.Header.{or_default, caller_header}
use model_interface_gateway.Service.{invalid}
use model_interface_gateway.Service.Invoke.{invoke}
use model_interface_gateway.Service.Protocol.{cancel}
use model_interface_gateway.Service.{Service}
use model_interface_gateway.Service.Events.{Subscription, subscribe, unsubscribe}
use model_interface_gateway.Service.Connections.{register_connection, unregister}
use model_interface_gateway.Frames.{
  Turn, Listener, stream_opened, stream_closed, stream_connection, serve_events,
}
use model_interface_gateway.Grpc.Convert.{
  Wire, ProtoHeader, ProtoFrame, ProtoEvent, message_header_from_proto, stream_frame_from_proto,
  stream_frame_to_proto, event_message_to_proto,
}
use model_interface_gateway.Grpc.Handlers.{
  Status, status_from_mig_error, apply_principal_header_from_principal, principal_from_grpc_context,
}

-- The frame that answers with an error.
unfoldable pub grpc_error_frame : StreamFrame → MigError → StreamFrame
grpc_error_frame frame e = record {
  header = frame.header;
  stream_id = frame.stream_id;
  capability = frame.capability;
  kind = "error";
  payload = none;
  end_stream = true;
  error = some e;
}

-- The `case "request"` of `StreamInvoke`. The invocation and the answer share the meta map of the header.
unfoldable pub grpc_invoke_frame :
    Env → Bool → Principal → StreamFrame → Service → Service × StreamFrame
unfolding grpc_error_frame
grpc_invoke_frame env expired p frame s =
    let actor = if p.subject == "" then "anonymous" else p.subject in
    let req : InvokeRequest = record {
      header = frame.header;
      capability = frame.capability;
      payload = frame.payload;
      stream_preference = "";
    } in
    let (s', result) = invoke env expired frame.capability req actor p s in
    let answered = record frame { header = caller_header env frame.header } in
    elim result [
      | err e ↦ (s', grpc_error_frame answered e)
      | ok reply ↦ (
        s',
        record answered {
          kind = "response";
          payload = reply.payload;
          end_stream = true;
          error = none;
        },
      )
    ]

-- The `case "control"` of `StreamInvoke`.
unfoldable pub grpc_cancel_frame : Env → StreamFrame → Service → Service × StreamFrame
unfolding grpc_error_frame
grpc_cancel_frame env frame s =
    let target = frame.header.message_id in
    let req : CancelRequest = record {
      header = frame.header;
      target_message_id = target;
      reason = "grpc stream control cancel";
    } in
    let (s', result) = cancel env req target s in
    let answered = record frame { header = caller_header env frame.header } in
    elim result [
      | err e ↦ (s', grpc_error_frame answered e)
      | ok ack ↦ (
        s',
        record answered {
          kind = "control";
          payload = some (("accepted", boolean ack.accepted) ∷ ("status", text ack.status) ∷ []);
          end_stream = true;
          error = none;
        },
      )
    ]

-- The `switch` of `StreamInvoke`.
unfoldable pub grpc_switch : Env → Bool → Principal → StreamFrame → Service → Service × StreamFrame
grpc_switch env expired p frame s =
    if frame.kind == "request"
    then grpc_invoke_frame env expired p frame s
    else if frame.kind == "control"
    then grpc_cancel_frame env frame s
    else (s, grpc_error_frame frame (invalid "frame.kind must be request or control"))

-- The body of the loop of `StreamInvoke`, between the two conversions.
unfoldable pub grpc_answer : Env → Bool → Principal → StreamFrame → Service → Service × StreamFrame
grpc_answer env expired p frame s =
    let (head, refused) = apply_principal_header_from_principal frame.header p in
    elim refused [
      | some e ↦ (s, grpc_error_frame (record frame { header = head }) e)
      | none ↦ grpc_switch env expired p (record frame { header = head }) s
    ]

-- The authentication of the interceptors: the handler, or the status of the error.
unfoldable pub with_grpc_auth :
    {A : Type 0}
    → Jwt
    → AuthConfig
    → (authorization tenant : List String) → (Principal → Service → Service × Result Status A)
    → Service
    → Service × Result Status A
with_grpc_auth jwt cfg authorization tenant handler s =
    elim (principal_from_grpc_context jwt authorization tenant cfg) [
      | err refused ↦ (s, err refused)
      | ok p ↦ handler p s
    ]

module _ {Struct Stamp : Type 0} (wire : Wire Struct Stamp) (env : Env) (p : Principal) where
  -- The loop of `StreamInvoke`, until nothing more can be read or written: the answers that were sent.
  unfoldable pub grpc_loop :
      List (Turn (Option (ProtoFrame Struct Stamp)))
      → Service
      → Service × List (Option (ProtoFrame Struct Stamp))
  grpc_loop [] s = (s, [])
  grpc_loop (turn ∷ turns) s =
      let (s', out) =
        grpc_answer turn.env turn.expired p (stream_frame_from_proto wire turn.received)
          (turn.others s) in
      let (end, outs) = grpc_loop turns s' in
      if turn.written then (end, stream_frame_to_proto wire out ∷ outs) else (s', [])

  -- `StreamInvoke`. It returns nil at the end of the stream, and else the error of the library.
  unfoldable pub grpc_stream_invoke :
      (remote_addr : String)
      → List (Turn (Option (ProtoFrame Struct Stamp)))
      → Service
      → Service × List (Option (ProtoFrame Struct Stamp))
  grpc_stream_invoke remote_addr turns s =
      let (s', conn) =
        register_connection env
          (stream_connection "grpc" "stream_invoke" (or_default p.tenant_id "unknown") p remote_addr
            (("service", text "Invocation/StreamInvoke") ∷ []))
          (stream_opened "grpc_bidi" s) in
      let (end, outs) = grpc_loop turns s' in
      (stream_closed "grpc_bidi" (unregister conn end), outs)

  -- `Subscribe`, once the header is accepted. The connection is there before the subscription.
  unfoldable pub grpc_events :
      (remote_addr tenant topic cursor : String)
      → Listener
      → Service
      → Service × Result Status (List (ProtoEvent Struct Stamp))
  grpc_events remote_addr tenant topic cursor peer s =
      let (s', conn) =
        register_connection env
          (stream_connection "grpc" "event_subscribe" tenant p remote_addr (
            ("service", text "Events/Subscribe")
            ∷ ("topic", text topic)
            ∷ ("resume_cursor", text cursor)
            ∷ []))
          s in
      let (s'', result) = subscribe topic cursor s' in
      elim result [
        | err e ↦ (unregister conn s'', err (status_from_mig_error e))
        | ok sub ↦
            let (end, sent) = serve_events peer topic sub s'' in
            (
              unregister conn (unsubscribe topic sub.channel end),
              ok (map (event_message_to_proto wire) sent),
            )
      ]

  -- `Subscribe`. A stream that is served ends with nil or with the error of the library; `ok` has the
  -- events that were sent.
  unfoldable pub grpc_subscribe :
      (remote_addr : String)
      → Option (ProtoHeader Struct Stamp)
      → (topic cursor : String) → Listener
      → Service
      → Service × Result Status (List (ProtoEvent Struct Stamp))
  grpc_subscribe remote_addr header topic cursor peer s =
      let opened = stream_opened "grpc_events" s in
      let (head, refused) =
        apply_principal_header_from_principal (message_header_from_proto wire header) p in
      elim refused [
        | some e ↦ (stream_closed "grpc_events" opened, err (status_from_mig_error e))
        | none ↦
            let (end, result) = grpc_events remote_addr head.tenant_id topic cursor peer opened in
            (stream_closed "grpc_events" end, result)
      ]
