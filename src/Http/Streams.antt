-- ===== src/Http/Streams.antt =====
-- core/pkg/mig/http.go: `handleSubscribe`, the event stream, and `handleStream`, the WebSocket.
pub mod Steps
pub mod Laws
pub mod Release
use Prim.Native.String
use model_interface_gateway.Base.{
  ℕ, String, Bool, true, false, Option, none, some, List, [], ◌∷◌, ◌++◌, Result, ok, err, ◌==◌,
  if◌then◌else◌, ◌>>=◌,
}
use model_interface_gateway.Base.GoMap.{GoMap, lookup}
use model_interface_gateway.Text.{to_lower, trim_space}
use model_interface_gateway.Types.{
  Value, Payload, MessageHeader, StreamFrame, EventMessage, ConnectionSnapshot, Env, entries,
}
use model_interface_gateway.Types.Json.{text}
use model_interface_gateway.Auth.{Principal, apply_principal_header, tenant_from_request}
use model_interface_gateway.Service.{Service, invalid}
use model_interface_gateway.Service.Events.{Subscription, subscribe, unsubscribe, receive}
use model_interface_gateway.Service.Connections.{register_connection, unregister}
use model_interface_gateway.Frames.{
  Listener, Turn, stream_connection, serve_events, error_frame, invoke_frame, cancel_frame,
  unknown_kind, stream_opened, stream_closed,
}
use model_interface_gateway.Http.{
  Incoming, query_value, Response, text_error, event_stream, frames, library_answer,
  write_mig_error,
}
use model_interface_gateway.Http.Admin.{tenant_head}

-- The tenant that a stream is listed under.
abbrev pub stream_tenant : Principal → Incoming → String
stream_tenant p r = if p.tenant_id == "" then tenant_from_request r.tenant_header else p.tenant_id

module _ (env : Env) (p : Principal) (r : Incoming) where
  -- `handleSubscribe`, once it is subscribed: the connection, the events, and what was deferred.
  unfoldable pub stream_events :
      Listener → String → String → Subscription → Service → Service × Response
  stream_events peer topic cursor sub s =
      let (s', conn) =
        register_connection env
          (stream_connection "http" "sse_subscribe" (stream_tenant p r) p r.remote_addr
            (("topic", text topic) ∷ ("resume_cursor", text cursor) ∷ []))
          s in
      let (end, sent) = serve_events peer topic sub s' in
      if peer.flushes
      then (unsubscribe topic sub.channel (unregister conn end), event_stream sent)
      else (
        unsubscribe topic sub.channel (unregister conn s'),
        text_error 500 "streaming unsupported",
      )

  unfoldable pub handle_subscribe : Listener → String → Service → Service × Response
  handle_subscribe peer topic s =
      let cursor = query_value r "resume_cursor" in
      let (s', result) = subscribe topic cursor (stream_opened "sse" s) in
      elim result [
        | err e ↦ (
          stream_closed "sse" s',
          write_mig_error env (tenant_head (tenant_from_request r.tenant_header)) 400 e,
        )
        | ok sub ↦
            let (end, answer) = stream_events peer topic cursor sub s' in
            (stream_closed "sse" end, answer)
      ]

-- `frame.Payload["action"].(string)`, lowered and trimmed; nothing if it is no text.
unfoldable pub control_action : Payload → String
control_action payload = elim (lookup "action" (entries payload)) [
  | some (text raw) ↦ to_lower (trim_space raw)
  | _ ↦ ""
]

-- The frame with its stream named.
unfoldable pub named_frame : StreamFrame → StreamFrame
named_frame frame = record frame {
  stream_id =
      if frame.stream_id == ""
      then String.◌++◌ "stream-" frame.header.message_id
      else frame.stream_id;
}

-- The `switch` of `handleStream`: the state, the answer, and whether a failure to write it ends the loop.
unfoldable pub ws_switch :
    Env → Bool → Principal → StreamFrame → Service → Service × StreamFrame × Bool
ws_switch env expired p frame s =
    if frame.kind == "request"
    then (let (s', out) = invoke_frame env expired p frame s in (s', out, true))
    else if frame.kind == "control"
    then (if control_action frame.payload == "cancel"
        then (let (s', out) = cancel_frame env "websocket control cancel" "" frame s in
            (s', out, true))
        else (
          s,
          error_frame frame.header frame.stream_id "" (invalid "unsupported control action"),
          false,
        ))
    else (s, unknown_kind frame, false)

-- The body of the loop of `handleStream`, for a frame whose stream is named.
unfoldable pub ws_answer_named :
    Env → Bool → Principal → String → StreamFrame → Service → Service × StreamFrame × Bool
ws_answer_named env expired p tenant_header frame s =
    let (head, refused) = apply_principal_header frame.header p tenant_header in
    elim refused [
      | some e ↦ (s, error_frame head frame.stream_id frame.capability e, false)
      | none ↦ ws_switch env expired p (record frame { header = head }) s
    ]

-- The body of the loop, for the frame that was read.
abbrev pub ws_answer :
    Env → Bool → Principal → String → StreamFrame → Service → Service × StreamFrame × Bool
ws_answer env expired p tenant_header received =
    ws_answer_named env expired p tenant_header (named_frame received)

-- The loop of `handleStream`, until nothing more can be read: the answers that were written.
unfoldable pub ws_loop :
    Principal → String → List (Turn StreamFrame) → Service → Service × List StreamFrame
ws_loop p tenant_header [] s = (s, [])
ws_loop p tenant_header (turn ∷ turns) s =
    let (s', out, checked) =
      ws_answer turn.env turn.expired p tenant_header turn.received (turn.others s) in
    let (end, outs) = ws_loop p tenant_header turns s' in
    if turn.written then (end, out ∷ outs) else if checked then (s', []) else (end, outs)

-- `handleStream`, once the connection is a WebSocket.
unfoldable pub stream_frames :
    Env → Principal → Incoming → List (Turn StreamFrame) → Service → Service × Response
stream_frames env p r turns s =
    let (s', conn) =
      register_connection env
        (stream_connection "http" "ws_stream" (stream_tenant p r) p r.remote_addr
          (("path", text r.path) ∷ []))
        s in
    let (end, outs) = ws_loop p r.tenant_header turns s' in (unregister conn end, frames outs)

-- `handleStream`. The WebSocket library may refuse the request, with a status.
unfoldable pub handle_stream :
    Env
    → Principal
    → Incoming
    → (refused : Option ℕ) → List (Turn StreamFrame)
    → Service
    → Service × Response
handle_stream env p r refused turns s =
    let opened = stream_opened "websocket" s in
    elim refused [
      | some status ↦ (stream_closed "websocket" opened, library_answer status)
      | none ↦
          let (end, answer) = stream_frames env p r turns opened in
          (stream_closed "websocket" end, answer)
    ]
