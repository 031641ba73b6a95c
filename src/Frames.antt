-- ===== src/Frames.antt =====
-- core/pkg/mig/http.go: the answers of the loop over stream frames of `handleStream`. http.go and
-- grpc_server.go: what the two loops over events, `handleSubscribe` and `Subscribe`, have in common.
pub mod Steps
pub mod Release
use model_interface_gateway.Base.{
  ℕ, String, Bool, true, false, none, some, List, [], ◌∷◌, ◌++◌, Result, ok, err, if◌then◌else◌,
}
use model_interface_gateway.Base.GoMap.{GoMap}
use mathlib.Core.Option
use model_interface_gateway.Types.{
  MessageHeader, MigError, StreamFrame, CancelAck, Payload, Value, Env, EventMessage,
  ConnectionSnapshot,
}
use model_interface_gateway.Types.Json.{boolean, text}
use model_interface_gateway.Header.{or_default, caller_header}
use model_interface_gateway.Auth.{Principal}
use model_interface_gateway.Service.{Service, invalid}
use model_interface_gateway.Service.Invoke.{invoke}
use model_interface_gateway.Service.Protocol.{cancel}
use model_interface_gateway.Service.Events.{Subscription, receive}
use model_interface_gateway.Metrics.{inc_active_stream, dec_active_stream}

-- One round of a loop: what other requests do to the state before it, the frame that is read, what the
-- operation takes from outside, and whether the answer can be written.
pub record Turn (A : Type 0) : Type 0 where
  pub others : Service → Service
  pub received : A
  pub env : Env
  pub expired : Bool
  pub written : Bool

-- An answer without payload and error.
abbrev pub closing_frame : MessageHeader → String → String → String → StreamFrame
closing_frame head id capability kind = record {
  header = head;
  stream_id = id;
  capability = capability;
  kind = kind;
  payload = none;
  end_stream = true;
  error = none;
}

abbrev pub error_frame : MessageHeader → String → String → MigError → StreamFrame
error_frame head id capability e = record (closing_frame head id capability "error") {
  error = some e;
}

-- `out.Kind = "error"` and the error, or the payload.
abbrev pub complete : {A : Type 0} → (A → Payload) → StreamFrame → Result MigError A → StreamFrame
complete payload out (ok a) = record out { payload = payload a }
complete payload out (err e) = record out { kind = "error"; error = some e }

-- The `case "request"`. The invocation and the answer share the meta map of the header.
unfoldable pub invoke_frame : Env → Bool → Principal → StreamFrame → Service → Service × StreamFrame
invoke_frame env expired p frame s =
    let (s', result) =
      invoke env expired frame.capability
        (record {
          header = frame.header;
          capability = frame.capability;
          payload = frame.payload;
          stream_preference = "";
        })
        (or_default p.subject "anonymous") p s in
    (
      s',
      complete (λ reply. reply.payload)
          (closing_frame (caller_header env frame.header) frame.stream_id frame.capability
            "response")
          result,
    )

abbrev pub ack_payload : CancelAck → Payload
ack_payload ack = some (("accepted", boolean ack.accepted) ∷ ("status", text ack.status) ∷ [])

-- The cancellation of a `case "control"`, whose answer has the capability that is given.
unfoldable pub cancel_frame : Env → String → String → StreamFrame → Service → Service × StreamFrame
cancel_frame env reason capability frame s =
    let (s', result) =
      cancel env
        (record {
          header = frame.header;
          target_message_id = frame.header.message_id;
          reason = reason;
        })
        frame.header.message_id s in
    (
      s',
      complete ack_payload
          (closing_frame (caller_header env frame.header) frame.stream_id capability "control")
          result,
    )

-- The `default`.
abbrev pub unknown_kind : StreamFrame → StreamFrame
unknown_kind frame =
    error_frame frame.header frame.stream_id frame.capability
      (invalid "frame.kind must be request or control")

-- `if s.metrics != nil { s.metrics.IncActiveStream(kind) }`, and what it defers.
unfoldable pub stream_opened : String → Service → Service
stream_opened kind s = record s { metrics = Option.map (inc_active_stream kind) s.metrics }

unfoldable pub stream_closed : String → Service → Service
stream_closed kind s = record s { metrics = Option.map (dec_active_stream kind) s.metrics }

-- The connection of a stream, as the handlers register it.
abbrev pub stream_connection :
    String → String → String → Principal → String → GoMap Value → ConnectionSnapshot
stream_connection protocol kind tenant p remote_addr about = record {
  id = "";
  protocol = protocol;
  kind = kind;
  tenant_id = tenant;
  actor = p.subject;
  remote_addr = remote_addr;
  started_at = "";
  meta = some about;
}

-- The peer of an event stream: whether the response can be flushed (over
-- HTTP), which events it takes (no event is
-- sent twice on a stream), and what other requests do to the state before each time the handler wakes
-- up, until the context is done.
pub record Listener : Type 0 where
  pub flushes : Bool
  pub takes : EventMessage → Bool
  pub wakes : List (Service → Service)

-- The loop over the snapshot: what was written, and whether that is all.
unfoldable pub send_all : (EventMessage → Bool) → List EventMessage → List EventMessage × Bool
send_all takes [] = ([], true)
send_all takes (event ∷ events) =
    let (sent, all) = send_all takes events in
    if takes event then (event ∷ sent, all) else ([], false)

-- The loop over the channel. Only this handler closes it, so a receive gives an event or waits.
unfoldable pub follow :
    String
    → ℕ
    → (EventMessage → Bool)
    → List (Service → Service)
    → Service
    → Service × List EventMessage
follow topic ch takes [] s = (s, [])
follow topic ch takes (others ∷ wakes) s =
    let (s', found) = receive topic ch (others s) in
    let (end, sent) = follow topic ch takes wakes s' in
    elim found [
      | none ↦ (end, sent)
      | some event ↦ if takes event then (end, event ∷ sent) else (s', [])
    ]

-- The snapshot, and then the channel.
unfoldable pub serve_events :
    Listener → String → Subscription → Service → Service × List EventMessage
serve_events peer topic sub s =
    let (sent, all) = send_all peer.takes sub.snapshot in
    let (s', later) = follow topic sub.channel peer.takes peer.wakes s in
    if all then (s', sent ++ later) else (s, sent)
