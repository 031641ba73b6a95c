-- ===== src/Grpc/Streams/Laws.antt =====
-- `StreamInvoke` and `handleStream` side by side.
use model_interface_gateway.Base.{
  String, if◌then◌else◌, ◌≡◌, ◌≢◌, refl, inl, inr, Bool, ◌==◌, eq_refl, eq_cases, eq-false_of_ne,
  Bool-cases, Option-cases, Result-cases, ap,
}
use model_interface_gateway.Types.{MessageHeader, StreamFrame, MigError, InvokeRequest, Env}
use model_interface_gateway.Auth.{Principal, apply_principal_header}
use model_interface_gateway.Service.{Service}
use model_interface_gateway.Http.Streams.{named_frame, ws_switch, ws_answer_named, ws_answer}
use model_interface_gateway.Grpc.Handlers.{apply_principal_header_from_principal}
use model_interface_gateway.Grpc.Streams.{
  grpc_error_frame, grpc_invoke_frame, grpc_switch, grpc_answer,
}
use model_interface_gateway.Frames.{error_frame, invoke_frame}
use model_interface_gateway.Service.Invoke.{invoke}

-- With a principal that has a tenant, the two bindings write the same header and refuse the same.
apply-same :
    (head : MessageHeader) (p : Principal) (tenant_header : String)
    → p.tenant_id ≢ ""
    → p.tenant_id ≢ "unknown"
    → apply_principal_header head p tenant_header ≡ apply_principal_header_from_principal head p
unfolding apply_principal_header apply_principal_header_from_principal
apply-same head p tenant_header known usual =
    let tenant = if head.tenant_id == "" then p.tenant_id else head.tenant_id in
    elim (eq_cases tenant p.tenant_id) [
      | inr differs ↦
          rw
            (
              eq-false_of_ne p.tenant_id "" known,
              differs,
              apply_principal_header,
              apply_principal_header_from_principal,
            )
            refl
      | inl own ↦
          rw
            (
              eq-false_of_ne p.tenant_id "" known,
              own,
              eq_refl p.tenant_id,
              eq-false_of_ne p.tenant_id "" known,
              eq-false_of_ne p.tenant_id "unknown" usual,
              apply_principal_header,
              apply_principal_header_from_principal,
            )
            refl
    ]

named_frame-named : (frame : StreamFrame) → frame.stream_id ≢ "" → named_frame frame ≡ frame
unfolding named_frame
named_frame-named frame given = rw (eq-false_of_ne frame.stream_id "" given) refl

-- The two bindings, which have code of their own for this, serve a request alike.
invoke_frame-same :
    (env : Env) (expired : Bool) (p : Principal) (frame : StreamFrame) (s : Service)
    → invoke_frame env expired p frame s ≡ grpc_invoke_frame env expired p frame s
unfolding invoke_frame grpc_invoke_frame
invoke_frame-same env expired p frame s =
    let actor = if p.subject == "" then "anonymous" else p.subject in
    let req : InvokeRequest = record {
      header = frame.header;
      capability = frame.capability;
      payload = frame.payload;
      stream_preference = "";
    } in
    elim (Result-cases (invoke env expired frame.capability req actor p s).1) [
      | inl (e, failed) ↦ rw (failed, invoke_frame, grpc_invoke_frame) refl
      | inr (reply, served) ↦ rw (served, invoke_frame, grpc_invoke_frame) refl
    ]

error_frame-same :
    (frame : StreamFrame) (head : MessageHeader) (e : MigError)
    → error_frame head frame.stream_id frame.capability e
      ≡ grpc_error_frame (record frame { header = head }) e
unfolding grpc_error_frame
error_frame-same frame head e = refl

switch-same :
    (env : Env) (expired : Bool) (p : Principal) (frame : StreamFrame) (s : Service)
    → frame.kind ≢ "control"
    → ((ws_switch env expired p frame s).0 ≡ (grpc_switch env expired p frame s).0)
      × ((ws_switch env expired p frame s).1 ≡ (grpc_switch env expired p frame s).1)
unfolding ws_switch grpc_switch
switch-same env expired p frame s other = elim (Bool-cases (frame.kind == "request")) [
  | inl request ↦
      let same = invoke_frame-same env expired p frame s in
      rw (request, ws_switch, grpc_switch)
        (ap (λ (o : Service × StreamFrame). o.0) same, ap (λ (o : Service × StreamFrame). o.1) same)
  | inr neither ↦
      rw (neither, eq-false_of_ne frame.kind "control" other, ws_switch, grpc_switch)
        (refl, error_frame-same frame frame.header _)
]

answers-same :
    (env : Env) (expired : Bool) (p : Principal) (tenant_header : String) (frame : StreamFrame)
    (s : Service)
    → p.tenant_id ≢ ""
    → p.tenant_id ≢ "unknown"
    → frame.kind ≢ "control"
    → ((ws_answer_named env expired p tenant_header frame s).0
        ≡ (grpc_answer env expired p frame s).0)
      × ((ws_answer_named env expired p tenant_header frame s).1
          ≡ (grpc_answer env expired p frame s).1)
unfolding ws_answer_named grpc_answer
answers-same env expired p tenant_header frame s known usual other =
    let same = apply-same frame.header p tenant_header known usual in
    elim (Option-cases (apply_principal_header_from_principal frame.header p).1) [
      | inl free ↦
          rw (same, free, ws_answer_named, grpc_answer, same) (switch-same env expired p _ s other)
      | inr (e, refused) ↦
          rw (same, refused, ws_answer_named, grpc_answer, same) (refl, error_frame-same frame _ e)
    ]

-- A frame that names its stream and is no control frame, of a principal with a tenant other than the
-- reserved "unknown", has the same effect on the state in the loops of the WebSocket and of gRPC, and
-- they make the same frame of answer, which gRPC has still to convert for the wire.
pub bindings_agree :
    (env : Env) (expired : Bool) (p : Principal) (tenant_header : String) (frame : StreamFrame)
    (s : Service)
    → p.tenant_id ≢ ""
    → p.tenant_id ≢ "unknown"
    → frame.stream_id ≢ ""
    → frame.kind ≢ "control"
    → ((ws_answer env expired p tenant_header frame s).0 ≡ (grpc_answer env expired p frame s).0)
      × ((ws_answer env expired p tenant_header frame s).1 ≡ (grpc_answer env expired p frame s).1)
bindings_agree env expired p tenant_header frame s known usual given other =
    rw (named_frame-named frame given)
      (answers-same env expired p tenant_header frame s known usual other)
