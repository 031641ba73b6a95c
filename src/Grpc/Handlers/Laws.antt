-- ===== src/Grpc/Handlers/Laws.antt =====
-- What the unary handlers promise: a principal acts for its own tenant.
use model_interface_gateway.Base.{
  ◌≡◌, ◌≢◌, refl, ap, ◌∙◌, inl, inr, Bool, Option, none, some, ok, err, arith, eq_iff, Option-cases,
}
use model_interface_gateway.Types.{MessageHeader, InvokeResponse, Env}
use model_interface_gateway.Header.{or_default, normalize, add_idg_meta, open_header}
use model_interface_gateway.Auth.{Principal, tenant_mismatch}
use model_interface_gateway.Service.{Service, Outcome}
use model_interface_gateway.Service.Invoke.Laws.{IsServed, invoke-IsServed}
use model_interface_gateway.Service.Invoke.Replay.{answered}
use model_interface_gateway.Grpc.{permission_denied, status_code}
use model_interface_gateway.Grpc.Convert.{Wire, ProtoHeader, message_header_from_proto}
use model_interface_gateway.Grpc.Requests.{
  ProtoHelloRequest, ProtoDiscoverRequest, ProtoInvokeRequest, ProtoInvokeResponse,
  ProtoPublishRequest, ProtoCancelRequest, ProtoHeartbeatRequest,
}
use model_interface_gateway.Grpc.Handlers.{
  Status, status_from_mig_error, apply_principal_header_from_principal, answer, unary,
  invoke_request, invoke_response, grpc_hello, grpc_discover, grpc_invoke, grpc_publish,
  grpc_cancel, grpc_heartbeat,
}

apply-foreign :
    (head : MessageHeader) (p : Principal)
    → p.tenant_id ≢ ""
    → head.tenant_id ≢ ""
    → head.tenant_id ≢ p.tenant_id
    → (apply_principal_header_from_principal head p).1 ≡ some tenant_mismatch
unfolding apply_principal_header_from_principal
apply-foreign head p known named differs =
    ground
      (arith, eq_iff p.tenant_id "", eq_iff head.tenant_id "", eq_iff head.tenant_id p.tenant_id)

apply-own :
    (head : MessageHeader) (p : Principal)
    → p.tenant_id ≢ ""
    → (apply_principal_header_from_principal head p).1 ≡ none
    → (apply_principal_header_from_principal head p).0.tenant_id ≡ p.tenant_id
unfolding apply_principal_header_from_principal
apply-own head p known free =
    ground
      (arith, eq_iff p.tenant_id "", eq_iff head.tenant_id "", eq_iff head.tenant_id p.tenant_id)

-- The status of a header that names another tenant.
abbrev pub denied : Status
denied = record {
  code = permission_denied;
  message = "MIG_FORBIDDEN: tenant_id does not match authenticated principal";
}

status-tenant_mismatch : status_from_mig_error tenant_mismatch ≡ denied
unfolding status_from_mig_error status_code
status-tenant_mismatch = refl

unary-foreign :
    {A B : Type 0} (reply : A → B) (operation : MessageHeader → Service → Outcome A)
    (head : MessageHeader) (p : Principal) (s : Service)
    → p.tenant_id ≢ ""
    → head.tenant_id ≢ ""
    → head.tenant_id ≢ p.tenant_id
    → unary reply operation head p s ≡ (s, err denied)
unfolding unary
unary-foreign reply operation head p s known named differs =
    rw (apply-foreign head p known named differs, unary, status-tenant_mismatch) refl

-- A call of one of the unary methods.
pub data UnaryCall (Struct Stamp : Type 0) : Type 0 where
  hello_call : ProtoHelloRequest Struct Stamp → UnaryCall Struct Stamp
  discover_call : ProtoDiscoverRequest Struct Stamp → UnaryCall Struct Stamp
  invoke_call : Bool → ProtoInvokeRequest Struct Stamp → UnaryCall Struct Stamp
  publish_call : ProtoPublishRequest Struct Stamp → UnaryCall Struct Stamp
  cancel_call : ProtoCancelRequest Struct Stamp → UnaryCall Struct Stamp
  heartbeat_call : ProtoHeartbeatRequest Struct Stamp → UnaryCall Struct Stamp

module _ {Struct Stamp : Type 0} where
  abbrev pub header_of : UnaryCall Struct Stamp → Option (ProtoHeader Struct Stamp)
  header_of (hello_call req) = req.header
  header_of (discover_call req) = req.header
  header_of (invoke_call expired req) = req.header
  header_of (publish_call req) = req.header
  header_of (cancel_call req) = req.header
  header_of (heartbeat_call req) = req.header

  module _ (wire : Wire Struct Stamp) (env : Env) (p : Principal) (s : Service) where
    -- The call is answered with PermissionDenied, and leaves the state alone.
    abbrev pub IsDenied : UnaryCall Struct Stamp → Type 0
    IsDenied (hello_call req) = grpc_hello wire env p req s ≡ (s, err denied)
    IsDenied (discover_call req) = grpc_discover wire env p req s ≡ (s, err denied)
    IsDenied (invoke_call expired req) = grpc_invoke wire env p expired req s ≡ (s, err denied)
    IsDenied (publish_call req) = grpc_publish wire env p req s ≡ (s, err denied)
    IsDenied (cancel_call req) = grpc_cancel wire env p req s ≡ (s, err denied)
    IsDenied (heartbeat_call req) = grpc_heartbeat wire env p req s ≡ (s, err denied)

    -- A call of any unary method by a principal with a tenant, whose header names another tenant, is
    -- answered with PermissionDenied and leaves the state of the service alone.
    pub foreign_call-IsDenied :
        (call : UnaryCall Struct Stamp)
        → p.tenant_id ≢ ""
        → (message_header_from_proto wire (header_of call)).tenant_id ≢ ""
        → (message_header_from_proto wire (header_of call)).tenant_id ≢ p.tenant_id
        → IsDenied call
    unfolding grpc_hello grpc_discover grpc_invoke grpc_publish grpc_cancel grpc_heartbeat
    foreign_call-IsDenied (hello_call req) known named differs =
        unary-foreign _ _ _ p s known named differs
    foreign_call-IsDenied (discover_call req) known named differs =
        unary-foreign _ _ _ p s known named differs
    foreign_call-IsDenied (invoke_call expired req) known named differs =
        unary-foreign _ _ _ p s known named differs
    foreign_call-IsDenied (publish_call req) known named differs =
        unary-foreign _ _ _ p s known named differs
    foreign_call-IsDenied (cancel_call req) known named differs =
        unary-foreign _ _ _ p s known named differs
    foreign_call-IsDenied (heartbeat_call req) known named differs =
        unary-foreign _ _ _ p s known named differs

answer-ok :
    {A B : Type 0} (reply : A → B) (o : Outcome A) (s' : Service) (r : B)
    → answer reply o ≡ (s', ok r)
    → (a : A) × (o ≡ (s', ok a)) × (r ≡ reply a)
answer-ok reply (t, ok a) s' r h =
    let same : t ≡ s' = cc in (a, ap (λ (u : Service). (u, ok a)) same, cc)
answer-ok reply (t, err e) s' r h = absurd cc

unary-ok :
    {A B : Type 0} (reply : A → B) (operation : MessageHeader → Service → Outcome A)
    (head : MessageHeader) (p : Principal) (s s' : Service) (r : B)
    → unary reply operation head p s ≡ (s', ok r)
    → ((apply_principal_header_from_principal head p).1 ≡ none)
      × (a : A) × (operation (apply_principal_header_from_principal head p).0 s ≡ (s', ok a))
      × (r ≡ reply a)
unfolding unary
unary-ok reply operation head p s s' r h =
    elim (Option-cases (apply_principal_header_from_principal head p).1) [
      | inr (e, refused) ↦ absurd (ground arith)
      | inl free ↦
          let (a, ran, made) =
            answer-ok reply (operation (apply_principal_header_from_principal head p).0 s) s' r
              (rw (free, unary) at h) in
          (free, a, ran, made)
    ]

open_header-tenant :
    (env : Env) (h h' : MessageHeader) → open_header env h ≡ ok h' → h'.tenant_id ≡ h.tenant_id
unfolding open_header normalize add_idg_meta
open_header-tenant env h h' e = ground arith

-- A call of `Invoke` that succeeds, by a principal with a tenant, is an invocation that the service
-- served under that tenant: the header of the reply names it.
pub grpc_invoke-IsServed :
    {Struct Stamp : Type 0} (wire : Wire Struct Stamp) (env : Env) (p : Principal) (expired : Bool)
    (req : ProtoInvokeRequest Struct Stamp) (s s' : Service) (r : ProtoInvokeResponse Struct Stamp)
    → p.tenant_id ≢ ""
    → grpc_invoke wire env p expired req s ≡ (s', ok r)
    → (head : MessageHeader) × (resp : InvokeResponse) × IsServed env req.capability
        (invoke_request wire env p req head)
        (or_default p.subject "anonymous")
        p
        s
        s'
        resp
      × (r ≡ invoke_response wire env p resp)
      × (resp.header.tenant_id ≡ p.tenant_id)
unfolding grpc_invoke
grpc_invoke-IsServed wire env p expired req s s' r known h =
    let head = message_header_from_proto wire req.header in
    let (free, resp, ran, made) = unary-ok _ _ head p s s' r h in
    let head' = (apply_principal_header_from_principal head p).0 in
    let v =
      invoke-IsServed env expired req.capability (invoke_request wire env p req head') _ p s s' resp
        ran in
    (
      head',
      resp,
      v,
      made,
      ap (λ (u : MessageHeader). u.tenant_id) (answered v)
          ∙ open_header-tenant env head' v.head v.opened
          ∙ apply-own head p known free,
    )
