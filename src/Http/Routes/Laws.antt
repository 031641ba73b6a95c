-- ===== src/Http/Routes/Laws.antt =====
-- Who is let through to the handlers, and for which tenant.
use model_interface_gateway.Base.{
  ℕ, String, ◌≡◌, ◌≢◌, refl, sym, ◌∙◌, Option, none, some, ok, err, arith, eq_iff,
}
use model_interface_gateway.Types.{MessageHeader, MigError, Env}
use model_interface_gateway.Auth.{Principal, apply_principal_header, tenant_mismatch}
use model_interface_gateway.Service.{Service, Outcome}
use model_interface_gateway.Http.{Incoming, Body, Content, Response, write_mig_error, with_body}
use model_interface_gateway.Http.Protocol.{
  as_principal, handle_hello, handle_discover, handle_invoke, handle_publish, handle_cancel,
  handle_heartbeat,
}
use model_interface_gateway.Http.Admin.{
  tenant_head, for_tenant, handle_policy_validate, handle_set_quota,
}
use model_interface_gateway.Http.Routes.{
  Call, hello_call, discover_call, invoke_call, publish_call, subscribe_call, cancel_call,
  heartbeat_call, stream_call, add_capability_call, list_capabilities_call, add_schema_call,
  conformance_call, connections_call, ui_call, policy_call, quota_call, audit_call, org_call,
  tenant_call, gateway_call, usage_call, unrouted, dispatch,
}

pub apply-foreign :
    (head : MessageHeader) (p : Principal) (tenant_header : String)
    → p.tenant_id ≢ ""
    → head.tenant_id ≢ ""
    → head.tenant_id ≢ p.tenant_id
    → (apply_principal_header head p tenant_header).1 ≡ some tenant_mismatch
unfolding apply_principal_header
apply-foreign head p tenant_header known named differs =
    ground
      (arith, eq_iff p.tenant_id "", eq_iff head.tenant_id "", eq_iff head.tenant_id p.tenant_id)

-- What is answered to a call that names a foreign tenant: 403, and the state is left alone.
abbrev pub IsForbidden : Env → Service → Service × Response → Type 0
IsForbidden env s outcome =
    (head : MessageHeader) × (outcome ≡ (s, write_mig_error env head 403 tenant_mismatch))

-- The tenant that the body of a call names, if it has one and is decoded.
abbrev decoded_tenant : {A : Type 0} → (A → String) → Body A → Option String
decoded_tenant tenant none = none
decoded_tenant tenant (some (err e)) = none
decoded_tenant tenant (some (ok req)) = some (tenant req)

abbrev pub named_tenant : Call → Option String
named_tenant (hello_call body) = decoded_tenant (λ req. req.header.tenant_id) body
named_tenant (discover_call body) = decoded_tenant (λ req. req.header.tenant_id) body
named_tenant (invoke_call expired capability body) =
    decoded_tenant (λ req. req.header.tenant_id) body
named_tenant (publish_call topic body) = decoded_tenant (λ req. req.header.tenant_id) body
named_tenant (cancel_call message_id body) = decoded_tenant (λ req. req.header.tenant_id) body
named_tenant (heartbeat_call body) = decoded_tenant (λ req. req.header.tenant_id) body
named_tenant (policy_call body) = decoded_tenant (λ req. req.tenant_id) body
named_tenant (quota_call body) = decoded_tenant (λ req. req.tenant_id) body
named_tenant _ = none

module _ (env : Env) (p : Principal) (r : Incoming) (s : Service) (known : p.tenant_id ≢ "") where
  as_principal-foreign :
      {B : Type 0} (content : B → Content) (status : MigError → ℕ)
      (echo : MessageHeader → MessageHeader) (operation : MessageHeader → Service → Outcome B)
      (head : MessageHeader)
      → head.tenant_id ≢ ""
      → head.tenant_id ≢ p.tenant_id
      → IsForbidden env s (as_principal env p r content status echo operation head s)
  unfolding as_principal
  as_principal-foreign content status echo operation head named differs = (
    (apply_principal_header head p r.tenant_header).0,
    rw (apply-foreign head p r.tenant_header known named differs, as_principal) refl,
  )

  for_tenant-foreign :
      (tenant : String) (rest : Service → Service × Response)
      → tenant ≢ p.tenant_id
      → IsForbidden env s (for_tenant env p tenant rest s)
  unfolding for_tenant
  for_tenant-foreign tenant rest differs =
      (tenant_head tenant, ground (arith, eq_iff p.tenant_id "", eq_iff tenant p.tenant_id))

  with_body-foreign :
      {A : Type 0} (tenant : A → String) (rest : A → Service → Service × Response) (body : Body A)
      (t : String)
      → ((req : A) → tenant req ≡ t → IsForbidden env s (rest req s))
      → decoded_tenant tenant body ≡ some t
      → IsForbidden env s (with_body body rest s)
  unfolding with_body
  with_body-foreign tenant rest none t h e = absurd (ground arith)
  with_body-foreign tenant rest (some (err x)) t h e = absurd (ground arith)
  with_body-foreign tenant rest (some (ok req)) t h e = h req (ground arith)

  protocol-foreign :
      {A B : Type 0} (content : B → Content) (status : MigError → ℕ)
      (echo : MessageHeader → MessageHeader) (operation : A → MessageHeader → Service → Outcome B)
      (header_of : A → MessageHeader) (body : Body A) (t : String)
      → decoded_tenant (λ req. (header_of req).tenant_id) body ≡ some t
      → t ≢ ""
      → t ≢ p.tenant_id
      → IsForbidden env s (
          with_body body
            (λ req. as_principal env p r content status echo (operation req) (header_of req))
            s)
  protocol-foreign content status echo operation header_of body t e named differs =
      with_body-foreign _ _ body t
        (λ req same.
          as_principal-foreign content status echo (operation req) (header_of req)
            (λ none_named. named (sym same ∙ none_named)) (λ own. differs (sym same ∙ own)))
        e

  -- A call of the protocol, or of the policies and quotas, by a principal with a tenant, whose body names
  -- another tenant, is answered with 403 and leaves the state of the service alone.
  pub foreign_call-IsForbidden :
      (call : Call) (t : String)
      → named_tenant call ≡ some t
      → t ≢ ""
      → t ≢ p.tenant_id
      → IsForbidden env s (dispatch env r call p s)
  unfolding dispatch handle_hello handle_discover handle_invoke handle_publish handle_cancel
      handle_heartbeat handle_policy_validate handle_set_quota
  foreign_call-IsForbidden (hello_call body) t e named differs =
      protocol-foreign _ _ _ _ (λ req. req.header) body t e named differs
  foreign_call-IsForbidden (discover_call body) t e named differs =
      protocol-foreign _ _ _ _ (λ req. req.header) body t e named differs
  foreign_call-IsForbidden (invoke_call expired capability body) t e named differs =
      protocol-foreign _ _ _ _ (λ req. req.header) body t e named differs
  foreign_call-IsForbidden (publish_call topic body) t e named differs =
      protocol-foreign _ _ _ _ (λ req. req.header) body t e named differs
  foreign_call-IsForbidden (cancel_call message_id body) t e named differs =
      protocol-foreign _ _ _ _ (λ req. req.header) body t e named differs
  foreign_call-IsForbidden (heartbeat_call body) t e named differs =
      protocol-foreign _ _ _ _ (λ req. req.header) body t e named differs
  foreign_call-IsForbidden (policy_call body) t e named differs =
      with_body-foreign _ _ body t
        (λ req same. for_tenant-foreign req.tenant_id _ (λ own. differs (sym same ∙ own))) e
  foreign_call-IsForbidden (quota_call body) t e named differs =
      with_body-foreign _ _ body t
        (λ req same. for_tenant-foreign req.tenant_id _ (λ own. differs (sym same ∙ own))) e
  foreign_call-IsForbidden (subscribe_call peer topic) t e named differs = absurd (ground arith)
  foreign_call-IsForbidden (stream_call refused turns) t e named differs = absurd (ground arith)
  foreign_call-IsForbidden (add_capability_call body) t e named differs = absurd (ground arith)
  foreign_call-IsForbidden list_capabilities_call t e named differs = absurd (ground arith)
  foreign_call-IsForbidden (add_schema_call body) t e named differs = absurd (ground arith)
  foreign_call-IsForbidden conformance_call t e named differs = absurd (ground arith)
  foreign_call-IsForbidden connections_call t e named differs = absurd (ground arith)
  foreign_call-IsForbidden ui_call t e named differs = absurd (ground arith)
  foreign_call-IsForbidden audit_call t e named differs = absurd (ground arith)
  foreign_call-IsForbidden (org_call body) t e named differs = absurd (ground arith)
  foreign_call-IsForbidden (tenant_call body) t e named differs = absurd (ground arith)
  foreign_call-IsForbidden (gateway_call body) t e named differs = absurd (ground arith)
  foreign_call-IsForbidden usage_call t e named differs = absurd (ground arith)
  foreign_call-IsForbidden (unrouted status method path) t e named differs = absurd (ground arith)
