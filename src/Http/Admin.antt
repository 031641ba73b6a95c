-- ===== src/Http/Admin.antt =====
-- core/pkg/mig/http.go: the handlers of the administration, the policies and the cloud records.
use model_interface_gateway.Base.{
  ℕ, String, not, ◌&&◌, Option, none, some, ok, err, ◌==◌, if◌then◌else◌,
}
use model_interface_gateway.Types.{
  MessageHeader, MigError, CapabilityUpsertRequest, SchemaUpsertRequest, PolicyValidateRequest,
  QuotaRequest, Org, Tenant, Gateway, not_found, Env,
}
use model_interface_gateway.Base.Int.{pos}
use model_interface_gateway.Auth.{Principal, tenant_mismatch}
use model_interface_gateway.Service.{Service, Outcome}
use model_interface_gateway.Service.Admin.{
  add_capability, list_capabilities, add_schema, conformance_health, validate_policy, set_quota,
  audit_export, usage,
}
use model_interface_gateway.Service.Cloud.{create_org, create_tenant, create_gateway}
use model_interface_gateway.Service.Connections.{connections}
use model_interface_gateway.Http.{
  Incoming, query_value, Body, Content, Response, json, json_error, console, write_mig_error,
  with_body, descriptor_content, capabilities_content, uri_content, health_content,
  connections_content, policy_content, quota_content, records_content, org_content, tenant_content,
  gateway_content, usage_content,
}

-- A header with nothing but a tenant: `MessageHeader{TenantID: tenant}`.
abbrev pub tenant_head : String → MessageHeader
tenant_head tenant = record {
  mig_version = "";
  message_id = "";
  timestamp = "";
  tenant_id = tenant;
  session_id = "";
  traceparent = "";
  idempotency_key = "";
  deadline_ms = pos 0;
  meta = none;
}

-- The end of the handlers of capabilities and schemas: 201, or the error.
unfoldable pub created : Response → Service × Option MigError → Service × Response
created reply (s, some e) = (s, json_error 400 e.message)
created reply (s, none) = (s, reply)

unfoldable pub handle_add_capability : Body CapabilityUpsertRequest → Service → Service × Response
handle_add_capability body =
    with_body body
      (λ req s. created (json 201 (descriptor_content req.descriptor)) (add_capability req s))

unfoldable pub handle_list_capabilities : Service → Service × Response
handle_list_capabilities s = (s, json 200 (capabilities_content (list_capabilities s)))

unfoldable pub handle_add_schema : Body SchemaUpsertRequest → Service → Service × Response
handle_add_schema body =
    with_body body (λ req s. created (json 201 (uri_content req.uri)) (add_schema req s))

unfoldable pub handle_conformance_health : Service → Service × Response
handle_conformance_health s = (s, json 200 (health_content conformance_health))

unfoldable pub handle_connections : Env → Incoming → Service → Service × Response
handle_connections env r s = (
  s,
  json 200 (
      connections_content (
        connections env
          (record {
            tenant_id = query_value r "tenant_id";
            kind = query_value r "kind";
            protocol = query_value r "protocol";
          })
          s)),
)

unfoldable pub handle_ui : Service → Service × Response
handle_ui s = (s, console)

-- The test of the policy and quota handlers on the tenant of the request, and its answer.
unfoldable pub for_tenant :
    Env → Principal → String → (Service → Service × Response) → Service → Service × Response
for_tenant env p tenant rest s =
    if not (p.tenant_id == "") && not (tenant == p.tenant_id)
    then (s, write_mig_error env (tenant_head tenant) 403 tenant_mismatch)
    else rest s

-- The reply with its status, or `{"error": …}` with the status of the error.
unfoldable pub plain_reply :
    {B : Type 0} → (B → Content) → ℕ → (MigError → ℕ) → Outcome B → Service × Response
plain_reply content made status (s, result) = elim result [
  | ok b ↦ (s, json made (content b))
  | err e ↦ (s, json_error (status e) e.message)
]

unfoldable pub handle_policy_validate :
    Env → Principal → Body PolicyValidateRequest → Service → Service × Response
handle_policy_validate env p body = with_body body (λ req.
    for_tenant env p req.tenant_id
      (λ s. plain_reply policy_content 200 (λ e. 400) (s, validate_policy req s)))

unfoldable pub handle_set_quota : Env → Principal → Body QuotaRequest → Service → Service × Response
handle_set_quota env p body = with_body body (λ req.
    for_tenant env p req.tenant_id
      (λ s. plain_reply quota_content 200 (λ e. 400) (set_quota req s)))

unfoldable pub handle_audit_export : Incoming → Service → Service × Response
handle_audit_export r s =
    (s, json 200 (records_content (audit_export (query_value r "tenant_id") s)))

unfoldable pub handle_create_org : Env → Body Org → Service → Service × Response
handle_create_org env body =
    with_body body (λ org s. plain_reply org_content 201 (λ e. 400) (create_org env org s))

-- A record that is missing is answered with 404.
abbrev pub record_status : MigError → ℕ
record_status e = if e.code == not_found then 404 else 400

unfoldable pub handle_create_tenant : Env → Body Tenant → Service → Service × Response
handle_create_tenant env body =
    with_body body
      (λ tenant s. plain_reply tenant_content 201 record_status (create_tenant env tenant s))

unfoldable pub handle_create_gateway : Env → Body Gateway → Service → Service × Response
handle_create_gateway env body =
    with_body body (λ gw s. plain_reply gateway_content 201 record_status (create_gateway env gw s))

unfoldable pub handle_usage : Service → Service × Response
handle_usage s = (s, json 200 (usage_content (usage s)))
