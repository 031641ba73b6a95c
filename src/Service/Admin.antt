-- ===== src/Service/Admin.antt =====
-- service.go: capabilities, schemas, conformance, policies, quotas, the audit and the usage.
pub mod Laws
use model_interface_gateway.Base.{
  String, Bool, true, false, not, ◌&&◌, ◌||◌, List, [], ◌∷◌, Option, none, some, Result, ok, err,
  ◌==◌, if◌then◌else◌,
}
use model_interface_gateway.Base.Int.{ℤ, pos, is_le_zero, add_int64}
use model_interface_gateway.Base.GoMap.{GoMap, lookup, insert, values}
use model_interface_gateway.Base.Sort.{sort_by}
use model_interface_gateway.Types.{
  MigError, CapabilityDescriptor, CapabilityUpsertRequest, SchemaUpsertRequest, ConformanceHealth,
  PolicyValidateRequest, PolicyValidateResponse, QuotaRequest, QuotaResponse, AuditRecord,
  UsageSnapshot, entries,
}
use model_interface_gateway.Service.{Service, Outcome, invalid}
use model_interface_gateway.Service.Protocol.{by_id}

unfoldable pub add_capability : CapabilityUpsertRequest → Service → Service × Option MigError
add_capability req s =
    let d = req.descriptor in
    if d.id == "" || d.version == ""
    then (s, some (invalid "descriptor.id and descriptor.version are required"))
    else if d.input_schema_uri == "" || d.output_schema_uri == ""
    then (s, some (invalid "schema URIs are required"))
    else (record s { capabilities = insert d.id d s.capabilities }, none)

unfoldable pub list_capabilities : Service → List CapabilityDescriptor
list_capabilities s = sort_by by_id (values s.capabilities)

unfoldable pub add_schema : SchemaUpsertRequest → Service → Service × Option MigError
add_schema req s =
    if req.uri == "" then (s, some (invalid "uri is required")) else elim (entries req.schema) [
      | [] ↦ (s, some (invalid "schema is required"))
      | e ∷ m ↦ (record s { schemas = insert req.uri (e ∷ m) s.schemas }, none)
    ]

unfoldable pub conformance_health : ConformanceHealth
conformance_health = record { core = true; streaming = true; evented = true; full = true }

unfoldable pub validate_policy :
    PolicyValidateRequest → Service → Result MigError PolicyValidateResponse
validate_policy req s =
    if req.tenant_id == "" || (req.capability == "" || req.action == "")
    then err (invalid "tenant_id, capability, and action are required")
    else if not (req.action == "invoke")
    then ok (record { allowed = false; reason = "unsupported action" })
    else elim (lookup req.capability s.capabilities) [
      | none ↦ ok (record { allowed = false; reason = "capability does not exist" })
      | some _ ↦ ok (record { allowed = true; reason = "" })
    ]

unfoldable pub set_quota : QuotaRequest → Service → Outcome QuotaResponse
set_quota req s =
    if req.tenant_id == ""
    then (s, err (invalid "tenant_id is required"))
    else if is_le_zero req.max_invocations
    then (s, err (invalid "max_invocations must be > 0"))
    else (
      record s { quotas = insert req.tenant_id req.max_invocations s.quotas },
      ok (record { tenant_id = req.tenant_id; max_invocations = req.max_invocations }),
    )

-- The loop of `AuditExport`.
unfoldable pub records_of : String → List AuditRecord → List AuditRecord
records_of tenant [] = []
records_of tenant (r ∷ rs) =
    let rest = records_of tenant rs in if r.tenant_id == tenant then r ∷ rest else rest

unfoldable pub audit_export : String → Service → List AuditRecord
audit_export tenant s = if tenant == "" then s.audit else records_of tenant s.audit

-- `total += v` over the map.
unfoldable pub sum_values : GoMap ℤ → ℤ
sum_values [] = pos 0
sum_values ((k, v) ∷ m) = add_int64 v (sum_values m)

unfoldable pub usage : Service → UsageSnapshot
usage s = record {
  tenant_invocations = s.tenant_invocations;
  capability_invocations = s.capability_invocations;
  total_invocations = sum_values s.capability_invocations;
}
