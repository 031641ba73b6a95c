-- ===== src/Types/Admin.antt =====
-- types.go: administration, audit, usage, connections, and the cloud records.
use model_interface_gateway.Base.{String, Bool, List}
use model_interface_gateway.Base.Int.{ℤ}
use model_interface_gateway.Base.GoMap.{GoMap}
use model_interface_gateway.Types.Json.{Payload}
use model_interface_gateway.Types.Messages.{CapabilityDescriptor}

pub record ConformanceHealth : Type 0 where
  pub core : Bool
  pub streaming : Bool
  pub evented : Bool
  pub full : Bool

pub record CapabilityUpsertRequest : Type 0 where
  pub descriptor : CapabilityDescriptor

pub record SchemaUpsertRequest : Type 0 where
  pub uri : String
  pub schema : Payload

pub record PolicyValidateRequest : Type 0 where
  pub tenant_id : String
  pub capability : String
  pub action : String

pub record PolicyValidateResponse : Type 0 where
  pub allowed : Bool
  pub reason : String

pub record QuotaRequest : Type 0 where
  pub tenant_id : String
  pub max_invocations : ℤ

pub record QuotaResponse : Type 0 where
  pub tenant_id : String
  pub max_invocations : ℤ

pub record AuditRecord : Type 0 where
  pub actor : String
  pub tenant_id : String
  pub capability : String
  pub outcome : String
  pub timestamp : String
  pub message_id : String

pub record UsageSnapshot : Type 0 where
  pub tenant_invocations : GoMap ℤ
  pub capability_invocations : GoMap ℤ
  pub total_invocations : ℤ

pub record ConnectionSnapshot : Type 0 where
  pub id : String
  pub protocol : String
  pub kind : String
  pub tenant_id : String
  pub actor : String
  pub remote_addr : String
  pub started_at : String
  pub meta : Payload

pub record ConnectionSummary : Type 0 where
  pub total : ℤ
  pub by_protocol : GoMap ℤ
  pub by_kind : GoMap ℤ
  pub by_tenant : GoMap ℤ
  pub nats_binding_active : Bool

pub record ConnectionsResponse : Type 0 where
  pub generated_at : String
  pub summary : ConnectionSummary
  pub connections : List ConnectionSnapshot
  pub filter_tenant : String
  pub filter_kind : String
  pub filter_proto : String

pub record Org : Type 0 where
  pub id : String
  pub name : String

pub record Tenant : Type 0 where
  pub id : String
  pub org_id : String
  pub name : String

pub record Gateway : Type 0 where
  pub id : String
  pub tenant_id : String
  pub region : String
  pub binding : String
