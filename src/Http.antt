-- ===== src/Http.antt =====
-- core/pkg/mig/http.go: what the HTTP handlers have in common. The handlers are in the children:
-- `Protocol`, `Admin` and `Streams`; `Routes` has the dispatch and the middleware around it. What
-- net/http and encoding/json make of a request is its argument: the header fields that are read, the
-- query, and the body as it decodes.
pub mod Protocol
pub mod Admin
pub mod Streams
pub mod Routes
use Prim.Native.String
use model_interface_gateway.Base.{
  Bool, ℕ, String, Option, none, some, List, Result, ok, err, ◌==◌, if◌then◌else◌,
}
use model_interface_gateway.Base.GoMap.{GoMap, lookup_or}
use model_interface_gateway.Types.{
  MessageHeader, MigError, ErrorEnvelope, mig_version, HelloResponse, DiscoverResponse,
  InvokeResponse, PublishAck, EventMessage, CancelAck, HeartbeatAck, StreamFrame,
  CapabilityDescriptor, ConformanceHealth, ConnectionsResponse, PolicyValidateResponse,
  QuotaResponse, AuditRecord, UsageSnapshot, Org, Tenant, Gateway, Env, new_message_id,
}
use model_interface_gateway.Header.{or_default}
use model_interface_gateway.Service.{Service}

-- What the handlers read of a request, besides its body. `is_utf8` is Go's test for valid UTF-8, which
-- the Prometheus library asks of a label.
pub record Incoming : Type 0 where
  pub method : String
  pub path : String
  pub authorization : String
  pub tenant_header : String
  pub actor_header : String
  pub remote_addr : String
  pub query : GoMap String
  pub is_utf8 : String → Bool

-- `r.URL.Query().Get`
abbrev pub query_value : Incoming → String → String
query_value r key = lookup_or "" key r.query

-- A body: none at all, or what the JSON decoder makes of it.
abbrev pub Body : Type 0 → Type 0
Body A = Option (Result String A)

-- What `writeJSON` encodes, besides errors.
pub data Content : Type 0 where
  hello_content : HelloResponse → Content
  discover_content : DiscoverResponse → Content
  invoke_content : InvokeResponse → Content
  publish_content : PublishAck → Content
  cancel_content : CancelAck → Content
  heartbeat_content : HeartbeatAck → Content
  descriptor_content : CapabilityDescriptor → Content
  capabilities_content : List CapabilityDescriptor → Content
  uri_content : String → Content
  health_content : ConformanceHealth → Content
  connections_content : ConnectionsResponse → Content
  policy_content : PolicyValidateResponse → Content
  quota_content : QuotaResponse → Content
  records_content : List AuditRecord → Content
  org_content : Org → Content
  tenant_content : Tenant → Content
  gateway_content : Gateway → Content
  usage_content : UsageSnapshot → Content

-- What a handler writes: JSON, an error envelope, `{"error": …}`, the text of `http.Error`, the console
-- page, the events of a stream, or the frames of a WebSocket. `library_answer` is what net/http or the
-- WebSocket library writes by itself, with its status.
pub data Response : Type 0 where
  json : ℕ → Content → Response
  mig_error : ℕ → ErrorEnvelope → Response
  json_error : ℕ → String → Response
  text_error : ℕ → String → Response
  console : Response
  event_stream : List EventMessage → Response
  frames : List StreamFrame → Response
  library_answer : ℕ → Response

-- `writeMigError`
unfoldable pub write_mig_error : Env → MessageHeader → ℕ → MigError → Response
write_mig_error env head status e = mig_error status (record {
  header = record head {
    tenant_id = or_default head.tenant_id "unknown";
    message_id = or_default head.message_id (new_message_id env.for_entry);
    mig_version = or_default head.mig_version mig_version;
    timestamp = or_default head.timestamp env.now;
  };
  error = e;
})

-- `decodeJSON`, and the rest of the handler.
unfoldable pub with_body :
    {A : Type 0} → Body A → (A → Service → Service × Response) → Service → Service × Response
with_body body rest s = elim body [
  | none ↦ (s, text_error 400 "request body required")
  | some (err e) ↦ (s, text_error 400 (String.◌++◌ "invalid JSON body: " e))
  | some (ok req) ↦ rest req s
]

-- The status that the recorder around the response sees.
unfoldable pub status_of : Response → ℕ
status_of (json status content) = status
status_of (mig_error status envelope) = status
status_of (json_error status message) = status
status_of (text_error status message) = status
status_of console = 200
status_of (event_stream sent) = 200
status_of (frames outs) = 200
status_of (library_answer status) = status
