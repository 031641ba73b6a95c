-- ===== src/Types/Messages.antt =====
-- types.go: header, errors, and the requests and replies of the protocol operations.
use model_interface_gateway.Base.{ℕ, String, Bool, List, Option}
use model_interface_gateway.Base.Int.{ℤ}
use model_interface_gateway.Types.Json.{Payload}

abbrev pub mig_version : String
mig_version = "0.1"

abbrev pub invalid_request : String
invalid_request = "MIG_INVALID_REQUEST"

abbrev pub unauthorized : String
unauthorized = "MIG_UNAUTHORIZED"

abbrev pub forbidden : String
forbidden = "MIG_FORBIDDEN"

abbrev pub not_found : String
not_found = "MIG_NOT_FOUND"

abbrev pub unsupported_capability : String
unsupported_capability = "MIG_UNSUPPORTED_CAPABILITY"

abbrev pub version_mismatch : String
version_mismatch = "MIG_VERSION_MISMATCH"

abbrev pub timeout : String
timeout = "MIG_TIMEOUT"

abbrev pub rate_limited : String
rate_limited = "MIG_RATE_LIMITED"

abbrev pub backpressure : String
backpressure = "MIG_BACKPRESSURE"

abbrev pub unavailable : String
unavailable = "MIG_UNAVAILABLE"

abbrev pub internal : String
internal = "MIG_INTERNAL"

pub record MessageHeader : Type 0 where
  pub mig_version : String
  pub message_id : String
  pub timestamp : String
  pub tenant_id : String
  pub session_id : String
  pub traceparent : String
  pub idempotency_key : String
  pub deadline_ms : ℤ
  pub meta : Payload

pub record MigError : Type 0 where
  pub code : String
  pub message : String
  pub retryable : Bool
  pub details : Payload

pub record ErrorEnvelope : Type 0 where
  pub header : MessageHeader
  pub error : MigError

pub record HelloRequest : Type 0 where
  pub header : MessageHeader
  pub supported_versions : List String
  pub requested_bindings : List String
  pub requested_features : List String

pub record HelloResponse : Type 0 where
  pub header : MessageHeader
  pub selected_version : String
  pub selected_binding : String
  pub enabled_features : List String
  pub server_id : String

pub record DiscoverRequest : Type 0 where
  pub header : MessageHeader
  pub query : String
  pub include_schema_refs : Bool
  pub include_qos : Bool

pub record QosProfile : Type 0 where
  pub max_payload_bytes : ℤ
  pub supports_replay : Bool
  pub delivery_semantics : String
  pub supports_ordering : Bool

pub record CapabilityDescriptor : Type 0 where
  pub id : String
  pub version : String
  pub modes : List String
  pub input_schema_uri : String
  pub output_schema_uri : String
  pub event_topics : List String
  pub auth_scopes : List String
  pub qos : QosProfile

pub record DiscoverResponse : Type 0 where
  pub header : MessageHeader
  pub capabilities : List CapabilityDescriptor

pub record InvokeRequest : Type 0 where
  pub header : MessageHeader
  pub capability : String
  pub payload : Payload
  pub stream_preference : String

pub record InvokeResponse : Type 0 where
  pub header : MessageHeader
  pub capability : String
  pub payload : Payload
  pub result_schema_uri : String

pub record PublishRequest : Type 0 where
  pub header : MessageHeader
  pub topic : String
  pub key : String
  pub payload : Payload

pub record PublishAck : Type 0 where
  pub header : MessageHeader
  pub topic : String
  pub event_id : String
  pub sequence : ℤ
  pub accepted : Bool

pub record EventMessage : Type 0 where
  pub header : MessageHeader
  pub topic : String
  pub event_id : String
  pub sequence : ℤ
  pub payload : Payload
  pub published_at : String
  pub replay : Bool

pub record CancelRequest : Type 0 where
  pub header : MessageHeader
  pub target_message_id : String
  pub reason : String

pub record CancelAck : Type 0 where
  pub header : MessageHeader
  pub target_message_id : String
  pub accepted : Bool
  pub status : String

pub record HeartbeatRequest : Type 0 where
  pub header : MessageHeader
  pub interval_ms : ℤ

-- `load_factor` is a float: the number of audit records over 1000.0. The field holds the numerator.
pub record HeartbeatAck : Type 0 where
  pub header : MessageHeader
  pub suggested_interval_ms : ℤ
  pub load_factor_thousandths : ℕ

pub record StreamFrame : Type 0 where
  pub header : MessageHeader
  pub stream_id : String
  pub capability : String
  pub kind : String
  pub payload : Payload
  pub end_stream : Bool
  pub error : Option MigError
