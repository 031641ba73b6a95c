-- ===== src/Grpc/Convert.antt =====
-- grpc_server.go: the messages of the protocol and their conversions. Protocol buffers' `Struct` and
-- timestamps, and Go's `time`, are outside: `Wire` has what the server uses of them.
use model_interface_gateway.Base.{
  ℕ, ◌-◌, ◌%◌, ◌^◌, String, Bool, false, List, [], ◌∷◌, map, Option, none, some,
}
use mathlib.Core.Option.{get_or}
use model_interface_gateway.Base.Int.{ℤ, pos, negsuc}
use model_interface_gateway.Base.GoMap.{GoMap}
use model_interface_gateway.Types.{
  Value, Payload, MessageHeader, MigError, StreamFrame, EventMessage, CapabilityDescriptor, entries,
}
use model_interface_gateway.Grpc.{
  FrameKind, MigErrorCode, InvocationMode, DeliverySemantics, frame_kind_from_proto,
  frame_kind_to_proto, mig_error_code_from_proto, mig_error_code_to_proto, invocation_mode_to_proto,
  delivery_semantics_to_proto,
}

-- `uint32(n)` and `uint64(n)`: the low bits of an integer.
unfoldable pub to_uint : ℕ → ℤ → ℕ
to_uint w (pos n) = n % 2 ^ w
to_uint w (negsuc n) = 2 ^ w - 1 - n % 2 ^ w

-- `structpb.NewStruct` (`none` for its error) and `AsMap`; `time.Parse` and `Format` with RFC3339; and
-- the clock.
pub record Wire (Struct Stamp : Type 0) : Type 0 where
  pub empty_struct : Struct
  pub new_struct : GoMap Value → Option Struct
  pub as_map : Struct → GoMap Value
  pub parse_time : String → Option Stamp
  pub format_time : Stamp → String
  pub now : Stamp

module _ (Struct Stamp : Type 0) where
  pub record ProtoHeader : Type 0 where
    pub mig_version : String
    pub message_id : String
    pub timestamp : Option Stamp
    pub tenant_id : String
    pub session_id : String
    pub traceparent : String
    pub idempotency_key : String
    pub deadline_ms : ℕ
    pub meta : Option Struct

  pub record ProtoError : Type 0 where
    pub code : MigErrorCode
    pub message : String
    pub retryable : Bool
    pub details : Option Struct

  pub record ProtoFrame : Type 0 where
    pub header : Option ProtoHeader
    pub stream_id : String
    pub capability : String
    pub kind : FrameKind
    pub payload : Option Struct
    pub end_stream : Bool
    pub error : Option ProtoError

  pub record ProtoEvent : Type 0 where
    pub header : Option ProtoHeader
    pub topic : String
    pub event_id : String
    pub sequence : ℕ
    pub payload : Option Struct
    pub published_at : Option Stamp
    pub replay : Bool

pub record ProtoQos : Type 0 where
  pub max_payload_bytes : ℕ
  pub supports_replay : Bool
  pub delivery_semantics : DeliverySemantics
  pub supports_ordering : Bool

pub record ProtoCapability : Type 0 where
  pub id : String
  pub version : String
  pub modes : List InvocationMode
  pub input_schema_uri : String
  pub output_schema_uri : String
  pub event_topics : List String
  pub auth_scopes : List String
  pub qos : ProtoQos

-- `capabilityToProto`
unfoldable pub capability_to_proto : CapabilityDescriptor → ProtoCapability
capability_to_proto c = record {
  id = c.id;
  version = c.version;
  modes = map invocation_mode_to_proto c.modes;
  input_schema_uri = c.input_schema_uri;
  output_schema_uri = c.output_schema_uri;
  event_topics = c.event_topics;
  auth_scopes = c.auth_scopes;
  qos = record {
    max_payload_bytes = to_uint 64 c.qos.max_payload_bytes;
    supports_replay = c.qos.supports_replay;
    delivery_semantics = delivery_semantics_to_proto c.qos.delivery_semantics;
    supports_ordering = c.qos.supports_ordering;
  };
}

-- The zero value of `MessageHeader`.
abbrev pub zero_header : MessageHeader
zero_header = record {
  mig_version = "";
  message_id = "";
  timestamp = "";
  tenant_id = "";
  session_id = "";
  traceparent = "";
  idempotency_key = "";
  deadline_ms = pos 0;
  meta = none;
}

-- The zero value of `StreamFrame`.
abbrev pub zero_frame : StreamFrame
zero_frame = record {
  header = zero_header;
  stream_id = "";
  capability = "";
  kind = "";
  payload = none;
  end_stream = false;
  error = none;
}

module _ {Struct Stamp : Type 0} (wire : Wire Struct Stamp) where
  -- `structToMap`
  unfoldable pub struct_to_map : Option Struct → Payload
  struct_to_map none = some []
  struct_to_map (some st) = some (wire.as_map st)

  -- `mapToStruct`
  unfoldable pub map_to_struct : Payload → Option Struct
  map_to_struct m = elim (entries m) [
    | [] ↦ some wire.empty_struct
    | e ∷ es ↦ some (get_or (wire.new_struct (e ∷ es)) wire.empty_struct)
  ]

  -- `time.Parse`, or the clock.
  abbrev stamp_of : String → Stamp
  stamp_of s = get_or (wire.parse_time s) wire.now

  -- `messageHeaderFromProto`
  unfoldable pub message_header_from_proto : Option (ProtoHeader Struct Stamp) → MessageHeader
  message_header_from_proto none = zero_header
  message_header_from_proto (some head) = record {
    mig_version = head.mig_version;
    message_id = head.message_id;
    timestamp = elim head.timestamp [ none ↦ "" | some t ↦ wire.format_time t ];
    tenant_id = head.tenant_id;
    session_id = head.session_id;
    traceparent = head.traceparent;
    idempotency_key = head.idempotency_key;
    deadline_ms = pos head.deadline_ms;
    meta = struct_to_map head.meta;
  }

  -- `messageHeaderToProto`
  unfoldable pub message_header_to_proto : MessageHeader → Option (ProtoHeader Struct Stamp)
  message_header_to_proto head = some (record {
    mig_version = head.mig_version;
    message_id = head.message_id;
    timestamp = some (stamp_of head.timestamp);
    tenant_id = head.tenant_id;
    session_id = head.session_id;
    traceparent = head.traceparent;
    idempotency_key = head.idempotency_key;
    deadline_ms = to_uint 32 head.deadline_ms;
    meta = map_to_struct head.meta;
  })

  -- `migErrorFromProto`
  unfoldable pub mig_error_from_proto : Option (ProtoError Struct Stamp) → Option MigError
  mig_error_from_proto none = none
  mig_error_from_proto (some e) = some (record {
    code = mig_error_code_from_proto e.code;
    message = e.message;
    retryable = e.retryable;
    details = struct_to_map e.details;
  })

  -- `migErrorToProto`
  unfoldable pub mig_error_to_proto : Option MigError → Option (ProtoError Struct Stamp)
  mig_error_to_proto none = none
  mig_error_to_proto (some e) = some (record {
    code = mig_error_code_to_proto e.code;
    message = e.message;
    retryable = e.retryable;
    details = map_to_struct e.details;
  })

  -- `streamFrameFromProto`
  unfoldable pub stream_frame_from_proto : Option (ProtoFrame Struct Stamp) → StreamFrame
  stream_frame_from_proto none = zero_frame
  stream_frame_from_proto (some f) = record {
    header = message_header_from_proto f.header;
    stream_id = f.stream_id;
    capability = f.capability;
    kind = frame_kind_from_proto f.kind;
    payload = struct_to_map f.payload;
    end_stream = f.end_stream;
    error = mig_error_from_proto f.error;
  }

  -- `streamFrameToProto`
  unfoldable pub stream_frame_to_proto : StreamFrame → Option (ProtoFrame Struct Stamp)
  stream_frame_to_proto f = some (record {
    header = message_header_to_proto f.header;
    stream_id = f.stream_id;
    capability = f.capability;
    kind = frame_kind_to_proto f.kind;
    payload = map_to_struct f.payload;
    end_stream = f.end_stream;
    error = mig_error_to_proto f.error;
  })

  -- `eventMessageToProto`
  unfoldable pub event_message_to_proto : EventMessage → ProtoEvent Struct Stamp
  event_message_to_proto e = record {
    header = message_header_to_proto e.header;
    topic = e.topic;
    event_id = e.event_id;
    sequence = to_uint 64 e.sequence;
    payload = map_to_struct e.payload;
    published_at = some (stamp_of e.published_at);
    replay = e.replay;
  }
