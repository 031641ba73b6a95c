-- ===== src/Grpc/Requests.antt =====
-- grpc_server.go: the requests and replies of the unary methods.
use model_interface_gateway.Base.{ℕ, String, Bool, List, Option}
use model_interface_gateway.Grpc.{BindingType, StreamPreference}
use model_interface_gateway.Grpc.Convert.{ProtoHeader, ProtoCapability}

module _ (Struct Stamp : Type 0) where
  pub record ProtoHelloRequest : Type 0 where
    pub header : Option (ProtoHeader Struct Stamp)
    pub supported_versions : List String
    pub requested_bindings : List BindingType
    pub requested_features : List String

  pub record ProtoHelloResponse : Type 0 where
    pub header : Option (ProtoHeader Struct Stamp)
    pub selected_version : String
    pub selected_binding : BindingType
    pub enabled_features : List String
    pub server_id : String

  pub record ProtoDiscoverRequest : Type 0 where
    pub header : Option (ProtoHeader Struct Stamp)
    pub query : String
    pub include_schema_refs : Bool
    pub include_qos : Bool

  pub record ProtoDiscoverResponse : Type 0 where
    pub header : Option (ProtoHeader Struct Stamp)
    pub capabilities : List ProtoCapability

  pub record ProtoInvokeRequest : Type 0 where
    pub header : Option (ProtoHeader Struct Stamp)
    pub capability : String
    pub payload : Option Struct
    pub stream_preference : StreamPreference

  pub record ProtoInvokeResponse : Type 0 where
    pub header : Option (ProtoHeader Struct Stamp)
    pub capability : String
    pub payload : Option Struct
    pub result_schema_uri : String

  pub record ProtoPublishRequest : Type 0 where
    pub header : Option (ProtoHeader Struct Stamp)
    pub topic : String
    pub key : String
    pub payload : Option Struct

  pub record ProtoPublishAck : Type 0 where
    pub header : Option (ProtoHeader Struct Stamp)
    pub topic : String
    pub event_id : String
    pub sequence : ℕ
    pub accepted : Bool

  pub record ProtoCancelRequest : Type 0 where
    pub header : Option (ProtoHeader Struct Stamp)
    pub target_message_id : String
    pub reason : String

  pub record ProtoCancelAck : Type 0 where
    pub header : Option (ProtoHeader Struct Stamp)
    pub target_message_id : String
    pub accepted : Bool
    pub status : String

  pub record ProtoHeartbeatRequest : Type 0 where
    pub header : Option (ProtoHeader Struct Stamp)
    pub interval_ms : ℕ

  -- The load factor as in `HeartbeatAck`.
  pub record ProtoHeartbeatAck : Type 0 where
    pub header : Option (ProtoHeader Struct Stamp)
    pub suggested_interval_ms : ℕ
    pub load_factor_thousandths : ℕ
