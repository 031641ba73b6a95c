-- ===== src/Grpc/Handlers.antt =====
-- grpc_server.go: the unary handlers. Each converts the request, writes the principal's tenant into its
-- header, calls the operation of the service, and converts the reply or the error.
pub mod Laws
use Prim.Native.String
use model_interface_gateway.Base.{
  ℕ, String, Bool, true, false, not, ◌&&◌, List, [], ◌∷◌, map, Option, none, some, Result, ok, err,
  ◌==◌, if◌then◌else◌,
}
use model_interface_gateway.Base.Int.{ℤ, pos}
use model_interface_gateway.Text.{to_lower, contains, trim_space}
use model_interface_gateway.Types.{
  MessageHeader, MigError, HelloRequest, HelloResponse, DiscoverRequest, DiscoverResponse,
  InvokeRequest, InvokeResponse, PublishRequest, PublishAck, CancelRequest, CancelAck,
  HeartbeatRequest, HeartbeatAck, Env, forbidden, invalid_request,
}
use model_interface_gateway.Header.{or_default}
use model_interface_gateway.Auth.{
  Principal, AuthConfig, Jwt, principal_from_auth_headers, principal_meta, refusal, tenant_mismatch,
}
use model_interface_gateway.Service.{Service, Outcome}
use model_interface_gateway.Service.Protocol.{hello, discover, cancel, heartbeat}
use model_interface_gateway.Service.Invoke.{invoke}
use model_interface_gateway.Service.Events.{publish}
use model_interface_gateway.Grpc.{
  BindingType, StreamPreference, StatusCode, unauthenticated, permission_denied, status_code,
  binding_types_from_proto, binding_type_to_proto, stream_preference_from_proto,
}
use model_interface_gateway.Grpc.Requests.{
  ProtoHelloRequest, ProtoHelloResponse, ProtoDiscoverRequest, ProtoDiscoverResponse,
  ProtoInvokeRequest, ProtoInvokeResponse, ProtoPublishRequest, ProtoPublishAck, ProtoCancelRequest,
  ProtoCancelAck, ProtoHeartbeatRequest, ProtoHeartbeatAck,
}
use model_interface_gateway.Grpc.Convert.{
  to_uint, Wire, ProtoHeader, ProtoCapability, capability_to_proto, struct_to_map, map_to_struct,
  message_header_from_proto, message_header_to_proto,
}

-- `status.Error`
pub record Status : Type 0 where
  pub code : StatusCode
  pub message : String

-- `grpcStatusFromMigError`
unfoldable pub status_from_mig_error : MigError → Status
status_from_mig_error e = record {
  code = status_code e.code;
  message = String.◌++◌ e.code (String.◌++◌ ": " e.message);
}

-- `grpcStatusFromAuthErr`
unfoldable pub status_from_auth_err : String → Status
status_from_auth_err e = record {
  code = if contains (to_lower e) "tenant" then permission_denied else unauthenticated;
  message = e;
}

-- `firstMetadataValue`, on the values of the key.
unfoldable pub first_metadata_value : List String → String
first_metadata_value [] = ""
first_metadata_value (value ∷ values) = trim_space value

-- `principalFromGRPCContext`, and the status that the interceptors make of its error.
unfoldable pub principal_from_grpc_context :
    Jwt → (authorization tenant : List String) → AuthConfig → Result Status Principal
principal_from_grpc_context jwt authorization tenant cfg =
    elim (principal_from_auth_headers jwt (first_metadata_value authorization)
      (first_metadata_value tenant) cfg) [ err e ↦ err (status_from_auth_err e) | ok p ↦ ok p ]

-- `applyPrincipalHeaderFromPrincipal`: the header that the caller has afterwards, and the error.
unfoldable pub apply_principal_header_from_principal :
    MessageHeader → Principal → MessageHeader × Option MigError
apply_principal_header_from_principal head p =
    let tenant = if head.tenant_id == "" then p.tenant_id else head.tenant_id in
    let head' = record head { tenant_id = tenant; meta = some (principal_meta p head) } in
    if not (p.tenant_id == "") && not (tenant == p.tenant_id)
    then (head', some tenant_mismatch)
    else if tenant == ""
    then (head', some (refusal invalid_request "tenant_id is required"))
    else (head', none)

-- The reply of the operation, or the status of its error.
abbrev pub answer : {A B : Type 0} → (A → B) → Outcome A → Service × Result Status B
answer reply (s, ok a) = (s, ok (reply a))
answer reply (s, err e) = (s, err (status_from_mig_error e))

-- What the handlers have in common: the tenant first, then the operation.
unfoldable pub unary :
    {A B : Type 0}
    → (A → B)
    → (MessageHeader → Service → Outcome A)
    → MessageHeader
    → Principal
    → Service
    → Service × Result Status B
unary reply operation head p s =
    let (head', refused) = apply_principal_header_from_principal head p in
    elim refused [
      | some e ↦ (s, err (status_from_mig_error e))
      | none ↦ answer reply (operation head' s)
    ]

module _ {Struct Stamp : Type 0} (wire : Wire Struct Stamp) (env : Env) (p : Principal) where
  unfoldable pub grpc_hello :
      ProtoHelloRequest Struct Stamp
      → Service
      → Service × Result Status (ProtoHelloResponse Struct Stamp)
  grpc_hello req s =
      unary
        (λ (out : HelloResponse). record {
          header = message_header_to_proto wire out.header;
          selected_version = out.selected_version;
          selected_binding = binding_type_to_proto out.selected_binding;
          enabled_features = out.enabled_features;
          server_id = out.server_id;
        })
        (λ head. hello env (record {
          header = head;
          supported_versions = req.supported_versions;
          requested_bindings = binding_types_from_proto req.requested_bindings;
          requested_features = req.requested_features;
        }))
        (message_header_from_proto wire req.header) p s

  unfoldable pub grpc_discover :
      ProtoDiscoverRequest Struct Stamp
      → Service
      → Service × Result Status (ProtoDiscoverResponse Struct Stamp)
  grpc_discover req s =
      unary
        (λ (out : DiscoverResponse). record {
          header = message_header_to_proto wire out.header;
          capabilities = map capability_to_proto out.capabilities;
        })
        (λ head.
          discover env
            (record {
              header = head;
              query = req.query;
              include_schema_refs = req.include_schema_refs;
              include_qos = req.include_qos;
            })
            p)
        (message_header_from_proto wire req.header) p s

  -- The request that the handler of `Invoke` makes.
  abbrev pub invoke_request : ProtoInvokeRequest Struct Stamp → MessageHeader → InvokeRequest
  invoke_request req head = record {
    header = head;
    capability = req.capability;
    payload = struct_to_map wire req.payload;
    stream_preference = stream_preference_from_proto req.stream_preference;
  }

  abbrev pub invoke_response : InvokeResponse → ProtoInvokeResponse Struct Stamp
  invoke_response out = record {
    header = message_header_to_proto wire out.header;
    capability = out.capability;
    payload = map_to_struct wire out.payload;
    result_schema_uri = out.result_schema_uri;
  }

  unfoldable pub grpc_invoke :
      Bool
      → ProtoInvokeRequest Struct Stamp
      → Service
      → Service × Result Status (ProtoInvokeResponse Struct Stamp)
  grpc_invoke expired req s =
      unary invoke_response
        (λ head.
          invoke env expired req.capability (invoke_request req head)
            (or_default p.subject "anonymous") p)
        (message_header_from_proto wire req.header) p s

  unfoldable pub grpc_publish :
      ProtoPublishRequest Struct Stamp
      → Service
      → Service × Result Status (ProtoPublishAck Struct Stamp)
  grpc_publish req s =
      unary
        (λ (out : PublishAck). record {
          header = message_header_to_proto wire out.header;
          topic = out.topic;
          event_id = out.event_id;
          sequence = to_uint 64 out.sequence;
          accepted = out.accepted;
        })
        (λ head. publish env req.topic (record {
          header = head;
          topic = req.topic;
          key = req.key;
          payload = struct_to_map wire req.payload;
        }))
        (message_header_from_proto wire req.header) p s

  unfoldable pub grpc_cancel :
      ProtoCancelRequest Struct Stamp
      → Service
      → Service × Result Status (ProtoCancelAck Struct Stamp)
  grpc_cancel req s =
      unary
        (λ (out : CancelAck). record {
          header = message_header_to_proto wire out.header;
          target_message_id = out.target_message_id;
          accepted = out.accepted;
          status = out.status;
        })
        (λ head.
          cancel env
            (record {
              header = head;
              target_message_id = req.target_message_id;
              reason = req.reason;
            })
            req.target_message_id)
        (message_header_from_proto wire req.header) p s

  unfoldable pub grpc_heartbeat :
      ProtoHeartbeatRequest Struct Stamp
      → Service
      → Service × Result Status (ProtoHeartbeatAck Struct Stamp)
  grpc_heartbeat req s =
      unary
        (λ (out : HeartbeatAck). record {
          header = message_header_to_proto wire out.header;
          suggested_interval_ms = to_uint 32 out.suggested_interval_ms;
          load_factor_thousandths = out.load_factor_thousandths;
        })
        (λ head. heartbeat env (record { header = head; interval_ms = pos req.interval_ms }))
        (message_header_from_proto wire req.header) p s
