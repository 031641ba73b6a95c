-- ===== src/Grpc.antt =====
-- core/pkg/mig/grpc_server.go: the gRPC binding. Here are the enumerations of its protocol and what the
-- server turns them into; `Convert` has the messages and `Laws` what a message keeps on the way.
-- An enumeration of the protocol is open: a message may carry a number that has no name, `..._other`.
pub mod Convert
pub mod Laws
pub mod Requests
pub mod Handlers
pub mod Streams
pub mod Methods
use model_interface_gateway.Base.{
  ℕ, String, Bool, true, false, ◌==◌, ◌||◌, if◌then◌else◌, List, [], ◌∷◌,
}
use model_interface_gateway.Text.{trim_space, to_lower}
use model_interface_gateway.Types.{
  MigError, invalid_request, unauthorized, forbidden, not_found, unsupported_capability,
  version_mismatch, timeout, rate_limited, backpressure, unavailable, internal,
}

pub data BindingType : Type 0 where
  binding_type_unspecified : BindingType
  binding_type_grpc : BindingType
  binding_type_nats : BindingType
  binding_type_http : BindingType
  binding_type_other : ℕ → BindingType

pub data InvocationMode : Type 0 where
  invocation_mode_unspecified : InvocationMode
  invocation_mode_unary : InvocationMode
  invocation_mode_server_stream : InvocationMode
  invocation_mode_client_stream : InvocationMode
  invocation_mode_bidi_stream : InvocationMode
  invocation_mode_other : ℕ → InvocationMode

pub data StreamPreference : Type 0 where
  stream_preference_unspecified : StreamPreference
  stream_preference_unary : StreamPreference
  stream_preference_server_stream : StreamPreference
  stream_preference_bidi_stream : StreamPreference
  stream_preference_other : ℕ → StreamPreference

pub data DeliverySemantics : Type 0 where
  delivery_semantics_unspecified : DeliverySemantics
  delivery_semantics_best_effort : DeliverySemantics
  delivery_semantics_at_least_once : DeliverySemantics
  delivery_semantics_exactly_once : DeliverySemantics
  delivery_semantics_other : ℕ → DeliverySemantics

pub data FrameKind : Type 0 where
  frame_kind_unspecified : FrameKind
  frame_kind_request : FrameKind
  frame_kind_response : FrameKind
  frame_kind_event : FrameKind
  frame_kind_control : FrameKind
  frame_kind_error : FrameKind
  frame_kind_other : ℕ → FrameKind

pub data MigErrorCode : Type 0 where
  mig_unspecified : MigErrorCode
  mig_invalid_request : MigErrorCode
  mig_unauthorized : MigErrorCode
  mig_forbidden : MigErrorCode
  mig_not_found : MigErrorCode
  mig_unsupported_capability : MigErrorCode
  mig_version_mismatch : MigErrorCode
  mig_timeout : MigErrorCode
  mig_rate_limited : MigErrorCode
  mig_backpressure : MigErrorCode
  mig_unavailable : MigErrorCode
  mig_internal : MigErrorCode
  mig_other : ℕ → MigErrorCode

-- The text that the switches of the `...ToProto` functions look at.
abbrev pub folded : String → String
folded value = to_lower (trim_space value)

-- `bindingTypeFromProto`
unfoldable pub binding_type_from_proto : BindingType → String
binding_type_from_proto binding_type_grpc = "grpc"
binding_type_from_proto binding_type_nats = "nats"
binding_type_from_proto binding_type_http = "http"
binding_type_from_proto binding_type_unspecified = ""
binding_type_from_proto (binding_type_other n) = ""

-- `bindingTypeToProto`
unfoldable pub binding_type_to_proto : String → BindingType
binding_type_to_proto value =
    let v = folded value in
    if v == "grpc"
    then binding_type_grpc
    else if v == "nats"
    then binding_type_nats
    else if v == "http"
    then binding_type_http
    else binding_type_unspecified

-- `bindingTypesFromProto`
unfoldable pub binding_types_from_proto : List BindingType → List String
binding_types_from_proto [] = []
binding_types_from_proto (b ∷ bs) = binding_type_from_proto b ∷ binding_types_from_proto bs

-- `streamPreferenceFromProto`
unfoldable pub stream_preference_from_proto : StreamPreference → String
stream_preference_from_proto stream_preference_unary = "unary"
stream_preference_from_proto stream_preference_server_stream = "server_stream"
stream_preference_from_proto stream_preference_bidi_stream = "bidi_stream"
stream_preference_from_proto stream_preference_unspecified = ""
stream_preference_from_proto (stream_preference_other n) = ""

-- `invocationModeToProto`
unfoldable pub invocation_mode_to_proto : String → InvocationMode
invocation_mode_to_proto value =
    let v = folded value in
    if v == "unary"
    then invocation_mode_unary
    else if v == "server_stream"
    then invocation_mode_server_stream
    else if v == "client_stream"
    then invocation_mode_client_stream
    else if v == "bidi_stream"
    then invocation_mode_bidi_stream
    else invocation_mode_unspecified

-- `deliverySemanticsToProto`
unfoldable pub delivery_semantics_to_proto : String → DeliverySemantics
delivery_semantics_to_proto value =
    let v = folded value in
    if v == "best_effort"
    then delivery_semantics_best_effort
    else if v == "at_least_once"
    then delivery_semantics_at_least_once
    else if v == "exactly_once"
    then delivery_semantics_exactly_once
    else delivery_semantics_unspecified

-- `frameKindFromProto`
unfoldable pub frame_kind_from_proto : FrameKind → String
frame_kind_from_proto frame_kind_request = "request"
frame_kind_from_proto frame_kind_response = "response"
frame_kind_from_proto frame_kind_event = "event"
frame_kind_from_proto frame_kind_control = "control"
frame_kind_from_proto frame_kind_error = "error"
frame_kind_from_proto frame_kind_unspecified = ""
frame_kind_from_proto (frame_kind_other n) = ""

-- `frameKindToProto`
unfoldable pub frame_kind_to_proto : String → FrameKind
frame_kind_to_proto value =
    let v = folded value in
    if v == "request"
    then frame_kind_request
    else if v == "response"
    then frame_kind_response
    else if v == "event"
    then frame_kind_event
    else if v == "control"
    then frame_kind_control
    else if v == "error"
    then frame_kind_error
    else frame_kind_unspecified

-- `migErrorCodeFromProto`
unfoldable pub mig_error_code_from_proto : MigErrorCode → String
mig_error_code_from_proto mig_invalid_request = invalid_request
mig_error_code_from_proto mig_unauthorized = unauthorized
mig_error_code_from_proto mig_forbidden = forbidden
mig_error_code_from_proto mig_not_found = not_found
mig_error_code_from_proto mig_unsupported_capability = unsupported_capability
mig_error_code_from_proto mig_version_mismatch = version_mismatch
mig_error_code_from_proto mig_timeout = timeout
mig_error_code_from_proto mig_rate_limited = rate_limited
mig_error_code_from_proto mig_backpressure = backpressure
mig_error_code_from_proto mig_unavailable = unavailable
mig_error_code_from_proto mig_internal = internal
mig_error_code_from_proto mig_unspecified = internal
mig_error_code_from_proto (mig_other n) = internal

-- `migErrorCodeToProto`
unfoldable pub mig_error_code_to_proto : String → MigErrorCode
mig_error_code_to_proto code =
    if code == invalid_request
    then mig_invalid_request
    else if code == unauthorized
    then mig_unauthorized
    else if code == forbidden
    then mig_forbidden
    else if code == not_found
    then mig_not_found
    else if code == unsupported_capability
    then mig_unsupported_capability
    else if code == version_mismatch
    then mig_version_mismatch
    else if code == timeout
    then mig_timeout
    else if code == rate_limited
    then mig_rate_limited
    else if code == backpressure
    then mig_backpressure
    else if code == unavailable
    then mig_unavailable
    else if code == internal
    then mig_internal
    else mig_internal

-- The status codes of gRPC that the server uses.
pub data StatusCode : Type 0 where
  invalid_argument : StatusCode
  unauthenticated : StatusCode
  permission_denied : StatusCode
  code_not_found : StatusCode
  failed_precondition : StatusCode
  deadline_exceeded : StatusCode
  resource_exhausted : StatusCode
  code_unavailable : StatusCode
  code_internal : StatusCode

-- The `switch` of `grpcStatusFromMigError`.
unfoldable pub status_code : String → StatusCode
status_code code =
    if code == invalid_request
    then invalid_argument
    else if code == unauthorized
    then unauthenticated
    else if code == forbidden
    then permission_denied
    else if code == not_found || code == unsupported_capability
    then code_not_found
    else if code == version_mismatch
    then failed_precondition
    else if code == timeout
    then deadline_exceeded
    else if code == rate_limited || code == backpressure
    then resource_exhausted
    else if code == unavailable
    then code_unavailable
    else code_internal
