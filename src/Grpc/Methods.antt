-- ===== src/Grpc/Methods.antt =====
-- grpc_server.go: the methods of the service behind the interceptors, by what they do to the state.
pub mod Steps
use model_interface_gateway.Base.{String, Bool, List, Option, Result}
use model_interface_gateway.Types.{Env}
use model_interface_gateway.Auth.{Principal, Jwt, AuthConfig}
use model_interface_gateway.Service.{Service}
use model_interface_gateway.Frames.{Turn, Listener}
use model_interface_gateway.Grpc.Convert.{Wire, ProtoHeader, ProtoFrame}
use model_interface_gateway.Grpc.Handlers.{
  principal_from_grpc_context, grpc_hello, grpc_discover, grpc_invoke, grpc_publish, grpc_cancel,
  grpc_heartbeat,
}
use model_interface_gateway.Grpc.Handlers.Laws.{
  UnaryCall, hello_call, discover_call, invoke_call, publish_call, cancel_call, heartbeat_call,
}
use model_interface_gateway.Grpc.Streams.{grpc_stream_invoke, grpc_subscribe}

-- A call of one of the eight methods.
pub data MethodCall (Struct Stamp : Type 0) : Type 0 where
  unary_call : UnaryCall Struct Stamp → MethodCall Struct Stamp
  stream_invoke_call :
      (remote_addr : String)
      → List (Turn (Option (ProtoFrame Struct Stamp)))
      → MethodCall Struct Stamp
  subscribe_call :
      (remote_addr : String)
      → Option (ProtoHeader Struct Stamp)
      → (topic cursor : String) → Listener
      → MethodCall Struct Stamp

module _ {Struct Stamp : Type 0} (wire : Wire Struct Stamp) (env : Env) where
  -- The state after the method.
  unfoldable pub run_method : MethodCall Struct Stamp → Principal → Service → Service
  run_method (unary_call (hello_call req)) p s = (grpc_hello wire env p req s).0
  run_method (unary_call (discover_call req)) p s = (grpc_discover wire env p req s).0
  run_method (unary_call (invoke_call expired req)) p s = (grpc_invoke wire env p expired req s).0
  run_method (unary_call (publish_call req)) p s = (grpc_publish wire env p req s).0
  run_method (unary_call (cancel_call req)) p s = (grpc_cancel wire env p req s).0
  run_method (unary_call (heartbeat_call req)) p s = (grpc_heartbeat wire env p req s).0
  run_method (stream_invoke_call remote_addr turns) p s =
      (grpc_stream_invoke wire env p remote_addr turns s).0
  run_method (subscribe_call remote_addr header topic cursor peer) p s =
      (grpc_subscribe wire env p remote_addr header topic cursor peer s).0
