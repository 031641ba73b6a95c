-- ===== src/Gateway.antt =====
-- core/cmd/migd/main.go: the start of the server, and the requests that reach its service over the three
-- bindings. A request is handled to its end before the next begins; what other requests do while a
-- stream is open is part of the request, and overlapping invocations are in `Service/Invoke/Race`.
pub mod Laws
use Prim.Native.String
use mathlib.Core.Option
use model_interface_gateway.Base.{
  String, Bool, true, false, not, ◌&&◌, List, [], ◌∷◌, Option, none, some, Result, ok, err, ◌==◌,
  if◌then◌else◌, ◌>>=◌,
}
use model_interface_gateway.Types.{Env}
use model_interface_gateway.Auth.{Jwt, AuthConfig}
use model_interface_gateway.Config.{Config, Getenv, config_from_env}
use model_interface_gateway.Service.{Service, new_service_with_options, set_metrics}
use model_interface_gateway.Http.{Incoming}
use model_interface_gateway.Http.Routes.{Call, serve}
use model_interface_gateway.Grpc.Convert.{Wire}
use model_interface_gateway.Grpc.Streams.{with_grpc_auth}
use model_interface_gateway.Grpc.Methods.{MethodCall, run_method}
use model_interface_gateway.Nats.{Delivery, deliver, start_nats_binding}

-- What the libraries answer while the server starts: the errors of `nats.Connect` and `os.OpenFile`, and
-- the subscription that NATS refuses.
pub record Outside : Type 0 where
  pub connected : Option String
  pub opened : Option String
  pub refused : Option (String × String)

-- A failure that `main` logs before it exits.
abbrev fatal {ℓ} : {A : Type ℓ} → String → Result String A → Result String A
fatal what (ok a) = ok a
fatal what (err e) = err (String.◌++◌ what (String.◌++◌ ": " e))

-- `if cfg.EnableMetrics`
abbrev pub with_metrics : Config → Service → Service
with_metrics cfg s = if cfg.enable_metrics then set_metrics (some []) s else s

-- `if cfg.NATSURL != "" && cfg.EnableNATSBinding`
unfoldable pub with_nats : Config → Option (String × String) → Service → Result String Service
with_nats cfg refused s =
    if not (cfg.nats_url == "") && cfg.enable_nats_binding
    then start_nats_binding refused s
    else ok s

-- `main`, up to the listeners: the configuration and the service, or what it exits with.
unfoldable pub launch : Outside → Getenv → Result String (Config × Service)
launch outside getenv = do
  cfg ← fatal "invalid config" (config_from_env getenv)
  s ← fatal "failed to initialize service" (
      new_service_with_options outside.connected outside.opened
        (record { nats_url = cfg.nats_url; audit_log_path = cfg.audit_log_path }))
  ready ← fatal "failed to start NATS binding" (with_nats cfg outside.refused (with_metrics cfg s))
  ok (cfg, ready)

-- A request over one of the bindings.
pub data Request (Struct Stamp : Type 0) : Type 0 where
  over_http : Env → Incoming → Call → Request Struct Stamp
  over_grpc :
      Env → (authorization tenant : List String) → MethodCall Struct Stamp → Request Struct Stamp
  over_nats : Env → Delivery → Request Struct Stamp

module _ {Struct Stamp : Type 0} (wire : Wire Struct Stamp) (jwt : Jwt) (auth : AuthConfig) where
  -- The state after a request; `none` if the program panics. net/http recovers a panic of a handler, so
  -- that only the request ends; the NATS library does not. A panic under gRPC is not modelled.
  unfoldable pub handle_request : Request Struct Stamp → Service → Option Service
  handle_request (over_http env r call) s = some (serve env jwt auth r call s).0
  handle_request (over_grpc env authorization tenant call) s =
      some
        (with_grpc_auth jwt auth authorization tenant (λ p t. (run_method wire env call p t, ok tt))
          s).0
  handle_request (over_nats env d) s = Option.map (λ outcome. outcome.0) (deliver env d s)

  unfoldable pub handle_all : List (Request Struct Stamp) → Service → Option Service
  handle_all [] s = some s
  handle_all (request ∷ requests) s = elim (handle_request request s) [
    | none ↦ none
    | some s' ↦ handle_all requests s'
  ]
