-- ===== src/Gateway/Laws.antt =====
-- The gateway as a whole.
use model_interface_gateway.Base.{
  not, ◌&&◌, String, ◌≡◌, refl, ap, inl, inr, true, List, [], ◌∷◌, Option, some, ok, arith, All,
  Result-cases, Bool-cases, ◌==◌,
}
use model_interface_gateway.Auth.{Jwt, AuthConfig}
use model_interface_gateway.Config.{Config, Getenv, config_from_env}
use model_interface_gateway.Service.{Service, ServiceOptions, new_service_with_options, set_metrics}
use model_interface_gateway.Service.History.{IsSound}
use model_interface_gateway.Service.History.Kept.{Keeps, Keeps-IsSound, set_metrics-Keeps}
use model_interface_gateway.Service.History.Laws.{History-keeps, new_service_with_options-IsSound}
use model_interface_gateway.Http.Routes.Steps.{IsBehaved, serve-History}
use model_interface_gateway.Grpc.Convert.{Wire}
use model_interface_gateway.Grpc.Handlers.{principal_from_grpc_context}
use model_interface_gateway.Grpc.Streams.{with_grpc_auth}
use model_interface_gateway.Grpc.Methods.Steps.{AreBehaved, run_method-History}
use mathlib.Core.Option
use model_interface_gateway.Nats.{
  Answer, subscription_of, subject_of, subject_tokens, start_nats_binding,
}
use model_interface_gateway.Nats.Subjects.{is_matched, deliver-IsSome}
use model_interface_gateway.Nats.Steps.{deliver-History}
use model_interface_gateway.Gateway.{
  Outside, with_nats, with_metrics, launch, Request, over_http, over_grpc, over_nats,
  handle_request, handle_all,
}

start_nats_binding-Keeps :
    (refused : Option (String × String)) (s s' : Service)
    → start_nats_binding refused s ≡ ok s'
    → Keeps s s'
unfolding start_nats_binding
start_nats_binding-Keeps refused s s' h = ground arith

with_metrics-IsSound : (cfg : Config) (s : Service) → IsSound s → IsSound (with_metrics cfg s)
with_metrics-IsSound cfg s h = elim (Bool-cases cfg.enable_metrics) [
  | inl on ↦ rw on (Keeps-IsSound s (set_metrics (some []) s) (set_metrics-Keeps (some []) s) h)
  | inr off ↦ rw off h
]

with_nats-IsSound :
    (cfg : Config) (refused : Option (String × String)) (s s' : Service)
    → with_nats cfg refused s ≡ ok s'
    → IsSound s
    → IsSound s'
unfolding with_nats
with_nats-IsSound cfg refused s s' h sound =
    elim (Bool-cases (not (cfg.nats_url == "") && cfg.enable_nats_binding)) [
      | inl on ↦
          Keeps-IsSound s s' (start_nats_binding-Keeps refused s s' (rw (on, with_nats) at h)) sound
      | inr off ↦ let same : s ≡ s' = ground arith in rw (← same) sound
    ]

-- A server that starts has a sound service.
launch-IsSound :
    (outside : Outside) (getenv : Getenv) (cfg : Config) (s : Service)
    → launch outside getenv ≡ ok (cfg, s)
    → IsSound s
unfolding launch
launch-IsSound outside getenv cfg s h = elim (Result-cases (config_from_env getenv)) [
  | inl (e, bad) ↦ absurd (ground arith)
  | inr (known, read) ↦
      let opts : ServiceOptions = record {
        nats_url = known.nats_url;
        audit_log_path = known.audit_log_path;
      } in
      elim (Result-cases (new_service_with_options outside.connected outside.opened opts)) [
        | inl (e, bad) ↦ absurd (ground arith)
        | inr (made, began) ↦
            let fresh =
              new_service_with_options-IsSound outside.connected outside.opened opts made began in
            elim (Result-cases (with_nats known outside.refused (with_metrics known made))) [
              | inl (e, bad) ↦ absurd (ground arith)
              | inr (ready, bound) ↦
                  let same : ready ≡ s = ground arith in
                  rw (← same) (
                    with_nats-IsSound known outside.refused (with_metrics known made) ready bound
                      (with_metrics-IsSound known made fresh))
            ]
      ]
]

module _ {Struct Stamp : Type 0} (wire : Wire Struct Stamp) (jwt : Jwt) (auth : AuthConfig) where
  -- What is taken of a request: other requests behave while it streams, and a message over NATS has come
  -- by the subscription of its handler.
  abbrev pub IsReceived : Request Struct Stamp → Type 0
  IsReceived (over_http env r call) = IsBehaved call
  IsReceived (over_grpc env authorization tenant call) = AreBehaved call
  IsReceived (over_nats env d) =
      is_matched (subscription_of d) (subject_tokens (subject_of d)) ≡ true

  handle_request-IsSound :
      (request : Request Struct Stamp) (s : Service)
      → IsReceived request
      → IsSound s
      → (s' : Service) × (handle_request wire jwt auth request s ≡ some s') × IsSound s'
  unfolding handle_request with_grpc_auth
  handle_request-IsSound (over_http env r call) s h sound =
      (_, refl, History-keeps (serve-History env jwt auth r call s h) sound)
  handle_request-IsSound (over_grpc env authorization tenant call) s h sound =
      elim (Result-cases (principal_from_grpc_context jwt authorization tenant auth)) [
        | inl (e, refused) ↦ rw (refused, with_grpc_auth) (s, refl, sound)
        | inr (p, accepted) ↦
            rw (accepted, with_grpc_auth)
              (_, refl, History-keeps (run_method-History wire env p call s h) sound)
      ]
  handle_request-IsSound (over_nats env d) s h sound =
      let (outcome, ran) = deliver-IsSome env d s h in
      (
        outcome.0,
        ap (λ (x : Option (Service × Option Answer)). Option.map (λ o. o.0) x) ran,
        History-keeps (deliver-History env d s outcome ran) sound,
      )

  handle_all-IsSound :
      (requests : List (Request Struct Stamp)) (s : Service)
      → All IsReceived requests
      → IsSound s
      → (s' : Service) × (handle_all wire jwt auth requests s ≡ some s') × IsSound s'
  unfolding handle_all
  handle_all-IsSound [] s h sound = (s, refl, sound)
  handle_all-IsSound (request ∷ requests) s (here, h) sound =
      let (t, ran, kept) = handle_request-IsSound request s here sound in
      let (s', rest, sound') = handle_all-IsSound requests t h kept in
      (s', rw (ran, handle_all) rest, sound')

-- The service of a server that has started is sound after any sequence of requests over HTTP, gRPC and
-- NATS, those over HTTP included whose handler panics, and no handler of a message over NATS panics:
-- the counters count the audit log, an audit file that is open has records of the audit log alone, in
-- their order, the logs of events are numbered without a gap, and what the cloud records name is there.
-- The messages over NATS come by the subscriptions of their handlers, and what other requests do while
-- a stream is open is what operations of the service do.
pub launched-IsSound :
    {Struct Stamp : Type 0} (wire : Wire Struct Stamp) (jwt : Jwt) (outside : Outside)
    (getenv : Getenv) (cfg : Config) (s : Service) (requests : List (Request Struct Stamp))
    → launch outside getenv ≡ ok (cfg, s)
    → All (IsReceived wire jwt cfg.auth) requests
    → (s' : Service) × (handle_all wire jwt cfg.auth requests s ≡ some s') × IsSound s'
launched-IsSound wire jwt outside getenv cfg s requests started h =
    handle_all-IsSound wire jwt cfg.auth requests s h (launch-IsSound outside getenv cfg s started)
