-- ===== src/Http/Routes/Access.antt =====
-- auth.go: what stands between a request and the handlers in the mode "jwt".
use Prim.Native.String
use Prim.Native.Char.{Char, code}
use Prim.Native.String.{◌∷◌}
use text.Mathlib.TextLemmas.{cons-append}
use model_interface_gateway.Base.{
  ℕ, String, ◌≡◌, ◌⊎◌, inl, inr, refl, true, false, err, arith, eqb, Bool-cases, Result-cases, ◌∷◌,
}
use model_interface_gateway.Text.{has_prefix, of_code}
use model_interface_gateway.Types.{Env}
use model_interface_gateway.Auth.{
  Principal, anonymous_principal, Jwt, AuthConfig, mode_jwt, tenant_from_request, refusal,
  http_status_for_error, mig_code_for_auth_err, principal_from_auth_headers,
}
use model_interface_gateway.Auth.Laws.{IsVouched, principal-IsVouched}
use model_interface_gateway.Service.{Service}
use model_interface_gateway.Http.{Incoming, Response, write_mig_error}
use model_interface_gateway.Http.Admin.{tenant_head, handle_ui}
use model_interface_gateway.Http.Routes.{
  Call, hello_call, discover_call, invoke_call, publish_call, subscribe_call, cancel_call,
  heartbeat_call, stream_call, add_capability_call, list_capabilities_call, add_schema_call,
  conformance_call, connections_call, ui_call, policy_call, quota_call, audit_call, org_call,
  tenant_call, gateway_call, usage_call, unrouted, pattern_of, IsRouted, dispatch, auth_middleware,
}

-- The calls that the middleware lets through to the handlers without looking at their token have no
-- handler that reads or writes the state.
abbrev IsOpen : Call → Type 0
IsOpen call =
    (call ≡ ui_call)
    ⊎ ((status : ℕ) × (method : String) × (path : String) × (call ≡ unrouted status method path))

other_prefix :
    (c d : Char) (s t : String)
    → eqb (code d) (code (of_code b'u')) ≡ false
    → has_prefix (String.◌++◌ (c ∷ d ∷ s) t) "/ui" ≡ false
unfolding has_prefix of_code
other_prefix c d s t h = rw (cons-append, cons-append) (ground arith)

pattern_of-IsOpen : (call : Call) → has_prefix (pattern_of call).1 "/ui" ≡ true → IsOpen call
unfolding pattern_of has_prefix of_code
pattern_of-IsOpen ui_call h = inl refl
pattern_of-IsOpen (unrouted status method path) h = inr (status, method, path, refl)
pattern_of-IsOpen (hello_call body) h = absurd (ground arith)
pattern_of-IsOpen (discover_call body) h = absurd (ground arith)
pattern_of-IsOpen (invoke_call expired capability body) h =
    absurd
      (ground (arith, other_prefix (of_code b'/') (of_code b'm') "ig/v0.1/invoke/" capability refl))
pattern_of-IsOpen (publish_call topic body) h =
    absurd
      (ground (arith, other_prefix (of_code b'/') (of_code b'm') "ig/v0.1/publish/" topic refl))
pattern_of-IsOpen (cancel_call message_id body) h =
    absurd
      (ground (arith, other_prefix (of_code b'/') (of_code b'm') "ig/v0.1/cancel/" message_id refl))
pattern_of-IsOpen (heartbeat_call body) h = absurd (ground arith)
pattern_of-IsOpen (policy_call body) h = absurd (ground arith)
pattern_of-IsOpen (quota_call body) h = absurd (ground arith)
pattern_of-IsOpen (subscribe_call peer topic) h =
    absurd
      (ground (arith, other_prefix (of_code b'/') (of_code b'm') "ig/v0.1/subscribe/" topic refl))
pattern_of-IsOpen (stream_call refused turns) h = absurd (ground arith)
pattern_of-IsOpen (add_capability_call body) h = absurd (ground arith)
pattern_of-IsOpen list_capabilities_call h = absurd (ground arith)
pattern_of-IsOpen (add_schema_call body) h = absurd (ground arith)
pattern_of-IsOpen conformance_call h = absurd (ground arith)
pattern_of-IsOpen connections_call h = absurd (ground arith)
pattern_of-IsOpen audit_call h = absurd (ground arith)
pattern_of-IsOpen (org_call body) h = absurd (ground arith)
pattern_of-IsOpen (tenant_call body) h = absurd (ground arith)
pattern_of-IsOpen (gateway_call body) h = absurd (ground arith)
pattern_of-IsOpen usage_call h = absurd (ground arith)

dispatch-open :
    (env : Env) (r : Incoming) (call : Call) (p : Principal) (s : Service)
    → IsOpen call
    → (dispatch env r call p s).0 ≡ s
unfolding dispatch handle_ui
dispatch-open env r call p s (inl page) = rw page refl
dispatch-open env r call p s (inr (status, method, path, none_takes)) = rw none_takes refl

-- What a request with a refused token is answered.
abbrev pub refused_answer : Env → Incoming → String → Response
refused_answer env r e =
    write_mig_error env (tenant_head (tenant_from_request r.tenant_header))
      (http_status_for_error e) (refusal (mig_code_for_auth_err e) e)

-- In the mode "jwt" a request on a route either leaves the state alone, and is answered by the
-- middleware or the console page or the router; or it is given to its handler with a principal that
-- its token vouches for.
pub data IsGuarded (env : Env) (jwt : Jwt) (cfg : AuthConfig) (r : Incoming) (call : Call)
    (s : Service) : Service × Response → Type 0 where
  turned_away :
      (e : String)
      → principal_from_auth_headers jwt r.authorization r.tenant_header cfg ≡ err e
      → IsGuarded env jwt cfg r call s (s, refused_answer env r e)
  in_the_open :
      (outcome : Service × Response)
      → IsOpen call
      → outcome.0 ≡ s
      → IsGuarded env jwt cfg r call s outcome
  vouched :
      (p : Principal)
      → IsVouched jwt cfg r.authorization r.tenant_header p
      → IsGuarded env jwt cfg r call s (dispatch env r call p s)

-- In the mode "jwt", a request that the router matches with a call is one of these: it is turned away
-- with the error of its token and leaves the state alone; or it is for the console page or for no
-- route, and leaves the state alone; or its handler runs with a principal that its token vouches for.
pub auth_middleware-IsGuarded :
    (env : Env) (jwt : Jwt) (cfg : AuthConfig) (r : Incoming) (call : Call) (s : Service)
    → cfg.mode ≡ mode_jwt
    → IsRouted r call
    → IsGuarded env jwt cfg r call s (auth_middleware env jwt cfg r (dispatch env r call) s)
unfolding auth_middleware
auth_middleware-IsGuarded env jwt cfg r call s mode routed =
    elim (Bool-cases (has_prefix r.path "/ui")) [
      | inl exempt ↦
          let free = pattern_of-IsOpen call (rw (routed.1) at exempt) in
          in_the_open _ free
            (rw (exempt, auth_middleware) (dispatch-open env r call anonymous_principal s free))
      | inr closed ↦
          elim (Result-cases
            (principal_from_auth_headers jwt r.authorization r.tenant_header cfg)) [
              | inl (e, bad) ↦ rw (closed, bad, auth_middleware) (turned_away e bad)
              | inr (p, good) ↦
                  rw (closed, good, auth_middleware)
                    (vouched p (principal-IsVouched jwt cfg _ _ p mode good))
            ]
    ]
