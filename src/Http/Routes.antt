-- ===== src/Http/Routes.antt =====
-- core/pkg/mig/http.go: the routes. core/pkg/mig/auth.go and metrics.go: the middleware around them, as
-- core/cmd/migd/main.go puts it together.
pub mod Laws
pub mod Access
pub mod Steps
use Prim.Native.String
use model_interface_gateway.Base.{
  ℕ, String, Bool, ◌≡◌, ◌⊎◌, Option, none, some, List, [], ◌∷◌, Result, ok, err, ◌==◌,
  if◌then◌else◌,
}
use model_interface_gateway.Text.{has_prefix}
use model_interface_gateway.Types.{
  HelloRequest, DiscoverRequest, InvokeRequest, PublishRequest, CancelRequest, HeartbeatRequest,
  StreamFrame, CapabilityUpsertRequest, SchemaUpsertRequest, PolicyValidateRequest, QuotaRequest,
  Org, Tenant, Gateway, Env,
}
use model_interface_gateway.Auth.{
  Principal, anonymous_principal, principal_from_context, principal_from_auth_headers, Jwt,
  AuthConfig, http_status_for_error, mig_code_for_auth_err, tenant_from_request, refusal,
}
use model_interface_gateway.Metrics.{count_request, normalize_metric_path}
use model_interface_gateway.Service.{Service, set_metrics}
use model_interface_gateway.Frames.{Turn, Listener}
use model_interface_gateway.Http.{
  Incoming, Body, Response, library_answer, write_mig_error, status_of,
}
use model_interface_gateway.Http.Protocol.{
  handle_hello, handle_discover, handle_invoke, handle_publish, handle_cancel, handle_heartbeat,
}
use model_interface_gateway.Http.Admin.{
  tenant_head, handle_add_capability, handle_list_capabilities, handle_add_schema,
  handle_conformance_health, handle_connections, handle_ui, handle_policy_validate,
  handle_set_quota, handle_audit_export, handle_create_org, handle_create_tenant,
  handle_create_gateway, handle_usage,
}
use model_interface_gateway.Http.Streams.{handle_subscribe, handle_stream}

-- A request as the router hands it on: the route, the values of its path, the body, and for a stream
-- what its peer does. `unrouted` is a request that no route of `RegisterHTTPRoutes` takes; its status is
-- the router's, or that of the Prometheus library at /metrics.
pub data Call : Type 0 where
  hello_call : Body HelloRequest → Call
  discover_call : Body DiscoverRequest → Call
  invoke_call : (expired : Bool) (capability : String) → Body InvokeRequest → Call
  publish_call : (topic : String) → Body PublishRequest → Call
  subscribe_call : (peer : Listener) (topic : String) → Call
  cancel_call : (message_id : String) → Body CancelRequest → Call
  heartbeat_call : Body HeartbeatRequest → Call
  stream_call : (refused : Option ℕ) → List (Turn StreamFrame) → Call
  add_capability_call : Body CapabilityUpsertRequest → Call
  list_capabilities_call : Call
  add_schema_call : Body SchemaUpsertRequest → Call
  conformance_call : Call
  connections_call : Call
  ui_call : Call
  policy_call : Body PolicyValidateRequest → Call
  quota_call : Body QuotaRequest → Call
  audit_call : Call
  org_call : Body Org → Call
  tenant_call : Body Tenant → Call
  gateway_call : Body Gateway → Call
  usage_call : Call
  unrouted : (status : ℕ) (method path : String) → Call

-- The method and the path that `RegisterHTTPRoutes` registers for a call.
unfoldable pub pattern_of : Call → String × String
pattern_of (hello_call body) = ("POST", "/mig/v0.1/hello")
pattern_of (discover_call body) = ("POST", "/mig/v0.1/discover")
pattern_of (invoke_call expired capability body) =
    ("POST", String.◌++◌ "/mig/v0.1/invoke/" capability)
pattern_of (publish_call topic body) = ("POST", String.◌++◌ "/mig/v0.1/publish/" topic)
pattern_of (subscribe_call peer topic) = ("GET", String.◌++◌ "/mig/v0.1/subscribe/" topic)
pattern_of (cancel_call message_id body) = ("POST", String.◌++◌ "/mig/v0.1/cancel/" message_id)
pattern_of (heartbeat_call body) = ("POST", "/mig/v0.1/heartbeat")
pattern_of (stream_call refused turns) = ("GET", "/mig/v0.1/stream")
pattern_of (add_capability_call body) = ("POST", "/admin/v0.1/capabilities")
pattern_of list_capabilities_call = ("GET", "/admin/v0.1/capabilities")
pattern_of (add_schema_call body) = ("POST", "/admin/v0.1/schemas")
pattern_of conformance_call = ("GET", "/admin/v0.1/health/conformance")
pattern_of connections_call = ("GET", "/admin/v0.1/connections")
pattern_of ui_call = ("GET", "/ui")
pattern_of (policy_call body) = ("POST", "/pro/v0.1/policies/validate")
pattern_of (quota_call body) = ("POST", "/pro/v0.1/quotas")
pattern_of audit_call = ("GET", "/pro/v0.1/audit/export")
pattern_of (org_call body) = ("POST", "/cloud/v0.1/orgs")
pattern_of (tenant_call body) = ("POST", "/cloud/v0.1/tenants")
pattern_of (gateway_call body) = ("POST", "/cloud/v0.1/gateways")
pattern_of usage_call = ("GET", "/cloud/v0.1/usage")
pattern_of (unrouted status method path) = (method, path)

-- The call stands on the route that the request names; net/http gives a HEAD request to a GET route.
abbrev pub IsRouted : Incoming → Call → Type 0
IsRouted r call =
    ((r.method ≡ (pattern_of call).0) ⊎ ((r.method ≡ "HEAD") × ((pattern_of call).0 ≡ "GET")))
    × (r.path ≡ (pattern_of call).1)

-- `RegisterHTTPRoutes`: the handler of each route.
unfoldable pub dispatch : Env → Incoming → Call → Principal → Service → Service × Response
dispatch env r (hello_call body) p = handle_hello env p r body
dispatch env r (discover_call body) p = handle_discover env p r body
dispatch env r (invoke_call expired capability body) p =
    handle_invoke env p r expired capability body
dispatch env r (publish_call topic body) p = handle_publish env p r topic body
dispatch env r (subscribe_call peer topic) p = handle_subscribe env p r peer topic
dispatch env r (cancel_call message_id body) p = handle_cancel env p r message_id body
dispatch env r (heartbeat_call body) p = handle_heartbeat env p r body
dispatch env r (stream_call refused turns) p = handle_stream env p r refused turns
dispatch env r (add_capability_call body) p = handle_add_capability body
dispatch env r list_capabilities_call p = handle_list_capabilities
dispatch env r (add_schema_call body) p = handle_add_schema body
dispatch env r conformance_call p = handle_conformance_health
dispatch env r connections_call p = handle_connections env r
dispatch env r ui_call p = handle_ui
dispatch env r (policy_call body) p = handle_policy_validate env p body
dispatch env r (quota_call body) p = handle_set_quota env p body
dispatch env r audit_call p = handle_audit_export r
dispatch env r (org_call body) p = handle_create_org env body
dispatch env r (tenant_call body) p = handle_create_tenant env body
dispatch env r (gateway_call body) p = handle_create_gateway env body
dispatch env r usage_call p = handle_usage
dispatch env r (unrouted status method path) p = λ s. (s, library_answer status)

-- `principalFromRequest`
abbrev pub principal_from_request : Jwt → Incoming → AuthConfig → Result String Principal
principal_from_request jwt r cfg =
    principal_from_auth_headers jwt r.authorization r.tenant_header cfg

-- `authMiddleware`
unfoldable pub auth_middleware :
    Env
    → Jwt
    → AuthConfig
    → Incoming
    → (Principal → Service → Service × Response)
    → Service
    → Service × Response
auth_middleware env jwt cfg r next s =
    if has_prefix r.path "/ui"
    then next (principal_from_context (some anonymous_principal)) s
    else elim (principal_from_request jwt r cfg) [
      | err e ↦ (
        s,
        write_mig_error env (tenant_head (tenant_from_request r.tenant_header))
            (http_status_for_error e) (refusal (mig_code_for_auth_err e) e),
      )
      | ok p ↦ next (principal_from_context (some p)) s
    ]

-- `Metrics.Middleware`; without metrics it is not put around the handler. A label that is not UTF-8 makes
-- `WithLabelValues` panic, after the handler has run: there is no answer then. The method and the
-- status are ASCII.
unfoldable pub metrics_middleware :
    Incoming → (Service → Service × Response) → Service → Service × Option Response
unfolding normalize_metric_path
metrics_middleware r next s =
    let (s', answer) = next s in
    elim s'.metrics [
      | none ↦ (s', some answer)
      | some m ↦
          if r.is_utf8 (normalize_metric_path r.path)
          then (
            set_metrics (some (count_request r.method r.path (status_of answer) m)) s',
            some answer,
          )
          else (s', none)
    ]

-- `MiddlewareChain`: the first of the list is outermost.
unfoldable pub middleware_chain {ℓ} :
    {Handler : Type ℓ} → Handler → List (Handler → Handler) → Handler
middleware_chain next [] = next
middleware_chain next (middleware ∷ middlewares) = middleware (middleware_chain next middlewares)

-- The handler that `main` makes, with no answer if it panics. The log of the requests is not kept.
unfoldable pub serve :
    Env → Jwt → AuthConfig → Incoming → Call → Service → Service × Option Response
serve env jwt cfg r call =
    metrics_middleware r (auth_middleware env jwt cfg r (dispatch env r call))
