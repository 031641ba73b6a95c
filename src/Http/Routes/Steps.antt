-- ===== src/Http/Routes/Steps.antt =====
-- What a request does to the state is what the operations of the service do.
use model_interface_gateway.Metrics.{normalize_metric_path}
use model_interface_gateway.Base.{
  not, ◌&&◌, ℕ, String, ◌≡◌, refl, inl, inr, Option, none, some, ok, err, All, ◌==◌, Bool-cases,
  Option-cases, Result-cases,
}
use model_interface_gateway.Text.{has_prefix}
use model_interface_gateway.Types.{MessageHeader, MigError, StreamFrame, Env}
use model_interface_gateway.Auth.{
  Principal, anonymous_principal, Jwt, AuthConfig, apply_principal_header,
  principal_from_auth_headers,
}
use model_interface_gateway.Service.{Service, Outcome, set_metrics}
use model_interface_gateway.Service.Admin.{add_capability, add_schema, set_quota, validate_policy}
use model_interface_gateway.Service.Cloud.{create_org, create_tenant, create_gateway}
use model_interface_gateway.Service.History.{
  History, start, invoked, cancelled, published, capability_added, schema_added, quota_set,
  org_created, tenant_created, gateway_created, metered,
}
use model_interface_gateway.Service.History.Served.{
  one_step, followed_by, hello-History, discover-History, heartbeat-History,
}
use model_interface_gateway.Frames.{Turn}
use model_interface_gateway.Frames.Steps.{Behaves}
use model_interface_gateway.Http.{Incoming, Body, Content, Response, with_body}
use model_interface_gateway.Http.Protocol.{
  http_actor, reply, as_principal, handle_hello, handle_discover, handle_invoke, handle_publish,
  handle_cancel, handle_heartbeat,
}
use model_interface_gateway.Http.Admin.{
  created, for_tenant, plain_reply, handle_add_capability, handle_list_capabilities,
  handle_add_schema, handle_conformance_health, handle_connections, handle_ui,
  handle_policy_validate, handle_set_quota, handle_audit_export, handle_create_org,
  handle_create_tenant, handle_create_gateway, handle_usage,
}
use model_interface_gateway.Http.Streams.Steps.{handle_subscribe-History, handle_stream-History}
use model_interface_gateway.Http.Routes.{
  Call, hello_call, discover_call, invoke_call, publish_call, subscribe_call, cancel_call,
  heartbeat_call, stream_call, add_capability_call, list_capabilities_call, add_schema_call,
  conformance_call, connections_call, ui_call, policy_call, quota_call, audit_call, org_call,
  tenant_call, gateway_call, usage_call, unrouted, dispatch, auth_middleware, metrics_middleware,
  serve,
}

-- What other requests do while a stream is served is what operations do.
abbrev pub IsBehaved : Call → Type 0
IsBehaved (subscribe_call peer topic) = All Behaves peer.wakes
IsBehaved (stream_call refused turns) = All (λ (turn : Turn StreamFrame). Behaves turn.others) turns
IsBehaved _ = Unit

with_body-History :
    {A : Type 0} (body : Body A) (rest : A → Service → Service × Response) (s : Service)
    → ((req : A) → History s (rest req s).0)
    → History s (with_body body rest s).0
unfolding with_body
with_body-History none rest s h = start
with_body-History (some (err e)) rest s h = start
with_body-History (some (ok req)) rest s h = h req

module _ (env : Env) (p : Principal) (r : Incoming) where
  reply-state :
      {B : Type 0} (content : B → Content) (status : MigError → ℕ) (head : MessageHeader)
      (outcome : Outcome B)
      → (reply env p r content status head outcome).0 ≡ outcome.0
  unfolding reply
  reply-state content status head (s, ok b) = refl
  reply-state content status head (s, err e) = refl

  as_principal-History :
      {B : Type 0} (content : B → Content) (status : MigError → ℕ)
      (echo : MessageHeader → MessageHeader) (operation : MessageHeader → Service → Outcome B)
      (head : MessageHeader) (s : Service)
      → ((h : MessageHeader) → History s (operation h s).0)
      → History s (as_principal env p r content status echo operation head s).0
  unfolding as_principal
  as_principal-History content status echo operation head s ran =
      let head' = (apply_principal_header head p r.tenant_header).0 in
      elim (Option-cases (apply_principal_header head p r.tenant_header).1) [
        | inr (e, refused) ↦ rw (refused, as_principal) start
        | inl free ↦
            rw (free, as_principal, reply-state content status (echo head') (operation head' s))
              (ran head')
      ]

plain_reply-History :
    {B : Type 0} (content : B → Content) (made : ℕ) (status : MigError → ℕ) (s : Service)
    (outcome : Outcome B)
    → History s outcome.0
    → History s (plain_reply content made status outcome).0
unfolding plain_reply
plain_reply-History content made status s (s', ok b) h = h
plain_reply-History content made status s (s', err e) h = h

for_tenant-History :
    (env : Env) (p : Principal) (tenant : String) (rest : Service → Service × Response)
    (s : Service)
    → History s (rest s).0
    → History s (for_tenant env p tenant rest s).0
unfolding for_tenant
for_tenant-History env p tenant rest s h =
    elim (Bool-cases (not (p.tenant_id == "") && not (tenant == p.tenant_id))) [
      | inl foreign ↦ rw (foreign, for_tenant) start
      | inr own ↦ rw (own, for_tenant) h
    ]

created-History :
    (reply : Response) (s : Service) (outcome : Service × Option MigError)
    → History s outcome.0
    → History s (created reply outcome).0
unfolding created
created-History reply s (s', some e) h = h
created-History reply s (s', none) h = h

-- Whatever a handler does to the state is a sequence of operations of the service.
dispatch-History :
    (env : Env) (r : Incoming) (call : Call) (p : Principal) (s : Service)
    → IsBehaved call
    → History s (dispatch env r call p s).0
unfolding dispatch handle_hello handle_discover handle_invoke handle_publish handle_cancel
    handle_heartbeat handle_policy_validate handle_set_quota handle_add_capability
    handle_list_capabilities handle_add_schema handle_conformance_health handle_connections
    handle_ui handle_audit_export handle_create_org handle_create_tenant handle_create_gateway
    handle_usage
dispatch-History env r (hello_call body) p s h =
    with_body-History body _ s
      (λ req. as_principal-History env p r _ _ _ _ req.header s (λ head. hello-History env _ s))
dispatch-History env r (discover_call body) p s h =
    with_body-History body _ s (λ req.
      as_principal-History env p r _ _ _ _ req.header s (λ head. discover-History env _ p s))
dispatch-History env r (invoke_call expired capability body) p s h =
    with_body-History body _ s (λ req.
      as_principal-History env p r _ _ _ _ req.header s
        (λ head. one_step (invoked env expired capability _ (http_actor env p r) p)))
dispatch-History env r (publish_call topic body) p s h = with_body-History body _ s (λ req.
    as_principal-History env p r _ _ _ _ req.header s (λ head. one_step (published env topic _)))
dispatch-History env r (cancel_call message_id body) p s h = with_body-History body _ s (λ req.
    as_principal-History env p r _ _ _ _ req.header s
      (λ head. one_step (cancelled env _ message_id)))
dispatch-History env r (heartbeat_call body) p s h =
    with_body-History body _ s
      (λ req. as_principal-History env p r _ _ _ _ req.header s (λ head. heartbeat-History env _ s))
dispatch-History env r (subscribe_call peer topic) p s h =
    handle_subscribe-History env p r peer topic s h
dispatch-History env r (stream_call refused turns) p s h =
    handle_stream-History env p r refused turns s h
dispatch-History env r (add_capability_call body) p s h =
    with_body-History body _ s
      (λ req. created-History _ s (add_capability req s) (one_step (capability_added req)))
dispatch-History env r (add_schema_call body) p s h =
    with_body-History body _ s
      (λ req. created-History _ s (add_schema req s) (one_step (schema_added req)))
dispatch-History env r (policy_call body) p s h = with_body-History body _ s (λ req.
    for_tenant-History env p req.tenant_id _ s
      (plain_reply-History _ _ _ s (s, validate_policy req s) start))
dispatch-History env r (quota_call body) p s h = with_body-History body _ s (λ req.
    for_tenant-History env p req.tenant_id _ s
      (plain_reply-History _ _ _ s (set_quota req s) (one_step (quota_set req))))
dispatch-History env r (org_call body) p s h =
    with_body-History body _ s
      (λ req. plain_reply-History _ _ _ s (create_org env req s) (one_step (org_created env req)))
dispatch-History env r (tenant_call body) p s h = with_body-History body _ s (λ req.
    plain_reply-History _ _ _ s (create_tenant env req s) (one_step (tenant_created env req)))
dispatch-History env r (gateway_call body) p s h = with_body-History body _ s (λ req.
    plain_reply-History _ _ _ s (create_gateway env req s) (one_step (gateway_created env req)))
dispatch-History env r list_capabilities_call p s h = start
dispatch-History env r conformance_call p s h = start
dispatch-History env r connections_call p s h = start
dispatch-History env r ui_call p s h = start
dispatch-History env r audit_call p s h = start
dispatch-History env r usage_call p s h = start
dispatch-History env r (unrouted status method path) p s h = start

auth-History :
    (env : Env) (jwt : Jwt) (cfg : AuthConfig) (r : Incoming) (call : Call) (s : Service)
    → IsBehaved call
    → History s (auth_middleware env jwt cfg r (dispatch env r call) s).0
unfolding auth_middleware
auth-History env jwt cfg r call s h = elim (Bool-cases (has_prefix r.path "/ui")) [
  | inl exempt ↦ rw (exempt, auth_middleware) (dispatch-History env r call anonymous_principal s h)
  | inr closed ↦
      elim (Result-cases (principal_from_auth_headers jwt r.authorization r.tenant_header cfg)) [
        | inl (e, bad) ↦ rw (closed, bad, auth_middleware) start
        | inr (p, good) ↦ rw (closed, good, auth_middleware) (dispatch-History env r call p s h)
      ]
]

-- Whatever a request over HTTP does to the state, its authentication, its handler and the count of it
-- included, is a sequence of operations of the service, if what other requests do while it is served is.
pub serve-History :
    (env : Env) (jwt : Jwt) (cfg : AuthConfig) (r : Incoming) (call : Call) (s : Service)
    → IsBehaved call
    → History s (serve env jwt cfg r call s).0
unfolding serve metrics_middleware set_metrics
serve-History env jwt cfg r call s h =
    let handled = auth-History env jwt cfg r call s h in
    let outcome = auth_middleware env jwt cfg r (dispatch env r call) s in
    elim (Option-cases outcome.0.metrics) [
      | inl off ↦ rw (off, serve, metrics_middleware) handled
      | inr (m, on) ↦ elim (Bool-cases (r.is_utf8 (normalize_metric_path r.path))) [
        | inl labelled ↦
            rw (on, labelled, serve, metrics_middleware)
              (followed_by handled (one_step (metered _)))
        | inr refused ↦ rw (on, refused, serve, metrics_middleware) handled
      ]
    ]
