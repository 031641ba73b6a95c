-- ===== src/Http/Protocol.antt =====
-- core/pkg/mig/http.go: the handlers of the protocol operations.
pub mod Laws
use model_interface_gateway.Base.{
  ℕ, String, Bool, Option, none, some, Result, ok, err, ◌==◌, if◌then◌else◌,
}
use model_interface_gateway.Types.{
  MessageHeader, MigError, HelloRequest, DiscoverRequest, InvokeRequest, PublishRequest,
  CancelRequest, HeartbeatRequest, unsupported_capability, timeout, rate_limited, forbidden, Env,
}
use model_interface_gateway.Header.{or_default, caller_header}
use model_interface_gateway.Auth.{Principal, apply_principal_header}
use model_interface_gateway.Service.{Service, Outcome}
use model_interface_gateway.Service.Protocol.{hello, discover, cancel, heartbeat}
use model_interface_gateway.Service.Invoke.{invoke}
use model_interface_gateway.Service.Events.{publish}
use model_interface_gateway.Http.{
  Incoming, Body, Content, Response, json, write_mig_error, with_body, hello_content,
  discover_content, invoke_content, publish_content, cancel_content, heartbeat_content,
}

abbrev pub bad_request : MigError → ℕ
bad_request e = 400

-- The status that `handleInvoke` gives an error.
unfoldable pub invoke_status : MigError → ℕ
invoke_status e =
    if e.code == unsupported_capability
    then 404
    else if e.code == timeout
    then 504
    else if e.code == rate_limited
    then 429
    else if e.code == forbidden
    then 403
    else 400

module _ (env : Env) (p : Principal) (r : Incoming) where
  -- The end of a handler: the reply, or the error under the caller's header.
  unfoldable pub reply :
      {B : Type 0} → (B → Content) → (MigError → ℕ) → MessageHeader → Outcome B → Service × Response
  reply content status head (s, result) = elim result [
    | ok b ↦ (s, json 200 (content b))
    | err e ↦ (s, write_mig_error env head (status e) e)
  ]

  -- What the six handlers have in common once the body is decoded: the principal's tenant first, then the
  -- operation. `echo` is what the operation does to the caller's header.
  unfoldable pub as_principal :
      {B : Type 0}
      → (B → Content)
      → (MigError → ℕ)
      → (MessageHeader → MessageHeader)
      → (MessageHeader → Service → Outcome B)
      → MessageHeader
      → Service
      → Service × Response
  as_principal content status echo operation head s =
      let (head', refused) = apply_principal_header head p r.tenant_header in
      elim refused [
        | some e ↦ (s, write_mig_error env head' 403 e)
        | none ↦ reply content status (echo head') (operation head' s)
      ]

  unfoldable pub handle_hello : Body HelloRequest → Service → Service × Response
  handle_hello body = with_body body (λ req.
      as_principal hello_content bad_request (λ h. h)
        (λ head. hello env (record req { header = head })) req.header)

  unfoldable pub handle_discover : Body DiscoverRequest → Service → Service × Response
  handle_discover body = with_body body (λ req.
      as_principal discover_content bad_request (caller_header env)
        (λ head. discover env (record req { header = head }) p) req.header)

  -- Who an invocation is accounted to.
  abbrev pub http_actor : String
  http_actor = or_default p.subject (or_default r.actor_header "anonymous")

  unfoldable pub handle_invoke :
      (expired : Bool) (capability : String) → Body InvokeRequest → Service → Service × Response
  handle_invoke expired capability body = with_body body (λ req.
      as_principal invoke_content invoke_status (caller_header env)
        (λ head. invoke env expired capability (record req { header = head }) http_actor p)
        req.header)

  unfoldable pub handle_publish :
      (topic : String) → Body PublishRequest → Service → Service × Response
  handle_publish topic body = with_body body (λ req.
      as_principal publish_content bad_request (caller_header env)
        (λ head. publish env topic (record req { header = head })) req.header)

  unfoldable pub handle_cancel :
      (message_id : String) → Body CancelRequest → Service → Service × Response
  handle_cancel message_id body = with_body body (λ req.
      as_principal cancel_content bad_request (caller_header env)
        (λ head. cancel env (record req { header = head }) message_id) req.header)

  unfoldable pub handle_heartbeat : Body HeartbeatRequest → Service → Service × Response
  handle_heartbeat body = with_body body (λ req.
      as_principal heartbeat_content bad_request (caller_header env)
        (λ head. heartbeat env (record req { header = head })) req.header)
