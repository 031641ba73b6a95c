-- ===== src/Nats.antt =====
-- core/pkg/mig/nats_binding.go: the handlers of the NATS subjects. The NATS library delivers a message
-- to the handler whose subscription matches its subject, and encoding/json decodes it: a message is its
-- subject, its reply subject, and what its data decodes to.
pub mod Laws
pub mod Subjects
pub mod Echo
pub mod Steps
use Prim.Native.String
use model_interface_gateway.Base.{
  ℕ, zero, suc, ◌+◌, String, Bool, true, false, List, [], ◌∷◌, Option, none, some, Result, ok, err,
  ◌>>=◌, ◌==◌, if◌then◌else◌, length, drop, ltb,
}
use mathlib.Core.Option
use model_interface_gateway.Text.{split_at, join}
use model_interface_gateway.Types.{
  MessageHeader, MigError, ErrorEnvelope, mig_version, invalid_request, HelloRequest,
  DiscoverRequest, InvokeRequest, PublishRequest, CancelRequest, HeartbeatRequest, Env,
  new_message_id,
}
use model_interface_gateway.Header.{or_default, caller_header}
use model_interface_gateway.Auth.{Principal}
use model_interface_gateway.Service.{Service, Outcome}
use model_interface_gateway.Service.Protocol.{hello, discover, cancel, heartbeat}
use model_interface_gateway.Service.Invoke.{invoke}
use model_interface_gateway.Service.Events.{publish}
use model_interface_gateway.Http.{
  Content, hello_content, discover_content, invoke_content, publish_content, cancel_content,
  heartbeat_content,
}

-- `subjectTokens`
unfoldable pub subject_tokens : String → List String
unfolding split_at
subject_tokens subject = if subject == "" then [] else split_at 46 subject

abbrev pub token_at : ℕ → List String → String
token_at n [] = ""
token_at zero (token ∷ tokens) = token
token_at (suc n) (token ∷ tokens) = token_at n tokens

-- `subjectToken`
unfoldable pub subject_token : String → ℕ → String
unfolding subject_tokens
subject_token subject index = token_at index (subject_tokens subject)

-- `strings.Join(subjectTokens(subject)[n:], ".")`; the slice panics on fewer tokens.
unfoldable pub tokens_from : String → ℕ → Option String
unfolding subject_tokens join
tokens_from subject n =
    let tokens = subject_tokens subject in
    if ltb (length tokens) n then none else some (join "." (drop n tokens))

-- A message, and what `decodeNATS` makes of its data: `none` if it is empty or does not decode.
pub record Msg (A : Type 0) : Type 0 where
  pub subject : String
  pub reply : String
  pub decoded : Option A

-- What is sent to the reply subject.
pub data Answer : Type 0 where
  content : Content → Answer
  error : (code message : String) → Answer
  envelope : ErrorEnvelope → Answer

-- `respondNATS` and `respondNATSError`: nothing without a reply subject.
abbrev pub respond : String → Answer → Option Answer
respond reply answer = if reply == "" then none else some answer

-- `respondNATSMigError`
unfoldable pub respond_mig_error :
    Env → (subject reply : String) → MessageHeader → MigError → Option Answer
respond_mig_error env subject reply head e = respond reply (
    envelope (record {
      header = record head {
        tenant_id = or_default head.tenant_id (subject_token subject 2);
        message_id = or_default head.message_id (new_message_id env.for_entry);
        mig_version = or_default head.mig_version mig_version;
        timestamp = or_default head.timestamp env.now;
      };
      error = e;
    }))

-- The caller that the handlers make up for a tenant: no token is asked for.
abbrev pub nats_principal : String → Principal
nats_principal tenant = record {
  subject = "";
  tenant_id = tenant;
  scopes = [];
  authenticated = false;
}

-- The header with the tenant of the subject, if it has none.
abbrev pub with_subject_tenant : String → MessageHeader → MessageHeader
with_subject_tenant subject head = record head {
  tenant_id = or_default head.tenant_id (subject_token subject 2);
}

-- What the six handlers have in common. `echo` is what the operation does to the caller's header.
unfoldable pub handle :
    {A B : Type 0}
    → Env
    → String
    → (B → Content)
    → (A → MessageHeader)
    → (MessageHeader → MessageHeader)
    → (A → MessageHeader → Service → Outcome B)
    → Msg A
    → Service
    → Service × Option Answer
handle env complaint encode header_of echo operation msg s = elim msg.decoded [
  | none ↦ (s, respond msg.reply (error invalid_request complaint))
  | some req ↦
      let head = with_subject_tenant msg.subject (header_of req) in
      let (s', result) = operation req head s in
      elim result [
        | ok b ↦ (s', respond msg.reply (content (encode b)))
        | err e ↦ (s', respond_mig_error env msg.subject msg.reply (echo head) e)
      ]
]

-- A handler that takes the name of what it is about from the subject.
abbrev pub named :
    {A : Type 0}
    → ℕ
    → (String → Msg A → Service → Service × Option Answer)
    → Msg A
    → Service
    → Option (Service × Option Answer)
named n rest msg s = Option.map (λ name. rest name msg s) (tokens_from msg.subject n)

module _ (env : Env) where
  unfoldable pub nats_hello : Msg HelloRequest → Service → Service × Option Answer
  nats_hello =
      handle env "invalid hello request" hello_content (λ req. req.header) (λ head. head)
        (λ req head. hello env (record req { header = head }))

  unfoldable pub nats_discover : Msg DiscoverRequest → Service → Service × Option Answer
  nats_discover =
      handle env "invalid discover request" discover_content (λ req. req.header) (caller_header env)
        (λ req head. discover env (record req { header = head }) (nats_principal head.tenant_id))

  -- `handleInvoke`, `handlePublish` and `handleCancel`, once the subject has given the name.
  unfoldable pub invoke_named :
      (expired : Bool) → String → Msg InvokeRequest → Service → Service × Option Answer
  invoke_named expired name =
      handle env "invalid invoke request" invoke_content (λ req. req.header) (caller_header env)
        (λ req head.
          let capability = or_default req.capability name in
          invoke env expired capability (record req { header = head; capability = capability })
            "nats-client" (nats_principal head.tenant_id))

  unfoldable pub publish_named : String → Msg PublishRequest → Service → Service × Option Answer
  publish_named name =
      handle env "invalid publish request" publish_content (λ req. req.header) (caller_header env)
        (λ req head.
          let topic = or_default req.topic name in
          publish env topic (record req { header = head; topic = topic }))

  unfoldable pub cancel_named : String → Msg CancelRequest → Service → Service × Option Answer
  cancel_named name =
      handle env "invalid cancel request" cancel_content (λ req. req.header) (caller_header env)
        (λ req head.
          let target = or_default req.target_message_id name in
          cancel env (record req { header = head; target_message_id = target }) target)

  -- `none` stands for a panic, here and below.
  unfoldable pub nats_invoke :
      (expired : Bool) → Msg InvokeRequest → Service → Option (Service × Option Answer)
  nats_invoke expired = named 4 (invoke_named expired)

  unfoldable pub nats_publish : Msg PublishRequest → Service → Option (Service × Option Answer)
  nats_publish = named 4 publish_named

  unfoldable pub nats_cancel : Msg CancelRequest → Service → Option (Service × Option Answer)
  nats_cancel = named 5 cancel_named

  unfoldable pub nats_heartbeat : Msg HeartbeatRequest → Service → Service × Option Answer
  nats_heartbeat =
      handle env "invalid heartbeat request" heartbeat_content (λ req. req.header)
        (caller_header env) (λ req head. heartbeat env (record req { header = head }))

-- A message for one of the six subscriptions.
pub data Delivery : Type 0 where
  hello_msg : Msg HelloRequest → Delivery
  discover_msg : Msg DiscoverRequest → Delivery
  invoke_msg : (expired : Bool) → Msg InvokeRequest → Delivery
  publish_msg : Msg PublishRequest → Delivery
  cancel_msg : Msg CancelRequest → Delivery
  heartbeat_msg : Msg HeartbeatRequest → Delivery

abbrev pub subject_of : Delivery → String
subject_of (hello_msg msg) = msg.subject
subject_of (discover_msg msg) = msg.subject
subject_of (invoke_msg expired msg) = msg.subject
subject_of (publish_msg msg) = msg.subject
subject_of (cancel_msg msg) = msg.subject
subject_of (heartbeat_msg msg) = msg.subject

-- The table of `StartNATSBinding`: the subject of the subscription, in its tokens, and the handler.
unfoldable pub subscription_of : Delivery → List String
subscription_of (hello_msg msg) = "mig" ∷ "v0_1" ∷ "*" ∷ "hello" ∷ []
subscription_of (discover_msg msg) = "mig" ∷ "v0_1" ∷ "*" ∷ "discover" ∷ []
subscription_of (invoke_msg expired msg) = "mig" ∷ "v0_1" ∷ "*" ∷ "invoke" ∷ ">" ∷ []
subscription_of (publish_msg msg) = "mig" ∷ "v0_1" ∷ "*" ∷ "events" ∷ ">" ∷ []
subscription_of (cancel_msg msg) = "mig" ∷ "v0_1" ∷ "*" ∷ "control" ∷ "cancel" ∷ ">" ∷ []
subscription_of (heartbeat_msg msg) = "mig" ∷ "v0_1" ∷ "*" ∷ "control" ∷ "heartbeat" ∷ []

unfoldable pub deliver : Env → Delivery → Service → Option (Service × Option Answer)
deliver env (hello_msg msg) s = some (nats_hello env msg s)
deliver env (discover_msg msg) s = some (nats_discover env msg s)
deliver env (invoke_msg expired msg) s = nats_invoke env expired msg s
deliver env (publish_msg msg) s = nats_publish env msg s
deliver env (cancel_msg msg) s = nats_cancel env msg s
deliver env (heartbeat_msg msg) s = some (nats_heartbeat env msg s)

-- `StartNATSBinding`. The library may refuse a subscription: its subject and the error.
unfoldable pub start_nats_binding : Option (String × String) → Service → Result String Service
start_nats_binding refused s = if s.nats_binding then ok s else elim s.nats_out [
  | none ↦ err "nats connection is not configured"
  | some sent ↦ elim refused [
    | some (subject, e) ↦ err (String.◌++◌ "subscribe " (String.◌++◌ subject (String.◌++◌ ": " e)))
    | none ↦ ok (record s { nats_binding = true })
  ]
]
