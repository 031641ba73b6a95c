-- ===== src/Service.antt =====
-- core/pkg/mig/service.go: the state of the gateway, the `Service` that all bindings share, and what
-- its operations have in common. The operations are in the children: `Protocol` (hello, discover,
-- cancel, heartbeat), `Invoke`, `Events` (publish, subscribe), `Admin`, `Cloud` and `Connections`.
-- Every operation takes the lock for the whole of its access to the state, but `Invoke` takes it twice:
-- `Invoke` has its two parts apart.
pub mod Protocol
pub mod Invoke
pub mod Events
pub mod Admin
pub mod Cloud
pub mod Connections
pub mod History
use Prim.Native.String
use mathlib.Core.Option
use model_interface_gateway.Base.{
  ℕ, ◌*◌, String, Bool, true, false, ◌==◌, if◌then◌else◌, ◌>>=◌, List, [], ◌∷◌, ◌++◌, Option, none,
  some, Result, ok, err,
}
use model_interface_gateway.Base.Int.{ℤ, pos}
use model_interface_gateway.Base.GoMap.{GoMap, insert}
use model_interface_gateway.Types.{
  Payload, Value, MessageHeader, MigError, CapabilityDescriptor, InvokeResponse, EventMessage,
  AuditRecord, ConnectionSnapshot, Org, Tenant, Gateway, invalid_request, Env, members_of,
}
use model_interface_gateway.Types.Json.{text, strings, object}
use model_interface_gateway.Auth.{refusal}
use model_interface_gateway.Metrics
use model_interface_gateway.Metrics.{Metrics}

-- A `chan EventMessage` of capacity 32 and its place in `subscribers`: `id` tells the channels apart,
-- and `queue` holds what was sent and not yet received, oldest first.
pub record Subscriber : Type 0 where
  pub id : ℕ
  pub queue : List EventMessage

-- The fields of `Service`. `metrics` may be nil. `audit_log` is what was written to the file, if there
-- is one, and `nats_out` what was published on the NATS connection, if there is one. `next_channel`
-- numbers the channels that `Subscribe` makes.
pub record Service : Type 0 where
  pub server_id : String
  pub metrics : Option Metrics
  pub capabilities : GoMap CapabilityDescriptor
  pub schemas : GoMap (GoMap Value)
  pub events : GoMap (List EventMessage)
  pub subscribers : GoMap (List Subscriber)
  pub idempotency : GoMap InvokeResponse
  pub cancelled : GoMap String
  pub quotas : GoMap ℤ
  pub audit : List AuditRecord
  pub connections : GoMap ConnectionSnapshot
  pub tenant_invocations : GoMap ℤ
  pub capability_invocations : GoMap ℤ
  pub orgs : GoMap Org
  pub tenants : GoMap Tenant
  pub gateways : GoMap Gateway
  pub nats_binding : Bool
  pub nats_out : Option (List (String × EventMessage))
  pub audit_log : Option (List AuditRecord)
  pub next_channel : ℕ

-- `recordError`: nothing without metrics.
unfoldable pub record_error : String → String → Service → Service
unfolding Metrics.record_error
record_error code operation s = record s {
  metrics = Option.map (Metrics.record_error code operation) s.metrics;
}

-- `invalid`
abbrev pub invalid : String → MigError
invalid message = refusal invalid_request message

-- What an operation leaves behind: the state, and the reply or the error.
abbrev pub Outcome : Type 0 → Type 0
Outcome A = Service × Result MigError A

-- An error that is counted, `s.recordError(err.Code, operation)`, and returned.
abbrev pub fail : {A : Type 0} → String → MigError → Service → Outcome A
fail operation e s = (record_error e.code operation s, err e)

abbrev pub infer_id : String
infer_id = "observatory.models.infer"

-- The capability that `bootstrapDefaults` registers.
abbrev pub infer_capability : CapabilityDescriptor
infer_capability = record {
  id = infer_id;
  version = "1.0.0";
  modes = "unary" ∷ "server_stream" ∷ [];
  input_schema_uri = "schema://observatory/models/infer-input/v1";
  output_schema_uri = "schema://observatory/models/infer-output/v1";
  event_topics = "observatory.inference.completed" ∷ [];
  auth_scopes = "capability:infer" ∷ [];
  qos = record {
    max_payload_bytes = pos (1024 * 1024);
    supports_replay = true;
    delivery_semantics = "at_least_once";
    supports_ordering = true;
  };
}

-- A schema of an object with one text field, which is required.
abbrev object_schema : String → GoMap Value
object_schema field =
    ("type", text "object")
    ∷ (
      "properties",
      object (members_of ((field, object (members_of (("type", text "string") ∷ []))) ∷ [])),
    )
    ∷ ("required", strings (field ∷ []))
    ∷ []

-- `bootstrapDefaults`
unfoldable pub bootstrap_defaults : Service → Service
unfolding insert
bootstrap_defaults s = record s {
  capabilities = insert infer_id infer_capability s.capabilities;
  schemas =
      insert infer_capability.output_schema_uri (object_schema "result")
        (insert infer_capability.input_schema_uri (object_schema "input") s.schemas);
}

-- A connection or file that is used only if its name is set: no output yet, or the error.
abbrev attach {ℓ} : {A : Type ℓ} → String → String → Option String → Result String (Option (List A))
attach context name failed =
    if name == ""
    then ok none
    else elim failed [ none ↦ ok (some []) | some e ↦ err (String.◌++◌ context e) ]

pub record ServiceOptions : Type 0 where
  pub nats_url : String
  pub audit_log_path : String

abbrev empty_service : Service
empty_service = record {
  server_id = "migd-core";
  metrics = none;
  capabilities = [];
  schemas = [];
  events = [];
  subscribers = [];
  idempotency = [];
  cancelled = [];
  quotas = [];
  audit = [];
  connections = [];
  tenant_invocations = [];
  capability_invocations = [];
  orgs = [];
  tenants = [];
  gateways = [];
  nats_binding = false;
  nats_out = none;
  audit_log = none;
  next_channel = 0;
}

-- `NewServiceWithOptions`. The NATS library and the file system answer with an error or with nothing:
-- `connected` for `nats.Connect`, `opened` for `os.OpenFile`.
unfoldable pub new_service_with_options :
    (connected opened : Option String) → ServiceOptions → Result String Service
unfolding bootstrap_defaults
new_service_with_options connected opened opts = do
  nats ← attach "connect nats: " opts.nats_url connected
  file ← attach "open audit log: " opts.audit_log_path opened
  ok (bootstrap_defaults (record empty_service { nats_out = nats; audit_log = file }))

-- `NewService`, which has no options and so cannot fail.
unfoldable pub new_service : Service
unfolding bootstrap_defaults
new_service = bootstrap_defaults empty_service

-- `SetMetrics`
unfoldable pub set_metrics : Option Metrics → Service → Service
set_metrics metrics s = record s { metrics = metrics }

-- `Close`: the binding, the connection and the file are closed and forgotten.
unfoldable pub close : Service → Service
close s = record s { nats_binding = false; nats_out = none; audit_log = none }
