-- ===== src/Service/History.antt =====
-- service.go and connections.go: all the operations that write the state, and the states they lead to.
pub mod Kept
pub mod Channels
pub mod Filed
pub mod Served
pub mod Laws
use model_interface_gateway.Base.{
  ℕ, ◌+◌, String, ◌≡◌, ◌⊎◌, refl, sym, ap, inl, inr, Bool, true, false, Option, none, some, List,
  [], Result, ok, err, arith, ◌==◌, length, if◌then◌else◌, ◌||◌, not, Option-cases, Result-cases,
}
use model_interface_gateway.Base.Int.{ℤ, pos, to_int64, is_le_zero}
use model_interface_gateway.Base.GoMap.{GoMap, lookup, insert}
use model_interface_gateway.Metrics.{Metrics}
use model_interface_gateway.Types.{
  MigError, MessageHeader, CapabilityUpsertRequest, InvokeRequest, CancelRequest, PublishRequest,
  QuotaRequest, SchemaUpsertRequest, ConnectionSnapshot, Org, Tenant, Gateway, Env, EventMessage,
  AuditRecord, entries,
}
use model_interface_gateway.Header.{or_default, open_header}
use model_interface_gateway.Auth.{Principal}
use model_interface_gateway.Service.{
  Service, record_error, fail, set_metrics, close, new_service, bootstrap_defaults,
}
use model_interface_gateway.Service.Protocol.{cancel}
use model_interface_gateway.Service.Invoke.{
  Ticket, Admission, refused, replayed, admitted, admit, commit, conclude, invoke, finish,
}
use model_interface_gateway.Service.Invoke.Books.{IsBalanced, finish-IsBalanced, invoke-IsBalanced}
use model_interface_gateway.Service.Events.{
  publish, publish_to, subscribe, unsubscribe, receive, topic_error, parse_cursor, events_of,
  new_event, append_event,
}
use model_interface_gateway.Service.Events.Laws.{IsNumbered, append_event-IsNumbered}
use model_interface_gateway.Service.Cloud.{create_org, create_tenant, create_gateway}
use model_interface_gateway.Service.Cloud.Laws.{
  IsLinked, create_org-IsLinked, create_tenant-IsLinked, create_gateway-IsLinked,
}
use model_interface_gateway.Service.Admin.{add_capability, add_schema, set_quota}
use model_interface_gateway.Service.Connections.{register_connection, unregister}

-- One operation that writes, whatever its arguments and its outcome. `finished` is the second half of an
-- invocation whose first half was at some earlier state.
pub data Step (s : Service) : Service → Type 0 where
  errored : (code operation : String) → Step s (record_error code operation s)
  metered : (metrics : Option Metrics) → Step s (set_metrics metrics s)
  closed : Step s (close s)
  cancelled : (env : Env) (req : CancelRequest) (id : String) → Step s (cancel env req id s).0
  invoked :
      (env : Env) (expired : Bool) (capability : String) (req : InvokeRequest) (actor : String)
      (p : Principal)
      → Step s (invoke env expired capability req actor p s).0
  finished : (env : Env) (expired : Bool) (t : Ticket) → Step s (finish env expired t s).0
  published :
      (env : Env) (topic : String) (req : PublishRequest) → Step s (publish env topic req s).0
  subscribed : (topic cursor : String) → Step s (subscribe topic cursor s).0
  unsubscribed : (topic : String) (ch : ℕ) → Step s (unsubscribe topic ch s)
  received : (topic : String) (ch : ℕ) → Step s (receive topic ch s).0
  capability_added : (req : CapabilityUpsertRequest) → Step s (add_capability req s).0
  schema_added : (req : SchemaUpsertRequest) → Step s (add_schema req s).0
  quota_set : (req : QuotaRequest) → Step s (set_quota req s).0
  org_created : (env : Env) (org : Org) → Step s (create_org env org s).0
  tenant_created : (env : Env) (tenant : Tenant) → Step s (create_tenant env tenant s).0
  gateway_created : (env : Env) (gw : Gateway) → Step s (create_gateway env gw s).0
  registered : (env : Env) (conn : ConnectionSnapshot) → Step s (register_connection env conn s).0
  unregistered : (id : String) → Step s (unregister id s)

pub data History (s : Service) : Service → Type 0 where
  start : History s s
  then_step : {s' s'' : Service} → History s s' → Step s' s'' → History s s''

-- The books balance, the logs are numbered, and what is named is there.
pub record IsSound (s : Service) : Type 0 where
  pub books : IsBalanced s
  pub logs : IsNumbered s
  pub links : IsLinked s
