-- ===== src/Service/History/Laws.antt =====
-- All the operations of the gateway together: what every state has that they lead to.
use model_interface_gateway.Base.{
  String, ◌≡◌, ◌⊎◌, refl, inl, inr, [], Option, none, some, ok, arith, done,
}
use model_interface_gateway.Base.Int.{to_int64}
use model_interface_gateway.Base.GoMap.{lookup}
use model_interface_gateway.Service.{
  Service, record_error, set_metrics, close, new_service, bootstrap_defaults, ServiceOptions,
  new_service_with_options,
}
use model_interface_gateway.Service.Protocol.{cancel}
use model_interface_gateway.Service.Events.{subscribe, unsubscribe, receive}
use model_interface_gateway.Service.Admin.{add_capability, add_schema, set_quota}
use model_interface_gateway.Service.Connections.{register_connection, unregister}
use model_interface_gateway.Service.History.{
  Step, History, IsSound, errored, metered, closed, cancelled, invoked, finished, published,
  subscribed, unsubscribed, received, capability_added, schema_added, quota_set, org_created,
  tenant_created, gateway_created, registered, unregistered, start, then_step,
}
use model_interface_gateway.Service.History.Kept.{
  Keeps-IsSound, cancel-Keeps, subscribe-Keeps, unsubscribe-Keeps, receive-Keeps,
  add_capability-Keeps, add_schema-Keeps, set_quota-Keeps, invoke-IsSound, finish-IsSound,
  publish-IsSound, create_org-IsSound, create_tenant-IsSound, create_gateway-IsSound,
  record_error-Keeps, set_metrics-Keeps, close-Keeps, register-Keeps, unregister-Keeps,
}

pub Step-IsSound : {s s' : Service} → Step s s' → IsSound s → IsSound s'
Step-IsSound {s} (errored code operation) h =
    Keeps-IsSound s (record_error code operation s) (record_error-Keeps code operation s) h
Step-IsSound {s} (metered m) h = Keeps-IsSound s (set_metrics m s) (set_metrics-Keeps m s) h
Step-IsSound {s} closed h = Keeps-IsSound s (close s) (close-Keeps s) h
Step-IsSound {s} (cancelled env req id) h =
    Keeps-IsSound s (cancel env req id s).0 (cancel-Keeps env req id s) h
Step-IsSound {s} (invoked env expired capability req actor p) h =
    invoke-IsSound env expired capability req actor p s h
Step-IsSound {s} (finished env expired t) h = finish-IsSound env expired t s h
Step-IsSound {s} (published env topic req) h = publish-IsSound env topic req s h
Step-IsSound {s} (subscribed topic cursor) h =
    Keeps-IsSound s (subscribe topic cursor s).0 (subscribe-Keeps topic cursor s) h
Step-IsSound {s} (unsubscribed topic ch) h =
    Keeps-IsSound s (unsubscribe topic ch s) (unsubscribe-Keeps topic ch s) h
Step-IsSound {s} (received topic ch) h =
    Keeps-IsSound s (receive topic ch s).0 (receive-Keeps topic ch s) h
Step-IsSound {s} (capability_added req) h =
    Keeps-IsSound s (add_capability req s).0 (add_capability-Keeps req s) h
Step-IsSound {s} (schema_added req) h =
    Keeps-IsSound s (add_schema req s).0 (add_schema-Keeps req s) h
Step-IsSound {s} (quota_set req) h = Keeps-IsSound s (set_quota req s).0 (set_quota-Keeps req s) h
Step-IsSound {s} (org_created env org) h = create_org-IsSound env org s h
Step-IsSound {s} (tenant_created env tenant) h = create_tenant-IsSound env tenant s h
Step-IsSound {s} (gateway_created env gw) h = create_gateway-IsSound env gw s h
Step-IsSound {s} (registered env conn) h =
    Keeps-IsSound s (register_connection env conn s).0 (register-Keeps env conn s) h
Step-IsSound {s} (unregistered id) h = Keeps-IsSound s (unregister id s) (unregister-Keeps id s) h

-- No request has been handled yet.
record IsFresh (s : Service) : Type 0 where
  tenant_invocations : s.tenant_invocations ≡ []
  capability_invocations : s.capability_invocations ≡ []
  audit : s.audit ≡ []
  file : (s.audit_log ≡ none) ⊎ (s.audit_log ≡ some [])
  events : s.events ≡ []
  tenants : s.tenants ≡ []
  gateways : s.gateways ≡ []

new_service_with_options-IsFresh :
    (connected opened : Option String) (opts : ServiceOptions) (s : Service)
    → new_service_with_options connected opened opts ≡ ok s
    → IsFresh s
unfolding new_service_with_options bootstrap_defaults
new_service_with_options-IsFresh connected opened opts s h = record {
  tenant_invocations = ground arith;
  capability_invocations = ground arith;
  audit = ground arith;
  file = ground arith;
  events = ground arith;
  tenants = ground arith;
  gateways = ground arith;
}

IsFresh-IsSound : (s : Service) → IsFresh s → IsSound s
unfolding lookup to_int64
IsFresh-IsSound s f = record {
  books = record {
    tenants = λ k. rw (f.tenant_invocations, f.audit) refl;
    capabilities = λ k. rw (f.capability_invocations, f.audit) refl;
    file = λ lines e. elim f.file [
      | inl no_file ↦ absurd (ground arith)
      | inr empty ↦ let none_yet : [] ≡ lines = ground arith in rw (f.audit, ← none_yet) done
    ];
  };
  logs = λ topic. rw f.events tt;
  links = record {
    tenants = λ id t e. absurd (ground (arith, f.tenants));
    gateways = λ id g e. absurd (ground (arith, f.gateways));
  };
}

pub new_service_with_options-IsSound :
    (connected opened : Option String) (opts : ServiceOptions) (made : Service)
    → new_service_with_options connected opened opts ≡ ok made
    → IsSound made
new_service_with_options-IsSound connected opened opts made h =
    IsFresh-IsSound made (new_service_with_options-IsFresh connected opened opts made h)

pub History-keeps : {s s' : Service} → History s s' → IsSound s → IsSound s'
History-keeps start h = h
History-keeps (then_step before st) h = Step-IsSound st (History-keeps before h)

-- What holds of a service that was made without options.
pub reached-IsSound : {s : Service} → History new_service s → IsSound s
unfolding new_service_with_options new_service bootstrap_defaults
reached-IsSound past = History-keeps past (
    new_service_with_options-IsSound none none (record { nats_url = ""; audit_log_path = "" })
      new_service refl)
