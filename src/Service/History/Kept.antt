-- ===== src/Service/History/Kept.antt =====
-- What each operation keeps of the state, and that it keeps the state sound.
use model_interface_gateway.Base.{
  ℕ, String, ◌≡◌, ◌⊎◌, refl, sym, ◌∙◌, inl, inr, Bool, Option, none, arith, Option-cases,
  Result-cases,
}
use model_interface_gateway.Metrics.{Metrics}
use model_interface_gateway.Types.{
  MessageHeader, CapabilityUpsertRequest, InvokeRequest, CancelRequest, PublishRequest,
  QuotaRequest, SchemaUpsertRequest, ConnectionSnapshot, Org, Tenant, Gateway, Env,
}
use model_interface_gateway.Header.{or_default, open_header}
use model_interface_gateway.Auth.{Principal}
use model_interface_gateway.Service.{Service, record_error, set_metrics, close}
use model_interface_gateway.Service.Protocol.{cancel}
use model_interface_gateway.Service.Invoke.{
  Ticket, Admission, refused, replayed, admitted, admit, commit, conclude, invoke, finish,
}
use model_interface_gateway.Service.Invoke.Books.{IsBalanced, finish-IsBalanced, invoke-IsBalanced}
use model_interface_gateway.Service.Events.{
  publish, publish_to, subscribe, unsubscribe, receive, topic_error, new_event, append_event,
}
use model_interface_gateway.Service.Events.Laws.{IsNumbered, append_event-IsNumbered}
use model_interface_gateway.Service.Cloud.{create_org, create_tenant, create_gateway}
use model_interface_gateway.Service.Cloud.Laws.{
  IsLinked, create_org-IsLinked, create_tenant-IsLinked, create_gateway-IsLinked,
}
use model_interface_gateway.Service.Admin.{add_capability, add_schema, set_quota}
use model_interface_gateway.Service.Connections.{register_connection, unregister}
use model_interface_gateway.Service.History.{IsSound}

-- The fields that the three are about are kept; a file may be closed.
abbrev pub KeepsBooks : Service → Service → Type 0
KeepsBooks s s' =
    (s'.tenant_invocations ≡ s.tenant_invocations)
    × (s'.capability_invocations ≡ s.capability_invocations)
    × (s'.audit ≡ s.audit)
    × ((s'.audit_log ≡ none) ⊎ (s'.audit_log ≡ s.audit_log))

abbrev pub KeepsLinks : Service → Service → Type 0
KeepsLinks s s' = (s'.orgs ≡ s.orgs) × (s'.tenants ≡ s.tenants) × (s'.gateways ≡ s.gateways)

abbrev pub Keeps : Service → Service → Type 0
Keeps s s' = KeepsBooks s s' × (s'.events ≡ s.events) × KeepsLinks s s'

module _ (s s' : Service) where
  pub KeepsBooks-IsBalanced : KeepsBooks s s' → IsBalanced s → IsBalanced s'
  KeepsBooks-IsBalanced (counts, uses, records, file) b = record {
    tenants = λ id. rw (counts, records) (b.tenants id);
    capabilities = λ id. rw (uses, records) (b.capabilities id);
    file = λ lines e. elim file [
      | inl closed ↦ absurd (ground arith)
      | inr same ↦ rw records (b.file lines (sym same ∙ e))
    ];
  }

  pub IsNumbered-kept : s'.events ≡ s.events → IsNumbered s → IsNumbered s'
  IsNumbered-kept e h topic = rw e (h topic)

  pub KeepsLinks-IsLinked : KeepsLinks s s' → IsLinked s → IsLinked s'
  KeepsLinks-IsLinked (orgs, tenants, gateways) h = record {
    tenants = λ id t e. rw orgs (h.tenants id t (rw tenants at e));
    gateways = λ id g e. rw tenants (h.gateways id g (rw gateways at e));
  }

  pub Keeps-IsSound : Keeps s s' → IsSound s → IsSound s'
  Keeps-IsSound (books, logs, links) h = record {
    books = KeepsBooks-IsBalanced books h.books;
    logs = IsNumbered-kept logs h.logs;
    links = KeepsLinks-IsLinked links h.links;
  }

pub cancel-Keeps :
    (env : Env) (req : CancelRequest) (id : String) (s : Service) → Keeps s (cancel env req id s).0
unfolding cancel record_error
cancel-Keeps env req id s = ground arith

pub subscribe-Keeps : (topic cursor : String) (s : Service) → Keeps s (subscribe topic cursor s).0
unfolding subscribe record_error
subscribe-Keeps topic cursor s = ground arith

pub unsubscribe-Keeps : (topic : String) (ch : ℕ) (s : Service) → Keeps s (unsubscribe topic ch s)
unfolding unsubscribe
unsubscribe-Keeps topic ch s = ground arith

pub receive-Keeps : (topic : String) (ch : ℕ) (s : Service) → Keeps s (receive topic ch s).0
unfolding receive
receive-Keeps topic ch s = ground arith

pub add_capability-Keeps :
    (req : CapabilityUpsertRequest) (s : Service) → Keeps s (add_capability req s).0
unfolding add_capability
add_capability-Keeps req s = ground arith

pub add_schema-Keeps : (req : SchemaUpsertRequest) (s : Service) → Keeps s (add_schema req s).0
unfolding add_schema
add_schema-Keeps req s = ground arith

pub set_quota-Keeps : (req : QuotaRequest) (s : Service) → Keeps s (set_quota req s).0
unfolding set_quota
set_quota-Keeps req s = ground arith

pub record_error-Keeps :
    (code operation : String) (s : Service) → Keeps s (record_error code operation s)
unfolding record_error
record_error-Keeps code operation s = ground arith

pub set_metrics-Keeps : (metrics : Option Metrics) (s : Service) → Keeps s (set_metrics metrics s)
unfolding set_metrics
set_metrics-Keeps metrics s = ground arith

pub close-Keeps : (s : Service) → Keeps s (close s)
unfolding close
close-Keeps s = ground arith

pub register-Keeps :
    (env : Env) (conn : ConnectionSnapshot) (s : Service)
    → Keeps s (register_connection env conn s).0
unfolding register_connection
register-Keeps env conn s = ground arith

pub unregister-Keeps : (id : String) (s : Service) → Keeps s (unregister id s)
unfolding unregister
unregister-Keeps id s = ground arith

pub conclude-keeps :
    (env : Env) (expired : Bool) (a : Admission) (s : Service)
    → ((conclude env expired a s).0.events ≡ s.events) × KeepsLinks s (conclude env expired a s).0
unfolding conclude finish commit record_error
conclude-keeps env expired (refused e) s = ground arith
conclude-keeps env expired (replayed r) s = ground arith
conclude-keeps env expired (admitted t) s = ground arith

pub invoke-IsSound :
    (env : Env) (expired : Bool) (capability : String) (req : InvokeRequest) (actor : String)
    (p : Principal) (s : Service)
    → IsSound s
    → IsSound (invoke env expired capability req actor p s).0
unfolding invoke
invoke-IsSound env expired capability req actor p s h =
    let s' = (invoke env expired capability req actor p s).0 in
    let (logs, links) = conclude-keeps env expired (admit env capability req actor p s) s in
    record {
      books = invoke-IsBalanced env expired capability req actor p s h.books;
      logs = IsNumbered-kept s s' logs h.logs;
      links = KeepsLinks-IsLinked s s' links h.links;
    }

pub finish-IsSound :
    (env : Env) (expired : Bool) (t : Ticket) (s : Service)
    → IsSound s
    → IsSound (finish env expired t s).0
unfolding conclude
finish-IsSound env expired t s h =
    let s' = (finish env expired t s).0 in
    let (logs, links) = conclude-keeps env expired (admitted t) s in
    record {
      books = finish-IsBalanced env expired t s h.books;
      logs = IsNumbered-kept s s' logs h.logs;
      links = KeepsLinks-IsLinked s s' links h.links;
    }

pub publish-keeps :
    (env : Env) (topic : String) (req : PublishRequest) (s : Service)
    → KeepsBooks s (publish env topic req s).0 × KeepsLinks s (publish env topic req s).0
unfolding publish publish_to append_event record_error
publish-keeps env topic req s = (ground arith, ground arith)

pub publish_to-IsNumbered :
    (env : Env) (head : MessageHeader) (topic : String) (req : PublishRequest) (s : Service)
    → IsNumbered s
    → IsNumbered (publish_to env head topic req s).0
unfolding publish_to record_error
publish_to-IsNumbered env head topic req s h = elim (Option-cases (topic_error topic)) [
  | inl valid ↦
      rw (valid, publish_to) (append_event-IsNumbered (new_event env head topic req s) s refl h)
  | inr (e, bad) ↦ rw (bad, publish_to) h
]

pub publish-IsNumbered :
    (env : Env) (topic : String) (req : PublishRequest) (s : Service)
    → IsNumbered s
    → IsNumbered (publish env topic req s).0
unfolding publish record_error
publish-IsNumbered env topic req s h = elim (Result-cases (open_header env req.header)) [
  | inl (e, bad) ↦ rw (bad, publish) h
  | inr (head, opened) ↦
      rw (opened, publish) (publish_to-IsNumbered env head (or_default topic req.topic) req s h)
]

pub publish-IsSound :
    (env : Env) (topic : String) (req : PublishRequest) (s : Service)
    → IsSound s
    → IsSound (publish env topic req s).0
publish-IsSound env topic req s h =
    let s' = (publish env topic req s).0 in
    let (books, links) = publish-keeps env topic req s in
    record {
      books = KeepsBooks-IsBalanced s s' books h.books;
      logs = publish-IsNumbered env topic req s h.logs;
      links = KeepsLinks-IsLinked s s' links h.links;
    }

pub create_org-IsSound :
    (env : Env) (org : Org) (s : Service) → IsSound s → IsSound (create_org env org s).0
unfolding create_org
create_org-IsSound env org s h = record {
  books = KeepsBooks-IsBalanced s (create_org env org s).0 (ground arith) h.books;
  logs = IsNumbered-kept s (create_org env org s).0 (ground arith) h.logs;
  links = create_org-IsLinked env s h.links org;
}

pub create_tenant-IsSound :
    (env : Env) (tenant : Tenant) (s : Service) → IsSound s → IsSound (create_tenant env tenant s).0
unfolding create_tenant
create_tenant-IsSound env tenant s h = record {
  books = KeepsBooks-IsBalanced s (create_tenant env tenant s).0 (ground arith) h.books;
  logs = IsNumbered-kept s (create_tenant env tenant s).0 (ground arith) h.logs;
  links = create_tenant-IsLinked env s h.links tenant;
}

pub create_gateway-IsSound :
    (env : Env) (gw : Gateway) (s : Service) → IsSound s → IsSound (create_gateway env gw s).0
unfolding create_gateway
create_gateway-IsSound env gw s h = record {
  books = KeepsBooks-IsBalanced s (create_gateway env gw s).0 (ground arith) h.books;
  logs = IsNumbered-kept s (create_gateway env gw s).0 (ground arith) h.logs;
  links = create_gateway-IsLinked env s h.links gw;
}
