-- ===== src/Service/Invoke.antt =====
-- service.go: `Invoke`. It reads the state under the read lock (`admit`), lets go of the lock, waits
-- for the result or the deadline, and writes the state under the lock (`finish`). `invoke` is the one
-- after the other; `Invoke/Race` lets other requests run in between.
pub mod Laws
pub mod Replay
pub mod Books
pub mod Cancelled
pub mod Overshoot
pub mod Race
use Prim.Native.String
use model_interface_gateway.Base.{
  String, Bool, true, false, List, [], ◌∷◌, ◌++◌, Option, none, some, Result, ok, err, ◌==◌,
  if◌then◌else◌,
}
use mathlib.Core.Option
use model_interface_gateway.Base.Int.{ℤ, pos, increment, leb_ℤ}
use model_interface_gateway.Base.GoMap.{GoMap, lookup, lookup_or, insert}
use model_interface_gateway.Types.{
  Value, Payload, MessageHeader, MigError, timeout, rate_limited, forbidden, unsupported_capability,
  CapabilityDescriptor, InvokeRequest, InvokeResponse, AuditRecord, Env, payload_value,
}
use model_interface_gateway.Types.Json.{text}
use model_interface_gateway.Header.{or_default, open_header}
use model_interface_gateway.Auth.{Principal, has_any_scope, refusal}
use model_interface_gateway.Service.{Service, Outcome, invalid, record_error, fail}

-- An error that may be retried.
abbrev pub retry_later : String → String → MigError
retry_later code message = record (refusal code message) { retryable = true }

-- The key of the map `idempotency`: `fmt.Sprintf("%s:%s:%s", tenant, capability, key)`.
unfoldable pub idempotency_key : String → String → String → String
idempotency_key tenant capability key =
    String.◌++◌ tenant (String.◌++◌ ":" (String.◌++◌ capability (String.◌++◌ ":" key)))

-- The reply stored for a key; no key, no reply.
unfoldable pub stored_reply : Service → MessageHeader → String → Option InvokeResponse
stored_reply s head capability =
    if head.idempotency_key == ""
    then none
    else lookup (idempotency_key head.tenant_id capability head.idempotency_key) s.idempotency

-- `hasQuota && used >= quota`
unfoldable pub is_exhausted : Service → String → Bool
is_exhausted s tenant = elim (lookup tenant s.quotas) [
  | none ↦ false
  | some quota ↦ leb_ℤ quota (lookup_or (pos 0) tenant s.tenant_invocations)
]

-- An invocation that passed the checks and has not written the state yet.
pub record Ticket : Type 0 where
  pub head : MessageHeader
  pub capability : String
  pub descriptor : CapabilityDescriptor
  pub payload : Payload
  pub actor : String

pub data Admission : Type 0 where
  refused : MigError → Admission
  replayed : InvokeResponse → Admission
  admitted : Ticket → Admission

-- From the look-up of the capability to the quota.
unfoldable pub check :
    MessageHeader → String → InvokeRequest → String → Principal → Service → Admission
check head capability req actor principal s = elim (lookup capability s.capabilities) [
  | none ↦ refused (refusal unsupported_capability "capability not found")
  | some descriptor ↦
      if has_any_scope principal descriptor.auth_scopes
      then (elim (lookup head.message_id s.cancelled) [
        | some reason ↦ refused (retry_later timeout (String.◌++◌ "invocation cancelled: " reason))
        | none ↦ elim (stored_reply s head capability) [
          | some reply ↦ replayed (record reply { header = head })
          | none ↦
              if is_exhausted s head.tenant_id
              then refused (retry_later rate_limited "tenant quota exceeded")
              else admitted (record {
                head = head;
                capability = capability;
                descriptor = descriptor;
                payload = req.payload;
                actor = actor;
              })
        ]
      ])
      else refused (refusal forbidden "insufficient capability scope")
]

-- The first half of `Invoke`. It writes nothing: `conclude` counts an error.
unfoldable pub admit : Env → String → InvokeRequest → String → Principal → Service → Admission
admit env capability req actor principal s = elim (open_header env req.header) [
  | err e ↦ refused (invalid e)
  | ok head ↦
      let name = or_default capability req.capability in
      if name == ""
      then refused (invalid "capability is required")
      else check head name req actor principal s
]

-- The payload of the reply.
abbrev pub reply_payload : Ticket → GoMap Value
reply_payload t =
    ("result", text "ok")
    ∷ ("echo", payload_value t.payload)
    ∷ ("capability", text t.capability)
    ∷ ("delivery_qos", text t.descriptor.qos.delivery_semantics)
    ∷ []

abbrev pub reply_of : Ticket → InvokeResponse
reply_of t = record {
  header = t.head;
  capability = t.capability;
  payload = some (reply_payload t);
  result_schema_uri = t.descriptor.output_schema_uri;
}

-- `m[k]++`
unfoldable pub count_up : String → GoMap ℤ → GoMap ℤ
count_up k m = insert k (increment (lookup_or (pos 0) k m)) m

abbrev pub audit_record : Env → Ticket → AuditRecord
audit_record env t = record {
  actor = t.actor;
  tenant_id = t.head.tenant_id;
  capability = t.capability;
  outcome = "success";
  timestamp = env.now;
  message_id = t.head.message_id;
}

-- `writeAuditLogLocked`: one line for a record, if there is a file. The error of the write is ignored;
-- what a failed write leaves in the file is no record.
abbrev pub write_audit_log :
    Bool → AuditRecord → Option (List AuditRecord) → Option (List AuditRecord)
write_audit_log fails r = Option.map (λ lines. if fails then lines else lines ++ r ∷ [])

-- The writes of a successful invocation.
unfoldable pub commit : Env → Ticket → Service → Service
commit env t s = record s {
  idempotency =
      if t.head.idempotency_key == ""
      then s.idempotency
      else insert (idempotency_key t.head.tenant_id t.capability t.head.idempotency_key)
          (reply_of t) s.idempotency;
  tenant_invocations = count_up t.head.tenant_id s.tenant_invocations;
  capability_invocations = count_up t.capability s.capability_invocations;
  audit = s.audit ++ audit_record env t ∷ [];
  audit_log = write_audit_log env.audit_fails (audit_record env t) s.audit_log;
}

-- The `select`: the deadline (or the caller's context) or the result, whichever it takes. The
-- result's own error is always nil.
unfoldable pub finish : Env → Bool → Ticket → Service → Outcome InvokeResponse
finish env expired t s =
    if expired
    then fail "invoke" (retry_later timeout "deadline exceeded") s
    else (commit env t s, ok (reply_of t))

-- What follows on the checks.
unfoldable pub conclude : Env → Bool → Admission → Service → Outcome InvokeResponse
conclude env expired (refused e) s = fail "invoke" e s
conclude env expired (replayed reply) s = (s, ok reply)
conclude env expired (admitted t) s = finish env expired t s

-- `Invoke`, with nothing in between. `expired` says which case the `select` takes.
unfoldable pub invoke :
    Env → Bool → String → InvokeRequest → String → Principal → Service → Outcome InvokeResponse
invoke env expired capability req actor principal s =
    conclude env expired (admit env capability req actor principal s) s
