-- ===== src/Service/Admin/Laws.antt =====
-- The administration: what the operations promise each other.
use model_interface_gateway.Base.{
  String, ◌≡◌, ◌≢◌, refl, sym, ap, ◌∙◌, false, none, some, List, [], ◌∷◌, ok, arith, eq-false_of_ne,
  if◌then◌else◌, length, count_by,
}
use model_interface_gateway.Base.Int.{pos, to_int64, leb_ℤ, is_le_zero}
use model_interface_gateway.Base.GoMap.{lookup, lookup_or, insert, lookup-insert_self}
use model_interface_gateway.Types.{
  MessageHeader, AuditRecord, QuotaRequest, QuotaResponse, InvokeRequest, rate_limited,
  CapabilityDescriptor,
}
use model_interface_gateway.Auth.{Principal}
use model_interface_gateway.Service.{Service}
use model_interface_gateway.Service.Invoke.{
  is_exhausted, stored_reply, retry_later, refused, admitted, check,
}
use model_interface_gateway.Service.Invoke.Laws.{HasPassed, ticket}
use model_interface_gateway.Service.History.{History}
use model_interface_gateway.Service.History.Laws.{reached-IsSound}
use model_interface_gateway.Base.{All, eq_cases, eq_iff, inl, inr, [], ◌∷◌}
use model_interface_gateway.Service.{new_service}
use model_interface_gateway.Service.Admin.{set_quota, records_of, audit_export, usage}

length-records_of :
    (k : String) (rs : List AuditRecord)
    → length (records_of k rs) ≡ count_by (λ r. r.tenant_id) k rs
unfolding records_of
length-records_of k [] = refl
length-records_of k (r ∷ rs) = ground (arith, length-records_of k rs)

records_of-All : (k : String) (rs : List AuditRecord) → All (λ r. r.tenant_id ≡ k) (records_of k rs)
unfolding records_of
records_of-All k [] = tt
records_of-All k (r ∷ rs) = elim (eq_cases r.tenant_id k) [
  | inl same ↦ rw ((eq_iff r.tenant_id k).1 same) (same, records_of-All k rs)
  | inr other ↦ rw other (records_of-All k rs)
]

-- Whatever operations have run since the service was made, the export of the audit log for a tenant has
-- records of that tenant alone, and the usage that is reported for the tenant is their number.
pub usage-audit_export :
    (tenant : String) (s : Service)
    → History new_service s
    → tenant ≢ ""
    → All (λ r. r.tenant_id ≡ tenant) (audit_export tenant s)
      × (lookup_or (pos 0) tenant (usage s).tenant_invocations
          ≡ to_int64 (length (audit_export tenant s)))
unfolding usage audit_export
usage-audit_export tenant s past named = (
  rw (eq-false_of_ne tenant "" named) (records_of-All tenant s.audit),
  (reached-IsSound past).books.tenants tenant
      ∙ ap to_int64 (sym (rw (eq-false_of_ne tenant "" named) (length-records_of tenant s.audit))),
)

set_quota-ok :
    (q : QuotaRequest) (s s' : Service) (r : QuotaResponse)
    → set_quota q s ≡ (s', ok r)
    → (is_le_zero q.max_invocations ≡ false)
      × (s' ≡ record s { quotas = insert q.tenant_id q.max_invocations s.quotas })
unfolding set_quota
set_quota-ok q s s' r h = (ground arith, ground arith)

-- A quota that is accepted is in force at once: a request of the tenant that passes the other checks
-- is refused as rate-limited if the tenant's count has reached the quota, and admitted if not.
pub set_quota-check :
    (q : QuotaRequest) (s s' : Service) (r : QuotaResponse) (head : MessageHeader) (name : String)
    (req : InvokeRequest) (actor : String) (p : Principal) (d : CapabilityDescriptor)
    → set_quota q s ≡ (s', ok r)
    → head.tenant_id ≡ q.tenant_id
    → HasPassed head name p s d
    → stored_reply s head name ≡ none
    → check head name req actor p s' ≡ (
        if leb_ℤ q.max_invocations (lookup_or (pos 0) q.tenant_id s.tenant_invocations)
        then refused (retry_later rate_limited "tenant quota exceeded")
        else admitted (ticket head name d req actor))
unfolding check is_exhausted stored_reply
set_quota-check q s s' r head name req actor p d h same passed fresh =
    let wrote = (set_quota-ok q s s' r h).1 in
    let registered : lookup name s'.capabilities ≡ some d = rw wrote passed.registered in
    let live : lookup head.message_id s'.cancelled ≡ none = rw wrote passed.live in
    let not_stored : stored_reply s' head name ≡ none = rw wrote fresh in
    let limit : lookup head.tenant_id s'.quotas ≡ some q.max_invocations =
      rw (wrote, same) (lookup-insert_self q.tenant_id q.max_invocations s.quotas) in
    let counts : s'.tenant_invocations ≡ s.tenant_invocations = rw wrote refl in
    rw (registered, passed.allowed, live, not_stored, limit, counts, same, check, is_exhausted) refl
