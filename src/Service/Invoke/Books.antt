-- ===== src/Service/Invoke/Books.antt =====
-- The books of the gateway: the counters, the audit log in memory and the one in the file.
use model_interface_gateway.Base.{
  String, ◌≡◌, inl, inr, Bool, true, false, some, List, [], ◌∷◌, ◌++◌, arith, eq_iff, eq_cases,
  Bool-cases, Option-cases, IsSubsequence, IsSubsequence-keep_last, IsSubsequence-skip_last,
  count_by, count_by-append,
}
use model_interface_gateway.Base.Int.{ℤ, pos, increment, to_int64, increment-to_int64}
use model_interface_gateway.Base.GoMap.{GoMap, lookup_or, lookup-insert}
use model_interface_gateway.Types.{Env, InvokeRequest, AuditRecord}
use model_interface_gateway.Auth.{Principal}
use model_interface_gateway.Service.{Service, record_error}
use model_interface_gateway.Service.Invoke.{
  Ticket, Admission, refused, replayed, admitted, admit, count_up, audit_record, commit, finish,
  conclude, invoke,
}

abbrev tenant_of : AuditRecord → String
tenant_of r = r.tenant_id

abbrev capability_of : AuditRecord → String
capability_of r = r.capability

-- The counters count the records of the audit log, modulo the width of an `int64`, and a file that is
-- open has records of the audit log alone, in their order.
pub record IsBalanced (s : Service) : Type 0 where
  pub tenants :
      (k : String)
      → lookup_or (pos 0) k s.tenant_invocations ≡ to_int64 (count_by tenant_of k s.audit)
  pub capabilities :
      (k : String)
      → lookup_or (pos 0) k s.capability_invocations ≡ to_int64 (count_by capability_of k s.audit)
  pub file : (lines : List AuditRecord) → s.audit_log ≡ some lines → IsSubsequence lines s.audit

module _ {ℓ} {A : Type ℓ} (key : A → String) (a : A) where
  count_up-append :
      (m : GoMap ℤ) (xs : List A) (k : String)
      → lookup_or (pos 0) k m ≡ to_int64 (count_by key k xs)
      → lookup_or (pos 0) k (count_up (key a) m) ≡ to_int64 (count_by key k (xs ++ a ∷ []))
  unfolding count_up
  count_up-append m xs k h = elim (eq_cases (key a) k) [
    | inl same ↦ ground (
      arith,
      lookup-insert (key a) k (increment (lookup_or (pos 0) (key a) m)) m,
      eq_iff (key a) k,
      increment-to_int64 (count_by key k xs),
      count_by-append key k xs (a ∷ []),
    )
    | inr other ↦ ground (
      arith,
      lookup-insert (key a) k (increment (lookup_or (pos 0) (key a) m)) m,
      count_by-append key k xs (a ∷ []),
    )
  ]

commit-IsBalanced :
    (env : Env) (t : Ticket) (s : Service) → IsBalanced s → IsBalanced (commit env t s)
unfolding commit
commit-IsBalanced env t s b = record {
  tenants = λ k.
      count_up-append tenant_of (audit_record env t) s.tenant_invocations s.audit k (b.tenants k);
  capabilities = λ k.
      count_up-append capability_of (audit_record env t) s.capability_invocations s.audit k
        (b.capabilities k);
  file = λ lines e. elim (Option-cases s.audit_log) [
    | inl closed ↦ absurd (ground arith)
    | inr (before, there) ↦ elim (Bool-cases env.audit_fails) [
      | inl fails ↦
          let same : before ≡ lines = ground arith in
          rw (← same) (IsSubsequence-skip_last _ (b.file before there))
      | inr works ↦
          let same : before ++ audit_record env t ∷ [] ≡ lines = ground arith in
          rw (← same) (IsSubsequence-keep_last _ (b.file before there))
    ]
  ];
}

pub finish-IsBalanced :
    (env : Env) (expired : Bool) (t : Ticket) (s : Service)
    → IsBalanced s
    → IsBalanced (finish env expired t s).0
unfolding finish record_error
finish-IsBalanced env true t s b = record {
  tenants = b.tenants;
  capabilities = b.capabilities;
  file = b.file;
}
finish-IsBalanced env false t s b = commit-IsBalanced env t s b

conclude-IsBalanced :
    (env : Env) (expired : Bool) (a : Admission) (s : Service)
    → IsBalanced s
    → IsBalanced (conclude env expired a s).0
unfolding conclude record_error
conclude-IsBalanced env expired (refused e) s b = record {
  tenants = b.tenants;
  capabilities = b.capabilities;
  file = b.file;
}
conclude-IsBalanced env expired (replayed reply) s b = b
conclude-IsBalanced env expired (admitted t) s b = finish-IsBalanced env expired t s b

-- Whatever becomes of an invocation, the books stay balanced.
pub invoke-IsBalanced :
    (env : Env) (expired : Bool) (capability : String) (req : InvokeRequest) (actor : String)
    (p : Principal) (s : Service)
    → IsBalanced s
    → IsBalanced (invoke env expired capability req actor p s).0
unfolding invoke
invoke-IsBalanced env expired capability req actor p s b =
    conclude-IsBalanced env expired (admit env capability req actor p s) s b
