-- ===== src/Service/Invoke/Race.antt =====
-- `Invoke` lets go of the lock between its checks and its writes, so requests overlap. At most `k`
-- invocations are under way at a time; each enters with its checks and leaves with its writes or with
-- the deadline, in any order, and any other operation may come between that leaves the quotas and the
-- counts of invocations alone.
use model_interface_gateway.Base.{
  ℕ, suc, ◌+◌, ◌≤◌, ◌<◌, String, ◌≡◌, sym, ap, ◌∙◌, Bool, true, false, some, List, ◌∷◌, ◌++◌, arith,
  ◌==◌, eq_iff, eq_cases, inl, inr, length, length-append, count_by, count_by-append,
  count_by-le-length, if◌then◌else◌,
}
use model_interface_gateway.Base.Int.{ℤ, pos, increment, increment-pos, max_int64}
use model_interface_gateway.Base.GoMap.{GoMap, lookup, lookup_or, lookup-insert}
use model_interface_gateway.Types.{Env, InvokeRequest}
use model_interface_gateway.Auth.{Principal}
use model_interface_gateway.Service.{Service, record_error}
use model_interface_gateway.Service.Invoke.{
  is_exhausted, Ticket, admitted, admit, count_up, commit, finish,
}
use model_interface_gateway.Service.Invoke.Laws.{named, admit_passed, check-admitted}

pub record Gate : Type 0 where
  pub service : Service
  pub flights : List Ticket

pub data Step (k : ℕ) (g : Gate) : Gate → Type 0 where
  enter :
      (env : Env) (capability : String) (req : InvokeRequest) (actor : String) (p : Principal)
      (t : Ticket)
      → length g.flights < k
      → admit env capability req actor p g.service ≡ admitted t
      → Step k g (record g { flights = t ∷ g.flights })
  leave :
      (env : Env) (expired : Bool) (before : List Ticket) (t : Ticket) (after : List Ticket)
      → g.flights ≡ before ++ t ∷ after
      → Step k g
          (record { service = (finish env expired t g.service).0; flights = before ++ after })
  other :
      (s : Service)
      → s.quotas ≡ g.service.quotas
      → s.tenant_invocations ≡ g.service.tenant_invocations
      → Step k g (record g { service = s })

pub data Reach (k : ℕ) (g : Gate) : Gate → Type 0 where
  here : Reach k g g
  next : {h i : Gate} → Reach k g h → Step k h i → Reach k g i

abbrev pub tenant_of : Ticket → String
tenant_of t = t.head.tenant_id

-- The tenant's count, with what is under way for it, is below its quota and `k`.
pub record IsBounded (k q : ℕ) (tenant : String) (g : Gate) : Type 0 where
  pub used : ℕ
  pub limit : lookup tenant g.service.quotas ≡ some (pos q)
  pub counted : lookup_or (pos 0) tenant g.service.tenant_invocations ≡ pos used
  pub bound : used + count_by tenant_of tenant g.flights < q + k
  pub crowd : length g.flights ≤ k

lookup-count_up :
    (k j : String) (m : GoMap ℤ)
    → lookup_or (pos 0) j (count_up k m)
      ≡ (if k == j then increment (lookup_or (pos 0) k m) else lookup_or (pos 0) j m)
unfolding count_up
lookup-count_up k j m = ground (arith, lookup-insert k j (increment (lookup_or (pos 0) k m)) m)

-- What was admitted had room under its quota.
admitted_room :
    (env : Env) (capability : String) (req : InvokeRequest) (actor : String) (p : Principal)
    (s : Service) (t : Ticket)
    → admit env capability req actor p s ≡ admitted t
    → is_exhausted s (tenant_of t) ≡ false
admitted_room env capability req actor p s t h =
    let (head, _, _, checked) = admit_passed env capability req actor p s _ h (λ e. cc) in
    let (_, _, _, room, is_t) =
      check-admitted head (named capability req) req actor p s t checked in
    ap (λ (u : Ticket). is_exhausted s (tenant_of u)) is_t ∙ room

used-lt-quota :
    (s : Service) (tenant : String) {q used : ℕ}
    → is_exhausted s tenant ≡ false
    → lookup tenant s.quotas ≡ some (pos q)
    → lookup_or (pos 0) tenant s.tenant_invocations ≡ pos used
    → used < q
unfolding is_exhausted
used-lt-quota s tenant room limit counted = ground arith

module _ (k q : ℕ) (tenant : String) where
  enter-IsBounded :
      (g : Gate) (t : Ticket)
      → length g.flights < k
      → is_exhausted g.service (tenant_of t) ≡ false
      → IsBounded k q tenant g
      → IsBounded k q tenant (record g { flights = t ∷ g.flights })
  enter-IsBounded g t room free b = elim (eq_cases (tenant_of t) tenant) [
    | inl same ↦ record {
      used = b.used;
      limit = b.limit;
      counted = b.counted;
      bound = ground (
        arith,
        used-lt-quota g.service tenant (ap (is_exhausted g.service) (sym same) ∙ free) b.limit
            b.counted,
        count_by-le-length tenant_of tenant g.flights,
      );
      crowd = omega arith;
    }
    | inr differs ↦ record {
      used = b.used;
      limit = b.limit;
      counted = b.counted;
      bound = ground (arith, b.bound);
      crowd = omega arith;
    }
  ]

  -- Taking a ticket out of the flights.
  count-leave :
      (before : List Ticket) (t : Ticket) (after : List Ticket)
      → count_by tenant_of tenant (before ++ t ∷ after)
        ≡ count_by tenant_of tenant (before ++ after) + (if tenant_of t == tenant then 1 else 0)
  count-leave before t after = ground (
    arith,
    count_by-append tenant_of tenant before (t ∷ after),
    count_by-append tenant_of tenant before after,
  )

  length-leave :
      (before : List Ticket) (t : Ticket) (after : List Ticket)
      → length (before ++ t ∷ after) ≡ suc (length (before ++ after))
  length-leave before t after =
      omega (arith, length-append before (t ∷ after), length-append before after)

  pub counted_same :
      (j : String) (m : GoMap ℤ) {used : ℕ}
      → j ≡ tenant
      → lookup_or (pos 0) tenant m ≡ pos used
      → used < max_int64
      → lookup_or (pos 0) tenant (count_up j m) ≡ pos (used + 1)
  counted_same j m {used} same counted small =
      ground (arith, lookup-count_up j tenant m, eq_iff j tenant, increment-pos used small)

  counted_other :
      (j : String) (m : GoMap ℤ) {used : ℕ}
      → (j == tenant) ≡ false
      → lookup_or (pos 0) tenant m ≡ pos used
      → lookup_or (pos 0) tenant (count_up j m) ≡ pos used
  counted_other j m differs counted = ground (arith, lookup-count_up j tenant m)

  leave-IsBounded :
      (g : Gate) (env : Env) (expired : Bool) (before : List Ticket) (t : Ticket)
      (after : List Ticket)
      → q + k ≤ max_int64
      → g.flights ≡ before ++ t ∷ after
      → IsBounded k q tenant g
      → IsBounded k q tenant
          (record { service = (finish env expired t g.service).0; flights = before ++ after })
  unfolding finish
  leave-IsBounded g env true before t after small e b = record {
    used = b.used;
    limit = unfold record_error in b.limit;
    counted = unfold record_error in b.counted;
    bound = ground (arith, b.bound, count-leave before t after, ap (count_by tenant_of tenant) e);
    crowd = omega (arith, b.crowd, length-leave before t after, ap length e);
  }
  leave-IsBounded g env false before t after small e b = elim (eq_cases (tenant_of t) tenant) [
    | inl same ↦ record {
      used = b.used + 1;
      limit = unfold commit in b.limit;
      counted =
          unfold commit in
          counted_same (tenant_of t) g.service.tenant_invocations same b.counted (
            ground (
              arith,
              b.bound,
              count-leave before t after,
              ap (count_by tenant_of tenant) e,
              eq_iff (tenant_of t) tenant,
            ));
      bound = ground (
        arith,
        b.bound,
        count-leave before t after,
        ap (count_by tenant_of tenant) e,
        eq_iff (tenant_of t) tenant,
      );
      crowd = omega (arith, b.crowd, length-leave before t after, ap length e);
    }
    | inr differs ↦ record {
      used = b.used;
      limit = unfold commit in b.limit;
      counted =
          unfold commit in
          counted_other (tenant_of t) g.service.tenant_invocations differs b.counted;
      bound = ground (arith, b.bound, count-leave before t after, ap (count_by tenant_of tenant) e);
      crowd = omega (arith, b.crowd, length-leave before t after, ap length e);
    }
  ]

  Step-IsBounded :
      {g h : Gate}
      → q + k ≤ max_int64
      → Step k g h
      → IsBounded k q tenant g
      → IsBounded k q tenant h
  Step-IsBounded {g} small (enter env capability req actor p t room was) b =
      enter-IsBounded g t room (admitted_room env capability req actor p g.service t was) b
  Step-IsBounded {g} small (leave env expired before t after e) b =
      leave-IsBounded g env expired before t after small e b
  Step-IsBounded small (other s quotas counts) b = record {
    used = b.used;
    limit = rw quotas b.limit;
    counted = rw counts b.counted;
    bound = b.bound;
    crowd = b.crowd;
  }

  -- However many requests come and go, at most `k` at a time: if a tenant has the quota `q`, and its
  -- count with what is under way for it is below `q + k`, it stays so, where `q + k` fits an `int64`.
  pub race-IsBounded :
      {g h : Gate}
      → q + k ≤ max_int64
      → IsBounded k q tenant g
      → Reach k g h
      → IsBounded k q tenant h
  race-IsBounded small b here = b
  race-IsBounded small b (next r st) = Step-IsBounded small st (race-IsBounded small b r)
