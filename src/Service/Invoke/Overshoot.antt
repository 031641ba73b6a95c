-- ===== src/Service/Invoke/Overshoot.antt =====
-- The bound of `Race` is reached: requests that overlap all pass the test of the quota before any of
-- them is counted.
use model_interface_gateway.Base.{
  ℕ, zero, suc, ◌+◌, ◌≤◌, String, ◌≡◌, refl, ap, false, List, [], ◌∷◌, length, arith,
}
use model_interface_gateway.Base.Int.{pos, max_int64}
use model_interface_gateway.Base.GoMap.{lookup_or}
use model_interface_gateway.Types.{Env, InvokeRequest}
use model_interface_gateway.Auth.{Principal}
use model_interface_gateway.Service.{Service}
use model_interface_gateway.Service.Invoke.{Ticket, admitted, admit, commit, finish}
use model_interface_gateway.Service.Invoke.Race.{
  Gate, Step, enter, leave, Reach, here, next, tenant_of, counted_same,
}

-- The bound is reached: `k` copies of one request enter before any of them leaves.
copies : ℕ → Ticket → List Ticket
copies zero t = []
copies (suc j) t = t ∷ copies j t

length-copies : (j : ℕ) (t : Ticket) → length (copies j t) ≡ j
unfolding copies
length-copies zero t = refl
length-copies (suc j) t = ap suc (length-copies j t)

commits : Env → Ticket → ℕ → Service → Service
commits env t zero s = s
commits env t (suc j) s = commits env t j (commit env t s)

module _ (k : ℕ) (env : Env) (t : Ticket) where
  enter_all :
      (s : Service) (capability : String) (req : InvokeRequest) (actor : String) (p : Principal)
      (j : ℕ)
      → admit env capability req actor p s ≡ admitted t
      → j ≤ k
      → Reach k
          (record { service = s; flights = [] })
          (record { service = s; flights = copies j t })
  unfolding copies
  enter_all s capability req actor p zero h le = here
  enter_all s capability req actor p (suc j) h le =
      next (enter_all s capability req actor p j h (omega arith))
        (enter env capability req actor p t (omega (arith, length-copies j t)) h)

  leave_one :
      (s : Service) (after : List Ticket)
      → Step k
          (record { service = s; flights = t ∷ after })
          (record { service = commit env t s; flights = after })
  unfolding finish
  leave_one s after = leave env false [] t after refl

  leave_all :
      (g : Gate) (s : Service) (j : ℕ)
      → Reach k g (record { service = s; flights = copies j t })
      → Reach k g (record { service = commits env t j s; flights = [] })
  unfolding copies commits
  leave_all g s zero r = r
  leave_all g s (suc j) r = leave_all g (commit env t s) j (next r (leave_one s (copies j t)))

  counted-commits :
      (s : Service) (j n : ℕ)
      → n + j ≤ max_int64
      → lookup_or (pos 0) (tenant_of t) s.tenant_invocations ≡ pos n
      → lookup_or (pos 0) (tenant_of t) (commits env t j s).tenant_invocations ≡ pos (n + j)
  unfolding commits
  counted-commits s zero n small h = ground arith
  counted-commits s (suc j) n small h = ground (
    arith,
    counted-commits (commit env t s) j (n + 1) (omega arith) (
        unfold commit in
        counted_same k 0 (tenant_of t) (tenant_of t) s.tenant_invocations refl h (omega arith)),
  )

  -- If a tenant's quota admits one more request, then `k` copies of it that overlap are all admitted
  -- and all counted.
  pub race_overshoots :
      (s : Service) (capability : String) (req : InvokeRequest) (actor : String) (p : Principal)
      (n : ℕ)
      → admit env capability req actor p s ≡ admitted t
      → lookup_or (pos 0) (tenant_of t) s.tenant_invocations ≡ pos n
      → n + k ≤ max_int64
      → (s' : Service) × Reach k
          (record { service = s; flights = [] })
          (record { service = s'; flights = [] })
        × (lookup_or (pos 0) (tenant_of t) s'.tenant_invocations ≡ pos (n + k))
  race_overshoots s capability req actor p n h counted small = (
    commits env t k s,
    leave_all _ s k (enter_all s capability req actor p k h (omega arith)),
    counted-commits s k n small counted,
  )
