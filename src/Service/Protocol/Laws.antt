-- ===== src/Service/Protocol/Laws.antt =====
-- What `Discover` shows, and what `Cancel` does to an invocation.
use model_interface_gateway.Base.{
  String, ◌≡◌, ◌⊎◌, inl, inr, true, eq_iff, List, [], ◌∷◌, ◌++◌, ok, arith, Bool-cases,
  Result-cases, if◌then◌else◌, All,
}
use mathlib.Core.List.{Perm, perm_middle}
use mathlib.Core.List.Perm
use model_interface_gateway.Text.{contains}
use model_interface_gateway.Base.GoMap.{values}
use model_interface_gateway.Base.Sort.{
  sort_by, sort_by-perm, sort_by-All, sort_by-IsSorted, IsSorted,
}
use model_interface_gateway.Text.Order.{str_lt_asymm, str_le_trans}
use model_interface_gateway.Types.{DiscoverRequest, DiscoverResponse, CapabilityDescriptor, Env}
use model_interface_gateway.Header.{open_header}
use model_interface_gateway.Auth.{Principal, has_any_scope}
use model_interface_gateway.Service.{Service}
use model_interface_gateway.Service.Protocol.{is_shown, shown, by_id, discover}

pub by_id-IsSorted : (cs : List CapabilityDescriptor) → IsSorted by_id (sort_by by_id cs)
by_id-IsSorted cs =
    sort_by-IsSorted by_id (λ a b. str_lt_asymm a.id b.id) (λ a b c. str_le_trans a.id b.id c.id) cs

-- The identifier of the capability contains the query, if there is one, and the principal passes the
-- scopes of the capability.
abbrev pub Shows : String → Principal → CapabilityDescriptor → Type 0
Shows query p c =
    ((query ≡ "") ⊎ (contains c.id query ≡ true)) × (has_any_scope p c.auth_scopes ≡ true)

is_shown-Shows :
    (query : String) (p : Principal) (c : CapabilityDescriptor)
    → is_shown query p c ≡ true
    → Shows query p c
unfolding is_shown
is_shown-Shows query p c h = (ground (arith, eq_iff query ""), ground arith)

Shows-is_shown :
    (query : String) (p : Principal) (c : CapabilityDescriptor)
    → Shows query p c
    → is_shown query p c ≡ true
unfolding is_shown
Shows-is_shown query p c (inl any, may) = ground (arith, eq_iff query "")
Shows-is_shown query p c (inr found, may) = ground arith

-- What a discovery shows, and what it hides.
pub record IsDiscovered (req : DiscoverRequest) (p : Principal) (s s' : Service)
    (resp : DiscoverResponse) : Type 0 where
  pub hidden : List CapabilityDescriptor
  pub sorted : IsSorted by_id resp.capabilities
  pub all_shown : All (Shows req.query p) resp.capabilities
  pub all_hidden : All (λ c. ¬ Shows req.query p c) hidden
  pub every : Perm (resp.capabilities ++ hidden) (values s.capabilities)
  pub unchanged : s' ≡ s

-- The capabilities that the loop passes over.
passed_over : String → Principal → List CapabilityDescriptor → List CapabilityDescriptor
passed_over query p [] = []
passed_over query p (c ∷ cs) =
    let rest = passed_over query p cs in if is_shown query p c then rest else c ∷ rest

module _ (query : String) (p : Principal) where
  All-shown : (cs : List CapabilityDescriptor) → All (Shows query p) (shown query p cs)
  unfolding shown
  All-shown [] = tt
  All-shown (c ∷ cs) = elim (Bool-cases (is_shown query p c)) [
    | inl seen ↦ rw seen (is_shown-Shows query p c seen, All-shown cs)
    | inr unseen ↦ rw unseen (All-shown cs)
  ]

  All-passed_over :
      (cs : List CapabilityDescriptor) → All (λ c. ¬ Shows query p c) (passed_over query p cs)
  unfolding passed_over
  All-passed_over [] = tt
  All-passed_over (c ∷ cs) = elim (Bool-cases (is_shown query p c)) [
    | inl seen ↦ rw seen (All-passed_over cs)
    | inr unseen ↦
        rw unseen ((λ may. let seen = Shows-is_shown query p c may in cc), All-passed_over cs)
  ]

  shown-perm :
      (cs : List CapabilityDescriptor) → Perm (shown query p cs ++ passed_over query p cs) cs
  unfolding shown passed_over
  shown-perm [] = Perm.nil
  shown-perm (c ∷ cs) = elim (Bool-cases (is_shown query p c)) [
    | inl seen ↦ rw seen (Perm.cons c (shown-perm cs))
    | inr unseen ↦ rw unseen (
        Perm.trans (perm_middle (shown query p cs) (passed_over query p cs))
          (Perm.cons c (shown-perm cs)))
  ]

  discovered :
      (s : Service) (cs : List CapabilityDescriptor)
      → Perm (sort_by by_id (shown query p cs) ++ passed_over query p cs) cs
  discovered s cs =
      Perm.trans
        (Perm.append_right (passed_over query p cs) (sort_by-perm by_id (shown query p cs)))
        (shown-perm cs)

-- A discovery lists, in the order of their identifiers, exactly the capabilities that match the query
-- and that the principal may use, each as often as it is registered, and changes nothing.
pub discover-IsDiscovered :
    (env : Env) (req : DiscoverRequest) (p : Principal) (s s' : Service) (resp : DiscoverResponse)
    → discover env req p s ≡ (s', ok resp)
    → IsDiscovered req p s s' resp
unfolding discover
discover-IsDiscovered env req p s s' resp h = elim (Result-cases (open_header env req.header)) [
  | inl (e, refused) ↦ absurd (ground arith)
  | inr (head, opened) ↦
      let same : sort_by by_id (shown req.query p (values s.capabilities)) ≡ resp.capabilities =
        ground arith in
      record {
        hidden = passed_over req.query p (values s.capabilities);
        sorted = rw (← same) (by_id-IsSorted _);
        all_shown =
            rw (← same) (sort_by-All by_id _ _ (All-shown req.query p (values s.capabilities)));
        all_hidden = All-passed_over req.query p (values s.capabilities);
        every = rw (← same) (discovered req.query p s (values s.capabilities));
        unchanged = ground arith;
      }
]
