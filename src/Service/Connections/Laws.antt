-- ===== src/Service/Connections/Laws.antt =====
-- The view of the connections: what it lists, in which order, and what its summary counts.
use model_interface_gateway.Base.{
  ℕ, ◌+◌, String, ◌≡◌, ◌≢◌, ◌⊎◌, ◌++◌, Bool, refl, sym, ap, ◌∙◌, inl, inr, true, none, some, List,
  [], ◌∷◌, arith, ◌==◌, eq_iff, eq_cases, ne_of_eq-false, Bool-cases, if◌then◌else◌, All, length,
  count_by,
}
use mathlib.Core.List.{Perm, perm_middle}
use mathlib.Core.List.Perm
use model_interface_gateway.Text.{trim_space}
use model_interface_gateway.Base.Int.{ℤ, pos, increment, to_int64, increment-to_int64}
use model_interface_gateway.Base.GoMap.{
  GoMap, lookup, lookup_or, insert, values, lookup-insert, lookup-remove,
}
use model_interface_gateway.Base.Sort.{
  sort_by, sort_by-count_by, sort_by-perm, sort_by-All, sort_by-length, sort_by-IsSorted, IsSorted,
}
use model_interface_gateway.Text.Order.{str_lt_asymm, str_le_trans}
use model_interface_gateway.Types.{ConnectionSnapshot, ConnectionSummary, ConnectionsResponse, Env}
use model_interface_gateway.Service.{Service}
use model_interface_gateway.Service.Invoke.{count_up}
use model_interface_gateway.Service.Connections.{
  ConnectionFilters, completed, register_connection, unregister, is_listed, listed, tally,
  summarise, trimmed, by_start, connections, no_connections,
}

-- A connection that is registered is there under its identifier until its function is called, and then
-- it is not; the other connections stay as they are.
pub register-unregister :
    (env : Env) (conn : ConnectionSnapshot) (s : Service) (id : String)
    → (lookup id (register_connection env conn s).0.connections ≡ (
        if (register_connection env conn s).1 == id
        then some (completed env conn)
        else lookup id s.connections))
      × (lookup id
            (unregister
              (register_connection env conn s).1
              (register_connection env conn s).0).connections
          ≡ (if (register_connection env conn s).1 == id then none else lookup id s.connections))
unfolding register_connection unregister
register-unregister env conn s id =
    let made = completed env conn in
    let there = lookup-insert made.id id made s.connections in
    (there, ground (arith, there, lookup-remove made.id id (insert made.id made s.connections)))

zero_count : (k : String) → lookup_or (pos 0) k [] ≡ to_int64 0
unfolding lookup to_int64
zero_count k = refl

none_yet : pos 0 ≡ to_int64 0
unfolding to_int64
none_yet = refl

from_zero : (n : ℕ) → to_int64 (0 + n) ≡ to_int64 n
from_zero n = ap to_int64 (omega arith)

module _ (key : ConnectionSnapshot → String) where
  -- One map of the summary.
  tallies : GoMap ℤ → List ConnectionSnapshot → GoMap ℤ
  tallies m [] = m
  tallies m (c ∷ cs) = tallies (tally (key c) m) cs

  lookup-tally :
      (j k : String) (m : GoMap ℤ)
      → k ≢ ""
      → lookup_or (pos 0) k (tally j m)
        ≡ (if j == k then increment (lookup_or (pos 0) k m) else lookup_or (pos 0) k m)
  unfolding count_up
  lookup-tally j k m h =
      ground
        (arith, eq_iff j "", eq_iff j k, lookup-insert j k (increment (lookup_or (pos 0) j m)) m)

  lookup-tallies :
      (k : String) (n : ℕ) (m : GoMap ℤ) (cs : List ConnectionSnapshot)
      → k ≢ ""
      → lookup_or (pos 0) k m ≡ to_int64 n
      → lookup_or (pos 0) k (tallies m cs) ≡ to_int64 (n + count_by key k cs)
  unfolding tallies
  lookup-tallies k n m [] named h = h ∙ ap to_int64 (omega arith)
  lookup-tallies k n m (c ∷ cs) named h = elim (eq_cases (key c) k) [
    | inl same ↦
        let start : lookup_or (pos 0) k (tally (key c) m) ≡ to_int64 (n + 1) =
          ground (arith, lookup-tally (key c) k m named, eq_iff (key c) k, increment-to_int64 n) in
        ground (arith, eq_iff (key c) k, lookup-tallies k (n + 1) (tally (key c) m) cs named start)
    | inr other ↦ ground (
      arith,
      lookup-tallies k n (tally (key c) m) cs named
          (ground (arith, lookup-tally (key c) k m named)),
    )
  ]

  tallies-empty :
      (m : GoMap ℤ) (cs : List ConnectionSnapshot)
      → lookup_or (pos 0) "" (tallies m cs) ≡ lookup_or (pos 0) "" m
  unfolding tallies count_up
  tallies-empty m [] = refl
  tallies-empty m (c ∷ cs) = ground (
    arith,
    eq_iff (key c) "",
    tallies-empty (tally (key c) m) cs,
    lookup-insert (key c) "" (increment (lookup_or (pos 0) (key c) m)) m,
  )

  -- Nothing is counted under the empty name.
  abbrev pub counted : String → List ConnectionSnapshot → ℤ
  counted k cs = if k == "" then pos 0 else to_int64 (count_by key k cs)

  lookup-counted :
      (k : String) (cs : List ConnectionSnapshot)
      → lookup_or (pos 0) k (tallies [] cs) ≡ counted k cs
  unfolding lookup
  lookup-counted k cs = elim (eq_cases k "") [
    | inl empty ↦ rw empty (tallies-empty [] cs)
    | inr named ↦
        rw named (lookup-tallies k 0 [] cs (ne_of_eq-false k "" named) (zero_count k) ∙ from_zero _)
  ]

-- The summary counts the connections: all of them, and those under each name but the empty one.
pub record IsSummary (sum : ConnectionSummary) (cs : List ConnectionSnapshot) : Type 0 where
  pub total : sum.total ≡ to_int64 (length cs)
  pub by_protocol :
      (k : String) → lookup_or (pos 0) k sum.by_protocol ≡ counted (λ c. c.protocol) k cs
  pub by_kind : (k : String) → lookup_or (pos 0) k sum.by_kind ≡ counted (λ c. c.kind) k cs
  pub by_tenant : (k : String) → lookup_or (pos 0) k sum.by_tenant ≡ counted (λ c. c.tenant_id) k cs

total-summarise :
    (n : ℕ) (sum : ConnectionSummary) (cs : List ConnectionSnapshot)
    → sum.total ≡ to_int64 n
    → (summarise sum cs).total ≡ to_int64 (n + length cs)
unfolding summarise
total-summarise n sum [] h = h ∙ ap to_int64 (omega arith)
total-summarise n sum (c ∷ cs) h =
    total-summarise (n + 1) _ cs (ap increment h ∙ increment-to_int64 n) ∙ ap to_int64 (omega arith)

maps-summarise :
    (cs : List ConnectionSnapshot) (sum : ConnectionSummary)
    → ((summarise sum cs).by_protocol ≡ tallies (λ c. c.protocol) sum.by_protocol cs)
      × ((summarise sum cs).by_kind ≡ tallies (λ c. c.kind) sum.by_kind cs)
      × ((summarise sum cs).by_tenant ≡ tallies (λ c. c.tenant_id) sum.by_tenant cs)
unfolding summarise tallies
maps-summarise [] sum = (refl, refl, refl)
maps-summarise (c ∷ cs) sum = maps-summarise cs _

-- A filter that is not empty after it is trimmed is the value.
abbrev pub Passes : String → String → Type 0
Passes filter value = (trim_space filter ≡ "") ⊎ (value ≡ trim_space filter)

-- The connection passes the three filters.
abbrev pub Matches : ConnectionFilters → ConnectionSnapshot → Type 0
Matches f c = Passes f.tenant_id c.tenant_id × Passes f.kind c.kind × Passes f.protocol c.protocol

is_listed-Matches :
    (f : ConnectionFilters) (c : ConnectionSnapshot) → is_listed (trimmed f) c ≡ true → Matches f c
unfolding is_listed
is_listed-Matches f c h = ground (
  arith,
  eq_iff (trim_space f.tenant_id) "",
  eq_iff c.tenant_id (trim_space f.tenant_id),
  eq_iff (trim_space f.kind) "",
  eq_iff c.kind (trim_space f.kind),
  eq_iff (trim_space f.protocol) "",
  eq_iff c.protocol (trim_space f.protocol),
)

Matches-is_listed :
    (f : ConnectionFilters) (c : ConnectionSnapshot) → Matches f c → is_listed (trimmed f) c ≡ true
unfolding is_listed
Matches-is_listed f c h = ground (
  arith,
  eq_iff (trim_space f.tenant_id) "",
  eq_iff c.tenant_id (trim_space f.tenant_id),
  eq_iff (trim_space f.kind) "",
  eq_iff c.kind (trim_space f.kind),
  eq_iff (trim_space f.protocol) "",
  eq_iff c.protocol (trim_space f.protocol),
)

-- What the view shows of the connections that are open, and what it leaves out.
pub record IsView (f : ConnectionFilters) (s : Service) (resp : ConnectionsResponse) : Type 0 where
  pub left_out : List ConnectionSnapshot
  pub every : Perm (resp.connections ++ left_out) (values s.connections)
  pub matching : All (Matches f) resp.connections
  pub all_left_out : All (λ c. ¬ Matches f c) left_out
  pub latest_first : IsSorted by_start resp.connections
  pub summed : IsSummary resp.summary resp.connections

-- The connections that the loop passes over.
unlisted : ConnectionFilters → List ConnectionSnapshot → List ConnectionSnapshot
unlisted f [] = []
unlisted f (c ∷ cs) = let rest = unlisted f cs in if is_listed f c then rest else c ∷ rest

module _ (f : ConnectionFilters) where
  All-listed : (cs : List ConnectionSnapshot) → All (Matches f) (listed (trimmed f) cs)
  unfolding listed
  All-listed [] = tt
  All-listed (c ∷ cs) = elim (Bool-cases (is_listed (trimmed f) c)) [
    | inl kept ↦ rw kept (is_listed-Matches f c kept, All-listed cs)
    | inr passed ↦ rw passed (All-listed cs)
  ]

  All-unlisted : (cs : List ConnectionSnapshot) → All (λ c. ¬ Matches f c) (unlisted (trimmed f) cs)
  unfolding unlisted
  All-unlisted [] = tt
  All-unlisted (c ∷ cs) = elim (Bool-cases (is_listed (trimmed f) c)) [
    | inl kept ↦ rw kept (All-unlisted cs)
    | inr passed ↦
        rw passed ((λ fits. let kept = Matches-is_listed f c fits in cc), All-unlisted cs)
  ]

listed-perm :
    (f : ConnectionFilters) (cs : List ConnectionSnapshot) → Perm (listed f cs ++ unlisted f cs) cs
unfolding listed unlisted
listed-perm f [] = Perm.nil
listed-perm f (c ∷ cs) = elim (Bool-cases (is_listed f c)) [
  | inl kept ↦ rw kept (Perm.cons c (listed-perm f cs))
  | inr passed ↦
      rw passed
        (Perm.trans (perm_middle (listed f cs) (unlisted f cs)) (Perm.cons c (listed-perm f cs)))
]

counted-sort :
    (key : ConnectionSnapshot → String) (k : String) (cs : List ConnectionSnapshot)
    → counted key k (sort_by by_start cs) ≡ counted key k cs
counted-sort key k cs =
    ap (λ n. if k == "" then pos 0 else to_int64 n) (sort_by-count_by by_start key k cs)

summarise-IsSummary :
    (active : Bool) (cs : List ConnectionSnapshot)
    → IsSummary (summarise (no_connections active) cs) (sort_by by_start cs)
summarise-IsSummary active cs =
    let maps = maps-summarise cs (no_connections active) in
    record {
      total =
          total-summarise 0 (no_connections active) cs none_yet
          ∙ from_zero _
          ∙ ap to_int64 (sym (sort_by-length by_start cs));
      by_protocol =
          λ k. ap (lookup_or (pos 0) k) maps.0 ∙ lookup-counted _ k cs ∙ sym (counted-sort _ k cs);
      by_kind =
          λ k. ap (lookup_or (pos 0) k) maps.1 ∙ lookup-counted _ k cs ∙ sym (counted-sort _ k cs);
      by_tenant =
          λ k. ap (lookup_or (pos 0) k) maps.2 ∙ lookup-counted _ k cs ∙ sym (counted-sort _ k cs);
    }

-- The view lists exactly the open connections that have the tenant, the kind and the protocol of the
-- filters, as far as these are not empty once trimmed, each as often as it is there; latest first; and
-- its summary counts what is listed: all of it, and under each protocol, kind and tenant.
pub connections-IsView :
    (env : Env) (f : ConnectionFilters) (s : Service) → IsView f s (connections env f s)
unfolding connections
connections-IsView env f s =
    let open_now = values s.connections in
    let kept = listed (trimmed f) open_now in
    record {
      left_out = unlisted (trimmed f) open_now;
      every =
          Perm.trans
            (Perm.append_right (unlisted (trimmed f) open_now) (sort_by-perm by_start kept))
            (listed-perm (trimmed f) open_now);
      matching = sort_by-All by_start _ kept (All-listed f open_now);
      all_left_out = All-unlisted f open_now;
      latest_first =
          sort_by-IsSorted by_start (λ a b. str_lt_asymm b.started_at a.started_at)
            (λ a b c h k. str_le_trans c.started_at b.started_at a.started_at k h) kept;
      summed = summarise-IsSummary s.nats_binding kept;
    }
