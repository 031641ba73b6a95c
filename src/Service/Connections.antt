-- ===== src/Service/Connections.antt =====
-- core/pkg/mig/connections.go: the connections that are open, and the view of them.
pub mod Laws
use model_interface_gateway.Base.{
  String, Bool, true, false, not, ◌&&◌, ◌||◌, List, [], ◌∷◌, Option, none, some, ◌==◌,
  if◌then◌else◌,
}
use model_interface_gateway.Base.Int.{ℤ, pos, increment}
use model_interface_gateway.Base.GoMap.{GoMap, lookup, insert, remove, values}
use model_interface_gateway.Base.Sort.{sort_by}
use model_interface_gateway.Text.{trim_space, str_lt}
use model_interface_gateway.Types.{
  ConnectionSnapshot, ConnectionSummary, ConnectionsResponse, Env, short_id, entries,
}
use model_interface_gateway.Header.{or_default}
use model_interface_gateway.Service.{Service}
use model_interface_gateway.Service.Invoke.{count_up}

pub record ConnectionFilters : Type 0 where
  pub tenant_id : String
  pub kind : String
  pub protocol : String

-- The connection with its identifier, its time and its meta map filled in.
abbrev pub completed : Env → ConnectionSnapshot → ConnectionSnapshot
completed env conn = record conn {
  id = or_default conn.id (short_id "conn-" env.for_entry);
  started_at = or_default conn.started_at env.now;
  meta = some (entries conn.meta);
}

-- `RegisterConnection`: the state, and the identifier. The function that it returns is `unregister`.
unfoldable pub register_connection : Env → ConnectionSnapshot → Service → Service × String
register_connection env conn s =
    let made = completed env conn in
    (record s { connections = insert made.id made s.connections }, made.id)

unfoldable pub unregister : String → Service → Service
unregister id s = record s { connections = remove id s.connections }

-- A filter that is set and differs.
abbrev excludes : String → String → Bool
excludes filter value = not (filter == "") && not (value == filter)

unfoldable pub is_listed : ConnectionFilters → ConnectionSnapshot → Bool
is_listed f c =
    not (excludes f.tenant_id c.tenant_id)
    && (not (excludes f.kind c.kind) && not (excludes f.protocol c.protocol))

unfoldable pub listed : ConnectionFilters → List ConnectionSnapshot → List ConnectionSnapshot
listed f [] = []
listed f (c ∷ cs) = let rest = listed f cs in if is_listed f c then c ∷ rest else rest

-- `m[k]++` for a key that is not empty.
abbrev pub tally : String → GoMap ℤ → GoMap ℤ
tally k m = if k == "" then m else count_up k m

-- The summary of the connections that the loop keeps.
unfoldable pub summarise : ConnectionSummary → List ConnectionSnapshot → ConnectionSummary
unfolding count_up
summarise sum [] = sum
summarise sum (c ∷ cs) =
    summarise
      (record sum {
        total = increment sum.total;
        by_protocol = tally c.protocol sum.by_protocol;
        by_kind = tally c.kind sum.by_kind;
        by_tenant = tally c.tenant_id sum.by_tenant;
      })
      cs

abbrev pub no_connections : Bool → ConnectionSummary
no_connections active = record {
  total = pos 0;
  by_protocol = [];
  by_kind = [];
  by_tenant = [];
  nats_binding_active = active;
}

abbrev pub trimmed : ConnectionFilters → ConnectionFilters
trimmed f = record {
  tenant_id = trim_space f.tenant_id;
  kind = trim_space f.kind;
  protocol = trim_space f.protocol;
}

-- Latest first.
abbrev pub by_start : ConnectionSnapshot → ConnectionSnapshot → Bool
by_start a b = str_lt b.started_at a.started_at

-- `Connections`
unfoldable pub connections : Env → ConnectionFilters → Service → ConnectionsResponse
connections env filters s =
    let f = trimmed filters in
    let kept = listed f (values s.connections) in
    record {
      generated_at = env.now;
      summary = summarise (no_connections s.nats_binding) kept;
      connections = sort_by by_start kept;
      filter_tenant = f.tenant_id;
      filter_kind = f.kind;
      filter_proto = f.protocol;
    }
