-- ===== src/Service/Cloud.antt =====
-- service.go: organisations, tenants and gateways.
pub mod Laws
use model_interface_gateway.Base.{String, ◌||◌, Option, none, some, ok, err, ◌==◌, if◌then◌else◌}
use model_interface_gateway.Base.GoMap.{lookup, insert}
use model_interface_gateway.Types.{MigError, not_found, Org, Tenant, Gateway, Env, short_id}
use model_interface_gateway.Header.{or_default}
use model_interface_gateway.Auth.{refusal}
use model_interface_gateway.Service.{Service, Outcome, invalid}

unfoldable pub create_org : Env → Org → Service → Outcome Org
create_org env org s =
    if org.name == ""
    then (s, err (invalid "name is required"))
    else let made = record org { id = or_default org.id (short_id "org-" env.for_entry) } in
      (record s { orgs = insert made.id made s.orgs }, ok made)

unfoldable pub create_tenant : Env → Tenant → Service → Outcome Tenant
create_tenant env tenant s =
    if tenant.name == "" || tenant.org_id == ""
    then (s, err (invalid "name and org_id are required"))
    else let made = record tenant {
      id = or_default tenant.id (short_id "tenant-" env.for_entry);
    } in
      elim (lookup made.org_id s.orgs) [
        | none ↦ (s, err (refusal not_found "org not found"))
        | some _ ↦ (record s { tenants = insert made.id made s.tenants }, ok made)
      ]

unfoldable pub create_gateway : Env → Gateway → Service → Outcome Gateway
create_gateway env gw s =
    if gw.tenant_id == "" || (gw.region == "" || gw.binding == "")
    then (s, err (invalid "tenant_id, region, and binding are required"))
    else let made = record gw { id = or_default gw.id (short_id "gw-" env.for_entry) } in
      elim (lookup made.tenant_id s.tenants) [
        | none ↦ (s, err (refusal not_found "tenant not found"))
        | some _ ↦ (record s { gateways = insert made.id made s.gateways }, ok made)
      ]
