-- ===== src/Service/Cloud/Laws.antt =====
-- Organisations, tenants and gateways: what one names is there.
use model_interface_gateway.Base.{
  String, ◌≡◌, ◌≢◌, refl, sym, ◌∙◌, ◌||◌, Bool-cases, inl, inr, Option-cases, none, some, arith,
  ◌==◌,
}
use mathlib.Core.Option.{some-injective}
use mathlib.Core.Path.{subst}
use model_interface_gateway.Base.GoMap.{GoMap, lookup, insert, lookup-insert}
use model_interface_gateway.Types.{Org, Tenant, Gateway, Env}
use model_interface_gateway.Service.{Service}
use model_interface_gateway.Service.Cloud.{create_org, create_tenant, create_gateway}

-- Every tenant's organisation and every gateway's tenant is in its map.
pub record IsLinked (s : Service) : Type 0 where
  pub tenants :
      (id : String) (t : Tenant) → lookup id s.tenants ≡ some t → lookup t.org_id s.orgs ≢ none
  pub gateways :
      (id : String) (g : Gateway)
      → lookup id s.gateways ≡ some g
      → lookup g.tenant_id s.tenants ≢ none

module _ {ℓ} {V : Type ℓ} where
  -- A write removes nothing.
  insert-keeps :
      (k j : String) (v : V) (m : GoMap V) → lookup j m ≢ none → lookup j (insert k v m) ≢ none
  insert-keeps k j v m h = ground (arith, lookup-insert k j v m)

  -- What holds of every entry still does after a write of which it holds.
  insert-all {κ} :
      (P : V → Type κ) (k : String) (v : V) (m : GoMap V)
      → P v
      → ((id : String) (w : V) → lookup id m ≡ some w → P w)
      → (id : String) (w : V) → lookup id (insert k v m) ≡ some w
      → P w
  insert-all P k v m new old id w h = elim (Bool-cases (k == id)) [
    | inl same ↦ subst P (some-injective _ _ (sym (lookup-insert k id v m ∙ rw same refl) ∙ h)) new
    | inr other ↦ old id w (sym (lookup-insert k id v m ∙ rw other refl) ∙ h)
  ]

present {ℓ} :
    {V : Type ℓ} (k : String) (m : GoMap V) {v : V} → lookup k m ≡ some v → lookup k m ≢ none
present k m h = ground arith

module _ (env : Env) (s : Service) (h : IsLinked s) where
  pub create_org-IsLinked : (org : Org) → IsLinked (create_org env org s).0
  unfolding create_org
  create_org-IsLinked org = elim (Bool-cases (org.name == "")) [
    | inl unnamed ↦ rw (unnamed, create_org) h
    | inr named ↦
        rw (named, create_org)
          (record {
            tenants = λ id t e. insert-keeps _ t.org_id _ s.orgs (h.tenants id t e);
            gateways = h.gateways;
          })
  ]

  pub create_tenant-IsLinked : (tenant : Tenant) → IsLinked (create_tenant env tenant s).0
  unfolding create_tenant
  create_tenant-IsLinked tenant = elim (Bool-cases (tenant.name == "" || tenant.org_id == "")) [
    | inl incomplete ↦ rw (incomplete, create_tenant) h
    | inr complete ↦ elim (Option-cases (lookup tenant.org_id s.orgs)) [
      | inl unknown ↦ rw (complete, unknown, create_tenant) h
      | inr (org, known) ↦
          rw (complete, known, create_tenant)
            (record {
              tenants =
                  insert-all (λ t. lookup t.org_id s.orgs ≢ none) _ _ s.tenants
                    (present tenant.org_id s.orgs known) h.tenants;
              gateways = λ id g e. insert-keeps _ g.tenant_id _ s.tenants (h.gateways id g e);
            })
    ]
  ]

  pub create_gateway-IsLinked : (gw : Gateway) → IsLinked (create_gateway env gw s).0
  unfolding create_gateway
  create_gateway-IsLinked gw =
      elim (Bool-cases (gw.tenant_id == "" || (gw.region == "" || gw.binding == ""))) [
        | inl incomplete ↦ rw (incomplete, create_gateway) h
        | inr complete ↦ elim (Option-cases (lookup gw.tenant_id s.tenants)) [
          | inl unknown ↦ rw (complete, unknown, create_gateway) h
          | inr (tenant, known) ↦
              rw (complete, known, create_gateway)
                (record {
                  tenants = h.tenants;
                  gateways =
                      insert-all (λ g. lookup g.tenant_id s.tenants ≢ none) _ _ s.gateways
                        (present gw.tenant_id s.tenants known) h.gateways;
                })
        ]
      ]
