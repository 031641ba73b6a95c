-- ===== src/Auth/Laws.antt =====
-- Who is let through, and for which tenant.
use model_interface_gateway.Base.{
  String, ◌≡◌, ◌≢◌, ◌⊎◌, ◌↔◌, inl, inr, true, false, none, some, ok, arith, eq_iff, Bool-cases,
  Option-cases,
}
use model_interface_gateway.Base.GoMap.{GoMap}
use model_interface_gateway.Text.{trim_space, has_prefix}
use model_interface_gateway.Types.{Value, MessageHeader}
use model_interface_gateway.Auth.Claims.{scopes_from_claims}
use model_interface_gateway.Auth.{
  Principal, AuthConfig, mode_jwt, Jwt, key_of, token_tenant, principal_of_claims, bearer_token,
  jwt_principal, principal_from_auth_headers, apply_principal_header,
}

-- What a principal of the mode "jwt" rests on.
pub record IsVouched (jwt : Jwt) (cfg : AuthConfig) (authorization tenant : String) (p : Principal)
    : Type 0 where
  pub authenticated : p.authenticated ≡ true
  pub algorithm : jwt.alg (bearer_token authorization) ≡ "HS256"
  pub signature : jwt.verifies (bearer_token authorization) cfg.jwt_secret ≡ true
  pub claims : GoMap Value
  pub parsed : jwt.parse (bearer_token authorization) (key_of cfg) ≡ some claims
  pub tenant_named : p.tenant_id ≡ token_tenant claims
  pub scopes_given : p.scopes ≡ scopes_from_claims claims
  pub named : p.tenant_id ≢ ""
  pub header : (trim_space tenant ≡ "") ⊎ (trim_space tenant ≡ p.tenant_id)
  pub demanded : (cfg.require_tenant ≡ false) ⊎ (trim_space tenant ≢ "")

key_of-ok :
    (cfg : AuthConfig) (alg : String) {key : String}
    → key_of cfg alg ≡ ok key
    → (alg ≡ "HS256") × (key ≡ cfg.jwt_secret)
unfolding key_of
key_of-ok cfg alg h = ground (arith, eq_iff alg "HS256")

principal_of_claims-ok :
    (cfg : AuthConfig) (tenant : String) (claims : GoMap Value) (p : Principal)
    → principal_of_claims cfg tenant claims ≡ ok p
    → (p.authenticated ≡ true)
      × (p.tenant_id ≡ token_tenant claims)
      × (p.scopes ≡ scopes_from_claims claims)
      × (p.tenant_id ≢ "")
      × ((tenant ≡ "") ⊎ (tenant ≡ p.tenant_id))
      × ((cfg.require_tenant ≡ false) ⊎ (tenant ≢ ""))
unfolding principal_of_claims
principal_of_claims-ok cfg tenant claims p h = (
  ground arith,
  ground arith,
  ground arith,
  ground (arith, eq_iff (token_tenant claims) ""),
  ground (arith, eq_iff tenant "", eq_iff tenant (token_tenant claims)),
  ground (arith, eq_iff tenant ""),
)

parsed-IsVouched :
    (jwt : Jwt) (cfg : AuthConfig) (authorization tenant : String) (p : Principal)
    {claims : GoMap Value}
    → jwt.parse (bearer_token authorization) (key_of cfg) ≡ some claims
    → principal_of_claims cfg (trim_space tenant) claims ≡ ok p
    → IsVouched jwt cfg authorization tenant p
parsed-IsVouched jwt cfg authorization tenant p parsed h =
    let (key, given, signed) = jwt.parse_sound _ _ _ parsed in
    let (alg, same) = key_of-ok cfg _ given in
    let (authenticated, tenant_named, scopes_given, named, header, demanded) =
      principal_of_claims-ok cfg (trim_space tenant) _ p h in
    record {
      authenticated = authenticated;
      algorithm = alg;
      signature = rw (← same) signed;
      claims = _;
      parsed = parsed;
      tenant_named = tenant_named;
      scopes_given = scopes_given;
      named = named;
      header = header;
      demanded = demanded;
    }

jwt_principal-IsVouched :
    (jwt : Jwt) (cfg : AuthConfig) (authorization tenant : String) (p : Principal)
    → jwt_principal jwt authorization (trim_space tenant) cfg ≡ ok p
    → IsVouched jwt cfg authorization tenant p
unfolding jwt_principal
jwt_principal-IsVouched jwt cfg authorization tenant p h =
    elim (Bool-cases (has_prefix (trim_space authorization) "Bearer ")) [
      | inl bearer ↦ elim (Option-cases (jwt.parse (bearer_token authorization) (key_of cfg))) [
        | inl refused ↦ absurd (ground arith)
        | inr (claims, parsed) ↦
            parsed-IsVouched jwt cfg authorization tenant p parsed (rw (bearer, parsed) at h)
      ]
      | inr other ↦ absurd (ground arith)
    ]

-- In the mode "jwt" a principal that is let through is authenticated by a token that names HS256 and
-- verifies under the configured secret; it has the tenant that the claims of the token name, and
-- their scopes; the header X-Tenant-ID repeats that tenant or is empty; and it is there if the
-- configuration asks for it.
pub principal-IsVouched :
    (jwt : Jwt) (cfg : AuthConfig) (authorization tenant : String) (p : Principal)
    → cfg.mode ≡ mode_jwt
    → principal_from_auth_headers jwt authorization tenant cfg ≡ ok p
    → IsVouched jwt cfg authorization tenant p
unfolding principal_from_auth_headers
principal-IsVouched jwt cfg authorization tenant p mode h =
    jwt_principal-IsVouched jwt cfg authorization tenant p (simp mode at h)

-- The header of a principal with a tenant, other than the reserved "unknown", is accepted exactly when
-- it names that tenant or none.
pub apply_isolates :
    (head : MessageHeader) (p : Principal) (tenant_header : String)
    → p.tenant_id ≢ ""
    → p.tenant_id ≢ "unknown"
    → ((apply_principal_header head p tenant_header).1 ≡ none)
      ↔ ((head.tenant_id ≡ "") ⊎ (head.tenant_id ≡ p.tenant_id))
unfolding apply_principal_header
apply_isolates head p tenant_header known usual = (
  λ h.
      ground
        (arith, eq_iff head.tenant_id "", eq_iff p.tenant_id "", eq_iff head.tenant_id p.tenant_id),
  λ h. ground (
    arith,
    eq_iff head.tenant_id "",
    eq_iff p.tenant_id "",
    eq_iff head.tenant_id p.tenant_id,
    eq_iff p.tenant_id p.tenant_id,
    eq_iff p.tenant_id "unknown",
    eq_iff head.tenant_id "unknown",
  ),
)

-- A header that is accepted for a principal with a tenant carries that tenant from then on.
pub apply_tenant :
    (head : MessageHeader) (p : Principal) (tenant_header : String)
    → p.tenant_id ≢ ""
    → (apply_principal_header head p tenant_header).1 ≡ none
    → (apply_principal_header head p tenant_header).0.tenant_id ≡ p.tenant_id
unfolding apply_principal_header
apply_tenant head p tenant_header known h =
    ground
      (arith, eq_iff head.tenant_id "", eq_iff p.tenant_id "", eq_iff head.tenant_id p.tenant_id)
