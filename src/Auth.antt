-- ===== src/Auth.antt =====
-- core/pkg/mig/auth.go: principals, the two ways to authenticate a request, and the tenant that a
-- header gets. The JWT library is not part of the repository: it is the record `Jwt`, by what its
-- documentation says of `ParseWithClaims`.
pub mod Claims
pub mod Laws
pub mod Grants
use Prim.Native.String
use model_interface_gateway.Base.{
  ℕ, String, ◌≡◌, Bool, true, false, not, ◌&&◌, ◌||◌, List, [], ◌∷◌, map, Option, none, some,
  Result, ok, err, ◌>>=◌, ◌==◌, if◌then◌else◌,
}
use model_interface_gateway.Base.GoMap.{GoMap, lookup, insert}
use model_interface_gateway.Base.Sort.{sort_by}
use model_interface_gateway.Text.{trim_space, trim_prefix, has_prefix, contains, quote, str_lt}
use model_interface_gateway.Types.{
  Value, MessageHeader, MigError, unauthorized, forbidden, invalid_request, entries,
}
use model_interface_gateway.Types.Json.{text, strings}
use Claims.{Scopes, as_string_claim, scopes_from_claims}

pub record Principal : Type 0 where
  pub subject : String
  pub tenant_id : String
  pub scopes : Scopes
  pub authenticated : Bool

abbrev pub anonymous_principal : Principal
anonymous_principal = record {
  subject = "anonymous";
  tenant_id = "";
  scopes = [];
  authenticated = false;
}

-- `principalFromContext`, on the principal that the context has.
abbrev pub principal_from_context : Option Principal → Principal
principal_from_context none = anonymous_principal
principal_from_context (some p) = p

-- The loop of `HasAnyScope`.
unfoldable pub holds_any : Scopes → List String → Bool
holds_any scopes [] = false
holds_any scopes (scope ∷ required) = elim (lookup scope scopes) [
  | none ↦ holds_any scopes required
  | some _ ↦ true
]

unfoldable pub has_any_scope : Principal → List String → Bool
unfolding holds_any
has_any_scope p required =
    if not p.authenticated
    then true
    else elim required [ [] ↦ true | scope ∷ more ↦ holds_any p.scopes (scope ∷ more) ]

-- `ScopesList`
unfoldable pub scopes_list : Principal → List String
unfolding sort_by
scopes_list p = sort_by str_lt (map (λ e. e.0) p.scopes)

abbrev pub mode_none : String
mode_none = "none"

abbrev pub mode_jwt : String
mode_jwt = "jwt"

pub record AuthConfig : Type 0 where
  pub mode : String
  pub jwt_secret : String
  pub require_tenant : Bool

-- github.com/golang-jwt/jwt: `parse token key_of` is `ParseWithClaims`, with `none` for an error or a
-- token that is not valid. `key_of` is the function that is asked for the key of an algorithm.
pub record Jwt : Type 0 where
  pub alg : String → String
  pub verifies : String → String → Bool
  pub parse : String → (String → Result String String) → Option (GoMap Value)
  -- A token is accepted only under the key that `key_of` gives for the algorithm that it names.
  pub parse_sound :
      (token : String) (key_of : String → Result String String) (claims : GoMap Value)
      → parse token key_of ≡ some claims
      → (key : String) × (key_of (alg token) ≡ ok key) × (verifies token key ≡ true)

-- The key function of `PrincipalFromAuthHeaders`.
unfoldable pub key_of : AuthConfig → String → Result String String
key_of cfg alg =
    if alg == "HS256" then ok cfg.jwt_secret else err "unsupported token signing method"

-- The tenant of a token: the claim "tenant_id", or else "tenant".
unfoldable pub token_tenant : GoMap Value → String
unfolding as_string_claim
token_tenant claims =
    let tenant = as_string_claim claims "tenant_id" "" in
    if tenant == "" then as_string_claim claims "tenant" "" else tenant

-- The `case AuthModeJWT`, once the token is parsed.
unfoldable pub principal_of_claims : AuthConfig → String → GoMap Value → Result String Principal
principal_of_claims cfg header_tenant claims =
    let tenant = token_tenant claims in
    if tenant == ""
    then err "token is missing tenant claim"
    else if cfg.require_tenant && header_tenant == ""
    then err "tenant header is required"
    else if not (header_tenant == "") && not (header_tenant == tenant)
    then err "tenant header does not match token tenant"
    else ok (record {
      subject = as_string_claim claims "sub" "unknown";
      tenant_id = tenant;
      scopes = scopes_from_claims claims;
      authenticated = true;
    })

-- The token of an `Authorization` header.
unfoldable pub bearer_token : String → String
unfolding trim_space trim_prefix
bearer_token authorization = trim_space (trim_prefix (trim_space authorization) "Bearer ")

-- The `case AuthModeJWT`.
unfoldable pub jwt_principal : Jwt → String → String → AuthConfig → Result String Principal
jwt_principal jwt authorization_header header_tenant cfg =
    if not (has_prefix (trim_space authorization_header) "Bearer ")
    then err "missing bearer token"
    else elim (jwt.parse (bearer_token authorization_header) (key_of cfg)) [
      | none ↦ err "invalid bearer token"
      | some claims ↦ principal_of_claims cfg header_tenant claims
    ]

unfoldable pub principal_from_auth_headers :
    Jwt → String → String → AuthConfig → Result String Principal
principal_from_auth_headers jwt authorization_header tenant_header cfg =
    let header_tenant = trim_space tenant_header in
    if cfg.mode == mode_none
    then (if cfg.require_tenant && header_tenant == ""
        then err "tenant header is required"
        else ok (record anonymous_principal { tenant_id = header_tenant }))
    else if cfg.mode == mode_jwt
    then jwt_principal jwt authorization_header header_tenant cfg
    else err (String.◌++◌ "unsupported auth mode " (quote cfg.mode))

-- `httpStatusForError`; no error of `PrincipalFromAuthHeaders` is a missed deadline.
unfoldable pub http_status_for_error : String → ℕ
unfolding contains
http_status_for_error message = if contains message "tenant" then 403 else 401

unfoldable pub mig_code_for_auth_err : String → String
unfolding contains
mig_code_for_auth_err message = if contains message "tenant" then forbidden else unauthorized

-- `tenantFromRequest`, on the value of the header X-Tenant-ID.
unfoldable pub tenant_from_request : String → String
unfolding trim_space
tenant_from_request tenant = if tenant == "" then "unknown" else trim_space tenant

-- The two entries that `applyPrincipalHeader` writes into the meta map; the scopes are a `[]string`.
abbrev pub principal_meta : Principal → MessageHeader → GoMap Value
principal_meta p head =
    insert "idg.principal_scopes" (strings (scopes_list p))
      (insert "idg.principal_subject" (text p.subject) (entries head.meta))

-- An error of this server that is not to be retried.
abbrev pub refusal : String → String → MigError
refusal code message = record { code = code; message = message; retryable = false; details = none }

abbrev pub tenant_mismatch : MigError
tenant_mismatch = refusal forbidden "tenant_id does not match authenticated principal"

-- `applyPrincipalHeader`: the header that the caller has afterwards, and the error.
unfoldable pub apply_principal_header :
    MessageHeader → Principal → String → MessageHeader × Option MigError
apply_principal_header head p tenant_header =
    let filled = if p.tenant_id == "" then tenant_from_request tenant_header else p.tenant_id in
    let tenant = if head.tenant_id == "" then filled else head.tenant_id in
    let head' = record head { tenant_id = tenant; meta = some (principal_meta p head) } in
    if not (p.tenant_id == "") && not (tenant == p.tenant_id)
    then (head', some tenant_mismatch)
    else if tenant == "unknown"
    then (head', some (refusal invalid_request "tenant_id is required"))
    else (head', none)
