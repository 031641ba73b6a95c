-- ===== src/Tests/Access.antt =====
-- Headers, tokens, scopes and the configuration.
use model_interface_gateway.Base.{
  String, ◌≡◌, ◌≢◌, ◌⊎◌, ◌↔◌, refl, inl, inr, true, false, Option, none, some, List, [], ◌∷◌,
  Result, ok, err, arith, ◌==◌, ne_of_eq-false, Result-cases, ◌&&◌, if◌then◌else◌,
}
use model_interface_gateway.Base.GoMap.{GoMap, lookup}
use model_interface_gateway.Text.{
  trim_space, trim_prefix, has_prefix, to_lower, trim_left, trim_right, is_space, lower_char,
  of_code, hex_encode, digit,
}
use model_interface_gateway.Types.{Value, MessageHeader, new_message_id}
use model_interface_gateway.Types.Json.{text}
use model_interface_gateway.Header.{normalize, defaulted}
use model_interface_gateway.Header.Laws.{
  IsAcceptable, normalize-ok_iff, IsNormal, IsLive, normalize-IsNormal, normalize_of_IsNormal,
}
use model_interface_gateway.Auth.{
  Principal, has_any_scope, AuthConfig, mode_none, mode_jwt, Jwt, bearer_token, jwt_principal,
  key_of, token_tenant, principal_of_claims, principal_from_auth_headers, apply_principal_header,
}
use model_interface_gateway.Auth.Claims.{as_string_claim, scopes_from_claims}
use model_interface_gateway.Auth.Grants.{
  has_any_scope_iff, HoldsOne, NamedInText, NamedInArray, scopes_from_claims_iff,
}
use model_interface_gateway.Auth.Laws.{IsVouched, principal-IsVouched, apply_isolates, apply_tenant}
use model_interface_gateway.Config.{
  Getenv, Config, auth_mode, config_from_env, config-mode, env_or_default, env_bool,
}
use model_interface_gateway.Tests.{env, sent, member}

abbrev pub claims : GoMap Value
claims = ("tenant_id", text "acme") ∷ ("scope", text "capability:infer events") ∷ []

-- A token library that knows one token, signed with the secret "s".
abbrev pub parse_one : String → (String → Result String String) → Option (GoMap Value)
parse_one token keys =
    if token == "good"
    then (elim (keys "HS256") [
      | err e ↦ none
      | ok key ↦ (if key == "s" then some claims else none)
    ])
    else none

pub parse_one_sound :
    (token : String) (keys : String → Result String String) (found : GoMap Value)
    → parse_one token keys ≡ some found
    → (key : String) × (keys "HS256" ≡ ok key) × ((token == "good" && key == "s") ≡ true)
parse_one_sound token keys found h = elim (Result-cases (keys "HS256")) [
  | inl (e, none_given) ↦ absurd (ground arith)
  | inr (key, given) ↦ (key, given, ground arith)
]

abbrev pub one_token : Jwt
one_token = record {
  alg = λ token. "HS256";
  verifies = λ token key. token == "good" && key == "s";
  parse = parse_one;
  parse_sound = parse_one_sound;
}

abbrev pub jwt_config : AuthConfig
jwt_config = record { mode = mode_jwt; jwt_secret = "s"; require_tenant = false }

abbrev ann : Principal
ann = record {
  subject = "unknown";
  tenant_id = "acme";
  scopes = scopes_from_claims claims;
  authenticated = true;
}

lets_in : principal_from_auth_headers one_token "Bearer good" "" jwt_config ≡ ok ann
unfolding principal_from_auth_headers jwt_principal bearer_token key_of token_tenant
    principal_of_claims as_string_claim lookup trim_space trim_prefix has_prefix trim_left
    trim_right is_space
lets_in = refl

principal-IsVouched_example : IsVouched one_token jwt_config "Bearer good" "" ann
principal-IsVouched_example =
    principal-IsVouched one_token jwt_config "Bearer good" "" ann refl lets_in

apply_isolates_example :
    ((apply_principal_header (sent "m-1" "" "") member "").1 ≡ none)
    ↔ (((sent "m-1" "" "").tenant_id ≡ "") ⊎ ((sent "m-1" "" "").tenant_id ≡ "acme"))
apply_isolates_example =
    apply_isolates (sent "m-1" "" "") member "" (ne_of_eq-false "acme" "" refl)
      (ne_of_eq-false "acme" "unknown" refl)

is_applied : (apply_principal_header (sent "m-1" "" "") member "").1 ≡ none
unfolding apply_principal_header
is_applied = refl

apply_tenant_example : (apply_principal_header (sent "m-1" "" "") member "").0.tenant_id ≡ "acme"
apply_tenant_example =
    apply_tenant (sent "m-1" "" "") member "" (ne_of_eq-false "acme" "" refl) is_applied

has_any_scope_iff_example : (has_any_scope member ("capability:infer" ∷ []) ≡ true) ↔ (
    (Path (List String) ("capability:infer" ∷ []) [])
    ⊎ HoldsOne member.scopes ("capability:infer" ∷ []))
has_any_scope_iff_example = has_any_scope_iff member ("capability:infer" ∷ []) refl

scopes_from_claims_iff_example : (lookup "events" (scopes_from_claims claims) ≡ some tt) ↔ (
    NamedInText "events" (lookup "scope" claims) ⊎ NamedInArray "events" (lookup "scopes" claims))
scopes_from_claims_iff_example = scopes_from_claims_iff "events" claims

normalize-ok_iff_example :
    ((h' : MessageHeader) × (normalize env (sent "m-1" "acme" "") ≡ ok h'))
    ↔ IsAcceptable (sent "m-1" "acme" "")
normalize-ok_iff_example = normalize-ok_iff env (sent "m-1" "acme" "")

is_live : IsLive env
unfolding new_message_id hex_encode digit of_code
is_live = (ne_of_eq-false env.now "" refl, ne_of_eq-false "12ab" "" refl)

accepts : normalize env (sent "m-1" "acme" "") ≡ ok (defaulted env (sent "m-1" "acme" ""))
unfolding normalize
accepts = refl

normalize-IsNormal_example : IsNormal (defaulted env (sent "m-1" "acme" ""))
normalize-IsNormal_example =
    normalize-IsNormal env (sent "m-1" "acme" "") (defaulted env (sent "m-1" "acme" "")) is_live
      accepts

pub is_normal : IsNormal (defaulted env (sent "m-1" "acme" ""))
is_normal =
    normalize-IsNormal env (sent "m-1" "acme" "") (defaulted env (sent "m-1" "acme" "")) is_live
      accepts

normalize_of_IsNormal_example :
    normalize env (defaulted env (sent "m-1" "acme" "")) ≡ ok (defaulted env (sent "m-1" "acme" ""))
normalize_of_IsNormal_example =
    normalize_of_IsNormal env (defaulted env (sent "m-1" "acme" "")) is_normal

abbrev pub no_variables : Getenv
no_variables = λ key. ""

abbrev pub default_config : Config
default_config = record {
  addr = ":8080";
  grpc_addr = "";
  auth = record { mode = mode_none; jwt_secret = ""; require_tenant = false };
  nats_url = "";
  enable_nats_binding = true;
  audit_log_path = "";
  enable_metrics = true;
}

configures : config_from_env no_variables ≡ ok default_config
unfolding config_from_env env_or_default env_bool trim_space to_lower trim_left trim_right is_space
    lower_char of_code
configures = refl

config-mode_example :
    ((default_config.auth.mode ≡ mode_none) × (auth_mode no_variables ≡ mode_none))
    ⊎ ((default_config.auth.mode ≡ mode_jwt)
        × (auth_mode no_variables ≡ mode_jwt)
        × (default_config.auth.jwt_secret ≢ ""))
config-mode_example = config-mode no_variables default_config configures
