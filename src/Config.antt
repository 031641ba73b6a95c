-- ===== src/Config.antt =====
-- core/pkg/mig/config.go: the configuration from the environment. `Getenv` is the environment: the
-- empty text for a variable that is not set.
use Prim.Native.String
use model_interface_gateway.Base.{
  String, Bool, true, false, ◌≡◌, ◌≢◌, ◌⊎◌, ◌||◌, Option, none, some, Result, ok, err, ◌==◌,
  if◌then◌else◌, arith, eq_iff, eq_cases, inl, inr, ne_of_eq-false,
}
use mathlib.Core.Option.{get_or}
use model_interface_gateway.Text.{trim_space, to_lower, quote}
use model_interface_gateway.Auth.{AuthConfig, mode_none, mode_jwt}

abbrev pub Getenv : Type 0
Getenv = String → String

pub record Config : Type 0 where
  pub addr : String
  pub grpc_addr : String
  pub auth : AuthConfig
  pub nats_url : String
  pub enable_nats_binding : Bool
  pub audit_log_path : String
  pub enable_metrics : Bool

-- `strconv.ParseBool`
unfoldable pub parse_bool : String → Option Bool
parse_bool s =
    if s == "1" || (s == "t" || (s == "T" || (s == "TRUE" || (s == "true" || s == "True"))))
    then some true
    else if s == "0" || (s == "f" || (s == "F" || (s == "FALSE" || (s == "false" || s == "False"))))
    then some false
    else none

unfoldable pub env_bool : Getenv → String → Bool → Bool
env_bool getenv key fallback =
    let value = trim_space (getenv key) in
    if value == "" then fallback else get_or (parse_bool value) fallback

unfoldable pub env_or_default : Getenv → String → String → String
env_or_default getenv key fallback =
    let value = trim_space (getenv key) in if value == "" then fallback else value

-- The configuration, with the part for the authentication put in.
abbrev with_auth : Getenv → AuthConfig → Config
with_auth getenv auth = record {
  addr = env_or_default getenv "MIGD_ADDR" ":8080";
  grpc_addr = trim_space (getenv "MIGD_GRPC_ADDR");
  auth = record auth { require_tenant = env_bool getenv "MIGD_REQUIRE_TENANT_HEADER" false };
  nats_url = trim_space (getenv "MIGD_NATS_URL");
  enable_nats_binding = env_bool getenv "MIGD_ENABLE_NATS_BINDING" true;
  audit_log_path = trim_space (getenv "MIGD_AUDIT_LOG_PATH");
  enable_metrics = env_bool getenv "MIGD_ENABLE_METRICS" true;
}

-- The mode of authentication that is configured.
abbrev pub auth_mode : Getenv → String
auth_mode getenv = to_lower (trim_space (env_or_default getenv "MIGD_AUTH_MODE" mode_none))

unfoldable pub config_from_env : Getenv → Result String Config
config_from_env getenv =
    let secret = trim_space (getenv "MIGD_JWT_HS256_SECRET") in
    if auth_mode getenv == mode_none
    then ok
        (with_auth getenv (record { mode = mode_none; jwt_secret = ""; require_tenant = false }))
    else if auth_mode getenv == mode_jwt
    then (if secret == ""
        then err "MIGD_JWT_HS256_SECRET is required when MIGD_AUTH_MODE=jwt"
        else ok (
            with_auth getenv
              (record { mode = mode_jwt; jwt_secret = secret; require_tenant = false })))
    else err (String.◌++◌ "unsupported MIGD_AUTH_MODE " (quote (auth_mode getenv)))

-- A configuration that is accepted asks for no authentication, where that is what the environment says
-- or it says nothing; or it asks for tokens, and there is a secret to check them with.
pub config-mode :
    (getenv : Getenv) (cfg : Config)
    → config_from_env getenv ≡ ok cfg
    → ((cfg.auth.mode ≡ mode_none) × (auth_mode getenv ≡ mode_none))
      ⊎ ((cfg.auth.mode ≡ mode_jwt) × (auth_mode getenv ≡ mode_jwt) × (cfg.auth.jwt_secret ≢ ""))
unfolding config_from_env
config-mode getenv cfg h = elim (eq_cases (auth_mode getenv) mode_none) [
  | inl off ↦ inl (ground (arith, eq_iff (auth_mode getenv) mode_none), off)
  | inr closed ↦ elim (eq_cases (auth_mode getenv) mode_jwt) [
    | inl tokens ↦ elim (eq_cases (trim_space (getenv "MIGD_JWT_HS256_SECRET")) "") [
      | inl unset ↦ absurd (
          ground (
            arith,
            eq_iff (auth_mode getenv) mode_jwt,
            eq_iff (trim_space (getenv "MIGD_JWT_HS256_SECRET")) "",
          ))
      | inr set ↦
          let known : (auth_mode getenv == mode_jwt) ≡ true =
            (eq_iff (auth_mode getenv) mode_jwt).1 tokens in
          let made : ok (
                with_auth getenv (record {
                  mode = mode_jwt;
                  jwt_secret = trim_space (getenv "MIGD_JWT_HS256_SECRET");
                  require_tenant = false;
                }))
              ≡ ok cfg =
            rw (closed, known, set, config_from_env) at h in
          inr (
            ground arith,
            tokens,
            ground (arith, ne_of_eq-false (trim_space (getenv "MIGD_JWT_HS256_SECRET")) "" set),
          )
    ]
    | inr unknown ↦ absurd (ground arith)
  ]
]
