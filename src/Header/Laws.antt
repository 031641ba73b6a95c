-- ===== src/Header/Laws.antt =====
-- When a header is accepted, and what every accepted header has.
use model_interface_gateway.Base.{
  String, ◌≡◌, ◌≢◌, ◌⊎◌, ◌↔◌, none, ok, arith, eq_iff, eq-false_of_ne, false,
}
use model_interface_gateway.Base.Int.{is_le_zero}
use model_interface_gateway.Types.{MessageHeader, mig_version, Env, new_message_id}
use model_interface_gateway.Header.{or_default, defaulted, normalize}

or_default-ne : (value fallback : String) → fallback ≢ "" → or_default value fallback ≢ ""
or_default-ne value fallback h = ground (arith, eq_iff value "")

-- The header states this version, or none, and a tenant.
pub record IsAcceptable (h : MessageHeader) : Type 0 where
  pub version : (h.mig_version ≡ "") ⊎ (h.mig_version ≡ mig_version)
  pub tenant : h.tenant_id ≢ ""

version_of_IsAcceptable :
    (h : MessageHeader) → IsAcceptable h → or_default h.mig_version mig_version ≡ mig_version
version_of_IsAcceptable h a =
    ground (arith, eq_iff h.mig_version "", eq_iff h.mig_version mig_version)

pub normalize_of_IsAcceptable :
    (env : Env) (h : MessageHeader) → IsAcceptable h → normalize env h ≡ ok (defaulted env h)
unfolding normalize
normalize_of_IsAcceptable env h a =
    rw (version_of_IsAcceptable h a, eq-false_of_ne h.tenant_id "" a.tenant)

pub IsAcceptable-of_normalize :
    (env : Env) (h h' : MessageHeader)
    → normalize env h ≡ ok h'
    → IsAcceptable h × (h' ≡ defaulted env h)
unfolding normalize
IsAcceptable-of_normalize env h h' e = (
  record {
    version = ground (arith, eq_iff h.mig_version "", eq_iff h.mig_version mig_version);
    tenant = ground (arith, eq_iff h.tenant_id "");
  },
  ground arith,
)

-- `Normalize` succeeds exactly on the acceptable headers.
pub normalize-ok_iff :
    (env : Env) (h : MessageHeader)
    → ((h' : MessageHeader) × (normalize env h ≡ ok h')) ↔ IsAcceptable h
normalize-ok_iff env h = (
  λ e. (IsAcceptable-of_normalize env h e.0 e.1).0,
  λ a. (defaulted env h, normalize_of_IsAcceptable env h a),
)

-- What every handler may rely on after `Normalize`.
pub record IsNormal (h : MessageHeader) : Type 0 where
  pub version : h.mig_version ≡ mig_version
  pub tenant : h.tenant_id ≢ ""
  pub message : h.message_id ≢ ""
  pub timestamp : h.timestamp ≢ ""
  pub deadline : is_le_zero h.deadline_ms ≡ false
  pub meta : h.meta ≢ none

-- The clock and the random source give texts that are not empty.
abbrev pub IsLive : Env → Type 0
IsLive env = (env.now ≢ "") × (new_message_id env.for_header ≢ "")

defaulted-IsNormal :
    (env : Env) (h : MessageHeader) → IsLive env → IsAcceptable h → IsNormal (defaulted env h)
defaulted-IsNormal env h live a = record {
  version = ground (arith, eq_iff h.mig_version "", eq_iff h.mig_version mig_version);
  tenant = a.tenant;
  message = or_default-ne h.message_id (new_message_id env.for_header) live.1;
  timestamp = or_default-ne h.timestamp env.now live.0;
  deadline = ground arith;
  meta = λ e. cc;
}

-- A header that `Normalize` accepts, where the clock and the random source give texts that are not
-- empty, has this version, a tenant, a message identifier, a time, a positive deadline and a meta map.
pub normalize-IsNormal :
    (env : Env) (h h' : MessageHeader) → IsLive env → normalize env h ≡ ok h' → IsNormal h'
normalize-IsNormal env h h' live e =
    let (a, same) = IsAcceptable-of_normalize env h h' e in
    rw same (defaulted-IsNormal env h live a)

-- A normal header passes a second `Normalize` unchanged, whatever the clock and the random source.
pub normalize_of_IsNormal : (env : Env) (h : MessageHeader) → IsNormal h → normalize env h ≡ ok h
unfolding normalize
normalize_of_IsNormal env h n = ground (
  arith,
  eq_iff h.mig_version "",
  eq_iff h.mig_version mig_version,
  eq_iff h.tenant_id "",
  eq_iff h.message_id "",
  eq_iff h.timestamp "",
)
