-- ===== src/Tests.antt =====
-- Concrete requests and states, and what the operations do with them. The children apply the theorems.
pub mod Invocations
pub mod Channels
pub mod Access
pub mod Views
pub mod Messages
pub mod Http
pub mod Nats
pub mod Start
use Prim.Native.String
use model_interface_gateway.Base.{
  ℕ, String, ◌≡◌, refl, Bool, true, false, Option, none, some, List, [], ◌∷◌, Result, ok, err,
}
use model_interface_gateway.Base.Int.{ℤ, pos}
use model_interface_gateway.Base.GoMap.{GoMap, lookup, insert}
use model_interface_gateway.Types.{
  Value, Payload, MessageHeader, MigError, CapabilityDescriptor, InvokeRequest, InvokeResponse,
  PublishRequest, EventMessage, Env, Sample, mig_version,
}
use model_interface_gateway.Types.Json.{text}
use model_interface_gateway.Header.{normalize, add_idg_meta, open_header, tag_meta, defaulted}
use model_interface_gateway.Auth.{Principal, holds_any, has_any_scope}
use model_interface_gateway.Service.{
  Service, infer_id, infer_capability, new_service, bootstrap_defaults,
}
use model_interface_gateway.Service.Invoke.{
  idempotency_key, stored_reply, is_exhausted, Ticket, admitted, check, admit, commit, reply_of,
  finish, conclude, invoke,
}
use model_interface_gateway.Service.Invoke.Laws.{ticket, HasPassed}

abbrev pub env : Env
env = record {
  now = "2026-01-02T03:04:05Z";
  for_header = record { bytes = some (18 ∷ 171 ∷ []); unix_nano = 0 };
  for_entry = record { bytes = some (1 ∷ 2 ∷ 3 ∷ 4 ∷ 5 ∷ 6 ∷ []); unix_nano = 0 };
  audit_fails = false;
}

-- A header as a client sends it.
abbrev pub sent : String → String → String → MessageHeader
sent message tenant key = record {
  mig_version = "";
  message_id = message;
  timestamp = "";
  tenant_id = tenant;
  session_id = "";
  traceparent = "";
  idempotency_key = key;
  deadline_ms = pos 0;
  meta = none;
}

-- The same header after `open_header`.
abbrev pub opened : String → String → String → MessageHeader
opened message tenant key = record (defaulted env (sent message tenant key)) {
  meta = some (tag_meta "core" []);
}

abbrev pub call : String → String → String → InvokeRequest
call message tenant key = record {
  header = sent message tenant key;
  capability = infer_id;
  payload = some (("input", text "hello") ∷ []);
  stream_preference = "unary";
}

abbrev pub member : Principal
member = record {
  subject = "ann";
  tenant_id = "acme";
  scopes = ("capability:infer", tt) ∷ [];
  authenticated = true;
}

-- A new gateway with a quota of two invocations for one tenant.
abbrev pub gateway : Service
gateway = record new_service { quotas = ("acme", pos 2) ∷ [] }

abbrev pub seat : String → Ticket
seat message =
    ticket (opened message "acme" "k-1") infer_id infer_capability (call message "acme" "k-1") "ann"

-- The gateway after one invocation.
abbrev pub used_gateway : Service
used_gateway = commit env (seat "m-1") gateway

pub opens : open_header env (sent "m-1" "acme" "k-1") ≡ ok (opened "m-1" "acme" "k-1")
unfolding open_header normalize add_idg_meta
opens = refl

pub opens_again : open_header env (sent "m-2" "acme" "k-1") ≡ ok (opened "m-2" "acme" "k-1")
unfolding open_header normalize add_idg_meta
opens_again = refl

pub admits : admit env "" (call "m-1" "acme" "k-1") "ann" member gateway ≡ admitted (seat "m-1")
unfolding admit check open_header normalize add_idg_meta has_any_scope holds_any lookup insert
    new_service bootstrap_defaults stored_reply is_exhausted
admits = refl

pub invokes :
    invoke env false "" (call "m-1" "acme" "k-1") "ann" member gateway
    ≡ (used_gateway, ok (reply_of (seat "m-1")))
unfolding invoke conclude finish admit check open_header normalize add_idg_meta has_any_scope
    holds_any lookup insert new_service bootstrap_defaults stored_reply is_exhausted
invokes = refl

-- The retry has passed the checks, all but the store.
pub passes : HasPassed (opened "m-2" "acme" "k-1") infer_id member used_gateway infer_capability
unfolding has_any_scope holds_any lookup insert new_service bootstrap_defaults commit
passes = record { registered = refl; allowed = refl; live = refl }
