-- ===== src/Tests/Invocations.antt =====
-- Invocations: one, its retry, overlapping ones, and the quota.
use Prim.Native.String
use model_interface_gateway.Base.{
  ◌+◌, length, String, ◌≡◌, refl, true, false, none, some, [], ok, arith, if◌then◌else◌,
  ne_of_eq-false,
}
use model_interface_gateway.Base.Int.{pos, to_int64, leb_ℤ}
use model_interface_gateway.Base.GoMap.{lookup, lookup_or, insert}
use model_interface_gateway.Text.Laws.{Lacks}
use model_interface_gateway.Types.{CancelRequest, CancelAck, rate_limited, timeout, QuotaRequest}
use model_interface_gateway.Header.{normalize, add_idg_meta, open_header}
use model_interface_gateway.Auth.{has_any_scope, holds_any}
use model_interface_gateway.Service.{
  Service, infer_id, infer_capability, new_service, bootstrap_defaults, fail,
}
use model_interface_gateway.Service.Protocol.{cancel}
use model_interface_gateway.Service.Invoke.{
  stored_reply, Ticket, check, refused, admitted, retry_later, commit, finish, reply_of, invoke,
}
use model_interface_gateway.Service.Invoke.Laws.{ticket, HasPassed, IsServed, invoke-IsServed}
use model_interface_gateway.Service.Invoke.Replay.{
  retry_replays, tenants_share_replies, idempotency_key_inj,
}
use model_interface_gateway.Service.Invoke.Race.{
  Gate, Reach, here, next, enter, leave, IsBounded, race-IsBounded,
}
use model_interface_gateway.Service.Invoke.Overshoot.{race_overshoots}
use model_interface_gateway.Service.Invoke.Cancelled.{cancel_stops}
use model_interface_gateway.Service.Admin.{set_quota, usage, audit_export}
use model_interface_gateway.Service.Admin.Laws.{usage-audit_export, set_quota-check}
use model_interface_gateway.Service.Cloud.{create_org}
use model_interface_gateway.Service.History.{History, start, then_step, invoked, org_created}
use model_interface_gateway.Service.{ServiceOptions}
use model_interface_gateway.Base.{All}
use model_interface_gateway.Types.{AuditRecord}
use model_interface_gateway.Tests.{
  env, sent, opened, call, member, gateway, seat, used_gateway, opens, opens_again, admits, invokes,
  passes,
}

invoke-IsServed_example :
    IsServed env ""
      (call "m-1" "acme" "k-1")
      "ann"
      member
      gateway
      used_gateway
      (reply_of (seat "m-1"))
invoke-IsServed_example =
    invoke-IsServed env false "" (call "m-1" "acme" "k-1") "ann" member gateway used_gateway
      (reply_of (seat "m-1")) invokes

retry_replays_example :
    invoke env true "" (call "m-2" "acme" "k-1") "bob" member used_gateway
    ≡ (used_gateway, ok (record (reply_of (seat "m-1")) { header = opened "m-2" "acme" "k-1" }))
retry_replays_example =
    retry_replays env env false true "" "" (call "m-1" "acme" "k-1") (call "m-2" "acme" "k-1") "ann"
      "bob" member member gateway used_gateway (reply_of (seat "m-1")) (opened "m-2" "acme" "k-1")
      infer_capability invokes opens_again refl refl refl (ne_of_eq-false "k-1" "" refl) passes

-- A gateway with one invocation of two allowed, under way and done.
abbrev empty_gate : Gate
empty_gate = record { service = gateway; flights = [] }

abbrev full_gate : Gate
full_gate = record { service = used_gateway; flights = [] }

starts-IsBounded : IsBounded 2 2 "acme" empty_gate
unfolding lookup new_service bootstrap_defaults
starts-IsBounded = record {
  used = 0;
  limit = refl;
  counted = refl;
  bound = omega arith;
  crowd = omega arith;
}

one_flight : Reach 2 empty_gate full_gate
unfolding finish
one_flight =
    next
      (next here
        (enter env "" (call "m-1" "acme" "k-1") "ann" member (seat "m-1") (omega arith) admits))
      (leave env false [] (seat "m-1") [] refl)

race-IsBounded_example : IsBounded 2 2 "acme" full_gate
race-IsBounded_example =
    race-IsBounded 2 2 "acme" {g = empty_gate} {h = full_gate} (omega arith) starts-IsBounded
      one_flight

nothing_counted : lookup_or (pos 0) "acme" gateway.tenant_invocations ≡ pos 0
unfolding lookup new_service bootstrap_defaults
nothing_counted = refl

race_overshoots_example :
    (s' : Service) × Reach 3 empty_gate (record { service = s'; flights = [] })
    × (lookup_or (pos 0) "acme" s'.tenant_invocations ≡ pos (0 + 3))
race_overshoots_example =
    race_overshoots 3 env (seat "m-1") gateway "" (call "m-1" "acme" "k-1") "ann" member 0 admits
      nothing_counted (omega arith)

-- A service with an audit file.
abbrev with_file : ServiceOptions
with_file = record { nats_url = ""; audit_log_path = "audit.log" }

abbrev filing : Service
filing = record new_service { audit_log = some [] }

abbrev some_history :
    History filing
      (invoke env false ""
        (call "m-1" "acme" "k-1")
        "ann"
        member
        (create_org env (record { id = "o-1"; name = "Acme" }) filing).0).0
some_history =
    then_step (then_step start (org_created env (record { id = "o-1"; name = "Acme" })))
      (invoked env false "" (call "m-1" "acme" "k-1") "ann" member)

-- The tenant "a:c" with the key "k" and the tenant "a" with the key "c:k".
abbrev spoken : Ticket
spoken =
    ticket (opened "m-1" "a" "observatory.models.infer:k") infer_id infer_capability
      (call "m-1" "a" "k") "ann"

tenants_share_replies_example :
    stored_reply
      (commit env spoken gateway)
      (opened "m-2" "a:observatory.models.infer" "k")
      infer_id
    ≡ some (reply_of spoken)
tenants_share_replies_example =
    tenants_share_replies env spoken (opened "m-2" "a:observatory.models.infer" "k") "k" gateway
      refl refl refl (ne_of_eq-false "k" "" refl)

Lacks-a : Lacks b':' "a"
Lacks-a = (λ e. absurd (omega arith), tt)

Lacks-b : Lacks b':' "b"
Lacks-b = (λ e. absurd (omega arith), tt)

idempotency_key_inj_example :
    (Path String "a" "a") × (Path String "b" "b") × (Path String "k:1" "k:1")
idempotency_key_inj_example =
    idempotency_key_inj "a" "a" "b" "b" "k:1" "k:1" Lacks-a Lacks-a Lacks-b Lacks-b refl

abbrev stop : CancelRequest
stop = record { header = sent "m-9" "acme" ""; target_message_id = "m-1"; reason = "stop" }

abbrev stopped : Service
stopped = record gateway { cancelled = insert "m-1" "stop" gateway.cancelled }

abbrev stop_ack : CancelAck
stop_ack = record {
  header = opened "m-9" "acme" "";
  target_message_id = "m-1";
  accepted = true;
  status = "cancelled";
}

cancels : cancel env stop "" gateway ≡ (stopped, ok stop_ack)
unfolding cancel open_header normalize add_idg_meta
cancels = refl

is_there : lookup infer_id gateway.capabilities ≡ some infer_capability
unfolding lookup insert new_service bootstrap_defaults
is_there = refl

may_use : has_any_scope member infer_capability.auth_scopes ≡ true
unfolding has_any_scope holds_any lookup
may_use = refl

cancel_stops_example :
    invoke env false "" (call "m-1" "acme" "k-1") "ann" member stopped
    ≡ fail "invoke" (retry_later timeout (String.◌++◌ "invocation cancelled: " "stop")) stopped
cancel_stops_example =
    cancel_stops env env stop "" gateway stopped stop_ack false "" (call "m-1" "acme" "k-1") "ann"
      member (opened "m-1" "acme" "k-1") infer_capability cancels opens refl
      (ne_of_eq-false infer_id "" refl) is_there may_use

-- The service after an invocation.
abbrev once_used : Service
once_used = (invoke env false "" (call "m-1" "acme" "k-1") "ann" member new_service).0

usage-audit_export_example :
    All (λ (r : AuditRecord). r.tenant_id ≡ "acme") (audit_export "acme" once_used)
    × (lookup_or (pos 0) "acme" (usage once_used).tenant_invocations
        ≡ to_int64 (length (audit_export "acme" once_used)))
usage-audit_export_example =
    usage-audit_export "acme" once_used
      (then_step start (invoked env false "" (call "m-1" "acme" "k-1") "ann" member))
      (ne_of_eq-false "acme" "" refl)

abbrev limit_one : QuotaRequest
limit_one = record { tenant_id = "acme"; max_invocations = pos 1 }

abbrev limited : Service
limited = record used_gateway { quotas = insert "acme" (pos 1) used_gateway.quotas }

limits :
    set_quota limit_one used_gateway
    ≡ (limited, ok (record { tenant_id = "acme"; max_invocations = pos 1 }))
unfolding set_quota
limits = refl

nothing_stored : stored_reply used_gateway (opened "m-2" "acme" "") infer_id ≡ none
unfolding stored_reply
nothing_stored = refl

passes_unkeyed : HasPassed (opened "m-2" "acme" "") infer_id member used_gateway infer_capability
unfolding has_any_scope holds_any lookup insert new_service bootstrap_defaults commit
passes_unkeyed = record { registered = refl; allowed = refl; live = refl }

set_quota-check_example :
    check (opened "m-2" "acme" "") infer_id (call "m-2" "acme" "") "ann" member limited ≡ (
      if leb_ℤ (pos 1) (lookup_or (pos 0) "acme" used_gateway.tenant_invocations)
      then refused (retry_later rate_limited "tenant quota exceeded")
      else admitted
          (ticket (opened "m-2" "acme" "") infer_id infer_capability (call "m-2" "acme" "") "ann"))
set_quota-check_example =
    set_quota-check limit_one used_gateway limited
      (record { tenant_id = "acme"; max_invocations = pos 1 }) (opened "m-2" "acme" "") infer_id
      (call "m-2" "acme" "") "ann" member infer_capability limits refl passes_unkeyed nothing_stored
