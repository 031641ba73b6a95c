-- ===== src/Tests/Nats.antt =====
-- Messages over NATS.
use model_interface_gateway.Base.{
  ◌+◌, ◌≡◌, refl, true, false, Option, none, some, [], ◌∷◌, length, arith,
}
use model_interface_gateway.Text.{
  split_at, trim_space, trim_left, trim_right, is_space, replace_char, contains, has_prefix,
}
use model_interface_gateway.Base.Int.{pos}
use model_interface_gateway.Text.Laws.{Lacks}
use model_interface_gateway.Types.{EventMessage}
use model_interface_gateway.Header.{defaulted}
use model_interface_gateway.Service.{Service}
use model_interface_gateway.Service.Events.{
  sanitize_nats_segment, sanitize_nats_subject, topic_error, events_of,
}
use model_interface_gateway.Nats.{
  Answer, Delivery, invoke_msg, subscription_of, subject_of, subject_tokens, deliver,
}
use model_interface_gateway.Nats.Subjects.{is_matched, deliver-IsSome}
use model_interface_gateway.Nats.Laws.{IsRepublished}
use model_interface_gateway.Nats.Echo.{echoes, echoes-never_end}
use model_interface_gateway.Tests.{env, sent, call, gateway}
use model_interface_gateway.Tests.Access.{is_normal}

abbrev pub invocation : Delivery
invocation = invoke_msg false (record {
  subject = "mig.v0_1.acme.invoke.observatory.models.infer";
  reply = "inbox.1";
  decoded = some (call "m-1" "" "");
})

pub is_delivered :
    is_matched (subscription_of invocation) (subject_tokens (subject_of invocation)) ≡ true
unfolding is_matched subscription_of subject_tokens split_at
is_delivered = refl

deliver-IsSome_example :
    (outcome : Service × Option Answer) × (deliver env invocation gateway ≡ some outcome)
deliver-IsSome_example = deliver-IsSome env invocation gateway is_delivered

abbrev event : EventMessage
event = record {
  header = defaulted env (sent "m-1" "acme" "");
  topic = "models.done";
  event_id = "e-1";
  sequence = pos 1;
  payload = none;
  published_at = env.now;
  replay = false;
}

tenant_Lacks : Lacks b'.' (sanitize_nats_segment "acme")
unfolding sanitize_nats_segment sanitize_nats_subject trim_space trim_left trim_right is_space
    replace_char
tenant_Lacks = (
  λ e. absurd (omega arith),
  (λ e. absurd (omega arith), (λ e. absurd (omega arith), (λ e. absurd (omega arith), tt))),
)

is_republished : IsRepublished event
unfolding topic_error contains has_prefix
is_republished = record { header = is_normal; topic = refl; tenant = tenant_Lacks }

-- A gateway with a NATS connection on which nothing was sent yet.
abbrev connected : Service
connected = record gateway { nats_out = some [] }

echoes-never_end_example :
    (s' : Service) × (echoes (env ∷ env ∷ env ∷ []) event connected ≡ some s')
    × (length (events_of s' "models.done") ≡ length (events_of connected "models.done") + 3)
echoes-never_end_example =
    echoes-never_end (env ∷ env ∷ env ∷ []) event connected [] is_republished refl
