-- ===== src/Nats/Subjects.antt =====
-- Subjects: those that reach a handler have the tokens that it takes, and the subject of an event gives
-- back the tenant and the topic that it was made of.
use Prim.Native.Char.{Char, code}
use Prim.Native.String
use Prim.Native.String.{[], ◌∷◌}
use mathlib.Core.List.{[], ◌∷◌}
use text.Mathlib.TextLemmas.{nil-append, cons-append, append-nil}
use model_interface_gateway.Base.{
  ℕ, ◌≤◌, String, ◌≡◌, refl, sym, ap, Bool, true, false, ◌&&◌, List, Option, some, arith, ◌==◌, not,
  ◌≢◌, Bool-cases, eqb, eq_cases, inl, inr, ne_of_eq-false, if◌then◌else◌, length, drop,
  eq-false_of_ne,
}
use model_interface_gateway.Text.{split_at, push_head, join, of_code, replace_char, trim_space}
use model_interface_gateway.Text.Laws.{
  Lacks, NonEmpty, cons-ne_nil, append-ne_nil, split_at-NonEmpty, join-split_at,
}
use model_interface_gateway.Types.{EventMessage, PublishRequest, Env}
use model_interface_gateway.Service.{Service}
use model_interface_gateway.Service.Events.{
  event_subject, sanitize_nats_segment, sanitize_nats_subject,
}
use model_interface_gateway.Nats.{
  Msg, named, Answer, Delivery, hello_msg, discover_msg, invoke_msg, publish_msg, cancel_msg,
  heartbeat_msg, subject_of, subscription_of, subject_tokens, subject_token, tokens_from, token_at,
  invoke_named, publish_named, cancel_named, nats_invoke, nats_publish, nats_cancel, deliver,
}

abbrev is_last : List String → Bool
is_last [] = true
is_last (wanted ∷ pattern) = false

-- What NATS documents of a subscription: "*" stands for one token, and ">", at the end, for one or more.
unfoldable pub is_matched : List String → List String → Bool
is_matched [] [] = true
is_matched [] (token ∷ tokens) = false
is_matched (wanted ∷ pattern) [] = false
is_matched (wanted ∷ pattern) (token ∷ tokens) =
    let rest = is_matched pattern tokens in
    if wanted == ">"
    then is_last pattern
    else if wanted == "*"
    then rest
    else wanted == token && rest

-- No token is empty.
unfoldable pub are_tokens : List String → Bool
are_tokens [] = true
are_tokens (token ∷ tokens) = let rest = are_tokens tokens in not (token == "") && rest

-- NATS documents as well that the tokens of a subject are not empty; it does not deliver others.
abbrev pub is_heard : List String → List String → Bool
is_heard pattern tokens = are_tokens tokens && is_matched pattern tokens

is_matched-length :
    (pattern tokens : List String)
    → is_matched pattern tokens ≡ true
    → length pattern ≤ length tokens
unfolding is_matched
is_matched-length [] tokens h = omega arith
is_matched-length (wanted ∷ pattern) [] h = absurd (ground arith)
is_matched-length (wanted ∷ []) (token ∷ tokens) h = omega arith
is_matched-length (wanted ∷ next ∷ pattern) (token ∷ tokens) h =
    ground (arith, is_matched-length (next ∷ pattern) tokens)

tokens_from-some :
    (s : String) (n : ℕ)
    → n ≤ length (subject_tokens s)
    → tokens_from s n ≡ some (join "." (drop n (subject_tokens s)))
unfolding tokens_from
tokens_from-some s n h = ground arith

named-IsSome :
    {A : Type 0} (n : ℕ) (rest : String → Msg A → Service → Service × Option Answer) (msg : Msg A)
    (s : Service)
    → n ≤ length (subject_tokens msg.subject)
    → (outcome : Service × Option Answer) × (named n rest msg s ≡ some outcome)
named-IsSome n rest msg s h = (
  rest (join "." (drop n (subject_tokens msg.subject))) msg s,
  rw (tokens_from-some msg.subject n h) refl,
)

-- A handler that a message reaches by its subscription does not panic: it ends with a state, and an
-- answer or none.
pub deliver-IsSome :
    (env : Env) (d : Delivery) (s : Service)
    → is_matched (subscription_of d) (subject_tokens (subject_of d)) ≡ true
    → (outcome : Service × Option Answer) × (deliver env d s ≡ some outcome)
unfolding deliver subscription_of nats_invoke nats_publish nats_cancel
deliver-IsSome env (hello_msg msg) s h = (_, refl)
deliver-IsSome env (discover_msg msg) s h = (_, refl)
deliver-IsSome env (heartbeat_msg msg) s h = (_, refl)
deliver-IsSome env (invoke_msg expired msg) s h =
    let enough = is_matched-length _ (subject_tokens msg.subject) h in
    named-IsSome 4 (invoke_named env expired) msg s (omega arith)
deliver-IsSome env (publish_msg msg) s h =
    let enough = is_matched-length _ (subject_tokens msg.subject) h in
    named-IsSome 4 (publish_named env) msg s (omega arith)
deliver-IsSome env (cancel_msg msg) s h =
    let enough = is_matched-length _ (subject_tokens msg.subject) h in
    named-IsSome 5 (cancel_named env) msg s (omega arith)

-- The parts, with a text in front of the first.
abbrev onto : String → List String → List String
onto s [] = s ∷ []
onto s (p ∷ ps) = String.◌++◌ s p ∷ ps

push_head-onto :
    (c : Char) (s : String) (ps : List String) → push_head c (onto s ps) ≡ onto (c ∷ s) ps
push_head-onto c s [] = refl
push_head-onto c s (p ∷ ps) = rw (cons-append c s p) refl

onto-nil : (ps : List String) → NonEmpty ps → onto "" ps ≡ ps
onto-nil [] h = absurd h
onto-nil (p ∷ ps) h = rw (nil-append p) refl

split_at-append :
    (sep : ℕ) (s t : String)
    → Lacks sep s
    → split_at sep (String.◌++◌ s t) ≡ onto s (split_at sep t)
unfolding split_at
split_at-append sep [] t h = rw (nil-append t) (sym (onto-nil _ (split_at-NonEmpty sep t)))
split_at-append sep (c ∷ s) t (other, h) =
    rw (cons-append c s t, split_at-append sep s t h)
      (ground (arith, push_head-onto c s (split_at sep t)))

split-prefix :
    (s : String) → split_at 46 (String.◌++◌ "mig.v0_1." s) ≡ "mig" ∷ "v0_1" ∷ split_at 46 s
unfolding split_at
split-prefix s = rw (
  cons-append, cons-append, cons-append, cons-append, cons-append, cons-append, cons-append,
  cons-append, cons-append, nil-append,
)

split-events : (s : String) → split_at 46 (String.◌++◌ ".events." s) ≡ "" ∷ "events" ∷ split_at 46 s
unfolding split_at
split-events s = rw (
  cons-append, cons-append, cons-append, cons-append, cons-append, cons-append, cons-append,
  cons-append, nil-append,
)

event-not_empty : (s : String) → (String.◌++◌ "mig.v0_1." s == "") ≡ false
unfolding of_code
event-not_empty s = eq-false_of_ne _ "" (append-ne_nil (of_code b'm') "ig.v0_1." s)

-- The tokens of a subject that is made as `publishEventToNATS` makes it.
event-tokens :
    (tenant topic : String)
    → Lacks 46 tenant
    → subject_tokens (String.◌++◌ "mig.v0_1." (String.◌++◌ tenant (String.◌++◌ ".events." topic)))
      ≡ "mig" ∷ "v0_1" ∷ tenant ∷ "events" ∷ split_at 46 topic
unfolding subject_tokens
event-tokens tenant topic h =
    rw
      (
        event-not_empty,
        split-prefix,
        split_at-append 46 tenant (String.◌++◌ ".events." topic) h,
        split-events,
        append-nil,
      )
      refl

subject_token-at : (s : String) (n : ℕ) → subject_token s n ≡ token_at n (subject_tokens s)
unfolding subject_token
subject_token-at s n = refl

event_subject-tokens :
    (event : EventMessage)
    → Lacks 46 (sanitize_nats_segment event.header.tenant_id)
    → subject_tokens (event_subject event)
      ≡ "mig"
        ∷ "v0_1"
        ∷ sanitize_nats_segment event.header.tenant_id
        ∷ "events"
        ∷ split_at 46 (sanitize_nats_subject event.topic)
unfolding event_subject
event_subject-tokens event h = event-tokens _ _ h

parts-matched : (ps : List String) → NonEmpty ps → is_matched (">" ∷ []) ps ≡ true
unfolding is_matched
parts-matched [] h = absurd h
parts-matched (p ∷ ps) h = refl

replace_char-ne_nil : (from : ℕ) (to : Char) (s : String) → s ≢ "" → replace_char from to s ≢ ""
unfolding replace_char
replace_char-ne_nil from to [] h = h
replace_char-ne_nil from to (c ∷ s) h = elim (Bool-cases (eqb (code c) from)) [
  | inl replaced ↦ rw (replaced, replace_char) (cons-ne_nil to (replace_char from to s))
  | inr kept ↦ rw (kept, replace_char) (cons-ne_nil c (replace_char from to s))
]

sanitize_nats_segment-ne_nil : (value : String) → sanitize_nats_segment value ≢ ""
unfolding sanitize_nats_segment sanitize_nats_subject
sanitize_nats_segment-ne_nil value = elim (eq_cases (trim_space value) "") [
  | inl empty ↦ rw empty (ne_of_eq-false "unknown" "" refl)
  | inr given ↦ rw given (
      replace_char-ne_nil _ _ _
        (replace_char-ne_nil _ _ _ (ne_of_eq-false (trim_space value) "" given)))
]

and_true : (b : Bool) → b && true ≡ b
and_true false = refl
and_true true = refl

heard-tokens :
    (tenant : String) (ps : List String)
    → tenant ≢ ""
    → NonEmpty ps
    → is_heard
        ("mig" ∷ "v0_1" ∷ "*" ∷ "events" ∷ ">" ∷ [])
        ("mig" ∷ "v0_1" ∷ tenant ∷ "events" ∷ ps)
      ≡ are_tokens ps
unfolding are_tokens is_matched
heard-tokens tenant ps given some_part =
    rw (eq-false_of_ne tenant "" given, parts-matched ps some_part) (and_true (are_tokens ps))

pub event_subject-round_trip :
    (event : EventMessage)
    → Lacks 46 (sanitize_nats_segment event.header.tenant_id)
    → (subject_token (event_subject event) 2 ≡ sanitize_nats_segment event.header.tenant_id)
      × (tokens_from (event_subject event) 4 ≡ some (sanitize_nats_subject event.topic))
      × ((msg : Msg PublishRequest)
          → is_heard (subscription_of (publish_msg msg)) (subject_tokens (event_subject event))
            ≡ are_tokens (split_at 46 (sanitize_nats_subject event.topic)))
unfolding of_code
event_subject-round_trip event h =
    let topic = sanitize_nats_subject event.topic in
    let tokens = event_subject-tokens event h in
    (
      rw (subject_token-at, tokens) refl,
      rw (tokens_from-some (event_subject event) 4 (rw tokens (omega arith)), tokens)
          (ap (λ (t : String). some t) (join-split_at (of_code b'.') topic)),
      λ msg. rw tokens (
          unfold subscription_of in
          heard-tokens _ (split_at 46 topic) (sanitize_nats_segment-ne_nil event.header.tenant_id)
            (split_at-NonEmpty 46 topic)),
    )
