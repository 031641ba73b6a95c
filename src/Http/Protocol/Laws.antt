-- ===== src/Http/Protocol/Laws.antt =====
-- What the status of an invocation over HTTP says.
use model_interface_gateway.Base.{
  ℕ, String, ◌≡◌, refl, inl, inr, Bool, true, false, none, some, Result, ok, err, arith, ◌==◌,
  eq_iff, Bool-cases, Option-cases, Result-cases,
}
use model_interface_gateway.Base.GoMap.{lookup}
use model_interface_gateway.Types.{
  MessageHeader, MigError, CapabilityDescriptor, InvokeRequest, InvokeResponse, Env,
  unsupported_capability, timeout, rate_limited, forbidden, invalid_request,
}
use model_interface_gateway.Header.{or_default, open_header, caller_header}
use model_interface_gateway.Auth.{Principal, apply_principal_header, has_any_scope}
use model_interface_gateway.Service.{Service, Outcome}
use model_interface_gateway.Service.Invoke.{
  Admission, refused, replayed, admitted, is_exhausted, stored_reply, check, admit, finish,
  conclude, invoke, reply_of,
}
use model_interface_gateway.Http.{
  Incoming, Content, invoke_content, status_of, write_mig_error, with_body,
}
use model_interface_gateway.Http.Protocol.{
  invoke_status, reply, as_principal, http_actor, handle_invoke,
}

module _ (head : MessageHeader) (capability : String) (p : Principal) (s : Service) where
  -- Why the service refuses an invocation of a capability, by the status that it is answered with.
  pub data Refusal : ℕ → Type 0 where
    unknown : lookup capability s.capabilities ≡ none → Refusal 404
    unscoped :
        (d : CapabilityDescriptor)
        → lookup capability s.capabilities ≡ some d
        → has_any_scope p d.auth_scopes ≡ false
        → Refusal 403
    cancelled : (reason : String) → lookup head.message_id s.cancelled ≡ some reason → Refusal 504
    exhausted : is_exhausted s head.tenant_id ≡ true → Refusal 429

  check-Refusal :
      (req : InvokeRequest) (actor : String) (e : MigError)
      → check head capability req actor p s ≡ refused e
      → Refusal (invoke_status e)
  unfolding check invoke_status
  check-Refusal req actor e h = elim (Option-cases (lookup capability s.capabilities)) [
    | inl missing ↦
        let same : e.code ≡ unsupported_capability = ground arith in rw same (unknown missing)
    | inr (d, found) ↦ elim (Bool-cases (has_any_scope p d.auth_scopes)) [
      | inr lacking ↦
          let same : e.code ≡ forbidden = ground arith in rw same (unscoped d found lacking)
      | inl allowed ↦ elim (Option-cases (lookup head.message_id s.cancelled)) [
        | inr (reason, stopped) ↦
            let same : e.code ≡ timeout = ground arith in rw same (cancelled reason stopped)
        | inl live ↦ elim (Option-cases (stored_reply s head capability)) [
          | inr (old, stored) ↦ absurd (ground arith)
          | inl fresh ↦ elim (Bool-cases (is_exhausted s head.tenant_id)) [
            | inl full ↦ let same : e.code ≡ rate_limited = ground arith in rw same (exhausted full)
            | inr room ↦ absurd (ground arith)
          ]
        ]
      ]
    ]
  ]

module _ (env : Env) (p : Principal) (r : Incoming) (expired : Bool) (capability : String)
    (req : InvokeRequest) (s : Service) where
  -- The header that the service gets, the capability that is asked for, and what the service does.
  abbrev pub own_head : MessageHeader
  own_head = (apply_principal_header req.header p r.tenant_header).0

  abbrev pub asked_for : String
  asked_for = or_default capability req.capability

  abbrev pub invocation : Outcome InvokeResponse
  invocation =
      invoke env expired capability (record req { header = own_head }) (http_actor env p r) p s

  -- What a status of an invocation says.
  pub data IsExplained : ℕ → Type 0 where
    foreign :
        (e : MigError)
        → (apply_principal_header req.header p r.tenant_header).1 ≡ some e
        → IsExplained 403
    malformed : (e : String) → open_header env own_head ≡ err e → IsExplained 400
    unnamed : asked_for ≡ "" → IsExplained 400
    refused_as :
        {status : ℕ} (head : MessageHeader)
        → open_header env own_head ≡ ok head
        → Refusal head asked_for p s status
        → IsExplained status
    late : expired ≡ true → IsExplained 504
    served : (resp : InvokeResponse) → invocation.1 ≡ ok resp → IsExplained 200

  -- The status of what the service answers.
  abbrev outcome_status : Result MigError InvokeResponse → ℕ
  outcome_status (ok resp) = 200
  outcome_status (err e) = invoke_status e

  reply-status :
      (content : InvokeResponse → Content) (head : MessageHeader) (outcome : Outcome InvokeResponse)
      → status_of (reply env p r content invoke_status head outcome).1 ≡ outcome_status outcome.1
  unfolding reply write_mig_error status_of
  reply-status content head (s', ok resp) = refl
  reply-status content head (s', err e) = refl

  admit-IsExplained :
      (e : MigError)
      → admit env capability (record req { header = own_head }) (http_actor env p r) p s ≡ refused e
      → IsExplained (invoke_status e)
  unfolding admit invoke_status
  admit-IsExplained e h = elim (Result-cases (open_header env own_head)) [
    | inl (x, bad) ↦ let same : e.code ≡ invalid_request = ground arith in rw same (malformed x bad)
    | inr (head, good) ↦ elim (Bool-cases (asked_for == "")) [
      | inl none_named ↦
          let same : e.code ≡ invalid_request = ground arith in
          rw same (unnamed ((eq_iff asked_for "").0 none_named))
      | inr named ↦ refused_as head good (
          check-Refusal head asked_for p s (record req { header = own_head }) (http_actor env p r) e
            (rw (good, named, admit) at h))
    ]
  ]

  conclude-IsExplained :
      (a : Admission)
      → admit env capability (record req { header = own_head }) (http_actor env p r) p s ≡ a
      → IsExplained (outcome_status (conclude env expired a s).1)
  unfolding conclude finish invoke
  conclude-IsExplained (refused e) h = admit-IsExplained e h
  conclude-IsExplained (replayed resp) h = served resp (rw (h, invoke) refl)
  conclude-IsExplained (admitted t) h = elim (Bool-cases expired) [
    | inl over ↦ unfold invoke_status in rw (over, finish) (late refl)
    | inr time ↦ rw (time, finish) (served (reply_of t) (rw (h, invoke) refl))
  ]

  -- An invocation over HTTP whose body is decoded is answered with 403 if the header is refused, or if
  -- the principal lacks the scope; with 400 if the header does not normalise or no capability is
  -- named; with 404 if the capability is not registered; with 504 if the message was cancelled or the
  -- deadline has passed; with 429 if the quota of the tenant is used up; and with 200 if the service
  -- has served it. No other status is given, and none without its reason.
  pub handle_invoke-IsExplained :
      IsExplained (status_of (handle_invoke env p r expired capability (some (ok req)) s).1)
  unfolding handle_invoke with_body as_principal
  handle_invoke-IsExplained =
      elim (Option-cases (apply_principal_header req.header p r.tenant_header).1) [
        | inr (e, bad) ↦ unfold status_of write_mig_error in rw (bad, as_principal) (foreign e bad)
        | inl free ↦
            rw
              (
                free,
                as_principal,
                reply-status invoke_content (caller_header env own_head) invocation,
              )
              (unfold invoke in conclude-IsExplained _ refl)
      ]
