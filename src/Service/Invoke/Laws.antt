-- ===== src/Service/Invoke/Laws.antt =====
-- What an invocation that succeeds has passed, and what each refusal means.
use model_interface_gateway.Base.{
  String, ◌≡◌, ◌≢◌, ◌⊎◌, refl, sym, ap, ◌∙◌, ne_of_eq-false, inl, inr, Bool, true, false, none,
  some, Result, ok, err, arith, ◌==◌, if◌then◌else◌, Option-cases,
}
use model_interface_gateway.Base.GoMap.{lookup}
use model_interface_gateway.Types.{
  MessageHeader, MigError, CapabilityDescriptor, InvokeRequest, InvokeResponse, Env,
}
use model_interface_gateway.Header.{or_default, open_header}
use model_interface_gateway.Auth.{Principal, has_any_scope}
use model_interface_gateway.Service.{Service, invalid}
use model_interface_gateway.Service.Invoke.{
  stored_reply, is_exhausted, Ticket, Admission, refused, replayed, admitted, check, admit, commit,
  reply_of, finish, conclude, invoke,
}

-- The capability that a request names: in the path, or else in the body.
abbrev pub named : String → InvokeRequest → String
named capability req = or_default capability req.capability

abbrev pub ticket : MessageHeader → String → CapabilityDescriptor → InvokeRequest → String → Ticket
ticket head name descriptor req actor = record {
  head = head;
  capability = name;
  descriptor = descriptor;
  payload = req.payload;
  actor = actor;
}

-- The checks that a request has passed.
pub record HasPassed (head : MessageHeader) (name : String) (p : Principal) (s : Service)
    (d : CapabilityDescriptor) : Type 0 where
  pub registered : lookup name s.capabilities ≡ some d
  pub allowed : has_any_scope p d.auth_scopes ≡ true
  pub live : lookup head.message_id s.cancelled ≡ none

module _ (head : MessageHeader) (name : String) (req : InvokeRequest) (actor : String)
    (p : Principal) (s : Service) where
  pub check-admitted :
      (t : Ticket)
      → check head name req actor p s ≡ admitted t
      → (d : CapabilityDescriptor) × HasPassed head name p s d
        × (stored_reply s head name ≡ none)
        × (is_exhausted s head.tenant_id ≡ false)
        × (t ≡ ticket head name d req actor)
  unfolding check
  check-admitted t h = elim (Option-cases (lookup name s.capabilities)) [
    | inl missing ↦ absurd (ground arith)
    | inr (d, found) ↦ (
      d,
      record { registered = found; allowed = ground arith; live = ground arith },
      ground arith,
      ground arith,
      ground arith,
    )
  ]

  pub check-replayed :
      (resp : InvokeResponse)
      → check head name req actor p s ≡ replayed resp
      → (d : CapabilityDescriptor) × HasPassed head name p s d
        × (reply : InvokeResponse) × (stored_reply s head name ≡ some reply)
        × (resp ≡ record reply { header = head })
  unfolding check
  check-replayed resp h = elim (Option-cases (lookup name s.capabilities)) [
    | inl missing ↦ absurd (ground arith)
    | inr (d, found) ↦ elim (Option-cases (stored_reply s head name)) [
      | inl none_stored ↦ absurd (ground arith)
      | inr (reply, stored) ↦ (
        d,
        record { registered = found; allowed = ground arith; live = ground arith },
        reply,
        stored,
        ground arith,
      )
    ]
  ]

-- A request that is not refused had a header that `Normalize` accepts, and went through the checks.
pub admit_passed :
    (env : Env) (capability : String) (req : InvokeRequest) (actor : String) (p : Principal)
    (s : Service) (a : Admission)
    → admit env capability req actor p s ≡ a
    → ((e : MigError) → a ≢ refused e)
    → (head : MessageHeader) × (open_header env req.header ≡ ok head)
      × (named capability req ≢ "")
      × (check head (named capability req) req actor p s ≡ a)
unfolding admit
admit_passed env capability req actor p s a h kept = opened (open_header env req.header) refl h
  where
    tested :
        (head : MessageHeader)
        → (b : Bool) → (named capability req == "") ≡ b
        → (if b
            then refused (invalid "capability is required")
            else check head (named capability req) req actor p s)
          ≡ a
        → (named capability req ≢ "") × (check head (named capability req) req actor p s ≡ a)
    tested head true e k = absurd (kept _ (sym k))
    tested head false e k = (ne_of_eq-false _ _ e, k)

    opened :
        (r : Result String MessageHeader)
        → open_header env req.header ≡ r
        → elim r [
          | err e ↦ refused (invalid e)
          | ok head ↦
              (if named capability req == ""
                then refused (invalid "capability is required")
                else check head (named capability req) req actor p s)
        ]
          ≡ a
        → (head : MessageHeader) × (open_header env req.header ≡ ok head)
          × (named capability req ≢ "")
          × (check head (named capability req) req actor p s ≡ a)
    opened (err e) o k = absurd (kept _ (sym k))
    opened (ok head) o k =
        let (nonempty, checked) = tested head (named capability req == "") refl k in
        (head, o, nonempty, checked)

-- A successful invocation: its header, its checks, and one of the two ways to be answered.
pub record IsServed (env : Env) (capability : String) (req : InvokeRequest) (actor : String)
    (p : Principal) (s s' : Service) (resp : InvokeResponse) : Type 0 where
  pub head : MessageHeader
  pub opened : open_header env req.header ≡ ok head
  pub descriptor : CapabilityDescriptor
  pub passed : HasPassed head (named capability req) p s descriptor
  pub nonempty : named capability req ≢ ""
  pub effect :
      ((reply : InvokeResponse) × (stored_reply s head (named capability req) ≡ some reply)
        × (resp ≡ record reply { header = head })
        × (s' ≡ s))
      ⊎ ((is_exhausted s head.tenant_id ≡ false)
          × (s' ≡ commit env (ticket head (named capability req) descriptor req actor) s)
          × (resp ≡ reply_of (ticket head (named capability req) descriptor req actor)))

conclude-ok :
    (env : Env) (expired : Bool) (a : Admission) (s s' : Service) (resp : InvokeResponse)
    → conclude env expired a s ≡ (s', ok resp)
    → ((a ≡ replayed resp) × (s' ≡ s))
      ⊎ ((t : Ticket) × (a ≡ admitted t) × (s' ≡ commit env t s) × (resp ≡ reply_of t))
unfolding conclude finish
conclude-ok env expired (refused e) s s' resp h = absurd (ground arith)
conclude-ok env expired (replayed reply) s s' resp h = inl (ground arith, ground arith)
conclude-ok env true (admitted t) s s' resp h = absurd (ground arith)
conclude-ok env false (admitted t) s s' resp h = inr (t, refl, ground arith, ground arith)

-- An invocation that succeeds is for a registered capability that the principal may use, and was not
-- cancelled; it is answered from the store and changes nothing, or the tenant's quota was not used up
-- and it is written down.
pub invoke-IsServed :
    (env : Env) (expired : Bool) (capability : String) (req : InvokeRequest) (actor : String)
    (p : Principal) (s s' : Service) (resp : InvokeResponse)
    → invoke env expired capability req actor p s ≡ (s', ok resp)
    → IsServed env capability req actor p s s' resp
unfolding invoke
invoke-IsServed env expired capability req actor p s s' resp h =
    elim (conclude-ok env expired (admit env capability req actor p s) s s' resp h) [
      | inl (was, same) ↦
          let (head, opened, nonempty, checked) =
            admit_passed env capability req actor p s _ was (λ e. cc) in
          let (d, passed, reply, stored, eq) =
            check-replayed head (named capability req) req actor p s resp checked in
          record {
            head = head;
            opened = opened;
            descriptor = d;
            passed = passed;
            nonempty = nonempty;
            effect = inl (reply, stored, eq, same);
          }
      | inr (t, was, wrote, eq) ↦
          let (head, opened, nonempty, checked) =
            admit_passed env capability req actor p s _ was (λ e. cc) in
          let (d, passed, fresh, room, is_t) =
            check-admitted head (named capability req) req actor p s t checked in
          record {
            head = head;
            opened = opened;
            descriptor = d;
            passed = passed;
            nonempty = nonempty;
            effect =
                inr (room, wrote ∙ ap (λ (u : Ticket). commit env u s) is_t, eq ∙ ap reply_of is_t);
          }
    ]
