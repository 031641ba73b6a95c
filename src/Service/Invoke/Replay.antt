-- ===== src/Service/Invoke/Replay.antt =====
-- Idempotency: what a stored reply is good for, and where its key is ambiguous.
use Prim.Native.Char.{code}
use Prim.Native.String
use Prim.Native.String.{[], ◌∷◌}
use text.Mathlib.TextLemmas.{
  nil-append, cons-append, append_assoc, append_cancel_left, append-ne-nil_of_right_ne-nil,
  cons-ne-nil, cons-eq-cons,
}
use model_interface_gateway.Base.{
  String, ◌≡◌, ◌≢◌, refl, sym, ap, ap₂, ◌∙◌, inl, inr, Bool, some, ok, eq-false_of_ne,
}
use model_interface_gateway.Base.GoMap.{lookup-insert_self}
use model_interface_gateway.Text.Laws.{Lacks}
use model_interface_gateway.Types.{
  MessageHeader, CapabilityDescriptor, InvokeRequest, InvokeResponse, Env,
}
use model_interface_gateway.Header.{open_header}
use model_interface_gateway.Auth.{Principal}
use model_interface_gateway.Service.{Service}
use model_interface_gateway.Service.Invoke.{
  idempotency_key, stored_reply, Ticket, replayed, check, admit, commit, reply_of, conclude, invoke,
}
use model_interface_gateway.Service.Invoke.Laws.{
  named, ticket, HasPassed, IsServed, invoke-IsServed,
}

stored_reply-commit :
    (env : Env) (t : Ticket) (s : Service)
    → t.head.idempotency_key ≢ ""
    → stored_reply (commit env t s) t.head t.capability ≡ some (reply_of t)
unfolding stored_reply commit
stored_reply-commit env t s h =
    rw (eq-false_of_ne t.head.idempotency_key "" h)
      (lookup-insert_self _ (reply_of t) s.idempotency)

-- The store is read by tenant and key alone.
stored_reply_eq :
    (s : Service) (a b : MessageHeader) (name : String)
    → a.tenant_id ≡ b.tenant_id
    → a.idempotency_key ≡ b.idempotency_key
    → stored_reply s a name ≡ stored_reply s b name
unfolding stored_reply
stored_reply_eq s a b name p q = cc

check_of_stored :
    (head : MessageHeader) (name : String) (req : InvokeRequest) (actor : String) (p : Principal)
    (s : Service) {d : CapabilityDescriptor} {reply : InvokeResponse}
    → HasPassed head name p s d
    → stored_reply s head name ≡ some reply
    → check head name req actor p s ≡ replayed (record reply { header = head })
unfolding check
check_of_stored head name req actor p s h stored =
    rw (h.registered, h.allowed, h.live, stored, check)

-- A request whose reply is stored is answered from the store, and changes nothing.
invoke_of_stored :
    (env : Env) (expired : Bool) (capability : String) (req : InvokeRequest) (actor : String)
    (p : Principal) (s : Service) {head : MessageHeader} {d : CapabilityDescriptor}
    {reply : InvokeResponse}
    → open_header env req.header ≡ ok head
    → named capability req ≢ ""
    → HasPassed head (named capability req) p s d
    → stored_reply s head (named capability req) ≡ some reply
    → invoke env expired capability req actor p s ≡ (s, ok (record reply { header = head }))
unfolding invoke admit conclude
invoke_of_stored env expired capability req actor p s {head} opened nonempty passed stored = rw (
  opened,
  eq-false_of_ne _ "" nonempty,
  check_of_stored head (named capability req) req actor p s passed stored,
  invoke,
  admit,
  conclude,
)

served_stores :
    {env : Env} {capability : String} {req : InvokeRequest} {actor : String} {p : Principal}
    {s s' : Service} {resp : InvokeResponse} (v : IsServed env capability req actor p s s' resp)
    → v.head.idempotency_key ≢ ""
    → (reply : InvokeResponse) × (stored_reply s' v.head (named capability req) ≡ some reply)
      × (resp ≡ record reply { header = v.head })
served_stores {env} {capability} {req} {actor} {s} v key = elim v.effect [
  | inl (reply, stored, eq, same) ↦ (reply, rw same stored, eq)
  | inr (room, wrote, eq) ↦
      let t : Ticket = ticket v.head (named capability req) v.descriptor req actor in
      (reply_of t, rw wrote (stored_reply-commit env t s key), eq)
]

-- The reply carries the header of its request.
pub answered :
    {env : Env} {capability : String} {req : InvokeRequest} {actor : String} {p : Principal}
    {s s' : Service} {resp : InvokeResponse} (v : IsServed env capability req actor p s s' resp)
    → resp.header ≡ v.head
answered v = elim v.effect [
  | inl (reply, stored, eq, same) ↦ ap (λ (r : InvokeResponse). r.header) eq
  | inr (room, wrote, eq) ↦ ap (λ (r : InvokeResponse). r.header) eq
]

-- Retrying an invocation that succeeded, with the same tenant, capability and idempotency key, gives
-- the same reply under the retry's own header, and changes nothing: whatever the retry's payload,
-- actor and deadline, if its principal may use the capability and its message was not cancelled.
pub retry_replays :
    (env env' : Env) (expired expired' : Bool) (capability capability' : String)
    (req req' : InvokeRequest) (actor actor' : String) (p p' : Principal) (s s' : Service)
    (resp : InvokeResponse) (head' : MessageHeader) (d : CapabilityDescriptor)
    (first : invoke env expired capability req actor p s ≡ (s', ok resp))
    → open_header env' req'.header ≡ ok head'
    → named capability' req' ≡ named capability req
    → head'.tenant_id ≡ resp.header.tenant_id
    → head'.idempotency_key ≡ resp.header.idempotency_key
    → head'.idempotency_key ≢ ""
    → HasPassed head' (named capability' req') p' s' d
    → invoke env' expired' capability' req' actor' p' s' ≡ (s', ok (record resp { header = head' }))
retry_replays env env' expired expired' capability capability' req req' actor actor' p p' s s' resp
      head' d first opened same tenant key keyed passed =
    let v = invoke-IsServed env expired capability req actor p s s' resp first in
    let header = answered v in
    let keyed' : v.head.idempotency_key ≢ "" =
      λ e. keyed (key ∙ ap (λ (h : MessageHeader). h.idempotency_key) header ∙ e) in
    let (reply, stored, eq) = served_stores v keyed' in
    let found : stored_reply s' head' (named capability' req') ≡ some reply = rw same (
      stored_reply_eq s' head' v.head (named capability req)
        (tenant ∙ ap (λ (h : MessageHeader). h.tenant_id) header)
        (key ∙ ap (λ (h : MessageHeader). h.idempotency_key) header)
      ∙ stored) in
    invoke_of_stored env' expired' capability' req' actor' p' s' opened
      (λ e. v.nonempty (sym same ∙ e)) passed found
    ∙ ap (λ (r : InvokeResponse). (s', ok (record r { header = head' }))) (sym eq)

-- A text without the separator, up to the separator, is determined by the whole.
cut :
    (s t r r' : String)
    → Lacks b':' s
    → Lacks b':' t
    → String.◌++◌ s (String.◌++◌ ":" r) ≡ String.◌++◌ t (String.◌++◌ ":" r')
    → (s ≡ t) × (r ≡ r')
cut [] [] r r' h k e = (refl, append_cancel_left ":" r r' (sym (nil-append _) ∙ e ∙ nil-append _))
cut [] (d ∷ t) r r' h k e =
    let (here, _) =
      cons-eq-cons.0 (sym (cons-append _ [] r) ∙ sym (nil-append _) ∙ e ∙ cons-append d t _) in
    absurd (k.0 (sym (ap code here)))
cut (c ∷ s) [] r r' h k e =
    let (here, _) =
      cons-eq-cons.0 (sym (cons-append c s _) ∙ e ∙ nil-append _ ∙ cons-append _ [] r') in
    absurd (h.0 (ap code here))
cut (c ∷ s) (d ∷ t) r r' h k e =
    let (here, rest) = cons-eq-cons.0 (sym (cons-append c s _) ∙ e ∙ cons-append d t _) in
    let (same, same') = cut s t r r' h.1 k.1 rest in (ap₂ ◌∷◌ here same, same')

-- For tenants and capabilities without a colon, the key of the store tells tenant, capability and
-- idempotency key apart.
pub idempotency_key_inj :
    (t t' c c' k k' : String)
    → Lacks b':' t
    → Lacks b':' t'
    → Lacks b':' c
    → Lacks b':' c'
    → idempotency_key t c k ≡ idempotency_key t' c' k'
    → (t ≡ t') × (c ≡ c') × (k ≡ k')
unfolding idempotency_key
idempotency_key_inj t t' c c' k k' ht ht' hc hc' e =
    let (same_t, rest) = cut t t' _ _ ht ht' e in
    let (same_c, same_k) = cut c c' k k' hc hc' rest in (same_t, same_c, same_k)

-- With a colon in a tenant it does not: the tenant `t:c` with the key `k` reads the store where the
-- tenant `t` with the key `c:k` wrote.
idempotency_key_clash :
    (t c k : String)
    → idempotency_key (String.◌++◌ t (String.◌++◌ ":" c)) c k
      ≡ idempotency_key t c (String.◌++◌ c (String.◌++◌ ":" k))
unfolding idempotency_key
idempotency_key_clash t c k = simp append_assoc

with_colon : (c k : String) {key : String} → key ≡ String.◌++◌ c (String.◌++◌ ":" k) → key ≢ ""
with_colon c k e empty =
    append-ne-nil_of_right_ne-nil c (λ z. cons-ne-nil _ _ (sym (cons-append _ [] k) ∙ z))
      (sym e ∙ empty)

shared_key :
    (t : Ticket) (head : MessageHeader) (k : String)
    → t.head.idempotency_key ≡ String.◌++◌ t.capability (String.◌++◌ ":" k)
    → head.tenant_id ≡ String.◌++◌ t.head.tenant_id (String.◌++◌ ":" t.capability)
    → head.idempotency_key ≡ k
    → idempotency_key head.tenant_id t.capability head.idempotency_key
      ≡ idempotency_key t.head.tenant_id t.capability t.head.idempotency_key
shared_key t head k key tenant key' =
    ap₂ (λ (a b : String). idempotency_key a t.capability b) tenant key'
    ∙ idempotency_key_clash t.head.tenant_id t.capability k
    ∙ ap (idempotency_key t.head.tenant_id t.capability) (sym key)

-- Whatever the tenant `t` and the capability `c`: the reply that is stored for `t` under the
-- idempotency key `c:k` is found for another tenant, `t:c`, under the key `k`, for a `k` that is not
-- empty.
pub tenants_share_replies :
    (env : Env) (t : Ticket) (head : MessageHeader) (k : String) (s : Service)
    → t.head.idempotency_key ≡ String.◌++◌ t.capability (String.◌++◌ ":" k)
    → head.tenant_id ≡ String.◌++◌ t.head.tenant_id (String.◌++◌ ":" t.capability)
    → head.idempotency_key ≡ k
    → k ≢ ""
    → stored_reply (commit env t s) head t.capability ≡ some (reply_of t)
unfolding stored_reply commit
tenants_share_replies env t head k s key tenant key' keyed =
    rw (eq-false_of_ne t.head.idempotency_key "" (with_colon t.capability k key)) (
      rw (eq-false_of_ne head.idempotency_key "" (λ e. keyed (sym key' ∙ e))) (
        rw (shared_key t head k key tenant key') (lookup-insert_self _ (reply_of t) s.idempotency)))
