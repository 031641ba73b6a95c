-- ===== src/Service/Invoke/Cancelled.antt =====
-- Cancellation: what `Cancel` does to an invocation that has not passed its checks.
use model_interface_gateway.Base.{
  String, ◌≡◌, ◌≢◌, refl, inl, inr, Bool, true, some, ok, arith, ◌==◌, eq-false_of_ne, Bool-cases,
  Result-cases,
}
use Prim.Native.String
use model_interface_gateway.Base.GoMap.{lookup, insert, lookup-insert_self}
use model_interface_gateway.Types.{
  MessageHeader, CapabilityDescriptor, CancelRequest, CancelAck, InvokeRequest, Env, timeout,
}
use model_interface_gateway.Header.{or_default, open_header}
use model_interface_gateway.Auth.{Principal, has_any_scope}
use model_interface_gateway.Service.{Service, fail}
use model_interface_gateway.Service.Protocol.{cancel}
use model_interface_gateway.Service.Invoke.{retry_later, check, admit, conclude, invoke}
use model_interface_gateway.Service.Invoke.Laws.{named}

cancel-ok :
    (env : Env) (req : CancelRequest) (id : String) (s s' : Service) (ack : CancelAck)
    → cancel env req id s ≡ (s', ok ack)
    → s' ≡ record s { cancelled = insert ack.target_message_id req.reason s.cancelled }
unfolding cancel
cancel-ok env req id s s' ack h = elim (Result-cases (open_header env req.header)) [
  | inl (e, bad) ↦ absurd (ground arith)
  | inr (head, opened) ↦ elim (Bool-cases (or_default id req.target_message_id == "")) [
    | inl empty ↦ absurd (ground arith)
    | inr target ↦ ground arith
  ]
]

-- Once a cancellation is accepted, an invocation with the message identifier that it named, of a
-- capability that is registered and that the principal may use, times out with the reason given.
pub cancel_stops :
    (earlier later : Env) (req : CancelRequest) (id : String) (s s' : Service) (ack : CancelAck)
    (expired : Bool) (capability : String) (inv : InvokeRequest) (actor : String) (p : Principal)
    (head : MessageHeader) (d : CapabilityDescriptor)
    → cancel earlier req id s ≡ (s', ok ack)
    → open_header later inv.header ≡ ok head
    → head.message_id ≡ ack.target_message_id
    → named capability inv ≢ ""
    → lookup (named capability inv) s.capabilities ≡ some d
    → has_any_scope p d.auth_scopes ≡ true
    → invoke later expired capability inv actor p s'
      ≡ fail "invoke" (retry_later timeout (String.◌++◌ "invocation cancelled: " req.reason)) s'
unfolding invoke admit check conclude
cancel_stops earlier later req id s s' ack expired capability inv actor p head d h opened same
      nonempty registered allowed =
    let wrote = cancel-ok earlier req id s s' ack h in
    let still : lookup (named capability inv) s'.capabilities ≡ some d = rw wrote registered in
    let dead : lookup head.message_id s'.cancelled ≡ some req.reason =
      rw (wrote, same) (lookup-insert_self ack.target_message_id req.reason s.cancelled) in
    rw (opened, eq-false_of_ne _ "" nonempty, still, allowed, dead, invoke, admit, check, conclude)
      refl
