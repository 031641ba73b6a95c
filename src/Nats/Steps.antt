-- ===== src/Nats/Steps.antt =====
-- What a message over NATS does to the state is what the operations of the service do.
use model_interface_gateway.Base.{
  ℕ, String, ◌≡◌, ap, Option, none, some, arith, Option-cases, inl, inr, Result-cases,
}
use model_interface_gateway.Types.{MessageHeader, Env}
use model_interface_gateway.Service.{Service, Outcome}
use model_interface_gateway.Service.History.{History, start, invoked, published, cancelled}
use model_interface_gateway.Service.History.Served.{
  one_step, hello-History, discover-History, heartbeat-History,
}
use model_interface_gateway.Http.{Content}
use model_interface_gateway.Nats.{
  Msg, Answer, Delivery, hello_msg, discover_msg, invoke_msg, publish_msg, cancel_msg,
  heartbeat_msg, with_subject_tenant, nats_principal, handle, tokens_from, named, nats_hello,
  nats_discover, invoke_named, publish_named, cancel_named, nats_invoke, nats_publish, nats_cancel,
  nats_heartbeat, deliver,
}

handle-History :
    {A B : Type 0} (env : Env) (complaint : String) (encode : B → Content)
    (header_of : A → MessageHeader) (back : MessageHeader → MessageHeader)
    (operation : A → MessageHeader → Service → Outcome B) (msg : Msg A) (s : Service)
    → ((req : A) (head : MessageHeader) → History s (operation req head s).0)
    → History s (handle env complaint encode header_of back operation msg s).0
unfolding handle
handle-History env complaint encode header_of back operation msg s ran =
    elim (Option-cases msg.decoded) [
      | inl bad ↦ rw (bad, handle) start
      | inr (req, good) ↦
          let head = with_subject_tenant msg.subject (header_of req) in
          elim (Result-cases (operation req head s).1) [
            | inl (e, refused) ↦ rw (good, handle, refused) (ran req head)
            | inr (b, accepted) ↦ rw (good, handle, accepted) (ran req head)
          ]
    ]

done-History :
    (s : Service) (o outcome : Service × Option Answer)
    → some o ≡ some outcome
    → History s o.0
    → History s outcome.0
done-History s o outcome h ran =
    let same : o.0 ≡ outcome.0 =
      ap (λ (x : Option (Service × Option Answer)). elim x [ none ↦ o.0 | some y ↦ y.0 ]) h in
    rw (← same) ran

named-History :
    {A : Type 0} (n : ℕ) (rest : String → Msg A → Service → Service × Option Answer) (msg : Msg A)
    (s : Service) (outcome : Service × Option Answer)
    → ((name : String) → History s (rest name msg s).0)
    → named n rest msg s ≡ some outcome
    → History s outcome.0
named-History n rest msg s outcome ran h = elim (Option-cases (tokens_from msg.subject n)) [
  | inl short ↦ absurd (ground arith)
  | inr (name, found) ↦ done-History s (rest name msg s) outcome (rw found at h) (ran name)
]

-- What a message does that ends with a state is a sequence of operations of the service.
pub deliver-History :
    (env : Env) (d : Delivery) (s : Service) (outcome : Service × Option Answer)
    → deliver env d s ≡ some outcome
    → History s outcome.0
unfolding deliver nats_hello nats_discover invoke_named publish_named cancel_named nats_invoke
    nats_publish nats_cancel nats_heartbeat
deliver-History env (hello_msg msg) s outcome h =
    done-History s (nats_hello env msg s) outcome h
      (handle-History env _ _ _ _ _ msg s (λ req head. hello-History env _ s))
deliver-History env (discover_msg msg) s outcome h =
    done-History s (nats_discover env msg s) outcome h (
      handle-History env _ _ _ _ _ msg s
        (λ req head. discover-History env _ (nats_principal head.tenant_id) s))
deliver-History env (heartbeat_msg msg) s outcome h =
    done-History s (nats_heartbeat env msg s) outcome h
      (handle-History env _ _ _ _ _ msg s (λ req head. heartbeat-History env _ s))
deliver-History env (invoke_msg expired msg) s outcome h =
    named-History 4 (invoke_named env expired) msg s outcome
      (λ name. handle-History env _ _ _ _ _ msg s (λ req head.
        one_step (invoked env expired _ _ "nats-client" (nats_principal head.tenant_id))))
      h
deliver-History env (publish_msg msg) s outcome h =
    named-History 4 (publish_named env) msg s outcome
      (λ name. handle-History env _ _ _ _ _ msg s (λ req head. one_step (published env _ _))) h
deliver-History env (cancel_msg msg) s outcome h =
    named-History 5 (cancel_named env) msg s outcome
      (λ name. handle-History env _ _ _ _ _ msg s (λ req head. one_step (cancelled env _ _))) h
