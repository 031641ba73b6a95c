-- ===== src/Frames/Steps.antt =====
-- What the loops over frames and events do to the state is what the operations of the service do, and
-- what other requests do in between.
use model_interface_gateway.Base.{
  ℕ, String, inl, inr, Bool, List, [], ◌∷◌, All, Bool-cases, Option-cases,
}
use model_interface_gateway.Types.{StreamFrame, EventMessage, Env}
use model_interface_gateway.Auth.{Principal}
use model_interface_gateway.Service.{Service, set_metrics}
use model_interface_gateway.Service.Events.{Subscription, receive}
use model_interface_gateway.Service.History.{History, start, invoked, cancelled, received, metered}
use model_interface_gateway.Service.History.Served.{one_step, followed_by}
use model_interface_gateway.Frames.{
  Listener, invoke_frame, cancel_frame, send_all, follow, serve_events, stream_opened,
  stream_closed,
}

-- Other requests do what operations do.
abbrev pub Behaves : (Service → Service) → Type 0
Behaves others = (s : Service) → History s (others s)

pub invoke_frame-History :
    (env : Env) (expired : Bool) (p : Principal) (frame : StreamFrame) (s : Service)
    → History s (invoke_frame env expired p frame s).0
unfolding invoke_frame
invoke_frame-History env expired p frame s = one_step (invoked env expired frame.capability _ _ p)

pub cancel_frame-History :
    (env : Env) (reason capability : String) (frame : StreamFrame) (s : Service)
    → History s (cancel_frame env reason capability frame s).0
unfolding cancel_frame
cancel_frame-History env reason capability frame s =
    one_step (cancelled env _ frame.header.message_id)

pub opened-History : (kind : String) (s : Service) → History s (stream_opened kind s)
unfolding stream_opened set_metrics
opened-History kind s = one_step (metered _)

pub closed-History : (kind : String) (s : Service) → History s (stream_closed kind s)
unfolding stream_closed set_metrics
closed-History kind s = one_step (metered _)

follow-History :
    (topic : String) (ch : ℕ) (takes : EventMessage → Bool) (wakes : List (Service → Service))
    (s : Service)
    → All Behaves wakes
    → History s (follow topic ch takes wakes s).0
unfolding follow
follow-History topic ch takes [] s h = start
follow-History topic ch takes (others ∷ wakes) s (here, h) =
    let woken = followed_by (here s) (one_step (received topic ch)) in
    let later = follow-History topic ch takes wakes (receive topic ch (others s)).0 h in
    elim (Option-cases (receive topic ch (others s)).1) [
      | inl nothing ↦ rw (nothing, follow) (followed_by woken later)
      | inr (event, found) ↦ elim (Bool-cases (takes event)) [
        | inl taken ↦ rw (found, taken, follow) (followed_by woken later)
        | inr lost ↦ rw (found, lost, follow) woken
      ]
    ]

pub serve_events-History :
    (peer : Listener) (topic : String) (sub : Subscription) (s : Service)
    → All Behaves peer.wakes
    → History s (serve_events peer topic sub s).0
unfolding serve_events
serve_events-History peer topic sub s h = elim (Bool-cases (send_all peer.takes sub.snapshot).1) [
  | inl all ↦ rw (all, serve_events) (follow-History topic sub.channel peer.takes peer.wakes s h)
  | inr cut ↦ rw (cut, serve_events) start
]
