-- ===== src/Service/History/Served.antt =====
-- Histories put together, and the operations of the protocol as histories.
use model_interface_gateway.Base.{◌≡◌, inl, inr, arith, Result-cases}
use model_interface_gateway.Types.{HelloRequest, DiscoverRequest, HeartbeatRequest, Env}
use model_interface_gateway.Auth.{Principal}
use model_interface_gateway.Header.{open_header}
use model_interface_gateway.Service.{Service, invalid}
use model_interface_gateway.Service.Protocol.{hello, discover, heartbeat}
use model_interface_gateway.Service.History.{Step, History, start, then_step, errored}

pub one_step : {s s' : Service} → Step s s' → History s s'
one_step st = then_step start st

pub followed_by : {s s' s'' : Service} → History s s' → History s' s'' → History s s''
followed_by h start = h
followed_by h (then_step k st) = then_step (followed_by h k) st

pub kept-History : {s s' : Service} → s' ≡ s → History s s'
kept-History {s} e = rw e start

-- The operations that only count their errors.
pub hello-History : (env : Env) (req : HelloRequest) (s : Service) → History s (hello env req s).0
unfolding hello
hello-History env req s = kept-History (ground arith)

pub discover-History :
    (env : Env) (req : DiscoverRequest) (p : Principal) (s : Service)
    → History s (discover env req p s).0
unfolding discover
discover-History env req p s = elim (Result-cases (open_header env req.header)) [
  | inl (e, refused) ↦ rw (refused, discover) (one_step (errored (invalid e).code "discover"))
  | inr (head, accepted) ↦ rw (accepted, discover) start
]

pub heartbeat-History :
    (env : Env) (req : HeartbeatRequest) (s : Service) → History s (heartbeat env req s).0
unfolding heartbeat
heartbeat-History env req s = elim (Result-cases (open_header env req.header)) [
  | inl (e, refused) ↦ rw (refused, heartbeat) (one_step (errored (invalid e).code "heartbeat"))
  | inr (head, accepted) ↦ rw (accepted, heartbeat) start
]
