-- ===== src/Http/Streams/Release.antt =====
-- An event stream over HTTP leaves nothing behind.
use model_interface_gateway.Base.{String, ◌≡◌, inl, inr, ok, Bool-cases}
use model_interface_gateway.Types.{Env, short_id}
use model_interface_gateway.Auth.{Principal}
use model_interface_gateway.Service.{Service}
use model_interface_gateway.Service.Events.{Subscription, subscribe}
use model_interface_gateway.Service.Connections.{register_connection}
use model_interface_gateway.Frames.{Listener, stream_opened, stream_closed}
use model_interface_gateway.Frames.Release.{IsReleased, left-IsReleased}
use model_interface_gateway.Http.{Incoming, query_value}
use model_interface_gateway.Http.Streams.{stream_events, handle_subscribe}

stream_events-IsReleased :
    (env : Env) (p : Principal) (r : Incoming) (peer : Listener) (topic cursor : String)
    (sub : Subscription) (s : Service)
    → IsReleased
        (short_id "conn-" env.for_entry)
        topic
        sub.channel
        (stream_closed "sse" (stream_events env p r peer topic cursor sub s).0)
unfolding stream_events register_connection
stream_events-IsReleased env p r peer topic cursor sub s = elim (Bool-cases peer.flushes) [
  | inl flushes ↦ simp flushes (left-IsReleased "sse" _ topic sub.channel _)
  | inr plain ↦ simp plain (left-IsReleased "sse" _ topic sub.channel _)
]

-- However an event stream over HTTP goes that has been subscribed, and whatever other requests do
-- meanwhile, its connection is not listed afterwards, and its topic has its channel no more.
pub handle_subscribe-IsReleased :
    (env : Env) (p : Principal) (r : Incoming) (peer : Listener) (topic : String) (s : Service)
    (sub : Subscription)
    → (subscribe topic (query_value r "resume_cursor") (stream_opened "sse" s)).1 ≡ ok sub
    → IsReleased
        (short_id "conn-" env.for_entry)
        topic
        sub.channel
        (handle_subscribe env p r peer topic s).0
unfolding handle_subscribe
handle_subscribe-IsReleased env p r peer topic s sub h =
    rw (h, handle_subscribe)
      (stream_events-IsReleased env p r peer topic (query_value r "resume_cursor") sub _)
