-- ===== src/Frames/Release.antt =====
-- What a stream leaves behind: nothing.
use model_interface_gateway.Base.{
  ℕ, String, ◌≡◌, ◌≢◌, inl, inr, none, List, [], ◌∷◌, arith, All, Option-cases,
}
use model_interface_gateway.Base.GoMap.{lookup, lookup-insert_self, lookup-remove_self}
use model_interface_gateway.Service.{Service, Subscriber}
use model_interface_gateway.Service.Events.{subscribers_of, without_channel, unsubscribe}
use model_interface_gateway.Service.Connections.{unregister}
use model_interface_gateway.Frames.{stream_closed}

-- The state does not list the connection, and the topic has no such channel.
pub record IsReleased (conn topic : String) (ch : ℕ) (s : Service) : Type 0 where
  pub connection : lookup conn s.connections ≡ none
  pub channel : All (λ (sub : Subscriber). sub.id ≢ ch) (subscribers_of s topic)

without_channel-All :
    (ch : ℕ) (subs : List Subscriber)
    → All (λ (sub : Subscriber). sub.id ≢ ch) (without_channel ch subs)
unfolding without_channel
without_channel-All ch [] = tt
without_channel-All ch (sub ∷ subs) = ground (arith, without_channel-All ch subs)

unsubscribe-channel :
    (topic : String) (ch : ℕ) (s : Service)
    → All (λ (sub : Subscriber). sub.id ≢ ch) (subscribers_of (unsubscribe topic ch s) topic)
unfolding unsubscribe
unsubscribe-channel topic ch s = elim (Option-cases (lookup topic s.subscribers)) [
  | inl nobody ↦ rw (nobody, unsubscribe, nobody) tt
  | inr (subs, there) ↦ rw (there, unsubscribe, lookup-insert_self) (without_channel-All ch subs)
]

unsubscribe-connections :
    (topic : String) (ch : ℕ) (s : Service) → (unsubscribe topic ch s).connections ≡ s.connections
unfolding unsubscribe
unsubscribe-connections topic ch s = ground arith

pub left-IsReleased :
    (kind conn topic : String) (ch : ℕ) (s : Service)
    → IsReleased conn topic ch (stream_closed kind (unsubscribe topic ch (unregister conn s)))
unfolding stream_closed unregister
left-IsReleased kind conn topic ch s = record {
  connection =
      rw (unsubscribe-connections topic ch (unregister conn s))
        (lookup-remove_self conn s.connections);
  channel = unsubscribe-channel topic ch (unregister conn s);
}
