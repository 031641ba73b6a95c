-- ===== src/Service/Events/Delivery.antt =====
-- What a subscriber's channel delivers: its events in the order in which they were published, each
-- once, and all of them as long as the channel is never found full.
use model_interface_gateway.Base.{
  ℕ, ◌≤◌, ◌<◌, String, ◌≡◌, refl, sym, ap, false, Option, none, some, List, [], ◌∷◌, ◌++◌, map,
  arith, ◌==◌, eq_iff, ◌⊎◌, inl, inr, Option-cases, Bool-cases, length, length-append, eqb, ltb,
  IsSubsequence, keep, IsSubsequence-refl, IsSubsequence-insert, if◌then◌else◌,
}
use mathlib.Core.List.{append_assoc, append-nil}
use mathlib.Core.Option
use mathlib.Core.Option.{get_or}
use model_interface_gateway.Base.GoMap.{lookup, lookup-insert, lookup-insert_self}
use model_interface_gateway.Types.{EventMessage}
use model_interface_gateway.Service.{Service, Subscriber}
use model_interface_gateway.Service.Events.{
  channel_capacity, offer, subscribers_of, append_event, receive_from, receive,
}

-- The queue of a channel; `none` for a channel that is not there.
unfoldable pub queue_in : ℕ → List Subscriber → Option (List EventMessage)
queue_in ch [] = none
queue_in ch (sub ∷ subs) = if eqb sub.id ch then some sub.queue else queue_in ch subs

unfoldable pub queue_of : Service → String → ℕ → Option (List EventMessage)
queue_of s topic ch = queue_in ch (subscribers_of s topic)

-- What one published event does to a queue.
abbrev pub enqueue : EventMessage → List EventMessage → List EventMessage
enqueue e q = if ltb (length q) channel_capacity then q ++ e ∷ [] else q

queue_in-offer :
    (ch : ℕ) (e : EventMessage) (subs : List Subscriber)
    → queue_in ch (map (offer e) subs) ≡ Option.map (enqueue e) (queue_in ch subs)
unfolding queue_in offer
queue_in-offer ch e [] = refl
queue_in-offer ch e (sub ∷ subs) = ground (arith, queue_in-offer ch e subs)

pub subscribers_of-append_event :
    (e : EventMessage) (s : Service) (topic : String)
    → subscribers_of (append_event e s) topic ≡ (
        if e.topic == topic then map (offer e) (subscribers_of s topic) else subscribers_of s topic)
unfolding append_event
subscribers_of-append_event e s topic = elim (Option-cases (lookup e.topic s.subscribers)) [
  | inl missing ↦ ground (arith, eq_iff e.topic topic)
  | inr (subs, found) ↦
      ground (
        arith,
        eq_iff e.topic topic,
        lookup-insert e.topic topic (map (offer e) subs) s.subscribers,
      )
]

-- Publishing an event of the topic offers it to every channel of the topic, and to no other channel.
pub queue_of-append_event :
    (e : EventMessage) (s : Service) (topic : String) (ch : ℕ)
    → queue_of (append_event e s) topic ch ≡ (
        if e.topic == topic
        then Option.map (enqueue e) (queue_of s topic ch)
        else queue_of s topic ch)
unfolding queue_of
queue_of-append_event e s topic ch =
    ground
      (arith, subscribers_of-append_event e s topic, queue_in-offer ch e (subscribers_of s topic))

-- What a receive takes from a queue, and what it leaves.
abbrev taken : List EventMessage → Option EventMessage
taken [] = none
taken (e ∷ q) = some e

abbrev left : List EventMessage → List EventMessage
left [] = []
left (e ∷ q) = q

List-cases {ℓ} : {A : Type ℓ} (q : List A) → (q ≡ []) ⊎ ((e : A) × (rest : List A) × (q ≡ e ∷ rest))
List-cases [] = inl refl
List-cases (e ∷ rest) = inr (e, rest, refl)

queue_in-receive_from :
    (ch : ℕ) (subs : List Subscriber) (q : List EventMessage)
    → queue_in ch subs ≡ some q
    → ((receive_from ch subs).1 ≡ taken q) × (queue_in ch (receive_from ch subs).0 ≡ some (left q))
unfolding queue_in receive_from
queue_in-receive_from ch [] q h = cc
queue_in-receive_from ch (sub ∷ subs) q h = elim (Bool-cases (eqb sub.id ch)) [
  | inl here ↦
      let same : sub.queue ≡ q = ground arith in
      elim (List-cases sub.queue) [
        | inl empty ↦ rw (← same) (rw (here, empty) (refl, rw (here) (ap some empty)))
        | inr (e, rest, full) ↦ rw (← same) (rw (here, full) (refl, rw (here) refl))
      ]
  | inr there ↦
      let k = queue_in-receive_from ch subs q (rw (there, queue_in) at h) in
      rw there (k.0, rw there k.1)
]

no_queue : (ch : ℕ) → queue_in ch [] ≡ none
unfolding queue_in
no_queue ch = refl

-- A receive takes the first event of the queue, and leaves the rest.
queue_of-receive :
    (s : Service) (topic : String) (ch : ℕ) (q : List EventMessage)
    → queue_of s topic ch ≡ some q
    → ((receive topic ch s).1 ≡ taken q)
      × (queue_of (receive topic ch s).0 topic ch ≡ some (left q))
unfolding queue_of receive
queue_of-receive s topic ch q h = elim (Option-cases (lookup topic s.subscribers)) [
  | inl missing ↦ absurd (
      ground (
        arith,
        ap (queue_in ch) (ap (λ (o : Option (List Subscriber)). get_or o []) missing),
        no_queue ch,
      ))
  | inr (subs, found) ↦
      let k = queue_in-receive_from ch subs q (rw (found) at h) in
      rw (found, receive)
        (k.0, rw (lookup-insert_self topic (receive_from ch subs).0 s.subscribers, queue_of) k.1)
]

-- What happens to a channel while it is open: an event is published, or the receiver takes one.
pub data Act : Type 0 where
  publishes : EventMessage → Act
  takes : Act

-- The acts in order, and what the receiver has got from them.
unfoldable pub play : String → ℕ → List Act → Service → Service × List EventMessage
play topic ch [] s = (s, [])
play topic ch (publishes e ∷ acts) s = play topic ch acts (append_event e s)
play topic ch (takes ∷ acts) s =
    let (s', got) = play topic ch acts (receive topic ch s).0 in
    (s', elim (receive topic ch s).1 [ none ↦ got | some e ↦ e ∷ got ])

-- What is published to a topic.
unfoldable pub published : String → List Act → List EventMessage
published topic [] = []
published topic (publishes e ∷ acts) =
    let rest = published topic acts in if e.topic == topic then e ∷ rest else rest
published topic (takes ∷ acts) = published topic acts

-- What a channel has delivered (`got`) and still holds, of the events that it could.
pub record IsDelivered (topic : String) (ch : ℕ) (all : List EventMessage) (s' : Service)
    (got : List EventMessage) : Type 0 where
  pub held : List EventMessage
  pub queued : queue_of s' topic ch ≡ some held
  pub room : length held ≤ channel_capacity
  pub in_order : IsSubsequence (got ++ held) all
  pub complete : (channel_capacity < length all) ⊎ (got ++ held ≡ all)

module _ (topic : String) (ch : ℕ) where
  lost-IsDelivered :
      (e : EventMessage) (s' : Service) (before sent got : List EventMessage)
      → ltb (length before) channel_capacity ≡ false
      → IsDelivered topic ch (before ++ sent) s' got
      → IsDelivered topic ch (before ++ e ∷ sent) s' got
  lost-IsDelivered e s' before sent got full d = record {
    held = d.held;
    queued = d.queued;
    room = d.room;
    in_order = IsSubsequence-insert before e sent d.in_order;
    complete = inl (ground (arith, length-append before (e ∷ sent)));
  }

  took-IsDelivered :
      (e : EventMessage) (s' : Service) (all got : List EventMessage)
      → IsDelivered topic ch all s' got
      → IsDelivered topic ch (e ∷ all) s' (e ∷ got)
  took-IsDelivered e s' all got d = record {
    held = d.held;
    queued = d.queued;
    room = d.room;
    in_order = keep d.in_order;
    complete = elim d.complete [
      | inl over ↦ inl (omega arith)
      | inr all_there ↦ inr (ap (λ r. e ∷ r) all_there)
    ];
  }

  -- A channel that is open delivers, and still holds, events that it held or that were published to its
  -- topic since, in their order and each once; it never holds more than 32; and it has all of them if
  -- they were 32 at most.
  pub play-IsDelivered :
      (acts : List Act) (s : Service) (before : List EventMessage)
      → length before ≤ channel_capacity
      → queue_of s topic ch ≡ some before
      → IsDelivered topic ch
          (before ++ published topic acts)
          (play topic ch acts s).0
          (play topic ch acts s).1
  unfolding play published
  play-IsDelivered [] s before room h = record {
    held = before;
    queued = h;
    room = room;
    in_order = rw (append-nil before) (IsSubsequence-refl before);
    complete = inr (sym (append-nil before));
  }
  play-IsDelivered (publishes e ∷ acts) s before room h =
      let offered = queue_of-append_event e s topic ch in
      elim (Bool-cases (e.topic == topic)) [
        | inr other ↦
            rw other
              (play-IsDelivered acts (append_event e s) before room (rw (other, h) at offered))
        | inl same ↦ elim (Bool-cases (ltb (length before) channel_capacity)) [
          | inl fits ↦
              rw (same, ← append_assoc before (e ∷ []) (published topic acts))
                (play-IsDelivered acts (append_event e s) (before ++ e ∷ [])
                  (ground (arith, length-append before (e ∷ []))) (rw (same, h, fits) at offered))
          | inr full ↦ rw same (
              lost-IsDelivered e _ before (published topic acts) _ full (
                play-IsDelivered acts (append_event e s) before room
                  (rw (same, h, full) at offered)))
        ]
      ]
  play-IsDelivered (takes ∷ acts) s [] room h =
      let (took, rest) = queue_of-receive s topic ch [] h in
      rw (took, play) (play-IsDelivered acts (receive topic ch s).0 [] room rest)
  play-IsDelivered (takes ∷ acts) s (e ∷ before) room h =
      let (took, rest) = queue_of-receive s topic ch (e ∷ before) h in
      rw (took, play)
        (took-IsDelivered e _ _ _
          (play-IsDelivered acts (receive topic ch s).0 before (omega arith) rest))
