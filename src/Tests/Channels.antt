-- ===== src/Tests/Channels.antt =====
-- Publications, channels and cursors.
use model_interface_gateway.Base.{
  ◌-◌, ◌++◌, ◌≤◌, ◌≡◌, refl, true, some, List, [], ◌∷◌, map, drop, length, ok, arith,
}
use model_interface_gateway.Base.GoMap.{lookup, insert}
use model_interface_gateway.Text.{
  contains, decimal, decimal_from, digit, atoi, parse_digits, of_code,
}
use model_interface_gateway.Types.{EventMessage, PublishRequest, PublishAck}
use model_interface_gateway.Types.Json.{text}
use model_interface_gateway.Header.{normalize, add_idg_meta, open_header}
use model_interface_gateway.Service.{Service, new_service}
use model_interface_gateway.Service.Events.{
  topic_error, new_event, append_event, publish_to, publish, events_of, parse_cursor, as_replay,
  Subscription, subscribe,
}
use model_interface_gateway.Service.Events.Laws.{
  IsPublished, publish-IsPublished, NumberedFrom, IsNumbered, resume_exact,
}
use model_interface_gateway.Service.Events.Delivery.{
  queue_of, queue_in, Act, publishes, takes, play, published as published_events, IsDelivered,
  play-IsDelivered,
}
use model_interface_gateway.Service.Events.Resumed.{IsResumed, resume_delivers}
use model_interface_gateway.Service.History.{History, start, then_step, published}
use model_interface_gateway.Service.History.Laws.{reached-IsSound}
use model_interface_gateway.Tests.{env, sent, opened}

abbrev note : PublishRequest
note = record {
  header = sent "m-1" "acme" "";
  topic = "models.done";
  key = "";
  payload = some (("model", text "m") ∷ []);
}

abbrev event : EventMessage
event = new_event env (opened "m-1" "acme" "") "models.done" note new_service

abbrev written : Service
written = append_event event new_service

abbrev ack : PublishAck
ack = record {
  header = opened "m-1" "acme" "";
  topic = "models.done";
  event_id = event.event_id;
  sequence = event.sequence;
  accepted = true;
}

publishes_note : publish env "" note new_service ≡ (written, ok ack)
unfolding publish publish_to topic_error contains open_header normalize add_idg_meta
publishes_note = refl

publish-IsPublished_example : IsPublished note new_service written ack
publish-IsPublished_example = publish-IsPublished env "" note new_service written ack publishes_note

abbrev again : Service
again = (publish env "" note (publish env "" note new_service).0).0

two_published : History new_service again
two_published = then_step (then_step start (published env "" note)) (published env "" note)

numbered : IsNumbered again
numbered = (reached-IsSound two_published).logs

abbrev resumed : Service
resumed = (subscribe "models.done" (decimal 1) again).0

abbrev subscription : Subscription
subscription = record {
  snapshot = map as_replay (drop 1 (events_of again "models.done"));
  channel = again.next_channel;
}

subscribes : subscribe "models.done" (decimal 1) again ≡ (resumed, ok subscription)
unfolding subscribe topic_error contains parse_cursor decimal_from digit atoi parse_digits of_code
subscribes = refl

resume_exact_example :
    NumberedFrom 1 "models.done" subscription.snapshot
    × (subscription.snapshot ≡ map as_replay (drop 1 (events_of again "models.done")))
    × (length subscription.snapshot ≡ length (events_of again "models.done") - 1)
resume_exact_example =
    resume_exact "models.done" 1 again resumed subscription numbered (omega arith) subscribes

-- A gateway with one subscriber, who takes an event between two publications.
abbrev listening : Service
listening = record new_service {
  subscribers = ("models.done", record { id = 0; queue = [] } ∷ []) ∷ [];
  next_channel = 1;
}

abbrev acts : List Act
acts = publishes event ∷ takes ∷ publishes event ∷ []

empty_queue : queue_of listening "models.done" 0 ≡ some []
unfolding queue_of queue_in lookup
empty_queue = refl

play-IsDelivered_example :
    IsDelivered "models.done" 0
      ([] ++ published_events "models.done" acts)
      (play "models.done" 0 acts listening).0
      (play "models.done" 0 acts listening).1
play-IsDelivered_example =
    play-IsDelivered "models.done" 0 acts listening [] (omega arith) empty_queue

one_is_there : 1 ≤ length (events_of again "models.done")
unfolding lookup publish open_header publish_to topic_error contains append_event insert new_service
one_is_there = omega arith

resume_delivers_example :
    IsResumed "models.done" 1 subscription.channel acts
      (play "models.done" subscription.channel acts resumed).0
      (subscription.snapshot ++ (play "models.done" subscription.channel acts resumed).1)
resume_delivers_example =
    resume_delivers "models.done" 1 again resumed subscription acts two_published one_is_there
      (omega arith) subscribes
