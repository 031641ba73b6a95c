-- ===== src/Tests/Http.antt =====
-- Requests over HTTP, and frames over its streams.
use model_interface_gateway.Base.{
  inl, String, ◌≡◌, refl, true, false, none, some, List, [], ◌∷◌, ok, ne_of_eq-false,
}
use model_interface_gateway.Base.GoMap.{lookup}
use model_interface_gateway.Types.{StreamFrame, CancelRequest, short_id}
use model_interface_gateway.Types.Json.{text}
use model_interface_gateway.Service.{infer_id, new_service}
use model_interface_gateway.Service.Events.{Subscription, subscribe, topic_error, parse_cursor}
use model_interface_gateway.Text.{contains, has_prefix}
use model_interface_gateway.Frames.{Turn, Listener, stream_opened}
use model_interface_gateway.Frames.Release.{IsReleased}
use model_interface_gateway.Http.{Incoming, query_value, status_of}
use model_interface_gateway.Http.Protocol.{handle_invoke}
use model_interface_gateway.Http.Protocol.Laws.{IsExplained, handle_invoke-IsExplained}
use model_interface_gateway.Http.Streams.{ws_answer, ws_loop, handle_subscribe}
use model_interface_gateway.Http.Streams.Laws.{AreAnswered, ws_loop-AreAnswered}
use model_interface_gateway.Http.Streams.Release.{handle_subscribe-IsReleased}
use model_interface_gateway.Http.Routes.{
  cancel_call, pattern_of, IsRouted, dispatch, auth_middleware,
}
use model_interface_gateway.Http.Routes.Laws.{IsForbidden, foreign_call-IsForbidden}
use model_interface_gateway.Http.Routes.Access.{IsGuarded, auth_middleware-IsGuarded}
use model_interface_gateway.Grpc.Streams.{grpc_answer}
use model_interface_gateway.Grpc.Streams.Laws.{bindings_agree}
use model_interface_gateway.Tests.{env, sent, call, member, gateway}
use model_interface_gateway.Tests.Access.{one_token, jwt_config}

abbrev pub incoming : String → String → Incoming
incoming method path = record {
  method = method;
  path = path;
  authorization = "Bearer good";
  tenant_header = "";
  actor_header = "";
  remote_addr = "127.0.0.1:5000";
  is_utf8 = λ label. true;
  query = [];
}

abbrev foreign_cancel : CancelRequest
foreign_cancel = record {
  header = sent "m-2" "other" "";
  target_message_id = "m-0";
  reason = "stop";
}

abbrev at_cancel : Incoming
at_cancel = incoming "POST" "/mig/v0.1/cancel/m-0"

foreign_call-IsForbidden_example :
    IsForbidden env gateway
      (dispatch env at_cancel (cancel_call "m-0" (some (ok foreign_cancel))) member gateway)
foreign_call-IsForbidden_example =
    foreign_call-IsForbidden env member at_cancel gateway (ne_of_eq-false "acme" "" refl)
      (cancel_call "m-0" (some (ok foreign_cancel))) "other" refl (ne_of_eq-false "other" "" refl)
      (ne_of_eq-false "other" "acme" refl)

is_routed : IsRouted at_cancel (cancel_call "m-0" (some (ok foreign_cancel)))
unfolding pattern_of
is_routed = (inl refl, refl)

auth_middleware-IsGuarded_example :
    IsGuarded env one_token jwt_config at_cancel
      (cancel_call "m-0" (some (ok foreign_cancel)))
      gateway
      (auth_middleware env one_token jwt_config at_cancel
        (dispatch env at_cancel (cancel_call "m-0" (some (ok foreign_cancel))))
        gateway)
auth_middleware-IsGuarded_example =
    auth_middleware-IsGuarded env one_token jwt_config at_cancel
      (cancel_call "m-0" (some (ok foreign_cancel))) gateway refl is_routed

abbrev at_invoke : Incoming
at_invoke = incoming "POST" "/mig/v0.1/invoke/observatory.models.infer"

handle_invoke-IsExplained_example :
    IsExplained env member at_invoke false infer_id (call "m-1" "acme" "k-1") gateway (
      status_of
        (handle_invoke env member at_invoke false infer_id
          (some (ok (call "m-1" "acme" "k-1")))
          gateway).1)
handle_invoke-IsExplained_example =
    handle_invoke-IsExplained env member at_invoke false infer_id (call "m-1" "acme" "k-1") gateway

abbrev frame_of : String → String → StreamFrame
frame_of stream_id kind = record {
  header = sent "m-1" "" "";
  stream_id = stream_id;
  capability = infer_id;
  kind = kind;
  payload = some (("action", text "cancel") ∷ []);
  end_stream = false;
  error = none;
}

abbrev turn : StreamFrame → Turn StreamFrame
turn frame = record {
  others = λ s. s;
  received = frame;
  env = env;
  expired = false;
  written = true;
}

abbrev turns : List (Turn StreamFrame)
turns = turn (frame_of "" "request") ∷ turn (frame_of "s-2" "control") ∷ []

ws_loop-AreAnswered_example : AreAnswered turns (ws_loop member "" turns gateway).1
ws_loop-AreAnswered_example = ws_loop-AreAnswered member "" turns gateway (refl, (refl, tt))

bindings_agree_example :
    ((ws_answer env false member "" (frame_of "s-1" "request") gateway).0
      ≡ (grpc_answer env false member (frame_of "s-1" "request") gateway).0)
    × ((ws_answer env false member "" (frame_of "s-1" "request") gateway).1
        ≡ (grpc_answer env false member (frame_of "s-1" "request") gateway).1)
bindings_agree_example =
    bindings_agree env false member "" (frame_of "s-1" "request") gateway
      (ne_of_eq-false "acme" "" refl) (ne_of_eq-false "acme" "unknown" refl)
      (ne_of_eq-false "s-1" "" refl) (ne_of_eq-false "request" "control" refl)

abbrev peer : Listener
peer = record { flushes = true; takes = λ event. true; wakes = (λ s. s) ∷ [] }

abbrev at_subscribe : Incoming
at_subscribe = incoming "GET" "/mig/v0.1/subscribe/models.done"

abbrev subscription : Subscription
subscription = record { snapshot = []; channel = 0 }

subscribes :
    (subscribe "models.done"
      (query_value at_subscribe "resume_cursor")
      (stream_opened "sse" gateway)).1
    ≡ ok subscription
unfolding subscribe topic_error parse_cursor contains has_prefix lookup stream_opened new_service
subscribes = refl

handle_subscribe-IsReleased_example :
    IsReleased
      (short_id "conn-" env.for_entry)
      "models.done"
      0
      (handle_subscribe env member at_subscribe peer "models.done" gateway).0
handle_subscribe-IsReleased_example =
    handle_subscribe-IsReleased env member at_subscribe peer "models.done" gateway subscription
      subscribes
