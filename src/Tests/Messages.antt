-- ===== src/Tests/Messages.antt =====
-- A frame over gRPC, with maps and times that stand for themselves.
use model_interface_gateway.Base.{
  Bool, true, false, if◌then◌else◌, String, ◌≡◌, refl, inl, inr, true, false, some, [], ◌∷◌, arith,
}
use model_interface_gateway.Base.Int.{pos}
use model_interface_gateway.Base.GoMap.{GoMap}
use model_interface_gateway.Types.{Value, MessageHeader, StreamFrame, invalid_request}
use model_interface_gateway.Types.Json.{text, strings}
use model_interface_gateway.Grpc.{
  frame_kind_error, mig_invalid_request, frame_kind_from_proto, mig_error_code_from_proto,
}
use model_interface_gateway.Grpc.Convert.{
  Wire, stream_frame_from_proto, stream_frame_to_proto, message_header_from_proto,
  message_header_to_proto,
}
use model_interface_gateway.Grpc.Laws.{HeaderFits, FrameFits, frame-round_trip}
use model_interface_gateway.Base.{sym, ◌∙◌, ne_of_eq-false, none, ok, err}
use model_interface_gateway.Base.GoMap.{lookup, insert}
use model_interface_gateway.Types.{InvokeResponse, entries}
use model_interface_gateway.Header.{normalize, add_idg_meta, open_header, tag_meta, defaulted}
use model_interface_gateway.Auth.{has_any_scope, holds_any}
use model_interface_gateway.Service.{infer_id, infer_capability, new_service, bootstrap_defaults}
use model_interface_gateway.Service.Invoke.{
  invoke, conclude, finish, admit, check, commit, reply_of, stored_reply, is_exhausted, Ticket,
}
use model_interface_gateway.Service.Invoke.Laws.{ticket, IsServed}
use model_interface_gateway.Grpc.{stream_preference_unary, stream_preference_from_proto}
use model_interface_gateway.Grpc.Convert.{struct_to_map, map_to_struct}
use model_interface_gateway.Grpc.Requests.{ProtoCancelRequest, ProtoInvokeRequest}
use model_interface_gateway.Grpc.Handlers.{
  apply_principal_header_from_principal, unary, grpc_invoke, grpc_cancel, invoke_request,
  invoke_response,
}
use model_interface_gateway.Grpc.Handlers.Laws.{
  denied, cancel_call, header_of, foreign_call-IsDenied, grpc_invoke-IsServed,
}
use model_interface_gateway.Tests.{env, member, gateway}

-- A map that holds no `[]string`, which structpb refuses.
abbrev is_carried : GoMap Value → Bool
is_carried [] = true
is_carried ((k, strings scopes) ∷ m) = false
is_carried ((k, v) ∷ m) = is_carried m

abbrev pub plain : Wire (GoMap Value) String
plain = record {
  empty_struct = [];
  new_struct = λ m. if is_carried m then some m else none;
  as_map = λ m. m;
  parse_time = λ s. some s;
  format_time = λ s. s;
  now = "";
}

abbrev head : MessageHeader
head = record {
  mig_version = "0.1";
  message_id = "m-1";
  timestamp = "2026-01-02T03:04:05Z";
  tenant_id = "acme";
  session_id = "s";
  traceparent = "t";
  idempotency_key = "k";
  deadline_ms = pos 1000;
  meta = some (("a", text "b") ∷ []);
}

abbrev frame : StreamFrame
frame = record {
  header = head;
  stream_id = "s-1";
  capability = "a.b";
  kind = "error";
  payload = some [];
  end_stream = true;
  error =
      some
        (record { code = invalid_request; message = "no"; retryable = false; details = some [] });
}

fits : HeaderFits plain head
fits = record {
  stamp = "2026-01-02T03:04:05Z";
  parsed = refl;
  written = refl;
  millis = 1000;
  deadline = refl;
  width = omega arith;
  meta = inr (("a", text "b") ∷ [], refl, refl);
}

frame_fits : FrameFits plain frame
unfolding frame_kind_from_proto mig_error_code_from_proto
frame_fits = record {
  header = fits;
  kind = frame_kind_error;
  named = refl;
  payload = inl refl;
  error = inr (_, refl, record { code = mig_invalid_request; named = refl; details = inl refl });
}

frame-round_trip_example : stream_frame_from_proto plain (stream_frame_to_proto plain frame) ≡ frame
frame-round_trip_example = frame-round_trip plain refl frame frame_fits

abbrev foreign_cancel : ProtoCancelRequest (GoMap Value) String
foreign_cancel = record {
  header = message_header_to_proto plain (record head { tenant_id = "other" });
  target_message_id = "m-0";
  reason = "stop";
}

names_other :
    (message_header_from_proto plain (header_of (cancel_call foreign_cancel))).tenant_id ≡ "other"
unfolding message_header_from_proto message_header_to_proto
names_other = refl

foreign_call-IsDenied_example :
    grpc_cancel plain env member foreign_cancel gateway ≡ (gateway, err denied)
foreign_call-IsDenied_example =
    foreign_call-IsDenied plain env member gateway (cancel_call foreign_cancel)
      (ne_of_eq-false "acme" "" refl) (λ e. ne_of_eq-false "other" "" refl (sym names_other ∙ e))
      (λ e. ne_of_eq-false "other" "acme" refl (sym names_other ∙ e))

abbrev wire_invoke : ProtoInvokeRequest (GoMap Value) String
wire_invoke = record {
  header = message_header_to_proto plain (record head { tenant_id = "" });
  capability = infer_id;
  payload = none;
  stream_preference = stream_preference_unary;
}

-- The header with the principal's tenant, and as the service has it.
abbrev own_head : MessageHeader
own_head =
    (apply_principal_header_from_principal (message_header_from_proto plain wire_invoke.header)
      member).0

abbrev own_opened : MessageHeader
own_opened = record (defaulted env own_head) {
  meta = some (tag_meta "core" (entries own_head.meta));
}

abbrev own_seat : Ticket
own_seat =
    ticket own_opened infer_id infer_capability
      (invoke_request plain env member wire_invoke own_head) "ann"

wire_invokes :
    grpc_invoke plain env member false wire_invoke gateway
    ≡ (commit env own_seat gateway, ok (invoke_response plain env member (reply_of own_seat)))
unfolding grpc_invoke unary apply_principal_header_from_principal message_header_from_proto
    message_header_to_proto struct_to_map map_to_struct invoke conclude finish admit check
    open_header normalize add_idg_meta has_any_scope holds_any lookup insert new_service
    bootstrap_defaults stored_reply is_exhausted stream_preference_from_proto
wire_invokes = refl

grpc_invoke-IsServed_example :
    (h : MessageHeader) × (resp : InvokeResponse) × IsServed env infer_id
      (invoke_request plain env member wire_invoke h)
      "ann"
      member
      gateway
      (commit env own_seat gateway)
      resp
    × (invoke_response plain env member (reply_of own_seat) ≡ invoke_response plain env member resp)
    × (resp.header.tenant_id ≡ "acme")
grpc_invoke-IsServed_example =
    grpc_invoke-IsServed plain env member false wire_invoke gateway (commit env own_seat gateway)
      (invoke_response plain env member (reply_of own_seat)) (ne_of_eq-false "acme" "" refl)
      wire_invokes
