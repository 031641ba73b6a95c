-- ===== src/Http/Streams/Laws.antt =====
-- What the peer of a WebSocket may count on: an answer for every frame, on the stream of the frame.
use Prim.Native.String.{◌∷◌}
use model_interface_gateway.Base.{
  String, ◌≡◌, ◌≢◌, ◌⊎◌, refl, inl, inr, Bool, true, none, some, List, [], ◌∷◌, Result, ok, err,
  arith, All, ◌==◌, eq_iff, eq_cases, Bool-cases, Option-cases,
}
use model_interface_gateway.Text.Laws.{append-ne_nil}
use model_interface_gateway.Types.{
  MessageHeader, MigError, StreamFrame, InvokeResponse, Payload, Env,
}
use model_interface_gateway.Header.{or_default, caller_header}
use model_interface_gateway.Service.Invoke.{invoke}
use model_interface_gateway.Service.Protocol.{cancel}
use model_interface_gateway.Auth.{Principal, apply_principal_header}
use model_interface_gateway.Service.{Service}
use model_interface_gateway.Frames.{
  Turn, complete, ack_payload, error_frame, closing_frame, invoke_frame, cancel_frame,
}
use model_interface_gateway.Http.Streams.{
  control_action, named_frame, ws_switch, ws_answer_named, ws_answer, ws_loop,
}

-- The last frame of the stream that is named: an answer, or an error that says what it is.
pub record IsLast (id : String) (out : StreamFrame) : Type 0 where
  pub stream : out.stream_id ≡ id
  pub ended : out.end_stream ≡ true
  pub kind :
      (((out.kind ≡ "response") ⊎ (out.kind ≡ "control")) × (out.error ≡ none))
      ⊎ ((out.kind ≡ "error") × (e : MigError) × (out.error ≡ some e))

complete-IsLast :
    {A : Type 0} (payload : A → Payload) (head : MessageHeader) (id capability kind : String)
    (result : Result MigError A)
    → (kind ≡ "response") ⊎ (kind ≡ "control")
    → IsLast id (complete payload (closing_frame head id capability kind) result)
complete-IsLast payload head id capability kind (ok a) k = record {
  stream = refl;
  ended = refl;
  kind = inl (k, refl);
}
complete-IsLast payload head id capability kind (err e) k = record {
  stream = refl;
  ended = refl;
  kind = inr (refl, e, refl);
}

error-IsLast :
    (head : MessageHeader) (id capability : String) (e : MigError)
    → IsLast id (error_frame head id capability e)
error-IsLast head id capability e = record {
  stream = refl;
  ended = refl;
  kind = inr (refl, e, refl);
}

pub invoke_frame-IsLast :
    (env : Env) (expired : Bool) (p : Principal) (frame : StreamFrame) (s : Service)
    → IsLast frame.stream_id (invoke_frame env expired p frame s).1
unfolding invoke_frame
invoke_frame-IsLast env expired p frame s =
    complete-IsLast (λ (reply : InvokeResponse). reply.payload) (caller_header env frame.header)
      frame.stream_id frame.capability "response"
      (invoke env expired frame.capability
        (record {
          header = frame.header;
          capability = frame.capability;
          payload = frame.payload;
          stream_preference = "";
        })
        (or_default p.subject "anonymous") p s).1
      (inl refl)

pub cancel_frame-IsLast :
    (env : Env) (reason capability : String) (frame : StreamFrame) (s : Service)
    → IsLast frame.stream_id (cancel_frame env reason capability frame s).1
unfolding cancel_frame
cancel_frame-IsLast env reason capability frame s =
    complete-IsLast ack_payload (caller_header env frame.header) frame.stream_id capability
      "control"
      (cancel env
        (record {
          header = frame.header;
          target_message_id = frame.header.message_id;
          reason = reason;
        })
        frame.header.message_id s).1
      (inr refl)

ws_switch-IsLast :
    (env : Env) (expired : Bool) (p : Principal) (frame : StreamFrame) (s : Service)
    → IsLast frame.stream_id (ws_switch env expired p frame s).1
unfolding ws_switch
ws_switch-IsLast env expired p frame s = elim (Bool-cases (frame.kind == "request")) [
  | inl request ↦ rw (request, ws_switch) (invoke_frame-IsLast env expired p frame s)
  | inr other ↦ elim (Bool-cases (frame.kind == "control")) [
    | inr unknown ↦ rw (other, unknown, ws_switch) (error-IsLast _ _ _ _)
    | inl control ↦ elim (Bool-cases (control_action frame.payload == "cancel")) [
      | inl cancels ↦ rw (other, control, cancels, ws_switch) (cancel_frame-IsLast env _ _ frame s)
      | inr none_known ↦ rw (other, control, none_known, ws_switch) (error-IsLast _ _ _ _)
    ]
  ]
]

ws_answer_named-IsLast :
    (env : Env) (expired : Bool) (p : Principal) (tenant_header : String) (frame : StreamFrame)
    (s : Service)
    → IsLast frame.stream_id (ws_answer_named env expired p tenant_header frame s).1
unfolding ws_answer_named
ws_answer_named-IsLast env expired p tenant_header frame s =
    elim (Option-cases (apply_principal_header frame.header p tenant_header).1) [
      | inr (e, refused) ↦ rw (refused, ws_answer_named) (error-IsLast _ _ _ _)
      | inl free ↦ rw (free, ws_answer_named) (ws_switch-IsLast env expired p _ s)
    ]

named : (frame : StreamFrame) → (named_frame frame).stream_id ≢ ""
unfolding named_frame
named frame = elim (eq_cases frame.stream_id "") [
  | inl none_given ↦ rw none_given (append-ne_nil _ _ _)
  | inr given ↦ rw given (λ e. ground (arith, eq_iff frame.stream_id ""))
]

-- The answer to a frame is the last frame of its stream, which has a name.
pub record IsAnswer (frame out : StreamFrame) : Type 0 where
  pub last : IsLast (named_frame frame).stream_id out
  pub named : (named_frame frame).stream_id ≢ ""

-- As many answers as turns, each for its frame.
abbrev pub AreAnswered : List (Turn StreamFrame) → List StreamFrame → Type 0
AreAnswered [] [] = Unit
AreAnswered [] (out ∷ outs) = ⊥
AreAnswered (turn ∷ turns) [] = ⊥
AreAnswered (turn ∷ turns) (out ∷ outs) = IsAnswer turn.received out × AreAnswered turns outs

-- Over a WebSocket that takes what is written to it, every frame that is read is answered, in order and
-- by one frame each, whatever the frames are, whatever other requests do, and whatever the gateway
-- answers: the answer carries the name of the stream of its frame, or else one made of its message
-- identifier, and ends the stream; its kind is "response" or "control" without an error, or "error" with one.
pub ws_loop-AreAnswered :
    (p : Principal) (tenant_header : String) (turns : List (Turn StreamFrame)) (s : Service)
    → All (λ (turn : Turn StreamFrame). turn.written ≡ true) turns
    → AreAnswered turns (ws_loop p tenant_header turns s).1
unfolding ws_loop
ws_loop-AreAnswered p tenant_header [] s h = tt
ws_loop-AreAnswered p tenant_header (turn ∷ turns) s (here, h) =
    let before = turn.others s in
    let answer = ws_answer turn.env turn.expired p tenant_header turn.received before in
    rw (here, ws_loop)
      (
        record {
          last = ws_answer_named-IsLast turn.env turn.expired p tenant_header _ before;
          named = named turn.received;
        },
        ws_loop-AreAnswered p tenant_header turns answer.0 h,
      )
