-- ===== src/Grpc/Laws.antt =====
-- What a message keeps on its way over gRPC.
use model_interface_gateway.Base.{
  ℕ, ◌<◌, ◌^◌, ◌≡◌, ◌⊎◌, refl, sym, ap, ◌∙◌, inl, inr, Option, none, some, [], ◌∷◌, arith,
}
use mathlib.Core.Option.{get_or}
use model_interface_gateway.Text.{
  trim_space, to_lower, trim_left, trim_right, is_space, lower_char, of_code,
}
use model_interface_gateway.Base.Int.{ℤ, pos}
use model_interface_gateway.Types.{Payload, MessageHeader, MigError, StreamFrame, entries}
use model_interface_gateway.Grpc.{
  FrameKind, frame_kind_unspecified, frame_kind_request, frame_kind_response, frame_kind_event,
  frame_kind_control, frame_kind_error, frame_kind_other, MigErrorCode, mig_unspecified,
  mig_invalid_request, mig_unauthorized, mig_forbidden, mig_not_found, mig_unsupported_capability,
  mig_version_mismatch, mig_timeout, mig_rate_limited, mig_backpressure, mig_unavailable,
  mig_internal, mig_other, frame_kind_from_proto, frame_kind_to_proto, mig_error_code_from_proto,
  mig_error_code_to_proto,
}
use model_interface_gateway.Grpc.Convert.{
  Wire, to_uint, struct_to_map, map_to_struct, message_header_from_proto, message_header_to_proto,
  mig_error_from_proto, mig_error_to_proto, stream_frame_from_proto, stream_frame_to_proto,
}

-- A kind of frame that has a name comes back from its text, and so does a frame without a kind.
frame_kind-round_trip :
    (k : FrameKind)
    → frame_kind_from_proto (frame_kind_to_proto (frame_kind_from_proto k))
      ≡ frame_kind_from_proto k
unfolding frame_kind_from_proto frame_kind_to_proto trim_space to_lower trim_left trim_right
    is_space lower_char of_code
frame_kind-round_trip frame_kind_unspecified = refl
frame_kind-round_trip frame_kind_request = refl
frame_kind-round_trip frame_kind_response = refl
frame_kind-round_trip frame_kind_event = refl
frame_kind-round_trip frame_kind_control = refl
frame_kind-round_trip frame_kind_error = refl
frame_kind-round_trip (frame_kind_other n) = refl

-- An error code comes back as the code that it is read as.
mig_error_code-round_trip :
    (c : MigErrorCode)
    → mig_error_code_from_proto (mig_error_code_to_proto (mig_error_code_from_proto c))
      ≡ mig_error_code_from_proto c
unfolding mig_error_code_from_proto mig_error_code_to_proto
mig_error_code-round_trip mig_unspecified = refl
mig_error_code-round_trip mig_invalid_request = refl
mig_error_code-round_trip mig_unauthorized = refl
mig_error_code-round_trip mig_forbidden = refl
mig_error_code-round_trip mig_not_found = refl
mig_error_code-round_trip mig_unsupported_capability = refl
mig_error_code-round_trip mig_version_mismatch = refl
mig_error_code-round_trip mig_timeout = refl
mig_error_code-round_trip mig_rate_limited = refl
mig_error_code-round_trip mig_backpressure = refl
mig_error_code-round_trip mig_unavailable = refl
mig_error_code-round_trip mig_internal = refl
mig_error_code-round_trip (mig_other n) = refl

module _ {Struct Stamp : Type 0} (wire : Wire Struct Stamp) where
  -- A map that `Struct` can hold, and gives back.
  abbrev pub MapFits : Payload → Type 0
  MapFits m =
      (m ≡ some [])
      ⊎ ((st : Struct) × (wire.new_struct (entries m) ≡ some st) × (m ≡ some (wire.as_map st)))

  -- A header with a time that RFC3339 can write, a deadline of 32 bits, and a meta map that fits.
  pub record HeaderFits (h : MessageHeader) : Type 0 where
    pub stamp : Stamp
    pub parsed : wire.parse_time h.timestamp ≡ some stamp
    pub written : wire.format_time stamp ≡ h.timestamp
    pub millis : ℕ
    pub deadline : h.deadline_ms ≡ pos millis
    pub width : millis < 2 ^ 32
    pub meta : MapFits h.meta

  -- An error whose code is one of the protocol's, with details that fit.
  pub record ErrorFits (e : MigError) : Type 0 where
    pub code : MigErrorCode
    pub named : e.code ≡ mig_error_code_from_proto code
    pub details : MapFits e.details

  pub record FrameFits (f : StreamFrame) : Type 0 where
    pub header : HeaderFits f.header
    pub kind : FrameKind
    pub named : f.kind ≡ frame_kind_from_proto kind
    pub payload : MapFits f.payload
    pub error : (f.error ≡ none) ⊎ ((e : MigError) × (f.error ≡ some e) × ErrorFits e)

  module _ (empty : wire.as_map wire.empty_struct ≡ []) where
    map-round_trip : (m : Payload) → MapFits m → struct_to_map wire (map_to_struct wire m) ≡ m
    unfolding struct_to_map map_to_struct
    map-round_trip none (inl e) = absurd cc
    map-round_trip none (inr (st, _, e)) = absurd cc
    map-round_trip (some []) fits = rw empty refl
    map-round_trip (some (e ∷ es)) (inl q) = absurd (ground arith)
    map-round_trip (some (e ∷ es)) (inr (st, made, back)) = rw made (sym back)

    to_uint-fits : (n : ℕ) → n < 2 ^ 32 → to_uint 32 (pos n) ≡ n
    unfolding to_uint
    to_uint-fits n h = omega arith

    -- A header whose time, deadline and meta map the protocol can carry arrives as it was sent.
    header-round_trip :
        (h : MessageHeader)
        → HeaderFits h
        → message_header_from_proto wire (message_header_to_proto wire h) ≡ h
    unfolding message_header_from_proto message_header_to_proto
    header-round_trip h fits =
        let stamp : wire.format_time (get_or (wire.parse_time h.timestamp) wire.now) ≡ h.timestamp =
          rw fits.parsed fits.written in
        let deadline : pos (to_uint 32 h.deadline_ms) ≡ h.deadline_ms =
          ap (λ (d : ℤ). pos (to_uint 32 d)) fits.deadline
          ∙ ap pos (to_uint-fits fits.millis fits.width)
          ∙ sym fits.deadline in
        rw (stamp, deadline, map-round_trip h.meta fits.meta) refl

    error-round_trip :
        (e : MigError)
        → ErrorFits e
        → mig_error_from_proto wire (mig_error_to_proto wire (some e)) ≡ some e
    unfolding mig_error_from_proto mig_error_to_proto
    error-round_trip e fits =
        let code : mig_error_code_from_proto (mig_error_code_to_proto e.code) ≡ e.code =
          rw fits.named (mig_error_code-round_trip fits.code) in
        rw (code, map-round_trip e.details fits.details) refl

    no_error : mig_error_from_proto wire (mig_error_to_proto wire none) ≡ none
    unfolding mig_error_from_proto mig_error_to_proto
    no_error = refl

    optional_error :
        (o : Option MigError)
        → (o ≡ none) ⊎ ((e : MigError) × (o ≡ some e) × ErrorFits e)
        → mig_error_from_proto wire (mig_error_to_proto wire o) ≡ o
    optional_error o (inl absent) = rw absent no_error
    optional_error o (inr (e, there, fits)) = rw there (error-round_trip e fits)

    -- A frame of a stream whose header, payload and error the protocol can carry, and whose kind it
    -- knows, arrives as it was sent.
    pub frame-round_trip :
        (f : StreamFrame)
        → FrameFits f
        → stream_frame_from_proto wire (stream_frame_to_proto wire f) ≡ f
    unfolding stream_frame_from_proto stream_frame_to_proto
    frame-round_trip f fits =
        let kind : frame_kind_from_proto (frame_kind_to_proto f.kind) ≡ f.kind =
          rw fits.named (frame_kind-round_trip fits.kind) in
        rw
          (
            header-round_trip f.header fits.header,
            kind,
            map-round_trip f.payload fits.payload,
            optional_error f.error fits.error,
          )
          refl
