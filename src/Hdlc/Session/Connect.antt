-- ===== src/Hdlc/Session/Connect.antt =====
-- hdlc_session.cpp: what client and server agree on when they connect.
use dlms.Prelude.{
  ℕ, ◌≤◌, ◌<◌, min, ◌≡◌, refl, true, some, arith, length, fail, Bytes, bytes, Allocator,
}
use dlms.Hdlc.Types.{HdlcStatus, information_field_too_large, HdlcAddress}
use dlms.Hdlc.Codec.Encode.{
  effective_maximum_frame_size, encode_frame, encode_frame_to_buffer,
  effective_maximum_information_field_size,
}
use dlms.Hdlc.Control.{decode_control, is_supported_unnumbered}
use dlms.Hdlc.Session.Negotiation.{
  HdlcSessionNegotiationLimits, SnrmParams, encode_snrm_negotiation_block, negotiate_params,
}
use dlms.Hdlc.Session.State.{server, HdlcSession}
use dlms.Hdlc.Session.Build.{
  ua_control, info_span, take_negotiated, build_connect_response, answer_connect, build_frame,
}

-- What one side may send is what the other side takes.
abbrev pub Mirrored : HdlcSessionNegotiationLimits → HdlcSessionNegotiationLimits → Type 0
Mirrored a b =
    (a.max_information_field_length_transmit ≡ b.max_information_field_length_receive)
    × (a.max_information_field_length_receive ≡ b.max_information_field_length_transmit)
    × (a.window_size_transmit ≡ b.window_size_receive)
    × (a.window_size_receive ≡ b.window_size_transmit)

-- The session holds these numbers as what it may send, and frames are built under them, between
-- any two addresses.
abbrev pub Enforces : HdlcAddress → HdlcAddress → HdlcSession → ℕ → ℕ → Type 0
Enforces destination source s field window =
    (s.negotiated_limits.max_information_field_length_transmit ≡ field)
    × (effective_maximum_information_field_size destination source s.options.limits ≡ field)
    × (s.negotiated_limits.window_size_transmit ≡ window)
    × (s.window_size_transmit ≡ window)

small_limit_refuses :
    (alloc : Allocator) (s : HdlcSession) (info : Bytes)
    → ((n : ℕ) → alloc n ≡ true)
    → 1 ≤ s.options.limits.maximum_information_field_size
    → s.options.limits.maximum_information_field_size < length info
    → build_frame alloc s ua_control (bytes info) ≡ fail information_field_too_large
unfolding build_frame decode_control is_supported_unnumbered encode_frame encode_frame_to_buffer
    effective_maximum_information_field_size
small_limit_refuses alloc s info enough low high =
    ground (arith, enough (effective_maximum_frame_size s.options.limits))

answer_connect_refused :
    (alloc : Allocator) (s : HdlcSession) (info : Bytes) (e : HdlcStatus)
    → build_frame alloc s ua_control (info_span info) ≡ fail e
    → answer_connect alloc s info ≡ record { output = fail e; session = s }
unfolding answer_connect
answer_connect_refused alloc s info e h = rw h

-- A server whose client is ready to receive no more than 22 bytes at once cannot answer its SNRM:
-- the limit is in force before the UA, which carries the 23 bytes of the negotiation block, is
-- built. The call fails with InformationFieldTooLarge, the connection is still to be answered, and
-- the session keeps the limit. The allocations are granted.
pub build_connect_response_small :
    (alloc : Allocator) (s : HdlcSession) (proposed : SnrmParams)
    → ((n : ℕ) → alloc n ≡ true)
    → s.options.role ≡ server
    → s.connect_response_pending ≡ true
    → s.pending_negotiation ≡ some proposed
    → 1
      ≤ min proposed.max_info_rx s.options.negotiation_limits.max_information_field_length_transmit
    → min proposed.max_info_rx s.options.negotiation_limits.max_information_field_length_transmit
      ≤ 22
    → ((build_connect_response alloc s).output ≡ fail information_field_too_large)
      × ((build_connect_response alloc s).session.connect_response_pending ≡ true)
      × ((build_connect_response alloc s).session.options.limits.maximum_information_field_size
          ≤ 22)
unfolding build_connect_response take_negotiated negotiate_params encode_snrm_negotiation_block
build_connect_response_small alloc s proposed enough role pending negotiation low high =
    rw
      (
        role,
        pending,
        negotiation,
        build_connect_response,
        answer_connect_refused alloc
            (take_negotiated s (negotiate_params proposed s.options.negotiation_limits))
            (encode_snrm_negotiation_block (negotiate_params proposed s.options.negotiation_limits))
            information_field_too_large
            (small_limit_refuses alloc
              (take_negotiated s (negotiate_params proposed s.options.negotiation_limits))
              (encode_snrm_negotiation_block
                (negotiate_params proposed s.options.negotiation_limits))
              enough low (omega arith)),
      )
      (refl, pending, high)
