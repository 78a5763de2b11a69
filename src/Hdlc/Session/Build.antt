-- ===== src/Hdlc/Session/Build.antt =====
-- hdlc_session.cpp: the operations that build a frame for the other side.
use dlms.Prelude.{
  ℕ, ◌+◌, ◌*◌, ◌%◌, Bool, true, false, not, none, some, [], ◌∷◌, ◌++◌, if◌then◌else◌, Result, done,
  fail, ◌>>=◌, Bytes, Span, null, bytes, Allocator,
}
use dlms.Hdlc.Types.{HdlcStatus, unsupported_frame, unsupported_feature}
use dlms.Hdlc.Control.{decode_control}
use dlms.Hdlc.Codec.Encode.{encode_frame}
use dlms.Hdlc.Session.Negotiation.{
  SnrmParams, HdlcSessionNegotiationLimits, is_default_negotiation_limits,
  encode_snrm_negotiation_block, negotiate_params,
}
use dlms.Hdlc.Session.State.{
  disconnected, awaiting_connection, connected, awaiting_disconnect, HdlcSession,
  can_send_information_frame, local_address, remote_address, zeroed,
}
use dlms.Hdlc.Session.Receive.{next_sequence, is_server, is_connected, is_disconnected}

-- The output of a call, `fail s` with a cleared vector, and the session behind it.
pub record Built : Type 0 where
  pub output : Result HdlcStatus Bytes
  pub session : HdlcSession

abbrev pub snrm_control : ℕ
snrm_control = 0x93

abbrev pub ua_control : ℕ
ua_control = 0x73

abbrev pub disc_control : ℕ
disc_control = 0x53

abbrev pub dm_control : ℕ
dm_control = 0x1f

abbrev pub poll_bit : Bool → ℕ
poll_bit true = 16
poll_bit false = 0

unfoldable pub make_information_control : ℕ → ℕ → Bool → ℕ
make_information_control send receive poll_final =
    send % 8 * 2 + poll_bit poll_final + receive % 8 * 32

unfoldable pub make_receive_ready_control : ℕ → Bool → ℕ
make_receive_ready_control receive poll_final = 1 + poll_bit poll_final + receive % 8 * 32

unfoldable pub build_frame : Allocator → HdlcSession → ℕ → Span → Result HdlcStatus Bytes
build_frame alloc s control info = do
  decoded ← decode_control control
  encode_frame alloc
      (record {
        segmented = false;
        destination = remote_address s;
        source = local_address s;
        control = decoded;
        information = info;
      })
      s.options.limits

-- The session changes where the frame is built.
abbrev pub on_success : Result HdlcStatus Bytes → HdlcSession → HdlcSession → Built
on_success (done w) s next = record { output = done w; session = next }
on_success (fail e) s next = record { output = fail e; session = s }

-- The pointer and size that the code passes on for a vector: `infoField.empty() ? 0 : data()`.
abbrev pub info_span : Bytes → Span
info_span [] = null 0
info_span (b ∷ bs) = bytes (b ∷ bs)

-- The user information of a call, if the pointer is not null and the size not 0.
abbrev pub user_bytes : Span → Bytes
user_bytes (null n) = []
user_bytes (bytes xs) = xs

unfoldable pub proposed_params : HdlcSessionNegotiationLimits → SnrmParams
proposed_params l = record {
  max_info_tx = l.max_information_field_length_transmit;
  max_info_rx = l.max_information_field_length_receive;
  window_tx = l.window_size_transmit;
  window_rx = l.window_size_receive;
}

unfoldable pub build_connect_request_internal : Allocator → HdlcSession → Bool → Span → Built
unfolding proposed_params
build_connect_request_internal alloc s include_negotiation user_information =
    let block =
      if include_negotiation
      then encode_snrm_negotiation_block (proposed_params s.options.negotiation_limits)
      else [] in
    if is_server s.options.role
    then record { output = fail unsupported_feature; session = s }
    else if not (is_disconnected s.state)
    then record { output = fail unsupported_frame; session = s }
    else on_success
        (build_frame alloc s snrm_control (info_span (block ++ user_bytes user_information))) s
        (zeroed (record s { state = awaiting_connection }))

unfoldable pub build_connect_request : Allocator → HdlcSession → Built
unfolding build_connect_request_internal
build_connect_request alloc s =
    build_connect_request_internal alloc s
      (not (is_default_negotiation_limits s.options.negotiation_limits)) (null 0)

unfoldable pub build_connect_request_with : Allocator → HdlcSession → Span → Built
unfolding build_connect_request_internal
build_connect_request_with alloc s user_information =
    build_connect_request_internal alloc s true user_information

-- The server takes the negotiated parameters over, seen from its side.
unfoldable pub take_negotiated : HdlcSession → SnrmParams → HdlcSession
take_negotiated s negotiated =
    let options = s.options in
    let limits = s.options.limits in
    record s {
      negotiated_limits = record {
        max_information_field_length_transmit = negotiated.max_info_rx;
        max_information_field_length_receive = negotiated.max_info_tx;
        window_size_transmit = negotiated.window_rx % 256;
        window_size_receive = negotiated.window_tx % 256;
      };
      options = record options {
        limits = record limits { maximum_information_field_size = negotiated.max_info_rx };
      };
      window_size_transmit = negotiated.window_rx % 256;
    }

-- `BuildConnectResponse` behind its guards, on the session with the negotiated limits.
unfoldable pub answer_connect : Allocator → HdlcSession → Bytes → Built
answer_connect alloc s info = on_success (build_frame alloc s ua_control (info_span info)) s (
    zeroed (record s {
      state = connected;
      connect_response_pending = false;
      pending_negotiation = none;
    }))

unfoldable pub build_connect_response : Allocator → HdlcSession → Built
unfolding answer_connect take_negotiated
build_connect_response alloc s =
    if not (is_server s.options.role)
    then record { output = fail unsupported_feature; session = s }
    else if not s.connect_response_pending
    then record { output = fail unsupported_frame; session = s }
    else elim s.pending_negotiation [
      | none ↦ answer_connect alloc s []
      | some proposed ↦
          let negotiated = negotiate_params proposed s.options.negotiation_limits in
          answer_connect alloc (take_negotiated s negotiated)
            (encode_snrm_negotiation_block negotiated)
    ]

unfoldable pub build_disconnect_request : Allocator → HdlcSession → Span → Built
build_disconnect_request alloc s user_information =
    if not (is_connected s.state)
    then record { output = fail unsupported_frame; session = s }
    else on_success (build_frame alloc s disc_control (info_span (user_bytes user_information))) s
        (record s { state = awaiting_disconnect })

unfoldable pub build_disconnect_response : Allocator → HdlcSession → Built
build_disconnect_response alloc s =
    if not s.disconnect_response_pending
    then record { output = fail unsupported_frame; session = s }
    else on_success (build_frame alloc s ua_control (null 0)) s
        (zeroed (record s { state = disconnected; disconnect_response_pending = false }))

unfoldable pub build_dm_response : Allocator → HdlcSession → Built
build_dm_response alloc s =
    if not s.dm_response_pending
    then record { output = fail unsupported_frame; session = s }
    else on_success (build_frame alloc s dm_control (null 0)) s
        (record s { dm_response_pending = false })

unfoldable pub build_information_frame : Allocator → HdlcSession → Span → Bool → Built
unfolding next_sequence
build_information_frame alloc s info poll_final =
    if not (is_connected s.state)
    then record { output = fail unsupported_frame; session = s }
    else if not (can_send_information_frame s)
    then record { output = fail unsupported_frame; session = s }
    else on_success
        (build_frame alloc s
          (make_information_control s.send_sequence s.receive_sequence poll_final) info)
        s (record s { send_sequence = next_sequence s.send_sequence })

unfoldable pub build_receive_ready_frame : Allocator → HdlcSession → Bool → Built
build_receive_ready_frame alloc s poll_final =
    if not (is_connected s.state)
    then record { output = fail unsupported_frame; session = s }
    else record {
      output =
          build_frame alloc s (make_receive_ready_control s.receive_sequence poll_final) (null 0);
      session = s;
    }
