-- ===== src/Examples/Session.antt =====
-- Runs of the HDLC session (lib/dlms-hdlc, hdlc_session.cpp).
use dlms.Prelude.{
  ◌≤◌, ◌≡◌, refl, ◌≢◌, true, false, none, some, List, [], ◌∷◌, ◌++◌, arith, done, fail, bytes,
  Allocator, Bytes, inl,
}
use dlms.Hdlc.Types.{information_field_too_large, HdlcFrameBuffer}
use dlms.Hdlc.Session.Negotiation.{
  SnrmParams, default_negotiation_limits, parse_snrm_info_field, encode_snrm_negotiation_block,
  negotiate_params, parse-encode_block, parse_snrm_info_field_ends, is_default_negotiation_limits,
}
use dlms.Hdlc.Session.State.{
  HdlcSessionRole, client, server, HdlcSessionOptions, HdlcSession, new_session, normalised,
  incoming_addresses_match,
}
use dlms.Hdlc.Session.Receive.{
  receive_unnumbered_frame, receive_ua, receive_information_frame, receive_supervisory_frame,
}
use dlms.Hdlc.Session.Build.{
  make_information_control, make_receive_ready_control, build_connect_response,
  build_connect_request, build_connect_request_internal, proposed_params,
}
use dlms.Hdlc.Control.{
  information, supervisory, frame_kind, decode_control, send_sequence, receive_sequence, poll_final,
  unnumbered_kind, unnumbered_of,
}
use dlms.Hdlc.Session.Fields.{control_of, control_bytes_read_back}
use dlms.Hdlc.Session.Window.{
  SessionCall, connect_request, receive, information_frame, call_all, call,
}
use dlms.Hdlc.Session.Counts.{no_frames, count_calls, SmallWindows}
use dlms.Hdlc.Session.Outstanding.{InStep, Decides, call_all-InStep}
use dlms.Hdlc.Session.Connect.{build_connect_response_small}
use dlms.Hdlc.Segmentation.{same_address}
use dlms.Hdlc.Types.{ok}
use dlms.Hdlc.Address.{is_supported_encoded_size, encode_loop, encode_address}
use dlms.Hdlc.Address.Laws.{IsAddress}
use dlms.Hdlc.Control.{encode_control}
use dlms.Hdlc.Crc.{shift_crc, shift_bits, update_crc, crc_loop, calculate_hdlc_crc}
use dlms.Hdlc.Codec.Encode.{
  effective_maximum_frame_size, effective_maximum_information_field_size, format_field_length_of,
  frame_format_of, frame_bytes, encode_frame_to_buffer, encode_frame,
}
use dlms.Hdlc.Codec.Decode.{decode_frame}
use dlms.Hdlc.Session.State.{local_address, remote_address, can_send_information_frame}
use dlms.Hdlc.Session.Receive.{is_outside_window, receive_frame}
use dlms.Hdlc.Session.Build.{build_frame, build_information_frame}
use dlms.Hdlc.Session.Delivery.{Expects, sent_frame, information_frame_arrives}

abbrev granted : Allocator
granted n = true

abbrev options_of : HdlcSessionRole → HdlcSessionOptions
options_of role = record {
  role = role;
  client_address = record { raw_value = 0x10; encoded_size = 1 };
  server_address = record { raw_value = 1; encoded_size = 1 };
  limits = record {
    maximum_frame_size = 64;
    maximum_information_field_size = 0;
    maximum_reassembled_information_size = 0;
  };
  negotiation_limits = record {
    max_information_field_length_transmit = 256;
    max_information_field_length_receive = 300;
    window_size_transmit = 3;
    window_size_receive = 2;
  };
}

-- The answer of the server to the SNRM of the client.
abbrev ua_frame : HdlcFrameBuffer
ua_frame = record {
  segmented = false;
  destination = record { raw_value = 0x10; encoded_size = 1 };
  source = record { raw_value = 1; encoded_size = 1 };
  control = record { control_value = 0x73 };
  information = [];
}

-- The Receive Ready frame that acknowledges the information frame.
abbrev rr_frame : HdlcFrameBuffer
rr_frame = record {
  segmented = false;
  destination = record { raw_value = 0x10; encoded_size = 1 };
  source = record { raw_value = 1; encoded_size = 1 };
  control = record { control_value = 0x31 };
  information = [];
}

abbrev calls : List SessionCall
calls =
    connect_request
    ∷ receive ua_frame
    ∷ information_frame (bytes (1 ∷ 2 ∷ [])) true
    ∷ receive rr_frame
    ∷ []

small-windows : SmallWindows granted (new_session (options_of client)) calls
unfolding call build_connect_request build_connect_request_internal receive_frame
    build_information_frame can_send_information_frame build_frame make_information_control
    local_address remote_address decode_control encode_frame encode_frame_to_buffer
    effective_maximum_frame_size effective_maximum_information_field_size format_field_length_of
    frame_format_of frame_bytes encode_address encode_loop encode_control calculate_hdlc_crc
    crc_loop update_crc shift_bits shift_crc is_supported_encoded_size new_session normalised
    incoming_addresses_match receive_unnumbered_frame receive_ua receive_information_frame
    same_address receive_supervisory_frame frame_kind unnumbered_kind unnumbered_of proposed_params
    is_default_negotiation_limits encode_snrm_negotiation_block
small-windows = (omega arith, (omega arith, (omega arith, (omega arith, tt))))

call_all-InStep_example :
    InStep
      (call_all granted (new_session (options_of client)) calls)
      (count_calls granted (new_session (options_of client)) calls no_frames)
    × Decides
        (call_all granted (new_session (options_of client)) calls)
        (count_calls granted (new_session (options_of client)) calls no_frames)
        (record { control_value = 0x31 })
call_all-InStep_example =
    call_all-InStep granted (options_of client) calls (record { control_value = 0x31 })
      small-windows

abbrev proposal : SnrmParams
proposal = record { max_info_tx = 512; max_info_rx = 20; window_tx = 1; window_rx = 7 }

parse-encode_block_example :
    parse_snrm_info_field (encode_snrm_negotiation_block proposal ++ 9 ∷ [])
    ≡ some (done (proposal, 23))
parse-encode_block_example =
    parse-encode_block proposal (9 ∷ []) (omega arith) (omega arith) (omega arith) (omega arith)

parse_snrm_info_field_ends_example : parse_snrm_info_field (0x81 ∷ 0x80 ∷ 2 ∷ 5 ∷ 0 ∷ []) ≢ none
parse_snrm_info_field_ends_example = parse_snrm_info_field_ends (0x81 ∷ 0x80 ∷ 2 ∷ 5 ∷ 0 ∷ [])

-- A server that has received a SNRM with the proposal.
abbrev asked_server : HdlcSession
asked_server = record {
  options = options_of server;
  state = dlms.Hdlc.Session.State.disconnected;
  send_sequence = 0;
  receive_sequence = 0;
  acknowledge_sequence = 0;
  connect_response_pending = true;
  disconnect_response_pending = false;
  dm_response_pending = false;
  pending_negotiation = some proposal;
  negotiated_limits = default_negotiation_limits;
  window_size_transmit = 1;
  received_user_information = [];
}

-- A client that waits for the answer to this proposal, and the answer.
abbrev waiting_client : HdlcSession
waiting_client = record {
  options = options_of client;
  state = dlms.Hdlc.Session.State.awaiting_connection;
  send_sequence = 0;
  receive_sequence = 0;
  acknowledge_sequence = 0;
  connect_response_pending = false;
  disconnect_response_pending = false;
  dm_response_pending = false;
  pending_negotiation = none;
  negotiated_limits = default_negotiation_limits;
  window_size_transmit = 1;
  received_user_information = [];
}

abbrev ua_with_block : HdlcFrameBuffer
ua_with_block = record {
  segmented = false;
  destination = record { raw_value = 0x10; encoded_size = 1 };
  source = record { raw_value = 1; encoded_size = 1 };
  control = record { control_value = 0x73 };
  information =
      encode_snrm_negotiation_block
        (negotiate_params proposal asked_server.options.negotiation_limits);
}

build_connect_response_small_example :
    ((build_connect_response granted asked_server).output ≡ fail information_field_too_large)
    × ((build_connect_response granted asked_server).session.connect_response_pending ≡ true)
    × ((build_connect_response granted
          asked_server).session.options.limits.maximum_information_field_size
        ≤ 22)
build_connect_response_small_example =
    build_connect_response_small granted asked_server proposal (λ n. refl) refl refl refl
      (omega arith) (omega arith)

control_bytes_read_back_example :
    ((decode_control (make_information_control 5 2 true)
        ≡ done (control_of (make_information_control 5 2 true)))
      × (frame_kind (control_of (make_information_control 5 2 true)) ≡ information)
      × (send_sequence (control_of (make_information_control 5 2 true)) ≡ 5)
      × (receive_sequence (control_of (make_information_control 5 2 true)) ≡ 2)
      × (poll_final (control_of (make_information_control 5 2 true)) ≡ true))
    × ((decode_control (make_receive_ready_control 2 true)
          ≡ done (control_of (make_receive_ready_control 2 true)))
        × (frame_kind (control_of (make_receive_ready_control 2 true)) ≡ supervisory)
        × (receive_sequence (control_of (make_receive_ready_control 2 true)) ≡ 2)
        × (poll_final (control_of (make_receive_ready_control 2 true)) ≡ true))
control_bytes_read_back_example = control_bytes_read_back 5 2 true (omega arith) (omega arith)

abbrev connected_session : HdlcSessionRole → HdlcSession
connected_session role = record {
  options = options_of role;
  state = dlms.Hdlc.Session.State.connected;
  send_sequence = 0;
  receive_sequence = 0;
  acknowledge_sequence = 0;
  connect_response_pending = false;
  disconnect_response_pending = false;
  dm_response_pending = false;
  pending_negotiation = none;
  negotiated_limits = default_negotiation_limits;
  window_size_transmit = 1;
  received_user_information = [];
}

server-Expects : Expects (connected_session server) (connected_session client)
unfolding local_address remote_address is_outside_window
server-Expects = record {
  a_connected = refl;
  b_connected = refl;
  to_b = refl;
  from_a = refl;
  send_bits = omega arith;
  receive_bits = omega arith;
  in_turn = refl;
  acknowledged = refl;
}

abbrev line_bytes : Bytes
line_bytes =
    0x7e ∷ 0xa0 ∷ 11 ∷ 3 ∷ 0x21 ∷ 0x10 ∷ 0xa8 ∷ 0x20 ∷ 0xe6 ∷ 0x41 ∷ 0x1a ∷ 0x12 ∷ 0x7e ∷ []

client-sends :
    (build_information_frame granted
      (connected_session client)
      (bytes (0xe6 ∷ 0x41 ∷ []))
      true).output
    ≡ done line_bytes
unfolding build_information_frame can_send_information_frame build_frame make_information_control
    local_address remote_address decode_control encode_frame encode_frame_to_buffer
    effective_maximum_frame_size effective_maximum_information_field_size format_field_length_of
    frame_format_of frame_bytes encode_address encode_loop encode_control calculate_hdlc_crc
    crc_loop update_crc shift_bits shift_crc is_supported_encoded_size
client-sends = refl

client-IsAddress : IsAddress (local_address (connected_session client))
unfolding local_address
client-IsAddress = inl (refl, omega arith)

server-IsAddress : IsAddress (remote_address (connected_session client))
unfolding remote_address
server-IsAddress = inl (refl, omega arith)

information_frame_arrives_example :
    (decode_frame granted (bytes line_bytes) (connected_session client).options.limits
      ≡ done (sent_frame (connected_session client) (0xe6 ∷ 0x41 ∷ []) true))
    × ((receive_frame
          (connected_session server)
          (sent_frame (connected_session client) (0xe6 ∷ 0x41 ∷ []) true)).status
        ≡ ok)
    × ((receive_frame
          (connected_session server)
          (sent_frame (connected_session client) (0xe6 ∷ 0x41 ∷ []) true)).session.receive_sequence
        ≡ (build_information_frame granted
            (connected_session client)
            (bytes (0xe6 ∷ 0x41 ∷ []))
            true).session.send_sequence)
    × ((receive_frame (connected_session server) (
          sent_frame
            (connected_session client)
            (0xe6 ∷ 0x41 ∷ [])
            true)).session.acknowledge_sequence
        ≡ 0)
information_frame_arrives_example =
    information_frame_arrives granted (connected_session client) (connected_session server)
      (0xe6 ∷ 0x41 ∷ []) true line_bytes server-Expects server-IsAddress client-IsAddress
      (ground arith) client-sends
