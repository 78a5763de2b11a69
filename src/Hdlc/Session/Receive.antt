-- ===== src/Hdlc/Session/Receive.antt =====
-- hdlc_session.cpp: `ReceiveFrame` and what it calls.
use dlms.Prelude.{
  ℕ, ◌+◌, ◌%◌, Bool, true, false, ◌||◌, not, Option, none, some, [], ltb, ◌==◌, if◌then◌else◌,
  length, drop, Result, done, fail, Bytes,
}
use dlms.Hdlc.Types.{
  HdlcStatus, ok, unsupported_frame, invalid_control_field, invalid_address, HdlcFrameBuffer,
  internal_error,
}
use dlms.Hdlc.Control.{
  snrm, ua, disc, dm, frmr, ui, information, supervisory, unnumbered, frame_kind, supervisory_kind,
  unnumbered_kind, send_sequence, receive_sequence,
}
use dlms.Hdlc.Session.Negotiation.{SnrmParams, parse_snrm_info_field}
use dlms.Hdlc.Session.State.{
  HdlcSessionRole, client, server, HdlcSessionState, disconnected, awaiting_connection, connected,
  awaiting_disconnect, HdlcSession, distance, incoming_addresses_match, zeroed,
}

-- The status of a call and the session behind it.
pub record Received : Type 0 where
  pub status : HdlcStatus
  pub session : HdlcSession

unfoldable pub next_sequence : ℕ → ℕ
next_sequence sequence = (sequence + 1) % 8

-- `ackToNr > ackToSend`: `nr` is not within V(A) and V(S).
unfoldable pub is_outside_window : HdlcSession → ℕ → Bool
is_outside_window s nr =
    ltb (distance s.send_sequence s.acknowledge_sequence) (distance nr s.acknowledge_sequence)

abbrev pub is_connected : HdlcSessionState → Bool
is_connected connected = true
is_connected _ = false

unfoldable pub receive_information_frame : HdlcSession → HdlcFrameBuffer → Received
unfolding is_outside_window next_sequence
receive_information_frame s frame =
    let nr = receive_sequence frame.control in
    if not (is_connected s.state)
    then record { status = unsupported_frame; session = s }
    else if not (send_sequence frame.control == s.receive_sequence)
    then record { status = invalid_control_field; session = s }
    else if is_outside_window s nr
    then record { status = invalid_control_field; session = s }
    else record {
      status = ok;
      session = record s {
        acknowledge_sequence = nr;
        receive_sequence = next_sequence s.receive_sequence;
      };
    }

unfoldable pub receive_supervisory_frame : HdlcSession → HdlcFrameBuffer → Received
unfolding is_outside_window
receive_supervisory_frame s frame =
    let nr = receive_sequence frame.control in
    if not (is_connected s.state)
    then record { status = unsupported_frame; session = s }
    else elim (supervisory_kind frame.control) [
      | fail e ↦ record { status = e; session = s }
      | done kind ↦
          if is_outside_window s nr
          then record { status = invalid_control_field; session = s }
          else record { status = ok; session = record s { acknowledge_sequence = nr } }
    ]

-- The Information field of a SNRM is accepted: its parameters, if it had any, and what is behind them.
abbrev pub snrm_accepted : HdlcSession → Option SnrmParams → Bytes → Received
snrm_accepted s negotiation user_information = record {
  status = ok;
  session = zeroed (record s {
    received_user_information = user_information;
    pending_negotiation = negotiation;
    connect_response_pending = true;
  });
}

-- SNRM with a field that is not empty. `none` is no result of the code.
unfoldable pub receive_snrm_parsed :
    HdlcSession → Bytes → Option (Result HdlcStatus (SnrmParams × ℕ)) → Received
receive_snrm_parsed s info none = record { status = internal_error; session = s }
receive_snrm_parsed s info (some (fail e)) = record {
  status = e;
  session = record s {
    received_user_information = [];
    pending_negotiation = none;
    dm_response_pending = true;
  };
}
receive_snrm_parsed s info (some (done (params, consumed))) =
    snrm_accepted s (if ltb 0 consumed then some params else none) (drop consumed info)

abbrev pub is_server : HdlcSessionRole → Bool
is_server server = true
is_server client = false

abbrev pub is_disconnected : HdlcSessionState → Bool
is_disconnected disconnected = true
is_disconnected _ = false

unfoldable pub receive_snrm : HdlcSession → HdlcFrameBuffer → Received
unfolding receive_snrm_parsed
receive_snrm s frame =
    if not (is_server s.options.role) || not (is_disconnected s.state)
    then record { status = unsupported_frame; session = s }
    else if length frame.information == 0
    then snrm_accepted s none []
    else receive_snrm_parsed s frame.information (parse_snrm_info_field frame.information)

-- What the client takes over from the Information field of the UA.
unfoldable pub with_ua_params :
    HdlcSession → Option (Result HdlcStatus (SnrmParams × ℕ)) → HdlcSession
with_ua_params s (some (done (params, consumed))) =
    let limits = s.options.limits in
    let options = s.options in
    if ltb 0 consumed
    then record s {
      negotiated_limits = record {
        max_information_field_length_transmit = params.max_info_tx;
        max_information_field_length_receive = params.max_info_rx;
        window_size_transmit = params.window_tx % 256;
        window_size_receive = params.window_rx % 256;
      };
      options = record options {
        limits = record limits { maximum_information_field_size = params.max_info_tx };
      };
      window_size_transmit = params.window_tx % 256;
    }
    else s
with_ua_params s _ = s

unfoldable pub receive_ua : HdlcSession → HdlcFrameBuffer → Received
unfolding with_ua_params
receive_ua s frame = elim s.state [
  | awaiting_connection ↦ record {
    status = ok;
    session =
        zeroed
          (record (if length frame.information == 0
            then s
            else with_ua_params s (parse_snrm_info_field frame.information)) { state = connected });
  }
  | awaiting_disconnect ↦ record {
    status = ok;
    session = zeroed (record s { state = disconnected });
  }
  | disconnected ↦ record { status = unsupported_frame; session = s }
  | connected ↦ record { status = unsupported_frame; session = s }
]

unfoldable pub receive_disc : HdlcSession → HdlcFrameBuffer → Received
receive_disc s frame =
    if not (is_connected s.state)
    then record { status = unsupported_frame; session = s }
    else record {
      status = ok;
      session = record s {
        received_user_information = frame.information;
        disconnect_response_pending = true;
      };
    }

unfoldable pub receive_unnumbered_frame : HdlcSession → HdlcFrameBuffer → Received
unfolding receive_snrm receive_ua receive_disc
receive_unnumbered_frame s frame = elim (unnumbered_kind frame.control) [
  | fail e ↦ record { status = e; session = s }
  | done snrm ↦ receive_snrm s frame
  | done ua ↦ receive_ua s frame
  | done disc ↦ receive_disc s frame
  | done dm ↦ record { status = ok; session = zeroed (record s { state = disconnected }) }
  | done frmr ↦ record { status = unsupported_frame; session = s }
  | done ui ↦ record { status = unsupported_frame; session = s }
]

unfoldable pub receive_frame : HdlcSession → HdlcFrameBuffer → Received
unfolding receive_information_frame receive_supervisory_frame receive_unnumbered_frame
receive_frame s frame =
    if not (incoming_addresses_match s frame)
    then record { status = invalid_address; session = s }
    else elim (frame_kind frame.control) [
      | information ↦ receive_information_frame s frame
      | supervisory ↦ receive_supervisory_frame s frame
      | unnumbered ↦ receive_unnumbered_frame s frame
    ]
