-- ===== src/Hdlc/Session/State.antt =====
-- hdlc_session.hpp and the constructor and accessors in hdlc_session.cpp.
use dlms.Prelude.{
  ℕ, ◌+◌, ◌-◌, ◌%◌, Bool, false, ◌&&◌, Option, none, [], ltb, ◌==◌, if◌then◌else◌, Bytes,
}
use dlms.Hdlc.Types.{HdlcAddress, HdlcFrameBuffer, HdlcCodecLimits}
use dlms.Hdlc.Segmentation.{same_address}
use dlms.Hdlc.Session.Negotiation.{
  HdlcSessionNegotiationLimits, SnrmParams, default_max_info_field_length, default_window_size,
}

pub data HdlcSessionRole : Type 0 where
  client server : HdlcSessionRole

pub data HdlcSessionState : Type 0 where
  disconnected awaiting_connection connected awaiting_disconnect : HdlcSessionState

pub record HdlcSessionOptions : Type 0 where
  pub role : HdlcSessionRole
  pub client_address : HdlcAddress
  pub server_address : HdlcAddress
  pub limits : HdlcCodecLimits
  pub negotiation_limits : HdlcSessionNegotiationLimits

-- `pending_negotiation` holds the parameters where `pendingNegotiation_.active` is set.
pub record HdlcSession : Type 0 where
  pub options : HdlcSessionOptions
  pub state : HdlcSessionState
  pub send_sequence : ℕ
  pub receive_sequence : ℕ
  pub acknowledge_sequence : ℕ
  pub connect_response_pending : Bool
  pub disconnect_response_pending : Bool
  pub dm_response_pending : Bool
  pub pending_negotiation : Option SnrmParams
  pub negotiated_limits : HdlcSessionNegotiationLimits
  pub window_size_transmit : ℕ
  pub received_user_information : Bytes

abbrev pub or_default : ℕ → ℕ → ℕ
or_default value default = if value == 0 then default else value

-- Zero fields stand for the defaults of the protocol.
unfoldable pub normalised : HdlcSessionNegotiationLimits → HdlcSessionNegotiationLimits
normalised l = record {
  max_information_field_length_transmit =
      or_default l.max_information_field_length_transmit default_max_info_field_length;
  max_information_field_length_receive =
      or_default l.max_information_field_length_receive default_max_info_field_length;
  window_size_transmit = or_default l.window_size_transmit default_window_size;
  window_size_receive = or_default l.window_size_receive default_window_size;
}

unfoldable pub new_session : HdlcSessionOptions → HdlcSession
new_session options = record {
  options = record options { negotiation_limits = normalised options.negotiation_limits };
  state = disconnected;
  send_sequence = 0;
  receive_sequence = 0;
  acknowledge_sequence = 0;
  connect_response_pending = false;
  disconnect_response_pending = false;
  dm_response_pending = false;
  pending_negotiation = none;
  negotiated_limits = normalised options.negotiation_limits;
  window_size_transmit = (normalised options.negotiation_limits).window_size_transmit;
  received_user_information = [];
}

-- `(left - right) & 0x07u` of two `std::uint8_t`, which the code computes as `int`.
abbrev pub distance : ℕ → ℕ → ℕ
distance left right = (left + 256 - right) % 8

unfoldable pub can_send_information_frame : HdlcSession → Bool
can_send_information_frame s =
    ltb (distance s.send_sequence s.acknowledge_sequence) s.window_size_transmit

unfoldable pub local_address : HdlcSession → HdlcAddress
local_address s = elim s.options.role [
  | client ↦ s.options.client_address
  | server ↦ s.options.server_address
]

unfoldable pub remote_address : HdlcSession → HdlcAddress
remote_address s = elim s.options.role [
  | client ↦ s.options.server_address
  | server ↦ s.options.client_address
]

unfoldable pub incoming_addresses_match : HdlcSession → HdlcFrameBuffer → Bool
incoming_addresses_match s frame =
    same_address frame.destination (local_address s) && same_address frame.source (remote_address s)

-- The three sequence numbers are set to zero.
abbrev pub zeroed : HdlcSession → HdlcSession
zeroed s = record s { send_sequence = 0; receive_sequence = 0; acknowledge_sequence = 0 }
