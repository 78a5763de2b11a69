-- ===== src/Hdlc/Session/Fields.antt =====
-- The control bytes that the session builds, read back.
use dlms.Prelude.{ℕ, ◌<◌, ◌≡◌, Bool, arith, done}
use dlms.Hdlc.Types.{HdlcControl}
use dlms.Hdlc.Control.{
  information, supervisory, frame_kind, decode_control, send_sequence, receive_sequence, poll_final,
}
use dlms.Hdlc.Session.Build.{make_information_control, make_receive_ready_control}

abbrev pub control_of : ℕ → HdlcControl
control_of value = record { control_value = value }

-- The control byte of an I-frame with three-bit numbers decodes to an I-frame with these numbers
-- and the poll bit, and that of a Receive Ready frame to a supervisory frame with its number and
-- the poll bit.
pub control_bytes_read_back :
    (send receive : ℕ) (poll : Bool)
    → send < 8
    → receive < 8
    → ((decode_control (make_information_control send receive poll)
          ≡ done (control_of (make_information_control send receive poll)))
        × (frame_kind (control_of (make_information_control send receive poll)) ≡ information)
        × (send_sequence (control_of (make_information_control send receive poll)) ≡ send)
        × (receive_sequence (control_of (make_information_control send receive poll)) ≡ receive)
        × (poll_final (control_of (make_information_control send receive poll)) ≡ poll))
      × ((decode_control (make_receive_ready_control receive poll)
            ≡ done (control_of (make_receive_ready_control receive poll)))
          × (frame_kind (control_of (make_receive_ready_control receive poll)) ≡ supervisory)
          × (receive_sequence (control_of (make_receive_ready_control receive poll)) ≡ receive)
          × (poll_final (control_of (make_receive_ready_control receive poll)) ≡ poll))
unfolding make_information_control make_receive_ready_control decode_control frame_kind
    send_sequence receive_sequence poll_final
control_bytes_read_back send receive poll h k = ground arith
