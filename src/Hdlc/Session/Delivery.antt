-- ===== src/Hdlc/Session/Delivery.antt =====
-- hdlc_session.cpp: an I-frame on its way from one session to the other.
use dlms.Prelude.{
  ◌<◌, ◌≡◌, refl, sym, ap, ◌∙◌, Bool, false, arith, All, Result, done, fail, Bytes, IsByte, bytes,
  Allocator, ==-self,
}
use dlms.Hdlc.Types.{HdlcStatus, ok, HdlcFrameBuffer}
use dlms.Hdlc.Address.Laws.{IsAddress}
use dlms.Hdlc.Control.{
  information, decode_control, frame_kind, send_sequence, receive_sequence, poll_final,
}
use dlms.Hdlc.Codec.Encode.{encode_frame}
use dlms.Hdlc.Codec.Decode.{decode_frame}
use dlms.Hdlc.Codec.Wire.{view}
use dlms.Hdlc.Codec.RoundTrip.{IsFrame, decode_frame-encode_frame}
use dlms.Hdlc.Segmentation.Reassembly.{same_address_self}
use dlms.Hdlc.Session.State.{
  HdlcSession, connected, local_address, remote_address, incoming_addresses_match,
}
use dlms.Hdlc.Session.Receive.{
  next_sequence, is_outside_window, receive_frame, receive_information_frame,
}
use dlms.Hdlc.Session.Build.{
  build_frame, build_information_frame, make_information_control, on_success,
}
use dlms.Hdlc.Session.Fields.{control_of, control_bytes_read_back}

-- The frame that a session sends with some information.
abbrev pub sent_frame : HdlcSession → Bytes → Bool → HdlcFrameBuffer
sent_frame a info poll = record {
  segmented = false;
  destination = remote_address a;
  source = local_address a;
  control = control_of (make_information_control a.send_sequence a.receive_sequence poll);
  information = info;
}

-- Two connected sessions at the ends of one line, the first about to send what the second expects.
pub record Expects (b a : HdlcSession) : Type 0 where
  pub a_connected : a.state ≡ connected
  pub b_connected : b.state ≡ connected
  pub to_b : remote_address a ≡ local_address b
  pub from_a : local_address a ≡ remote_address b
  pub send_bits : a.send_sequence < 8
  pub receive_bits : a.receive_sequence < 8
  pub in_turn : b.receive_sequence ≡ a.send_sequence
  pub acknowledged : is_outside_window b a.receive_sequence ≡ false

build_frame-encodes :
    (alloc : Allocator) (a : HdlcSession) (info : Bytes) (poll : Bool)
    → a.send_sequence < 8
    → a.receive_sequence < 8
    → build_frame alloc a
        (make_information_control a.send_sequence a.receive_sequence poll)
        (bytes info)
      ≡ encode_frame alloc (view (sent_frame a info poll)) a.options.limits
unfolding build_frame
build_frame-encodes alloc a info poll h k =
    rw ((control_bytes_read_back a.send_sequence a.receive_sequence poll h k).0.0, build_frame)

on_success-done :
    (o : Result HdlcStatus Bytes) (s next : HdlcSession) (w : Bytes)
    → (on_success o s next).output ≡ done w
    → (o ≡ done w) × ((on_success o s next).session ≡ next)
on_success-done (done v) s next w e = (e, refl)
on_success-done (fail x) s next w e = cc

build_information_frame-sent :
    (alloc : Allocator) (a : HdlcSession) (info : Bytes) (poll : Bool) (w : Bytes)
    → a.send_sequence < 8
    → a.receive_sequence < 8
    → (build_information_frame alloc a (bytes info) poll).output ≡ done w
    → (encode_frame alloc (view (sent_frame a info poll)) a.options.limits ≡ done w)
      × ((build_information_frame alloc a (bytes info) poll).session.send_sequence
          ≡ next_sequence a.send_sequence)
unfolding build_information_frame
build_information_frame-sent alloc a info poll w h k e =
    ground (arith, build_frame-encodes alloc a info poll h k)

sent_frame-IsFrame :
    (a : HdlcSession) (info : Bytes) (poll : Bool)
    → a.send_sequence < 8
    → a.receive_sequence < 8
    → IsAddress (remote_address a)
    → IsAddress (local_address a)
    → All IsByte info
    → IsFrame (sent_frame a info poll)
unfolding make_information_control
sent_frame-IsFrame a info poll h k d s bs = record {
  destination_ok = d;
  source_ok = s;
  control_byte = ground arith;
  control_ok = (control_bytes_read_back a.send_sequence a.receive_sequence poll h k).0.0;
  information_bytes = bs;
}

sent_frame-received :
    (a b : HdlcSession) (info : Bytes) (poll : Bool)
    → Expects b a
    → receive_frame b (sent_frame a info poll) ≡ record {
      status = ok;
      session = record b {
        acknowledge_sequence = a.receive_sequence;
        receive_sequence = next_sequence a.send_sequence;
      };
    }
unfolding receive_frame receive_information_frame incoming_addresses_match
sent_frame-received a b info poll v = rw (
  v.to_b,
  v.from_a,
  same_address_self (local_address b),
  same_address_self (remote_address b),
  r.1,
  v.b_connected,
  r.2,
  r.3,
  v.in_turn,
  ==-self a.send_sequence,
  v.acknowledged,
)
  where
    r :
        (decode_control (make_information_control a.send_sequence a.receive_sequence poll)
          ≡ done (control_of (make_information_control a.send_sequence a.receive_sequence poll)))
        × (frame_kind
              (control_of (make_information_control a.send_sequence a.receive_sequence poll))
            ≡ information)
        × (send_sequence
              (control_of (make_information_control a.send_sequence a.receive_sequence poll))
            ≡ a.send_sequence)
        × (receive_sequence
              (control_of (make_information_control a.send_sequence a.receive_sequence poll))
            ≡ a.receive_sequence)
        × (poll_final
              (control_of (make_information_control a.send_sequence a.receive_sequence poll))
            ≡ poll)
    r =
        (control_bytes_read_back a.send_sequence a.receive_sequence poll v.send_bits
          v.receive_bits).0

-- Between two connected sessions at the ends of one line, an I-frame that the first builds is
-- decoded, under the limits of the sender, to a frame with the same information, which the second
-- accepts if it is the one it expects: both then stand at the same number of the next frame, and the second has
-- taken over what the first acknowledged. The addresses are supported, the information is bytes.
pub information_frame_arrives :
    (alloc : Allocator) (a b : HdlcSession) (info : Bytes) (poll : Bool) (w : Bytes)
    → Expects b a
    → IsAddress (remote_address a)
    → IsAddress (local_address a)
    → All IsByte info
    → (build_information_frame alloc a (bytes info) poll).output ≡ done w
    → (decode_frame alloc (bytes w) a.options.limits ≡ done (sent_frame a info poll))
      × ((receive_frame b (sent_frame a info poll)).status ≡ ok)
      × ((receive_frame b (sent_frame a info poll)).session.receive_sequence
          ≡ (build_information_frame alloc a (bytes info) poll).session.send_sequence)
      × ((receive_frame b (sent_frame a info poll)).session.acknowledge_sequence
          ≡ a.receive_sequence)
information_frame_arrives alloc a b info poll w v d s bs e = (
  decode_frame-encode_frame alloc (sent_frame a info poll) a.options.limits w
      (sent_frame-IsFrame a info poll v.send_bits v.receive_bits d s bs) sent.0,
  ap (λ r. r.status) received,
  ap (λ r. r.session.receive_sequence) received ∙ sym sent.1,
  ap (λ r. r.session.acknowledge_sequence) received,
)
  where
    sent :
        (encode_frame alloc (view (sent_frame a info poll)) a.options.limits ≡ done w)
        × ((build_information_frame alloc a (bytes info) poll).session.send_sequence
            ≡ next_sequence a.send_sequence)
    sent = build_information_frame-sent alloc a info poll w v.send_bits v.receive_bits e

    received : receive_frame b (sent_frame a info poll) ≡ record {
      status = ok;
      session = record b {
        acknowledge_sequence = a.receive_sequence;
        receive_sequence = next_sequence a.send_sequence;
      };
    }
    received = sent_frame-received a b info poll v
