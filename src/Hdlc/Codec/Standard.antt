-- ===== src/Hdlc/Codec/Standard.antt =====
-- hdlc_codec.cpp: the encoder against the frame format type 3, octet by octet.

use dlms.Hdlc.Types.{ok, HdlcAddress, HdlcFrameBuffer, HdlcCodecLimits}
use dlms.Hdlc.Address.{encode_loop}
use dlms.Hdlc.Address.Laws.{IsAddress}
use dlms.Hdlc.Crc.Serial.{x25_fcs, calculate_hdlc_crc-x25}
use dlms.Hdlc.Codec.Encode.{
  effective_maximum_frame_size, effective_maximum_information_field_size, format_field_length_of,
  frame_format_of, encode_frame_to_buffer,
}
use dlms.Hdlc.Codec.Wire.{
  view, address_bytes, header_of, hcs_of, body_of, fcs_of, wire, full_size, Fits,
  encode_frame_to_buffer-wire, encode_frame_to_buffer-inv,
}
use dlms.Hdlc.Codec.RoundTrip.{IsFrame, header_of-IsByte, body_of-IsByte}
use dlms.Prelude.{
  ℕ, ◌+◌, ◌-◌, ◌*◌, ◌/◌, ◌%◌, ◌≤◌, ◌≡◌, refl, sym, ◌≢◌, ◌↔◌, ◌⊎◌, inl, inr, [], ◌∷◌, ◌++◌, arith,
  ◌==◌, if◌then◌else◌, length, drop, Bytes, bytes, size,
}

-- Groups of seven bits, the high ones first, each above a bit that is set in the last octet alone.
abbrev pub standard_address : ℕ → ℕ → Bytes
standard_address size raw =
    if size == 1
    then (raw * 2 + 1) ∷ []
    else if size == 2
    then (raw / 128 * 2) ∷ (raw % 128 * 2 + 1) ∷ []
    else (raw / 2097152 * 2)
      ∷ (raw / 16384 % 128 * 2)
      ∷ (raw / 128 % 128 * 2)
      ∷ (raw % 128 * 2 + 1)
      ∷ []

-- All octets from flag to flag. An empty Information field has no header check sequence.
abbrev pub octets : HdlcFrameBuffer → ℕ
octets frame =
    frame.destination.encoded_size
    + frame.source.encoded_size
    + (if length frame.information == 0 then 7 else length frame.information + 9)

-- A check sequence, its low octet first.
abbrev pub check_field : Bytes → Bytes
check_field bs = (x25_fcs bs % 256) ∷ (x25_fcs bs / 256 % 256) ∷ []

-- The format field has the type 1010, the segmentation bit and eleven bits for the octets between
-- the flags.
unfoldable pub standard_header : HdlcFrameBuffer → Bytes
standard_header frame =
    (0xa0 + (if frame.segmented then 8 else 0) + (octets frame - 2) / 256)
    ∷ ((octets frame - 2) % 256)
    ∷ (standard_address frame.destination.encoded_size frame.destination.raw_value
        ++ (standard_address frame.source.encoded_size frame.source.raw_value
            ++ (frame.control.control_value ∷ [])))

unfoldable pub standard_body : HdlcFrameBuffer → Bytes
standard_body frame =
    standard_header frame
    ++ (if length frame.information == 0
        then []
        else check_field (standard_header frame) ++ frame.information)

unfoldable pub standard_frame : HdlcFrameBuffer → Bytes
standard_frame frame =
    0x7e ∷ (standard_body frame ++ (check_field (standard_body frame) ++ (0x7e ∷ [])))

-- The room that a frame needs: eleven bits for its length, and the limits, where 0 is no limit.
abbrev pub HasRoom : HdlcCodecLimits → HdlcFrameBuffer → Bytes → Type 0
HasRoom limits frame output =
    (octets frame ≤ 2049)
    × ((limits.maximum_frame_size ≡ 0) ⊎ (octets frame ≤ limits.maximum_frame_size))
    × ((limits.maximum_information_field_size ≡ 0)
        ⊎ (length frame.information ≤ limits.maximum_information_field_size))
    × (octets frame ≤ length output)

octets-full_size : (frame : HdlcFrameBuffer) → octets frame ≡ full_size frame
unfolding format_field_length_of
octets-full_size frame = ground arith

HasRoom-Fits :
    (limits : HdlcCodecLimits) (frame : HdlcFrameBuffer) (output : Bytes)
    → HasRoom limits frame output ↔ (Fits limits frame × (full_size frame ≤ length output))
unfolding format_field_length_of effective_maximum_frame_size
    effective_maximum_information_field_size
HasRoom-Fits limits frame output = (λ h. ground arith, λ h. ground arith)

HasRoom-cases :
    (limits : HdlcCodecLimits) (frame : HdlcFrameBuffer) (output : Bytes)
    → HasRoom limits frame output ⊎ ¬ HasRoom limits frame output
HasRoom-cases limits frame output = ground arith

address_bytes-standard :
    (a : HdlcAddress) → IsAddress a → address_bytes a ≡ standard_address a.encoded_size a.raw_value
unfolding encode_loop
address_bytes-standard a h = ground arith

header_of-standard :
    (frame : HdlcFrameBuffer)
    → IsFrame frame
    → octets frame ≤ 2049
    → header_of frame ≡ standard_header frame
unfolding header_of standard_header frame_format_of
header_of-standard frame v h =
    rw
      (
        address_bytes-standard frame.destination v.destination_ok,
        address_bytes-standard frame.source v.source_ok,
      )
      (ground (arith, octets-full_size frame))

body_of-standard :
    (frame : HdlcFrameBuffer)
    → IsFrame frame
    → octets frame ≤ 2049
    → body_of frame ≡ standard_body frame
unfolding body_of standard_body hcs_of
body_of-standard frame v h =
    rw
      (
        sym (header_of-standard frame v h),
        sym (calculate_hdlc_crc-x25 (header_of frame) (header_of-IsByte frame v)),
      )
      refl

wire-standard :
    (frame : HdlcFrameBuffer)
    → IsFrame frame
    → octets frame ≤ 2049
    → wire frame ≡ standard_frame frame
unfolding wire standard_frame fcs_of
wire-standard frame v h =
    rw
      (
        sym (body_of-standard frame v h),
        sym (calculate_hdlc_crc-x25 (body_of frame) (body_of-IsByte frame v)),
      )
      refl

refused_leaves_output :
    (frame : HdlcFrameBuffer) (limits : HdlcCodecLimits) (output : Bytes)
    → (encode_frame_to_buffer (view frame) limits (bytes output)).status ≢ ok
    → (encode_frame_to_buffer (view frame) limits (bytes output)).output ≡ bytes output
unfolding encode_frame_to_buffer
refused_leaves_output frame limits output e = ground arith

-- `EncodeFrameToBuffer` on a frame of supported addresses, an accepted control byte and bytes of
-- information. If there is room, 2049 octets at most, within the limits that are not 0 and within
-- the buffer, it succeeds, puts the octets of the frame type 3 to the front of the buffer, leaves
-- the rest of it alone and reports their number. Otherwise it fails and the buffer is untouched.
pub encode_frame_to_buffer-standard :
    (frame : HdlcFrameBuffer) (limits : HdlcCodecLimits) (output : Bytes)
    → IsFrame frame
    → (HasRoom limits frame output
        × (encode_frame_to_buffer (view frame) limits (bytes output) ≡ record {
          status = ok;
          written_size = octets frame;
          output = bytes (standard_frame frame ++ drop (octets frame) output);
        }))
      ⊎ ((¬ HasRoom limits frame output)
          × ((encode_frame_to_buffer (view frame) limits (bytes output)).status ≢ ok)
          × ((encode_frame_to_buffer (view frame) limits (bytes output)).output ≡ bytes output))
encode_frame_to_buffer-standard frame limits output v = elim (HasRoom-cases limits frame output) [
  | inl room ↦ inl (
    room,
    rw (octets-full_size frame, sym (wire-standard frame v room.0))
        (encode_frame_to_buffer-wire frame limits output
          ((HasRoom-Fits limits frame output).0 room).0
          ((HasRoom-Fits limits frame output).0 room).1),
  )
  | inr full ↦
      let refused : (encode_frame_to_buffer (view frame) limits (bytes output)).status ≢ ok = λ e.
        full (
          (HasRoom-Fits limits frame output).1
            (encode_frame_to_buffer-inv frame limits output e)) in
      inr (full, refused, refused_leaves_output frame limits output refused)
]
