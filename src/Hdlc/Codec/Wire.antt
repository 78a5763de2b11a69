-- ===== src/Hdlc/Codec/Wire.antt =====
-- hdlc_codec.cpp: the bytes of a frame and what the encoder writes.
use dlms.Prelude.{
  ℕ, ◌+◌, ◌-◌, ◌≤◌, ◌≡◌, refl, sym, inl, inr, true, [], ◌∷◌, ◌++◌, arith, ◌==◌, if◌then◌else◌,
  ==→eq, Bool-cases, length, take, drop, replicate, length-append, length-drop, length-replicate,
  take-append_length, take-length, done, Bytes, bytes, Allocator, high_byte, low_byte,
}
use dlms.Hdlc.Types.{ok, HdlcAddress, HdlcFrame, HdlcFrameBuffer, HdlcCodecLimits}
use dlms.Hdlc.Address.{encode_loop, encode_address}
use dlms.Hdlc.Address.Laws.{length-encode_loop}
use dlms.Hdlc.Control.{encode_control}
use dlms.Hdlc.Crc.{calculate_hdlc_crc}
use dlms.Hdlc.Codec.Encode.{
  hdlc_flag, effective_maximum_frame_size, effective_maximum_information_field_size, header_size_of,
  format_field_length_of, frame_format_of, frame_bytes, encode_frame_to_buffer, encode_frame,
}

-- An `HdlcFrame` over the bytes of an owning frame.
abbrev pub view : HdlcFrameBuffer → HdlcFrame
view frame = record {
  segmented = frame.segmented;
  destination = frame.destination;
  source = frame.source;
  control = frame.control;
  information = bytes frame.information;
}

abbrev pub address_bytes : HdlcAddress → Bytes
address_bytes a = encode_loop a.encoded_size a.raw_value

-- Format field, addresses and control byte.
unfoldable pub header_of : HdlcFrameBuffer → Bytes
header_of frame =
    let format = frame_format_of frame.segmented (format_field_length_of (view frame)) in
    high_byte format
    ∷ low_byte format
    ∷ (address_bytes frame.destination
        ++ (address_bytes frame.source ++ (frame.control.control_value ∷ [])))

unfoldable pub hcs_of : HdlcFrameBuffer → ℕ
hcs_of frame = calculate_hdlc_crc (bytes (header_of frame))

-- The header and the Information field with the header check sequence.
unfoldable pub body_of : HdlcFrameBuffer → Bytes
body_of frame =
    header_of frame
    ++ (if length frame.information == 0
        then []
        else low_byte (hcs_of frame) ∷ high_byte (hcs_of frame) ∷ frame.information)

unfoldable pub fcs_of : HdlcFrameBuffer → ℕ
fcs_of frame = calculate_hdlc_crc (bytes (body_of frame))

unfoldable pub wire : HdlcFrameBuffer → Bytes
wire frame =
    hdlc_flag
    ∷ (body_of frame ++ (low_byte (fcs_of frame) ∷ high_byte (fcs_of frame) ∷ hdlc_flag ∷ []))

-- The size that the code computes for the whole frame.
abbrev pub full_size : HdlcFrameBuffer → ℕ
full_size frame = format_field_length_of (view frame) + 2

pub length-header_of :
    (frame : HdlcFrameBuffer)
    → length (header_of frame) ≡ header_size_of frame.destination frame.source
unfolding header_of
length-header_of frame = omega (
  arith,
  length-append (address_bytes frame.destination)
      (address_bytes frame.source ++ (frame.control.control_value ∷ [])),
  length-append (address_bytes frame.source) (frame.control.control_value ∷ []),
  length-encode_loop frame.destination.encoded_size frame.destination.raw_value,
  length-encode_loop frame.source.encoded_size frame.source.raw_value,
)

pub length-body_of :
    (frame : HdlcFrameBuffer) → length (body_of frame) + 2 ≡ format_field_length_of (view frame)
unfolding body_of format_field_length_of
length-body_of frame = elim (Bool-cases (length frame.information == 0)) [
  | inl e ↦
      rw e (omega (arith, length-append (header_of frame) [], length-header_of frame, ==→eq _ _ e))
  | inr e ↦ rw e (
      omega (
        arith,
        length-append (header_of frame)
            (low_byte (hcs_of frame) ∷ high_byte (hcs_of frame) ∷ frame.information),
        length-header_of frame,
      ))
]

pub length-wire : (frame : HdlcFrameBuffer) → length (wire frame) ≡ full_size frame
unfolding wire
length-wire frame = omega (
  arith,
  length-body_of frame,
  length-append (body_of frame)
      (low_byte (fcs_of frame) ∷ high_byte (fcs_of frame) ∷ hdlc_flag ∷ []),
)

encode_address-fits :
    (a : HdlcAddress) (output : Bytes)
    → a.encoded_size ≤ length output
    → encode_address a (bytes output) ≡ done (address_bytes a)
unfolding encode_address
encode_address-fits a output h = ground arith

header-fits :
    (frame : HdlcFrameBuffer) → header_size_of frame.destination frame.source ≤ full_size frame
unfolding format_field_length_of
header-fits frame = omega arith

frame_bytes-wire :
    (frame : HdlcFrameBuffer) (output : Bytes)
    → full_size frame ≤ length output
    → frame_bytes (view frame) output ≡ done (wire frame)
unfolding frame_bytes encode_control wire body_of fcs_of hcs_of header_of
frame_bytes-wire frame output fits =
    rw (destination_fits, source_fits, header_taken, body_taken) refl
  where
    destination_fits :
        encode_address frame.destination (bytes (drop 3 output))
        ≡ done (address_bytes frame.destination)
    destination_fits =
        encode_address-fits frame.destination (drop 3 output)
          (omega (arith, header-fits frame, length-drop 3 output))

    source_fits :
        encode_address frame.source
          (bytes (drop (3 + length (address_bytes frame.destination)) output))
        ≡ done (address_bytes frame.source)
    source_fits = encode_address-fits frame.source _ (
        omega (
          arith,
          header-fits frame,
          length-drop (3 + length (address_bytes frame.destination)) output,
          length-encode_loop frame.destination.encoded_size frame.destination.raw_value,
        ))

    header_taken :
        take (header_size_of frame.destination frame.source) (header_of frame) ≡ header_of frame
    header_taken = take-length _ (header_of frame) (sym (length-header_of frame))

    body_taken : take (format_field_length_of (view frame) - 2) (body_of frame) ≡ body_of frame
    body_taken = take-length _ (body_of frame) (omega (arith, length-body_of frame))

-- The size checks of the encoder.
pub record Fits (limits : HdlcCodecLimits) (frame : HdlcFrameBuffer) : Type 0 where
  pub information_fits :
      length frame.information
      ≤ effective_maximum_information_field_size frame.destination frame.source limits
  pub length_fits : format_field_length_of (view frame) ≤ 2047
  pub frame_fits : full_size frame ≤ effective_maximum_frame_size limits

pub encode_frame_to_buffer-inv :
    (frame : HdlcFrameBuffer) (limits : HdlcCodecLimits) (output : Bytes)
    → (encode_frame_to_buffer (view frame) limits (bytes output)).status ≡ ok
    → Fits limits frame × (full_size frame ≤ length output)
unfolding encode_frame_to_buffer
encode_frame_to_buffer-inv frame limits output e = ground arith

-- On a frame that fits its limits and the buffer, the encoder writes the frame's bytes to the front
-- of the buffer, leaves the rest of it alone and reports their number.
pub encode_frame_to_buffer-wire :
    (frame : HdlcFrameBuffer) (limits : HdlcCodecLimits) (output : Bytes)
    → Fits limits frame
    → full_size frame ≤ length output
    → encode_frame_to_buffer (view frame) limits (bytes output) ≡ record {
      status = ok;
      written_size = full_size frame;
      output = bytes (wire frame ++ drop (full_size frame) output);
    }
unfolding encode_frame_to_buffer
encode_frame_to_buffer-wire frame limits output v fits =
    ground (arith, frame_bytes-wire frame output fits, length-wire frame)

-- What `EncodeFrame` gives when it succeeds, and that it does so just for the frames that fit.
pub encode_frame-wire :
    (alloc : Allocator) (frame : HdlcFrameBuffer) (limits : HdlcCodecLimits)
    → Fits limits frame
    → alloc (effective_maximum_frame_size limits) ≡ true
    → encode_frame alloc (view frame) limits ≡ done (wire frame)
unfolding encode_frame
encode_frame-wire alloc frame limits v a = ground (
  arith,
  length-replicate {A = ℕ} (effective_maximum_frame_size limits) 0,
  encode_frame_to_buffer-wire frame limits (replicate (effective_maximum_frame_size limits) 0) v,
  length-wire frame,
  take-append_length (full_size frame) (wire frame)
      (drop (full_size frame) (replicate (effective_maximum_frame_size limits) 0)),
)

pub encode_frame-Fits :
    (alloc : Allocator) (frame : HdlcFrameBuffer) (limits : HdlcCodecLimits) (w : Bytes)
    → encode_frame alloc (view frame) limits ≡ done w
    → Fits limits frame × (alloc (effective_maximum_frame_size limits) ≡ true)
unfolding encode_frame
encode_frame-Fits alloc frame limits w e = ground (
  arith,
  encode_frame_to_buffer-inv frame limits (replicate (effective_maximum_frame_size limits) 0),
)
