-- ===== src/Hdlc/Codec/RoundTrip.antt =====
-- hdlc_codec.cpp: the round trip of `EncodeFrame` and `DecodeFrame`.
use dlms.Prelude.{
  ℕ, zero, suc, ◌+◌, ◌-◌, ◌/◌, ◌%◌, ◌≤◌, ◌≡◌, refl, sym, ap, ◌∙◌, inl, inr, Bool, true, false, not,
  [], ◌∷◌, ◌++◌, append_assoc, append-nil, arith, ◌==◌, if◌then◌else◌, ==→eq, Bool-cases, length,
  get_or, drop, replicate, All, length-append, length-replicate, take-append_length,
  get_or-append_length, All-append, eq-nil, done, Bytes, IsByte, contents, Span, bytes, Allocator,
  high_byte, low_byte, join_bytes, overwrite, size,
}
use dlms.Hdlc.Types.{HdlcAddress, HdlcFrameBuffer, HdlcCodecLimits}
use dlms.Hdlc.Address.{encode_loop, encode_address}
use dlms.Hdlc.Address.Laws.{IsAddress, length-encode_loop, from_bytes-encode_address}
use dlms.Hdlc.Control.{decode_control}
use dlms.Hdlc.Crc.{calculate_hdlc_crc}
use dlms.Hdlc.Crc.Laws.{calculate_hdlc_crc-lt}
use dlms.Hdlc.Codec.Encode.{
  hdlc_flag, effective_maximum_frame_size, format_field_length_of, frame_format_of, encode_frame,
}
use dlms.Hdlc.Codec.Decode.{
  decode_fields, decode_information, decode_body, decode_frame_from_buffer, decode_frame,
  frame_format_at,
}
use dlms.Hdlc.Codec.Reads.{
  Encodes, decode_fields_lem, decode_information-empty, decode_information-full,
}
use dlms.Hdlc.Codec.Wire.{
  view, address_bytes, header_of, hcs_of, body_of, fcs_of, wire, full_size, length-header_of,
  length-wire, Fits, encode_frame-wire, encode_frame-Fits,
}

-- A frame of supported addresses, an accepted control byte and bytes of information.
pub record IsFrame (frame : HdlcFrameBuffer) : Type 0 where
  pub destination_ok : IsAddress frame.destination
  pub source_ok : IsAddress frame.source
  pub control_byte : IsByte frame.control.control_value
  pub control_ok : decode_control frame.control.control_value ≡ done frame.control
  pub information_bytes : All IsByte frame.information

encode_loop-IsByte : (k raw : ℕ) → All IsByte (encode_loop k raw)
unfolding encode_loop
encode_loop-IsByte zero raw = tt
encode_loop-IsByte (suc k) raw = (ground arith, encode_loop-IsByte k raw)

pub header_of-IsByte : (frame : HdlcFrameBuffer) → IsFrame frame → All IsByte (header_of frame)
unfolding header_of
header_of-IsByte frame v = (
  omega arith,
  (
    omega arith,
    All-append IsByte (address_bytes frame.destination) _ (encode_loop-IsByte _ _) (
        All-append IsByte (address_bytes frame.source) _ (encode_loop-IsByte _ _)
          (v.control_byte, tt)),
  ),
)

pub body_of-IsByte : (frame : HdlcFrameBuffer) → IsFrame frame → All IsByte (body_of frame)
unfolding body_of
body_of-IsByte frame v =
    All-append IsByte (header_of frame) _ (header_of-IsByte frame v)
      (elim (Bool-cases (length frame.information == 0)) [
        | inl e ↦ rw e tt
        | inr e ↦ rw e (omega arith, (omega arith, v.information_bytes))
      ])

hcs_joined :
    (frame : HdlcFrameBuffer)
    → IsFrame frame
    → hcs_of frame ≡ join_bytes (high_byte (hcs_of frame)) (low_byte (hcs_of frame))
unfolding hcs_of
hcs_joined frame v =
    omega (arith, calculate_hdlc_crc-lt (header_of frame) (header_of-IsByte frame v))

fcs_joined :
    (frame : HdlcFrameBuffer)
    → IsFrame frame
    → fcs_of frame ≡ join_bytes (high_byte (fcs_of frame)) (low_byte (fcs_of frame))
unfolding fcs_of
fcs_joined frame v = omega (arith, calculate_hdlc_crc-lt (body_of frame) (body_of-IsByte frame v))

address_bytes-Encodes : (a : HdlcAddress) → IsAddress a → Encodes (address_bytes a) a
address_bytes-Encodes a v rest = rw (length-encode_loop a.encoded_size a.raw_value) (
    from_bytes-encode_address a (address_bytes a) (address_bytes a) rest v
      (unfold encode_address in ground (arith, length-encode_loop a.encoded_size a.raw_value)))

-- The Information field with its check sequence, and what stands behind it.
abbrev information_of : HdlcFrameBuffer → Bytes
information_of frame =
    if length frame.information == 0
    then []
    else low_byte (hcs_of frame) ∷ high_byte (hcs_of frame) ∷ frame.information

abbrev trailer_of : HdlcFrameBuffer → Bytes
trailer_of frame = low_byte (fcs_of frame) ∷ high_byte (fcs_of frame) ∷ hdlc_flag ∷ []

abbrev pub format_of : HdlcFrameBuffer → ℕ
format_of frame = frame_format_of frame.segmented (format_field_length_of (view frame))

wire-header :
    (frame : HdlcFrameBuffer)
    → wire frame ≡ hdlc_flag ∷ (header_of frame ++ (information_of frame ++ trailer_of frame))
unfolding wire body_of
wire-header frame =
    ap (◌∷◌ hdlc_flag) (append_assoc (header_of frame) (information_of frame) (trailer_of frame))

wire-fields :
    (frame : HdlcFrameBuffer)
    → wire frame
      ≡ hdlc_flag
        ∷ high_byte (format_of frame)
        ∷ low_byte (format_of frame)
        ∷ (address_bytes frame.destination
            ++ (address_bytes frame.source
                ++ (frame.control.control_value ∷ (information_of frame ++ trailer_of frame))))
wire-fields frame = wire-header frame ∙ unfold header_of in simp append_assoc

decode_fields-wire :
    (frame : HdlcFrameBuffer)
    → IsFrame frame
    → decode_fields (wire frame) (full_size frame)
      ≡ done (record {
        destination = frame.destination;
        source = frame.source;
        control = frame.control;
        offset = 1 + length (header_of frame);
      })
decode_fields-wire frame v =
    ap (λ (xs : Bytes). decode_fields xs (full_size frame)) (wire-fields frame)
    ∙ decode_fields_lem hdlc_flag (high_byte (format_of frame)) (low_byte (format_of frame))
        frame.control.control_value (full_size frame) (address_bytes frame.destination)
        (address_bytes frame.source) (information_of frame ++ trailer_of frame) frame.destination
        frame.source frame.control (address_bytes-Encodes frame.destination v.destination_ok)
        (address_bytes-Encodes frame.source v.source_ok) v.control_ok
        (omega (arith, length-wire frame, ap length (wire-fields frame), lengths))
        (omega (arith, length-append (information_of frame) (trailer_of frame)))
    ∙ ap
        (λ (n : ℕ). done (record {
          destination = frame.destination;
          source = frame.source;
          control = frame.control;
          offset = n;
        }))
        (omega (
          arith,
          length-header_of frame,
          length-encode_loop frame.destination.encoded_size frame.destination.raw_value,
          length-encode_loop frame.source.encoded_size frame.source.raw_value,
        ))
  where
    rest : Bytes
    rest = frame.control.control_value ∷ (information_of frame ++ trailer_of frame)

    lengths :
        length (address_bytes frame.destination ++ (address_bytes frame.source ++ rest))
        ≡ length (address_bytes frame.destination)
          + length (address_bytes frame.source)
          + length rest
    lengths = omega (
      arith,
      length-append (address_bytes frame.destination) (address_bytes frame.source ++ rest),
      length-append (address_bytes frame.source) rest,
    )

wire-empty :
    (frame : HdlcFrameBuffer)
    → (length frame.information == 0) ≡ true
    → (wire frame ≡ hdlc_flag ∷ (header_of frame ++ trailer_of frame))
      × (fcs_of frame ≡ calculate_hdlc_crc (bytes (header_of frame)))
wire-empty frame e =
    (wire-header frame ∙ rw e refl, unfold fcs_of body_of in rw (e, append-nil) refl)

wire-full :
    (frame : HdlcFrameBuffer)
    → (length frame.information == 0) ≡ false
    → (wire frame
        ≡ hdlc_flag
          ∷ (header_of frame
              ++ (low_byte (hcs_of frame)
                  ∷ high_byte (hcs_of frame)
                  ∷ (frame.information ++ trailer_of frame))))
      × (body_of frame
          ≡ header_of frame
            ++ (low_byte (hcs_of frame) ∷ high_byte (hcs_of frame) ∷ frame.information))
wire-full frame e = (wire-header frame ∙ rw e refl, unfold body_of in rw e refl)

decode_information-wire :
    (frame : HdlcFrameBuffer)
    → IsFrame frame
    → decode_information (wire frame) (full_size frame) (1 + length (header_of frame))
      ≡ done frame.information
decode_information-wire frame v = elim (Bool-cases (length frame.information == 0)) [
  | inl e ↦
      let (layout, fcs) = wire-empty frame e in
      ap (λ (xs : Bytes). decode_information xs (full_size frame) (1 + length (header_of frame)))
        layout
      ∙ decode_information-empty hdlc_flag (full_size frame) (header_of frame)
          (low_byte (fcs_of frame)) (high_byte (fcs_of frame)) hdlc_flag
          (omega (
            arith,
            length-wire frame,
            ap length layout,
            length-append (header_of frame) (trailer_of frame),
          ))
          (sym fcs ∙ fcs_joined frame v)
      ∙ ap done (sym (eq-nil frame.information (==→eq _ _ e)))
  | inr e ↦
      let (layout, body) = wire-full frame e in
      let inner =
        low_byte (hcs_of frame)
        ∷ high_byte (hcs_of frame)
        ∷ (frame.information ++ trailer_of frame) in
      ap (λ (xs : Bytes). decode_information xs (full_size frame) (1 + length (header_of frame)))
        layout
      ∙ decode_information-full hdlc_flag (full_size frame) (low_byte (hcs_of frame))
          (high_byte (hcs_of frame)) (low_byte (fcs_of frame)) (high_byte (fcs_of frame)) hdlc_flag
          (header_of frame) frame.information (ground arith)
          (omega (
            arith,
            length-wire frame,
            ap length layout,
            length-append (header_of frame) inner,
            length-append frame.information (trailer_of frame),
          ))
          (unfold hcs_of in hcs_joined frame v)
          (ap (λ (xs : Bytes). calculate_hdlc_crc (bytes xs)) (sym body)
            ∙ (unfold fcs_of in fcs_joined frame v))
]

pub format-wire :
    (frame : HdlcFrameBuffer)
    → (get_or (wire frame) 0 0 ≡ hdlc_flag)
      × (frame_format_at (wire frame)
          ≡ join_bytes (high_byte (format_of frame)) (low_byte (format_of frame)))
format-wire frame = rw (wire-fields frame) (refl, refl)

-- The three fields of the format.
pub format-fields :
    (segmented : Bool) (n : ℕ)
    → n ≤ 2047
    → let format =
        join_bytes
          (high_byte (frame_format_of segmented n))
          (low_byte (frame_format_of segmented n)) in
      (format / 4096 ≡ 10) × (format % 2048 ≡ n) × (not (format / 2048 % 2 == 0) ≡ segmented)
unfolding frame_format_of
format-fields true n h = (omega arith, omega arith, ground arith)
format-fields false n h = (omega arith, omega arith, ground arith)

flag-last : (frame : HdlcFrameBuffer) → get_or (wire frame) (full_size frame - 1) 0 ≡ hdlc_flag
flag-last frame =
    ap (λ (xs : Bytes). get_or xs (full_size frame - 1) 0) split
    ∙ get_or-append_length (full_size frame - 1) front [] hdlc_flag 0
        (omega (arith, length-wire frame, ap length split, length-append front (hdlc_flag ∷ [])))
  where
    front : Bytes
    front = hdlc_flag ∷ (body_of frame ++ (low_byte (fcs_of frame) ∷ high_byte (fcs_of frame) ∷ []))

    split : wire frame ≡ front ++ (hdlc_flag ∷ [])
    split = unfold wire in simp append_assoc

decode_body-wire :
    (frame : HdlcFrameBuffer) (limits : HdlcCodecLimits) (buffer : Span)
    → IsFrame frame
    → Fits limits frame
    → length frame.information ≤ size buffer
    → decode_body (wire frame) (full_size frame) frame.segmented limits buffer
      ≡ done (frame, overwrite 0 frame.information (contents buffer))
unfolding decode_body
decode_body-wire frame limits buffer v fits room =
    ground (arith, decode_fields-wire frame v, decode_information-wire frame v)

pub full_size-ge :
    (frame : HdlcFrameBuffer) → IsFrame frame → length frame.information + 9 ≤ full_size frame
unfolding format_field_length_of
full_size-ge frame v = ground arith

-- The decoder gives back a frame that fits the limits, with its information in the buffer.
pub decode_frame_from_buffer-wire :
    (frame : HdlcFrameBuffer) (limits : HdlcCodecLimits) (buffer : Bytes)
    → IsFrame frame
    → Fits limits frame
    → length frame.information ≤ length buffer
    → decode_frame_from_buffer (bytes (wire frame)) limits (bytes buffer)
      ≡ done (frame, overwrite 0 frame.information buffer)
unfolding decode_frame_from_buffer
decode_frame_from_buffer-wire frame limits buffer v fits room = ground (
  arith,
  format-wire frame,
  format-fields frame.segmented (format_field_length_of (view frame)),
  flag-last frame,
  length-wire frame,
  full_size-ge frame v,
  decode_body-wire frame limits (bytes buffer) v fits,
)

pub decode_frame-wire :
    (alloc : Allocator) (frame : HdlcFrameBuffer) (limits : HdlcCodecLimits)
    → IsFrame frame
    → Fits limits frame
    → alloc (effective_maximum_frame_size limits) ≡ true
    → decode_frame alloc (bytes (wire frame)) limits ≡ done frame
unfolding decode_frame
decode_frame-wire alloc frame limits v fits a =
    let zeros : Bytes = replicate (effective_maximum_frame_size limits) 0 in
    ground (
      arith,
      length-replicate {A = ℕ} (effective_maximum_frame_size limits) 0,
      full_size-ge frame v,
      decode_frame_from_buffer-wire frame limits zeros v fits,
      take-append_length (length frame.information) frame.information
          (drop (length frame.information) zeros),
    )

-- Whatever `EncodeFrame` produces for a frame of supported addresses, an accepted control byte and
-- byte-valued information, `DecodeFrame` under the same limits turns back into that frame.
pub decode_frame-encode_frame :
    (alloc : Allocator) (frame : HdlcFrameBuffer) (limits : HdlcCodecLimits) (w : Bytes)
    → IsFrame frame
    → encode_frame alloc (view frame) limits ≡ done w
    → decode_frame alloc (bytes w) limits ≡ done frame
decode_frame-encode_frame alloc frame limits w v e =
    let (fits, a) = encode_frame-Fits alloc frame limits w e in
    cc (encode_frame-wire alloc frame limits fits a, decode_frame-wire alloc frame limits v fits a)
