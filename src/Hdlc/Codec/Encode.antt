-- ===== src/Hdlc/Codec/Encode.antt =====
-- hdlc_codec.cpp: limits and encoding.
use dlms.Prelude.{
  ℕ, ◌+◌, ◌-◌, ◌%◌, Bool, not, [], ◌∷◌, ◌++◌, ltb, ◌==◌, if◌then◌else◌, length, take, drop,
  replicate, Result, done, fail, ◌>>=◌, Bytes, is_null_data, contents, Span, null, bytes, Allocator,
  high_byte, low_byte, overwrite, size, Written,
}
use dlms.Hdlc.Types.{
  HdlcStatus, ok, invalid_argument, invalid_frame_length, information_field_too_large,
  frame_too_large, output_buffer_too_small, internal_error, HdlcAddress, HdlcFrame, HdlcCodecLimits,
}
use dlms.Hdlc.Address.{encode_address}
use dlms.Hdlc.Control.{encode_control}
use dlms.Hdlc.Crc.{calculate_hdlc_crc}

abbrev pub hdlc_flag : ℕ
hdlc_flag = 0x7e

abbrev pub frame_format_type3 : ℕ
frame_format_type3 = 0xa000

abbrev pub segmentation_bit : ℕ
segmentation_bit = 0x0800

abbrev pub maximum_format_field_length : ℕ
maximum_format_field_length = 2047

unfoldable pub default_hdlc_codec_limits : HdlcCodecLimits
default_hdlc_codec_limits = record {
  maximum_frame_size = 2049;
  maximum_information_field_size = 0;
  maximum_reassembled_information_size = 65535;
}

unfoldable pub effective_maximum_frame_size : HdlcCodecLimits → ℕ
effective_maximum_frame_size limits =
    if limits.maximum_frame_size == 0 then 2049 else limits.maximum_frame_size

-- `2u + frame.destination.EncodedSize() + frame.source.EncodedSize() + 1u`
abbrev pub header_size_of : HdlcAddress → HdlcAddress → ℕ
header_size_of destination source = 2 + destination.encoded_size + source.encoded_size + 1

-- Of the frame the code reads the two addresses only.
unfoldable pub effective_maximum_information_field_size :
    HdlcAddress → HdlcAddress → HdlcCodecLimits → ℕ
unfolding effective_maximum_frame_size
effective_maximum_information_field_size destination source limits =
    let header_size = header_size_of destination source in
    let maximum_frame_size = effective_maximum_frame_size limits in
    if not (limits.maximum_information_field_size == 0)
    then limits.maximum_information_field_size
    else if ltb maximum_frame_size (2 + header_size + 2 + 2)
    then 0
    else maximum_frame_size - 2 - header_size - 2 - 2

-- The length that the format field holds.
unfoldable pub format_field_length_of : HdlcFrame → ℕ
format_field_length_of frame =
    header_size_of frame.destination frame.source
    + (if size frame.information == 0 then 0 else 2)
    + size frame.information
    + 2

-- The fields are disjoint, so that the `|` of the code is a sum.
unfoldable pub frame_format_of : Bool → ℕ → ℕ
frame_format_of segmented format_field_length =
    (frame_format_type3 + (if segmented then segmentation_bit else 0) + format_field_length) % 65536

-- The bytes that `EncodeFrameToBuffer` writes to `output` from its start on, once all sizes fit.
unfoldable pub frame_bytes : HdlcFrame → Bytes → Result HdlcStatus Bytes
unfolding format_field_length_of frame_format_of
frame_bytes frame output = do
  let format_field_length = format_field_length_of frame
  let format = frame_format_of frame.segmented format_field_length
  destination ← encode_address frame.destination (bytes (drop 3 output))
  source ← encode_address frame.source (bytes (drop (3 + length destination) output))
  control ← encode_control frame.control
  let header = high_byte format ∷ low_byte format ∷ (destination ++ (source ++ (control ∷ [])))
  let hcs = calculate_hdlc_crc (bytes (take (header_size_of frame.destination frame.source) header))
  let body =
      header
      ++ (if size frame.information == 0
          then []
          else low_byte hcs ∷ high_byte hcs ∷ contents frame.information)
  let fcs = calculate_hdlc_crc (bytes (take (format_field_length - 2) body))
  done (hdlc_flag ∷ (body ++ (low_byte fcs ∷ high_byte fcs ∷ hdlc_flag ∷ [])))

-- An address that does not fit the output would leave it partly written; the size check before it
-- rules this out.
unfoldable pub encode_frame_to_buffer : HdlcFrame → HdlcCodecLimits → Span → Written HdlcStatus
unfolding format_field_length_of effective_maximum_frame_size
encode_frame_to_buffer frame limits (null n) = record {
  status = invalid_argument;
  written_size = 0;
  output = null n;
}
encode_frame_to_buffer frame limits (bytes output) =
    let refused : HdlcStatus → Written HdlcStatus =
      λ s. record { status = s; written_size = 0; output = bytes output } in
    let format_field_length = format_field_length_of frame in
    let full_frame_size = format_field_length + 2 in
    if is_null_data frame.information
    then refused invalid_argument
    else if ltb (effective_maximum_information_field_size frame.destination frame.source limits)
        (size frame.information)
    then refused information_field_too_large
    else if ltb maximum_format_field_length format_field_length
    then refused invalid_frame_length
    else if ltb (effective_maximum_frame_size limits) full_frame_size
    then refused frame_too_large
    else if ltb (length output) full_frame_size
    then record {
      status = output_buffer_too_small;
      written_size = full_frame_size;
      output = bytes output;
    }
    else elim (frame_bytes frame output) [
      | done written ↦ record {
        status = ok;
        written_size = length written;
        output = bytes (overwrite 0 written output);
      }
      | fail s ↦ refused s
    ]

-- `fail s`: the status is `s` and `output` was cleared. Of the exceptions of the resize the code
-- catches std::bad_alloc, and the parameter stands for no other.
unfoldable pub encode_frame : Allocator → HdlcFrame → HdlcCodecLimits → Result HdlcStatus Bytes
unfolding effective_maximum_frame_size
encode_frame alloc frame limits =
    let maximum_frame_size = effective_maximum_frame_size limits in
    if not (alloc maximum_frame_size)
    then fail internal_error
    else let written =
        encode_frame_to_buffer frame limits (bytes (replicate maximum_frame_size 0)) in
      elim written.status [
        | ok ↦ done (take written.written_size (contents written.output))
        | other ↦ fail other
      ]
