-- ===== src/Hdlc/Codec/Decode.antt =====
-- hdlc_codec.cpp: decoding.
use dlms.Prelude.{
  ℕ, ◌+◌, ◌-◌, ◌/◌, ◌%◌, Bool, ◌&&◌, not, [], ltb, leb, ◌==◌, if◌then◌else◌, length, get_or, take,
  drop, replicate, Result, done, fail, ◌>>=◌, Bytes, is_null_data, contents, Span, null, bytes,
  Allocator, join_bytes, overwrite, size,
}
use dlms.Hdlc.Types.{
  HdlcStatus, need_more_data, invalid_argument, invalid_flag, invalid_frame_format,
  invalid_frame_length, invalid_header_checksum, invalid_frame_checksum,
  information_field_too_large, frame_too_large, output_buffer_too_small, internal_error,
  HdlcAddress, HdlcControl, HdlcFrameBuffer, HdlcCodecLimits,
}
use dlms.Hdlc.Address.{from_bytes}
use dlms.Hdlc.Control.{decode_control}
use dlms.Hdlc.Crc.{calculate_hdlc_crc}
use dlms.Hdlc.Codec.Encode.{
  hdlc_flag, maximum_format_field_length, effective_maximum_frame_size,
  effective_maximum_information_field_size,
}

pub record FrameFields : Type 0 where
  pub destination : HdlcAddress
  pub source : HdlcAddress
  pub control : HdlcControl
  pub offset : ℕ

-- From the destination address to the control byte; `offset` is the one behind it.
unfoldable pub decode_fields : Bytes → ℕ → Result HdlcStatus FrameFields
decode_fields input full_frame_size = do
  (destination, consumed) ← from_bytes (bytes (take (full_frame_size - 1 - 3) (drop 3 input)))
  let offset = 3 + consumed
  (source, consumed') ← from_bytes (bytes (take (full_frame_size - 1 - offset) (drop offset input)))
  let offset' = offset + consumed'
  if leb (full_frame_size - 3) offset' then fail invalid_frame_length else do
    control ← decode_control (get_or input offset' 0)
    done (record {
      destination = destination;
      source = source;
      control = control;
      offset = offset' + 1;
    })

-- The check sequences: the bytes of the Information field behind a good header check sequence.
unfoldable pub decode_information : Bytes → ℕ → ℕ → Result HdlcStatus Bytes
decode_information input full_frame_size offset =
    let header_size = offset - 1 in
    let bytes_before_fcs = full_frame_size - 3 - offset in
    let has_information = not (bytes_before_fcs == 0) in
    let expected_hcs = join_bytes (get_or input (offset + 1) 0) (get_or input offset 0) in
    let expected_fcs =
      join_bytes (get_or input (full_frame_size - 3 + 1) 0)
        (get_or input (full_frame_size - 3) 0) in
    if bytes_before_fcs == 1
    then fail invalid_frame_length
    else if has_information
        && not (calculate_hdlc_crc (bytes (take header_size (drop 1 input))) == expected_hcs)
    then fail invalid_header_checksum
    else if not
        (calculate_hdlc_crc (bytes (take (full_frame_size - 2 - 2) (drop 1 input))) == expected_fcs)
    then fail invalid_frame_checksum
    else done (
        if has_information
        then take (full_frame_size - 3 - (offset + 2)) (drop (offset + 2) input)
        else [])

-- From the first address on. The result has the information that is copied to the buffer, and the
-- buffer behind it.
unfoldable pub decode_body :
    Bytes → ℕ → Bool → HdlcCodecLimits → Span → Result HdlcStatus (HdlcFrameBuffer × Bytes)
decode_body input full_frame_size segmented limits buffer = do
  fields ← decode_fields input full_frame_size
  information ← decode_information input full_frame_size fields.offset
  if ltb (size buffer) (length information)
      then fail output_buffer_too_small
      else if ltb (effective_maximum_information_field_size fields.destination fields.source limits)
          (length information)
      then fail information_field_too_large
      else done (
        record {
          segmented = segmented;
          destination = fields.destination;
          source = fields.source;
          control = fields.control;
          information = information;
        },
        overwrite 0 information (contents buffer),
      )

-- The two bytes of the format field behind the opening flag.
abbrev pub frame_format_at : Bytes → ℕ
frame_format_at input = join_bytes (get_or input 1 0) (get_or input 2 0)

unfoldable pub decode_frame_from_buffer :
    Span → HdlcCodecLimits → Span → Result HdlcStatus (HdlcFrameBuffer × Bytes)
unfolding effective_maximum_frame_size
decode_frame_from_buffer (null n) limits buffer = fail invalid_argument
decode_frame_from_buffer (bytes input) limits buffer =
    let frame_format = frame_format_at input in
    let segmented = not (frame_format / 2048 % 2 == 0) in
    let format_field_length = frame_format % 2048 in
    let full_frame_size = format_field_length + 2 in
    if is_null_data buffer
    then fail invalid_argument
    else if ltb (length input) 4
    then fail need_more_data
    else if not (get_or input 0 0 == hdlc_flag)
    then fail invalid_flag
    else if not (frame_format / 4096 == 10)
    then fail invalid_frame_format
    else if ltb format_field_length 6
    then fail invalid_frame_length
    else if ltb maximum_format_field_length format_field_length
    then fail invalid_frame_length
    else if ltb (effective_maximum_frame_size limits) full_frame_size
    then fail frame_too_large
    else if ltb (length input) full_frame_size
    then fail need_more_data
    else if not (length input == full_frame_size)
    then fail invalid_frame_length
    else if not (get_or input (full_frame_size - 1) 0 == hdlc_flag)
    then fail invalid_flag
    else decode_body input full_frame_size segmented limits buffer

-- `fail s`: the status is `s` and the information was cleared.
unfoldable pub decode_frame : Allocator → Span → HdlcCodecLimits → Result HdlcStatus HdlcFrameBuffer
unfolding effective_maximum_frame_size
decode_frame alloc input limits =
    let maximum_frame_size = effective_maximum_frame_size limits in
    if not (alloc maximum_frame_size) then fail internal_error else do
      (decoded, buffer) ←
          decode_frame_from_buffer input limits (bytes (replicate maximum_frame_size 0))
      done (record decoded { information = take (length decoded.information) buffer })
