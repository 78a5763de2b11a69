-- ===== src/Wrapper/Codec.antt =====
-- lib/dlms-wrapper/src/wrapper/wrapper_codec.cpp: encoding and decoding of one WPDU.
use dlms.Prelude.{
  ℕ, ◌+◌, ◌-◌, ◌%◌, ◌||◌, not, [], ◌∷◌, ◌++◌, ltb, ◌==◌, if◌then◌else◌, length, get_or, take, drop,
  replicate, Result, done, fail, ◌>>=◌, Bytes, Span, null, bytes, Allocator, high_byte, low_byte,
  join_bytes, overwrite, size, Written, contents, is_null_data,
}
use dlms.Wrapper.Ports.{is_no_station_wrapper_port}
use dlms.Wrapper.Types.{
  WrapperStatus, ok, need_more_data, output_buffer_too_small, invalid_argument, invalid_version,
  invalid_length, invalid_source_port, invalid_destination_port, data_too_large, frame_too_large,
  internal_error, WrapperHeader, WrapperFrame, WrapperFrameBuffer, WrapperCodecLimits,
  wrapper_version, wrapper_header_size, maximum_wrapper_data_length, maximum_wrapper_frame_length,
}

unfoldable pub default_wrapper_codec_limits : WrapperCodecLimits
default_wrapper_codec_limits = record {
  maximum_data_size = maximum_wrapper_data_length;
  maximum_frame_size = maximum_wrapper_frame_length;
}

unfoldable pub write_uint16 : ℕ → Bytes
write_uint16 value = high_byte value ∷ low_byte value ∷ []

-- `ReadUint16(input + at)`. The callers check that both bytes are there.
unfoldable pub read_uint16 : Bytes → ℕ → ℕ
read_uint16 input at = join_bytes (get_or input at 0) (get_or input (at + 1) 0)

-- The four `WriteUint16` at the offsets 0, 2, 4 and 6.
unfoldable pub header_bytes : WrapperHeader → Bytes
unfolding write_uint16
header_bytes header =
    write_uint16 header.version
    ++ (write_uint16 header.source_port
        ++ (write_uint16 header.destination_port ++ write_uint16 header.data_length))

unfoldable pub encode_wrapper_header : WrapperHeader → Span → Written WrapperStatus
unfolding header_bytes
encode_wrapper_header header (null n) = record {
  status = invalid_argument;
  written_size = 0;
  output = null n;
}
encode_wrapper_header header (bytes output) =
    if not (header.version == wrapper_version)
    then record { status = invalid_version; written_size = 0; output = bytes output }
    else if ltb (length output) wrapper_header_size
    then record { status = output_buffer_too_small; written_size = 0; output = bytes output }
    else record {
      status = ok;
      written_size = wrapper_header_size;
      output = bytes (overwrite 0 (header_bytes header) output);
    }

unfoldable pub read_wrapper_header : Bytes → WrapperHeader
unfolding read_uint16
read_wrapper_header input = record {
  version = read_uint16 input 0;
  source_port = read_uint16 input 2;
  destination_port = read_uint16 input 4;
  data_length = read_uint16 input 6;
}

unfoldable pub decode_wrapper_header : Span → Result WrapperStatus WrapperHeader
unfolding read_wrapper_header
decode_wrapper_header (null n) = if not (n == 0) then fail invalid_argument else fail need_more_data
decode_wrapper_header (bytes input) =
    if ltb (length input) wrapper_header_size
    then fail need_more_data
    else if not ((read_wrapper_header input).version == wrapper_version)
    then fail invalid_version
    else done (read_wrapper_header input)

unfoldable pub validate_wrapper_header : WrapperHeader → WrapperCodecLimits → ℕ → WrapperStatus
validate_wrapper_header header limits available_data_size =
    if not (header.version == wrapper_version)
    then invalid_version
    else if ltb limits.maximum_data_size header.data_length
    then data_too_large
    else if ltb limits.maximum_frame_size (wrapper_header_size + header.data_length)
    then frame_too_large
    else if ltb available_data_size header.data_length
    then need_more_data
    else if ltb header.data_length available_data_size
    then invalid_length
    else ok

-- The end of `EncodeWpduToBuffer`: the header, then the copying loop behind it.
unfoldable pub write_wpdu : WrapperFrame → Bytes → Written WrapperStatus
unfolding encode_wrapper_header
write_wpdu frame output =
    let header : WrapperHeader = record {
      version = wrapper_version;
      source_port = frame.source_port;
      destination_port = frame.destination_port;
      data_length = size frame.payload % 65536;
    } in
    let written = encode_wrapper_header header (bytes output) in
    elim written.status [
      | ok ↦ record {
        status = ok;
        written_size = wrapper_header_size + size frame.payload;
        output =
            bytes
              (overwrite wrapper_header_size (contents frame.payload) (contents written.output));
      }
      | other ↦ record { status = other; written_size = 0; output = written.output }
    ]

unfoldable pub encode_wpdu_to_buffer :
    WrapperFrame → WrapperCodecLimits → Span → Written WrapperStatus
unfolding write_wpdu is_no_station_wrapper_port
encode_wpdu_to_buffer frame limits (null n) = record {
  status = invalid_argument;
  written_size = 0;
  output = null n;
}
encode_wpdu_to_buffer frame limits (bytes output) =
    let refused : WrapperStatus → Written WrapperStatus =
      λ s. record { status = s; written_size = 0; output = bytes output } in
    let frame_size = wrapper_header_size + size frame.payload in
    if is_null_data frame.payload
    then refused invalid_argument
    else if is_no_station_wrapper_port frame.source_port
    then refused invalid_source_port
    else if is_no_station_wrapper_port frame.destination_port
    then refused invalid_destination_port
    else if ltb maximum_wrapper_data_length (size frame.payload)
        || ltb limits.maximum_data_size (size frame.payload)
    then refused data_too_large
    else if ltb limits.maximum_frame_size frame_size
    then refused frame_too_large
    else if ltb (length output) frame_size
    then record {
      status = output_buffer_too_small;
      written_size = frame_size;
      output = bytes output;
    }
    else write_wpdu frame output

-- `fail s`: the status is `s` and `output` was cleared.
unfoldable pub encode_wpdu :
    Allocator → WrapperFrame → WrapperCodecLimits → Result WrapperStatus Bytes
unfolding encode_wpdu_to_buffer
encode_wpdu alloc frame limits =
    let frame_size = wrapper_header_size + size frame.payload in
    if ltb maximum_wrapper_data_length (size frame.payload)
      || ltb limits.maximum_data_size (size frame.payload)
    then fail data_too_large
    else if ltb limits.maximum_frame_size frame_size
    then fail frame_too_large
    else if not (alloc frame_size)
    then fail internal_error
    else let written = encode_wpdu_to_buffer frame limits (bytes (replicate frame_size 0)) in
      elim written.status [
        | ok ↦ done (take written.written_size (contents written.output))
        | other ↦ fail other
      ]

-- `fail s`: the status is `s` and `output` has the ports 0 and no data.
unfoldable pub decode_wpdu_view : Span → WrapperCodecLimits → Result WrapperStatus WrapperFrame
unfolding validate_wrapper_header is_no_station_wrapper_port
decode_wpdu_view input limits = do
  header ← decode_wrapper_header input
  let available_data_size = size input - wrapper_header_size
  elim (validate_wrapper_header header limits available_data_size) [
    | ok ↦
        if is_no_station_wrapper_port header.source_port
        then fail invalid_source_port
        else if is_no_station_wrapper_port header.destination_port
        then fail invalid_destination_port
        else done (record {
          source_port = header.source_port;
          destination_port = header.destination_port;
          payload =
              if header.data_length == 0
              then null 0
              else bytes (take header.data_length (drop wrapper_header_size (contents input)));
        })
    | other ↦ fail other
  ]

-- `fail s`: the status is `s` and `output` has the ports 0 and no data.
unfoldable pub decode_wpdu :
    Allocator → Span → WrapperCodecLimits → Result WrapperStatus WrapperFrameBuffer
decode_wpdu alloc input limits = do
  view ← decode_wpdu_view input limits
  if size view.payload == 0 || alloc (size view.payload)
      then done (record {
        source_port = view.source_port;
        destination_port = view.destination_port;
        payload = contents view.payload;
      })
      else fail internal_error
