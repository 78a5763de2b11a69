-- ===== src/Llc/Codec.antt =====
-- lib/dlms-llc/src/llc/llc_codec.cpp: encoding and decoding of one LPDU.
use dlms.Prelude.{
  ℕ, ◌+◌, ◌-◌, Bool, false, ◌||◌, not, [], ◌∷◌, ◌++◌, ltb, leb, ◌==◌, if◌then◌else◌, length, get_or,
  take, drop, replicate, Result, done, fail, ◌>>=◌, Bytes, Span, null, bytes, Allocator, overwrite,
  size, Written, contents, is_null_data,
}
use dlms.Llc.Header.{
  LlcStatus, ok, need_more_data, output_buffer_too_small, invalid_argument, lsdu_too_large,
  internal_error, LlcHeader, client_to_server, server_to_client, llc_header_size, make_llc_header,
  validate_llc_header,
}

-- A view: `lsdu` is the pair of `lsduData` and `lsduSize`.
pub record LlcLpdu : Type 0 where
  pub header : LlcHeader
  pub lsdu : Span

pub record LlcLpduBuffer : Type 0 where
  pub header : LlcHeader
  pub lsdu : Bytes

-- `std::numeric_limits<std::size_t>::max()` of a 64-bit target.
abbrev pub size_max : ℕ
size_max = 0xffff_ffff_ffff_ffff

unfoldable pub has_representable_lpdu_size : ℕ → Bool
has_representable_lpdu_size lsdu_size = leb lsdu_size (size_max - llc_header_size)

unfoldable pub header_bytes : LlcHeader → Bytes
header_bytes header = header.dsap ∷ header.ssap ∷ header.control ∷ []

unfoldable pub encode_lpdu_to_buffer : LlcHeader → Span → Span → Written LlcStatus
unfolding has_representable_lpdu_size header_bytes
encode_lpdu_to_buffer header lsdu (null n) = record {
  status = invalid_argument;
  written_size = 0;
  output = null n;
}
encode_lpdu_to_buffer header lsdu (bytes output) =
    let refused : LlcStatus → Written LlcStatus =
      λ s. record { status = s; written_size = 0; output = bytes output } in
    let required_size = llc_header_size + size lsdu in
    if is_null_data lsdu
    then refused invalid_argument
    else elim (validate_llc_header header false) [
      | ok ↦
          if not (has_representable_lpdu_size (size lsdu))
          then refused lsdu_too_large
          else if ltb (length output) required_size
          then record {
            status = output_buffer_too_small;
            written_size = required_size;
            output = bytes output;
          }
          else record {
            status = ok;
            written_size = required_size;
            output = bytes (overwrite 0 (header_bytes header ++ contents lsdu) output);
          }
      | other ↦ refused other
    ]

-- `fail s`: the status is `s` and `output` was cleared. Of the exceptions of the resize the code
-- catches std::bad_alloc, and the parameter stands for no other.
unfoldable pub encode_lpdu : Allocator → LlcHeader → Span → Result LlcStatus Bytes
unfolding has_representable_lpdu_size
encode_lpdu alloc header lsdu =
    let required_size = llc_header_size + size lsdu in
    if not (has_representable_lpdu_size (size lsdu))
    then fail lsdu_too_large
    else if not (alloc required_size)
    then fail internal_error
    else let written = encode_lpdu_to_buffer header lsdu (bytes (replicate required_size 0)) in
      elim written.status [
        | ok ↦ done (take written.written_size (contents written.output))
        | other ↦ fail other
      ]

-- `fail s`: the status is `s` and `lpdu` is zeroed.
unfoldable pub decode_lpdu_from_buffer : Span → Bool → Result LlcStatus LlcLpdu
decode_lpdu_from_buffer (null n) allow =
    if not (n == 0) then fail invalid_argument else fail need_more_data
decode_lpdu_from_buffer (bytes input) allow =
    let header : LlcHeader = record {
      dsap = get_or input 0 0;
      ssap = get_or input 1 0;
      control = get_or input 2 0;
    } in
    if ltb (length input) llc_header_size
    then fail need_more_data
    else elim (validate_llc_header header allow) [
      | ok ↦ done (record { header = header; lsdu = bytes (drop llc_header_size input) })
      | other ↦ fail other
    ]

-- `fail s`: the status is `s` and `lpdu` is zeroed.
unfoldable pub decode_lpdu : Allocator → Span → Bool → Result LlcStatus LlcLpduBuffer
unfolding decode_lpdu_from_buffer
decode_lpdu alloc input allow = do
  view ← decode_lpdu_from_buffer input allow
  if size view.lsdu == 0 || alloc (size view.lsdu)
      then done (record { header = view.header; lsdu = contents view.lsdu })
      else fail internal_error

unfoldable pub encode_dlms_request : Allocator → Span → Result LlcStatus Bytes
encode_dlms_request alloc apdu = encode_lpdu alloc (make_llc_header client_to_server) apdu

unfoldable pub encode_dlms_response : Allocator → Span → Result LlcStatus Bytes
encode_dlms_response alloc apdu = encode_lpdu alloc (make_llc_header server_to_client) apdu
