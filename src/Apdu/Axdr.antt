-- ===== src/Apdu/Axdr.antt =====
-- lib/dlms-apdu/src/apdu/axdr.cpp: A-XDR lengths, flags, octet strings and the conformance block.
pub mod RoundTrip
use dlms.Prelude.{
  ℕ, zero, suc, ◌+◌, ◌-◌, ◌*◌, ◌/◌, ◌%◌, ◌^◌, ◌≤◌, ◌<◌, min, ◌≡◌, refl, sym, ap, ◌∙◌, ◌≢◌, ◌↔◌, ◌⊎◌,
  inl, inr, Bool, true, false, ◌&&◌, ◌||◌, not, Option, none, some, List, [], ◌∷◌, ◌++◌, map,
  append_assoc, append-nil, arith, ltb, leb, ◌==◌, if◌then◌else◌, ltb→lt, lt→ltb, le→ltb,
  ltb-false→le, ==→eq, Bool-cases, Option-cases, length, get_or, take, drop, replicate, All, concat,
  length-append, length-take, length-drop, length-replicate, take-append-drop, take-append_le,
  drop-append_le, get_or-append_lt, take-append_length, drop-append_length, drop-drop,
  take-append_ge, get_or-append_length, All-append, eq-nil, take-length, Result, done, fail,
  Result-cases, IsDone, Bytes, IsByte, is_null_data, contents, Span, null, bytes, Allocator,
  high_byte, low_byte, join_bytes, overwrite, size, Written, tests,
}
use dlms.Apdu.Types.{
  ApduError, Parser, Encoder, refused, invalid_length, invalid_axdr, invalid_argument,
  invalid_conformance, output_buffer_too_small,
}
use dlms.Apdu.Reader.{◌>>=◌, pure, refuse, read_u8, read_bytes}
use dlms.Apdu.Writer.{with_remaining, refuse_write, ◌>>◌, write_u8, write_bytes}
use dlms.Apdu.Octets.{read_octets, octet_count, octets_of}

unfoldable pub axdr_length_encoded_size : ℕ → ℕ
axdr_length_encoded_size length = if ltb length 0x80 then 1 else 1 + octet_count 8 length

unfoldable pub read_axdr_boolean : Parser Bool
read_axdr_boolean = do raw ← read_u8; pure (not (raw == 0))

unfoldable pub write_axdr_boolean : Bool → Encoder
write_axdr_boolean value = write_u8 (if value then 1 else 0)

unfoldable pub read_axdr_optional_flag : Parser Bool
read_axdr_optional_flag = do
  raw ← read_u8
  if ltb 1 raw then refuse invalid_axdr else pure (not (raw == 0))

unfoldable pub write_axdr_optional_flag : Bool → Encoder
write_axdr_optional_flag present = write_u8 (if present then 1 else 0)

-- Behind the first octet of a length.
unfoldable pub read_axdr_length_octets : ℕ → Parser ℕ
read_axdr_length_octets first =
    if first / 128 % 2 == 0
    then pure first
    else if first % 128 == 0 || ltb 8 (first % 128)
    then refuse invalid_length
    else do
      result ← read_octets (first % 128) 0
      if ltb result 0x80 then refuse invalid_length else pure result

unfoldable pub read_axdr_length : Parser ℕ
unfolding read_axdr_length_octets
read_axdr_length = read_u8 >>= read_axdr_length_octets

-- `0x80u | encodedSize`: the size has four bits at most.
unfoldable pub write_axdr_length : ℕ → Encoder
write_axdr_length length = with_remaining (axdr_length_encoded_size length) (
    if ltb length 0x80
    then write_u8 length
    else (do write_u8 (0x80 + octet_count 8 length); write_bytes (bytes (octets_of 8 length []))))

unfoldable pub read_axdr_octet_string : Parser Span
read_axdr_octet_string = read_axdr_length >>= read_bytes

unfoldable pub write_axdr_octet_string : Span → Encoder
write_axdr_octet_string input =
    if is_null_data input
    then refuse_write invalid_argument
    else with_remaining (axdr_length_encoded_size (size input) + size input)
        do write_axdr_length (size input); write_bytes input

-- Three bytes behind the tag, the length and the number of unused bits.
unfoldable pub read_axdr_conformance : Parser Bytes
read_axdr_conformance = do
  tag0 ← read_u8
  tag1 ← read_u8
  length ← read_u8
  unused_bits ← read_u8
  if not (tag0 == 0x5f) || (not (tag1 == 0x1f) || (not (length == 4) || not (unused_bits == 0)))
      then refuse invalid_conformance
      else (do b0 ← read_u8; b1 ← read_u8; b2 ← read_u8; pure (b0 ∷ b1 ∷ b2 ∷ []))

-- `value` holds the three bytes of `AxdrConformance`.
unfoldable pub write_axdr_conformance : Bytes → Encoder
write_axdr_conformance value =
    with_remaining 7
      do write_u8 0x5f; write_u8 0x1f; write_u8 0x04; write_u8 0x00; write_bytes (bytes value)
