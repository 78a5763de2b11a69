-- ===== src/Apdu/Ber.antt =====
-- lib/dlms-apdu/src/apdu/ber.cpp: lengths and tag-length-values of BER.
pub mod RoundTrip
pub mod Laws
pub mod Fuel
use dlms.Prelude.{
  ℕ, zero, suc, ◌+◌, ◌-◌, ◌*◌, ◌/◌, ◌%◌, ◌^◌, ◌≤◌, ◌<◌, min, ◌≡◌, refl, sym, ap, ◌∙◌, ◌≢◌, ◌↔◌, ◌⊎◌,
  inl, inr, Bool, true, false, ◌&&◌, ◌||◌, not, Option, none, some, List, [], ◌∷◌, ◌++◌, map,
  append_assoc, append-nil, arith, ltb, leb, ◌==◌, if◌then◌else◌, ltb→lt, lt→ltb, le→ltb,
  ltb-false→le, ==→eq, Bool-cases, Option-cases, length, get_or, take, drop, replicate, All, concat,
  length-append, length-take, length-drop, length-replicate, take-append-drop, take-append_le,
  drop-append_le, get_or-append_lt, take-append_length, drop-append_length, drop-drop,
  take-append_ge, get_or-append_length, All-append, eq-nil, take-length, Result, done, fail,
  Result-cases, IsDone, Bytes, IsByte, is_null_data, contents, Span, null, bytes, Allocator,
  high_byte, low_byte, join_bytes, overwrite, size, Written, tests,
}
use dlms.Apdu.Types.{
  ApduError, Parser, Encoder, refused, unsupported_feature, invalid_length, invalid_argument,
  invalid_ber, internal_error,
}
use dlms.Apdu.Reader.{◌>>=◌, pure, refuse, read_u8, read_bytes, is_empty}
use dlms.Apdu.Writer.{with_remaining, refuse_write, ◌>>◌, write_u8, write_bytes}
use dlms.Apdu.Octets.{octet_count, octets_of}

pub record BerTlv : Type 0 where
  pub tag : ℕ
  pub value : Span
  pub value_size : ℕ
  pub header_size : ℕ

unfoldable pub ber_length_encoded_size : ℕ → ℕ
ber_length_encoded_size length = if ltb length 128 then 1 else 1 + octet_count 8 length

unfoldable pub ber_tag_is_constructed : ℕ → Bool
ber_tag_is_constructed tag = not (tag / 32 % 2 == 0)

-- The loop of `ReadBerLength`; the test is `result > std::numeric_limits<std::size_t>::max() >> 8`.
unfoldable pub read_length_octets : ℕ → ℕ → Parser ℕ
read_length_octets zero result = pure result
read_length_octets (suc n) result = read_u8 >>= λ byte.
    if ltb 0xff_ffff_ffff_ffff result
    then refuse invalid_length
    else read_length_octets n (result * 256 % 0x1_0000_0000_0000_0000 + byte)

-- Behind the first octet of a length.
unfoldable pub read_ber_length_octets : ℕ → Parser ℕ
read_ber_length_octets first =
    if first / 128 % 2 == 0
    then pure first
    else if first % 128 == 0
    then refuse unsupported_feature
    else if ltb 8 (first % 128)
    then refuse invalid_length
    else do
      result ← read_length_octets (first % 128) 0
      if ltb result 128 then refuse invalid_length else pure result

unfoldable pub read_ber_length : Parser ℕ
read_ber_length = read_u8 >>= read_ber_length_octets

unfoldable pub write_ber_length : ℕ → Encoder
write_ber_length length = with_remaining (ber_length_encoded_size length) (
    if ltb length 128
    then write_u8 length
    else (do write_u8 (0x80 + octet_count 8 length); write_bytes (bytes (octets_of 8 length []))))

-- Behind the tag, of a TLV that began where `start` bytes remained.
unfoldable pub read_ber_value : ℕ → ℕ → Parser BerTlv
read_ber_value start tag = if tag % 32 == 31 then refuse unsupported_feature else do
  length ← read_ber_length
  value ← read_bytes length
  λ s. done (
    record { tag = tag; value = value; value_size = length; header_size = start - size s - length },
    s,
  )

unfoldable pub read_ber_tlv : Parser BerTlv
read_ber_tlv s = (read_u8 >>= read_ber_value (size s)) s

unfoldable pub write_ber_tlv : ℕ → Span → Encoder
write_ber_tlv tag value =
    if tag % 32 == 31
    then refuse_write unsupported_feature
    else if is_null_data value
    then refuse_write invalid_argument
    else with_remaining (1 + ber_length_encoded_size (size value) + size value)
        do write_u8 tag; write_ber_length (size value); write_bytes value

unfoldable pub if_done :
    Result ApduError (Unit {0}) → Result ApduError (Unit {0}) → Result ApduError (Unit {0})
if_done (fail e) next = fail e
if_done (done _) next = next

-- The loop of `ValidateBerReader`; `child` is what becomes of the value of a constructed tag.
-- Each turn takes two bytes at least.
unfoldable pub validate_ber_reader :
    (Span → Result ApduError (Unit {0})) → ℕ → Span → Result ApduError (Unit {0})
validate_ber_reader child zero s = if is_empty s then done tt else fail (refused internal_error)
validate_ber_reader child (suc fuel) s = if is_empty s then done tt else elim (read_ber_tlv s) [
  | fail e ↦ fail e
  | done (tlv, s') ↦
      if_done (if ber_tag_is_constructed tlv.tag then child tlv.value else done tt)
        (validate_ber_reader child fuel s')
]

-- The second argument is `maximumDepth`.
unfoldable pub validate_ber_tlv : Span → ℕ → Result ApduError (Unit {0})
validate_ber_tlv input zero =
    if is_null_data input
    then fail (refused invalid_argument)
    else validate_ber_reader (λ value. fail (refused invalid_ber)) (size input) input
validate_ber_tlv input (suc depth) =
    if is_null_data input
    then fail (refused invalid_argument)
    else validate_ber_reader (λ value. validate_ber_tlv value depth) (size input) input
