-- ===== src/Apdu/Data.antt =====
-- lib/dlms-apdu/src/apdu/data.cpp: the Data values of xDLMS, a tree of typed fields.
pub mod Octets
pub mod Valid
pub mod RoundTrip
pub mod Laws
pub mod Depth
use dlms.Prelude.{
  ℕ, zero, suc, ◌+◌, ◌-◌, ◌*◌, ◌/◌, ◌%◌, ◌^◌, ◌≤◌, ◌<◌, min, ◌≡◌, refl, sym, ap, ◌∙◌, ◌≢◌, ◌↔◌, ◌⊎◌,
  inl, inr, Bool, true, false, ◌&&◌, ◌||◌, not, Option, none, some, List, [], ◌∷◌, ◌++◌, map,
  append_assoc, append-nil, arith, ltb, leb, ◌==◌, if◌then◌else◌, ltb→lt, lt→ltb, le→ltb,
  ltb-false→le, ==→eq, Bool-cases, Option-cases, length, get_or, take, drop, replicate, All, concat,
  length-append, length-take, length-drop, length-replicate, take-append-drop, take-append_le,
  drop-append_le, get_or-append_lt, take-append_length, drop-append_length, drop-drop,
  take-append_ge, get_or-append_length, All-append, eq-nil, take-length, Result, done, fail,
  Result-cases, IsDone, Bytes, IsByte, is_null_data, contents, Span, null, bytes, Allocator,
  high_byte, low_byte, join_bytes, overwrite, size, Written, tests,
}
use dlms.Apdu.Types.{
  ApduError, Parser, Encoder, refused, thrown, invalid_length, invalid_argument, invalid_data,
  unsupported_data_type,
}
use dlms.Apdu.Reader.{◌>>=◌, pure, refuse, read_u8, read_bytes, require_no_trailing_bytes}
use dlms.Apdu.Writer.{◌>>◌, write_u8, write_bytes, refuse_write}
use dlms.Apdu.Octets.{shift_octets, read_octets}
use dlms.Apdu.Axdr.{
  read_axdr_length, write_axdr_length, read_axdr_boolean, write_axdr_boolean,
  read_axdr_octet_string, write_axdr_octet_string,
}

-- A `DlmsData` with the field that its `type` gives a meaning; a `std::int64_t` is its 64-bit
-- pattern. `other_type` has a type outside of the enumeration, by its number.
mutual
  pub data DlmsData : Type 0 where
    null_data : DlmsData
    array : DlmsElements → DlmsData
    structure : DlmsElements → DlmsData
    boolean : Bool → DlmsData
    double_long : ℕ → DlmsData
    double_long_unsigned : ℕ → DlmsData
    octet_string : Span → DlmsData
    integer : ℕ → DlmsData
    long : ℕ → DlmsData
    unsigned : ℕ → DlmsData
    long_unsigned : ℕ → DlmsData
    long64 : ℕ → DlmsData
    long64_unsigned : ℕ → DlmsData
    enumerated : ℕ → DlmsData
    date_time : Span → DlmsData
    date : Span → DlmsData
    time : Span → DlmsData
    other_type : ℕ → DlmsData

  pub data DlmsElements : Type 0 where
    no_elements : DlmsElements
    element : DlmsData → DlmsElements → DlmsElements

-- `elements.size()`.
unfoldable pub element_count : DlmsElements → ℕ
element_count no_elements = 0
element_count (element d ds) = suc (element_count ds)

-- Of a value of `byte_count` bytes; `~0ULL << 8 * byte_count` sets the bits above them.
unfoldable pub sign_extend : ℕ → ℕ → ℕ
sign_extend value byte_count =
    if value / (256 ^ byte_count / 2) % 2 == 0
    then value
    else value + (0x1_0000_0000_0000_0000 - 256 ^ byte_count)

unfoldable pub read_unsigned : ℕ → Parser ℕ
read_unsigned byte_count = read_octets byte_count 0

unfoldable pub write_unsigned : ℕ → ℕ → Encoder
write_unsigned value zero w = done w
write_unsigned value (suc k) w = (write_u8 (shift_octets k value % 256) >> write_unsigned value k) w

unfoldable pub write_fixed_bytes : Span → ℕ → Encoder
write_fixed_bytes input n =
    if not (size input == n)
    then refuse_write invalid_length
    else if is_null_data input
    then refuse_write invalid_argument
    else write_bytes input

-- The loop over the elements; `read` is `DecodeDlmsDataValue` one level down.
unfoldable pub read_elements : Parser DlmsData → ℕ → Parser DlmsElements
read_elements read zero = pure no_elements
read_elements read (suc n) = read >>= λ d. read_elements read n >>= λ ds. pure (element d ds)

-- `output.elements.reserve(elementCount)` throws where the memory is refused.
unfoldable pub read_element_list : Allocator → Parser DlmsData → Parser DlmsElements
read_element_list alloc read =
    read_axdr_length >>= λ n. if alloc n then read_elements read n else (λ s. fail thrown)

-- The `switch` on the tag in `DecodeDlmsDataValue`.
unfoldable pub read_tagged : Allocator → Parser DlmsData → ℕ → Parser DlmsData
read_tagged alloc read tag =
    if tag == 0x00
    then pure null_data
    else if tag == 0x01
    then (read_element_list alloc read >>= λ ds. pure (array ds))
    else if tag == 0x02
    then (read_element_list alloc read >>= λ ds. pure (structure ds))
    else if tag == 0x03
    then (read_axdr_boolean >>= λ b. pure (boolean b))
    else if tag == 0x05
    then (read_unsigned 4 >>= λ v. pure (double_long (sign_extend v 4)))
    else if tag == 0x06
    then (read_unsigned 4 >>= λ v. pure (double_long_unsigned v))
    else if tag == 0x09
    then (read_axdr_octet_string >>= λ v. pure (octet_string v))
    else if tag == 0x0f
    then (read_unsigned 1 >>= λ v. pure (integer (sign_extend v 1)))
    else if tag == 0x10
    then (read_unsigned 2 >>= λ v. pure (long (sign_extend v 2)))
    else if tag == 0x11
    then (read_unsigned 1 >>= λ v. pure (unsigned v))
    else if tag == 0x12
    then (read_unsigned 2 >>= λ v. pure (long_unsigned v))
    else if tag == 0x14
    then (read_unsigned 8 >>= λ v. pure (long64 v))
    else if tag == 0x15
    then (read_unsigned 8 >>= λ v. pure (long64_unsigned v))
    else if tag == 0x16
    then (read_unsigned 1 >>= λ v. pure (enumerated v))
    else if tag == 0x19
    then (read_bytes 12 >>= λ v. pure (date_time v))
    else if tag == 0x1a
    then (read_bytes 5 >>= λ v. pure (date v))
    else if tag == 0x1b
    then (read_bytes 4 >>= λ v. pure (time v))
    else refuse unsupported_data_type

-- The argument is `maximumDepth`.
unfoldable pub decode_dlms_data_value : Allocator → ℕ → Parser DlmsData
decode_dlms_data_value alloc zero = refuse invalid_data
decode_dlms_data_value alloc (suc depth) =
    read_u8 >>= read_tagged alloc (decode_dlms_data_value alloc depth)

unfoldable pub decode_dlms_data : Allocator → Span → ℕ → Result ApduError DlmsData
decode_dlms_data alloc input maximum_depth =
    if is_null_data input
    then fail (refused invalid_argument)
    else elim ((decode_dlms_data_value alloc maximum_depth >>= λ d.
          require_no_trailing_bytes >>= λ _. pure d)
        input) [ done (d, s) ↦ done d | fail e ↦ fail e ]

unfoldable mutual
  pub encode_dlms_data : DlmsData → Encoder
  encode_dlms_data null_data = write_u8 0x00
  encode_dlms_data (array ds) =
      write_u8 0x01 >> (write_axdr_length (element_count ds) >> encode_elements ds)
  encode_dlms_data (structure ds) =
      write_u8 0x02 >> (write_axdr_length (element_count ds) >> encode_elements ds)
  encode_dlms_data (boolean b) = write_u8 0x03 >> write_axdr_boolean b
  encode_dlms_data (double_long v) = write_u8 0x05 >> write_unsigned (v % 0x1_0000_0000) 4
  encode_dlms_data (double_long_unsigned v) = write_u8 0x06 >> write_unsigned v 4
  encode_dlms_data (octet_string v) = write_u8 0x09 >> write_axdr_octet_string v
  encode_dlms_data (integer v) = write_u8 0x0f >> write_unsigned (v % 0x100) 1
  encode_dlms_data (long v) = write_u8 0x10 >> write_unsigned (v % 0x1_0000) 2
  encode_dlms_data (unsigned v) = write_u8 0x11 >> write_unsigned v 1
  encode_dlms_data (long_unsigned v) = write_u8 0x12 >> write_unsigned v 2
  encode_dlms_data (long64 v) = write_u8 0x14 >> write_unsigned v 8
  encode_dlms_data (long64_unsigned v) = write_u8 0x15 >> write_unsigned v 8
  encode_dlms_data (enumerated v) = write_u8 0x16 >> write_unsigned v 1
  encode_dlms_data (date_time v) = write_u8 0x19 >> write_fixed_bytes v 12
  encode_dlms_data (date v) = write_u8 0x1a >> write_fixed_bytes v 5
  encode_dlms_data (time v) = write_u8 0x1b >> write_fixed_bytes v 4
  encode_dlms_data (other_type tag) = write_u8 tag >> refuse_write unsupported_data_type

  pub encode_elements : DlmsElements → Encoder
  encode_elements no_elements = λ w. done w
  encode_elements (element d ds) = encode_dlms_data d >> encode_elements ds
