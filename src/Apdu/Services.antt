-- ===== src/Apdu/Services.antt =====
-- lib/dlms-apdu/src/apdu: what get.cpp, set.cpp and action.cpp share, each with a copy of its own.
pub mod Wire
use dlms.Prelude.{
  ℕ, zero, suc, ◌+◌, ◌-◌, ◌*◌, ◌/◌, ◌%◌, ◌^◌, ◌≤◌, ◌<◌, min, ◌≡◌, refl, sym, ap, ◌∙◌, ◌≢◌, ◌↔◌, ◌⊎◌,
  inl, inr, Bool, true, false, ◌&&◌, ◌||◌, not, Option, none, some, List, [], ◌∷◌, ◌++◌, map,
  append_assoc, append-nil, arith, ltb, leb, ◌==◌, if◌then◌else◌, ltb→lt, lt→ltb, le→ltb,
  ltb-false→le, ==→eq, Bool-cases, Option-cases, length, get_or, take, drop, replicate, All, concat,
  length-append, length-take, length-drop, length-replicate, take-append-drop, take-append_le,
  drop-append_le, get_or-append_lt, take-append_length, drop-append_length, drop-drop,
  take-append_ge, get_or-append_length, All-append, eq-nil, take-length, Result, done, fail,
  Result-cases, IsDone, Bytes, IsByte, is_null_data, contents, Span, null, bytes, Allocator,
  high_byte, low_byte, join_bytes, overwrite, size, Written, tests,
}
use dlms.Apdu.Types.{
  ApduError, Parser, Encoder, refused, need_more_data, invalid_argument, invalid_tag,
  invalid_choice, internal_error, unsupported_xdlms_service,
}
use dlms.Apdu.Reader.{
  ◌>>=◌, pure, refuse, remaining, read_u8, read_u32, read_bytes, require_no_trailing_bytes,
  decode_with,
}
use dlms.Apdu.Writer.{◌>>◌, write_u8, write_u32, refuse_write}
use dlms.Apdu.Axdr.{
  read_axdr_boolean, write_axdr_boolean, read_axdr_octet_string, write_axdr_octet_string,
}
use dlms.Apdu.Items.{read_list, write_list}
use dlms.Apdu.Descriptor.{
  CosemAttributeDescriptor, decode_cosem_attribute_descriptor, encode_cosem_attribute_descriptor,
}
use dlms.Apdu.Data.{DlmsData, decode_dlms_data_value, decode_dlms_data, encode_dlms_data}

pub record SelectiveAccessDescriptor : Type 0 where
  pub selector : ℕ
  pub parameters : DlmsData

-- `selection` is `some` where `hasSelection` is true.
pub record CosemAttributeDescriptorWithSelection : Type 0 where
  pub descriptor : CosemAttributeDescriptor
  pub selection : Option SelectiveAccessDescriptor

pub record DataBlockG : Type 0 where
  pub last_block : Bool
  pub block_number : ℕ
  pub raw_data : Span

unfoldable pub decode_selection : Allocator → ℕ → Parser (Option SelectiveAccessDescriptor)
decode_selection alloc depth = do
  flag ← read_u8
  if ltb 1 flag then refuse invalid_choice else if flag == 0 then pure none else (do
    selector ← read_u8
    parameters ← decode_dlms_data_value alloc depth
    pure (some (record { selector = selector; parameters = parameters })))

unfoldable pub encode_selection : Option SelectiveAccessDescriptor → Encoder
encode_selection none = write_u8 0x00
encode_selection (some input) =
    write_u8 0x01 >> (write_u8 input.selector >> encode_dlms_data input.parameters)

unfoldable pub decode_descriptor_with_selection :
    Allocator → ℕ → Parser CosemAttributeDescriptorWithSelection
decode_descriptor_with_selection alloc depth = do
  descriptor ← decode_cosem_attribute_descriptor
  selection ← decode_selection alloc depth
  pure (record { descriptor = descriptor; selection = selection })

unfoldable pub encode_descriptor_with_selection : CosemAttributeDescriptorWithSelection → Encoder
encode_descriptor_with_selection input = do
  encode_cosem_attribute_descriptor input.descriptor
  encode_selection input.selection

unfoldable pub decode_data_block_g : Parser DataBlockG
decode_data_block_g = do
  last_block ← read_axdr_boolean
  block_number ← read_u32
  raw_data ← read_axdr_octet_string
  pure (record { last_block = last_block; block_number = block_number; raw_data = raw_data })

unfoldable pub encode_data_block_g : DataBlockG → Encoder
encode_data_block_g input = do
  write_axdr_boolean input.last_block
  write_u32 input.block_number
  write_axdr_octet_string input.raw_data

-- A tag that has to be there.
unfoldable pub expect_tag : {A : Type 0} → ℕ → Parser A → Parser A
expect_tag tag p = do value ← read_u8; if value == tag then p else refuse invalid_tag

-- What `DecodeGetRequestNormal` and `DecodeGetResponseNormal` ask of the choice.
unfoldable pub expect_normal : {A : Type 0} → Parser A → Parser A
expect_normal p = do value ← read_u8; if value == 0x01 then p else refuse unsupported_xdlms_service
