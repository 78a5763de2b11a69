-- ===== src/Apdu/Set.antt =====
-- lib/dlms-apdu/src/apdu/set.cpp: the SET service; Services has its helpers for selections,
-- descriptors and data blocks.
pub mod Laws
use dlms.Prelude.{
  ℕ, zero, suc, ◌+◌, ◌-◌, ◌*◌, ◌/◌, ◌%◌, ◌^◌, ◌≤◌, ◌<◌, min, ◌≡◌, refl, sym, ap, ◌∙◌, ◌≢◌, ◌↔◌, ◌⊎◌,
  inl, inr, Bool, true, false, ◌&&◌, ◌||◌, not, Option, none, some, List, [], ◌∷◌, ◌++◌, map,
  append_assoc, append-nil, arith, ltb, leb, ◌==◌, if◌then◌else◌, ltb→lt, lt→ltb, le→ltb,
  ltb-false→le, ==→eq, Bool-cases, Option-cases, length, get_or, take, drop, replicate, All, concat,
  length-append, length-take, length-drop, length-replicate, take-append-drop, take-append_le,
  drop-append_le, get_or-append_lt, take-append_length, drop-append_length, drop-drop,
  take-append_ge, get_or-append_length, All-append, eq-nil, take-length, Result, done, fail,
  Result-cases, IsDone, Bytes, IsByte, is_null_data, contents, Span, null, bytes, Allocator,
  high_byte, low_byte, join_bytes, overwrite, size, Written, tests,
}
use dlms.Apdu.Types.{
  ApduError, Parser, Encoder, thrown, invalid_choice, invalid_length, unsupported_xdlms_service,
}
use dlms.Apdu.Reader.{
  ◌>>=◌, pure, refuse, read_u8, read_u32, require_no_trailing_bytes, decode_with,
}
use dlms.Apdu.Writer.{◌>>◌, write_u8, write_u32, refuse_write}
use dlms.Apdu.Axdr.{read_axdr_length}
use dlms.Apdu.Items.{read_items, read_list, write_list}
use dlms.Apdu.Descriptor.{
  CosemAttributeDescriptor, decode_cosem_attribute_descriptor, encode_cosem_attribute_descriptor,
}
use dlms.Apdu.Data.{DlmsData, decode_dlms_data_value, encode_dlms_data}
use dlms.Apdu.Services.{
  SelectiveAccessDescriptor, CosemAttributeDescriptorWithSelection, DataBlockG, decode_selection,
  encode_selection, decode_descriptor_with_selection, encode_descriptor_with_selection,
  decode_data_block_g, encode_data_block_g, expect_tag, expect_normal,
}

pub record SetRequestNormal : Type 0 where
  pub invoke_id_and_priority : ℕ
  pub descriptor : CosemAttributeDescriptor
  pub selective_access : Option SelectiveAccessDescriptor
  pub data_value : DlmsData

pub record SetResponseNormal : Type 0 where
  pub invoke_id_and_priority : ℕ
  pub result : ℕ

-- `DataBlockSA` has the fields of `DataBlockG`.
pub data SetRequestBody : Type 0 where
  set_normal : CosemAttributeDescriptorWithSelection → DlmsData → SetRequestBody
  set_with_first_data_block : CosemAttributeDescriptorWithSelection → DataBlockG → SetRequestBody
  set_with_data_block : DataBlockG → SetRequestBody
  set_with_list : List CosemAttributeDescriptorWithSelection → List DlmsData → SetRequestBody
  set_with_list_and_first_data_block :
      List CosemAttributeDescriptorWithSelection → DataBlockG → SetRequestBody
  set_other : ℕ → SetRequestBody

pub record SetRequest : Type 0 where
  pub invoke_id_and_priority : ℕ
  pub body : SetRequestBody

pub data SetResponseBody : Type 0 where
  set_result : ℕ → SetResponseBody
  set_data_block : ℕ → SetResponseBody
  set_last_data_block : ℕ → ℕ → SetResponseBody
  set_last_data_block_with_list : List ℕ → ℕ → SetResponseBody
  set_result_list : List ℕ → SetResponseBody
  set_other_response : ℕ → SetResponseBody

pub record SetResponse : Type 0 where
  pub invoke_id_and_priority : ℕ
  pub body : SetResponseBody

unfoldable pub decode_set_request_normal : Allocator → Span → ℕ → Result ApduError SetRequestNormal
decode_set_request_normal alloc input depth =
    decode_with
      (expect_tag 0xC1 (
        expect_normal (do
          invoke_id_and_priority ← read_u8
          descriptor ← decode_cosem_attribute_descriptor
          selective_access ← decode_selection alloc depth
          data_value ← decode_dlms_data_value alloc depth
          nothing ← require_no_trailing_bytes
          pure (record {
            invoke_id_and_priority = invoke_id_and_priority;
            descriptor = descriptor;
            selective_access = selective_access;
            data_value = data_value;
          }))))
      input

unfoldable pub encode_set_request_normal : SetRequestNormal → Encoder
encode_set_request_normal input = do
  write_u8 0xC1
  write_u8 0x01
  write_u8 input.invoke_id_and_priority
  encode_cosem_attribute_descriptor input.descriptor
  encode_selection input.selective_access
  encode_dlms_data input.data_value

unfoldable pub decode_set_response_normal : Span → Result ApduError SetResponseNormal
decode_set_response_normal = decode_with (
    expect_tag 0xC5 (
      expect_normal (do
        invoke_id_and_priority ← read_u8
        result ← read_u8
        nothing ← require_no_trailing_bytes
        pure (record { invoke_id_and_priority = invoke_id_and_priority; result = result }))))

unfoldable pub encode_set_response_normal : SetResponseNormal → Encoder
encode_set_response_normal input = do
  write_u8 0xC5
  write_u8 0x01
  write_u8 input.invoke_id_and_priority
  write_u8 input.result

-- The list of the values, which has to be as long as that of the descriptors.
unfoldable pub read_values : Allocator → ℕ → ℕ → Parser (List DlmsData)
read_values alloc depth count = read_axdr_length >>= λ value_count.
    if not (value_count == count)
    then refuse invalid_length
    else if alloc value_count
    then read_items (decode_dlms_data_value alloc depth) value_count
    else (λ s. fail thrown)

unfoldable pub read_set_request_body : Allocator → ℕ → ℕ → Parser SetRequestBody
read_set_request_body alloc depth choice =
    if choice == 0x01
    then (do
      descriptor ← decode_descriptor_with_selection alloc depth
      value ← decode_dlms_data_value alloc depth
      pure (set_normal descriptor value))
    else if choice == 0x02
    then (do
      descriptor ← decode_descriptor_with_selection alloc depth
      block ← decode_data_block_g
      pure (set_with_first_data_block descriptor block))
    else if choice == 0x03
    then (decode_data_block_g >>= λ block. pure (set_with_data_block block))
    else if choice == 0x04
    then (do
      descriptors ← read_list alloc (decode_descriptor_with_selection alloc depth)
      values ← read_values alloc depth (length descriptors)
      pure (set_with_list descriptors values))
    else if choice == 0x05
    then (do
      descriptors ← read_list alloc (decode_descriptor_with_selection alloc depth)
      block ← decode_data_block_g
      pure (set_with_list_and_first_data_block descriptors block))
    else refuse unsupported_xdlms_service

unfoldable pub read_set_request : Allocator → ℕ → Parser SetRequest
read_set_request alloc depth = do
  choice ← read_u8
  invoke_id_and_priority ← read_u8
  body ← read_set_request_body alloc depth choice
  pure (record { invoke_id_and_priority = invoke_id_and_priority; body = body })

unfoldable pub decode_set_request : Allocator → Span → ℕ → Result ApduError SetRequest
decode_set_request alloc input depth =
    decode_with
      (expect_tag 0xC1 (do
        output ← read_set_request alloc depth
        nothing ← require_no_trailing_bytes
        pure output))
      input

unfoldable pub set_request_choice : SetRequestBody → ℕ
set_request_choice (set_normal d v) = 0x01
set_request_choice (set_with_first_data_block d b) = 0x02
set_request_choice (set_with_data_block b) = 0x03
set_request_choice (set_with_list ds vs) = 0x04
set_request_choice (set_with_list_and_first_data_block ds b) = 0x05
set_request_choice (set_other choice) = choice

unfoldable pub encode_set_request_body : SetRequestBody → Encoder
encode_set_request_body (set_normal d v) = encode_descriptor_with_selection d >> encode_dlms_data v
encode_set_request_body (set_with_first_data_block d b) =
    encode_descriptor_with_selection d >> encode_data_block_g b
encode_set_request_body (set_with_data_block b) = encode_data_block_g b
encode_set_request_body (set_with_list ds vs) =
    if not (length ds == length vs)
    then refuse_write invalid_length
    else write_list encode_descriptor_with_selection ds >> write_list encode_dlms_data vs
encode_set_request_body (set_with_list_and_first_data_block ds b) =
    write_list encode_descriptor_with_selection ds >> encode_data_block_g b
encode_set_request_body (set_other choice) = refuse_write invalid_choice

unfoldable pub encode_set_request : SetRequest → Encoder
encode_set_request input = do
  write_u8 0xC1
  write_u8 (set_request_choice input.body)
  write_u8 input.invoke_id_and_priority
  encode_set_request_body input.body

unfoldable pub read_set_response_body : Allocator → ℕ → Parser SetResponseBody
read_set_response_body alloc choice =
    if choice == 0x01
    then (read_u8 >>= λ result. pure (set_result result))
    else if choice == 0x02
    then (read_u32 >>= λ n. pure (set_data_block n))
    else if choice == 0x03
    then (read_u8 >>= λ result. read_u32 >>= λ n. pure (set_last_data_block result n))
    else if choice == 0x04
    then (read_list alloc read_u8 >>= λ results.
        read_u32 >>= λ n. pure (set_last_data_block_with_list results n))
    else if choice == 0x05
    then (read_list alloc read_u8 >>= λ results. pure (set_result_list results))
    else refuse unsupported_xdlms_service

unfoldable pub decode_set_response : Allocator → Span → Result ApduError SetResponse
decode_set_response alloc = decode_with (
    expect_tag 0xC5 (do
      choice ← read_u8
      invoke_id_and_priority ← read_u8
      body ← read_set_response_body alloc choice
      nothing ← require_no_trailing_bytes
      pure (record { invoke_id_and_priority = invoke_id_and_priority; body = body })))

unfoldable pub set_response_choice : SetResponseBody → ℕ
set_response_choice (set_result r) = 0x01
set_response_choice (set_data_block n) = 0x02
set_response_choice (set_last_data_block r n) = 0x03
set_response_choice (set_last_data_block_with_list rs n) = 0x04
set_response_choice (set_result_list rs) = 0x05
set_response_choice (set_other_response choice) = choice

unfoldable pub encode_set_response_body : SetResponseBody → Encoder
encode_set_response_body (set_result r) = write_u8 r
encode_set_response_body (set_data_block n) = write_u32 n
encode_set_response_body (set_last_data_block r n) = write_u8 r >> write_u32 n
encode_set_response_body (set_last_data_block_with_list rs n) =
    write_list write_u8 rs >> write_u32 n
encode_set_response_body (set_result_list rs) = write_list write_u8 rs
encode_set_response_body (set_other_response choice) = refuse_write invalid_choice

unfoldable pub encode_set_response : SetResponse → Encoder
encode_set_response input = do
  write_u8 0xC5
  write_u8 (set_response_choice input.body)
  write_u8 input.invoke_id_and_priority
  encode_set_response_body input.body
