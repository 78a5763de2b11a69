-- ===== src/Apdu/Get.antt =====
-- lib/dlms-apdu/src/apdu/get.cpp: the GET service.
pub mod Wire
pub mod Laws
use dlms.Prelude.{
  ℕ, zero, suc, ◌+◌, ◌-◌, ◌*◌, ◌/◌, ◌%◌, ◌^◌, ◌≤◌, ◌<◌, min, ◌≡◌, refl, sym, ap, ◌∙◌, ◌≢◌, ◌↔◌, ◌⊎◌,
  inl, inr, Bool, true, false, ◌&&◌, ◌||◌, not, Option, none, some, List, [], ◌∷◌, ◌++◌, map,
  append_assoc, append-nil, arith, ltb, leb, ◌==◌, if◌then◌else◌, ltb→lt, lt→ltb, le→ltb,
  ltb-false→le, ==→eq, Bool-cases, Option-cases, length, get_or, take, drop, replicate, All, concat,
  length-append, length-take, length-drop, length-replicate, take-append-drop, take-append_le,
  drop-append_le, get_or-append_lt, take-append_length, drop-append_length, drop-drop,
  take-append_ge, get_or-append_length, All-append, eq-nil, take-length, Result, done, fail,
  Result-cases, IsDone, Bytes, IsByte, is_null_data, contents, Span, null, bytes, Allocator,
  high_byte, low_byte, join_bytes, overwrite, size, Written, tests,
}
use dlms.Apdu.Types.{
  ApduError, Parser, Encoder, refused, need_more_data, invalid_argument, invalid_tag,
  invalid_choice, internal_error, unsupported_xdlms_service,
}
use dlms.Apdu.Reader.{
  ◌>>=◌, pure, refuse, remaining, read_u8, read_u32, read_bytes, require_no_trailing_bytes,
  decode_with,
}
use dlms.Apdu.Writer.{◌>>◌, write_u8, write_u32, refuse_write}
use dlms.Apdu.Axdr.{
  read_axdr_boolean, write_axdr_boolean, read_axdr_octet_string, write_axdr_octet_string,
}
use dlms.Apdu.Items.{read_list, write_list}
use dlms.Apdu.Descriptor.{
  CosemAttributeDescriptor, decode_cosem_attribute_descriptor, encode_cosem_attribute_descriptor,
}
use dlms.Apdu.Data.{DlmsData, decode_dlms_data_value, decode_dlms_data, encode_dlms_data}
use dlms.Apdu.Services.{
  SelectiveAccessDescriptor, CosemAttributeDescriptorWithSelection, DataBlockG, decode_selection,
  encode_selection, decode_descriptor_with_selection, encode_descriptor_with_selection,
  decode_data_block_g, encode_data_block_g, expect_tag, expect_normal,
}

-- The field that `choice` gives a meaning; `other_result` has a choice outside of the enumeration.
pub data GetDataResult : Type 0 where
  result_data : DlmsData → GetDataResult
  data_access_error : ℕ → GetDataResult
  other_result : ℕ → GetDataResult

pub record GetRequestNormal : Type 0 where
  pub invoke_id_and_priority : ℕ
  pub descriptor : CosemAttributeDescriptor
  pub selective_access : Option SelectiveAccessDescriptor

pub record GetResponseNormal : Type 0 where
  pub invoke_id_and_priority : ℕ
  pub result : GetDataResult

pub data GetRequestBody : Type 0 where
  request_normal : CosemAttributeDescriptorWithSelection → GetRequestBody
  request_next : ℕ → GetRequestBody
  request_with_list : List CosemAttributeDescriptorWithSelection → GetRequestBody
  request_other : ℕ → GetRequestBody

pub record GetRequest : Type 0 where
  pub invoke_id_and_priority : ℕ
  pub body : GetRequestBody

pub data GetResponseBody : Type 0 where
  response_normal : GetDataResult → GetResponseBody
  response_with_data_block : DataBlockG → GetResponseBody
  response_with_list : List GetDataResult → GetResponseBody
  response_other : ℕ → GetResponseBody

pub record GetResponse : Type 0 where
  pub invoke_id_and_priority : ℕ
  pub body : GetResponseBody

-- Behind the choice of a result.
unfoldable pub decode_chosen_result : Allocator → ℕ → ℕ → Parser GetDataResult
decode_chosen_result alloc depth choice =
    if choice == 0
    then (decode_dlms_data_value alloc depth >>= λ d. pure (result_data d))
    else if choice == 1
    then (read_u8 >>= λ e. pure (data_access_error e))
    else refuse invalid_choice

unfoldable pub decode_get_data_result : Allocator → ℕ → Parser GetDataResult
decode_get_data_result alloc depth = do
  result ← read_u8 >>= decode_chosen_result alloc depth
  nothing ← require_no_trailing_bytes
  pure result

unfoldable pub encode_get_data_result : GetDataResult → Encoder
encode_get_data_result (result_data d) = write_u8 0 >> encode_dlms_data d
encode_get_data_result (data_access_error e) = write_u8 1 >> write_u8 e
encode_get_data_result (other_result choice) = write_u8 choice >> refuse_write invalid_choice

-- The nesting limit is 8 here.
unfoldable pub read_get_request_normal : Allocator → Parser GetRequestNormal
read_get_request_normal alloc = do
  invoke_id_and_priority ← read_u8
  descriptor ← decode_cosem_attribute_descriptor
  selective_access ← decode_selection alloc 8
  pure (record {
    invoke_id_and_priority = invoke_id_and_priority;
    descriptor = descriptor;
    selective_access = selective_access;
  })

unfoldable pub decode_get_request_normal : Allocator → Span → Result ApduError GetRequestNormal
decode_get_request_normal alloc = decode_with (
    expect_tag 0xC0 (
      expect_normal (do
        output ← read_get_request_normal alloc
        nothing ← require_no_trailing_bytes
        pure output)))

unfoldable pub encode_get_request_normal : GetRequestNormal → Encoder
encode_get_request_normal input = do
  write_u8 0xC0
  write_u8 0x01
  write_u8 input.invoke_id_and_priority
  encode_cosem_attribute_descriptor input.descriptor
  encode_selection input.selective_access

-- `ReadBytes` of all that remains, and a decoder of it.
unfoldable pub read_all_with : {A : Type 0} → (Span → Result ApduError A) → Parser A
read_all_with decode s =
    (read_bytes (remaining s) >>= λ rest s'. elim (decode rest) [
      | done a ↦ done (a, s')
      | fail e ↦ fail e
    ])
      s

unfoldable pub read_normal_result : Allocator → ℕ → Parser GetDataResult
read_normal_result alloc depth = do
  choice ← read_u8
  if ltb 1 choice
      then refuse invalid_choice
      else if choice == 0
      then (read_all_with (λ rest. decode_dlms_data alloc rest depth) >>= λ d. pure (result_data d))
      else (do e ← read_u8; nothing ← require_no_trailing_bytes; pure (data_access_error e))

unfoldable pub decode_get_response_normal :
    Allocator → Span → ℕ → Result ApduError GetResponseNormal
decode_get_response_normal alloc input depth =
    decode_with
      (expect_tag 0xC4 (
        expect_normal (do
          invoke_id_and_priority ← read_u8
          result ← read_normal_result alloc depth
          pure (record { invoke_id_and_priority = invoke_id_and_priority; result = result }))))
      input

unfoldable pub encode_get_response_normal : GetResponseNormal → Encoder
encode_get_response_normal input = do
  write_u8 0xC4
  write_u8 0x01
  write_u8 input.invoke_id_and_priority
  encode_get_data_result input.result

unfoldable pub read_get_request_body : Allocator → ℕ → ℕ → Parser GetRequestBody
read_get_request_body alloc depth choice =
    if choice == 0x01
    then (decode_descriptor_with_selection alloc depth >>= λ d. pure (request_normal d))
    else if choice == 0x02
    then (read_u32 >>= λ n. pure (request_next n))
    else if choice == 0x03
    then (read_list alloc (decode_descriptor_with_selection alloc depth) >>= λ ds.
        pure (request_with_list ds))
    else refuse unsupported_xdlms_service

unfoldable pub read_get_request : Allocator → ℕ → Parser GetRequest
read_get_request alloc depth = do
  choice ← read_u8
  invoke_id_and_priority ← read_u8
  body ← read_get_request_body alloc depth choice
  pure (record { invoke_id_and_priority = invoke_id_and_priority; body = body })

unfoldable pub decode_get_request : Allocator → Span → ℕ → Result ApduError GetRequest
decode_get_request alloc input depth =
    decode_with
      (expect_tag 0xC0 (do
        output ← read_get_request alloc depth
        nothing ← require_no_trailing_bytes
        pure output))
      input

unfoldable pub request_choice : GetRequestBody → ℕ
request_choice (request_normal d) = 0x01
request_choice (request_next n) = 0x02
request_choice (request_with_list ds) = 0x03
request_choice (request_other choice) = choice

unfoldable pub encode_get_request_body : GetRequestBody → Encoder
encode_get_request_body (request_normal d) = encode_descriptor_with_selection d
encode_get_request_body (request_next n) = write_u32 n
encode_get_request_body (request_with_list ds) = write_list encode_descriptor_with_selection ds
encode_get_request_body (request_other choice) = refuse_write invalid_choice

unfoldable pub encode_get_request : GetRequest → Encoder
encode_get_request input = do
  write_u8 0xC0
  write_u8 (request_choice input.body)
  write_u8 input.invoke_id_and_priority
  encode_get_request_body input.body

-- An item of the list of results, with the two checks around it.
unfoldable pub read_listed_result : Allocator → ℕ → Parser GetDataResult
read_listed_result alloc depth s =
    if remaining s == 0
    then fail (refused need_more_data)
    else elim ((read_u8 >>= decode_chosen_result alloc depth) s) [
      | fail e ↦ fail e
      | done (result, s') ↦
          if remaining s' == remaining s then fail (refused internal_error) else done (result, s')
    ]

unfoldable pub read_get_response_body : Allocator → ℕ → ℕ → Parser GetResponseBody
read_get_response_body alloc depth choice =
    if choice == 0x01
    then (read_all_with (λ rest. elim (decode_get_data_result alloc depth rest) [
      | done (result, s) ↦ done result
      | fail e ↦ fail e
    ])
        >>= λ result. pure (response_normal result))
    else if choice == 0x02
    then (decode_data_block_g >>= λ block.
        require_no_trailing_bytes >>= λ _. pure (response_with_data_block block))
    else if choice == 0x03
    then (read_list alloc (read_listed_result alloc depth) >>= λ results.
        require_no_trailing_bytes >>= λ _. pure (response_with_list results))
    else refuse unsupported_xdlms_service

unfoldable pub decode_get_response : Allocator → Span → ℕ → Result ApduError GetResponse
decode_get_response alloc input depth =
    decode_with
      (expect_tag 0xC4 (do
        choice ← read_u8
        invoke_id_and_priority ← read_u8
        body ← read_get_response_body alloc depth choice
        pure (record { invoke_id_and_priority = invoke_id_and_priority; body = body })))
      input

unfoldable pub response_choice : GetResponseBody → ℕ
response_choice (response_normal result) = 0x01
response_choice (response_with_data_block block) = 0x02
response_choice (response_with_list results) = 0x03
response_choice (response_other choice) = choice

unfoldable pub encode_get_response_body : GetResponseBody → Encoder
encode_get_response_body (response_normal result) = encode_get_data_result result
encode_get_response_body (response_with_data_block block) = encode_data_block_g block
encode_get_response_body (response_with_list results) = write_list encode_get_data_result results
encode_get_response_body (response_other choice) = refuse_write invalid_choice

unfoldable pub encode_get_response : GetResponse → Encoder
encode_get_response input = do
  write_u8 0xC4
  write_u8 (response_choice input.body)
  write_u8 input.invoke_id_and_priority
  encode_get_response_body input.body
