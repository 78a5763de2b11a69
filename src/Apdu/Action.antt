-- ===== src/Apdu/Action.antt =====
-- lib/dlms-apdu/src/apdu/action.cpp: the ACTION service; Services has its helpers for data blocks.
pub mod Wire
pub mod Laws
use dlms.Prelude.{
  ℕ, zero, suc, ◌+◌, ◌-◌, ◌*◌, ◌/◌, ◌%◌, ◌^◌, ◌≤◌, ◌<◌, min, ◌≡◌, refl, sym, ap, ◌∙◌, ◌≢◌, ◌↔◌, ◌⊎◌,
  inl, inr, Bool, true, false, ◌&&◌, ◌||◌, not, Option, none, some, List, [], ◌∷◌, ◌++◌, map,
  append_assoc, append-nil, arith, ltb, leb, ◌==◌, if◌then◌else◌, ltb→lt, lt→ltb, le→ltb,
  ltb-false→le, ==→eq, Bool-cases, Option-cases, length, get_or, take, drop, replicate, All, concat,
  length-append, length-take, length-drop, length-replicate, take-append-drop, take-append_le,
  drop-append_le, get_or-append_lt, take-append_length, drop-append_length, drop-drop,
  take-append_ge, get_or-append_length, All-append, eq-nil, take-length, Result, done, fail,
  Result-cases, IsDone, Bytes, IsByte, is_null_data, contents, Span, null, bytes, Allocator,
  high_byte, low_byte, join_bytes, overwrite, size, Written, tests,
}
use dlms.Apdu.Types.{ApduError, Parser, Encoder, invalid_choice, unsupported_xdlms_service}
use dlms.Apdu.Reader.{
  ◌>>=◌, pure, refuse, read_u8, read_u32, require_no_trailing_bytes, decode_with,
}
use dlms.Apdu.Writer.{◌>>◌, write_u8, write_u32, refuse_write}
use dlms.Apdu.Items.{read_list, write_list}
use dlms.Apdu.Descriptor.{
  CosemMethodDescriptor, decode_cosem_method_descriptor, encode_cosem_method_descriptor,
}
use dlms.Apdu.Data.{DlmsData, decode_dlms_data_value, encode_dlms_data}
use dlms.Apdu.Services.{
  DataBlockG, decode_data_block_g, encode_data_block_g, expect_tag, expect_normal,
}

-- A parameter is `some` where the flag beside it is true.
pub record CosemMethodDescriptorWithParameter : Type 0 where
  pub descriptor : CosemMethodDescriptor
  pub invocation_parameter : Option DlmsData

pub record ActionResponseItem : Type 0 where
  pub result : ℕ
  pub return_parameter : Option DlmsData

pub record ActionRequestNormal : Type 0 where
  pub invoke_id_and_priority : ℕ
  pub normal : CosemMethodDescriptorWithParameter

pub record ActionResponseNormal : Type 0 where
  pub invoke_id_and_priority : ℕ
  pub item : ActionResponseItem

pub data ActionRequestBody : Type 0 where
  action_normal : CosemMethodDescriptorWithParameter → ActionRequestBody
  action_next_pblock : ℕ → ActionRequestBody
  action_with_list : List CosemMethodDescriptorWithParameter → ActionRequestBody
  action_with_first_pblock : CosemMethodDescriptor → DataBlockG → ActionRequestBody
  action_with_list_and_first_pblock : List CosemMethodDescriptor → DataBlockG → ActionRequestBody
  action_with_pblock : DataBlockG → ActionRequestBody
  action_other : ℕ → ActionRequestBody

pub record ActionRequest : Type 0 where
  pub invoke_id_and_priority : ℕ
  pub body : ActionRequestBody

pub data ActionResponseBody : Type 0 where
  action_result : ActionResponseItem → ActionResponseBody
  action_result_pblock : DataBlockG → ActionResponseBody
  action_result_list : List ActionResponseItem → ActionResponseBody
  action_result_next : ℕ → ActionResponseBody
  action_result_other : ℕ → ActionResponseBody

pub record ActionResponse : Type 0 where
  pub invoke_id_and_priority : ℕ
  pub body : ActionResponseBody

unfoldable pub decode_optional_data : Allocator → ℕ → Parser (Option DlmsData)
decode_optional_data alloc depth = do
  flag ← read_u8
  if ltb 1 flag
      then refuse invalid_choice
      else if flag == 0
      then pure none
      else (decode_dlms_data_value alloc depth >>= λ d. pure (some d))

unfoldable pub decode_optional_action_return_parameter : Allocator → ℕ → Parser (Option DlmsData)
decode_optional_action_return_parameter alloc depth = do
  flag ← read_u8
  if ltb 1 flag then refuse invalid_choice else if flag == 0 then pure none else (do
    choice ← read_u8
    if not (choice == 0)
        then refuse unsupported_xdlms_service
        else (decode_dlms_data_value alloc depth >>= λ d. pure (some d)))

unfoldable pub encode_optional_data : Option DlmsData → Encoder
encode_optional_data none = write_u8 0x00
encode_optional_data (some d) = write_u8 0x01 >> encode_dlms_data d

unfoldable pub encode_optional_action_return_parameter : Option DlmsData → Encoder
encode_optional_action_return_parameter none = write_u8 0x00
encode_optional_action_return_parameter (some d) =
    write_u8 0x01 >> (write_u8 0x00 >> encode_dlms_data d)

unfoldable pub decode_method_with_parameter :
    Allocator → ℕ → Parser CosemMethodDescriptorWithParameter
decode_method_with_parameter alloc depth = do
  descriptor ← decode_cosem_method_descriptor
  invocation_parameter ← decode_optional_data alloc depth
  pure (record { descriptor = descriptor; invocation_parameter = invocation_parameter })

unfoldable pub encode_method_with_parameter : CosemMethodDescriptorWithParameter → Encoder
encode_method_with_parameter input = do
  encode_cosem_method_descriptor input.descriptor
  encode_optional_data input.invocation_parameter

unfoldable pub decode_response_item : Allocator → ℕ → Parser ActionResponseItem
decode_response_item alloc depth = do
  result ← read_u8
  return_parameter ← decode_optional_action_return_parameter alloc depth
  pure (record { result = result; return_parameter = return_parameter })

unfoldable pub encode_response_item : ActionResponseItem → Encoder
encode_response_item input = do
  write_u8 input.result
  encode_optional_action_return_parameter input.return_parameter

unfoldable pub decode_action_request_normal :
    Allocator → Span → ℕ → Result ApduError ActionRequestNormal
decode_action_request_normal alloc input depth =
    decode_with
      (expect_tag 0xC3 (
        expect_normal (do
          invoke_id_and_priority ← read_u8
          normal ← decode_method_with_parameter alloc depth
          nothing ← require_no_trailing_bytes
          pure (record { invoke_id_and_priority = invoke_id_and_priority; normal = normal }))))
      input

unfoldable pub encode_action_request_normal : ActionRequestNormal → Encoder
encode_action_request_normal input = do
  write_u8 0xC3
  write_u8 0x01
  write_u8 input.invoke_id_and_priority
  encode_method_with_parameter input.normal

unfoldable pub decode_action_response_normal :
    Allocator → Span → ℕ → Result ApduError ActionResponseNormal
decode_action_response_normal alloc input depth =
    decode_with
      (expect_tag 0xC7 (
        expect_normal (do
          invoke_id_and_priority ← read_u8
          item ← decode_response_item alloc depth
          nothing ← require_no_trailing_bytes
          pure (record { invoke_id_and_priority = invoke_id_and_priority; item = item }))))
      input

unfoldable pub encode_action_response_normal : ActionResponseNormal → Encoder
encode_action_response_normal input = do
  write_u8 0xC7
  write_u8 0x01
  write_u8 input.invoke_id_and_priority
  encode_response_item input.item

unfoldable pub read_action_request_body : Allocator → ℕ → ℕ → Parser ActionRequestBody
read_action_request_body alloc depth choice =
    if choice == 0x01
    then (decode_method_with_parameter alloc depth >>= λ d. pure (action_normal d))
    else if choice == 0x02
    then (read_u32 >>= λ n. pure (action_next_pblock n))
    else if choice == 0x03
    then (read_list alloc (decode_method_with_parameter alloc depth) >>= λ ds.
        pure (action_with_list ds))
    else if choice == 0x04
    then (decode_cosem_method_descriptor >>= λ d.
        decode_data_block_g >>= λ b. pure (action_with_first_pblock d b))
    else if choice == 0x05
    then (read_list alloc decode_cosem_method_descriptor >>= λ ds.
        decode_data_block_g >>= λ b. pure (action_with_list_and_first_pblock ds b))
    else if choice == 0x06
    then (decode_data_block_g >>= λ b. pure (action_with_pblock b))
    else refuse unsupported_xdlms_service

unfoldable pub read_action_request : Allocator → ℕ → Parser ActionRequest
read_action_request alloc depth = do
  choice ← read_u8
  invoke_id_and_priority ← read_u8
  body ← read_action_request_body alloc depth choice
  pure (record { invoke_id_and_priority = invoke_id_and_priority; body = body })

unfoldable pub decode_action_request : Allocator → Span → ℕ → Result ApduError ActionRequest
decode_action_request alloc input depth =
    decode_with
      (expect_tag 0xC3 (do
        output ← read_action_request alloc depth
        nothing ← require_no_trailing_bytes
        pure output))
      input

unfoldable pub action_request_choice : ActionRequestBody → ℕ
action_request_choice (action_normal d) = 0x01
action_request_choice (action_next_pblock n) = 0x02
action_request_choice (action_with_list ds) = 0x03
action_request_choice (action_with_first_pblock d b) = 0x04
action_request_choice (action_with_list_and_first_pblock ds b) = 0x05
action_request_choice (action_with_pblock b) = 0x06
action_request_choice (action_other choice) = choice

unfoldable pub encode_action_request_body : ActionRequestBody → Encoder
encode_action_request_body (action_normal d) = encode_method_with_parameter d
encode_action_request_body (action_next_pblock n) = write_u32 n
encode_action_request_body (action_with_list ds) = write_list encode_method_with_parameter ds
encode_action_request_body (action_with_first_pblock d b) =
    encode_cosem_method_descriptor d >> encode_data_block_g b
encode_action_request_body (action_with_list_and_first_pblock ds b) =
    write_list encode_cosem_method_descriptor ds >> encode_data_block_g b
encode_action_request_body (action_with_pblock b) = encode_data_block_g b
encode_action_request_body (action_other choice) = refuse_write invalid_choice

unfoldable pub encode_action_request : ActionRequest → Encoder
encode_action_request input = do
  write_u8 0xC3
  write_u8 (action_request_choice input.body)
  write_u8 input.invoke_id_and_priority
  encode_action_request_body input.body

unfoldable pub read_action_response_body : Allocator → ℕ → ℕ → Parser ActionResponseBody
read_action_response_body alloc depth choice =
    if choice == 0x01
    then (decode_response_item alloc depth >>= λ i. pure (action_result i))
    else if choice == 0x02
    then (decode_data_block_g >>= λ b. pure (action_result_pblock b))
    else if choice == 0x03
    then (read_list alloc (decode_response_item alloc depth) >>= λ is. pure (action_result_list is))
    else if choice == 0x04
    then (read_u32 >>= λ n. pure (action_result_next n))
    else refuse unsupported_xdlms_service

unfoldable pub read_action_response : Allocator → ℕ → Parser ActionResponse
read_action_response alloc depth = do
  choice ← read_u8
  invoke_id_and_priority ← read_u8
  body ← read_action_response_body alloc depth choice
  pure (record { invoke_id_and_priority = invoke_id_and_priority; body = body })

unfoldable pub decode_action_response : Allocator → Span → ℕ → Result ApduError ActionResponse
decode_action_response alloc input depth =
    decode_with
      (expect_tag 0xC7 (do
        output ← read_action_response alloc depth
        nothing ← require_no_trailing_bytes
        pure output))
      input

unfoldable pub action_response_choice : ActionResponseBody → ℕ
action_response_choice (action_result i) = 0x01
action_response_choice (action_result_pblock b) = 0x02
action_response_choice (action_result_list is) = 0x03
action_response_choice (action_result_next n) = 0x04
action_response_choice (action_result_other choice) = choice

unfoldable pub encode_action_response_body : ActionResponseBody → Encoder
encode_action_response_body (action_result i) = encode_response_item i
encode_action_response_body (action_result_pblock b) = encode_data_block_g b
encode_action_response_body (action_result_list is) = write_list encode_response_item is
encode_action_response_body (action_result_next n) = write_u32 n
encode_action_response_body (action_result_other choice) = refuse_write invalid_choice

unfoldable pub encode_action_response : ActionResponse → Encoder
encode_action_response input = do
  write_u8 0xC7
  write_u8 (action_response_choice input.body)
  write_u8 input.invoke_id_and_priority
  encode_action_response_body input.body
