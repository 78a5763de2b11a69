-- ===== src/Apdu/Action/Laws.antt =====
-- action.cpp: requests and responses through their encoders and decoders.
use dlms.Apdu.Action.Wire.{
  IsInvocation, invocation_bytes, item_bytes, IsItem, invocation-Writes, item-Writes,
  invocation-Reads, item-Reads,
}
use dlms.Prelude.{
  ℕ, ◌≤◌, ◌<◌, ◌≡◌, refl, ◌∙◌, true, [], ◌∷◌, ◌++◌, le→ltb, length, drop, done, Bytes, bytes,
  Allocator,
}
use dlms.Apdu.Writer.{new_writer}
use dlms.Apdu.Wire.{
  at_end, Reads, Writes, Reads->>=, Writes->>, Reads-made, read_u8->>=, write_u8->>, u32_bytes,
  read_u32-Reads, write_u32-Writes, require_no_trailing_bytes-Ends, decode_with-Ends,
}
use dlms.Apdu.Items.{list_bytes, IsList, write_list-Writes, read_list-Reads}
use dlms.Apdu.Descriptor.{
  IsMethod, method_bytes, encode_cosem_method_descriptor-Writes,
  decode_cosem_method_descriptor-Reads,
}
use dlms.Apdu.Services.Wire.{
  IsBlock, block_bytes, encode_data_block_g-Writes, decode_data_block_g-Reads,
}
use dlms.Apdu.Get.Laws.{expect_tag-Ends}
use dlms.Apdu.Action.{
  ActionRequest, ActionRequestBody, ActionResponse, ActionResponseBody, action_normal,
  action_next_pblock, action_with_list, action_with_first_pblock, action_with_list_and_first_pblock,
  action_with_pblock, action_other, action_result, action_result_pblock, action_result_list,
  action_result_next, action_result_other, read_action_request_body, read_action_request,
  decode_action_request, action_request_choice, encode_action_request_body, encode_action_request,
  read_action_response_body, read_action_response, decode_action_response, action_response_choice,
  encode_action_response_body, encode_action_response,
}

-- One of the six requests, its numbers in range and its data nested no deeper than the limit.
abbrev pub IsActionRequest : ℕ → ActionRequestBody → Type 0
IsActionRequest m (action_normal d) = IsInvocation m d
IsActionRequest m (action_next_pblock n) = n < 4294967296
IsActionRequest m (action_with_list ds) = IsList (IsInvocation m) ds
IsActionRequest m (action_with_first_pblock d b) = IsMethod d × IsBlock b
IsActionRequest m (action_with_list_and_first_pblock ds b) = IsList IsMethod ds × IsBlock b
IsActionRequest m (action_with_pblock b) = IsBlock b
IsActionRequest m (action_other choice) = ⊥

abbrev action_request_body_bytes : ActionRequestBody → Bytes
action_request_body_bytes (action_normal d) = invocation_bytes d
action_request_body_bytes (action_next_pblock n) = u32_bytes n
action_request_body_bytes (action_with_list ds) = list_bytes invocation_bytes ds
action_request_body_bytes (action_with_first_pblock d b) = method_bytes d ++ block_bytes b
action_request_body_bytes (action_with_list_and_first_pblock ds b) =
    list_bytes method_bytes ds ++ block_bytes b
action_request_body_bytes (action_with_pblock b) = block_bytes b
action_request_body_bytes (action_other choice) = []

abbrev pub action_request_bytes : ActionRequest → Bytes
action_request_bytes r =
    0xC3
    ∷ action_request_choice r.body
    ∷ r.invoke_id_and_priority
    ∷ action_request_body_bytes r.body

-- One of the four responses, its numbers in range and its data nested no deeper than the limit.
abbrev pub IsActionResponse : ℕ → ActionResponseBody → Type 0
IsActionResponse m (action_result i) = IsItem m i
IsActionResponse m (action_result_pblock b) = IsBlock b
IsActionResponse m (action_result_list is) = IsList (IsItem m) is
IsActionResponse m (action_result_next n) = n < 4294967296
IsActionResponse m (action_result_other choice) = ⊥

abbrev action_response_body_bytes : ActionResponseBody → Bytes
action_response_body_bytes (action_result i) = item_bytes i
action_response_body_bytes (action_result_pblock b) = block_bytes b
action_response_body_bytes (action_result_list is) = list_bytes item_bytes is
action_response_body_bytes (action_result_next n) = u32_bytes n
action_response_body_bytes (action_result_other choice) = []

abbrev pub action_response_bytes : ActionResponse → Bytes
action_response_bytes r =
    0xC7
    ∷ action_response_choice r.body
    ∷ r.invoke_id_and_priority
    ∷ action_response_body_bytes r.body

request_body-Writes :
    (m : ℕ) (b : ActionRequestBody)
    → IsActionRequest m b
    → Writes (encode_action_request_body b) (action_request_body_bytes b)
unfolding encode_action_request_body
request_body-Writes m (action_normal d) h = invocation-Writes m d h
request_body-Writes m (action_next_pblock n) h = write_u32-Writes n
request_body-Writes m (action_with_list ds) h =
    write_list-Writes (IsInvocation m) _ invocation_bytes (invocation-Writes m) ds h.1
request_body-Writes m (action_with_first_pblock d b) h =
    Writes->> _ _ (encode_cosem_method_descriptor-Writes d) (encode_data_block_g-Writes b h.1)
request_body-Writes m (action_with_list_and_first_pblock ds b) h =
    Writes->> _ _
      (write_list-Writes IsMethod _ method_bytes (λ d hd. encode_cosem_method_descriptor-Writes d)
        ds h.0.1)
      (encode_data_block_g-Writes b h.1)
request_body-Writes m (action_with_pblock b) h = encode_data_block_g-Writes b h
request_body-Writes m (action_other choice) h = absurd h

response_body-Writes :
    (m : ℕ) (b : ActionResponseBody)
    → IsActionResponse m b
    → Writes (encode_action_response_body b) (action_response_body_bytes b)
unfolding encode_action_response_body
response_body-Writes m (action_result i) h = item-Writes m i h
response_body-Writes m (action_result_pblock b) h = encode_data_block_g-Writes b h
response_body-Writes m (action_result_list is) h =
    write_list-Writes (IsItem m) _ item_bytes (item-Writes m) is h.1
response_body-Writes m (action_result_next n) h = write_u32-Writes n
response_body-Writes m (action_result_other choice) h = absurd h

encode_action_request-Writes :
    (m : ℕ) (r : ActionRequest)
    → IsActionRequest m r.body
    → Writes (encode_action_request r) (action_request_bytes r)
unfolding encode_action_request
encode_action_request-Writes m r h =
    write_u8->> _ _ (write_u8->> _ _ (write_u8->> _ _ (request_body-Writes m r.body h)))

encode_action_response-Writes :
    (m : ℕ) (r : ActionResponse)
    → IsActionResponse m r.body
    → Writes (encode_action_response r) (action_response_bytes r)
unfolding encode_action_response
encode_action_response-Writes m r h =
    write_u8->> _ _ (write_u8->> _ _ (write_u8->> _ _ (response_body-Writes m r.body h)))

module _ (alloc : Allocator) (all : (n : ℕ) → alloc n ≡ true) (m : ℕ) where
  request_body-Reads :
      (b : ActionRequestBody)
      → IsActionRequest m b
      → Reads
          (read_action_request_body alloc m (action_request_choice b))
          (action_request_body_bytes b)
          b
  unfolding read_action_request_body action_request_choice
  request_body-Reads (action_normal d) h =
      Reads-made action_normal (invocation_bytes d) d ((invocation-Reads alloc all m) d h)
  request_body-Reads (action_next_pblock n) h =
      Reads-made action_next_pblock (u32_bytes n) n (read_u32-Reads n h)
  request_body-Reads (action_with_list ds) h =
      Reads-made action_with_list (list_bytes invocation_bytes ds) ds (
        read_list-Reads (IsInvocation m) alloc _ invocation_bytes all (invocation-Reads alloc all m)
          ds h)
  request_body-Reads (action_with_first_pblock d b) h =
      Reads->>= _ (method_bytes d) (block_bytes b) d _ (decode_cosem_method_descriptor-Reads d h.0)
        (Reads-made (action_with_first_pblock d) (block_bytes b) b
          (decode_data_block_g-Reads b h.1))
  request_body-Reads (action_with_list_and_first_pblock ds b) h =
      Reads->>= _ (list_bytes method_bytes ds) (block_bytes b) ds _
        (read_list-Reads IsMethod alloc _ method_bytes all decode_cosem_method_descriptor-Reads ds
          h.0)
        (Reads-made (action_with_list_and_first_pblock ds) (block_bytes b) b
          (decode_data_block_g-Reads b h.1))
  request_body-Reads (action_with_pblock b) h =
      Reads-made action_with_pblock (block_bytes b) b (decode_data_block_g-Reads b h)
  request_body-Reads (action_other choice) h = absurd h

  response_body-Reads :
      (b : ActionResponseBody)
      → IsActionResponse m b
      → Reads
          (read_action_response_body alloc m (action_response_choice b))
          (action_response_body_bytes b)
          b
  unfolding read_action_response_body action_response_choice
  response_body-Reads (action_result i) h =
      Reads-made action_result (item_bytes i) i ((item-Reads alloc all m) i h)
  response_body-Reads (action_result_pblock b) h =
      Reads-made action_result_pblock (block_bytes b) b (decode_data_block_g-Reads b h)
  response_body-Reads (action_result_list is) h =
      Reads-made action_result_list (list_bytes item_bytes is) is
        (read_list-Reads (IsItem m) alloc _ item_bytes all (item-Reads alloc all m) is h)
  response_body-Reads (action_result_next n) h =
      Reads-made action_result_next (u32_bytes n) n (read_u32-Reads n h)
  response_body-Reads (action_result_other choice) h = absurd h

  request-Reads :
      (r : ActionRequest)
      → IsActionRequest m r.body
      → Reads
          (read_action_request alloc m)
          (action_request_choice r.body
            ∷ r.invoke_id_and_priority
            ∷ action_request_body_bytes r.body)
          r
  unfolding read_action_request
  request-Reads r h =
      read_u8->>= _ (action_request_choice r.body)
        (r.invoke_id_and_priority ∷ action_request_body_bytes r.body) r
        (read_u8->>= _ r.invoke_id_and_priority (action_request_body_bytes r.body) r (
          Reads-made {B = ActionRequest}
            (λ b. record { invoke_id_and_priority = r.invoke_id_and_priority; body = b })
            (action_request_body_bytes r.body) r.body (request_body-Reads r.body h)))

  response-Reads :
      (r : ActionResponse)
      → IsActionResponse m r.body
      → Reads
          (read_action_response alloc m)
          (action_response_choice r.body
            ∷ r.invoke_id_and_priority
            ∷ action_response_body_bytes r.body)
          r
  unfolding read_action_response
  response-Reads r h =
      read_u8->>= _ (action_response_choice r.body)
        (r.invoke_id_and_priority ∷ action_response_body_bytes r.body) r
        (read_u8->>= _ r.invoke_id_and_priority (action_response_body_bytes r.body) r (
          Reads-made {B = ActionResponse}
            (λ b. record { invoke_id_and_priority = r.invoke_id_and_priority; body = b })
            (action_response_body_bytes r.body) r.body (response_body-Reads r.body h)))

  decode_action_request-done :
      (r : ActionRequest)
      → IsActionRequest m r.body
      → decode_action_request alloc (bytes (action_request_bytes r)) m ≡ done r
  unfolding decode_action_request
  decode_action_request-done r h = decode_with-Ends _ (action_request_bytes r) r (
      expect_tag-Ends 0xC3 _ _ r refl
        (require_no_trailing_bytes-Ends (λ x. x) _ r (request-Reads r h)))

  decode_action_response-done :
      (r : ActionResponse)
      → IsActionResponse m r.body
      → decode_action_response alloc (bytes (action_response_bytes r)) m ≡ done r
  unfolding decode_action_response
  decode_action_response-done r h = decode_with-Ends _ (action_response_bytes r) r (
      expect_tag-Ends 0xC7 _ _ r refl
        (require_no_trailing_bytes-Ends (λ x. x) _ r (response-Reads r h)))

-- An ACTION request of one of the six kinds, its numbers in range and its data nested no deeper
-- than the limit, is encoded into any buffer with room for it, and where no `reserve` is refused
-- `DecodeActionRequest` gives that request back from the bytes.
pub decode_action_request-encode_action_request :
    (alloc : Allocator) (m : ℕ) (r : ActionRequest) (xs : Bytes)
    → ((n : ℕ) → alloc n ≡ true)
    → IsActionRequest m r.body
    → length (action_request_bytes r) ≤ length xs
    → (encode_action_request r (new_writer (bytes xs))
        ≡ done (at_end (action_request_bytes r) (drop (length (action_request_bytes r)) xs)))
      × (decode_action_request alloc (bytes (action_request_bytes r)) m ≡ done r)
decode_action_request-encode_action_request alloc m r xs all h room = (
  (encode_action_request-Writes m r h).law [] xs
      ∙ rw (le→ltb (length xs) (length (action_request_bytes r)) room) refl,
  decode_action_request-done alloc all m r h,
)

-- An ACTION response of one of the four kinds, its numbers in range and its data nested no deeper
-- than the limit, is encoded into any buffer with room for it, and where no `reserve` is refused
-- `DecodeActionResponse` gives that response back from the bytes.
pub decode_action_response-encode_action_response :
    (alloc : Allocator) (m : ℕ) (r : ActionResponse) (xs : Bytes)
    → ((n : ℕ) → alloc n ≡ true)
    → IsActionResponse m r.body
    → length (action_response_bytes r) ≤ length xs
    → (encode_action_response r (new_writer (bytes xs))
        ≡ done (at_end (action_response_bytes r) (drop (length (action_response_bytes r)) xs)))
      × (decode_action_response alloc (bytes (action_response_bytes r)) m ≡ done r)
decode_action_response-encode_action_response alloc m r xs all h room = (
  (encode_action_response-Writes m r h).law [] xs
      ∙ rw (le→ltb (length xs) (length (action_response_bytes r)) room) refl,
  decode_action_response-done alloc all m r h,
)
