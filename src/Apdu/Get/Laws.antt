-- ===== src/Apdu/Get/Laws.antt =====
-- get.cpp: requests and responses through their encoders and decoders.
use dlms.Prelude.{
  ℕ, ◌≤◌, ◌<◌, ◌≡◌, refl, ◌∙◌, true, [], ◌∷◌, ◌==◌, if◌then◌else◌, le→ltb, length, drop, Result,
  done, Bytes, Span, bytes, Allocator,
}
use dlms.Apdu.Types.{ApduError, Parser, invalid_tag}
use dlms.Apdu.Reader.{refuse, read_bytes, remaining}
use dlms.Apdu.Writer.{new_writer}
use dlms.Apdu.Wire.{
  at_end, Reads, Writes, Reads-made, read_u8->>=, write_u8->>, u32_bytes, read_u32-Reads,
  write_u32-Writes, Ends, Reads-Ends, read_u8-Ends, Ends-made, require_no_trailing_bytes-Ends,
  decode_with-Ends, >>=-done, read_bytes-Reads,
}
use dlms.Apdu.Items.{list_bytes, IsList, write_list-Writes, read_list-Reads}
use dlms.Apdu.Get.{
  GetRequest, GetRequestBody, GetResponse, GetResponseBody, GetDataResult, request_normal,
  request_next, request_with_list, request_other, response_normal, response_with_data_block,
  response_with_list, response_other, request_choice, response_choice, encode_get_request,
  encode_get_request_body, decode_get_request, read_get_request, read_get_request_body,
  encode_get_response, encode_get_response_body, decode_get_response, read_get_response_body,
  read_all_with, decode_get_data_result,
}
use dlms.Apdu.Services.{expect_tag}
use dlms.Apdu.Get.Wire.{
  IsResult, result_bytes, encode_get_data_result-Writes, decode_result-Reads,
  read_listed_result-Reads,
}
use dlms.Apdu.Services.Wire.{
  IsSelected, selected_bytes, IsBlock, block_bytes, encode_descriptor_with_selection-Writes,
  decode_descriptor_with_selection-Reads, encode_data_block_g-Writes, decode_data_block_g-Reads,
}

-- One of the three requests, its numbers in range and its data nested no deeper than the limit.
abbrev pub IsRequest : ℕ → GetRequestBody → Type 0
IsRequest m (request_normal d) = IsSelected m d
IsRequest m (request_next n) = n < 4294967296
IsRequest m (request_with_list ds) = IsList (IsSelected m) ds
IsRequest m (request_other choice) = ⊥

abbrev pub request_body_bytes : GetRequestBody → Bytes
request_body_bytes (request_normal d) = selected_bytes d
request_body_bytes (request_next n) = u32_bytes n
request_body_bytes (request_with_list ds) = list_bytes selected_bytes ds
request_body_bytes (request_other choice) = []

abbrev pub request_bytes : GetRequest → Bytes
request_bytes r =
    0xC0 ∷ request_choice r.body ∷ r.invoke_id_and_priority ∷ request_body_bytes r.body

request_body-Writes :
    (m : ℕ) (b : GetRequestBody)
    → IsRequest m b
    → Writes (encode_get_request_body b) (request_body_bytes b)
unfolding encode_get_request_body
request_body-Writes m (request_normal d) h = encode_descriptor_with_selection-Writes m d h
request_body-Writes m (request_next n) h = write_u32-Writes n
request_body-Writes m (request_with_list ds) h =
    write_list-Writes (IsSelected m) _ selected_bytes (encode_descriptor_with_selection-Writes m) ds
      h.1
request_body-Writes m (request_other choice) h = absurd h

encode_get_request-Writes :
    (m : ℕ) (r : GetRequest) → IsRequest m r.body → Writes (encode_get_request r) (request_bytes r)
unfolding encode_get_request
encode_get_request-Writes m r h =
    write_u8->> _ _ (write_u8->> _ _ (write_u8->> _ _ (request_body-Writes m r.body h)))

pub expect_tag-Ends :
    {A : Type 0} (tag : ℕ) (p : Parser A) (enc : Bytes) (x : A)
    → (tag == tag) ≡ true
    → Ends p enc x
    → Ends (expect_tag tag p) (tag ∷ enc) x
unfolding expect_tag
expect_tag-Ends tag p enc x same hp =
    read_u8-Ends (λ value. if value == tag then p else refuse invalid_tag) tag enc x (rw same hp)

module _ (alloc : Allocator) (all : (n : ℕ) → alloc n ≡ true) (m : ℕ) where
  request_body-Reads :
      (b : GetRequestBody)
      → IsRequest m b
      → Reads (read_get_request_body alloc m (request_choice b)) (request_body_bytes b) b
  unfolding read_get_request_body request_choice
  request_body-Reads (request_normal d) h =
      Reads-made request_normal (selected_bytes d) d
        (decode_descriptor_with_selection-Reads alloc all m d h)
  request_body-Reads (request_next n) h =
      Reads-made request_next (u32_bytes n) n (read_u32-Reads n h)
  request_body-Reads (request_with_list ds) h =
      Reads-made request_with_list (list_bytes selected_bytes ds) ds (
        read_list-Reads (IsSelected m) alloc _ selected_bytes all
          (decode_descriptor_with_selection-Reads alloc all m) ds h)
  request_body-Reads (request_other choice) h = absurd h

  request-Reads :
      (r : GetRequest)
      → IsRequest m r.body
      → Reads
          (read_get_request alloc m)
          (request_choice r.body ∷ r.invoke_id_and_priority ∷ request_body_bytes r.body)
          r
  unfolding read_get_request
  request-Reads r h =
      read_u8->>= _ (request_choice r.body) (r.invoke_id_and_priority ∷ request_body_bytes r.body) r
        (read_u8->>= _ r.invoke_id_and_priority (request_body_bytes r.body) r (
          Reads-made {B = GetRequest}
            (λ b. record { invoke_id_and_priority = r.invoke_id_and_priority; body = b })
            (request_body_bytes r.body) r.body (request_body-Reads r.body h)))

  decode_get_request-done :
      (r : GetRequest)
      → IsRequest m r.body
      → decode_get_request alloc (bytes (request_bytes r)) m ≡ done r
  unfolding decode_get_request
  decode_get_request-done r h = decode_with-Ends _ (request_bytes r) r (
      expect_tag-Ends 0xC0 _ _ r refl
        (require_no_trailing_bytes-Ends (λ x. x) _ r (request-Reads r h)))

-- A GET request of one of the three kinds, its numbers in range and its data nested no deeper than
-- the limit, is encoded into any buffer with room for it, and where no `reserve` is refused
-- `DecodeGetRequest` gives that request back from the bytes.
pub decode_get_request-encode_get_request :
    (alloc : Allocator) (m : ℕ) (r : GetRequest) (xs : Bytes)
    → ((n : ℕ) → alloc n ≡ true)
    → IsRequest m r.body
    → length (request_bytes r) ≤ length xs
    → (encode_get_request r (new_writer (bytes xs))
        ≡ done (at_end (request_bytes r) (drop (length (request_bytes r)) xs)))
      × (decode_get_request alloc (bytes (request_bytes r)) m ≡ done r)
decode_get_request-encode_get_request alloc m r xs all h room = (
  (encode_get_request-Writes m r h).law [] xs
      ∙ rw (le→ltb (length xs) (length (request_bytes r)) room) refl,
  decode_get_request-done alloc all m r h,
)

-- One of the three responses, its numbers in range and its data nested no deeper than the limit.
abbrev pub IsResponse : ℕ → GetResponseBody → Type 0
IsResponse m (response_normal r) = IsResult m r
IsResponse m (response_with_data_block b) = IsBlock b
IsResponse m (response_with_list rs) = IsList (IsResult m) rs
IsResponse m (response_other choice) = ⊥

abbrev pub response_body_bytes : GetResponseBody → Bytes
response_body_bytes (response_normal r) = result_bytes r
response_body_bytes (response_with_data_block b) = block_bytes b
response_body_bytes (response_with_list rs) = list_bytes result_bytes rs
response_body_bytes (response_other choice) = []

abbrev pub response_bytes : GetResponse → Bytes
response_bytes r =
    0xC4 ∷ response_choice r.body ∷ r.invoke_id_and_priority ∷ response_body_bytes r.body

response_body-Writes :
    (m : ℕ) (b : GetResponseBody)
    → IsResponse m b
    → Writes (encode_get_response_body b) (response_body_bytes b)
unfolding encode_get_response_body
response_body-Writes m (response_normal r) h = encode_get_data_result-Writes m r h
response_body-Writes m (response_with_data_block b) h = encode_data_block_g-Writes b h
response_body-Writes m (response_with_list rs) h =
    write_list-Writes (IsResult m) _ result_bytes (encode_get_data_result-Writes m) rs h.1
response_body-Writes m (response_other choice) h = absurd h

encode_get_response-Writes :
    (m : ℕ) (r : GetResponse)
    → IsResponse m r.body
    → Writes (encode_get_response r) (response_bytes r)
unfolding encode_get_response
encode_get_response-Writes m r h =
    write_u8->> _ _ (write_u8->> _ _ (write_u8->> _ _ (response_body-Writes m r.body h)))

read_all_with-Ends :
    {A : Type 0} (decode : Span → Result ApduError A) (enc : Bytes) (x : A)
    → decode (bytes enc) ≡ done x
    → Ends (read_all_with decode) enc x
unfolding read_all_with remaining
read_all_with-Ends decode enc x e = record {
  law =
      >>=-done (read_bytes (length enc)) _ _ _ _
        (Reads-Ends enc (bytes enc) (read_bytes-Reads (length enc) enc refl)).law
      ∙ rw e refl;
}

module _ (alloc : Allocator) (all : (n : ℕ) → alloc n ≡ true) (m : ℕ) where
  whole_result :
      (r : GetDataResult) → IsResult m r → Ends (decode_get_data_result alloc m) (result_bytes r) r
  unfolding decode_get_data_result
  whole_result r h =
      require_no_trailing_bytes-Ends (λ x. x) (result_bytes r) r
        (decode_result-Reads alloc all m r h)

  response_body-Ends :
      (b : GetResponseBody)
      → IsResponse m b
      → Ends (read_get_response_body alloc m (response_choice b)) (response_body_bytes b) b
  unfolding read_get_response_body response_choice
  response_body-Ends (response_normal r) h =
      Ends-made response_normal (result_bytes r) r
        (read_all_with-Ends _ (result_bytes r) r (rw (whole_result r h).law refl))
  response_body-Ends (response_with_data_block b) h =
      require_no_trailing_bytes-Ends response_with_data_block (block_bytes b) b
        (decode_data_block_g-Reads b h)
  response_body-Ends (response_with_list rs) h =
      require_no_trailing_bytes-Ends response_with_list (list_bytes result_bytes rs) rs (
        read_list-Reads (IsResult m) alloc _ result_bytes all (read_listed_result-Reads alloc all m)
          rs h)
  response_body-Ends (response_other choice) h = absurd h

  decode_get_response-done :
      (r : GetResponse)
      → IsResponse m r.body
      → decode_get_response alloc (bytes (response_bytes r)) m ≡ done r
  unfolding decode_get_response
  decode_get_response-done r h = decode_with-Ends _ (response_bytes r) r (
      expect_tag-Ends 0xC4 _ _ r refl (
        read_u8-Ends _ (response_choice r.body)
          (r.invoke_id_and_priority ∷ response_body_bytes r.body) r
          (read_u8-Ends _ r.invoke_id_and_priority (response_body_bytes r.body) r (
            Ends-made {B = GetResponse}
              (λ b. record { invoke_id_and_priority = r.invoke_id_and_priority; body = b })
              (response_body_bytes r.body) r.body (response_body-Ends r.body h)))))

-- A GET response with one result, a data block or a list of results, its numbers in range and its
-- data nested no deeper than the limit, is encoded into any buffer with room for it, and where no
-- `reserve` is refused `DecodeGetResponse` gives that response back from the bytes.
pub decode_get_response-encode_get_response :
    (alloc : Allocator) (m : ℕ) (r : GetResponse) (xs : Bytes)
    → ((n : ℕ) → alloc n ≡ true)
    → IsResponse m r.body
    → length (response_bytes r) ≤ length xs
    → (encode_get_response r (new_writer (bytes xs))
        ≡ done (at_end (response_bytes r) (drop (length (response_bytes r)) xs)))
      × (decode_get_response alloc (bytes (response_bytes r)) m ≡ done r)
decode_get_response-encode_get_response alloc m r xs all h room = (
  (encode_get_response-Writes m r h).law [] xs
      ∙ rw (le→ltb (length xs) (length (response_bytes r)) room) refl,
  decode_get_response-done alloc all m r h,
)
