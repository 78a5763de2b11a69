-- ===== src/Apdu/Set/Laws.antt =====
-- set.cpp: requests and responses through their encoders and decoders.
use dlms.Prelude.{
  ℕ, ◌≤◌, ◌≡◌, refl, sym, ◌∙◌, true, List, [], ◌∷◌, ◌++◌, arith, ◌==◌, le→ltb, length, drop, done,
  Bytes, bytes, Allocator,
}
use dlms.Apdu.Writer.{new_writer}
use dlms.Apdu.Wire.{
  at_end, Reads, Writes, Reads->>=, Writes->>, Reads-made, read_u8->>=, write_u8->>,
  require_no_trailing_bytes-Ends, decode_with-Ends,
}
use dlms.Apdu.Axdr.RoundTrip.{axdr_length_bytes, read_axdr_length-Reads}
use dlms.Apdu.Items.{
  list_bytes, IsList, items_bytes, write_list-Writes, read_list-Reads, read_items-Reads,
}
use dlms.Apdu.Data.{DlmsData}
use dlms.Apdu.Data.Valid.{data_bytes}
use dlms.Apdu.Data.RoundTrip.{encode_dlms_data-Writes}
use dlms.Apdu.Data.Laws.{decode_dlms_data-Reads}
use dlms.Apdu.Services.Wire.{
  IsDataTo, IsSelected, selected_bytes, IsBlock, block_bytes,
  encode_descriptor_with_selection-Writes, decode_descriptor_with_selection-Reads,
  encode_data_block_g-Writes, decode_data_block_g-Reads,
}
use dlms.Apdu.Get.Laws.{expect_tag-Ends}
use dlms.Apdu.Set.{
  SetRequest, SetRequestBody, set_normal, set_with_first_data_block, set_with_data_block,
  set_with_list, set_with_list_and_first_data_block, set_other, read_values, read_set_request_body,
  read_set_request, decode_set_request, set_request_choice, encode_set_request_body,
  encode_set_request,
}

-- One of the five requests, its numbers in range, its data nested no deeper than the limit, and as
-- many values as descriptors.
abbrev pub IsSetRequest : ℕ → SetRequestBody → Type 0
IsSetRequest m (set_normal d v) = IsSelected m d × IsDataTo m v
IsSetRequest m (set_with_first_data_block d b) = IsSelected m d × IsBlock b
IsSetRequest m (set_with_data_block b) = IsBlock b
IsSetRequest m (set_with_list ds vs) =
    IsList (IsSelected m) ds × IsList (IsDataTo m) vs × (length ds ≡ length vs)
IsSetRequest m (set_with_list_and_first_data_block ds b) = IsList (IsSelected m) ds × IsBlock b
IsSetRequest m (set_other choice) = ⊥

abbrev pub set_request_body_bytes : SetRequestBody → Bytes
set_request_body_bytes (set_normal d v) = selected_bytes d ++ data_bytes v
set_request_body_bytes (set_with_first_data_block d b) = selected_bytes d ++ block_bytes b
set_request_body_bytes (set_with_data_block b) = block_bytes b
set_request_body_bytes (set_with_list ds vs) =
    list_bytes selected_bytes ds ++ list_bytes data_bytes vs
set_request_body_bytes (set_with_list_and_first_data_block ds b) =
    list_bytes selected_bytes ds ++ block_bytes b
set_request_body_bytes (set_other choice) = []

abbrev pub set_request_bytes : SetRequest → Bytes
set_request_bytes r =
    0xC1 ∷ set_request_choice r.body ∷ r.invoke_id_and_priority ∷ set_request_body_bytes r.body

same_length : (a b : ℕ) → a ≡ b → (a == b) ≡ true
same_length a b e = ground arith

set_request_body-Writes :
    (m : ℕ) (b : SetRequestBody)
    → IsSetRequest m b
    → Writes (encode_set_request_body b) (set_request_body_bytes b)
unfolding encode_set_request_body
set_request_body-Writes m (set_normal d v) h =
    Writes->> _ _ (encode_descriptor_with_selection-Writes m d h.0)
      (encode_dlms_data-Writes v h.1.0)
set_request_body-Writes m (set_with_first_data_block d b) h =
    Writes->> _ _ (encode_descriptor_with_selection-Writes m d h.0)
      (encode_data_block_g-Writes b h.1)
set_request_body-Writes m (set_with_data_block b) h = encode_data_block_g-Writes b h
set_request_body-Writes m (set_with_list ds vs) h = rw (same_length (length ds) (length vs) h.2) (
    Writes->> _ _
      (write_list-Writes (IsSelected m) _ selected_bytes (encode_descriptor_with_selection-Writes m)
        ds h.0.1)
      (write_list-Writes (IsDataTo m) _ data_bytes (λ d hd. encode_dlms_data-Writes d hd.0) vs
        h.1.1))
set_request_body-Writes m (set_with_list_and_first_data_block ds b) h =
    Writes->> _ _
      (write_list-Writes (IsSelected m) _ selected_bytes (encode_descriptor_with_selection-Writes m)
        ds h.0.1)
      (encode_data_block_g-Writes b h.1)
set_request_body-Writes m (set_other choice) h = absurd h

encode_set_request-Writes :
    (m : ℕ) (r : SetRequest)
    → IsSetRequest m r.body
    → Writes (encode_set_request r) (set_request_bytes r)
unfolding encode_set_request
encode_set_request-Writes m r h =
    write_u8->> _ _ (write_u8->> _ _ (write_u8->> _ _ (set_request_body-Writes m r.body h)))

module _ (alloc : Allocator) (all : (n : ℕ) → alloc n ≡ true) (m : ℕ) where
  read_values-Reads :
      (vs : List DlmsData) (count : ℕ)
      → IsList (IsDataTo m) vs
      → count ≡ length vs
      → Reads (read_values alloc m count) (list_bytes data_bytes vs) vs
  unfolding read_values
  read_values-Reads vs count h e =
      Reads->>= _ (axdr_length_bytes (length vs)) (items_bytes data_bytes vs) (length vs) vs
        (read_axdr_length-Reads (length vs) h.0)
        (rw (same_length (length vs) count (sym e), all (length vs))
          (read_items-Reads (IsDataTo m) _ data_bytes
            (λ d hd. decode_dlms_data-Reads alloc all d m hd.0 hd.1) vs h.1))

  set_request_body-Reads :
      (b : SetRequestBody)
      → IsSetRequest m b
      → Reads (read_set_request_body alloc m (set_request_choice b)) (set_request_body_bytes b) b
  unfolding read_set_request_body set_request_choice
  set_request_body-Reads (set_normal d v) h =
      Reads->>= _ (selected_bytes d) (data_bytes v) d _
        (decode_descriptor_with_selection-Reads alloc all m d h.0)
        (Reads-made (set_normal d) (data_bytes v) v
          (decode_dlms_data-Reads alloc all v m h.1.0 h.1.1))
  set_request_body-Reads (set_with_first_data_block d b) h =
      Reads->>= _ (selected_bytes d) (block_bytes b) d _
        (decode_descriptor_with_selection-Reads alloc all m d h.0)
        (Reads-made (set_with_first_data_block d) (block_bytes b) b
          (decode_data_block_g-Reads b h.1))
  set_request_body-Reads (set_with_data_block b) h =
      Reads-made set_with_data_block (block_bytes b) b (decode_data_block_g-Reads b h)
  set_request_body-Reads (set_with_list ds vs) h =
      Reads->>= _ (list_bytes selected_bytes ds) (list_bytes data_bytes vs) ds _
        (read_list-Reads (IsSelected m) alloc _ selected_bytes all
          (decode_descriptor_with_selection-Reads alloc all m) ds h.0)
        (Reads-made (set_with_list ds) (list_bytes data_bytes vs) vs
          (read_values-Reads vs (length ds) h.1 h.2))
  set_request_body-Reads (set_with_list_and_first_data_block ds b) h =
      Reads->>= _ (list_bytes selected_bytes ds) (block_bytes b) ds _
        (read_list-Reads (IsSelected m) alloc _ selected_bytes all
          (decode_descriptor_with_selection-Reads alloc all m) ds h.0)
        (Reads-made (set_with_list_and_first_data_block ds) (block_bytes b) b
          (decode_data_block_g-Reads b h.1))
  set_request_body-Reads (set_other choice) h = absurd h

  set_request-Reads :
      (r : SetRequest)
      → IsSetRequest m r.body
      → Reads
          (read_set_request alloc m)
          (set_request_choice r.body ∷ r.invoke_id_and_priority ∷ set_request_body_bytes r.body)
          r
  unfolding read_set_request
  set_request-Reads r h =
      read_u8->>= _ (set_request_choice r.body)
        (r.invoke_id_and_priority ∷ set_request_body_bytes r.body) r
        (read_u8->>= _ r.invoke_id_and_priority (set_request_body_bytes r.body) r (
          Reads-made {B = SetRequest}
            (λ b. record { invoke_id_and_priority = r.invoke_id_and_priority; body = b })
            (set_request_body_bytes r.body) r.body (set_request_body-Reads r.body h)))

  decode_set_request-done :
      (r : SetRequest)
      → IsSetRequest m r.body
      → decode_set_request alloc (bytes (set_request_bytes r)) m ≡ done r
  unfolding decode_set_request
  decode_set_request-done r h = decode_with-Ends _ (set_request_bytes r) r (
      expect_tag-Ends 0xC1 _ _ r refl
        (require_no_trailing_bytes-Ends (λ x. x) _ r (set_request-Reads r h)))

-- A SET request of one of the five kinds, its numbers in range, its data nested no deeper than the
-- limit and its two lists equally long, is encoded into any buffer with room for it, and where no
-- `reserve` is refused `DecodeSetRequest` gives that request back from the bytes.
pub decode_set_request-encode_set_request :
    (alloc : Allocator) (m : ℕ) (r : SetRequest) (xs : Bytes)
    → ((n : ℕ) → alloc n ≡ true)
    → IsSetRequest m r.body
    → length (set_request_bytes r) ≤ length xs
    → (encode_set_request r (new_writer (bytes xs))
        ≡ done (at_end (set_request_bytes r) (drop (length (set_request_bytes r)) xs)))
      × (decode_set_request alloc (bytes (set_request_bytes r)) m ≡ done r)
decode_set_request-encode_set_request alloc m r xs all h room = (
  (encode_set_request-Writes m r h).law [] xs
      ∙ rw (le→ltb (length xs) (length (set_request_bytes r)) room) refl,
  decode_set_request-done alloc all m r h,
)
