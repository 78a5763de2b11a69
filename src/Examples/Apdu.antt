-- ===== src/Examples/Apdu.antt =====
-- Runs of the APDU codecs (lib/dlms-apdu).
use dlms.Prelude.{
  ℕ, ◌<◌, ◌≡◌, refl, inr, true, false, some, [], ◌∷◌, ◌++◌, arith, leb, if◌then◌else◌, length, drop,
  replicate, done, fail, Bytes, bytes, Allocator,
}
use dlms.Apdu.Types.{thrown, refused, invalid_ber, invalid_data}
use dlms.Apdu.Writer.{new_writer}
use dlms.Apdu.Wire.{at_end}
use dlms.Apdu.Octets.{be_octets, octet_count, shift_octets}
use dlms.Apdu.Items.{items_bytes}
use dlms.Apdu.Axdr.RoundTrip.{axdr_length_bytes}
use dlms.Apdu.Descriptor.{CosemAttributeDescriptor, CosemMethodDescriptor}
use dlms.Apdu.Data.{
  DlmsData, element_count, structure, array, integer, octet_string, unsigned, no_elements, element,
  encode_dlms_data, decode_dlms_data,
}
use dlms.Apdu.Data.Valid.{IsData, IsOctets, depth, data_bytes}
use dlms.Apdu.Data.Depth.{decode_dlms_data-depth}
use dlms.Apdu.Data.Laws.{decode_dlms_data-encode_dlms_data, decode_dlms_data-reserve}
use dlms.Apdu.Ber.{validate_ber_tlv, ber_tag_is_constructed}
use dlms.Apdu.Ber.Laws.{
  BerForest, no_values, primitive, constructed, forest_bytes, forest_depth, IsForest,
  validate_ber_tlv-forest_bytes,
}
use dlms.Apdu.Get.{
  GetRequest, GetResponse, request_normal, request_choice, response_with_list, response_choice,
  result_data, data_access_error, encode_get_request, decode_get_request, encode_get_response,
  decode_get_response,
}
use dlms.Apdu.Services.{CosemAttributeDescriptorWithSelection, DataBlockG}
use dlms.Apdu.Services.Wire.{IsDataTo}
use dlms.Apdu.Get.Laws.{
  request_bytes, response_bytes, decode_get_request-encode_get_request,
  decode_get_response-encode_get_response,
}
use dlms.Apdu.Set.{
  SetRequest, set_with_list, set_request_choice, encode_set_request, decode_set_request,
}
use dlms.Apdu.Set.Laws.{set_request_bytes, decode_set_request-encode_set_request}
use dlms.Apdu.Action.{
  ActionRequest, action_with_first_pblock, action_request_choice, encode_action_request,
  decode_action_request,
}
use dlms.Apdu.Action.Laws.{action_request_bytes, decode_action_request-encode_action_request}

abbrev granted : Allocator
granted n = true

-- A heap of a thousand elements.
abbrev small_heap : Allocator
small_heap n = leb n 1000

abbrev blank : Bytes
blank = replicate 64 0

-- The number -5, two bytes and an empty array.
abbrev reading : DlmsData
reading = structure (
    element (integer 0xFFFF_FFFF_FFFF_FFFB)
      (element (octet_string (bytes (1 ∷ 2 ∷ []))) (element (array no_elements) no_elements)))

reading-IsData : IsData reading
unfolding IsData IsOctets element_count
reading-IsData =
    (omega arith, (inr (omega arith, omega arith), (omega arith, ((omega arith, tt), tt))))

decode_dlms_data-encode_dlms_data_example :
    (encode_dlms_data reading (new_writer (bytes blank))
      ≡ done (at_end (data_bytes reading) (drop (length (data_bytes reading)) blank)))
    × (decode_dlms_data granted (bytes (data_bytes reading)) 2 ≡ done reading)
decode_dlms_data-encode_dlms_data_example =
    decode_dlms_data-encode_dlms_data granted reading 2 blank (λ n. refl) reading-IsData
      (unfold depth in omega arith)
      (unfold data_bytes be_octets octet_count element_count shift_octets in omega arith)

decode_dlms_data-reserve_example :
    decode_dlms_data small_heap (bytes (0x01 ∷ axdr_length_bytes 1_000_000_000 ++ [])) 8
    ≡ fail thrown
decode_dlms_data-reserve_example =
    decode_dlms_data-reserve small_heap 1_000_000_000 7 [] (omega arith) refl

-- A constructed value around a primitive one of two bytes.
abbrev nested : BerForest
nested = constructed 0x60 (primitive 0x80 (1 ∷ 2 ∷ []) no_values) no_values

nested-IsForest : IsForest nested
unfolding IsForest ber_tag_is_constructed forest_bytes
nested-IsForest = (
  refl,
  (λ e. omega (arith, e)),
  omega arith,
  (refl, (λ e. omega (arith, e)), omega arith, tt),
  tt,
)

validate_ber_tlv-forest_bytes_example :
    validate_ber_tlv (bytes (forest_bytes nested)) 1
    ≡ (if leb (forest_depth nested) 1 then done tt else fail (refused invalid_ber))
validate_ber_tlv-forest_bytes_example = validate_ber_tlv-forest_bytes nested 1 nested-IsForest

abbrev register_value : CosemAttributeDescriptor
register_value = record {
  class_id = 3;
  logical_name = 1 ∷ 0 ∷ 1 ∷ 8 ∷ 0 ∷ 255 ∷ [];
  attribute_id = 2;
}

abbrev selected : CosemAttributeDescriptorWithSelection
selected = record {
  descriptor = register_value;
  selection = some (record { selector = 1; parameters = unsigned 7 });
}

unsigned-IsDataTo : (v : ℕ) → v < 256 → IsDataTo 2 (unsigned v)
unfolding IsData depth
unsigned-IsDataTo v h = (h, omega arith)

abbrev get_request : GetRequest
get_request = record { invoke_id_and_priority = 0xC1; body = request_normal selected }

decode_get_request-encode_get_request_example :
    (encode_get_request get_request (new_writer (bytes blank))
      ≡ done (at_end (request_bytes get_request) (drop (length (request_bytes get_request)) blank)))
    × (decode_get_request granted (bytes (request_bytes get_request)) 2 ≡ done get_request)
decode_get_request-encode_get_request_example =
    decode_get_request-encode_get_request granted 2 get_request blank (λ n. refl)
      ((omega arith, refl), unsigned-IsDataTo 7 (omega arith))
      (unfold data_bytes be_octets shift_octets request_choice in omega arith)

abbrev get_response : GetResponse
get_response = record {
  invoke_id_and_priority = 0xC1;
  body = response_with_list (result_data (unsigned 9) ∷ data_access_error 3 ∷ []);
}

decode_get_response-encode_get_response_example :
    (encode_get_response get_response (new_writer (bytes blank))
      ≡ done (
          at_end (response_bytes get_response) (drop (length (response_bytes get_response)) blank)))
    × (decode_get_response granted (bytes (response_bytes get_response)) 2 ≡ done get_response)
decode_get_response-encode_get_response_example =
    decode_get_response-encode_get_response granted 2 get_response blank (λ n. refl)
      (omega arith, (unsigned-IsDataTo 9 (omega arith), (tt, tt)))
      (unfold data_bytes be_octets shift_octets response_choice items_bytes in omega arith)

abbrev set_request : SetRequest
set_request = record {
  invoke_id_and_priority = 0xC1;
  body = set_with_list (selected ∷ []) (unsigned 1 ∷ []);
}

decode_set_request-encode_set_request_example :
    (encode_set_request set_request (new_writer (bytes blank))
      ≡ done (
          at_end
            (set_request_bytes set_request)
            (drop (length (set_request_bytes set_request)) blank)))
    × (decode_set_request granted (bytes (set_request_bytes set_request)) 2 ≡ done set_request)
decode_set_request-encode_set_request_example =
    decode_set_request-encode_set_request granted 2 set_request blank (λ n. refl)
      (
        (omega arith, (((omega arith, refl), unsigned-IsDataTo 7 (omega arith)), tt)),
        (omega arith, (unsigned-IsDataTo 1 (omega arith), tt)),
        refl,
      )
      (unfold data_bytes be_octets shift_octets set_request_choice items_bytes in omega arith)

abbrev reset_method : CosemMethodDescriptor
reset_method = record { class_id = 3; logical_name = 1 ∷ 0 ∷ 1 ∷ 8 ∷ 0 ∷ 255 ∷ []; method_id = 1 }

abbrev first_block : DataBlockG
first_block = record { last_block = false; block_number = 1; raw_data = bytes (1 ∷ 2 ∷ 3 ∷ []) }

abbrev action_request : ActionRequest
action_request = record {
  invoke_id_and_priority = 0xC1;
  body = action_with_first_pblock reset_method first_block;
}

decode_action_request-encode_action_request_example :
    (encode_action_request action_request (new_writer (bytes blank))
      ≡ done (
          at_end
            (action_request_bytes action_request)
            (drop (length (action_request_bytes action_request)) blank)))
    × (decode_action_request granted (bytes (action_request_bytes action_request)) 2
        ≡ done action_request)
decode_action_request-encode_action_request_example =
    decode_action_request-encode_action_request granted 2 action_request blank (λ n. refl)
      ((omega arith, refl), (omega arith, (refl, omega arith)))
      (unfold action_request_choice in omega arith)

decode_dlms_data-depth_example :
    decode_dlms_data granted (bytes (data_bytes reading)) 1
    ≡ (if leb (depth reading) 1 then done reading else fail (refused invalid_data))
decode_dlms_data-depth_example = decode_dlms_data-depth granted reading 1 (λ n. refl) reading-IsData
