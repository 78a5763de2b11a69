-- ===== src/Examples/Llc.antt =====
-- Runs of the LLC codec (lib/dlms-llc).
use dlms.Prelude.{◌≡◌, refl, ◌≢◌, true, false, [], ◌∷◌, arith, done, Bytes, bytes, Allocator}
use dlms.Llc.Header.{
  LlcHeader, make_llc_header, validate_llc_header, is_known_source_lsap, broadcast_encode_forbidden,
}
use dlms.Llc.Codec.{
  has_representable_lpdu_size, header_bytes, encode_lpdu_to_buffer, encode_lpdu,
  decode_lpdu_from_buffer, decode_lpdu, encode_dlms_request, encode_dlms_response,
}
use dlms.Llc.RoundTrip.{
  decode_lpdu-encode_lpdu, encode_lpdu-decode_lpdu, broadcast_is_decode_only,
  encode_dlms_directions,
}

abbrev granted : Allocator
granted n = true

abbrev request_header : LlcHeader
request_header = record { dsap = 0xe6; ssap = 0xe6; control = 0 }

abbrev request_bytes : Bytes
request_bytes = 0xe6 ∷ 0xe6 ∷ 0 ∷ 0xc0 ∷ 1 ∷ []

abbrev response_bytes : Bytes
response_bytes = 0xe6 ∷ 0xe7 ∷ 0 ∷ 0xc0 ∷ 1 ∷ []

abbrev broadcast_header : LlcHeader
broadcast_header = record { dsap = 0xff; ssap = 0xe6; control = 0 }

request-encodes : encode_lpdu granted request_header (bytes (0xc0 ∷ 1 ∷ [])) ≡ done request_bytes
unfolding encode_lpdu encode_lpdu_to_buffer header_bytes validate_llc_header is_known_source_lsap
    has_representable_lpdu_size
request-encodes = refl

request-decodes :
    decode_lpdu granted (bytes request_bytes) false
    ≡ done (record { header = request_header; lsdu = 0xc0 ∷ 1 ∷ [] })
unfolding decode_lpdu decode_lpdu_from_buffer validate_llc_header is_known_source_lsap
request-decodes = refl

broadcast-decodes :
    decode_lpdu granted (bytes (0xff ∷ 0xe6 ∷ 0 ∷ 7 ∷ [])) true
    ≡ done (record { header = broadcast_header; lsdu = 7 ∷ [] })
unfolding decode_lpdu decode_lpdu_from_buffer validate_llc_header is_known_source_lsap
broadcast-decodes = refl

request_apdu-encodes : encode_dlms_request granted (bytes (0xc0 ∷ 1 ∷ [])) ≡ done request_bytes
unfolding encode_dlms_request make_llc_header encode_lpdu encode_lpdu_to_buffer header_bytes
    validate_llc_header is_known_source_lsap has_representable_lpdu_size
request_apdu-encodes = refl

response_apdu-encodes : encode_dlms_response granted (bytes (0xc0 ∷ 1 ∷ [])) ≡ done response_bytes
unfolding encode_dlms_response make_llc_header encode_lpdu encode_lpdu_to_buffer header_bytes
    validate_llc_header is_known_source_lsap has_representable_lpdu_size
response_apdu-encodes = refl

decode_lpdu-encode_lpdu_example :
    decode_lpdu granted (bytes request_bytes) true
    ≡ done (record { header = request_header; lsdu = 0xc0 ∷ 1 ∷ [] })
decode_lpdu-encode_lpdu_example =
    decode_lpdu-encode_lpdu granted request_header (0xc0 ∷ 1 ∷ []) request_bytes true refl
      request-encodes

encode_lpdu-decode_lpdu_example :
    encode_lpdu granted request_header (bytes (0xc0 ∷ 1 ∷ [])) ≡ done request_bytes
encode_lpdu-decode_lpdu_example =
    encode_lpdu-decode_lpdu granted request_bytes
      (record { header = request_header; lsdu = 0xc0 ∷ 1 ∷ [] }) (omega arith) refl request-decodes

broadcast_is_decode_only_example :
    encode_lpdu_to_buffer broadcast_header (bytes (9 ∷ [])) (bytes (0 ∷ 0 ∷ 0 ∷ 0 ∷ [])) ≡ record {
      status = broadcast_encode_forbidden;
      written_size = 0;
      output = bytes (0 ∷ 0 ∷ 0 ∷ 0 ∷ []);
    }
broadcast_is_decode_only_example =
    broadcast_is_decode_only granted (0xff ∷ 0xe6 ∷ 0 ∷ 7 ∷ []) (9 ∷ []) (0 ∷ 0 ∷ 0 ∷ 0 ∷ [])
      (record { header = broadcast_header; lsdu = 7 ∷ [] }) broadcast-decodes refl

encode_dlms_directions_example :
    (request_bytes ≢ response_bytes)
    × (decode_lpdu granted (bytes request_bytes) false
        ≡ done (record {
          header = record { dsap = 0xe6; ssap = 0xe6; control = 0 };
          lsdu = 0xc0 ∷ 1 ∷ [];
        }))
    × (decode_lpdu granted (bytes response_bytes) false
        ≡ done (record {
          header = record { dsap = 0xe6; ssap = 0xe7; control = 0 };
          lsdu = 0xc0 ∷ 1 ∷ [];
        }))
encode_dlms_directions_example =
    encode_dlms_directions granted (0xc0 ∷ 1 ∷ []) request_bytes response_bytes false refl
      request_apdu-encodes response_apdu-encodes
