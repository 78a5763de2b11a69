-- ===== src/Llc/RoundTrip.antt =====
-- llc_codec.cpp: round trips of `EncodeLpdu` and `DecodeLpdu`, the broadcast policy, the directions.
use dlms.Prelude.{
  ℕ, ◌+◌, ◌≤◌, ◌≡◌, sym, ap, ◌∙◌, ◌≢◌, Bool, true, false, ◌∷◌, ◌++◌, arith, length, drop, replicate,
  length-append, length-replicate, take-append_length, done, Bytes, bytes, Allocator,
}
use dlms.Llc.Header.{
  ok, broadcast_encode_forbidden, LlcHeader, client_to_server, server_to_client,
  validate_llc_header, make_llc_header, llc_dsap_broadcast,
}
use dlms.Llc.Codec.{
  LlcLpduBuffer, size_max, header_bytes, encode_lpdu, encode_lpdu_to_buffer, decode_lpdu,
  encode_dlms_request, encode_dlms_response,
}

-- When encoding succeeds, and what it writes.
pub encode_lpdu-eq-done :
    (alloc : Allocator) (header : LlcHeader) (lsdu : Bytes)
    → validate_llc_header header false ≡ ok
    → 3 + length lsdu ≤ size_max
    → alloc (3 + length lsdu) ≡ true
    → encode_lpdu alloc header (bytes lsdu) ≡ done (header_bytes header ++ lsdu)
unfolding encode_lpdu encode_lpdu_to_buffer
encode_lpdu-eq-done alloc header lsdu v fits a = ground (
  arith,
  length-replicate {A = ℕ} (3 + length lsdu) 0,
  length-append (header_bytes header) lsdu,
  take-append_length (3 + length lsdu) (header_bytes header ++ lsdu)
      (drop (3 + length lsdu) (replicate (3 + length lsdu) 0)),
)

encode_lpdu-inv :
    (alloc : Allocator) (header : LlcHeader) (lsdu w : Bytes)
    → encode_lpdu alloc header (bytes lsdu) ≡ done w
    → (validate_llc_header header false ≡ ok)
      × (3 + length lsdu ≤ size_max)
      × (alloc (3 + length lsdu) ≡ true)
unfolding encode_lpdu encode_lpdu_to_buffer
encode_lpdu-inv alloc header lsdu w e = ground arith

validate_llc_header-allow :
    (header : LlcHeader) (allow : Bool)
    → validate_llc_header header false ≡ ok
    → validate_llc_header header allow ≡ ok
unfolding validate_llc_header
validate_llc_header-allow header allow v = ground arith

decode-header_bytes :
    (alloc : Allocator) (header : LlcHeader) (lsdu : Bytes) (allow : Bool)
    → validate_llc_header header allow ≡ ok
    → alloc (length lsdu) ≡ true
    → decode_lpdu alloc (bytes (header_bytes header ++ lsdu)) allow
      ≡ done (record { header = header; lsdu = lsdu })
unfolding decode_lpdu header_bytes
decode-header_bytes alloc header lsdu allow v a = ground arith

-- Whatever `EncodeLpdu` produces, `DecodeLpdu` turns back into the header and the LSDU, with
-- broadcast allowed or not, if the memory for the LSDU is there.
pub decode_lpdu-encode_lpdu :
    (alloc : Allocator) (header : LlcHeader) (lsdu w : Bytes) (allow : Bool)
    → alloc (length lsdu) ≡ true
    → encode_lpdu alloc header (bytes lsdu) ≡ done w
    → decode_lpdu alloc (bytes w) allow ≡ done (record { header = header; lsdu = lsdu })
decode_lpdu-encode_lpdu alloc header lsdu w allow a e =
    let (v, fits, a') = encode_lpdu-inv alloc header lsdu w e in
    cc (
      encode_lpdu-eq-done alloc header lsdu v fits a',
      decode-header_bytes alloc header lsdu allow (validate_llc_header-allow header allow v) a,
    )

decode_lpdu-inv :
    (alloc : Allocator) (w : Bytes) (allow : Bool) (lpdu : LlcLpduBuffer)
    → decode_lpdu alloc (bytes w) allow ≡ done lpdu
    → (validate_llc_header lpdu.header allow ≡ ok) × (header_bytes lpdu.header ++ lpdu.lsdu ≡ w)
unfolding decode_lpdu header_bytes
decode_lpdu-inv alloc (a ∷ b ∷ c ∷ rest) allow lpdu e = ground arith
decode_lpdu-inv alloc _ allow lpdu e = absurd (ground arith)

-- Without broadcast, whatever bytes `DecodeLpdu` accepts `EncodeLpdu` writes again for the decoded
-- header and LSDU, if their number is a `std::size_t` and the memory for them is there.
pub encode_lpdu-decode_lpdu :
    (alloc : Allocator) (w : Bytes) (lpdu : LlcLpduBuffer)
    → length w ≤ size_max
    → alloc (length w) ≡ true
    → decode_lpdu alloc (bytes w) false ≡ done lpdu
    → encode_lpdu alloc lpdu.header (bytes lpdu.lsdu) ≡ done w
encode_lpdu-decode_lpdu alloc w lpdu fits a e =
    let (v, q) = decode_lpdu-inv alloc w false lpdu e in
    let n : length w ≡ 3 + length lpdu.lsdu =
      ap length (sym q) ∙ unfold header_bytes in omega arith in
    encode_lpdu-eq-done alloc lpdu.header lpdu.lsdu v (omega arith) (rw (← n) a) ∙ ap done q

-- A broadcast LPDU that `DecodeLpdu` accepts is never encoded: `EncodeLpduToBuffer` reports
-- BroadcastEncodeForbidden for its header and any LSDU, and leaves the buffer alone.
pub broadcast_is_decode_only :
    (alloc : Allocator) (w lsdu output : Bytes) (lpdu : LlcLpduBuffer)
    → decode_lpdu alloc (bytes w) true ≡ done lpdu
    → lpdu.header.dsap ≡ llc_dsap_broadcast
    → encode_lpdu_to_buffer lpdu.header (bytes lsdu) (bytes output)
      ≡ record { status = broadcast_encode_forbidden; written_size = 0; output = bytes output }
broadcast_is_decode_only alloc w lsdu output lpdu e b =
    forbidden lpdu.header (decode_lpdu-inv alloc w true lpdu e).0 b
  where
    forbidden :
        (header : LlcHeader)
        → validate_llc_header header true ≡ ok
        → header.dsap ≡ llc_dsap_broadcast
        → encode_lpdu_to_buffer header (bytes lsdu) (bytes output)
          ≡ record { status = broadcast_encode_forbidden; written_size = 0; output = bytes output }
    forbidden header v d = unfold encode_lpdu_to_buffer validate_llc_header in ground arith

-- A request and a response for the same APDU never have the same bytes, and both decode to the APDU
-- under the header of their direction, E6 E6 00 for a request and E6 E7 00 for a response.
pub encode_dlms_directions :
    (alloc : Allocator) (apdu request response : Bytes) (allow : Bool)
    → alloc (length apdu) ≡ true
    → encode_dlms_request alloc (bytes apdu) ≡ done request
    → encode_dlms_response alloc (bytes apdu) ≡ done response
    → (request ≢ response)
      × (decode_lpdu alloc (bytes request) allow
          ≡ done
              (record { header = record { dsap = 0xe6; ssap = 0xe6; control = 0 }; lsdu = apdu }))
      × (decode_lpdu alloc (bytes response) allow
          ≡ done
              (record { header = record { dsap = 0xe6; ssap = 0xe7; control = 0 }; lsdu = apdu }))
unfolding encode_dlms_request encode_dlms_response make_llc_header
encode_dlms_directions alloc apdu request response allow a p q =
    let r =
      decode_lpdu-encode_lpdu alloc (make_llc_header client_to_server) apdu request allow a p in
    let s =
      decode_lpdu-encode_lpdu alloc (make_llc_header server_to_client) apdu response allow a q in
    (λ e. ground (arith, r, s, ap (λ (w : Bytes). decode_lpdu alloc (bytes w) allow) e), r, s)
