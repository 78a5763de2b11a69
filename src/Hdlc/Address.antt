-- ===== src/Hdlc/Address.antt =====
-- lib/dlms-hdlc/src/hdlc/hdlc_address.cpp: HDLC addresses of 1, 2 or 4 bytes.
pub mod Laws
pub mod Server
use dlms.Prelude.{
  ℕ, zero, suc, ◌+◌, ◌-◌, ◌*◌, ◌/◌, ◌%◌, ◌^◌, ◌≤◌, ◌<◌, min, ◌≡◌, refl, sym, ap, ◌∙◌, ◌≢◌, ◌↔◌, ◌⊎◌,
  inl, inr, Bool, true, false, ◌&&◌, ◌||◌, not, Option, none, some, List, [], ◌∷◌, ◌++◌, map,
  append_assoc, append-nil, arith, ltb, leb, ◌==◌, if◌then◌else◌, ltb→lt, lt→ltb, le→ltb, ==→eq,
  Bool-cases, Option-cases, length, get_or, take, drop, replicate, All, concat, length-append,
  length-take, length-drop, length-replicate, take-append-drop, take-append_le, drop-append_le,
  get_or-append_lt, take-append_length, drop-append_length, drop-drop, All-append, eq-nil,
  take-length, Result, done, fail, ◌>>=◌, >>=-eq-done, Result-cases, Bytes, IsByte, Span, null,
  bytes, Allocator, high_byte, low_byte, join_bytes, overwrite, size, Written, tests,
}
use dlms.Hdlc.Types.{
  HdlcStatus, need_more_data, invalid_argument, output_buffer_too_small, unsupported_address,
  invalid_address, HdlcAddress,
}

unfoldable pub is_supported_encoded_size : ℕ → Bool
is_supported_encoded_size encoded_size =
    encoded_size == 1 || (encoded_size == 2 || encoded_size == 4)

unfoldable pub maximum_raw_value : ℕ → ℕ
maximum_raw_value encoded_size = 2 ^ (encoded_size * 7) - 1

-- The default constructor.
abbrev pub no_address : HdlcAddress
no_address = record { raw_value = 0; encoded_size = 1 }

-- `(rawValue << 7) | ((data[index] >> 1) & 0x7f)` as a `std::uint32_t`. The shifted value has its
-- low seven bits clear, so that the `|` is a sum.
abbrev pub push_group : ℕ → ℕ → ℕ
push_group raw byte = (raw * 128 + byte / 2 % 128) % 4294967296

-- Past the loop of `FromBytes`: no byte of the first four had its low bit set.
unfoldable pub no_last_byte : ℕ → HdlcStatus
no_last_byte size = if ltb size 4 then need_more_data else invalid_address

-- The loop of `FromBytes`. The list is what is left at `data + index`, `size` the size given.
unfoldable pub from_bytes_loop : ℕ → Bytes → ℕ → ℕ → Result HdlcStatus (HdlcAddress × ℕ)
unfolding is_supported_encoded_size no_last_byte
from_bytes_loop size [] index raw = fail (no_last_byte size)
from_bytes_loop size (byte ∷ rest) index raw =
    let raw' = push_group raw byte in
    let more = from_bytes_loop size rest (index + 1) raw' in
    if not (ltb index 4)
    then fail (no_last_byte size)
    else if not (byte % 2 == 0)
    then (if not (is_supported_encoded_size (index + 1))
        then fail unsupported_address
        else done (record { raw_value = raw'; encoded_size = index + 1 }, index + 1))
    else more

-- `done (address, consumedSize)`.
unfoldable pub from_bytes : Span → Result HdlcStatus (HdlcAddress × ℕ)
unfolding from_bytes_loop
from_bytes (null n) = fail invalid_argument
from_bytes (bytes input) = from_bytes_loop (length input) input 0 0

unfoldable pub from_raw : ℕ → ℕ → Result HdlcStatus HdlcAddress
unfolding is_supported_encoded_size
from_raw raw encoded_size =
    if not (is_supported_encoded_size encoded_size)
    then fail unsupported_address
    else if ltb (maximum_raw_value encoded_size) raw
    then fail invalid_address
    else done (record { raw_value = raw; encoded_size = encoded_size })

-- The loop of `Encode`, with `k` for `encodedSize_ - index - 1`.
unfoldable pub encode_loop : ℕ → ℕ → Bytes
encode_loop zero raw = []
encode_loop (suc k) raw =
    (raw / 2 ^ (k * 7) % 128 * 2 + (if k == 0 then 1 else 0)) ∷ encode_loop k raw

-- `Encode` into a buffer: the `writtenSize` bytes that go to its front. An error writes nothing.
unfoldable pub encode_address : HdlcAddress → Span → Result HdlcStatus Bytes
encode_address address (null n) = fail invalid_argument
encode_address address (bytes output) =
    if ltb (length output) address.encoded_size
    then fail output_buffer_too_small
    else done (encode_loop address.encoded_size address.raw_value)

unfoldable pub make_client_address : ℕ → Result HdlcStatus HdlcAddress
make_client_address client_address =
    if ltb 0x7f client_address then fail invalid_address else from_raw client_address 1

unfoldable pub make_server_address : ℕ → ℕ → Result HdlcStatus HdlcAddress
make_server_address logical physical =
    if ltb 0x3fff logical || ltb 0x3fff physical
    then fail invalid_address
    else if physical == 0 && leb logical 0x7f
    then from_raw logical 1
    else if leb logical 0x7f && leb physical 0x7f
    then from_raw (logical * 128 + physical) 2
    else from_raw (logical * 16384 + physical) 4
