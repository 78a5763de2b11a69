-- ===== src/Hdlc/Crc.antt =====
-- lib/dlms-hdlc/src/hdlc/hdlc_crc.cpp: the 16-bit frame check sequence.
pub mod Laws
pub mod Serial
use dlms.Prelude.{
  ℕ, zero, suc, ◌+◌, ◌-◌, ◌*◌, ◌/◌, ◌%◌, ◌^◌, ◌≤◌, ◌<◌, min, ◌≡◌, refl, sym, ap, ◌∙◌, ◌≢◌, ◌↔◌, ◌⊎◌,
  inl, inr, Bool, true, false, ◌&&◌, ◌||◌, not, Option, none, some, List, [], ◌∷◌, ◌++◌, map,
  append_assoc, append-nil, arith, ltb, leb, ◌==◌, if◌then◌else◌, ltb→lt, lt→ltb, le→ltb, ==→eq,
  Bool-cases, Option-cases, length, get_or, take, drop, replicate, All, concat, length-append,
  length-take, length-drop, length-replicate, take-append-drop, take-append_le, drop-append_le,
  get_or-append_lt, take-append_length, drop-append_length, drop-drop, All-append, eq-nil,
  take-length, Result, done, fail, ◌>>=◌, >>=-eq-done, Result-cases, Bytes, IsByte, is_null_data,
  contents, Span, null, bytes, Allocator, high_byte, low_byte, join_bytes, overwrite, size, Written,
  tests,
}
use Prim.Native.Nat.{bit_xor}
use dlms.Hdlc.Types.{HdlcStatus, ok, invalid_argument, invalid_frame_checksum}

abbrev pub initial_fcs : ℕ
initial_fcs = 0xffff

abbrev pub polynomial : ℕ
polynomial = 0x8408

-- One round of the loop in `UpdateCrc`.
unfoldable pub shift_crc : ℕ → ℕ
shift_crc crc = if not (crc % 2 == 0) then bit_xor (crc / 2) polynomial else crc / 2

unfoldable pub shift_bits : ℕ → ℕ → ℕ
shift_bits zero crc = crc
shift_bits (suc rounds) crc = shift_bits rounds (shift_crc crc)

unfoldable pub update_crc : ℕ → ℕ → ℕ
update_crc crc value = shift_bits 8 (bit_xor crc value)

-- The loop of `CalculateHdlcCrc`.
unfoldable pub crc_loop : ℕ → Bytes → ℕ
crc_loop crc [] = crc
crc_loop crc (b ∷ bs) = crc_loop (update_crc crc b) bs

unfoldable pub calculate_hdlc_crc : Span → ℕ
calculate_hdlc_crc (null n) = if not (n == 0) then 0 else bit_xor initial_fcs 0xffff
calculate_hdlc_crc (bytes input) = bit_xor (crc_loop initial_fcs input) 0xffff

unfoldable pub validate_hdlc_crc : Span → ℕ → HdlcStatus
validate_hdlc_crc input expected =
    if is_null_data input
    then invalid_argument
    else if not (calculate_hdlc_crc input == expected)
    then invalid_frame_checksum
    else ok
