-- ===== src/Hdlc/Crc/Serial.antt =====
-- hdlc_crc.cpp: the check sequence against the shift register of CRC-16/X.25 that takes one bit at a
-- time, the low bit of each byte first.

use Prim.Native.Nat.{bit_xor}
use native.Mathlib.Nat.{pow-suc}
use dlms.Prelude.Xor.{bit_xor_zero, bit_xor-odd, bit_xor-half, bit_xor-right_comm, bit_xor-ones}
use dlms.Hdlc.Crc.{initial_fcs, shift_crc, shift_bits, update_crc, crc_loop, calculate_hdlc_crc}
use dlms.Hdlc.Crc.Laws.{crc_loop-lt}
use dlms.Prelude.{
  ℕ, zero, suc, ◌+◌, ◌-◌, ◌/◌, ◌%◌, ◌^◌, ◌<◌, ◌≡◌, refl, ap, ◌∙◌, [], ◌∷◌, arith, ◌==◌,
  if◌then◌else◌, All, Bytes, IsByte, bytes,
}

-- The feedback of x^16 + x^12 + x^5 + 1, with the low bit standing for the highest power.
abbrev pub feed_bit : ℕ → ℕ → ℕ
feed_bit register bit =
    if (register + bit) % 2 == 0 then register / 2 else bit_xor (register / 2) 0x8408

abbrev pub feed_bits : ℕ → ℕ → ℕ → ℕ
feed_bits zero register value = register
feed_bits (suc k) register value = feed_bits k (feed_bit register (value % 2)) (value / 2)

abbrev pub feed_bytes : ℕ → Bytes → ℕ
feed_bytes register [] = register
feed_bytes register (b ∷ bs) = feed_bytes (feed_bits 8 register b) bs

-- The register starts with ones, and its complement is sent.
abbrev pub x25_fcs : Bytes → ℕ
x25_fcs bs = 0xffff - feed_bytes 0xffff bs

shift_crc-feed :
    (register value : ℕ)
    → shift_crc (bit_xor register value) ≡ bit_xor (feed_bit register (value % 2)) (value / 2)
unfolding shift_crc
shift_crc-feed register value = ground (
  arith,
  bit_xor-odd register value,
  bit_xor-half register value,
  bit_xor-right_comm (register / 2) (value / 2) 0x8408,
)

shift_bits-feed :
    (k register value : ℕ)
    → value < 2 ^ k
    → shift_bits k (bit_xor register value) ≡ feed_bits k register value
unfolding shift_bits
shift_bits-feed zero register zero h = bit_xor_zero register
shift_bits-feed zero register (suc value) h = absurd (omega arith)
shift_bits-feed (suc k) register value h =
    ap (shift_bits k) (shift_crc-feed register value)
    ∙ shift_bits-feed k (feed_bit register (value % 2)) (value / 2) (omega (arith, pow-suc 2 k))

crc_loop-feed :
    (register : ℕ) (bs : Bytes) → All IsByte bs → crc_loop register bs ≡ feed_bytes register bs
unfolding crc_loop update_crc
crc_loop-feed register [] h = refl
crc_loop-feed register (b ∷ bs) h =
    ap (λ (t : ℕ). crc_loop t bs) (shift_bits-feed 8 register b h.0)
    ∙ crc_loop-feed (feed_bits 8 register b) bs h.1

-- On bytes, `CalculateHdlcCrc` is the check sequence of the register.
pub calculate_hdlc_crc-x25 :
    (bs : Bytes) → All IsByte bs → calculate_hdlc_crc (bytes bs) ≡ x25_fcs bs
unfolding calculate_hdlc_crc
calculate_hdlc_crc-x25 bs h =
    bit_xor-ones 16 (crc_loop initial_fcs bs) (crc_loop-lt initial_fcs bs (omega arith) h)
    ∙ ap (λ (t : ℕ). 0xffff - t) (crc_loop-feed initial_fcs bs h)
