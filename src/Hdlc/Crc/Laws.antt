-- ===== src/Hdlc/Crc/Laws.antt =====
-- hdlc_crc.cpp: the range of the check sequence, and inputs that differ in one byte.
use dlms.Prelude.{
  ℕ, zero, suc, ◌/◌, ◌≤◌, ◌<◌, ◌≡◌, refl, sym, ap, ◌∙◌, ◌≢◌, [], ◌∷◌, ◌++◌, arith, All, Bytes,
  IsByte, bytes,
}
use Prim.Native.Nat.{bit_xor}
use dlms.Hdlc.Crc.{
  polynomial, initial_fcs, shift_crc, shift_bits, update_crc, crc_loop, calculate_hdlc_crc,
}
use dlms.Prelude.Xor.{bit_xor-lt, bit_xor-high, bit_xor-injective_left, bit_xor-injective_right}

-- The feedback sets the top bit.
feedback_high : (x : ℕ) → x < 32768 → 32768 ≤ bit_xor x polynomial
feedback_high x h = omega (arith, bit_xor-high 15 x polynomial, ap (λ (t : ℕ). bit_xor t 1) top)
  where
    top : x / 32768 ≡ 0
    top = omega arith

shift_crc-lt : (x : ℕ) → x < 65536 → shift_crc x < 65536
unfolding shift_crc
shift_crc-lt x h = ground (arith, bit_xor-lt 16 (x / 2) polynomial)

shift_crc-injective : (x y : ℕ) → x < 65536 → y < 65536 → shift_crc x ≡ shift_crc y → x ≡ y
unfolding shift_crc
shift_crc-injective x y hx hy e = ground (
  arith,
  feedback_high (x / 2),
  feedback_high (y / 2),
  bit_xor-injective_left (x / 2) (y / 2) polynomial,
)

shift_bits-lt : (n x : ℕ) → x < 65536 → shift_bits n x < 65536
unfolding shift_bits
shift_bits-lt zero x h = h
shift_bits-lt (suc n) x h = shift_bits-lt n (shift_crc x) (shift_crc-lt x h)

shift_bits-injective : (n x y : ℕ) → x < 65536 → y < 65536 → shift_bits n x ≡ shift_bits n y → x ≡ y
unfolding shift_bits
shift_bits-injective zero x y hx hy e = e
shift_bits-injective (suc n) x y hx hy e =
    shift_crc-injective x y hx hy
      (shift_bits-injective n (shift_crc x) (shift_crc y) (shift_crc-lt x hx) (shift_crc-lt y hy) e)

update_crc-lt : (crc b : ℕ) → crc < 65536 → IsByte b → update_crc crc b < 65536
unfolding update_crc
update_crc-lt crc b hc hb =
    shift_bits-lt 8 (bit_xor crc b) (bit_xor-lt 16 crc b (omega arith) (omega arith))

pub crc_loop-lt : (crc : ℕ) (bs : Bytes) → crc < 65536 → All IsByte bs → crc_loop crc bs < 65536
unfolding crc_loop
crc_loop-lt crc [] hc hb = hc
crc_loop-lt crc (b ∷ bs) hc hb =
    crc_loop-lt (update_crc crc b) bs (update_crc-lt crc b hc hb.0) hb.1

-- The check sequence of bytes is a 16-bit number.
pub calculate_hdlc_crc-lt : (bs : Bytes) → All IsByte bs → calculate_hdlc_crc (bytes bs) < 65536
unfolding calculate_hdlc_crc
calculate_hdlc_crc-lt bs h =
    bit_xor-lt 16 (crc_loop initial_fcs bs) 0xffff (crc_loop-lt initial_fcs bs (omega arith) h)
      (omega arith)

update_crc-injective_left :
    (x y b : ℕ) → x < 65536 → y < 65536 → IsByte b → update_crc x b ≡ update_crc y b → x ≡ y
unfolding update_crc
update_crc-injective_left x y b hx hy hb e = bit_xor-injective_left x y b (
    shift_bits-injective 8 (bit_xor x b) (bit_xor y b) (bit_xor-lt 16 x b hx (omega arith))
      (bit_xor-lt 16 y b hy (omega arith)) e)

update_crc-injective_right :
    (x b c : ℕ) → x < 65536 → IsByte b → IsByte c → update_crc x b ≡ update_crc x c → b ≡ c
unfolding update_crc
update_crc-injective_right x b c hx hb hc e = bit_xor-injective_right b c x (
    shift_bits-injective 8 (bit_xor x b) (bit_xor x c) (bit_xor-lt 16 x b hx (omega arith))
      (bit_xor-lt 16 x c hx (omega arith)) e)

-- The same bytes keep two different registers apart.
crc_loop-injective :
    (x y : ℕ) (bs : Bytes)
    → x < 65536
    → y < 65536
    → All IsByte bs
    → crc_loop x bs ≡ crc_loop y bs
    → x ≡ y
unfolding crc_loop
crc_loop-injective x y [] hx hy hb e = e
crc_loop-injective x y (b ∷ bs) hx hy hb e = update_crc-injective_left x y b hx hy hb.0 (
    crc_loop-injective (update_crc x b) (update_crc y b) bs (update_crc-lt x b hx hb.0)
      (update_crc-lt y b hy hb.0) hb.1 e)

crc_loop-append :
    (x : ℕ) (front back : Bytes) → crc_loop x (front ++ back) ≡ crc_loop (crc_loop x front) back
unfolding crc_loop
crc_loop-append x [] back = refl
crc_loop-append x (a ∷ front) back = crc_loop-append (update_crc x a) front back

crc_loop-one_byte :
    (x b c : ℕ) (front back : Bytes)
    → x < 65536
    → All IsByte front
    → All IsByte back
    → IsByte b
    → IsByte c
    → crc_loop x (front ++ b ∷ back) ≡ crc_loop x (front ++ c ∷ back)
    → b ≡ c
crc_loop-one_byte x b c front back hx hf hk hb hc e =
    let reg = crc_loop-lt x front hx hf in
    update_crc-injective_right (crc_loop x front) b c reg hb hc (
      crc_loop-injective _ _ back (update_crc-lt _ b reg hb) (update_crc-lt _ c reg hc) hk (
        unfold crc_loop in
        sym (crc_loop-append x front (b ∷ back)) ∙ e ∙ crc_loop-append x front (c ∷ back)))

-- Two inputs that differ in exactly one byte never have the same check sequence, so that the
-- sequence detects every error burst within one byte, wherever it stands.
pub crc_detects_byte_error :
    (front back : Bytes) (b c : ℕ)
    → All IsByte front
    → All IsByte back
    → IsByte b
    → IsByte c
    → b ≢ c
    → calculate_hdlc_crc (bytes (front ++ b ∷ back))
      ≢ calculate_hdlc_crc (bytes (front ++ c ∷ back))
unfolding calculate_hdlc_crc
crc_detects_byte_error front back b c hf hk hb hc ne e = ne (
    crc_loop-one_byte initial_fcs b c front back (omega arith) hf hk hb hc
      (bit_xor-injective_left _ _ 0xffff e))
