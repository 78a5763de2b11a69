-- ===== src/Prelude/Xor.antt =====
-- Exclusive or on the native numbers: cancellation, bounds and high bits, at every width.
use Prim.Native.Nat.{
  ℕ, zero, suc, ◌+◌, ◌-◌, ◌*◌, ◌/◌, ◌%◌, ◌^◌, ◌≤◌, ◌<◌, digits, differ, bit_xor, bit_xor-bitwise,
}
use mathlib.Core.Path.{◌≡◌, refl, sym, ap, ◌∙◌}
use native.Mathlib.Omega.{arith}
use native.Mathlib.Nat.{pow-suc, div-one, div-div-eq-div-mul}

abbrev xor_digits : ℕ → ℕ → ℕ → ℕ
xor_digits n a b = digits (λ d. d) differ n a b

differ-sub : (x y : ℕ) → differ x y ≡ (x - y) + (y - x)
differ-sub zero y = omega arith
differ-sub (suc x) zero = omega arith
differ-sub (suc x) (suc y) = omega (arith, differ-sub x y)

-- More digits to go than the first number has change nothing.
xor_digits_fuel : (n m a b : ℕ) → a ≤ n → a ≤ m → xor_digits n a b ≡ xor_digits m a b
xor_digits_fuel zero zero a b p q = refl
xor_digits_fuel zero (suc m) zero b p q = refl
xor_digits_fuel zero (suc m) (suc a) b p q = absurd (omega arith)
xor_digits_fuel (suc n) zero zero b p q = refl
xor_digits_fuel (suc n) zero (suc a) b p q = absurd (omega arith)
xor_digits_fuel (suc n) (suc m) zero b p q = refl
xor_digits_fuel (suc n) (suc m) (suc a) b p q =
    omega (arith, xor_digits_fuel n m (suc a / 2) (b / 2) (omega arith) (omega arith))

zero-bit_xor : (b : ℕ) → bit_xor 0 b ≡ b
zero-bit_xor b = bit_xor-bitwise 0 b

pub bit_xor_step :
    (a b : ℕ) → bit_xor a b ≡ bit_xor (a / 2) (b / 2) * 2 + ((a % 2 - b % 2) + (b % 2 - a % 2))
bit_xor_step zero b = omega (arith, zero-bit_xor b, zero-bit_xor (b / 2))
bit_xor_step (suc a) b = omega (
  arith,
  bit_xor-bitwise (suc a) b,
  bit_xor-bitwise (suc a / 2) (b / 2),
  differ-sub (suc a % 2) (b % 2),
  xor_digits_fuel a (suc a / 2) (suc a / 2) (b / 2) (omega arith) (omega arith),
)

pub bit_xor-half : (a b : ℕ) → bit_xor a b / 2 ≡ bit_xor (a / 2) (b / 2)
bit_xor-half a b = omega (arith, bit_xor_step a b)

bit_xor-cancel_fuel : (n a b : ℕ) → a + b ≤ n → bit_xor (bit_xor a b) b ≡ a
bit_xor-cancel_fuel n zero zero h = refl
bit_xor-cancel_fuel zero (suc a) b h = absurd (omega arith)
bit_xor-cancel_fuel zero zero (suc b) h = absurd (omega arith)
bit_xor-cancel_fuel (suc n) a b h = omega (
  arith,
  bit_xor_step (bit_xor a b) b,
  bit_xor_step a b,
  ap (λ (t : ℕ). bit_xor t (b / 2)) (bit_xor-half a b),
  bit_xor-cancel_fuel n (a / 2) (b / 2) (omega arith),
)

-- The same mask twice is no mask.
pub bit_xor-cancel : (a b : ℕ) → bit_xor (bit_xor a b) b ≡ a
bit_xor-cancel a b = bit_xor-cancel_fuel (a + b) a b (omega arith)

bit_xor-comm_fuel : (n a b : ℕ) → a + b ≤ n → bit_xor a b ≡ bit_xor b a
bit_xor-comm_fuel n zero zero h = refl
bit_xor-comm_fuel zero (suc a) b h = absurd (omega arith)
bit_xor-comm_fuel zero zero (suc b) h = absurd (omega arith)
bit_xor-comm_fuel (suc n) a b h =
    omega
      (arith, bit_xor_step a b, bit_xor_step b a, bit_xor-comm_fuel n (a / 2) (b / 2) (omega arith))

pub bit_xor_comm : (a b : ℕ) → bit_xor a b ≡ bit_xor b a
bit_xor_comm a b = bit_xor-comm_fuel (a + b) a b (omega arith)

-- A mask can be taken off on either side.
pub bit_xor-injective_left : (a b c : ℕ) → bit_xor a c ≡ bit_xor b c → a ≡ b
bit_xor-injective_left a b c e =
    sym (bit_xor-cancel a c) ∙ ap (λ (t : ℕ). bit_xor t c) e ∙ bit_xor-cancel b c

pub bit_xor-injective_right : (a b c : ℕ) → bit_xor c a ≡ bit_xor c b → a ≡ b
bit_xor-injective_right a b c e =
    bit_xor-injective_left a b c (bit_xor_comm a c ∙ e ∙ bit_xor_comm c b)

-- Two numbers of `k` digits have an exclusive or of `k` digits.
pub bit_xor-lt : (k a b : ℕ) → a < 2 ^ k → b < 2 ^ k → bit_xor a b < 2 ^ k
bit_xor-lt zero zero zero p q = omega arith
bit_xor-lt zero zero (suc b) p q = absurd (omega arith)
bit_xor-lt zero (suc a) b p q = absurd (omega arith)
bit_xor-lt (suc k) a b p q = omega (
  arith,
  pow-suc 2 k,
  bit_xor_step a b,
  bit_xor-lt k (a / 2) (b / 2) (omega (arith, pow-suc 2 k)) (omega (arith, pow-suc 2 k)),
)

div-two_pow : (k n : ℕ) → n / 2 ^ suc k ≡ n / 2 / 2 ^ k
div-two_pow k n =
    ap (λ (t : ℕ). n / t) (omega (arith, pow-suc 2 k)) ∙ sym (div-div-eq-div-mul n 2 (2 ^ k))

-- The digits from the `k`-th on.
pub bit_xor-high : (k a b : ℕ) → bit_xor a b / 2 ^ k ≡ bit_xor (a / 2 ^ k) (b / 2 ^ k)
bit_xor-high zero a b = simp div-one
bit_xor-high (suc k) a b =
    rw (div-two_pow k (bit_xor a b), div-two_pow k a, div-two_pow k b, bit_xor-half a b)
      (bit_xor-high k (a / 2) (b / 2))

pub bit_xor_zero : (a : ℕ) → bit_xor a 0 ≡ a
bit_xor_zero a = bit_xor_comm a 0 ∙ zero-bit_xor a

pub bit_xor-odd : (a b : ℕ) → bit_xor a b % 2 ≡ (a + b) % 2
bit_xor-odd a b = omega (arith, bit_xor_step a b)

same_digits : (x y : ℕ) → x % 2 ≡ y % 2 → x / 2 ≡ y / 2 → x ≡ y
same_digits x y p q = omega arith

bit_xor-right_comm_fuel :
    (n a b c : ℕ) → a + b + c ≤ n → bit_xor (bit_xor a b) c ≡ bit_xor (bit_xor a c) b
bit_xor-right_comm_fuel n zero zero zero h = refl
bit_xor-right_comm_fuel zero (suc a) b c h = absurd (omega arith)
bit_xor-right_comm_fuel zero zero (suc b) c h = absurd (omega arith)
bit_xor-right_comm_fuel zero zero zero (suc c) h = absurd (omega arith)
bit_xor-right_comm_fuel (suc n) a b c h =
    same_digits _ _
      (omega (
        arith,
        bit_xor-odd (bit_xor a b) c,
        bit_xor-odd (bit_xor a c) b,
        bit_xor-odd a b,
        bit_xor-odd a c,
      ))
      (bit_xor-half (bit_xor a b) c
        ∙ ap (λ (t : ℕ). bit_xor t (c / 2)) (bit_xor-half a b)
        ∙ bit_xor-right_comm_fuel n (a / 2) (b / 2) (c / 2) (omega arith)
        ∙ sym (ap (λ (t : ℕ). bit_xor t (b / 2)) (bit_xor-half a c))
        ∙ sym (bit_xor-half (bit_xor a c) b))

-- The order of two masks does not matter.
pub bit_xor-right_comm : (a b c : ℕ) → bit_xor (bit_xor a b) c ≡ bit_xor (bit_xor a c) b
bit_xor-right_comm a b c = bit_xor-right_comm_fuel (a + b + c) a b c (omega arith)

-- The mask of `k` ones is the complement.
pub bit_xor-ones : (k a : ℕ) → a < 2 ^ k → bit_xor a (2 ^ k - 1) ≡ 2 ^ k - 1 - a
bit_xor-ones zero zero h = refl
bit_xor-ones zero (suc a) h = absurd (omega arith)
bit_xor-ones (suc k) a h = omega (
  arith,
  pow-suc 2 k,
  bit_xor_step a (2 ^ suc k - 1),
  ap (λ (t : ℕ). bit_xor (a / 2) t) halved,
  bit_xor-ones k (a / 2) (omega (arith, pow-suc 2 k)),
)
  where
    halved : (2 ^ suc k - 1) / 2 ≡ 2 ^ k - 1
    halved = omega (arith, pow-suc 2 k)
