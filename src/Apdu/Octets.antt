-- ===== src/Apdu/Octets.antt =====
-- Numbers as octets, the high one first: the loops over octets in axdr.cpp, ber.cpp and data.cpp.
use dlms.Prelude.{
  ℕ, zero, suc, ◌+◌, ◌*◌, ◌/◌, ◌%◌, ◌≤◌, ◌<◌, ◌≡◌, refl, sym, ap, ◌∙◌, inl, inr, [], ◌∷◌, ◌++◌,
  append_assoc, arith, ◌==◌, if◌then◌else◌, ==→eq, Bool-cases, length, Bytes,
}
use dlms.Apdu.Types.{Parser}
use dlms.Apdu.Reader.{◌>>=◌, pure, read_u8}
use dlms.Apdu.Wire.{Reads, Reads-pure, read_u8->>=}

-- `value >> (8 * k)`.
unfoldable pub shift_octets : ℕ → ℕ → ℕ
shift_octets zero v = v
shift_octets (suc k) v = shift_octets k v / 256

unfoldable pub be_octets : ℕ → ℕ → Bytes
unfolding shift_octets
be_octets zero v = []
be_octets (suc k) v = shift_octets k v % 256 ∷ be_octets k v

-- `result = (result << 8) | byte` of a 64-bit result, for each of the octets.
unfoldable pub read_octets : ℕ → ℕ → Parser ℕ
read_octets zero result = pure result
read_octets (suc n) result =
    read_u8 >>= λ byte. read_octets n (result * 256 % 0x1_0000_0000_0000_0000 + byte)

-- How often `remaining >>= 8` leaves something, for a `std::size_t` of eight octets.
unfoldable pub octet_count : ℕ → ℕ → ℕ
octet_count zero remaining = 0
octet_count (suc n) remaining =
    let more = suc (octet_count n (remaining / 256)) in if remaining == 0 then 0 else more

-- The loop that fills the array `encoded` from its end.
unfoldable pub octets_of : ℕ → ℕ → Bytes → Bytes
octets_of zero remaining encoded = encoded
octets_of (suc n) remaining encoded =
    let more = octets_of n (remaining / 256) (remaining % 256 ∷ encoded) in
    if remaining == 0 then encoded else more

pub length-be_octets : (k v : ℕ) → length (be_octets k v) ≡ k
unfolding be_octets
length-be_octets zero v = refl
length-be_octets (suc k) v = ap suc (length-be_octets k v)

shift-div : (k v : ℕ) → shift_octets k (v / 256) ≡ shift_octets k v / 256
unfolding shift_octets
shift-div zero v = refl
shift-div (suc k) v = ap (λ x. x / 256) (shift-div k v)

be_octets-snoc : (k v : ℕ) → be_octets (suc k) v ≡ be_octets k (v / 256) ++ (v % 256) ∷ []
unfolding be_octets
be_octets-snoc zero v = refl
be_octets-snoc (suc k) v = rw (be_octets-snoc k v, shift-div k v)

pub shift-le : (k v : ℕ) → shift_octets k v ≤ v
unfolding shift_octets
shift-le zero v = omega arith
shift-le (suc k) v = omega (arith, shift-le k v)

pub octets_of-be_octets :
    (n v : ℕ) (encoded : Bytes) → octets_of n v encoded ≡ be_octets (octet_count n v) v ++ encoded
unfolding octets_of octet_count be_octets
octets_of-be_octets zero v encoded = refl
octets_of-be_octets (suc n) v encoded = elim (Bool-cases (v == 0)) [
  | inl e ↦ rw e
  | inr e ↦
      rw (e, octets_of-be_octets n (v / 256) (v % 256 ∷ encoded))
        (sym (
          ap (λ xs. xs ++ encoded) (be_octets-snoc (octet_count n (v / 256)) v)
          ∙ append_assoc (be_octets (octet_count n (v / 256)) (v / 256)) (v % 256 ∷ []) encoded))
]

pub octet_count-le : (n v : ℕ) → octet_count n v ≤ n
unfolding octet_count
octet_count-le zero v = omega arith
octet_count-le (suc n) v = ground (arith, octet_count-le n (v / 256))

pub octet_count-fits : (n v : ℕ) → shift_octets n v ≡ 0 → shift_octets (octet_count n v) v ≡ 0
unfolding octet_count shift_octets
octet_count-fits zero v h = h
octet_count-fits (suc n) v h = elim (Bool-cases (v == 0)) [
  | inl e ↦ rw e (==→eq _ _ e)
  | inr e ↦ rw e (
      sym (shift-div (octet_count n (v / 256)) v)
      ∙ octet_count-fits n (v / 256) (shift-div n v ∙ h))
]

pub add_up :
    (k v : ℕ)
    → v < 0x1_0000_0000_0000_0000
    → shift_octets k v / 256 * 256 % 0x1_0000_0000_0000_0000 + shift_octets k v % 256
      ≡ shift_octets k v
add_up k v h = omega (arith, shift-le k v)

read_octets-from :
    (k v : ℕ)
    → v < 0x1_0000_0000_0000_0000
    → Reads (read_octets k (shift_octets k v)) (be_octets k v) v
unfolding read_octets be_octets shift_octets
read_octets-from zero v h = Reads-pure v
read_octets-from (suc k) v h =
    read_u8->>=
      (λ byte. read_octets k (shift_octets k v / 256 * 256 % 0x1_0000_0000_0000_0000 + byte))
      (shift_octets k v % 256) (be_octets k v) v (rw (add_up k v h) (read_octets-from k v h))

-- The octets of a number that fits them are read back to it.
pub read_octets-Reads :
    (k v : ℕ)
    → v < 0x1_0000_0000_0000_0000
    → shift_octets k v ≡ 0
    → Reads (read_octets k 0) (be_octets k v) v
read_octets-Reads k v h e = rw e at (read_octets-from k v h)
