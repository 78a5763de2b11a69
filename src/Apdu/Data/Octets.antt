-- ===== src/Apdu/Data/Octets.antt =====
-- data.cpp: the fields of a fixed number of octets, and the sign of a `std::int64_t`.
use dlms.Prelude.{
  ℕ, zero, suc, ◌-◌, ◌%◌, ◌≤◌, ◌<◌, ◌≡◌, ◌⊎◌, true, [], append-nil, arith, ◌==◌, length, Bytes,
  bytes,
}
use dlms.Apdu.Octets.{be_octets, shift_octets, read_octets-Reads}
use dlms.Apdu.Wire.{
  Reads, Writes, Reads->>=, Reads-pure, write_u8->>, write_bytes-Writes, Writes-nothing,
}
use dlms.Apdu.Reader.{pure, ◌>>=◌}
use dlms.Apdu.Data.{sign_extend, read_unsigned, write_unsigned, write_fixed_bytes, DlmsData}

-- The 64-bit pattern of an `std::int64_t` between -`half` and `half` - 1.
abbrev pub IsSigned : ℕ → ℕ → Type 0
IsSigned half v = v < half ⊎ (0x1_0000_0000_0000_0000 - half ≤ v) × (v < 0x1_0000_0000_0000_0000)

pub write_unsigned-Writes : (v k : ℕ) → Writes (write_unsigned v k) (be_octets k v)
unfolding write_unsigned be_octets
write_unsigned-Writes v zero = Writes-nothing
write_unsigned-Writes v (suc k) =
    write_u8->> (shift_octets k v % 256) (be_octets k v) (write_unsigned-Writes v k)

-- Of a field that the type of the value holds in `k` octets.
pub read_unsigned-Reads :
    (k v : ℕ)
    → v < 0x1_0000_0000_0000_0000
    → shift_octets k v ≡ 0
    → Reads (read_unsigned k) (be_octets k v) v
unfolding read_unsigned
read_unsigned-Reads k v h e = read_octets-Reads k v h e

pub read_field-Reads :
    (make : ℕ → DlmsData) (k v : ℕ)
    → v < 0x1_0000_0000_0000_0000
    → shift_octets k v ≡ 0
    → Reads (read_unsigned k >>= λ x. pure (make x)) (be_octets k v) (make v)
read_field-Reads make k v h e = rw (append-nil (be_octets k v)) at (
    Reads->>= (λ x. pure (make x)) (be_octets k v) [] v (make v) (read_unsigned-Reads k v h e)
      (Reads-pure (make v)))

pub sign_extend1 : (v : ℕ) → IsSigned 0x80 v → sign_extend (v % 0x100) 1 ≡ v
unfolding sign_extend
sign_extend1 v h = ground arith

pub sign_extend2 : (v : ℕ) → IsSigned 0x8000 v → sign_extend (v % 0x1_0000) 2 ≡ v
unfolding sign_extend
sign_extend2 v h = ground arith

pub sign_extend4 : (v : ℕ) → IsSigned 0x8000_0000 v → sign_extend (v % 0x1_0000_0000) 4 ≡ v
unfolding sign_extend
sign_extend4 v h = ground arith

pub write_fixed_bytes-Writes :
    (xs : Bytes) (n : ℕ) → length xs ≡ n → Writes (write_fixed_bytes (bytes xs) n) xs
unfolding write_fixed_bytes
write_fixed_bytes-Writes xs n e = rw (eq-refl (length xs) n e) (write_bytes-Writes xs)
  where
    eq-refl : (a b : ℕ) → a ≡ b → (a == b) ≡ true
    eq-refl a b e = ground arith
