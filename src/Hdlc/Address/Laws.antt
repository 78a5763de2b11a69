-- ===== src/Hdlc/Address/Laws.antt =====
-- hdlc_address.cpp: what `FromRaw` and `FromBytes` build, and the round trip with `Encode`.
use dlms.Prelude.{
  ℕ, zero, suc, ◌+◌, ◌*◌, ◌/◌, ◌%◌, ◌≤◌, ◌<◌, ◌≡◌, refl, ap, ◌≢◌, ◌↔◌, ◌⊎◌, [], ◌∷◌, ◌++◌, arith,
  length, done, Bytes, bytes, size,
}
use dlms.Hdlc.Types.{HdlcAddress}
use dlms.Hdlc.Address.{
  from_bytes_loop, from_bytes, from_raw, encode_loop, encode_address, maximum_raw_value,
}

-- One, two or four groups of seven bits.
abbrev pub IsAddress : HdlcAddress → Type 0
IsAddress a =
    ((a.encoded_size ≡ 1) × (a.raw_value < 128))
    ⊎ (((a.encoded_size ≡ 2) × (a.raw_value < 16384))
        ⊎ ((a.encoded_size ≡ 4) × (a.raw_value < 268435456)))

pub maximum_raw_value-at :
    (maximum_raw_value 1 ≡ 127) × (maximum_raw_value 2 ≡ 16383) × (maximum_raw_value 4 ≡ 268435455)
unfolding maximum_raw_value
maximum_raw_value-at = (refl, refl, refl)

-- `FromRaw` succeeds exactly on the addresses, and takes its arguments over.
pub from_raw-IsAddress :
    (raw n : ℕ) (a : HdlcAddress)
    → (from_raw raw n ≡ done a) ↔ (IsAddress a × (raw ≡ a.raw_value) × (n ≡ a.encoded_size))
unfolding from_raw
from_raw-IsAddress raw n a = (
  λ e. ground (
    arith,
    maximum_raw_value-at,
    ap maximum_raw_value {x = n} {y = 1},
    ap maximum_raw_value {x = n} {y = 2},
    ap maximum_raw_value {x = n} {y = 4},
  ),
  λ v. ground (
    arith,
    maximum_raw_value-at,
    ap maximum_raw_value {x = n} {y = 1},
    ap maximum_raw_value {x = n} {y = 2},
    ap maximum_raw_value {x = n} {y = 4},
  ),
)

-- The loop of `FromBytes` from each of its rounds on.
loop4 :
    (size raw n : ℕ) (xs : Bytes) (a : HdlcAddress) → from_bytes_loop size xs 4 raw ≢ done (a, n)
unfolding from_bytes_loop
loop4 size raw n [] a e = cc
loop4 size raw n (x ∷ xs) a e = ground arith

loop3 :
    (size raw n : ℕ) (xs : Bytes) (a : HdlcAddress)
    → raw < 2097152
    → from_bytes_loop size xs 3 raw ≡ done (a, n)
    → IsAddress a × (n ≡ a.encoded_size) × (n ≡ 4) × (1 ≤ length xs)
unfolding from_bytes_loop
loop3 size raw n [] a h e = cc
loop3 size raw n (x ∷ xs) a h e =
    ground (arith, loop4 size ((raw * 128 + x / 2 % 128) % 4294967296) n xs a)

loop2 :
    (size raw n : ℕ) (xs : Bytes) (a : HdlcAddress)
    → raw < 16384
    → from_bytes_loop size xs 2 raw ≡ done (a, n)
    → IsAddress a × (n ≡ a.encoded_size) × (n ≡ 4) × (2 ≤ length xs)
unfolding from_bytes_loop
loop2 size raw n [] a h e = cc
loop2 size raw n (x ∷ xs) a h e =
    ground (arith, loop3 size ((raw * 128 + x / 2 % 128) % 4294967296) n xs a)

loop1 :
    (size raw n : ℕ) (xs : Bytes) (a : HdlcAddress)
    → raw < 128
    → from_bytes_loop size xs 1 raw ≡ done (a, n)
    → IsAddress a × (n ≡ a.encoded_size) × (2 ≤ n) × (n ≤ suc (length xs))
unfolding from_bytes_loop
loop1 size raw n [] a h e = cc
loop1 size raw n (x ∷ xs) a h e =
    ground (arith, loop2 size ((raw * 128 + x / 2 % 128) % 4294967296) n xs a)

-- `FromBytes` builds addresses only, and takes the bytes of the address from its input.
pub from_bytes-IsAddress :
    (input : Bytes) (a : HdlcAddress) (n : ℕ)
    → from_bytes (bytes input) ≡ done (a, n)
    → IsAddress a × (n ≡ a.encoded_size) × (n ≤ length input)
unfolding from_bytes
from_bytes-IsAddress [] a n e = cc
from_bytes-IsAddress (x ∷ xs) a n e =
    ground (arith, loop1 (length (x ∷ xs)) ((0 * 128 + x / 2 % 128) % 4294967296) n xs a)

from_bytes-encode1 :
    (raw : ℕ) (rest : Bytes)
    → raw < 128
    → from_bytes (bytes (encode_loop 1 raw ++ rest))
      ≡ done (record { raw_value = raw; encoded_size = 1 }, 1)
unfolding from_bytes encode_loop
from_bytes-encode1 raw rest h = ground arith

from_bytes-encode2 :
    (raw : ℕ) (rest : Bytes)
    → raw < 16384
    → from_bytes (bytes (encode_loop 2 raw ++ rest))
      ≡ done (record { raw_value = raw; encoded_size = 2 }, 2)
unfolding from_bytes encode_loop
from_bytes-encode2 raw rest h = ground arith

from_bytes-encode4 :
    (raw : ℕ) (rest : Bytes)
    → raw < 268435456
    → from_bytes (bytes (encode_loop 4 raw ++ rest))
      ≡ done (record { raw_value = raw; encoded_size = 4 }, 4)
unfolding from_bytes encode_loop
from_bytes-encode4 raw rest h = ground arith

-- `FromBytes` reads back the address that `Encode` wrote, whatever follows it, and consumes just its
-- bytes; this for every address of the supported sizes and an output with room for it.
pub from_bytes-encode_address :
    (a : HdlcAddress) (output w rest : Bytes)
    → IsAddress a
    → encode_address a (bytes output) ≡ done w
    → from_bytes (bytes (w ++ rest)) ≡ done (a, a.encoded_size)
unfolding encode_address
from_bytes-encode_address a output w rest v e = ground (
  arith,
  from_bytes-encode1 a.raw_value rest,
  from_bytes-encode2 a.raw_value rest,
  from_bytes-encode4 a.raw_value rest,
)

pub length-encode_loop : (k raw : ℕ) → length (encode_loop k raw) ≡ k
unfolding encode_loop
length-encode_loop zero raw = refl
length-encode_loop (suc k) raw = ap suc (length-encode_loop k raw)
