-- ===== src/Apdu/Axdr/RoundTrip.antt =====
-- axdr.cpp: what is written and what is read.
use dlms.Prelude.{
  ℕ, zero, suc, ◌+◌, ◌/◌, ◌%◌, ◌≤◌, ◌<◌, ◌≡◌, refl, sym, inl, inr, false, ◌||◌, [], ◌∷◌, ◌++◌,
  append-nil, arith, ltb, ◌==◌, if◌then◌else◌, ltb→lt, le→ltb, ltb-false→le, Bool-cases, length,
  length-append, Bytes, bytes,
}
use dlms.Apdu.Types.{invalid_length}
use dlms.Apdu.Reader.{refuse, pure, read_bytes}
use dlms.Apdu.Writer.{◌>>◌, write_u8, write_bytes}
use dlms.Apdu.Octets.{
  octet_count, octets_of, be_octets, octet_count-le, octet_count-fits, octets_of-be_octets,
  length-be_octets, read_octets-Reads, shift_octets,
}
use dlms.Apdu.Wire.{
  Writes, Reads, Reads->>=, Writes->>, Reads-pure, read_u8->>=, write_u8->>, write_u8-Writes,
  write_bytes-Writes, read_bytes-Reads, with_remaining-Writes,
}
use dlms.Apdu.Axdr.{
  axdr_length_encoded_size, read_axdr_length_octets, read_axdr_length, write_axdr_length,
  read_axdr_octet_string, write_axdr_octet_string,
}

abbrev pub axdr_length_bytes : ℕ → Bytes
axdr_length_bytes n =
    if ltb n 0x80 then n ∷ [] else (0x80 + octet_count 8 n) ∷ be_octets (octet_count 8 n) n

pub length-axdr_length_bytes : (n : ℕ) → length (axdr_length_bytes n) ≡ axdr_length_encoded_size n
unfolding axdr_length_encoded_size
length-axdr_length_bytes n = ground (arith, length-be_octets (octet_count 8 n) n)

write_long_length-Writes :
    (n : ℕ)
    → Writes
        (write_u8 (0x80 + octet_count 8 n) >> write_bytes (bytes (octets_of 8 n [])))
        ((0x80 + octet_count 8 n) ∷ be_octets (octet_count 8 n) n)
write_long_length-Writes n = write_u8->> (0x80 + octet_count 8 n) (be_octets (octet_count 8 n) n) (
    rw (octets_of-be_octets 8 n [], append-nil (be_octets (octet_count 8 n) n))
      (write_bytes-Writes (be_octets (octet_count 8 n) n)))

write_any_length-Writes :
    (n : ℕ)
    → Writes
        (if ltb n 0x80
          then write_u8 n
          else (write_u8 (0x80 + octet_count 8 n) >> write_bytes (bytes (octets_of 8 n []))))
        (axdr_length_bytes n)
write_any_length-Writes n = elim (Bool-cases (ltb n 0x80)) [
  | inl small ↦ rw small (write_u8-Writes n)
  | inr large ↦ rw large (write_long_length-Writes n)
]

pub write_axdr_length-Writes : (n : ℕ) → Writes (write_axdr_length n) (axdr_length_bytes n)
unfolding write_axdr_length
write_axdr_length-Writes n =
    with_remaining-Writes (axdr_length_encoded_size n) (axdr_length_bytes n)
      (sym (length-axdr_length_bytes n)) (write_any_length-Writes n)

read_short_length-Reads : (n : ℕ) → n < 0x80 → Reads (read_axdr_length_octets n) [] n
unfolding read_axdr_length_octets
read_short_length-Reads n h = record { law = λ rest. ground arith }

read_long_length-Reads :
    (k n : ℕ)
    → k ≤ 8
    → 0x80 ≤ n
    → n < 0x1_0000_0000_0000_0000
    → shift_octets k n ≡ 0
    → Reads (read_axdr_length_octets (0x80 + k)) (be_octets k n) n
unfolding read_axdr_length_octets shift_octets
read_long_length-Reads zero n h large small e = absurd (omega arith)
read_long_length-Reads (suc k) n h large small e =
    rw (is_long (suc k) h, octet_bits (suc k) h, in_range k h)
      (rw (append-nil (be_octets (suc k) n)) at (
        Reads->>= (λ result. if ltb result 0x80 then refuse invalid_length else pure result)
          (be_octets (suc k) n) [] n n (read_octets-Reads (suc k) n small e)
          (rw (le→ltb n 0x80 large) (Reads-pure n))))
  where
    is_long : (m : ℕ) → m ≤ 8 → ((0x80 + m) / 128 % 2 == 0) ≡ false
    is_long m h = ground arith

    octet_bits : (m : ℕ) → m ≤ 8 → (0x80 + m) % 128 ≡ m
    octet_bits m h = omega arith

    in_range : (m : ℕ) → suc m ≤ 8 → (suc m == 0 || ltb 8 (suc m)) ≡ false
    in_range m h = ground arith

pub read_axdr_length-Reads :
    (n : ℕ) → n < 0x1_0000_0000_0000_0000 → Reads read_axdr_length (axdr_length_bytes n) n
unfolding read_axdr_length
read_axdr_length-Reads n h = elim (Bool-cases (ltb n 0x80)) [
  | inl small ↦
      rw small
        (read_u8->>= read_axdr_length_octets n [] n (read_short_length-Reads n (ltb→lt _ _ small)))
  | inr large ↦ rw large (
      read_u8->>= read_axdr_length_octets (0x80 + octet_count 8 n) (be_octets (octet_count 8 n) n) n
        (read_long_length-Reads (octet_count 8 n) n (octet_count-le 8 n) (ltb-false→le _ _ large) h
          (octet_count-fits 8 n (unfold shift_octets in omega arith))))
]

pub write_axdr_octet_string-Writes :
    (xs : Bytes) → Writes (write_axdr_octet_string (bytes xs)) (axdr_length_bytes (length xs) ++ xs)
unfolding write_axdr_octet_string
write_axdr_octet_string-Writes xs =
    with_remaining-Writes (axdr_length_encoded_size (length xs) + length xs) _
      (omega (
        arith,
        length-append (axdr_length_bytes (length xs)) xs,
        length-axdr_length_bytes (length xs),
      ))
      (Writes->> (axdr_length_bytes (length xs)) xs (write_axdr_length-Writes (length xs))
        (write_bytes-Writes xs))

pub read_axdr_octet_string-Reads :
    (xs : Bytes)
    → length xs < 0x1_0000_0000_0000_0000
    → Reads read_axdr_octet_string (axdr_length_bytes (length xs) ++ xs) (bytes xs)
unfolding read_axdr_octet_string
read_axdr_octet_string-Reads xs h =
    Reads->>= read_bytes (axdr_length_bytes (length xs)) xs (length xs) (bytes xs)
      (read_axdr_length-Reads (length xs) h) (read_bytes-Reads (length xs) xs refl)
