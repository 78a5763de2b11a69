-- ===== src/Apdu/Ber/RoundTrip.antt =====
-- ber.cpp: what is written and what is read.
use dlms.Prelude.{
  ℕ, zero, suc, ◌+◌, ◌-◌, ◌/◌, ◌%◌, ◌≤◌, ◌<◌, ◌≡◌, refl, ap, ◌∙◌, ◌≢◌, inl, inr, false, [], ◌∷◌,
  ◌++◌, append_assoc, append-nil, arith, ltb, ◌==◌, if◌then◌else◌, ltb→lt, le→ltb, ltb-false→le,
  Bool-cases, length, length-append, done, Bytes, bytes,
}
use dlms.Apdu.Types.{invalid_length}
use dlms.Apdu.Reader.{pure, refuse, read_u8, read_bytes}
use dlms.Apdu.Octets.{
  shift_octets, be_octets, octet_count, shift-le, add_up, octet_count-le, octet_count-fits,
}
use dlms.Apdu.Wire.{
  Reads, Writes, Reads->>=, Writes->>, Reads-pure, read_u8->>=, write_u8->>, write_bytes-Writes,
  read_bytes-Reads, with_remaining-Writes, >>=-done, read_u8-Reads,
}
use dlms.Apdu.Axdr.{write_axdr_length, axdr_length_encoded_size}
use dlms.Apdu.Axdr.RoundTrip.{axdr_length_bytes, length-axdr_length_bytes, write_axdr_length-Writes}
use dlms.Apdu.Ber.{
  BerTlv, ber_length_encoded_size, read_length_octets, read_ber_length_octets, read_ber_length,
  write_ber_length, read_ber_value, read_ber_tlv, write_ber_tlv,
}

length-ber_length_bytes : (n : ℕ) → length (axdr_length_bytes n) ≡ ber_length_encoded_size n
unfolding ber_length_encoded_size axdr_length_encoded_size
length-ber_length_bytes n = length-axdr_length_bytes n

pub write_ber_length-Writes : (n : ℕ) → Writes (write_ber_length n) (axdr_length_bytes n)
unfolding write_ber_length write_axdr_length ber_length_encoded_size axdr_length_encoded_size
write_ber_length-Writes n = write_axdr_length-Writes n

-- The test against overflow holds of no octet of a 64-bit length.
read_length_octets-from :
    (k v : ℕ)
    → v < 0x1_0000_0000_0000_0000
    → Reads (read_length_octets k (shift_octets k v)) (be_octets k v) v
unfolding read_length_octets be_octets shift_octets
read_length_octets-from zero v h = Reads-pure v
read_length_octets-from (suc k) v h =
    read_u8->>= _ (shift_octets k v % 256) (be_octets k v) v
      (rw (in_range, add_up k v h) (read_length_octets-from k v h))
  where
    in_range : ltb 0xff_ffff_ffff_ffff (shift_octets k v / 256) ≡ false
    in_range = le→ltb _ _ (omega (arith, shift-le k v, h))

read_short_length-Reads : (n : ℕ) → n < 128 → Reads (read_ber_length_octets n) [] n
unfolding read_ber_length_octets
read_short_length-Reads n h = record { law = λ rest. ground arith }

read_long_length-Reads :
    (k n : ℕ)
    → k ≤ 8
    → 128 ≤ n
    → n < 0x1_0000_0000_0000_0000
    → shift_octets k n ≡ 0
    → Reads (read_ber_length_octets (0x80 + k)) (be_octets k n) n
unfolding read_ber_length_octets shift_octets
read_long_length-Reads zero n h large small e = absurd (omega arith)
read_long_length-Reads (suc k) n h large small e =
    rw (is_long (suc k) h, octet_bits (suc k) h, in_range k h, some_octets k)
      (rw (append-nil (be_octets (suc k) n)) at (
        Reads->>= (λ result. if ltb result 128 then refuse invalid_length else pure result)
          (be_octets (suc k) n) [] n n (rw e at (read_length_octets-from (suc k) n small))
          (rw (le→ltb n 128 large) (Reads-pure n))))
  where
    is_long : (m : ℕ) → m ≤ 8 → ((0x80 + m) / 128 % 2 == 0) ≡ false
    is_long m h = ground arith

    octet_bits : (m : ℕ) → m ≤ 8 → (0x80 + m) % 128 ≡ m
    octet_bits m h = omega arith

    in_range : (m : ℕ) → suc m ≤ 8 → ltb 8 (suc m) ≡ false
    in_range m h = ground arith

    some_octets : (m : ℕ) → (suc m == 0) ≡ false
    some_octets m = ground arith

pub read_ber_length-Reads :
    (n : ℕ) → n < 0x1_0000_0000_0000_0000 → Reads read_ber_length (axdr_length_bytes n) n
unfolding read_ber_length
read_ber_length-Reads n h = elim (Bool-cases (ltb n 0x80)) [
  | inl small ↦
      rw small
        (read_u8->>= read_ber_length_octets n [] n (read_short_length-Reads n (ltb→lt _ _ small)))
  | inr large ↦ rw large (
      read_u8->>= read_ber_length_octets (0x80 + octet_count 8 n) (be_octets (octet_count 8 n) n) n
        (read_long_length-Reads (octet_count 8 n) n (octet_count-le 8 n) (ltb-false→le _ _ large) h
          (octet_count-fits 8 n (unfold shift_octets in omega arith))))
]

abbrev pub tlv_bytes : ℕ → Bytes → Bytes
tlv_bytes tag xs = tag ∷ axdr_length_bytes (length xs) ++ xs

abbrev pub tlv_of : ℕ → Bytes → BerTlv
tlv_of tag xs = record {
  tag = tag;
  value = bytes xs;
  value_size = length xs;
  header_size = 1 + ber_length_encoded_size (length xs);
}

tag_is_low : (tag : ℕ) → tag % 32 ≢ 31 → (tag % 32 == 31) ≡ false
tag_is_low tag low = ground arith

pub write_ber_tlv-Writes :
    (tag : ℕ) (xs : Bytes)
    → tag % 32 ≢ 31
    → Writes (write_ber_tlv tag (bytes xs)) (tlv_bytes tag xs)
unfolding write_ber_tlv
write_ber_tlv-Writes tag xs low = rw (tag_is_low tag low) (
    with_remaining-Writes (1 + ber_length_encoded_size (length xs) + length xs) _ (tlv_size xs) (
      write_u8->> tag _
        (Writes->> _ xs (write_ber_length-Writes (length xs)) (write_bytes-Writes xs))))
  where
    tlv_size :
        (xs : Bytes)
        → 1 + ber_length_encoded_size (length xs) + length xs
          ≡ suc (length (axdr_length_bytes (length xs) ++ xs))
    tlv_size xs = omega (
      arith,
      length-append (axdr_length_bytes (length xs)) xs,
      length-ber_length_bytes (length xs),
    )

header :
    (enc xs rest : Bytes)
    → length enc ≡ ber_length_encoded_size (length xs)
    → suc (length (enc ++ (xs ++ rest))) - length rest - length xs
      ≡ 1 + ber_length_encoded_size (length xs)
header enc xs rest e = omega (arith, length-append enc (xs ++ rest), length-append xs rest, e)

read_ber_value-Reads :
    (tag : ℕ) (xs rest : Bytes)
    → tag % 32 ≢ 31
    → length xs < 0x1_0000_0000_0000_0000
    → read_ber_value
        (suc (length ((axdr_length_bytes (length xs) ++ xs) ++ rest)))
        tag
        (bytes ((axdr_length_bytes (length xs) ++ xs) ++ rest))
      ≡ done (tlv_of tag xs, bytes rest)
unfolding read_ber_value
read_ber_value-Reads tag xs rest low h =
    rw (tag_is_low tag low, append_assoc (axdr_length_bytes (length xs)) xs rest)
      (>>=-done read_ber_length _ _ _ _ ((read_ber_length-Reads (length xs) h).law (xs ++ rest))
        ∙ >>=-done (read_bytes (length xs)) _ _ _ _
            ((read_bytes-Reads (length xs) xs refl).law rest)
        ∙ ap
            (λ n. done (
              record { tag = tag; value = bytes xs; value_size = length xs; header_size = n },
              bytes rest,
            ))
            (header (axdr_length_bytes (length xs)) xs rest (length-ber_length_bytes (length xs))))

pub read_ber_tlv-Reads :
    (tag : ℕ) (xs : Bytes)
    → tag % 32 ≢ 31
    → length xs < 0x1_0000_0000_0000_0000
    → Reads read_ber_tlv (tlv_bytes tag xs) (tlv_of tag xs)
unfolding read_ber_tlv
read_ber_tlv-Reads tag xs low h = record {
  law = λ rest.
      >>=-done read_u8 _ _ _ _
        ((read_u8-Reads tag).law ((axdr_length_bytes (length xs) ++ xs) ++ rest))
      ∙ read_ber_value-Reads tag xs rest low h;
}
