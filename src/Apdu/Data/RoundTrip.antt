-- ===== src/Apdu/Data/RoundTrip.antt =====
-- data.cpp: what is written and what is read.
use dlms.Prelude.{
  ℕ, zero, suc, ◌%◌, ◌≤◌, ◌<◌, ◌≡◌, refl, sym, ap, Bool, true, false, [], ◌∷◌, ◌++◌, append-nil,
  arith, if◌then◌else◌, fail, Bytes, Span, null, bytes, Allocator,
}
use dlms.Apdu.Octets.{be_octets, shift_octets}
use dlms.Apdu.Types.{thrown, Parser}
use dlms.Apdu.Reader.{pure, ◌>>=◌, read_u8}
use dlms.Apdu.Wire.{
  Reads, Writes, Reads->>=, Writes->>, Reads-pure, write_u8->>, write_u8-Writes, read_u8->>=,
  read_bytes-Reads, Writes-nothing,
}
use dlms.Apdu.Axdr.{write_axdr_boolean, read_axdr_boolean}
use dlms.Apdu.Axdr.RoundTrip.{
  axdr_length_bytes, write_axdr_length-Writes, read_axdr_length-Reads,
  write_axdr_octet_string-Writes, read_axdr_octet_string-Reads,
}
use dlms.Apdu.Data.{
  element_count, DlmsData, DlmsElements, null_data, array, structure, boolean, double_long,
  double_long_unsigned, octet_string, integer, long, unsigned, long_unsigned, long64,
  long64_unsigned, enumerated, date_time, date, time, other_type, no_elements, element,
  encode_dlms_data, encode_elements, decode_dlms_data_value, read_tagged, read_element_list,
  read_elements, sign_extend, read_unsigned,
}
use dlms.Apdu.Data.Octets.{
  write_unsigned-Writes, read_field-Reads, sign_extend1, sign_extend2, sign_extend4,
  write_fixed_bytes-Writes,
}
use dlms.Apdu.Data.Valid.{
  IsView, IsOctets, IsData, AllElements, depth, elements_depth, data_bytes, elements_bytes,
  IsCountable,
}

mutual
  unfolding encode_dlms_data data_bytes IsData IsView IsOctets write_axdr_boolean

  pub encode_dlms_data-Writes :
      (d : DlmsData) → IsData d → Writes (encode_dlms_data d) (data_bytes d)
  encode_dlms_data-Writes null_data h = write_u8-Writes 0x00
  encode_dlms_data-Writes (array ds) h =
      write_u8->> _ _ (Writes->> _ _ (write_axdr_length-Writes _) (encode_elements-Writes ds h.1))
  encode_dlms_data-Writes (structure ds) h =
      write_u8->> _ _ (Writes->> _ _ (write_axdr_length-Writes _) (encode_elements-Writes ds h.1))
  encode_dlms_data-Writes (boolean b) h = write_u8->> _ _ (write_u8-Writes (if b then 1 else 0))
  encode_dlms_data-Writes (double_long v) h = write_u8->> _ _ (write_unsigned-Writes _ 4)
  encode_dlms_data-Writes (double_long_unsigned v) h = write_u8->> _ _ (write_unsigned-Writes v 4)
  encode_dlms_data-Writes (octet_string (null n)) h = absurd h
  encode_dlms_data-Writes (octet_string (bytes xs)) h =
      write_u8->> _ _ (write_axdr_octet_string-Writes xs)
  encode_dlms_data-Writes (integer v) h = write_u8->> _ _ (write_unsigned-Writes _ 1)
  encode_dlms_data-Writes (long v) h = write_u8->> _ _ (write_unsigned-Writes _ 2)
  encode_dlms_data-Writes (unsigned v) h = write_u8->> _ _ (write_unsigned-Writes v 1)
  encode_dlms_data-Writes (long_unsigned v) h = write_u8->> _ _ (write_unsigned-Writes v 2)
  encode_dlms_data-Writes (long64 v) h = write_u8->> _ _ (write_unsigned-Writes v 8)
  encode_dlms_data-Writes (long64_unsigned v) h = write_u8->> _ _ (write_unsigned-Writes v 8)
  encode_dlms_data-Writes (enumerated v) h = write_u8->> _ _ (write_unsigned-Writes v 1)
  encode_dlms_data-Writes (date_time (null n)) h = absurd h
  encode_dlms_data-Writes (date_time (bytes xs)) h =
      write_u8->> _ _ (write_fixed_bytes-Writes xs 12 h)
  encode_dlms_data-Writes (date (null n)) h = absurd h
  encode_dlms_data-Writes (date (bytes xs)) h = write_u8->> _ _ (write_fixed_bytes-Writes xs 5 h)
  encode_dlms_data-Writes (time (null n)) h = absurd h
  encode_dlms_data-Writes (time (bytes xs)) h = write_u8->> _ _ (write_fixed_bytes-Writes xs 4 h)
  encode_dlms_data-Writes (other_type tag) h = absurd h

  encode_elements-Writes :
      (ds : DlmsElements) → AllElements ds → Writes (encode_elements ds) (elements_bytes ds)
  encode_elements-Writes no_elements h = Writes-nothing
  encode_elements-Writes (element d ds) h =
      Writes->> _ _ (encode_dlms_data-Writes d h.0) (encode_elements-Writes ds h.1)

pub depth_positive : (d : DlmsData) → 1 ≤ depth d
unfolding depth
depth_positive null_data = omega arith
depth_positive (array ds) = omega arith
depth_positive (structure ds) = omega arith
depth_positive (boolean b) = omega arith
depth_positive (double_long v) = omega arith
depth_positive (double_long_unsigned v) = omega arith
depth_positive (octet_string v) = omega arith
depth_positive (integer v) = omega arith
depth_positive (long v) = omega arith
depth_positive (unsigned v) = omega arith
depth_positive (long_unsigned v) = omega arith
depth_positive (long64 v) = omega arith
depth_positive (long64_unsigned v) = omega arith
depth_positive (enumerated v) = omega arith
depth_positive (date_time v) = omega arith
depth_positive (date v) = omega arith
depth_positive (time v) = omega arith
depth_positive (other_type tag) = omega arith

depth_le :
    (d : DlmsData) (ds : DlmsElements)
    → (depth d ≤ elements_depth (element d ds))
      × (elements_depth ds ≤ elements_depth (element d ds))
unfolding depth
depth_le d ds = ground arith

read_list-Reads :
    (make : DlmsElements → DlmsData) (alloc : Allocator) (read : Parser DlmsData)
    (ds : DlmsElements)
    → ((n : ℕ) → alloc n ≡ true)
    → IsCountable ds
    → Reads (read_elements read (element_count ds)) (elements_bytes ds) ds
    → Reads
        (read_element_list alloc read >>= λ x. pure (make x))
        (axdr_length_bytes (element_count ds) ++ elements_bytes ds)
        (make ds)
unfolding read_element_list
read_list-Reads make alloc read ds all h hd =
    rw (append-nil (axdr_length_bytes (element_count ds) ++ elements_bytes ds)) at (
      Reads->>= (λ x. pure (make x)) _ [] ds (make ds)
        (Reads->>= (λ n. if alloc n then read_elements read n else (λ s. fail thrown))
          (axdr_length_bytes (element_count ds)) (elements_bytes ds) (element_count ds) ds
          (read_axdr_length-Reads (element_count ds) h) (rw (all (element_count ds)) hd))
        (Reads-pure (make ds)))

-- A reader of a view whose result is kept as it is.
read_view-Reads :
    (make : Span → DlmsData) {p : Parser Span} (enc : Bytes) (xs : Bytes)
    → Reads p enc (bytes xs)
    → Reads (p >>= λ x. pure (make x)) enc (make (bytes xs))
read_view-Reads make enc xs hp = rw (append-nil enc) at (
    Reads->>= (λ x. pure (make x)) enc [] (bytes xs) (make (bytes xs)) hp
      (Reads-pure (make (bytes xs))))

read_signed-Reads :
    (make : ℕ → DlmsData) (k v x : ℕ)
    → v < 0x1_0000_0000_0000_0000
    → shift_octets k v ≡ 0
    → sign_extend v k ≡ x
    → Reads (read_unsigned k >>= λ y. pure (make (sign_extend y k))) (be_octets k v) (make x)
read_signed-Reads make k v x h e s =
    rw (ap make s) at (read_field-Reads (λ y. make (sign_extend y k)) k v h e)

read_boolean-Reads :
    (b : Bool)
    → Reads (read_axdr_boolean >>= λ x. pure (boolean x)) ((if b then 1 else 0) ∷ []) (boolean b)
unfolding read_axdr_boolean ◌>>=◌ read_u8
read_boolean-Reads true = record { law = λ rest. refl }
read_boolean-Reads false = record { law = λ rest. refl }

read_element-Reads :
    (d : DlmsData) (ds : DlmsElements) (read : Parser DlmsData)
    → Reads read (data_bytes d) d
    → Reads (read_elements read (element_count ds)) (elements_bytes ds) ds
    → Reads
        (read_elements read (suc (element_count ds)))
        (data_bytes d ++ elements_bytes ds)
        (element d ds)
unfolding read_elements
read_element-Reads d ds read hd hds =
    Reads->>= (λ x. read_elements read (element_count ds) >>= λ xs. pure (element x xs))
      (data_bytes d) (elements_bytes ds) d (element d ds) hd
      (rw (append-nil (elements_bytes ds)) at (
        Reads->>= (λ xs. pure (element d xs)) (elements_bytes ds) [] ds (element d ds) hds
          (Reads-pure (element d ds))))

mutual
  unfolding element_count decode_dlms_data_value read_tagged read_elements data_bytes IsData IsView
      IsOctets depth read_axdr_boolean shift_octets

  pub decode_dlms_data_value-Reads :
      (alloc : Allocator)
      → ((n : ℕ) → alloc n ≡ true)
      → (d : DlmsData) (m : ℕ) → IsData d
      → depth d ≤ suc m
      → Reads (decode_dlms_data_value alloc (suc m)) (data_bytes d) d
  decode_dlms_data_value-Reads alloc all null_data m h le =
      read_u8->>= _ 0x00 [] null_data (Reads-pure null_data)
  decode_dlms_data_value-Reads alloc all (array ds) m h le = read_u8->>= _ 0x01 _ (array ds) (
      read_list-Reads array alloc _ ds all h.0
        (read_elements-Reads alloc all ds m h.1 (omega (arith, le))))
  decode_dlms_data_value-Reads alloc all (structure ds) m h le =
      read_u8->>= _ 0x02 _ (structure ds) (
        read_list-Reads structure alloc _ ds all h.0
          (read_elements-Reads alloc all ds m h.1 (omega (arith, le))))
  decode_dlms_data_value-Reads alloc all (boolean true) m h le =
      read_u8->>= _ 0x03 _ (boolean true) (read_boolean-Reads true)
  decode_dlms_data_value-Reads alloc all (boolean false) m h le =
      read_u8->>= _ 0x03 _ (boolean false) (read_boolean-Reads false)
  decode_dlms_data_value-Reads alloc all (double_long v) m h le =
      read_u8->>= _ 0x05 _ (double_long v) (
        read_signed-Reads double_long 4 (v % 0x1_0000_0000) v (omega arith) (omega arith)
          (sign_extend4 v h))
  decode_dlms_data_value-Reads alloc all (double_long_unsigned v) m h le =
      read_u8->>= _ 0x06 _ _
        (read_field-Reads double_long_unsigned 4 v (omega (arith, h)) (omega (arith, h)))
  decode_dlms_data_value-Reads alloc all (octet_string (null n)) m h le = absurd h
  decode_dlms_data_value-Reads alloc all (octet_string (bytes xs)) m h le =
      read_u8->>= _ 0x09 _ _ (read_view-Reads octet_string _ xs (read_axdr_octet_string-Reads xs h))
  decode_dlms_data_value-Reads alloc all (integer v) m h le =
      read_u8->>= _ 0x0f _ (integer v)
        (read_signed-Reads integer 1 (v % 0x100) v (omega arith) (omega arith) (sign_extend1 v h))
  decode_dlms_data_value-Reads alloc all (long v) m h le =
      read_u8->>= _ 0x10 _ (long v)
        (read_signed-Reads long 2 (v % 0x1_0000) v (omega arith) (omega arith) (sign_extend2 v h))
  decode_dlms_data_value-Reads alloc all (unsigned v) m h le =
      read_u8->>= _ 0x11 _ _ (read_field-Reads unsigned 1 v (omega (arith, h)) (omega (arith, h)))
  decode_dlms_data_value-Reads alloc all (long_unsigned v) m h le =
      read_u8->>= _ 0x12 _ _
        (read_field-Reads long_unsigned 2 v (omega (arith, h)) (omega (arith, h)))
  decode_dlms_data_value-Reads alloc all (long64 v) m h le =
      read_u8->>= _ 0x14 _ _ (read_field-Reads long64 8 v h (omega (arith, h)))
  decode_dlms_data_value-Reads alloc all (long64_unsigned v) m h le =
      read_u8->>= _ 0x15 _ _ (read_field-Reads long64_unsigned 8 v h (omega (arith, h)))
  decode_dlms_data_value-Reads alloc all (enumerated v) m h le =
      read_u8->>= _ 0x16 _ _ (read_field-Reads enumerated 1 v (omega (arith, h)) (omega (arith, h)))
  decode_dlms_data_value-Reads alloc all (date_time (null n)) m h le = absurd h
  decode_dlms_data_value-Reads alloc all (date_time (bytes xs)) m h le =
      read_u8->>= _ 0x19 _ _ (read_view-Reads date_time xs xs (read_bytes-Reads 12 xs (sym h)))
  decode_dlms_data_value-Reads alloc all (date (null n)) m h le = absurd h
  decode_dlms_data_value-Reads alloc all (date (bytes xs)) m h le =
      read_u8->>= _ 0x1a _ _ (read_view-Reads date xs xs (read_bytes-Reads 5 xs (sym h)))
  decode_dlms_data_value-Reads alloc all (time (null n)) m h le = absurd h
  decode_dlms_data_value-Reads alloc all (time (bytes xs)) m h le =
      read_u8->>= _ 0x1b _ _ (read_view-Reads time xs xs (read_bytes-Reads 4 xs (sym h)))
  decode_dlms_data_value-Reads alloc all (other_type tag) m h le = absurd h

  read_elements-Reads :
      (alloc : Allocator)
      → ((n : ℕ) → alloc n ≡ true)
      → (ds : DlmsElements) (m : ℕ) → AllElements ds
      → elements_depth ds ≤ m
      → Reads
          (read_elements (decode_dlms_data_value alloc m) (element_count ds))
          (elements_bytes ds)
          ds
  read_elements-Reads alloc all no_elements m h le = Reads-pure no_elements
  read_elements-Reads alloc all (element d ds) zero h le =
      absurd (omega (arith, depth_positive d, depth_le d ds, le))
  read_elements-Reads alloc all (element d ds) (suc m) h le =
      read_element-Reads d ds _
        (decode_dlms_data_value-Reads alloc all d m h.0 (omega (arith, depth_le d ds, le)))
        (read_elements-Reads alloc all ds (suc m) h.1 (omega (arith, depth_le d ds, le)))
