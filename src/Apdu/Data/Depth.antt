-- ===== src/Apdu/Data/Depth.antt =====
-- data.cpp: what `DecodeDlmsData` does with a value that nests deeper than its limit.
use dlms.Prelude.{
  ℕ, zero, suc, ◌≤◌, ◌<◌, ◌≡◌, refl, sym, ap, ◌∙◌, inl, inr, true, false, [], ◌∷◌, ◌++◌,
  append_assoc, append-nil, arith, leb, if◌then◌else◌, Bool-cases, done, fail, Bytes, bytes,
  Allocator,
}
use dlms.Apdu.Types.{ApduError, Parser, refused, thrown, invalid_data}
use dlms.Apdu.Reader.{◌>>=◌, pure, read_u8}
use dlms.Apdu.Wire.{Reads, read_u8-Reads}
use dlms.Apdu.Axdr.RoundTrip.{axdr_length_bytes, read_axdr_length-Reads}
use dlms.Apdu.Data.{
  element_count, DlmsData, DlmsElements, null_data, array, structure, boolean, double_long,
  double_long_unsigned, octet_string, integer, long, unsigned, long_unsigned, long64,
  long64_unsigned, enumerated, date_time, date, time, other_type, no_elements, element,
  decode_dlms_data, decode_dlms_data_value, read_tagged, read_element_list, read_elements,
}
use dlms.Apdu.Data.Valid.{
  IsData, IsCountable, AllElements, depth, elements_depth, data_bytes, elements_bytes,
}
use dlms.Apdu.Data.Laws.{decode_dlms_data-Reads, decode_whole}

-- `p` fails on the bytes `enc`, whatever follows them.
record Fails {A : Type 0} (p : Parser A) (enc : Bytes) (e : ApduError) : Type 0 where
  law : (rest : Bytes) → p (bytes (enc ++ rest)) ≡ fail e

Fails->>= :
    {A B : Type 0} {p : Parser A} (f : A → Parser B) (enc : Bytes) (e : ApduError)
    → Fails p enc e
    → Fails (p >>= f) enc e
unfolding ◌>>=◌
Fails->>= f enc e h = record { law = λ rest. rw (h.law rest, ◌>>=◌) refl }

Fails-append :
    {A : Type 0} {p : Parser A} (a b : Bytes) (e : ApduError) → Fails p a e → Fails p (a ++ b) e
Fails-append a b e h = record { law = λ rest. rw (append_assoc a b rest) (h.law (b ++ rest)) }

Reads-Fails :
    {A B : Type 0} {p : Parser A} (f : A → Parser B) (a b : Bytes) (x : A) (e : ApduError)
    → Reads p a x
    → Fails (f x) b e
    → Fails (p >>= f) (a ++ b) e
unfolding ◌>>=◌
Reads-Fails f a b x e hp hf = record {
  law = λ rest. rw (append_assoc a b rest, hp.law (b ++ rest), ◌>>=◌) (hf.law rest);
}

read_u8-Fails :
    {B : Type 0} (f : ℕ → Parser B) (v : ℕ) (b : Bytes) (e : ApduError)
    → Fails (f v) b e
    → Fails (read_u8 >>= f) (v ∷ b) e
read_u8-Fails f v b e hf = Reads-Fails f (v ∷ []) b v e (read_u8-Reads v) hf

list-Fails :
    (make : DlmsElements → DlmsData) (alloc : Allocator) (read : Parser DlmsData)
    (ds : DlmsElements) (e : ApduError)
    → ((n : ℕ) → alloc n ≡ true)
    → IsCountable ds
    → Fails (read_elements read (element_count ds)) (elements_bytes ds) e
    → Fails
        (read_element_list alloc read >>= λ x. pure (make x))
        (axdr_length_bytes (element_count ds) ++ elements_bytes ds)
        e
unfolding read_element_list
list-Fails make alloc read ds e all h hd =
    Fails->>= (λ x. pure (make x)) _ e
      (Reads-Fails (λ n. if alloc n then read_elements read n else (λ s. fail thrown))
        (axdr_length_bytes (element_count ds)) (elements_bytes ds) (element_count ds) e
        (read_axdr_length-Reads (element_count ds) h) (rw (all (element_count ds)) hd))

first-Fails :
    (d : DlmsData) (ds : DlmsElements) (read : Parser DlmsData) (e : ApduError)
    → Fails read (data_bytes d) e
    → Fails (read_elements read (suc (element_count ds))) (data_bytes d ++ elements_bytes ds) e
unfolding read_elements
first-Fails d ds read e hd = Fails->>= _ _ e (Fails-append (data_bytes d) (elements_bytes ds) e hd)

later-Fails :
    (d : DlmsData) (ds : DlmsElements) (read : Parser DlmsData) (e : ApduError)
    → Reads read (data_bytes d) d
    → Fails (read_elements read (element_count ds)) (elements_bytes ds) e
    → Fails (read_elements read (suc (element_count ds))) (data_bytes d ++ elements_bytes ds) e
unfolding read_elements
later-Fails d ds read e hd hds =
    Reads-Fails (λ x. read_elements read (element_count ds) >>= λ xs. pure (element x xs))
      (data_bytes d) (elements_bytes ds) d e hd
      (Fails->>= (λ xs. pure (element d xs)) (elements_bytes ds) e hds)

none_left : {A : Type 0} (n : ℕ) → suc n < 1 → A
none_left n h = absurd (omega (arith, h))

in_rest :
    (m : ℕ) (d : DlmsData) (ds : DlmsElements)
    → m < elements_depth (element d ds)
    → leb (depth d) m ≡ true
    → m < elements_depth ds
unfolding depth
in_rest m d ds h e = ground arith

within : (m n : ℕ) → leb n m ≡ true → n ≤ m
within m n e = ground arith

above : (m n : ℕ) → leb n m ≡ false → m < n
above m n e = ground arith

mutual
  unfolding decode_dlms_data_value read_tagged element_count data_bytes IsData depth

  value-Fails :
      (alloc : Allocator)
      → ((n : ℕ) → alloc n ≡ true)
      → (d : DlmsData) (m : ℕ) → IsData d
      → m < depth d
      → Fails (decode_dlms_data_value alloc m) (data_bytes d) (refused invalid_data)
  value-Fails alloc all d zero h deep = record { law = λ rest. refl }
  value-Fails alloc all null_data (suc m) h deep = none_left m deep
  value-Fails alloc all (array ds) (suc m) h deep = read_u8-Fails _ 0x01 _ _ (
      list-Fails array alloc _ ds _ all h.0
        (elements-Fails alloc all ds m h.1 (omega (arith, deep))))
  value-Fails alloc all (structure ds) (suc m) h deep = read_u8-Fails _ 0x02 _ _ (
      list-Fails structure alloc _ ds _ all h.0
        (elements-Fails alloc all ds m h.1 (omega (arith, deep))))
  value-Fails alloc all (boolean b) (suc m) h deep = none_left m deep
  value-Fails alloc all (double_long v) (suc m) h deep = none_left m deep
  value-Fails alloc all (double_long_unsigned v) (suc m) h deep = none_left m deep
  value-Fails alloc all (octet_string v) (suc m) h deep = none_left m deep
  value-Fails alloc all (integer v) (suc m) h deep = none_left m deep
  value-Fails alloc all (long v) (suc m) h deep = none_left m deep
  value-Fails alloc all (unsigned v) (suc m) h deep = none_left m deep
  value-Fails alloc all (long_unsigned v) (suc m) h deep = none_left m deep
  value-Fails alloc all (long64 v) (suc m) h deep = none_left m deep
  value-Fails alloc all (long64_unsigned v) (suc m) h deep = none_left m deep
  value-Fails alloc all (enumerated v) (suc m) h deep = none_left m deep
  value-Fails alloc all (date_time v) (suc m) h deep = none_left m deep
  value-Fails alloc all (date v) (suc m) h deep = none_left m deep
  value-Fails alloc all (time v) (suc m) h deep = none_left m deep
  value-Fails alloc all (other_type tag) (suc m) h deep = absurd h

  elements-Fails :
      (alloc : Allocator)
      → ((n : ℕ) → alloc n ≡ true)
      → (ds : DlmsElements) (m : ℕ) → AllElements ds
      → m < elements_depth ds
      → Fails
          (read_elements (decode_dlms_data_value alloc m) (element_count ds))
          (elements_bytes ds)
          (refused invalid_data)
  elements-Fails alloc all no_elements m h deep = absurd (omega (arith, deep))
  elements-Fails alloc all (element d ds) m h deep = elim (Bool-cases (leb (depth d) m)) [
    | inl e ↦
        later-Fails d ds _ _ (decode_dlms_data-Reads alloc all d m h.0 (within m (depth d) e))
          (elements-Fails alloc all ds m h.1 (in_rest m d ds deep e))
    | inr e ↦ first-Fails d ds _ _ (value-Fails alloc all d m h.0 (above m (depth d) e))
  ]

too_deep :
    (alloc : Allocator) (d : DlmsData) (maximum : ℕ)
    → Fails (decode_dlms_data_value alloc maximum) (data_bytes d) (refused invalid_data)
    → decode_dlms_data alloc (bytes (data_bytes d)) maximum ≡ fail (refused invalid_data)
unfolding decode_dlms_data ◌>>=◌
too_deep alloc d maximum f =
    rw
      (sym (ap (λ xs. decode_dlms_data_value alloc maximum (bytes xs)) (append-nil (data_bytes d)))
        ∙ f.law [])
      refl

-- From the bytes of a value of one of the known types with its field in range, where no `reserve`
-- is refused, `DecodeDlmsData` gives the value where it nests no deeper than `maximumDepth`, and
-- else returns InvalidData.
pub decode_dlms_data-depth :
    (alloc : Allocator) (d : DlmsData) (maximum : ℕ)
    → ((n : ℕ) → alloc n ≡ true)
    → IsData d
    → decode_dlms_data alloc (bytes (data_bytes d)) maximum
      ≡ (if leb (depth d) maximum then done d else fail (refused invalid_data))
decode_dlms_data-depth alloc d maximum all h = elim (Bool-cases (leb (depth d) maximum)) [
  | inl e ↦ rw e (
      decode_whole alloc d maximum
        (decode_dlms_data-Reads alloc all d maximum h (within maximum (depth d) e)))
  | inr e ↦
      rw e
        (too_deep alloc d maximum (value-Fails alloc all d maximum h (above maximum (depth d) e)))
]
