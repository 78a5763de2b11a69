-- ===== src/Apdu/Ber/Laws.antt =====
-- ber.cpp: a tag-length-value through the writer and the reader, and what the validation accepts.
use dlms.Prelude.{
  ℕ, zero, suc, ◌%◌, ◌≤◌, ◌<◌, ◌≡◌, refl, sym, ◌∙◌, ◌≢◌, Bool, true, false, [], ◌++◌, arith, leb,
  ◌==◌, if◌then◌else◌, le→ltb, length, drop, length-append, Result, done, fail, Bytes, Span, bytes,
}
use dlms.Apdu.Types.{ApduError, refused, invalid_ber}
use dlms.Apdu.Reader.{is_empty}
use dlms.Apdu.Writer.{new_writer}
use dlms.Apdu.Wire.{at_end}
use dlms.Apdu.Axdr.RoundTrip.{axdr_length_bytes}
use dlms.Apdu.Ber.{
  read_ber_tlv, write_ber_tlv, validate_ber_reader, validate_ber_tlv, ber_tag_is_constructed,
  if_done,
}
use dlms.Apdu.Ber.RoundTrip.{tlv_bytes, tlv_of, write_ber_tlv-Writes, read_ber_tlv-Reads}

-- A value with a tag number below 31, of fewer than 2^64 bytes, is written into any buffer with
-- room for it, and read back with its tag, its bytes and the size of its header, whatever follows.
pub read_ber_tlv-write_ber_tlv :
    (tag : ℕ) (value xs rest : Bytes)
    → tag % 32 ≢ 31
    → length value < 0x1_0000_0000_0000_0000
    → length (tlv_bytes tag value) ≤ length xs
    → (write_ber_tlv tag (bytes value) (new_writer (bytes xs))
        ≡ done (at_end (tlv_bytes tag value) (drop (length (tlv_bytes tag value)) xs)))
      × (read_ber_tlv (bytes (tlv_bytes tag value ++ rest)) ≡ done (tlv_of tag value, bytes rest))
read_ber_tlv-write_ber_tlv tag value xs rest low h room = (
  (write_ber_tlv-Writes tag value low).law [] xs
      ∙ rw (le→ltb (length xs) (length (tlv_bytes tag value)) room) refl,
  (read_ber_tlv-Reads tag value low h).law rest,
)

-- A sequence of values, of which the constructed ones hold such a sequence.
pub data BerForest : Type 0 where
  no_values : BerForest
  primitive : ℕ → Bytes → BerForest → BerForest
  constructed : ℕ → BerForest → BerForest → BerForest

unfoldable pub forest_bytes : BerForest → Bytes
forest_bytes no_values = []
forest_bytes (primitive tag xs f) = tlv_bytes tag xs ++ forest_bytes f
forest_bytes (constructed tag c f) = tlv_bytes tag (forest_bytes c) ++ forest_bytes f

-- How deep the constructed values nest.
unfoldable pub forest_depth : BerForest → ℕ
forest_depth no_values = 0
forest_depth (primitive tag xs f) = forest_depth f
forest_depth (constructed tag c f) =
    let others = forest_depth f in
    if leb (suc (forest_depth c)) others then others else suc (forest_depth c)

unfoldable pub IsForest : BerForest → Type 0
IsForest no_values = Unit
IsForest (primitive tag xs f) =
    (ber_tag_is_constructed tag ≡ false)
    × (tag % 32 ≢ 31)
    × (length xs < 0x1_0000_0000_0000_0000)
    × IsForest f
IsForest (constructed tag c f) =
    (ber_tag_is_constructed tag ≡ true)
    × (tag % 32 ≢ 31)
    × (length (forest_bytes c) < 0x1_0000_0000_0000_0000)
    × IsForest c
    × IsForest f

abbrev verdict : Bool → Result ApduError (Unit {0})
verdict ok = if ok then done tt else fail (refused invalid_ber)

-- What `ValidateBerReader` does with the value of a constructed tag.
unfoldable child_of : ℕ → Span → Result ApduError (Unit {0})
child_of zero value = fail (refused invalid_ber)
child_of (suc depth) value = validate_ber_tlv value depth

validate-child_of :
    (m : ℕ) (xs : Bytes)
    → validate_ber_tlv (bytes xs) m ≡ validate_ber_reader (child_of m) (length xs) (bytes xs)
unfolding validate_ber_tlv child_of
validate-child_of zero xs = refl
validate-child_of (suc m) xs = refl

some_left : (n : ℕ) → (suc n == 0) ≡ false
some_left n = ground arith

validate-tlv :
    (child : Span → Result ApduError (Unit {0})) (fuel tag : ℕ) (xs rest : Bytes)
    → tag % 32 ≢ 31
    → length xs < 0x1_0000_0000_0000_0000
    → validate_ber_reader child (suc fuel) (bytes (tlv_bytes tag xs ++ rest))
      ≡ if_done
          (if ber_tag_is_constructed tag then child (bytes xs) else done tt)
          (validate_ber_reader child fuel (bytes rest))
unfolding validate_ber_reader is_empty
validate-tlv child fuel tag xs rest low h =
    rw
      (
        some_left (length ((axdr_length_bytes (length xs) ++ xs) ++ rest)),
        (read_ber_tlv-Reads tag xs low h).law rest,
      )
      refl

tlv_shrinks :
    (tag fuel : ℕ) (xs rest : Bytes)
    → length (tlv_bytes tag xs ++ rest) ≤ suc fuel
    → length rest ≤ fuel
tlv_shrinks tag fuel xs rest h = omega (arith, length-append (tlv_bytes tag xs) rest, h)

tlv_takes : (tag : ℕ) (xs rest : Bytes) → length (tlv_bytes tag xs ++ rest) ≤ 0 → ⊥
tlv_takes tag xs rest h = omega (arith, h)

depth_zero : (m : ℕ) → leb 0 m ≡ true
depth_zero m = ground arith

no_fuel : (m fuel : ℕ) → validate_ber_reader (child_of m) fuel (bytes []) ≡ done tt
unfolding validate_ber_reader is_empty
no_fuel m zero = refl
no_fuel m (suc fuel) = refl

merge :
    (c f m : ℕ)
    → if_done (verdict (leb c m)) (verdict (leb f (suc m)))
      ≡ verdict (leb (if leb (suc c) f then f else suc c) (suc m))
unfolding if_done
merge c f m = ground arith

merge_zero :
    (c f : ℕ) → verdict (leb (if leb (suc c) f then f else suc c) 0) ≡ fail (refused invalid_ber)
merge_zero c f = ground arith

validate-forest :
    (f : BerForest) (m fuel : ℕ)
    → IsForest f
    → length (forest_bytes f) ≤ fuel
    → validate_ber_reader (child_of m) fuel (bytes (forest_bytes f))
      ≡ verdict (leb (forest_depth f) m)
unfolding forest_bytes forest_depth IsForest if_done child_of
validate-forest no_values m fuel h le = no_fuel m fuel ∙ sym (rw (depth_zero m) refl)
validate-forest (primitive tag xs f) m zero h le = absurd (tlv_takes tag xs (forest_bytes f) le)
validate-forest (primitive tag xs f) m (suc fuel) h le =
    validate-tlv (child_of m) fuel tag xs (forest_bytes f) h.1 h.2
    ∙ rw h.0 (validate-forest f m fuel h.3 (tlv_shrinks tag fuel xs (forest_bytes f) le))
validate-forest (constructed tag c f) m zero h le =
    absurd (tlv_takes tag (forest_bytes c) (forest_bytes f) le)
validate-forest (constructed tag c f) zero (suc fuel) h le =
    validate-tlv (child_of zero) fuel tag (forest_bytes c) (forest_bytes f) h.1 h.2
    ∙ rw h.0 (sym (merge_zero (forest_depth c) (forest_depth f)))
validate-forest (constructed tag c f) (suc m) (suc fuel) h le =
    validate-tlv (child_of (suc m)) fuel tag (forest_bytes c) (forest_bytes f) h.1 h.2
    ∙ rw
        (
          h.0,
          validate-child_of m (forest_bytes c),
          validate-forest c m (length (forest_bytes c)) h.3 (omega arith),
          validate-forest f (suc m) fuel h.4
              (tlv_shrinks tag fuel (forest_bytes c) (forest_bytes f) le),
        )
        (merge (forest_depth c) (forest_depth f) m)

-- `ValidateBerTlv` on a sequence of values, primitive and constructed, whose tag numbers are below
-- 31 and whose lengths are below 2^64: it accepts the sequence where its constructed values nest
-- no deeper than `maximumDepth`, and else returns InvalidBer.
pub validate_ber_tlv-forest_bytes :
    (f : BerForest) (maximum_depth : ℕ)
    → IsForest f
    → validate_ber_tlv (bytes (forest_bytes f)) maximum_depth
      ≡ (if leb (forest_depth f) maximum_depth then done tt else fail (refused invalid_ber))
validate_ber_tlv-forest_bytes f m h =
    validate-child_of m (forest_bytes f)
    ∙ validate-forest f m (length (forest_bytes f)) h (omega arith)
