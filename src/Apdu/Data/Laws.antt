-- ===== src/Apdu/Data/Laws.antt =====
-- data.cpp: a value through `EncodeDlmsData` and `DecodeDlmsData`.
use dlms.Prelude.{
  ℕ, zero, suc, ◌≤◌, ◌<◌, ◌≡◌, refl, sym, ap, ◌∙◌, true, false, [], ◌∷◌, ◌++◌, append-nil, arith,
  le→ltb, length, drop, done, fail, Bytes, bytes, Allocator,
}
use dlms.Apdu.Types.{thrown, Parser}
use dlms.Apdu.Reader.{pure, ◌>>=◌, read_u8, require_no_trailing_bytes}
use dlms.Apdu.Writer.{new_writer}
use dlms.Apdu.Wire.{Reads, at_end, appended}
use dlms.Apdu.Axdr.RoundTrip.{axdr_length_bytes, read_axdr_length-Reads}
use dlms.Apdu.Data.{
  DlmsData, decode_dlms_data, decode_dlms_data_value, encode_dlms_data, read_element_list,
  read_tagged, DlmsElements, array,
}
use dlms.Apdu.Data.Valid.{IsData, depth, data_bytes}
use dlms.Apdu.Data.RoundTrip.{encode_dlms_data-Writes, decode_dlms_data_value-Reads, depth_positive}

-- `EncodeDlmsData` writes just the bytes of the value behind what the writer holds, and returns
-- OutputBufferTooSmall where they do not fit: of a value of one of the known types whose field is
-- in the range of the type, into a buffer that is there.
pub encode_dlms_data-appended :
    (d : DlmsData) (out xs : Bytes)
    → IsData d
    → encode_dlms_data d (at_end out xs) ≡ appended out xs (data_bytes d)
encode_dlms_data-appended d out xs h = (encode_dlms_data-Writes d h).law out xs

pub decode_whole :
    (alloc : Allocator) (d : DlmsData) (maximum : ℕ)
    → Reads (decode_dlms_data_value alloc maximum) (data_bytes d) d
    → decode_dlms_data alloc (bytes (data_bytes d)) maximum ≡ done d
unfolding decode_dlms_data ◌>>=◌ require_no_trailing_bytes
decode_whole alloc d maximum r =
    rw
      (sym (ap (λ xs. decode_dlms_data_value alloc maximum (bytes xs)) (append-nil (data_bytes d)))
        ∙ r.law [])
      refl

pub decode_dlms_data-Reads :
    (alloc : Allocator)
    → ((n : ℕ) → alloc n ≡ true)
    → (d : DlmsData) (maximum : ℕ) → IsData d
    → depth d ≤ maximum
    → Reads (decode_dlms_data_value alloc maximum) (data_bytes d) d
decode_dlms_data-Reads alloc all d zero h le = absurd (omega (arith, depth_positive d, le))
decode_dlms_data-Reads alloc all d (suc m) h le = decode_dlms_data_value-Reads alloc all d m h le

-- A value of one of the known types with its field in range, that nests no deeper than
-- `maximumDepth`, is encoded into any buffer that has room for it, and where no `reserve` is
-- refused `DecodeDlmsData` gives that value back from the bytes.
pub decode_dlms_data-encode_dlms_data :
    (alloc : Allocator) (d : DlmsData) (maximum : ℕ) (xs : Bytes)
    → ((n : ℕ) → alloc n ≡ true)
    → IsData d
    → depth d ≤ maximum
    → length (data_bytes d) ≤ length xs
    → (encode_dlms_data d (new_writer (bytes xs))
        ≡ done (at_end (data_bytes d) (drop (length (data_bytes d)) xs)))
      × (decode_dlms_data alloc (bytes (data_bytes d)) maximum ≡ done d)
decode_dlms_data-encode_dlms_data alloc d maximum xs all h le room = (
  encode_dlms_data-appended d [] xs h ∙ rw (le→ltb (length xs) (length (data_bytes d)) room) refl,
  decode_whole alloc d maximum (decode_dlms_data-Reads alloc all d maximum h le),
)

read_too_many :
    (make : DlmsElements → DlmsData) (alloc : Allocator) (read : Parser DlmsData) (n : ℕ)
    (rest : Bytes)
    → n < 0x1_0000_0000_0000_0000
    → alloc n ≡ false
    → (read_element_list alloc read >>= λ x. pure (make x)) (bytes (axdr_length_bytes n ++ rest))
      ≡ fail thrown
unfolding ◌>>=◌ read_element_list
read_too_many make alloc read n rest h small =
    rw ((read_axdr_length-Reads n h).law rest, ◌>>=◌, read_element_list, small) refl

-- An array of any count below 2^64 for which `reserve` is refused the memory ends `DecodeDlmsData` with an
-- exception, also where none of the elements follows.
pub decode_dlms_data-reserve :
    (alloc : Allocator) (n maximum : ℕ) (rest : Bytes)
    → n < 0x1_0000_0000_0000_0000
    → alloc n ≡ false
    → decode_dlms_data alloc (bytes (0x01 ∷ axdr_length_bytes n ++ rest)) (suc maximum)
      ≡ fail thrown
unfolding decode_dlms_data ◌>>=◌ decode_dlms_data_value read_u8 read_tagged
decode_dlms_data-reserve alloc n maximum rest h small =
    rw (read_too_many array alloc (decode_dlms_data_value alloc maximum) n rest h small) refl
