-- ===== src/Apdu/Data/Valid.antt =====
-- data.cpp: the values that a byte string stands for, and that byte string.
use dlms.Prelude.{
  ℕ, suc, ◌%◌, ◌<◌, ◌≡◌, [], ◌∷◌, ◌++◌, leb, if◌then◌else◌, length, Bytes, contents, Span, null,
  bytes, size,
}
use dlms.Apdu.Octets.{be_octets}
use dlms.Apdu.Axdr.RoundTrip.{axdr_length_bytes}
use dlms.Apdu.Data.{
  element_count, DlmsData, DlmsElements, null_data, array, structure, boolean, double_long,
  double_long_unsigned, octet_string, integer, long, unsigned, long_unsigned, long64,
  long64_unsigned, enumerated, date_time, date, time, other_type, no_elements, element,
}
use dlms.Apdu.Data.Octets.{IsSigned}

-- A view of `n` bytes that are there.
unfoldable pub IsView : ℕ → Span → Type 0
IsView n (null m) = ⊥
IsView n (bytes xs) = length xs ≡ n

unfoldable pub IsOctets : Span → Type 0
IsOctets (null m) = ⊥
IsOctets (bytes xs) = length xs < 0x1_0000_0000_0000_0000

abbrev pub IsCountable : DlmsElements → Type 0
IsCountable ds = element_count ds < 0x1_0000_0000_0000_0000

-- The type is one of the enumeration and its field is in the range of that type.
unfoldable mutual
  pub IsData : DlmsData → Type 0
  IsData null_data = Unit
  IsData (array ds) = IsCountable ds × AllElements ds
  IsData (structure ds) = IsCountable ds × AllElements ds
  IsData (boolean b) = Unit
  IsData (double_long v) = IsSigned 0x8000_0000 v
  IsData (double_long_unsigned v) = v < 0x1_0000_0000
  IsData (octet_string v) = IsOctets v
  IsData (integer v) = IsSigned 0x80 v
  IsData (long v) = IsSigned 0x8000 v
  IsData (unsigned v) = v < 0x100
  IsData (long_unsigned v) = v < 0x1_0000
  IsData (long64 v) = v < 0x1_0000_0000_0000_0000
  IsData (long64_unsigned v) = v < 0x1_0000_0000_0000_0000
  IsData (enumerated v) = v < 0x100
  IsData (date_time v) = IsView 12 v
  IsData (date v) = IsView 5 v
  IsData (time v) = IsView 4 v
  IsData (other_type tag) = ⊥

  pub AllElements : DlmsElements → Type 0
  AllElements no_elements = Unit
  AllElements (element d ds) = IsData d × AllElements ds

-- How deep the arrays and structures nest, the value itself counted.
unfoldable mutual
  pub depth : DlmsData → ℕ
  depth null_data = 1
  depth (array ds) = suc (elements_depth ds)
  depth (structure ds) = suc (elements_depth ds)
  depth (boolean b) = 1
  depth (double_long v) = 1
  depth (double_long_unsigned v) = 1
  depth (octet_string v) = 1
  depth (integer v) = 1
  depth (long v) = 1
  depth (unsigned v) = 1
  depth (long_unsigned v) = 1
  depth (long64 v) = 1
  depth (long64_unsigned v) = 1
  depth (enumerated v) = 1
  depth (date_time v) = 1
  depth (date v) = 1
  depth (time v) = 1
  depth (other_type tag) = 1

  pub elements_depth : DlmsElements → ℕ
  elements_depth no_elements = 0
  elements_depth (element d ds) =
      let rest = elements_depth ds in if leb (depth d) rest then rest else depth d

unfoldable mutual
  pub data_bytes : DlmsData → Bytes
  data_bytes null_data = 0x00 ∷ []
  data_bytes (array ds) = 0x01 ∷ axdr_length_bytes (element_count ds) ++ elements_bytes ds
  data_bytes (structure ds) = 0x02 ∷ axdr_length_bytes (element_count ds) ++ elements_bytes ds
  data_bytes (boolean b) = 0x03 ∷ (if b then 1 else 0) ∷ []
  data_bytes (double_long v) = 0x05 ∷ be_octets 4 (v % 0x1_0000_0000)
  data_bytes (double_long_unsigned v) = 0x06 ∷ be_octets 4 v
  data_bytes (octet_string v) = 0x09 ∷ axdr_length_bytes (size v) ++ contents v
  data_bytes (integer v) = 0x0f ∷ be_octets 1 (v % 0x100)
  data_bytes (long v) = 0x10 ∷ be_octets 2 (v % 0x1_0000)
  data_bytes (unsigned v) = 0x11 ∷ be_octets 1 v
  data_bytes (long_unsigned v) = 0x12 ∷ be_octets 2 v
  data_bytes (long64 v) = 0x14 ∷ be_octets 8 v
  data_bytes (long64_unsigned v) = 0x15 ∷ be_octets 8 v
  data_bytes (enumerated v) = 0x16 ∷ be_octets 1 v
  data_bytes (date_time v) = 0x19 ∷ contents v
  data_bytes (date v) = 0x1a ∷ contents v
  data_bytes (time v) = 0x1b ∷ contents v
  data_bytes (other_type tag) = tag ∷ []

  pub elements_bytes : DlmsElements → Bytes
  elements_bytes no_elements = []
  elements_bytes (element d ds) = data_bytes d ++ elements_bytes ds
