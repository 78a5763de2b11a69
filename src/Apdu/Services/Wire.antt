-- ===== src/Apdu/Services/Wire.antt =====
-- The parts of requests and responses that the services share: their bytes, and what is read off them.
use dlms.Prelude.{
  ℕ, ◌≤◌, ◌<◌, ◌≡◌, refl, sym, ap, Bool, true, false, Option, none, some, [], ◌∷◌, ◌++◌,
  if◌then◌else◌, length, Bytes, contents, Span, bytes, Allocator,
}
use dlms.Apdu.Reader.{◌>>=◌, read_u8}
use dlms.Apdu.Wire.{
  Reads, Writes, Reads->>=, Writes->>, Reads-pure, Reads-made, write_u8-Writes, read_u8->>=,
  write_u8->>, u32_bytes, read_u32-Reads, write_u32-Writes,
}
use dlms.Apdu.Axdr.{read_axdr_boolean, write_axdr_boolean}
use dlms.Apdu.Axdr.RoundTrip.{
  axdr_length_bytes, write_axdr_octet_string-Writes, read_axdr_octet_string-Reads,
}
use dlms.Apdu.Descriptor.{
  IsAttribute, attribute_bytes, encode_cosem_attribute_descriptor-Writes,
  decode_cosem_attribute_descriptor-Reads,
}
use dlms.Apdu.Data.{DlmsData}
use dlms.Apdu.Data.Valid.{IsData, depth, data_bytes}
use dlms.Apdu.Data.RoundTrip.{encode_dlms_data-Writes}
use dlms.Apdu.Data.Laws.{decode_dlms_data-Reads}
use dlms.Apdu.Services.{
  SelectiveAccessDescriptor, CosemAttributeDescriptorWithSelection, DataBlockG, decode_selection,
  encode_selection, decode_descriptor_with_selection, encode_descriptor_with_selection,
  decode_data_block_g, encode_data_block_g,
}

-- Data in range that nests no deeper than the limit.
abbrev pub IsDataTo : ℕ → DlmsData → Type 0
IsDataTo maximum d = IsData d × (depth d ≤ maximum)

abbrev pub IsSelection : ℕ → Option SelectiveAccessDescriptor → Type 0
IsSelection maximum none = Unit
IsSelection maximum (some a) = IsDataTo maximum a.parameters

abbrev pub selection_bytes : Option SelectiveAccessDescriptor → Bytes
selection_bytes none = 0x00 ∷ []
selection_bytes (some a) = 0x01 ∷ a.selector ∷ data_bytes a.parameters

abbrev pub IsSelected : ℕ → CosemAttributeDescriptorWithSelection → Type 0
IsSelected maximum d = IsAttribute d.descriptor × IsSelection maximum d.selection

abbrev pub selected_bytes : CosemAttributeDescriptorWithSelection → Bytes
selected_bytes d = attribute_bytes d.descriptor ++ selection_bytes d.selection

abbrev pub IsBlock : DataBlockG → Type 0
IsBlock b =
    (b.block_number < 4294967296)
    × ((b.raw_data ≡ bytes (contents b.raw_data))
        × (length (contents b.raw_data) < 0x1_0000_0000_0000_0000))

abbrev pub block_bytes : DataBlockG → Bytes
block_bytes b =
    (if b.last_block then 1 else 0) ∷ u32_bytes b.block_number
    ++ (axdr_length_bytes (length (contents b.raw_data)) ++ contents b.raw_data)

pub encode_selection-Writes :
    (m : ℕ) (a : Option SelectiveAccessDescriptor)
    → IsSelection m a
    → Writes (encode_selection a) (selection_bytes a)
unfolding encode_selection
encode_selection-Writes m none h = write_u8-Writes 0x00
encode_selection-Writes m (some a) h =
    write_u8->> 0x01 (a.selector ∷ data_bytes a.parameters)
      (write_u8->> a.selector (data_bytes a.parameters) (encode_dlms_data-Writes a.parameters h.0))

pub encode_descriptor_with_selection-Writes :
    (m : ℕ) (d : CosemAttributeDescriptorWithSelection)
    → IsSelected m d
    → Writes (encode_descriptor_with_selection d) (selected_bytes d)
unfolding encode_descriptor_with_selection
encode_descriptor_with_selection-Writes m d h =
    Writes->> (attribute_bytes d.descriptor) (selection_bytes d.selection)
      (encode_cosem_attribute_descriptor-Writes d.descriptor)
      (encode_selection-Writes m d.selection h.1)

pub encode_data_block_g-Writes :
    (b : DataBlockG) → IsBlock b → Writes (encode_data_block_g b) (block_bytes b)
unfolding encode_data_block_g write_axdr_boolean
encode_data_block_g-Writes b h = rw h.1.0 (
    write_u8->> (if b.last_block then 1 else 0) _ (
      Writes->> (u32_bytes b.block_number) _ (write_u32-Writes b.block_number)
        (write_axdr_octet_string-Writes (contents b.raw_data))))

module _ (alloc : Allocator) (all : (n : ℕ) → alloc n ≡ true) (m : ℕ) where
  pub decode_selection-Reads :
      (a : Option SelectiveAccessDescriptor)
      → IsSelection m a
      → Reads (decode_selection alloc m) (selection_bytes a) a
  unfolding decode_selection
  decode_selection-Reads none h = read_u8->>= _ 0x00 [] none (Reads-pure none)
  decode_selection-Reads (some a) h =
      read_u8->>= _ 0x01 (a.selector ∷ data_bytes a.parameters) (some a) (
        read_u8->>= _ a.selector (data_bytes a.parameters) (some a) (
          Reads-made (λ d. some (record { selector = a.selector; parameters = d }))
            (data_bytes a.parameters) a.parameters
            (decode_dlms_data-Reads alloc all a.parameters m h.0 h.1)))

  pub decode_descriptor_with_selection-Reads :
      (d : CosemAttributeDescriptorWithSelection)
      → IsSelected m d
      → Reads (decode_descriptor_with_selection alloc m) (selected_bytes d) d
  unfolding decode_descriptor_with_selection
  decode_descriptor_with_selection-Reads d h =
      Reads->>= _ (attribute_bytes d.descriptor) (selection_bytes d.selection) d.descriptor d
        (decode_cosem_attribute_descriptor-Reads d.descriptor h.0)
        (Reads-made (λ s. record { descriptor = d.descriptor; selection = s })
          (selection_bytes d.selection) d.selection (decode_selection-Reads d.selection h.1))

boolean-Reads : (b : Bool) → Reads read_axdr_boolean ((if b then 1 else 0) ∷ []) b
unfolding read_axdr_boolean ◌>>=◌ read_u8
boolean-Reads true = record { law = λ rest. refl }
boolean-Reads false = record { law = λ rest. refl }

abbrev block_of : DataBlockG → Span → DataBlockG
block_of b s = record { last_block = b.last_block; block_number = b.block_number; raw_data = s }

pub decode_data_block_g-Reads :
    (b : DataBlockG) → IsBlock b → Reads decode_data_block_g (block_bytes b) b
unfolding decode_data_block_g
decode_data_block_g-Reads b h =
    Reads->>= _ ((if b.last_block then 1 else 0) ∷ []) _ b.last_block b (boolean-Reads b.last_block)
      (Reads->>= _ (u32_bytes b.block_number) _ b.block_number b (read_u32-Reads b.block_number h.0)
        (rw (ap (block_of b) (sym h.1.0)) at (
          Reads-made (block_of b) _ (bytes (contents b.raw_data))
            (read_axdr_octet_string-Reads (contents b.raw_data) h.1.1))))
