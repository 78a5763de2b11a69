-- ===== src/Apdu/Action/Wire.antt =====
-- action.cpp: the parts of the requests and responses, their bytes, and what is read off them.
use dlms.Prelude.{ℕ, ◌≡◌, true, Option, none, some, [], ◌∷◌, ◌++◌, Bytes, Allocator}
use dlms.Apdu.Wire.{
  Reads, Writes, Reads->>=, Writes->>, Reads-pure, Reads-made, write_u8-Writes, read_u8->>=,
  write_u8->>,
}
use dlms.Apdu.Descriptor.{
  IsMethod, method_bytes, encode_cosem_method_descriptor-Writes,
  decode_cosem_method_descriptor-Reads,
}
use dlms.Apdu.Data.{DlmsData}
use dlms.Apdu.Data.Valid.{data_bytes}
use dlms.Apdu.Data.RoundTrip.{encode_dlms_data-Writes}
use dlms.Apdu.Data.Laws.{decode_dlms_data-Reads}
use dlms.Apdu.Services.Wire.{IsDataTo}
use dlms.Apdu.Action.{
  CosemMethodDescriptorWithParameter, ActionResponseItem, decode_optional_data,
  encode_optional_data, decode_optional_action_return_parameter,
  encode_optional_action_return_parameter, decode_method_with_parameter,
  encode_method_with_parameter, decode_response_item, encode_response_item,
}

abbrev pub IsOptional : ℕ → Option DlmsData → Type 0
IsOptional m none = Unit
IsOptional m (some d) = IsDataTo m d

abbrev pub IsInvocation : ℕ → CosemMethodDescriptorWithParameter → Type 0
IsInvocation m d = IsMethod d.descriptor × IsOptional m d.invocation_parameter

abbrev pub optional_bytes : Option DlmsData → Bytes
optional_bytes none = 0x00 ∷ []
optional_bytes (some d) = 0x01 ∷ data_bytes d

abbrev pub return_bytes : Option DlmsData → Bytes
return_bytes none = 0x00 ∷ []
return_bytes (some d) = 0x01 ∷ 0x00 ∷ data_bytes d

abbrev pub invocation_bytes : CosemMethodDescriptorWithParameter → Bytes
invocation_bytes d = method_bytes d.descriptor ++ optional_bytes d.invocation_parameter

abbrev pub item_bytes : ActionResponseItem → Bytes
item_bytes i = i.result ∷ return_bytes i.return_parameter

abbrev pub IsItem : ℕ → ActionResponseItem → Type 0
IsItem m i = IsOptional m i.return_parameter

pub optional-Writes :
    (m : ℕ) (o : Option DlmsData)
    → IsOptional m o
    → Writes (encode_optional_data o) (optional_bytes o)
unfolding encode_optional_data
optional-Writes m none h = write_u8-Writes 0x00
optional-Writes m (some d) h = write_u8->> 0x01 (data_bytes d) (encode_dlms_data-Writes d h.0)

pub return-Writes :
    (m : ℕ) (o : Option DlmsData)
    → IsOptional m o
    → Writes (encode_optional_action_return_parameter o) (return_bytes o)
unfolding encode_optional_action_return_parameter
return-Writes m none h = write_u8-Writes 0x00
return-Writes m (some d) h =
    write_u8->> 0x01 (0x00 ∷ data_bytes d)
      (write_u8->> 0x00 (data_bytes d) (encode_dlms_data-Writes d h.0))

pub invocation-Writes :
    (m : ℕ) (d : CosemMethodDescriptorWithParameter)
    → IsInvocation m d
    → Writes (encode_method_with_parameter d) (invocation_bytes d)
unfolding encode_method_with_parameter
invocation-Writes m d h =
    Writes->> (method_bytes d.descriptor) (optional_bytes d.invocation_parameter)
      (encode_cosem_method_descriptor-Writes d.descriptor)
      (optional-Writes m d.invocation_parameter h.1)

pub item-Writes :
    (m : ℕ) (i : ActionResponseItem) → IsItem m i → Writes (encode_response_item i) (item_bytes i)
unfolding encode_response_item
item-Writes m i h =
    write_u8->> i.result (return_bytes i.return_parameter) (return-Writes m i.return_parameter h)

module _ (alloc : Allocator) (all : (n : ℕ) → alloc n ≡ true) (m : ℕ) where
  pub optional-Reads :
      (o : Option DlmsData)
      → IsOptional m o
      → Reads (decode_optional_data alloc m) (optional_bytes o) o
  unfolding decode_optional_data
  optional-Reads none h = read_u8->>= _ 0x00 [] none (Reads-pure none)
  optional-Reads (some d) h =
      read_u8->>= _ 0x01 (data_bytes d) (some d)
        (Reads-made some (data_bytes d) d (decode_dlms_data-Reads alloc all d m h.0 h.1))

  pub return-Reads :
      (o : Option DlmsData)
      → IsOptional m o
      → Reads (decode_optional_action_return_parameter alloc m) (return_bytes o) o
  unfolding decode_optional_action_return_parameter
  return-Reads none h = read_u8->>= _ 0x00 [] none (Reads-pure none)
  return-Reads (some d) h = read_u8->>= _ 0x01 (0x00 ∷ data_bytes d) (some d) (
      read_u8->>= _ 0x00 (data_bytes d) (some d)
        (Reads-made some (data_bytes d) d (decode_dlms_data-Reads alloc all d m h.0 h.1)))

  pub invocation-Reads :
      (d : CosemMethodDescriptorWithParameter)
      → IsInvocation m d
      → Reads (decode_method_with_parameter alloc m) (invocation_bytes d) d
  unfolding decode_method_with_parameter
  invocation-Reads d h =
      Reads->>= _ (method_bytes d.descriptor) (optional_bytes d.invocation_parameter) d.descriptor d
        (decode_cosem_method_descriptor-Reads d.descriptor h.0)
        (Reads-made {B = CosemMethodDescriptorWithParameter}
          (λ o. record { descriptor = d.descriptor; invocation_parameter = o })
          (optional_bytes d.invocation_parameter) d.invocation_parameter
          (optional-Reads d.invocation_parameter h.1))

  pub item-Reads :
      (i : ActionResponseItem) → IsItem m i → Reads (decode_response_item alloc m) (item_bytes i) i
  unfolding decode_response_item
  item-Reads i h = read_u8->>= _ i.result (return_bytes i.return_parameter) i (
      Reads-made {B = ActionResponseItem} (λ o. record { result = i.result; return_parameter = o })
        (return_bytes i.return_parameter) i.return_parameter (return-Reads i.return_parameter h))
