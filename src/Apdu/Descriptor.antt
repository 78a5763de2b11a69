-- ===== src/Apdu/Descriptor.antt =====
-- lib/dlms-apdu/src/apdu/cosem_descriptor.cpp: the names of COSEM attributes and methods.
use dlms.Prelude.{ℕ, zero, suc, ◌<◌, ◌≡◌, [], ◌∷◌, ◌++◌, arith, length, done, Bytes}
use dlms.Apdu.Types.{Parser, Encoder}
use dlms.Apdu.Reader.{◌>>=◌, pure, read_u8, read_u16}
use dlms.Apdu.Writer.{◌>>◌, write_u8, write_u16}
use dlms.Apdu.Wire.{
  Reads, Writes, Reads->>=, Writes->>, Reads-pure, Reads-made, Writes-nothing, read_u8-Reads,
  write_u8-Writes, read_u8->>=, write_u8->>, u16_bytes, read_u16-Reads, write_u16-Writes,
}

-- `logical_name` is the array of six bytes.
pub record CosemAttributeDescriptor : Type 0 where
  pub class_id : ℕ
  pub logical_name : Bytes
  pub attribute_id : ℕ

pub record CosemMethodDescriptor : Type 0 where
  pub class_id : ℕ
  pub logical_name : Bytes
  pub method_id : ℕ

-- The loops over the logical name.
unfoldable pub read_name : ℕ → Parser Bytes
read_name zero = pure []
read_name (suc n) = read_u8 >>= λ b. read_name n >>= λ bs. pure (b ∷ bs)

unfoldable pub write_name : Bytes → Encoder
write_name [] w = done w
write_name (b ∷ bs) w = (write_u8 b >> write_name bs) w

unfoldable pub decode_cosem_attribute_descriptor : Parser CosemAttributeDescriptor
decode_cosem_attribute_descriptor = do
  class_id ← read_u16
  logical_name ← read_name 6
  attribute_id ← read_u8
  pure (record { class_id = class_id; logical_name = logical_name; attribute_id = attribute_id })

unfoldable pub encode_cosem_attribute_descriptor : CosemAttributeDescriptor → Encoder
encode_cosem_attribute_descriptor input = do
  write_u16 input.class_id
  write_name input.logical_name
  write_u8 input.attribute_id

unfoldable pub decode_cosem_method_descriptor : Parser CosemMethodDescriptor
decode_cosem_method_descriptor = do
  class_id ← read_u16
  logical_name ← read_name 6
  method_id ← read_u8
  pure (record { class_id = class_id; logical_name = logical_name; method_id = method_id })

unfoldable pub encode_cosem_method_descriptor : CosemMethodDescriptor → Encoder
encode_cosem_method_descriptor input = do
  write_u16 input.class_id
  write_name input.logical_name
  write_u8 input.method_id

abbrev pub IsAttribute : CosemAttributeDescriptor → Type 0
IsAttribute d = (d.class_id < 65536) × (length d.logical_name ≡ 6)

abbrev pub IsMethod : CosemMethodDescriptor → Type 0
IsMethod d = (d.class_id < 65536) × (length d.logical_name ≡ 6)

abbrev pub attribute_bytes : CosemAttributeDescriptor → Bytes
attribute_bytes d = u16_bytes d.class_id ++ (d.logical_name ++ d.attribute_id ∷ [])

abbrev pub method_bytes : CosemMethodDescriptor → Bytes
method_bytes d = u16_bytes d.class_id ++ (d.logical_name ++ d.method_id ∷ [])

write_name-Writes : (xs : Bytes) → Writes (write_name xs) xs
unfolding write_name
write_name-Writes [] = Writes-nothing
write_name-Writes (b ∷ bs) = write_u8->> b bs (write_name-Writes bs)

read_name-Reads : (n : ℕ) (xs : Bytes) → length xs ≡ n → Reads (read_name n) xs xs
unfolding read_name
read_name-Reads zero [] e = Reads-pure []
read_name-Reads zero (b ∷ bs) e = absurd (omega (arith, e))
read_name-Reads (suc n) [] e = absurd (omega (arith, e))
read_name-Reads (suc n) (b ∷ bs) e =
    read_u8->>= _ b bs (b ∷ bs)
      (Reads-made (λ xs. b ∷ xs) bs bs (read_name-Reads n bs (omega (arith, e))))

-- The three fields, under either of the two records.
read_fields-Reads :
    {A : Type 0} (make : ℕ → Bytes → ℕ → A) (class_id : ℕ) (name : Bytes) (id : ℕ)
    → class_id < 65536
    → length name ≡ 6
    → Reads
        (read_u16 >>= λ c. read_name 6 >>= λ n. read_u8 >>= λ i. pure (make c n i))
        (u16_bytes class_id ++ (name ++ id ∷ []))
        (make class_id name id)
read_fields-Reads make class_id name id h e =
    Reads->>= (λ c. read_name 6 >>= λ n. read_u8 >>= λ i. pure (make c n i)) (u16_bytes class_id)
      (name ++ id ∷ []) class_id _ (read_u16-Reads class_id h)
      (Reads->>= (λ n. read_u8 >>= λ i. pure (make class_id n i)) name (id ∷ []) name _
        (read_name-Reads 6 name e)
        (Reads-made (λ i. make class_id name i) (id ∷ []) id (read_u8-Reads id)))

write_fields-Writes :
    (class_id : ℕ) (name : Bytes) (id : ℕ)
    → Writes
        (write_u16 class_id >> (write_name name >> write_u8 id))
        (u16_bytes class_id ++ (name ++ id ∷ []))
write_fields-Writes class_id name id =
    Writes->> (u16_bytes class_id) (name ++ id ∷ []) (write_u16-Writes class_id)
      (Writes->> name (id ∷ []) (write_name-Writes name) (write_u8-Writes id))

pub encode_cosem_attribute_descriptor-Writes :
    (d : CosemAttributeDescriptor)
    → Writes (encode_cosem_attribute_descriptor d) (attribute_bytes d)
unfolding encode_cosem_attribute_descriptor
encode_cosem_attribute_descriptor-Writes d =
    write_fields-Writes d.class_id d.logical_name d.attribute_id

pub decode_cosem_attribute_descriptor-Reads :
    (d : CosemAttributeDescriptor)
    → IsAttribute d
    → Reads decode_cosem_attribute_descriptor (attribute_bytes d) d
unfolding decode_cosem_attribute_descriptor
decode_cosem_attribute_descriptor-Reads d h =
    read_fields-Reads (λ c n i. record { class_id = c; logical_name = n; attribute_id = i })
      d.class_id d.logical_name d.attribute_id h.0 h.1

pub encode_cosem_method_descriptor-Writes :
    (d : CosemMethodDescriptor) → Writes (encode_cosem_method_descriptor d) (method_bytes d)
unfolding encode_cosem_method_descriptor
encode_cosem_method_descriptor-Writes d = write_fields-Writes d.class_id d.logical_name d.method_id

pub decode_cosem_method_descriptor-Reads :
    (d : CosemMethodDescriptor)
    → IsMethod d
    → Reads decode_cosem_method_descriptor (method_bytes d) d
unfolding decode_cosem_method_descriptor
decode_cosem_method_descriptor-Reads d h =
    read_fields-Reads (λ c n i. record { class_id = c; logical_name = n; method_id = i }) d.class_id
      d.logical_name d.method_id h.0 h.1
