-- ===== src/Apdu/Wire.antt =====
-- What a writer writes and a reader reads: the two relations by which the codecs are compared.
use dlms.Prelude.{
  ℕ, ◌/◌, ◌%◌, ◌≤◌, ◌<◌, ◌≡◌, refl, sym, ap, ◌∙◌, inl, inr, [], ◌∷◌, ◌++◌, append_assoc, append-nil,
  arith, ltb, if◌then◌else◌, ltb→lt, lt→ltb, le→ltb, ltb-false→le, Bool-cases, length, drop,
  length-append, length-drop, take-append_length, drop-append_length, drop-drop, Result, done, fail,
  Bytes, Span, bytes, high_byte, low_byte,
}
use dlms.Apdu.Types.{ApduError, ApduWriter, Encoder, Parser, refused, output_buffer_too_small}
use dlms.Apdu.Reader.{
  ◌>>=◌, pure, read_u8, read_u16, read_u32, read_bytes, with_room, decode_with,
  require_no_trailing_bytes,
}
use dlms.Apdu.Writer.{with_remaining, ◌>>◌, write_u8, write_u16, write_u32, write_bytes, with_space}

abbrev pub at_end : Bytes → Bytes → ApduWriter
at_end out xs = record { written = out; rest = bytes xs }

-- The bytes `enc` behind `out`, if the buffer has room for them.
abbrev pub appended : Bytes → Bytes → Bytes → Result ApduError ApduWriter
appended out xs enc =
    if ltb (length xs) (length enc)
    then fail (refused output_buffer_too_small)
    else done (at_end (out ++ enc) (drop (length enc) xs))

-- `f` writes just the bytes `enc`, and is refused where they do not fit.
pub record Writes (f : Encoder) (enc : Bytes) : Type 0 where
  pub law : (out xs : Bytes) → f (at_end out xs) ≡ appended out xs enc

-- `p` reads `a` off the bytes `enc`, whatever follows them.
pub record Reads {A : Type 0} (p : Parser A) (enc : Bytes) (a : A) : Type 0 where
  pub law : (rest : Bytes) → p (bytes (enc ++ rest)) ≡ done (a, bytes rest)

appended-append :
    (out xs a b : Bytes)
    → length a ≤ length xs
    → appended (out ++ a) (drop (length a) xs) b ≡ appended out xs (a ++ b)
appended-append out xs a b h =
    rw
      (
        length-append a b,
        ← drop-drop (length a) (length b) xs,
        length-drop (length a) xs,
        append_assoc out a b,
      )
      (ground arith)

pub Writes->> : {f g : Encoder} (a b : Bytes) → Writes f a → Writes g b → Writes (f >> g) (a ++ b)
unfolding ◌>>◌
Writes->> {f} {g} a b hf hg = record {
  law = λ out xs. elim (Bool-cases (ltb (length xs) (length a))) [
    | inl small ↦ rw (
      hf.law out xs,
      ◌>>◌,
      small,
      lt→ltb (length xs) (length (a ++ b)) (omega (arith, ltb→lt _ _ small, length-append a b)),
    )
    | inr room ↦
        rw (hf.law out xs, ◌>>◌, room)
          (hg.law (out ++ a) (drop (length a) xs)
            ∙ appended-append out xs a b (ltb-false→le _ _ room))
  ];
}

pub Reads->>= :
    {A B : Type 0} {p : Parser A} (f : A → Parser B) (a b : Bytes) (x : A) (y : B)
    → Reads p a x
    → Reads (f x) b y
    → Reads (p >>= f) (a ++ b) y
unfolding ◌>>=◌
Reads->>= f a b x y hp hf = record {
  law = λ rest. rw (append_assoc a b rest, ◌>>=◌, hp.law (b ++ rest)) (hf.law rest);
}

pub Reads-pure : {A : Type 0} (x : A) → Reads (pure x) [] x
Reads-pure x = record { law = λ rest. refl }

write_u8_lem : (v : ℕ) (out xs : Bytes) → write_u8 v (at_end out xs) ≡ appended out xs (v ∷ [])
unfolding write_u8
write_u8_lem v out [] = refl
write_u8_lem v out (x ∷ xs) = ground arith

pub write_u8-Writes : (v : ℕ) → Writes (write_u8 v) (v ∷ [])
write_u8-Writes v = record { law = write_u8_lem v }

pub read_u8-Reads : (v : ℕ) → Reads read_u8 (v ∷ []) v
unfolding read_u8
read_u8-Reads v = record { law = λ rest. refl }

-- The common case: one byte in front.
pub write_u8->> : {g : Encoder} (v : ℕ) (b : Bytes) → Writes g b → Writes (write_u8 v >> g) (v ∷ b)
write_u8->> v b hg = Writes->> (v ∷ []) b (write_u8-Writes v) hg

pub read_u8->>= :
    {B : Type 0} (f : ℕ → Parser B) (v : ℕ) (b : Bytes) (y : B)
    → Reads (f v) b y
    → Reads (read_u8 >>= f) (v ∷ b) y
read_u8->>= f v b y hf = Reads->>= f (v ∷ []) b v y (read_u8-Reads v) hf

pub with_space-Writes :
    {f : Encoder} (n : ℕ) (enc : Bytes)
    → n ≤ length enc
    → Writes f enc
    → Writes (with_space n f) enc
unfolding with_space
with_space-Writes n enc h hf = record { law = λ out xs. ground (arith, hf.law out xs) }

pub with_room-Reads :
    {A : Type 0} {p : Parser A} (n : ℕ) (enc : Bytes) (x : A)
    → n ≤ length enc
    → Reads p enc x
    → Reads (with_room n p) enc x
unfolding with_room
with_room-Reads n enc x h hp = record {
  law = λ rest.
      rw (le→ltb (length (enc ++ rest)) n (omega (arith, length-append enc rest))) (hp.law rest);
}

abbrev pub u16_bytes : ℕ → Bytes
u16_bytes v = high_byte v ∷ low_byte v ∷ []

pub write_u16-Writes : (v : ℕ) → Writes (write_u16 v) (u16_bytes v)
unfolding write_u16
write_u16-Writes v =
    with_space-Writes 2 (u16_bytes v) (omega arith)
      (write_u8->> _ (low_byte v ∷ []) (write_u8-Writes (low_byte v)))

pub read_u16-Reads : (v : ℕ) → v < 65536 → Reads read_u16 (u16_bytes v) v
unfolding read_u16 ◌>>=◌ read_u8 with_room
read_u16-Reads v h = record { law = λ rest. ground arith }

abbrev pub u32_bytes : ℕ → Bytes
u32_bytes v = v / 16777216 % 256 ∷ v / 65536 % 256 ∷ v / 256 % 256 ∷ v % 256 ∷ []

pub write_u32-Writes : (v : ℕ) → Writes (write_u32 v) (u32_bytes v)
unfolding write_u32
write_u32-Writes v =
    with_space-Writes 4 (u32_bytes v) (omega arith)
      (write_u8->> _ _ (write_u8->> _ _ (write_u8->> _ _ (write_u8-Writes (v % 256)))))

pub read_u32-Reads : (v : ℕ) → v < 4294967296 → Reads read_u32 (u32_bytes v) v
unfolding read_u32 ◌>>=◌ read_u8 with_room
read_u32-Reads v h = record { law = λ rest. ground arith }

pub write_bytes-Writes : (enc : Bytes) → Writes (write_bytes (bytes enc)) enc
unfolding write_bytes
write_bytes-Writes enc = record { law = λ out xs. refl }

pub read_bytes-Reads : (n : ℕ) (enc : Bytes) → n ≡ length enc → Reads (read_bytes n) enc (bytes enc)
unfolding read_bytes
read_bytes-Reads n enc e =
    with_room-Reads n enc (bytes enc) (omega arith) (record {
      law = λ rest. rw (take-append_length n enc rest e, drop-append_length n enc rest e);
    })

pub with_remaining-Writes :
    {f : Encoder} (n : ℕ) (enc : Bytes)
    → n ≡ length enc
    → Writes f enc
    → Writes (with_remaining n f) enc
unfolding with_remaining
with_remaining-Writes n enc e hf = record { law = λ out xs. ground (arith, hf.law out xs) }

pub Writes-nothing : Writes (λ w. done w) []
Writes-nothing = record {
  law = λ out xs. rw (append-nil out, le→ltb (length xs) 0 (omega arith)) refl;
}

pub >>=-done :
    {A B : Type 0} (p : Parser A) (f : A → Parser B) (s s' : Span) (a : A)
    → p s ≡ done (a, s')
    → (p >>= f) s ≡ f a s'
unfolding ◌>>=◌
>>=-done p f s s' a e = rw (e, ◌>>=◌) refl

-- What is read is put under a constructor, or returned with something that was read before.
pub Reads-made :
    {A B : Type 0} {p : Parser A} (make : A → B) (enc : Bytes) (x : A)
    → Reads p enc x
    → Reads (p >>= λ y. pure (make y)) enc (make x)
Reads-made make enc x hp =
    rw (append-nil enc) at
      (Reads->>= (λ y. pure (make y)) enc [] x (make x) hp (Reads-pure (make x)))

-- `p` reads `a` off the bytes `enc`, where nothing follows them.
pub record Ends {A : Type 0} (p : Parser A) (enc : Bytes) (a : A) : Type 0 where
  pub law : p (bytes enc) ≡ done (a, bytes [])

pub Reads-Ends : {A : Type 0} {p : Parser A} (enc : Bytes) (x : A) → Reads p enc x → Ends p enc x
Reads-Ends {p = p} enc x hp = record {
  law = sym (ap (λ xs. p (bytes xs)) (append-nil enc)) ∙ hp.law [];
}

pub Ends->>= :
    {A B : Type 0} {p : Parser A} (f : A → Parser B) (a b : Bytes) (x : A) (y : B)
    → Reads p a x
    → Ends (f x) b y
    → Ends (p >>= f) (a ++ b) y
unfolding ◌>>=◌
Ends->>= f a b x y hp hf = record { law = rw (hp.law b, ◌>>=◌) hf.law }

pub read_u8-Ends :
    {B : Type 0} (f : ℕ → Parser B) (v : ℕ) (b : Bytes) (y : B)
    → Ends (f v) b y
    → Ends (read_u8 >>= f) (v ∷ b) y
read_u8-Ends f v b y hf = Ends->>= f (v ∷ []) b v y (read_u8-Reads v) hf

pub Ends-made :
    {A B : Type 0} {p : Parser A} (make : A → B) (enc : Bytes) (x : A)
    → Ends p enc x
    → Ends (p >>= λ y. pure (make y)) enc (make x)
unfolding ◌>>=◌
Ends-made make enc x hp = record { law = rw (hp.law, ◌>>=◌) refl }

pub require_no_trailing_bytes-Ends :
    {A B : Type 0} {p : Parser A} (make : A → B) (enc : Bytes) (x : A)
    → Reads p enc x
    → Ends (p >>= λ y. require_no_trailing_bytes >>= λ _. pure (make y)) enc (make x)
unfolding ◌>>=◌ require_no_trailing_bytes
require_no_trailing_bytes-Ends make enc x hp = record {
  law = rw ((Reads-Ends enc x hp).law, ◌>>=◌) refl;
}

-- What a decoder makes of the whole of the bytes.
pub decode_with-Ends :
    {A : Type 0} (p : Parser A) (enc : Bytes) (x : A)
    → Ends p enc x
    → decode_with p (bytes enc) ≡ done x
unfolding decode_with
decode_with-Ends p enc x hp = rw hp.law refl
