-- ===== src/Apdu/Ber/Fuel.antt =====
-- ber.cpp: the rounds of `ValidateBerReader`.
use dlms.Prelude.{
  ℕ, zero, suc, ◌+◌, ◌*◌, ◌/◌, ◌%◌, ◌≤◌, ◌<◌, ◌≡◌, refl, ap, inl, inr, Bool, true, false, [], ◌∷◌,
  arith, ltb, ◌==◌, if◌then◌else◌, length-drop, Result, done, fail, Result-cases, is_null_data,
  Span, null, bytes, size,
}
use dlms.Apdu.Types.{ApduError, Parser}
use dlms.Apdu.Reader.{◌>>=◌, pure, read_u8, read_bytes, with_room, is_empty, take_span, drop_span}
use dlms.Apdu.Ber.{
  BerTlv, read_length_octets, read_ber_length_octets, read_ber_length, read_ber_value, read_ber_tlv,
  validate_ber_reader, ber_tag_is_constructed, if_done,
}

-- What a reader leaves is no longer than what it was given.
record IsShrinking {A : Type 0} (p : Parser A) : Type 0 where
  shrinks : (s s' : Span) (a : A) → p s ≡ done (a, s') → size s' ≤ size s

left : {A : Type 0} → Result ApduError (A × Span) → ℕ
left (done (a, s)) = size s
left (fail e) = 0

pure-IsShrinking : {A : Type 0} (x : A) → IsShrinking (pure x)
unfolding left
pure-IsShrinking x = record { shrinks = λ s s' a e. omega (arith, ap left e) }

refuse-IsShrinking : {A : Type 0} (e : ApduError) → IsShrinking {A = A} (λ s. fail e)
refuse-IsShrinking e = record { shrinks = λ s s' a h. absurd cc }

if-IsShrinking :
    {A : Type 0} (b : Bool) (p q : Parser A)
    → IsShrinking p
    → IsShrinking q
    → IsShrinking (if b then p else q)
if-IsShrinking true p q hp hq = hp
if-IsShrinking false p q hp hq = hq

>>=-shrinks :
    {A B : Type 0} (f : A → Parser B)
    → ((a : A) → IsShrinking (f a))
    → (s s' : Span) (b : B) (r : Result ApduError (A × Span))
    → ((t : Span) (a : A) → r ≡ done (a, t) → size t ≤ size s)
    → elim r as (λ _. Result ApduError (B × Span)) [ done (a, t) ↦ f a t | fail e ↦ fail e ]
      ≡ done (b, s')
    → size s' ≤ size s
>>=-shrinks f hf s s' b (done (a, t)) hp e = omega (arith, hp t a refl, (hf a).shrinks t s' b e)
>>=-shrinks f hf s s' b (fail x) hp e = absurd cc

>>=-IsShrinking :
    {A B : Type 0} (p : Parser A) (f : A → Parser B)
    → IsShrinking p
    → ((a : A) → IsShrinking (f a))
    → IsShrinking (p >>= f)
unfolding ◌>>=◌
>>=-IsShrinking p f hp hf = record {
  shrinks = λ s s' b e. >>=-shrinks f hf s s' b (p s) (λ t a h. hp.shrinks s t a h) e;
}

read_u8-shorter : (s s' : Span) (a : ℕ) → read_u8 s ≡ done (a, s') → size s' < size s
unfolding read_u8 left
read_u8-shorter (null n) s' a e = absurd cc
read_u8-shorter (bytes []) s' a e = absurd cc
read_u8-shorter (bytes (b ∷ bs)) s' a e = omega (arith, ap left e)

read_u8-IsShrinking : IsShrinking read_u8
read_u8-IsShrinking = record { shrinks = λ s s' a e. omega (arith, read_u8-shorter s s' a e) }

not_refused :
    {A : Type 0} (b : Bool) (x : ApduError) (r : Result ApduError (A × Span)) (s' : Span) (a : A)
    → (if b then fail x else r) ≡ done (a, s')
    → r ≡ done (a, s')
not_refused true x r s' a e = absurd cc
not_refused false x r s' a e = e

size-drop_span : (n : ℕ) (s : Span) → size (drop_span n s) ≤ size s
size-drop_span n (null m) = omega arith
size-drop_span n (bytes xs) = omega (arith, length-drop n xs)

taken :
    (n : ℕ) (s s' a : Span)
    → ◌≡◌ {A = Result ApduError (Span × Span)} (done (take_span n s, drop_span n s)) (done (a, s'))
    → size s' ≤ size s
unfolding left
taken n s s' a e = omega (arith, ap left e, size-drop_span n s)

read_bytes-IsShrinking : (n : ℕ) → IsShrinking (read_bytes n)
unfolding read_bytes with_room
read_bytes-IsShrinking n = record {
  shrinks = λ s s' a e.
      taken n s s' a
        (not_refused (ltb (size s) n) _ _ s' a (not_refused (is_null_data s) _ _ s' a e));
}

read_length_octets-IsShrinking : (n result : ℕ) → IsShrinking (read_length_octets n result)
unfolding read_length_octets
read_length_octets-IsShrinking zero result = pure-IsShrinking result
read_length_octets-IsShrinking (suc n) result =
    >>=-IsShrinking read_u8 _ read_u8-IsShrinking λ byte.
      if-IsShrinking (ltb 0xff_ffff_ffff_ffff result) _ _ (refuse-IsShrinking _)
        (read_length_octets-IsShrinking n (result * 256 % 0x1_0000_0000_0000_0000 + byte))

read_ber_length_octets-IsShrinking : (first : ℕ) → IsShrinking (read_ber_length_octets first)
unfolding read_ber_length_octets
read_ber_length_octets-IsShrinking first =
    if-IsShrinking (first / 128 % 2 == 0) _ _ (pure-IsShrinking first) (
      if-IsShrinking (first % 128 == 0) _ _ (refuse-IsShrinking _) (
        if-IsShrinking (ltb 8 (first % 128)) _ _ (refuse-IsShrinking _) (
          >>=-IsShrinking (read_length_octets (first % 128) 0) _
            (read_length_octets-IsShrinking (first % 128) 0)
            λ result.
              if-IsShrinking (ltb result 128) _ _ (refuse-IsShrinking _)
                (pure-IsShrinking result))))

done_with-IsShrinking : {A : Type 0} (f : Span → A) → IsShrinking (λ s. done (f s, s))
unfolding left
done_with-IsShrinking f = record { shrinks = λ s s' a e. omega (arith, ap left e) }

read_ber_value-IsShrinking : (start tag : ℕ) → IsShrinking (read_ber_value start tag)
unfolding read_ber_value read_ber_length
read_ber_value-IsShrinking start tag = if-IsShrinking (tag % 32 == 31) _ _ (refuse-IsShrinking _) (
    >>=-IsShrinking (read_u8 >>= read_ber_length_octets) _
      (>>=-IsShrinking read_u8 read_ber_length_octets read_u8-IsShrinking
        read_ber_length_octets-IsShrinking)
      λ length.
        >>=-IsShrinking (read_bytes length) _ (read_bytes-IsShrinking length)
          λ value. done_with-IsShrinking _)

read_ber_tlv-shorter :
    (s s' : Span) (tlv : BerTlv) → read_ber_tlv s ≡ done (tlv, s') → size s' < size s
unfolding read_ber_tlv ◌>>=◌
read_ber_tlv-shorter s s' tlv e = elim (Result-cases (read_u8 s)) [
  | inl ((tag, t), h) ↦ omega (
    arith,
    read_u8-shorter s t tag h,
    (read_ber_value-IsShrinking (size s) tag).shrinks t s' tlv (rw (h, ◌>>=◌) at e),
  )
  | inr (x, h) ↦ absurd (cc (rw (h, ◌>>=◌) at e))
]

nothing_left : (n : ℕ) → n ≤ 0 → (n == 0) ≡ true
nothing_left n h = ground arith

validate_ber_reader-same :
    (child : Span → Result ApduError (Unit {0})) (a b : ℕ) (s : Span)
    → size s ≤ a
    → size s ≤ b
    → validate_ber_reader child a s ≡ validate_ber_reader child b s
unfolding validate_ber_reader is_empty
validate_ber_reader-same child zero zero s ha hb = refl
validate_ber_reader-same child zero (suc b) s ha hb = rw (nothing_left (size s) ha) refl
validate_ber_reader-same child (suc a) zero s ha hb = rw (nothing_left (size s) hb) refl
validate_ber_reader-same child (suc a) (suc b) s ha hb = elim (Result-cases (read_ber_tlv s)) [
  | inl ((tlv, s'), h) ↦ rw h (
      ap
        (λ r.
          if size s == 0
          then done tt
          else if_done (if ber_tag_is_constructed tlv.tag then child tlv.value else done tt) r)
        (validate_ber_reader-same child a b s' (omega (arith, read_ber_tlv-shorter s s' tlv h, ha))
          (omega (arith, read_ber_tlv-shorter s s' tlv h, hb))))
  | inr (x, h) ↦ rw h refl
]

-- `ValidateBerReader` with any child: as many rounds as the reader has bytes are enough, and more
-- of them change nothing.
pub validate_ber_reader_ends :
    (child : Span → Result ApduError (Unit {0})) (fuel more : ℕ) (s : Span)
    → size s ≤ fuel
    → validate_ber_reader child (fuel + more) s ≡ validate_ber_reader child (size s) s
validate_ber_reader_ends child fuel more s h =
    validate_ber_reader-same child (fuel + more) (size s) s (omega (arith, h)) (omega arith)
