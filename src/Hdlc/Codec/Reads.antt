-- ===== src/Hdlc/Codec/Reads.antt =====
-- What the parts of the decoder read in a frame of known layout.
use dlms.Prelude.{
  ℕ, suc, ◌+◌, ◌-◌, ◌≤◌, ◌≡◌, refl, sym, ap, ◌∙◌, [], ◌∷◌, ◌++◌, append_assoc, arith, length,
  get_or, take, drop, length-append, take-append_length, drop-append_length, drop-drop,
  take-append_ge, get_or-append_length, done, Bytes, bytes, join_bytes,
}
use dlms.Hdlc.Types.{HdlcAddress, HdlcControl}
use dlms.Hdlc.Address.{from_bytes}
use dlms.Hdlc.Control.{decode_control}
use dlms.Hdlc.Crc.{calculate_hdlc_crc}
use dlms.Hdlc.Codec.Decode.{decode_fields, decode_information}

-- An address at the front of any bytes.
abbrev pub Encodes : Bytes → HdlcAddress → Type 0
Encodes xs a = (rest : Bytes) → from_bytes (bytes (xs ++ rest)) ≡ done (a, length xs)

module _ (z a b c full : ℕ) (D S R : Bytes) (d s : HdlcAddress) (k : HdlcControl) where
  abbrev input : Bytes
  input = z ∷ a ∷ b ∷ (D ++ (S ++ c ∷ R))

  source_at : drop (3 + length D) input ≡ S ++ c ∷ R
  source_at = sym (drop-drop 3 (length D) input) ∙ drop-append_length (length D) D (S ++ c ∷ R) refl

  control_at : get_or input (3 + length D + length S) 0 ≡ c
  control_at =
      ap (λ (xs : Bytes). get_or (z ∷ a ∷ b ∷ xs) (3 + length D + length S) 0)
        (sym (append_assoc D S (c ∷ R)))
      ∙ get_or-append_length (3 + length D + length S) (z ∷ a ∷ b ∷ (D ++ S)) R c 0
          (omega (arith, length-append D S))

  -- The fields between the format and the Information field.
  pub decode_fields_lem :
      Encodes D d
      → Encodes S s
      → decode_control c ≡ done k
      → full ≡ 4 + length D + length S + length R
      → 3 ≤ length R
      → decode_fields input full
        ≡ done
            (record { destination = d; source = s; control = k; offset = 4 + length D + length S })
  unfolding decode_fields
  decode_fields_lem hd hs hc hf hr =
      let e1 : from_bytes (bytes (take (full - 1 - 3) (D ++ (S ++ c ∷ R)))) ≡ done (d, length D) =
        rw (take-append_ge (full - 1 - 3) D (S ++ c ∷ R) (omega arith)) (hd _) in
      let e2 : from_bytes (bytes (take (full - 1 - (3 + length D)) (drop (3 + length D) input)))
          ≡ done (s, length S) =
        rw (source_at, take-append_ge (full - 1 - (3 + length D)) S (c ∷ R) (omega arith)) (hs _) in
      ground (arith, e1, e2, control_at)

-- A header `H` behind the flag `z`, then an empty Information field.
module _ (z full : ℕ) (H : Bytes) where
  pub decode_information-empty :
      (lf hf e : ℕ)
      → full ≡ 4 + length H
      → calculate_hdlc_crc (bytes H) ≡ join_bytes hf lf
      → decode_information (z ∷ (H ++ (lf ∷ hf ∷ e ∷ []))) full (1 + length H) ≡ done []
  unfolding decode_information
  decode_information-empty lf hf e len fcs =
      ground (arith, take-append_length (full - 2 - 2) H (lf ∷ hf ∷ e ∷ []), low, high)
    where
      low : get_or (z ∷ (H ++ (lf ∷ hf ∷ e ∷ []))) (full - 3) 0 ≡ lf
      low = get_or-append_length (full - 3) (z ∷ H) (hf ∷ e ∷ []) lf 0 (omega arith)

      high : get_or (z ∷ (H ++ (lf ∷ hf ∷ e ∷ []))) (full - 3 + 1) 0 ≡ hf
      high =
          ap (λ (xs : Bytes). get_or (z ∷ xs) (full - 3 + 1) 0)
            (sym (append_assoc H (lf ∷ []) (hf ∷ e ∷ [])))
          ∙ get_or-append_length (full - 3 + 1) (z ∷ (H ++ (lf ∷ []))) (e ∷ []) hf 0
              (omega (arith, length-append H (lf ∷ [])))

-- A header, its check sequence and an Information field that is not empty.
module _ (z full lh hh lf hf e : ℕ) (H info : Bytes) where
  abbrev tail_bytes : Bytes
  tail_bytes = lf ∷ hf ∷ e ∷ []

  abbrev framed : Bytes
  framed = z ∷ (H ++ (lh ∷ hh ∷ (info ++ tail_bytes)))

  regroup : framed ≡ z ∷ ((H ++ (lh ∷ hh ∷ info)) ++ tail_bytes)
  regroup = ap (◌∷◌ z) (sym (append_assoc H (lh ∷ hh ∷ info) tail_bytes))

  length-body : length (H ++ (lh ∷ hh ∷ info)) ≡ 2 + length H + length info
  length-body = omega (arith, length-append H (lh ∷ hh ∷ info))

  hcs_low : get_or framed (1 + length H) 0 ≡ lh
  hcs_low =
      get_or-append_length (1 + length H) (z ∷ H) (hh ∷ (info ++ tail_bytes)) lh 0 (omega arith)

  hcs_high : get_or framed (1 + length H + 1) 0 ≡ hh
  hcs_high =
      ap (λ (xs : Bytes). get_or (z ∷ xs) (1 + length H + 1) 0)
        (sym (append_assoc H (lh ∷ []) (hh ∷ (info ++ tail_bytes))))
      ∙ get_or-append_length (1 + length H + 1) (z ∷ (H ++ (lh ∷ []))) (info ++ tail_bytes) hh 0
          (omega (arith, length-append H (lh ∷ [])))

  fcs_low : full ≡ 6 + length H + length info → get_or framed (full - 3) 0 ≡ lf
  fcs_low len =
      ap (λ (xs : Bytes). get_or xs (full - 3) 0) regroup
      ∙ get_or-append_length (full - 3) (z ∷ (H ++ (lh ∷ hh ∷ info))) (hf ∷ e ∷ []) lf 0
          (omega (arith, length-body))

  fcs_high : full ≡ 6 + length H + length info → get_or framed (full - 3 + 1) 0 ≡ hf
  fcs_high len =
      ap (λ (xs : Bytes). get_or xs (full - 3 + 1) 0) regroup
      ∙ ap (λ (xs : Bytes). get_or (z ∷ xs) (full - 3 + 1) 0)
          (sym (append_assoc (H ++ (lh ∷ hh ∷ info)) (lf ∷ []) (hf ∷ e ∷ [])))
      ∙ get_or-append_length (full - 3 + 1) (z ∷ ((H ++ (lh ∷ hh ∷ info)) ++ (lf ∷ []))) (e ∷ []) hf
          0 (omega (arith, length-body, length-append (H ++ (lh ∷ hh ∷ info)) (lf ∷ [])))

  info_at : drop (1 + length H + 2) framed ≡ info ++ tail_bytes
  info_at =
      ap (λ (n : ℕ). drop n framed) {y = suc (length H + 2)} (omega arith)
      ∙ ap (drop (suc (length H + 2)))
          (ap (◌∷◌ z) (sym (append_assoc H (lh ∷ hh ∷ []) (info ++ tail_bytes))))
      ∙ drop-append_length (length H + 2) (H ++ (lh ∷ hh ∷ [])) (info ++ tail_bytes)
          (omega (arith, length-append H (lh ∷ hh ∷ [])))

  pub decode_information-full :
      1 ≤ length info
      → full ≡ 6 + length H + length info
      → calculate_hdlc_crc (bytes H) ≡ join_bytes hh lh
      → calculate_hdlc_crc (bytes (H ++ (lh ∷ hh ∷ info))) ≡ join_bytes hf lf
      → decode_information framed full (1 + length H) ≡ done info
  unfolding decode_information
  decode_information-full some_info len hcs fcs = ground (
    arith,
    hcs_low,
    hcs_high,
    fcs_low len,
    fcs_high len,
    take-append_length (1 + length H - 1) H (lh ∷ hh ∷ (info ++ tail_bytes)) (omega arith),
    body_taken,
    info_taken,
  )
    where
      body_taken : take (full - 2 - 2) (drop 1 framed) ≡ H ++ (lh ∷ hh ∷ info)
      body_taken =
          ap (λ (xs : Bytes). take (full - 2 - 2) (drop 1 xs)) regroup
          ∙ take-append_length (full - 2 - 2) (H ++ (lh ∷ hh ∷ info)) tail_bytes
              (omega (arith, length-body))

      info_taken : take (full - 3 - (1 + length H + 2)) (drop (1 + length H + 2) framed) ≡ info
      info_taken =
          ap (take (full - 3 - (1 + length H + 2))) info_at
          ∙ take-append_length (full - 3 - (1 + length H + 2)) info tail_bytes (omega arith)
