-- ===== src/Security/Gcm.antt =====
-- lib/dlms-security/src/security/suite0_aes_gcm.cpp, over the calls of OpenSSL's EVP interface.
pub mod Laws
use dlms.Prelude.{
  ℕ, zero, suc, ◌+◌, ◌-◌, ◌*◌, ◌/◌, ◌%◌, ◌^◌, ◌≤◌, ◌<◌, min, ◌≡◌, refl, sym, ap, ◌∙◌, ◌≢◌, ◌↔◌, ◌⊎◌,
  inl, inr, Bool, true, false, ◌&&◌, ◌||◌, not, Option, none, some, List, [], ◌∷◌, ◌++◌, map,
  append_assoc, append-nil, arith, ltb, leb, ◌==◌, if◌then◌else◌, ltb→lt, lt→ltb, le→ltb,
  ltb-false→le, ==→eq, Bool-cases, Option-cases, length, get_or, take, drop, replicate, All, concat,
  length-append, length-take, length-drop, length-replicate, take-append-drop, take-append_le,
  drop-append_le, get_or-append_lt, take-append_length, drop-append_length, drop-drop,
  take-append_ge, get_or-append_length, All-append, eq-nil, take-length, Result, done, fail,
  Result-cases, IsDone, Bytes, IsByte, is_null_data, contents, Span, null, bytes, Allocator,
  high_byte, low_byte, join_bytes, overwrite, size, Written, tests,
}
use dlms.Security.Types.{
  SecurityStatus, SecurityKey, suite0, validate_security_key, invalid_argument, cipher_failed,
  decipher_failed,
}

-- AES-128-GCM as the code calls it. `none` and `false` are a call that does not return 1; a
-- number is the size that a call reports in `outputSize` or `finalSize`. The last argument of
-- `decrypt_final` is the tag that was set.
pub record Evp : Type 0 where
  pub ready : Bytes → Bytes → Bool
  pub update_aad : Bytes → Bytes → Bytes → Option ℕ
  pub encrypt : Bytes → Bytes → Bytes → Bytes → Option (Bytes × ℕ)
  pub encrypt_final : Bytes → Bytes → Bytes → Bytes → Option (ℕ × Bytes)
  pub decrypt : Bytes → Bytes → Bytes → Bytes → Option (Bytes × ℕ)
  pub decrypt_final : Bytes → Bytes → Bytes → Bytes → Bytes → Option ℕ

pub record AesGcmParameters : Type 0 where
  pub nonce : Span
  pub additional_authenticated_data : Span
  pub input : Span

-- `std::vector::resize`.
unfoldable pub resize : ℕ → Bytes → Bytes
resize n xs = take n xs ++ replicate (n - length xs) 0

-- Every caller passes a tag that is there.
unfoldable pub validate_aes_gcm_input :
    SecurityKey → AesGcmParameters → Result SecurityStatus (Unit {0})
validate_aes_gcm_input k p = elim (validate_security_key suite0 k) [
  | fail e ↦ fail e
  | done _ ↦
      if is_null_data p.nonce || not (size p.nonce == 12)
      then fail invalid_argument
      else if is_null_data p.additional_authenticated_data || is_null_data p.input
      then fail invalid_argument
      else done tt
]

unfoldable pub size_fits_int : ℕ → Bool
size_fits_int n = leb n 0x7FFF_FFFF

-- `outputSize` behind the update with the additional data: 0 where there is none.
unfoldable pub aad_output : Evp → Bytes → Bytes → Bytes → Option ℕ
aad_output evp key nonce aad = if length aad == 0 then some 0 else evp.update_aad key nonce aad

-- The buffer and `outputSize` behind the update with the input: the latter stays where there is none.
unfoldable pub input_output : Option (Bytes × ℕ) → Bytes → ℕ → Option (Bytes × ℕ)
input_output update input output_size = if length input == 0 then some ([], output_size) else update

-- The ciphertext and the tag.
unfoldable pub open_ssl_seal :
    Evp → Bytes → Bytes → Bytes → Bytes → Result SecurityStatus (Bytes × Bytes)
open_ssl_seal evp key nonce aad input =
    if not (size_fits_int (length input)) || not (size_fits_int (length aad))
    then fail invalid_argument
    else if not (evp.ready key nonce)
    then fail cipher_failed
    else elim (aad_output evp key nonce aad) [
      | none ↦ fail cipher_failed
      | some aad_size ↦ elim (input_output (evp.encrypt key nonce aad input) input aad_size) [
        | none ↦ fail cipher_failed
        | some (cipher_text, output_size) ↦ elim (evp.encrypt_final key nonce aad input) [
          | none ↦ fail cipher_failed
          | some (final_size, tag) ↦ done (resize (output_size + final_size) cipher_text, tag)
        ]
      ]
    ]

unfoldable pub open_ssl_open :
    Evp → Bytes → Bytes → Bytes → Bytes → Bytes → Result SecurityStatus Bytes
open_ssl_open evp key nonce aad input tag =
    if not (size_fits_int (length input)) || not (size_fits_int (length aad))
    then fail invalid_argument
    else if not (evp.ready key nonce)
    then fail decipher_failed
    else elim (aad_output evp key nonce aad) [
      | none ↦ fail decipher_failed
      | some aad_size ↦ elim (input_output (evp.decrypt key nonce aad input) input aad_size) [
        | none ↦ fail decipher_failed
        | some (plain_text, output_size) ↦ elim (evp.decrypt_final key nonce aad input tag) [
          | none ↦ fail decipher_failed
          | some final_size ↦ done (resize (output_size + final_size) plain_text)
        ]
      ]
    ]

unfoldable pub aes_seal :
    Evp → SecurityKey → AesGcmParameters → Result SecurityStatus (Bytes × Bytes)
aes_seal evp k p = elim (validate_aes_gcm_input k p) [
  | fail e ↦ fail e
  | done _ ↦
      open_ssl_seal evp k.key (contents p.nonce) (contents p.additional_authenticated_data)
        (contents p.input)
]

unfoldable pub aes_open : Evp → SecurityKey → AesGcmParameters → Bytes → Result SecurityStatus Bytes
aes_open evp k p tag = elim (validate_aes_gcm_input k p) [
  | fail e ↦ fail e
  | done _ ↦
      open_ssl_open evp k.key (contents p.nonce) (contents p.additional_authenticated_data)
        (contents p.input) tag
]
