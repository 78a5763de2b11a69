-- ===== src/Security/Gcm/Laws.antt =====
-- suite0_aes_gcm.cpp: sealing and opening with an OpenSSL that does AES-GCM.
use dlms.Prelude.{
  zero, ◌++◌, ℕ, ◌+◌, ◌-◌, ◌≤◌, ◌<◌, ◌≡◌, refl, ap, true, false, some, append-nil, arith, ◌==◌,
  length, take-length, done, Bytes, bytes, [], replicate, take, suc,
}
use dlms.Security.Types.{SecurityKey, validate_security_key, required_key_size}
use dlms.Security.Gcm.{
  Evp, AesGcmParameters, aes_seal, aes_open, open_ssl_seal, open_ssl_open, validate_aes_gcm_input,
  aad_output, input_output, resize, size_fits_int,
}

-- What the EVP interface documents of AES-GCM: every call succeeds; the update with additional data
-- reports its size; the ciphertext is as long as the text; the last calls write nothing and give,
-- or check, a tag of sixteen bytes.
pub record IsGcm (evp : Evp) (cipher tag : Bytes → Bytes → Bytes → Bytes → Bytes) : Type 0 where
  pub takes : (k n : Bytes) → evp.ready k n ≡ true
  pub reports_aad : (k n a : Bytes) → evp.update_aad k n a ≡ some (length a)
  pub encrypts : (k n a x : Bytes) → evp.encrypt k n a x ≡ some (cipher k n a x, length x)
  pub tags : (k n a x : Bytes) → evp.encrypt_final k n a x ≡ some (0, tag k n a x)
  pub decrypts : (k n a x : Bytes) → evp.decrypt k n a (cipher k n a x) ≡ some (x, length x)
  pub accepts : (k n a x : Bytes) → evp.decrypt_final k n a (cipher k n a x) (tag k n a x) ≡ some 0
  pub length_cipher : (k n a x : Bytes) → length (cipher k n a x) ≡ length x
  pub length_tag : (k n a x : Bytes) → length (tag k n a x) ≡ 16

-- The sizes that the code takes: a key of 16 bytes, a nonce of 12, and a text of at least one byte.
pub record IsSealable (k : SecurityKey) (n a x : Bytes) : Type 0 where
  pub key_size : length k.key ≡ 16
  pub nonce_size : length n ≡ 12
  pub aad_size : (0 < length a) × (length a ≤ 0x7FFF_FFFF)
  pub text_size : (0 < length x) × (length x ≤ 0x7FFF_FFFF)

abbrev pub gcm_parameters : Bytes → Bytes → Bytes → AesGcmParameters
gcm_parameters n a x = record {
  nonce = bytes n;
  additional_authenticated_data = bytes a;
  input = bytes x;
}

resize_whole : (n : ℕ) (xs : Bytes) → length xs ≡ n → resize (n + 0) xs ≡ xs
unfolding resize
resize_whole n xs e =
    rw (no_more n (length xs) e, take-length (n + 0) xs (omega (arith, e))) (append-nil xs)
  where
    no_more : (n l : ℕ) → l ≡ n → n + 0 - l ≡ 0
    no_more n l e = omega arith

valid_input :
    (k : SecurityKey) (n a x : Bytes)
    → length k.key ≡ 16
    → length n ≡ 12
    → validate_aes_gcm_input k (gcm_parameters n a x) ≡ done tt
unfolding validate_aes_gcm_input validate_security_key required_key_size
valid_input k n a x hk hn = rw (hk, hn, validate_aes_gcm_input, validate_security_key) refl

abbrev resized : ℕ → Bytes
resized m = take m [] ++ replicate m 0

grown : (n : ℕ) → resize (n + 0) [] ≡ replicate (n + 0) 0
unfolding resize
grown n = rw (all_new (n + 0)) (nothing_kept (n + 0))
  where
    all_new : (m : ℕ) → m - 0 ≡ m
    all_new m = omega arith

    nothing_kept : (m : ℕ) → resized m ≡ replicate m 0
    nothing_kept zero = refl
    nothing_kept (suc m) = refl

some_size : (l : ℕ) → 0 < l → (l == 0) ≡ false
some_size l h = ground arith

fits : (l : ℕ) → l ≤ 0x7FFF_FFFF → size_fits_int l ≡ true
unfolding size_fits_int
fits l h = ground arith

module _ {evp : Evp} {cipher tag : Bytes → Bytes → Bytes → Bytes → Bytes}
    (gcm : IsGcm evp cipher tag) where
  pub aes_seal-done :
      (k : SecurityKey) (n a x : Bytes)
      → IsSealable k n a x
      → aes_seal evp k (gcm_parameters n a x) ≡ done (cipher k.key n a x, tag k.key n a x)
  unfolding aes_seal open_ssl_seal aad_output input_output
  aes_seal-done k n a x s =
      rw
        (
          valid_input k n a x s.key_size s.nonce_size,
          fits (length x) s.text_size.1,
          fits (length a) s.aad_size.1,
          gcm.takes k.key n,
          some_size (length a) s.aad_size.0,
          gcm.reports_aad k.key n a,
          some_size (length x) s.text_size.0,
          gcm.encrypts k.key n a x,
          gcm.tags k.key n a x,
          aes_seal,
          open_ssl_seal,
          aad_output,
          input_output,
        )
        (ap (λ c. done (c, tag k.key n a x))
          (resize_whole (length x) (cipher k.key n a x) (gcm.length_cipher k.key n a x)))

  pub aes_open-done :
      (k : SecurityKey) (n a x : Bytes)
      → IsSealable k n a x
      → aes_open evp k (gcm_parameters n a (cipher k.key n a x)) (tag k.key n a x) ≡ done x
  unfolding aes_open open_ssl_open aad_output input_output
  aes_open-done k n a x s =
      rw
        (
          valid_input k n a (cipher k.key n a x) s.key_size s.nonce_size,
          gcm.length_cipher k.key n a x,
          fits (length x) s.text_size.1,
          fits (length a) s.aad_size.1,
          gcm.takes k.key n,
          some_size (length a) s.aad_size.0,
          gcm.reports_aad k.key n a,
          gcm.length_cipher k.key n a x,
          some_size (length x) s.text_size.0,
          gcm.decrypts k.key n a x,
          gcm.accepts k.key n a x,
          aes_open,
          open_ssl_open,
          aad_output,
          input_output,
        )
        (ap done (resize_whole (length x) x refl))

  -- An empty text is sealed as one zero byte for each byte of the additional data.
  aes_seal-empty :
      (k : SecurityKey) (n a : Bytes)
      → length k.key ≡ 16
      → length n ≡ 12
      → (0 < length a) × (length a ≤ 0x7FFF_FFFF)
      → aes_seal evp k (gcm_parameters n a []) ≡ done (replicate (length a + 0) 0, tag k.key n a [])
  unfolding aes_seal open_ssl_seal aad_output input_output resize
  aes_seal-empty k n a hk hn ha =
      rw
        (
          valid_input k n a [] hk hn,
          fits 0 (omega arith),
          fits (length a) ha.1,
          gcm.takes k.key n,
          some_size (length a) ha.0,
          gcm.reports_aad k.key n a,
          gcm.tags k.key n a [],
          aes_seal,
          open_ssl_seal,
          aad_output,
          input_output,
        )
        (ap (λ c. done (c, tag k.key n a [])) (grown (length a)))
