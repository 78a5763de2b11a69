-- ===== src/Security/Processor/RoundTrip.antt =====
-- ciphered_apdu_processor.cpp: an APDU from `Protect` to the peer's `Unprotect`.
use dlms.Prelude.{
  ℕ, suc, ◌+◌, ◌-◌, ◌≤◌, ◌<◌, ◌≡◌, refl, sym, ap, ◌∙◌, inl, inr, true, false, ◌∷◌, ◌++◌, arith, leb,
  ◌==◌, Option-cases, length, take, drop, length-append, take-append_length, drop-append_length,
  take-length, Result, done, fail, Bytes, bytes,
}
use dlms.Security.Types.{
  SecurityStatus, SecurityContext, SecurityKey, SecurityKeyRole, authenticated_and_encrypted,
  global_unicast_encryption, authentication, is_valid_system_title, validate_security_key,
  required_key_size,
}
use dlms.Security.Keys.{InMemoryKeyStore, get_key}
use dlms.Security.Counters.{
  Counters, Counted, ◌>>=◌, next_local, set_local_counter, set_counter_of,
  validate_remote_for_system_title,
}
use dlms.Security.Counters.Laws.{highest_of, next_local-fresh}
use dlms.Security.Gcm.{Evp}
use dlms.Security.Gcm.Laws.{IsGcm, IsSealable, aes_seal-done, aes_open-done}
use dlms.Security.Processor.{
  security_control_for_policy, validate_processor_context, write_big_endian32, read_big_endian32,
  build_nonce, get_suite0_key, build_aad, still, protect_with, unprotect_with,
}

-- A context that protects: it is valid, and the title in `title` is a title of eight bytes.
pub record IsSecured (context : SecurityContext) (title : Bytes) : Type 0 where
  pub valid : validate_processor_context context ≡ done tt
  pub policy : context.policy ≡ authenticated_and_encrypted
  pub title_valid : is_valid_system_title title ≡ true
  pub title_size : length title ≡ 8

-- The two keys, of sixteen bytes, stand in the store.
pub record HasKeys (keys : InMemoryKeyStore) (encryption_key authentication_key : SecurityKey)
    : Type 0 where
  pub encryption : get_key keys global_unicast_encryption ≡ done encryption_key
  pub authenticates : get_key keys authentication ≡ done authentication_key
  pub encryption_size : length encryption_key.key ≡ 16
  pub authentication_size : length authentication_key.key ≡ 16

abbrev pub nonce_of : Bytes → ℕ → Bytes
nonce_of title n = title ++ write_big_endian32 n

abbrev pub aad_of : SecurityKey → Bytes
aad_of k = 0x30 ∷ k.key

-- The protected APDU: the control byte, the counter, the ciphertext and the tag.
abbrev pub protected_bytes :
    (Bytes → Bytes → Bytes → Bytes → Bytes)
    → (Bytes → Bytes → Bytes → Bytes → Bytes)
    → SecurityKey
    → SecurityKey
    → Bytes
    → ℕ
    → Bytes
    → Bytes
protected_bytes cipher tag ek ak title n x =
    0x30 ∷ write_big_endian32 n
    ++ (cipher ek.key (nonce_of title n) (aad_of ak) x
        ++ tag ek.key (nonce_of title n) (aad_of ak) x)

pub >>=-still :
    {A B : Type 0} (r : Result SecurityStatus A) (g : A → Counted B) (c : Counters) (a : A)
    → r ≡ done a
    → (still r >>= g) c ≡ g a c
unfolding ◌>>=◌
>>=-still r g c a e = rw (e, ◌>>=◌) refl

pub >>=-counted :
    {A B : Type 0} (f : Counted A) (g : A → Counted B) (c c' : Counters) (a : A)
    → f c ≡ (done a, c')
    → (f >>= g) c ≡ g a c'
unfolding ◌>>=◌
>>=-counted f g c c' a e = ap (λ r. elim r.0 [ done b ↦ g b r.1 | fail s ↦ (fail s, r.1) ]) e

get_suite0_key-done :
    (keys : InMemoryKeyStore) (role : SecurityKeyRole) (k : SecurityKey)
    → get_key keys role ≡ done k
    → length k.key ≡ 16
    → get_suite0_key keys role ≡ done k
unfolding get_suite0_key validate_security_key required_key_size
get_suite0_key-done keys role k e h = rw (e, h, get_suite0_key, validate_security_key) refl

build_nonce-done :
    (title : Bytes) (n : ℕ)
    → is_valid_system_title title ≡ true
    → build_nonce title n ≡ done (nonce_of title n)
unfolding build_nonce
build_nonce-done title n e = rw e refl

pub read_big_endian32-write_big_endian32 :
    (n : ℕ) (rest : Bytes) → n < 4294967296 → read_big_endian32 (write_big_endian32 n ++ rest) ≡ n
unfolding read_big_endian32 write_big_endian32
read_big_endian32-write_big_endian32 n rest h = omega (arith, h)

-- A protected APDU with any ciphertext and a tag of sixteen bytes.
abbrev pub message : ℕ → Bytes → Bytes → Bytes
message n c t = 0x30 ∷ write_big_endian32 n ++ (c ++ t)

pub length-message : (n : ℕ) (c t : Bytes) → length t ≡ 16 → length (message n c t) ≡ length c + 21
unfolding write_big_endian32
length-message n c t h = omega (arith, length-append c t, h)

cipher_part :
    (n : ℕ) (c t : Bytes)
    → length t ≡ 16
    → take (length (message n c t) - 21) (drop 5 (message n c t)) ≡ c
unfolding write_big_endian32
cipher_part n c t h = take-append_length _ c t (omega (arith, length-append c t, h))

tag_part :
    (n : ℕ) (c t : Bytes)
    → length t ≡ 16
    → take 16 (drop (length (message n c t) - 21) (drop 5 (message n c t))) ≡ t
unfolding write_big_endian32
tag_part n c t h =
    ap (take 16) (drop-append_length _ c t (omega (arith, length-append c t, h)))
    ∙ take-length 16 t (sym h)

validate-fresh :
    (title : Bytes) (n : ℕ) (c : Counters)
    → length title ≡ 8
    → highest_of title c < n
    → validate_remote_for_system_title (bytes title) n c ≡ (done tt, set_counter_of title n c)
unfolding validate_remote_for_system_title highest_of
validate-fresh title n c h new = elim (Option-cases (c.highest_remote_by_system_title title)) [
  | inl e ↦ rw (h, positive n (omega (arith, new)), e) refl
  | inr (highest, e) ↦
      rw (h, positive n (omega (arith, new)), e, newer highest n (rw (e, highest_of) at new)) refl
]
  where
    positive : (n : ℕ) → 0 < n → (n == 0) ≡ false
    positive n h = ground arith

    newer : (highest n : ℕ) → highest < n → leb n highest ≡ false
    newer highest n h = ground arith

sealable :
    (keys : InMemoryKeyStore) (ek ak : SecurityKey) (title x : Bytes) (n : ℕ)
    → HasKeys keys ek ak
    → length title ≡ 8
    → (0 < length x) × (length x ≤ 0x7FFF_FFFF)
    → IsSealable ek (nonce_of title n) (aad_of ak) x
unfolding write_big_endian32
sealable keys ek ak title x n hk ht hx = record {
  key_size = hk.encryption_size;
  nonce_size = length-append title (write_big_endian32 n) ∙ ap (λ l. l + 4) ht;
  aad_size = (omega (arith, hk.authentication_size), omega (arith, hk.authentication_size));
  text_size = hx;
}

module _ {evp : Evp} {cipher tag : Bytes → Bytes → Bytes → Bytes → Bytes}
    (gcm : IsGcm evp cipher tag) (ek ak : SecurityKey) where
  pub protect_with-done :
      (context : SecurityContext) (keys : InMemoryKeyStore) (x : Bytes) (c : Counters)
      → IsSecured context context.local_system_title
      → HasKeys keys ek ak
      → (0 < length x) × (length x ≤ 0x7FFF_FFFF)
      → (c.next_local_counter == 0xFFFF_FFFF) ≡ false
      → protect_with evp context keys (bytes x) c ≡ (
        done (protected_bytes cipher tag ek ak context.local_system_title c.next_local_counter x),
        set_local_counter (suc c.next_local_counter) c,
      )
  unfolding protect_with security_control_for_policy build_aad write_big_endian32
  protect_with-done context keys x c hc hk hx fresh =
      >>=-still _ _ c ek
        (get_suite0_key-done keys global_unicast_encryption ek hk.encryption hk.encryption_size)
      ∙ >>=-still _ _ c ak
          (get_suite0_key-done keys authentication ak hk.authenticates hk.authentication_size)
      ∙ >>=-counted next_local _ c _ c.next_local_counter (next_local-fresh c fresh)
      ∙ >>=-still _ _ _ _
          (build_nonce-done context.local_system_title c.next_local_counter hc.title_valid)
      ∙ rw hc.policy (
          >>=-still _ _ _ _ (
            aes_seal-done gcm ek (nonce_of context.local_system_title c.next_local_counter)
              (aad_of ak) x
              (sealable keys ek ak context.local_system_title x c.next_local_counter hk
                hc.title_size hx)))

  pub unprotect_with-done :
      (context : SecurityContext) (keys : InMemoryKeyStore) (x : Bytes) (n : ℕ) (d : Counters)
      → IsSecured context context.remote_system_title
      → HasKeys keys ek ak
      → (0 < length x) × (length x ≤ 0x7FFF_FFFF)
      → n < 4294967296
      → highest_of context.remote_system_title d < n
      → unprotect_with evp context keys
          (protected_bytes cipher tag ek ak context.remote_system_title n x)
          d
        ≡ (done x, set_counter_of context.remote_system_title n d)
  unfolding unprotect_with security_control_for_policy build_aad
  unprotect_with-done context keys x n d hc hk hx small new =
      >>=-still _ _ d ek
        (get_suite0_key-done keys global_unicast_encryption ek hk.encryption hk.encryption_size)
      ∙ >>=-still _ _ d ak
          (get_suite0_key-done keys authentication ak hk.authenticates hk.authentication_size)
      ∙ rw
          (
            read_big_endian32-write_big_endian32 n (text ++ mark) small,
            cipher_part n text mark (gcm.length_tag _ _ _ _),
            tag_part n text mark (gcm.length_tag _ _ _ _),
            hc.policy,
          )
          (>>=-still _ _ d _ (build_nonce-done context.remote_system_title n hc.title_valid)
            ∙ >>=-still _ _ d _ (
                aes_open-done gcm ek (nonce_of context.remote_system_title n) (aad_of ak) x
                  (sealable keys ek ak context.remote_system_title x n hk hc.title_size hx))
            ∙ >>=-counted _ _ d _ tt
                (validate-fresh context.remote_system_title n d hc.title_size new))
    where
      text : Bytes
      text = cipher ek.key (nonce_of context.remote_system_title n) (aad_of ak) x

      mark : Bytes
      mark = tag ek.key (nonce_of context.remote_system_title n) (aad_of ak) x
