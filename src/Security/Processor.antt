-- ===== src/Security/Processor.antt =====
-- lib/dlms-security/src/security/ciphered_apdu_processor.cpp, with the keys of an
-- `InMemoryKeyStore` and the counters of an `InMemoryInvocationCounterStore`.
pub mod RoundTrip
pub mod Laws
pub mod Replay
use dlms.Prelude.{
  ℕ, zero, suc, ◌+◌, ◌-◌, ◌*◌, ◌/◌, ◌%◌, ◌^◌, ◌≤◌, ◌<◌, min, ◌≡◌, refl, sym, ap, ◌∙◌, ◌≢◌, ◌↔◌, ◌⊎◌,
  inl, inr, Bool, true, false, ◌&&◌, ◌||◌, not, Option, none, some, List, [], ◌∷◌, ◌++◌, map,
  append_assoc, append-nil, arith, ltb, leb, ◌==◌, if◌then◌else◌, ltb→lt, lt→ltb, le→ltb,
  ltb-false→le, ==→eq, Bool-cases, Option-cases, length, get_or, take, drop, replicate, All, concat,
  length-append, length-take, length-drop, length-replicate, take-append-drop, take-append_le,
  drop-append_le, get_or-append_lt, take-append_length, drop-append_length, drop-drop,
  take-append_ge, get_or-append_length, All-append, eq-nil, take-length, Result, done, fail,
  Result-cases, IsDone, Bytes, IsByte, is_null_data, contents, Span, null, bytes, Allocator,
  high_byte, low_byte, join_bytes, overwrite, size, Written, tests,
}
use dlms.Security.Types.{
  SecurityStatus, SecurityPolicy, SecurityContext, SecurityKey, SecurityKeyRole, suite0,
  no_security, authenticated, encrypted, authenticated_and_encrypted, global_unicast_encryption,
  authentication, is_no_security, is_valid_system_title, validate_security_key,
  validate_security_context, invalid_argument, unsupported_feature, invalid_system_title,
  authentication_failed,
}
use dlms.Security.Keys.{InMemoryKeyStore, get_key}
use dlms.Security.Counters.{Counters, Counted, ◌>>=◌, next_local, validate_remote_for_system_title}
use dlms.Security.Gcm.{Evp, AesGcmParameters, aes_seal, aes_open}

unfoldable pub security_control_for_policy : SecurityPolicy → ℕ
security_control_for_policy no_security = 0x00
security_control_for_policy authenticated = 0x10
security_control_for_policy encrypted = 0x20
security_control_for_policy authenticated_and_encrypted = 0x30

unfoldable pub is_supported_policy : SecurityPolicy → Bool
is_supported_policy no_security = true
is_supported_policy authenticated = false
is_supported_policy encrypted = false
is_supported_policy authenticated_and_encrypted = true

unfoldable pub validate_processor_context : SecurityContext → Result SecurityStatus (Unit {0})
validate_processor_context context = elim (validate_security_context context) [
  | fail e ↦ fail e
  | done _ ↦ if not (is_supported_policy context.policy) then fail unsupported_feature else done tt
]

unfoldable pub write_big_endian32 : ℕ → Bytes
write_big_endian32 value =
    value / 16777216 % 256 ∷ value / 65536 % 256 ∷ value / 256 % 256 ∷ value % 256 ∷ []

-- Of the four bytes at the front of `input`.
unfoldable pub read_big_endian32 : Bytes → ℕ
read_big_endian32 input =
    get_or input 0 0 * 16777216
    + get_or input 1 0 * 65536
    + get_or input 2 0 * 256
    + get_or input 3 0

unfoldable pub build_nonce : Bytes → ℕ → Result SecurityStatus Bytes
build_nonce system_title invocation_counter =
    if not (is_valid_system_title system_title)
    then fail invalid_system_title
    else done (system_title ++ write_big_endian32 invocation_counter)

unfoldable pub get_suite0_key :
    InMemoryKeyStore → SecurityKeyRole → Result SecurityStatus SecurityKey
get_suite0_key keys role = elim (get_key keys role) [
  | fail e ↦ fail e
  | done k ↦ elim (validate_security_key suite0 k) [ fail e ↦ fail e | done _ ↦ done k ]
]

unfoldable pub build_aad : ℕ → SecurityKey → Bytes
build_aad security_control authentication_key = security_control ∷ authentication_key.key

-- A call that does not touch the counters.
abbrev pub still : {A : Type 0} → Result SecurityStatus A → Counted A
still r c = (r, c)

-- What `Protect` does once the context asks for protection.
unfoldable pub protect_with : Evp → SecurityContext → InMemoryKeyStore → Span → Counted Bytes
protect_with evp context keys plain_apdu = do
  encryption_key ← still (get_suite0_key keys global_unicast_encryption)
  authentication_key ← still (get_suite0_key keys authentication)
  invocation_counter ← next_local
  nonce ← still (build_nonce context.local_system_title invocation_counter)
  sealed ← still (
      aes_seal evp encryption_key (record {
        nonce = bytes nonce;
        additional_authenticated_data =
            bytes (build_aad (security_control_for_policy context.policy) authentication_key);
        input = plain_apdu;
      }))
  still (
      done (
        security_control_for_policy context.policy ∷ write_big_endian32 invocation_counter
        ++ sealed.0
        ++ sealed.1))

unfoldable pub protect : Evp → SecurityContext → InMemoryKeyStore → Span → Counted Bytes
protect evp context keys plain_apdu =
    if is_null_data plain_apdu then still (fail invalid_argument) else do
      valid ← still (validate_processor_context context)
      if is_no_security context.policy
          then still (done (contents plain_apdu))
          else protect_with evp context keys plain_apdu

-- What `Unprotect` does with a protected APDU of `size` bytes, `minimumSize` (21) or more: the
-- header of five bytes, the ciphertext and the tag of sixteen.
unfoldable pub unprotect_with : Evp → SecurityContext → InMemoryKeyStore → Bytes → Counted Bytes
unprotect_with evp context keys protected_apdu = do
  encryption_key ← still (get_suite0_key keys global_unicast_encryption)
  authentication_key ← still (get_suite0_key keys authentication)
  nonce ←
      still (build_nonce context.remote_system_title (read_big_endian32 (drop 1 protected_apdu)))
  plain_apdu ← still (
      aes_open evp encryption_key
        (record {
          nonce = bytes nonce;
          additional_authenticated_data =
              bytes (build_aad (security_control_for_policy context.policy) authentication_key);
          input = bytes (take (length protected_apdu - 21) (drop 5 protected_apdu));
        })
        (take 16 (drop (length protected_apdu - 21) (drop 5 protected_apdu))))
  accepted ←
      validate_remote_for_system_title (bytes context.remote_system_title)
        (read_big_endian32 (drop 1 protected_apdu))
  still (done plain_apdu)

unfoldable pub unprotect : Evp → SecurityContext → InMemoryKeyStore → Span → Counted Bytes
unprotect evp context keys protected_apdu =
    if is_null_data protected_apdu then still (fail invalid_argument) else do
      valid ← still (validate_processor_context context)
      if is_no_security context.policy
          then still (done (contents protected_apdu))
          else if ltb (size protected_apdu) 21
          then still (fail invalid_argument)
          else if not
              (get_or (contents protected_apdu) 0 0 == security_control_for_policy context.policy)
          then still (fail authentication_failed)
          else unprotect_with evp context keys (contents protected_apdu)
