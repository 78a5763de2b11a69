-- ===== src/Security/Types.antt =====
-- lib/dlms-security: security_status.hpp, security_types.hpp and security_types.cpp.
use dlms.Prelude.{
  ℕ, Bool, true, false, ◌||◌, not, [], ◌∷◌, ◌==◌, if◌then◌else◌, length, replicate, Result, done,
  fail, Bytes,
}

pub data SecurityStatus : Type 0 where
  invalid_argument invalid_context unsupported_feature missing_key invalid_key_length :
      SecurityStatus
  invalid_system_title invalid_invocation_counter invocation_counter_exhausted : SecurityStatus
  replay_detected authentication_failed cipher_failed decipher_failed : SecurityStatus
  output_buffer_too_small internal_error : SecurityStatus

pub data SecuritySuite : Type 0 where
  suite0 suite1 suite2 : SecuritySuite

pub data SecurityRole : Type 0 where
  client server : SecurityRole

pub data SecurityKeyRole : Type 0 where
  global_unicast_encryption global_broadcast_encryption authentication : SecurityKeyRole
  key_encryption dedicated : SecurityKeyRole

pub data SecurityPolicy : Type 0 where
  no_security authenticated encrypted authenticated_and_encrypted : SecurityPolicy

-- `key` is the first `size` bytes of the array of 32.
pub record SecurityKey : Type 0 where
  pub role : SecurityKeyRole
  pub key : Bytes

-- The system titles are the arrays of eight bytes.
pub record SecurityContext : Type 0 where
  pub suite : SecuritySuite
  pub policy : SecurityPolicy
  pub role : SecurityRole
  pub client_sap : ℕ
  pub server_sap : ℕ
  pub local_system_title : Bytes
  pub remote_system_title : Bytes

unfoldable pub is_suite0 : SecuritySuite → Bool
is_suite0 suite0 = true
is_suite0 suite1 = false
is_suite0 suite2 = false

unfoldable pub is_no_security : SecurityPolicy → Bool
is_no_security no_security = true
is_no_security authenticated = false
is_no_security encrypted = false
is_no_security authenticated_and_encrypted = false

unfoldable pub empty_security_key : SecurityKeyRole → SecurityKey
empty_security_key role = record { role = role; key = [] }

unfoldable pub empty_security_context : SecurityContext
empty_security_context = record {
  suite = suite0;
  policy = no_security;
  role = client;
  client_sap = 0;
  server_sap = 0;
  local_system_title = replicate 8 0;
  remote_system_title = replicate 8 0;
}

unfoldable pub is_valid_system_title : Bytes → Bool
is_valid_system_title [] = false
is_valid_system_title (b ∷ bs) = not (b == 0) || is_valid_system_title bs

unfoldable pub required_key_size : SecuritySuite → ℕ
required_key_size suite0 = 16
required_key_size suite1 = 16
required_key_size suite2 = 32

unfoldable pub validate_security_key :
    SecuritySuite → SecurityKey → Result SecurityStatus (Unit {0})
validate_security_key suite k =
    if length k.key == 0
    then fail missing_key
    else if not (length k.key == required_key_size suite)
    then fail invalid_key_length
    else done tt

unfoldable pub validate_security_context : SecurityContext → Result SecurityStatus (Unit {0})
validate_security_context context =
    if not (is_suite0 context.suite)
    then fail unsupported_feature
    else if context.client_sap == 0 || context.server_sap == 0
    then fail invalid_context
    else if is_no_security context.policy
    then done tt
    else if not (is_valid_system_title context.local_system_title)
        || not (is_valid_system_title context.remote_system_title)
    then fail invalid_system_title
    else done tt
