-- ===== src/Security/Keys.antt =====
-- lib/dlms-security/src/security/in_memory_key_store.cpp.
use dlms.Prelude.{ℕ, ◌||◌, Option, none, some, ltb, ◌==◌, if◌then◌else◌, length, Result, done, fail}
use dlms.Security.Types.{
  SecurityStatus, SecurityKey, SecurityKeyRole, missing_key, invalid_key_length,
  global_unicast_encryption, global_broadcast_encryption, authentication, key_encryption, dedicated,
}

-- The `std::map` of the keys by their roles.
abbrev pub InMemoryKeyStore : Type 0
InMemoryKeyStore = SecurityKeyRole → Option SecurityKey

unfoldable pub role_number : SecurityKeyRole → ℕ
role_number global_unicast_encryption = 0
role_number global_broadcast_encryption = 1
role_number authentication = 2
role_number key_encryption = 3
role_number dedicated = 4

-- The array of a key has 32 bytes.
unfoldable pub set_key : SecurityKey → InMemoryKeyStore → Result SecurityStatus InMemoryKeyStore
set_key k keys =
    if length k.key == 0 || ltb 32 (length k.key)
    then fail invalid_key_length
    else done (λ role. if role_number role == role_number k.role then some k else keys role)

unfoldable pub clear_keys : InMemoryKeyStore
clear_keys role = none

unfoldable pub get_key : InMemoryKeyStore → SecurityKeyRole → Result SecurityStatus SecurityKey
get_key keys role = elim (keys role) [ none ↦ fail missing_key | some k ↦ done k ]
