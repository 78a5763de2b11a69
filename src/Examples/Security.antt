-- ===== src/Examples/Security.antt =====
-- Runs of the invocation counters and of the protection of APDUs (lib/dlms-security).
use dlms.Prelude.{
  ℕ, min, ◌≡◌, refl, true, none, some, List, [], ◌∷◌, arith, length, replicate, done, fail, Bytes,
  bytes,
}
use dlms.Security.Types.{
  SecurityContext, SecurityKey, suite0, authenticated_and_encrypted, client,
  global_unicast_encryption, authentication, invalid_argument, replay_detected,
  is_valid_system_title, validate_security_context, is_suite0, is_no_security,
}
use dlms.Security.Keys.{InMemoryKeyStore, get_key}
use dlms.Security.Counters.{◌>>=◌, new_counters, set_counter_of, set_local_counter}
use dlms.Security.Counters.Laws.{
  IsAbove, highest_of, accepted_of, accepted_of-IsAbove, given_out, count_from,
  given_out-count_from,
}
use dlms.Security.Gcm.{Evp}
use dlms.Security.Gcm.Laws.{IsGcm}
use dlms.Security.Processor.{protect, unprotect, validate_processor_context, is_supported_policy}
use dlms.Security.Processor.RoundTrip.{IsSecured, HasKeys, protected_bytes}
use dlms.Security.Processor.Laws.{unprotect-protect}
use dlms.Security.Processor.Replay.{unprotect-unchanged, unprotect-replay}

abbrev client_title : Bytes
client_title = 1 ∷ 2 ∷ 3 ∷ 4 ∷ 5 ∷ 6 ∷ 7 ∷ 8 ∷ []

abbrev server_title : Bytes
server_title = 8 ∷ 7 ∷ 6 ∷ 5 ∷ 4 ∷ 3 ∷ 2 ∷ 1 ∷ []

-- A cipher that leaves the text as it is, with a tag of zeros.
abbrev plain_cipher : Bytes → Bytes → Bytes → Bytes → Bytes
plain_cipher k n a x = x

abbrev zero_tag : Bytes → Bytes → Bytes → Bytes → Bytes
zero_tag k n a x = replicate 16 0

abbrev plain_evp : Evp
plain_evp = record {
  ready = λ k n. true;
  update_aad = λ k n a. some (length a);
  encrypt = λ k n a x. some (x, length x);
  encrypt_final = λ k n a x. some (0, replicate 16 0);
  decrypt = λ k n a x. some (x, length x);
  decrypt_final = λ k n a x t. some 0;
}

plain-IsGcm : IsGcm plain_evp plain_cipher zero_tag
plain-IsGcm = record {
  takes = λ k n. refl;
  reports_aad = λ k n a. refl;
  encrypts = λ k n a x. refl;
  tags = λ k n a x. refl;
  decrypts = λ k n a x. refl;
  accepts = λ k n a x. refl;
  length_cipher = λ k n a x. refl;
  length_tag = λ k n a x. refl;
}

abbrev encryption_key : SecurityKey
encryption_key = record { role = global_unicast_encryption; key = replicate 16 7 }

abbrev authentication_key : SecurityKey
authentication_key = record { role = authentication; key = replicate 16 9 }

abbrev key_pair : InMemoryKeyStore
key_pair global_unicast_encryption = some encryption_key
key_pair authentication = some authentication_key
key_pair _ = none

key_pair-HasKeys : HasKeys key_pair encryption_key authentication_key
unfolding get_key
key_pair-HasKeys = record {
  encryption = refl;
  authenticates = refl;
  encryption_size = refl;
  authentication_size = refl;
}

abbrev context_of : Bytes → Bytes → SecurityContext
context_of mine peers = record {
  suite = suite0;
  policy = authenticated_and_encrypted;
  role = client;
  client_sap = 16;
  server_sap = 1;
  local_system_title = mine;
  remote_system_title = peers;
}

abbrev sender : SecurityContext
sender = context_of client_title server_title

abbrev receiver : SecurityContext
receiver = context_of server_title client_title

sender-IsSecured : IsSecured sender client_title
unfolding validate_processor_context validate_security_context is_suite0 is_no_security
    is_supported_policy is_valid_system_title
sender-IsSecured = record { valid = refl; policy = refl; title_valid = refl; title_size = refl }

receiver-IsSecured : IsSecured receiver client_title
unfolding validate_processor_context validate_security_context is_suite0 is_no_security
    is_supported_policy is_valid_system_title
receiver-IsSecured = record { valid = refl; policy = refl; title_valid = refl; title_size = refl }

abbrev apdu : Bytes
apdu = 0xC0 ∷ 1 ∷ []

abbrev protected_apdu : Bytes
protected_apdu =
    protected_bytes plain_cipher zero_tag encryption_key authentication_key client_title 1 apdu

unprotect-protect_example :
    (protect plain_evp sender key_pair (bytes apdu) new_counters
      ≡ (done protected_apdu, set_local_counter 2 new_counters))
    × (unprotect plain_evp receiver key_pair (bytes protected_apdu) new_counters
        ≡ (done apdu, set_counter_of client_title 1 new_counters))
unfolding new_counters highest_of
unprotect-protect_example =
    unprotect-protect plain-IsGcm encryption_key authentication_key sender receiver key_pair
      key_pair apdu new_counters new_counters sender-IsSecured receiver-IsSecured refl
      key_pair-HasKeys key_pair-HasKeys (omega arith, omega arith) (omega arith) (omega arith)

accepted-once :
    unprotect plain_evp receiver key_pair (bytes protected_apdu) new_counters
    ≡ (done apdu, set_counter_of client_title 1 new_counters)
unfolding new_counters highest_of
accepted-once =
    (unprotect-protect plain-IsGcm encryption_key authentication_key sender receiver key_pair
      key_pair apdu new_counters new_counters sender-IsSecured receiver-IsSecured refl
      key_pair-HasKeys key_pair-HasKeys (omega arith, omega arith) (omega arith) (omega arith)).1

unprotect-replay_example :
    unprotect plain_evp receiver key_pair
      (bytes protected_apdu)
      (set_counter_of client_title 1 new_counters)
    ≡ (fail replay_detected, set_counter_of client_title 1 new_counters)
unprotect-replay_example =
    unprotect-replay plain_evp receiver key_pair (bytes protected_apdu) new_counters
      (set_counter_of client_title 1 new_counters) apdu (unfold is_no_security in refl)
      accepted-once

unprotect-unchanged_example :
    (unprotect plain_evp receiver key_pair (bytes (0x30 ∷ [])) new_counters).1 ≡ new_counters
unprotect-unchanged_example =
    unprotect-unchanged plain_evp receiver key_pair (bytes (0x30 ∷ [])) new_counters
      invalid_argument
      (unfold unprotect ◌>>=◌ validate_processor_context validate_security_context is_suite0
          is_no_security is_supported_policy is_valid_system_title in
        refl)

-- A counter that goes back, and one of another title.
abbrev calls : List (Bytes × ℕ)
calls = (client_title, 5) ∷ (client_title, 3) ∷ (server_title, 1) ∷ (client_title, 6) ∷ []

accepted_of-IsAbove_example :
    IsAbove (highest_of client_title new_counters) (accepted_of client_title calls new_counters)
accepted_of-IsAbove_example = accepted_of-IsAbove client_title calls new_counters

given_out-count_from_example : given_out 3 new_counters ≡ count_from 1 (min 3 0xFFFF_FFFE)
unfolding new_counters
given_out-count_from_example = given_out-count_from 3 new_counters (omega arith)
