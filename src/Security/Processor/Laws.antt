-- ===== src/Security/Processor/Laws.antt =====
-- ciphered_apdu_processor.cpp: what the peer gets, and what it does not take.
use dlms.Prelude.{
  ℕ, suc, ◌≤◌, ◌<◌, ◌≡◌, refl, sym, ◌∙◌, false, arith, ◌==◌, le→ltb, length, done, Bytes, bytes,
}
use dlms.Security.Types.{SecurityContext, SecurityKey, is_no_security}
use dlms.Security.Keys.{InMemoryKeyStore}
use dlms.Security.Counters.{Counters, set_local_counter, set_counter_of}
use dlms.Security.Counters.Laws.{highest_of}
use dlms.Security.Gcm.{Evp}
use dlms.Security.Gcm.Laws.{IsGcm}
use dlms.Security.Processor.{
  security_control_for_policy, protect_with, protect, unprotect_with, unprotect,
}
use dlms.Security.Processor.RoundTrip.{
  IsSecured, HasKeys, protected_bytes, protect_with-done, unprotect_with-done, >>=-still,
  length-message, message,
}

protect-with :
    (evp : Evp) (context : SecurityContext) (keys : InMemoryKeyStore) (x : Bytes) (c : Counters)
    → IsSecured context context.local_system_title
    → protect evp context keys (bytes x) c ≡ protect_with evp context keys (bytes x) c
unfolding protect is_no_security
protect-with evp context keys x c h = >>=-still _ _ c tt h.valid ∙ rw h.policy refl

unprotect-with :
    (evp : Evp) (context : SecurityContext) (keys : InMemoryKeyStore) (n : ℕ) (c t : Bytes)
    (d : Counters)
    → IsSecured context context.remote_system_title
    → length t ≡ 16
    → unprotect evp context keys (bytes (message n c t)) d
      ≡ unprotect_with evp context keys (message n c t) d
unfolding unprotect is_no_security security_control_for_policy
unprotect-with evp context keys n c t d h ht =
    >>=-still _ _ d tt h.valid
    ∙ rw (h.policy, le→ltb (length (message n c t)) 21 (omega (arith, length-message n c t ht)))
        refl

-- Where OpenSSL does AES-GCM as documented, both sides hold the same two keys of sixteen bytes in
-- valid contexts for authentication and encryption, the title that the receiver has for its peer
-- is the sender's, the counter is not exhausted, and the receiver has taken only smaller counters
-- of that title: a non-empty APDU of less than 2^31 bytes is protected, with the sender's counter
-- moved on, and the receiver gets it back and keeps its counter.
pub unprotect-protect :
    {evp : Evp} {cipher tag : Bytes → Bytes → Bytes → Bytes → Bytes} (gcm : IsGcm evp cipher tag)
    (ek ak : SecurityKey) (sender receiver : SecurityContext)
    (sender_keys receiver_keys : InMemoryKeyStore) (x : Bytes) (c d : Counters)
    → IsSecured sender sender.local_system_title
    → IsSecured receiver receiver.remote_system_title
    → receiver.remote_system_title ≡ sender.local_system_title
    → HasKeys sender_keys ek ak
    → HasKeys receiver_keys ek ak
    → (0 < length x) × (length x ≤ 0x7FFF_FFFF)
    → c.next_local_counter < 0xFFFF_FFFF
    → highest_of receiver.remote_system_title d < c.next_local_counter
    → (protect evp sender sender_keys (bytes x) c ≡ (
      done (protected_bytes cipher tag ek ak sender.local_system_title c.next_local_counter x),
      set_local_counter (suc c.next_local_counter) c,
    ))
      × (unprotect evp receiver receiver_keys
            (bytes
              (protected_bytes cipher tag ek ak sender.local_system_title c.next_local_counter x))
            d
          ≡ (done x, set_counter_of sender.local_system_title c.next_local_counter d))
unprotect-protect gcm ek ak sender receiver sender_keys receiver_keys x c d hs hr same ks kr hx
      small new =
    (
      protect-with _ sender sender_keys x c hs
          ∙ protect_with-done gcm ek ak sender sender_keys x c hs ks hx
              (not_last c.next_local_counter small),
      rw (sym same) (
          unprotect-with _ receiver receiver_keys c.next_local_counter _ _ d hr
            (gcm.length_tag _ _ _ _)
          ∙ unprotect_with-done gcm ek ak receiver receiver_keys x c.next_local_counter d hr kr hx
              (omega (arith, small)) new),
    )
  where
    not_last : (k : ℕ) → k < 0xFFFF_FFFF → (k == 0xFFFF_FFFF) ≡ false
    not_last k h = ground arith
