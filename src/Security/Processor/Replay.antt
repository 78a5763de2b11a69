-- ===== src/Security/Processor/Replay.antt =====
-- ciphered_apdu_processor.cpp: the counters behind a call of `Unprotect`, and the same APDU again.
use dlms.Prelude.{
  ℕ, ◌≡◌, refl, sym, ap, ◌∙◌, Bool, true, false, not, arith, ltb, ◌==◌, if◌then◌else◌, get_or, drop,
  Result, done, fail, Bytes, is_null_data, contents, Span, bytes, size,
}
use mathlib.Core.Path.{subst}
use dlms.Security.Types.{
  SecurityStatus, SecurityContext, is_no_security, replay_detected, invalid_argument,
  authentication_failed,
}
use dlms.Security.Keys.{InMemoryKeyStore}
use dlms.Security.Counters.{Counters, Counted, ◌>>=◌, validate_remote_for_system_title}
use dlms.Security.Counters.Laws.{Validated, validate-known, validate-again, raised, unchanged}
use dlms.Security.Gcm.{Evp}
use dlms.Security.Processor.{
  still, unprotect_with, unprotect, read_big_endian32, validate_processor_context,
  security_control_for_policy,
}

-- A call that fails leaves the store as it is.
record IsCareful {A : Type 0} (f : Counted A) : Type 0 where
  careful : (c : Counters) (e : SecurityStatus) → (f c).0 ≡ fail e → (f c).1 ≡ c

-- A call that succeeds is refused as a replay when it is made again.
record IsOnce {A : Type 0} (f : Counted A) : Type 0 where
  once : (c c' : Counters) (a : A) → f c ≡ (done a, c') → f c' ≡ (fail replay_detected, c')

still-IsCareful : {A : Type 0} (r : Result SecurityStatus A) → IsCareful (still r)
still-IsCareful r = record { careful = λ c e h. refl }

>>=-IsCareful :
    {A B : Type 0} (r : Result SecurityStatus A) (g : A → Counted B)
    → ((a : A) → IsCareful (g a))
    → IsCareful (still r >>= g)
unfolding ◌>>=◌
>>=-IsCareful (done a) g hg = record { careful = (hg a).careful }
>>=-IsCareful (fail s) g hg = record { careful = λ c e h. refl }

if-IsCareful :
    {A : Type 0} (b : Bool) (f g : Counted A)
    → IsCareful f
    → IsCareful g
    → IsCareful (if b then f else g)
if-IsCareful true f g hf hg = hf
if-IsCareful false f g hf hg = hg

>>=-IsOnce :
    {A B : Type 0} (r : Result SecurityStatus A) (g : A → Counted B)
    → ((a : A) → IsOnce (g a))
    → IsOnce (still r >>= g)
unfolding ◌>>=◌
>>=-IsOnce (done a) g hg = record { once = (hg a).once }
>>=-IsOnce (fail s) g hg = record { once = λ c c' b h. absurd (cc (ap (λ p. p.0) h)) }

-- The last step of `Unprotect`: the plain APDU is given out where the counter is accepted.
abbrev accept : Bytes → ℕ → Bytes → Counted Bytes
accept title n x = validate_remote_for_system_title (bytes title) n >>= λ _. still (done x)

settle :
    Bytes → Result SecurityStatus (Unit {0}) × Counters → Result SecurityStatus Bytes × Counters
settle x r = elim r.0 [ done _ ↦ (done x, r.1) | fail e ↦ (fail e, r.1) ]

accept-settle :
    (title : Bytes) (n : ℕ) (x : Bytes) (c : Counters)
    → accept title n x c ≡ settle x (validate_remote_for_system_title (bytes title) n c)
unfolding ◌>>=◌ settle
accept-settle title n x c = refl

settle-IsCareful :
    (title : Bytes) (n : ℕ) (x : Bytes) (c : Counters)
    (r : Result SecurityStatus (Unit {0}) × Counters)
    → Validated title n c r
    → (e : SecurityStatus) → (settle x r).0 ≡ fail e
    → (settle x r).1 ≡ c
unfolding settle
settle-IsCareful title n x c (done _, c') (raised eight h) e eq = absurd cc
settle-IsCareful title n x c (fail _, c') (unchanged s) e eq = refl

accept-careful :
    (title : Bytes) (n : ℕ) (x : Bytes) (c : Counters) (e : SecurityStatus)
    → (accept title n x c).0 ≡ fail e
    → (accept title n x c).1 ≡ c
accept-careful title n x c e h =
    ap (λ p. p.1) (accept-settle title n x c)
    ∙ settle-IsCareful title n x c _ (validate-known title n c) e
        (sym (ap (λ p. p.0) (accept-settle title n x c)) ∙ h)

settle-IsOnce :
    (title : Bytes) (n : ℕ) (x : Bytes) (c c' : Counters)
    (r : Result SecurityStatus (Unit {0}) × Counters) (a : Bytes)
    → Validated title n c r
    → settle x r ≡ (done a, c')
    → validate_remote_for_system_title (bytes title) n c' ≡ (fail replay_detected, c')
unfolding settle
settle-IsOnce title n x c c' (done _, _) a (raised eight h) eq =
    subst (λ d. validate_remote_for_system_title (bytes title) n d ≡ (fail replay_detected, d))
      (ap (λ p. p.1) eq) (validate-again title n c eight (omega (arith, h)))
settle-IsOnce title n x c c' (fail _, _) a (unchanged s) eq = absurd (cc (ap (λ p. p.0) eq))

accept-once :
    (title : Bytes) (n : ℕ) (x : Bytes) (c c' : Counters) (a : Bytes)
    → accept title n x c ≡ (done a, c')
    → accept title n x c' ≡ (fail replay_detected, c')
accept-once title n x c c' a h =
    accept-settle title n x c'
    ∙ ap (settle x) (
        settle-IsOnce title n x c c' _ a (validate-known title n c)
          (sym (accept-settle title n x c) ∙ h))
    ∙ refused
  where
    refused : settle x (fail replay_detected, c') ≡ (fail replay_detected, c')
    refused = unfold settle in refl

unprotect_with-IsCareful :
    (evp : Evp) (context : SecurityContext) (keys : InMemoryKeyStore) (p : Bytes)
    → IsCareful (unprotect_with evp context keys p)
unfolding unprotect_with
unprotect_with-IsCareful evp context keys p = >>=-IsCareful _ _ λ ek. >>=-IsCareful _ _ λ ak.
    >>=-IsCareful _ _ λ nonce. >>=-IsCareful _ _ λ x. record {
      careful = accept-careful context.remote_system_title (read_big_endian32 (drop 1 p)) x;
    }

unprotect_with-IsOnce :
    (evp : Evp) (context : SecurityContext) (keys : InMemoryKeyStore) (p : Bytes)
    → IsOnce (unprotect_with evp context keys p)
unfolding unprotect_with
unprotect_with-IsOnce evp context keys p = >>=-IsOnce _ _ λ ek. >>=-IsOnce _ _ λ ak.
    >>=-IsOnce _ _ λ nonce. >>=-IsOnce _ _ λ x. record {
      once = accept-once context.remote_system_title (read_big_endian32 (drop 1 p)) x;
    }

unprotect-IsCareful :
    (evp : Evp) (context : SecurityContext) (keys : InMemoryKeyStore) (input : Span)
    → IsCareful (unprotect evp context keys input)
unfolding unprotect
unprotect-IsCareful evp context keys input =
    if-IsCareful (is_null_data input) _ _ (still-IsCareful (fail invalid_argument)) (
      >>=-IsCareful (validate_processor_context context) _ λ valid.
        if-IsCareful (is_no_security context.policy) _ _ (still-IsCareful (done (contents input))) (
          if-IsCareful (ltb (size input) 21) _ _ (still-IsCareful (fail invalid_argument)) (
            if-IsCareful
              (not (get_or (contents input) 0 0 == security_control_for_policy context.policy)) _ _
              (still-IsCareful (fail authentication_failed))
              (unprotect_with-IsCareful evp context keys (contents input)))))

-- Whatever is passed to `Unprotect`, in any context, with any keys and any cipher: where it fails,
-- the counters are what they were.
pub unprotect-unchanged :
    (evp : Evp) (context : SecurityContext) (keys : InMemoryKeyStore) (input : Span) (c : Counters)
    (e : SecurityStatus)
    → (unprotect evp context keys input c).0 ≡ fail e
    → (unprotect evp context keys input c).1 ≡ c
unprotect-unchanged evp context keys input = (unprotect-IsCareful evp context keys input).careful

if-IsOnce :
    {A : Type 0} (b : Bool) (s : SecurityStatus) (g : Counted A)
    → IsOnce g
    → IsOnce (if b then still (fail s) else g)
if-IsOnce true s g hg = record { once = λ c c' a h. absurd (cc (ap (λ p. p.0) h)) }
if-IsOnce false s g hg = hg

unprotect-IsOnce :
    (evp : Evp) (context : SecurityContext) (keys : InMemoryKeyStore) (input : Span)
    → is_no_security context.policy ≡ false
    → IsOnce (unprotect evp context keys input)
unfolding unprotect
unprotect-IsOnce evp context keys input secured = rw secured (
    if-IsOnce (is_null_data input) invalid_argument _ (
      >>=-IsOnce (validate_processor_context context) _ λ valid.
        if-IsOnce (ltb (size input) 21) invalid_argument _ (
          if-IsOnce
            (not (get_or (contents input) 0 0 == security_control_for_policy context.policy))
            authentication_failed _ (unprotect_with-IsOnce evp context keys (contents input)))))

-- In a context that asks for protection, an APDU that `Unprotect` has accepted is refused as a
-- replay when it is passed again, and the counters stay as they are.
pub unprotect-replay :
    (evp : Evp) (context : SecurityContext) (keys : InMemoryKeyStore) (input : Span)
    (c c' : Counters) (plain : Bytes)
    → is_no_security context.policy ≡ false
    → unprotect evp context keys input c ≡ (done plain, c')
    → unprotect evp context keys input c' ≡ (fail replay_detected, c')
unprotect-replay evp context keys input c c' plain secured =
    (unprotect-IsOnce evp context keys input secured).once c c' plain
