-- ===== src/Framing/Loop.antt =====
-- The loop and the laws of its body.
use dlms.Prelude.{
  ℕ, zero, suc, ◌<◌, ◌≡◌, ◌≢◌, refl, List, [], ◌∷◌, ◌++◌, arith, length, Bytes, inl, ◌⊎◌, inr,
}

-- One round: leave the loop with the bytes kept, refuse the buffer with a status, or take a frame
-- off and go on with the rest.
pub data Round {ℓ κ} (F : Type ℓ) (S : Type κ) : Type (ℓ ⊔ κ) where
  wait : Bytes → Round F S
  refuse : S → Round F S
  emit : F → Bytes → Round F S

-- How the loop ends: with the bytes kept and the frames pushed, or with an error status, the frames
-- pushed before it and an empty buffer. `stuck` is no end of the program's loop: the fuel ran out.
pub data Drained {ℓ κ} (F : Type ℓ) (S : Type κ) : Type (ℓ ⊔ κ) where
  waits : Bytes → List F → Drained F S
  refused : S → List F → Drained F S
  stuck : Drained F S

-- A body of the loop. More bytes behind the buffer change nothing once a round has decided.
pub record Framing {ℓ κ} (F : Type ℓ) (S : Type κ) : Type (ℓ ⊔ κ) where
  pub round : Bytes → Round F S
  pub round-empty : round [] ≡ wait []
  pub round-wait : (a b r : Bytes) → round a ≡ wait r → round (a ++ b) ≡ round (r ++ b)
  pub round-refuse : (a b : Bytes) (s : S) → round a ≡ refuse s → round (a ++ b) ≡ refuse s
  pub round-emit : (a b r : Bytes) (f : F) → round a ≡ emit f r → round (a ++ b) ≡ emit f (r ++ b)
  pub round-shrinks : (a r : Bytes) (f : F) → round a ≡ emit f r → length r < length a

module _ {ℓ κ} {F : Type ℓ} {S : Type κ} (round : Bytes → Round F S) where
  unfoldable pub drain_loop : ℕ → Bytes → List F → Drained F S
  drain_loop zero buffer frames = stuck
  drain_loop (suc fuel) buffer frames = elim (round buffer) [
    | wait kept ↦ waits kept frames
    | refuse s ↦ refused s frames
    | emit f rest ↦ drain_loop fuel rest (frames ++ f ∷ [])
  ]

  -- Each frame takes a byte at least.
  unfoldable pub drain : Bytes → List F → Drained F S
  unfolding drain_loop
  drain buffer frames = drain_loop (suc (length buffer)) buffer frames

module _ {ℓ κ} {F : Type ℓ} {S : Type κ} (framing : Framing F S) where
  open framing use {round, round-shrinks}

  pub Round-cases :
      (m : Round F S)
      → ((r : Bytes) × (m ≡ wait r))
        ⊎ (((s : S) × (m ≡ refuse s)) ⊎ ((f : F) × (r : Bytes) × (m ≡ emit f r)))
  Round-cases (wait r) = inl (r, refl)
  Round-cases (refuse s) = inr (inl (s, refl))
  Round-cases (emit f r) = inr (inr (f, r, refl))

  drain_loop_fuel :
      (n m : ℕ) (a : Bytes) (fs : List F)
      → length a < n
      → length a < m
      → drain_loop round n a fs ≡ drain_loop round m a fs
  unfolding drain_loop
  drain_loop_fuel zero m a fs p q = absurd (omega arith)
  drain_loop_fuel (suc n) zero a fs p q = absurd (omega arith)
  drain_loop_fuel (suc n) (suc m) a fs p q = elim (Round-cases (round a)) [
    | inl (r, e) ↦ rw (e, drain_loop)
    | inr (inl (s, e)) ↦ rw (e, drain_loop)
    | inr (inr (f, r, e)) ↦
        let h = round-shrinks a r f e in
        rw (e, drain_loop) (drain_loop_fuel n m r (fs ++ f ∷ []) (omega arith) (omega arith))
  ]

  drain_loop-ne-stuck :
      (n : ℕ) (a : Bytes) (fs : List F) → length a < n → drain_loop round n a fs ≢ stuck
  unfolding drain_loop
  drain_loop-ne-stuck zero a fs p = absurd (omega arith)
  drain_loop-ne-stuck (suc n) a fs p = elim (Round-cases (round a)) [
    | inl (r, e) ↦ rw (e, drain_loop) (λ q. cc)
    | inr (inl (s, e)) ↦ rw (e, drain_loop) (λ q. cc)
    | inr (inr (f, r, e)) ↦
        let h = round-shrinks a r f e in
        rw (e, drain_loop) (drain_loop-ne-stuck n r (fs ++ f ∷ []) (omega arith))
  ]

  -- The loop ends on every buffer.
  pub drain-ne-stuck : (a : Bytes) (fs : List F) → drain round a fs ≢ stuck
  unfolding drain
  drain-ne-stuck a fs = drain_loop-ne-stuck (suc (length a)) a fs (omega arith)

  -- The loop by one round.
  pub drain-wait : (a r : Bytes) (fs : List F) → round a ≡ wait r → drain round a fs ≡ waits r fs
  unfolding drain
  drain-wait a r fs e = rw (e, drain_loop)

  pub drain-refuse :
      (a : Bytes) (s : S) (fs : List F) → round a ≡ refuse s → drain round a fs ≡ refused s fs
  unfolding drain
  drain-refuse a s fs e = rw (e, drain_loop)

  pub drain-emit :
      (a r : Bytes) (f : F) (fs : List F)
      → round a ≡ emit f r
      → drain round a fs ≡ drain round r (fs ++ f ∷ [])
  unfolding drain
  drain-emit a r f fs e =
      let h = round-shrinks a r f e in
      rw (e, drain_loop)
        (drain_loop_fuel (length a) (suc (length r)) r (fs ++ f ∷ []) (omega arith) (omega arith))
