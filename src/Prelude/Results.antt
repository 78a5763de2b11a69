-- ===== src/Prelude/Results.antt =====
-- A call that answers a status and, when the status is Ok, a value.
use mathlib.Core.Logic.{◌⊎◌, inl, inr}
use mathlib.Core.Path.{◌≡◌, refl}

-- `done a` is the status Ok with what the call wrote to its output parameters; `fail s` is any
-- other status `s`.
pub data Result {ℓ κ} (S : Type ℓ) (A : Type κ) : Type (ℓ ⊔ κ) where
  done : A → Result S A
  fail : S → Result S A

infixl 5 ◌>>=◌
abbrev pub ◌>>=◌ {ℓ κ λ₁} :
    {S : Type ℓ} {A : Type κ} {B : Type λ₁} → Result S A → (A → Result S B) → Result S B
done a >>= f = f a
fail s >>= f = fail s

pub >>=-eq-done {ℓ κ λ₁} :
    {S : Type ℓ} {A : Type κ} {B : Type λ₁} (m : Result S A) (f : A → Result S B) {b : B}
    → (m >>= f) ≡ done b
    → (a : A) × (m ≡ done a) × (f a ≡ done b)
>>=-eq-done (done a) f h = (a, refl, h)
>>=-eq-done (fail s) f h = cc

pub Result-cases {ℓ κ} :
    {S : Type ℓ} {A : Type κ} (m : Result S A) → ((a : A) × (m ≡ done a)) ⊎ ((s : S) × (m ≡ fail s))
Result-cases (done a) = inl (a, refl)
Result-cases (fail s) = inr (s, refl)

-- The call succeeds.
abbrev pub IsDone {ℓ κ} : {S : Type ℓ} {A : Type κ} → Result S A → Type 0
IsDone (done a) = Unit {0}
IsDone (fail s) = ⊥
