-- ===== src/Base/Results.antt =====
-- Values or errors: Go's pair of a result and an `error`.
use mathlib.Core.Path.{◌≡◌, refl}

pub data Result {ℓ κ} (E : Type ℓ) (A : Type κ) : Type (ℓ ⊔ κ) where
  ok : A → Result E A
  err : E → Result E A

infixl 5 ◌>>=◌ ◌>>◌
abbrev pub ◌>>=◌ {ℓ κ μ} :
    {E : Type ℓ} {A : Type κ} {B : Type μ} → Result E A → (A → Result E B) → Result E B
ok a >>= f = f a
err e >>= f = err e

abbrev pub ◌>>◌ {ℓ μ} : {E : Type ℓ} {B : Type μ} → Result E (Unit {0}) → Result E B → Result E B
m >> k = m >>= λ _. k

-- A chain that succeeds: its first step does, with a value from which the rest goes on.
pub >>=-succeeds {ℓ κ μ} :
    {E : Type ℓ} {A : Type κ} {B : Type μ} (step : Result E A) (rest : A → Result E B) {b : B}
    → (step >>= rest) ≡ ok b
    → (value : A) × (step ≡ ok value) × (rest value ≡ ok b)
>>=-succeeds (err e) rest h = cc
>>=-succeeds (ok value) rest h = (value, refl, h)
