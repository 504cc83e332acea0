-- ===== src/Base/Results.antt =====
-- C results: a call that may stop the process, and the two integers that report success.
use mathlib.Core.Logic.{◌⊎◌, inl, inr}
use mathlib.Core.Path.{◌≡◌, refl}

-- `abort`: an `assert` or a `fatal` has stopped the process.
pub data Outcome {ℓ} (A : Type ℓ) : Type ℓ where
  done : A → Outcome A
  abort : Outcome A

pub Outcome-cases {ℓ} : {A : Type ℓ} (r : Outcome A) → (r ≡ abort) ⊎ ((a : A) × (r ≡ done a))
Outcome-cases (done a) = inr (a, refl)
Outcome-cases abort = inl refl

infixl 5 ◌>>=◌ ◌>>◌
abbrev pub ◌>>=◌ {ℓ κ} : {A : Type ℓ} {B : Type κ} → Outcome A → (A → Outcome B) → Outcome B
done a >>= f = f a
abort >>= f = abort

abbrev pub ◌>>◌ {ℓ} : {B : Type ℓ} → Outcome (Unit {0}) → Outcome B → Outcome B
m >> k = m >>= λ _. k

-- The results 0 and -1 of the functions that report success or failure.
pub data Status : Type 0 where
  success failure : Status
