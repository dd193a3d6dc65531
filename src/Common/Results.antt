-- ===== src/Common/Results.antt =====
-- How a call ends: with a value, by `exit(EXIT_FAILURE)`, or in undefined behaviour (an access out
-- of bounds, a division by zero), which the model keeps apart.
use mathlib.Core.Bool.{Bool, true, false}

pub data Outcome {ℓ} (A : Type ℓ) : Type ℓ where
  ok : A → Outcome A
  exit_failure : Outcome A
  fault : Outcome A

infixl 5 ◌>>=◌ ◌>>◌
abbrev pub ◌>>=◌ {ℓ κ} : {A : Type ℓ} {B : Type κ} → Outcome A → (A → Outcome B) → Outcome B
ok a >>= f = f a
exit_failure >>= f = exit_failure
fault >>= f = fault

abbrev pub ◌>>◌ {ℓ} : {B : Type ℓ} → Outcome (Unit {0}) → Outcome B → Outcome B
m >> k = m >>= λ _. k

-- `if (b) exit(EXIT_FAILURE);`
abbrev pub exit_if : Bool → Outcome (Unit {0})
exit_if true = exit_failure
exit_if false = ok tt

-- an operation that is undefined if `b`
abbrev pub undefined_if : Bool → Outcome (Unit {0})
undefined_if true = fault
undefined_if false = ok tt
