-- ===== src/Go/Panic.antt =====
-- Code that may dereference a nil pointer.
use provider_azure.Go.Effect.{M, pure}

pub data Outcome {ℓ} (A : Type ℓ) : Type ℓ where
  returns : A → Outcome A
  panics : Outcome A

abbrev pub map_outcome {ℓ κ} : {A : Type ℓ} {B : Type κ} → (A → B) → Outcome A → Outcome B
map_outcome f (returns a) = returns (f a)
map_outcome f panics = panics

-- A method goes on with the value, or panics.
abbrev pub on_value : {C W A R : Type 0} → Outcome A → (A → M C W (Outcome R)) → M C W (Outcome R)
on_value (returns a) k = k a
on_value panics k = pure panics
