-- ===== src/Base/Outcome.antt =====
-- How a call of C code ends: with a value, by a failed assertion, by undefined behaviour such as
-- an access through NULL or out of bounds, or not within the fuel of a loop.
use mathlib.Core.Bool.{Bool, true, false}
use mathlib.Core.Path.{◌≡◌}

-- `NDEBUG` decides whether `CCASSERT` checks anything.
pub data Build : Type 0 where
  debug release : Build

pub data Outcome {ℓ} (A : Type ℓ) : Type ℓ where
  ok : A → Outcome A
  aborted : Outcome A
  fault : Outcome A
  out_of_fuel : Outcome A

-- `abbrev`, so that a step on a known outcome computes wherever it stands.
infixl 5 ◌>>=◌ ◌>>◌
abbrev pub ◌>>=◌ {ℓ κ} : {A : Type ℓ} {B : Type κ} → Outcome A → (A → Outcome B) → Outcome B
aborted >>= rest = aborted
fault >>= rest = fault
out_of_fuel >>= rest = out_of_fuel
ok value >>= rest = rest value

abbrev pub ◌>>◌ {ℓ} : {B : Type ℓ} → Outcome (Unit {0}) → Outcome B → Outcome B
first >> second = first >>= λ done. second

-- `CCASSERT(expr)`
abbrev pub assert : Build → Bool → Outcome (Unit {0})
assert release b = ok tt
assert debug true = ok tt
assert debug false = aborted

-- The call ends normally, in a value that satisfies `P`.
abbrev pub Returns {ℓ κ} : {V : Type ℓ} (call : Outcome V) (P : V → Type κ) → Type (ℓ ⊔ κ)
Returns {V} call P = (v : V) × (call ≡ ok v) × P v
