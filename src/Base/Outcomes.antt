-- ===== src/Base/Outcomes.antt =====
-- The ways in which the backend's functions end: with a value, or by stopping the compiler.
use Prim.Native.String.{String}
use mathlib.Core.Path.{◌≡◌, refl}

-- report_fatal_error, llvm_unreachable, abort, and a failed assert.
pub data Failure : Type 0 where
  fatal_error : String → Failure
  unreachable : String → Failure
  aborted : Failure
  assertion : String → Failure

pub data Outcome {ℓ} (A : Type ℓ) : Type ℓ where
  ok : A → Outcome A
  stop : Failure → Outcome A

module _ {ℓ κ} {A : Type ℓ} {B : Type κ} where
  -- What follows a stop is not run.
  infixl 5 ◌>>=◌
  abbrev pub ◌>>=◌ : Outcome A → (A → Outcome B) → Outcome B
  stop failure >>= next = stop failure
  ok result >>= next = next result

  pub >>=-eq-ok :
      (first : Outcome A) (next : A → Outcome B) {b : B}
      → (first >>= next) ≡ ok b
      → (a : A) × (first ≡ ok a) × (next a ≡ ok b)
  >>=-eq-ok (stop failure) next h = cc
  >>=-eq-ok (ok result) next h = (result, refl, h)
