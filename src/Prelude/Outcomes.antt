-- ===== src/Prelude/Outcomes.antt =====
-- The result of a call that may end in a failed assertion, an exception or undefined behaviour.
use mathlib.Core.Bool.{Bool, true, false}
use mathlib.Core.Path.{◌≡◌, refl}

pub data Fault : Type 0 where
  failed_assert : Fault
  bad_access : Fault
  length_error : Fault
  null_pointer : Fault
  dangling_pointer : Fault
  invalid_argument : Fault
  out_of_range : Fault
  missing_return : Fault
  bad_function_call : Fault

pub data Outcome {ℓ} (A : Type ℓ) : Type ℓ where
  ok : A → Outcome A
  fault : Fault → Outcome A

-- `abbrev`, so that `ok a >>= f` computes wherever it stands.
infixl 5 ◌>>=◌ ◌>>◌
abbrev pub ◌>>=◌ {ℓ κ} : {A : Type ℓ} {B : Type κ} → Outcome A → (A → Outcome B) → Outcome B
ok a >>= f = f a
fault e >>= f = fault e

abbrev pub ◌>>◌ {ℓ} : {B : Type ℓ} → Outcome (Unit {0}) → Outcome B → Outcome B
m >> k = m >>= λ _. k

-- `assert(b)`
abbrev pub assert : Bool → Outcome (Unit {0})
assert true = ok tt
assert false = fault failed_assert

-- A statement about the value of a call that must return.
abbrev pub Returns {ℓ} : {A : Type ℓ} → Outcome A → (A → Type 0) → Type 0
Returns (ok a) P = P a
Returns (fault e) P = ⊥

pub bind_assoc {ℓ κ μ} :
    {A : Type ℓ} {B : Type κ} {C : Type μ} (m : Outcome A) (f : A → Outcome B) (g : B → Outcome C)
    → (m >>= f) >>= g ≡ m >>= λ a. f a >>= g
bind_assoc (ok a) f g = refl
bind_assoc (fault e) f g = refl
