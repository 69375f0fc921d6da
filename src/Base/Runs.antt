-- ===== src/Base/Runs.antt =====
-- How a C call ends: with a value, in a failed `assert` (or `abort`), in an access outside of an
-- array, or, in the model only, for lack of fuel.
use mathlib.Core.Path.{◌≡◌, refl}
use mathlib.Core.Bool.{Bool, true, false}
use oflops_turbo.Base.Tests.{if◌then◌else◌}

pub data Run {ℓ} (A : Type ℓ) : Type ℓ where
  ok : A → Run A
  aborted : Run A
  fault : Run A
  out_of_fuel : Run A

infixl 5 ◌>>=◌
abbrev pub ◌>>=◌ {ℓ κ} : {A : Type ℓ} {B : Type κ} → Run A → (A → Run B) → Run B
aborted >>= rest = aborted
fault >>= rest = fault
out_of_fuel >>= rest = out_of_fuel
ok a >>= rest = rest a

-- `assert(b)` in front of the rest of a function.
abbrev pub assert {ℓ} : {A : Type ℓ} → Bool → Run A → Run A
assert b r = if b then r else aborted

-- The call ends with a value that satisfies `P`.
pub data Returns {ℓ κ} {A : Type ℓ} (P : A → Type κ) : Run A → Type (ℓ ⊔ κ) where
  returns : {a : A} → P a → Returns P (ok a)

module _ {ℓ κ} {A : Type ℓ} {P : A → Type κ} where
  -- The value, the run, and the fact.
  pub Returns-value : {call : Run A} → Returns P call → (a : A) × (call ≡ ok a) × P a
  Returns-value (returns p) = (_, refl, p)

  pub Returns-map {ν} :
      {R : A → Type ν} {call : Run A} → Returns P call → ((a : A) → P a → R a) → Returns R call
  Returns-map (returns p) weaken = returns (weaken _ p)

  pub Returns-bind {μ ν} :
      {B : Type μ} {R : B → Type ν} {rest : A → Run B} {call : Run A}
      → Returns P call
      → ((a : A) → P a → Returns R (rest a))
      → Returns R (call >>= rest)
  Returns-bind (returns p) then_ = then_ _ p

-- If the call ends with a value, that satisfies `P`.
abbrev pub IfOk {ℓ} : {A : Type ℓ} → (A → Type 0) → Run A → Type 0
IfOk P (ok a) = P a
IfOk P aborted = Unit
IfOk P fault = Unit
IfOk P out_of_fuel = Unit

pub IfOk-bind {ℓ κ} :
    {A : Type ℓ} {B : Type κ} (P : B → Type 0) (r : Run A) (f : A → Run B)
    → ((a : A) → IfOk P (f a))
    → IfOk P (r >>= f)
IfOk-bind P (ok a) f h = h a
IfOk-bind P aborted f h = tt
IfOk-bind P fault f h = tt
IfOk-bind P out_of_fuel f h = tt

pub IfOk-if {ℓ} :
    {A : Type ℓ} (P : A → Type 0) (b : Bool) (r s : Run A)
    → IfOk P r
    → IfOk P s
    → IfOk P (if b then r else s)
IfOk-if P true r s h k = h
IfOk-if P false r s h k = k

-- A second part that keeps up what the first has shown.
pub IfOk-then {ℓ κ} :
    {A : Type ℓ} {B : Type κ} (Q : A → Type 0) (P : B → Type 0) (r : Run A) (f : A → Run B)
    → IfOk Q r
    → ((a : A) → Q a → IfOk P (f a))
    → IfOk P (r >>= f)
IfOk-then Q P (ok a) f q h = h a q
IfOk-then Q P aborted f q h = tt
IfOk-then Q P fault f q h = tt
IfOk-then Q P out_of_fuel f q h = tt
