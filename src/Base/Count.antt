-- ===== src/Base/Count.antt =====
-- How many elements of a list have a property, whatever their order.
use mathlib.Core.List.{foldr}
use mathlib.Core.List.Perm
use native.Mathlib.Nat.{ℕ_set}
use oflops_turbo.Base.Tests.{if◌then◌else◌}
use Prim.Native.Nat.{ℕ, ◌+◌, ◌≤◌}
use mathlib.Core.Path.{◌≡◌}
use mathlib.Core.Bool.{Bool, true, ◌||◌}
use mathlib.Core.List.{List, [], ◌∷◌, Perm}
use native.Mathlib.Omega.{arith}

module _ {ℓ} {A : Type ℓ} where
  -- One more where the test holds.
  abbrev count_one : (A → Bool) → A → ℕ → ℕ
  count_one p x n = (if p x then 1 else 0) + n

  abbrev pub count : (A → Bool) → List A → ℕ
  count p xs = foldr (count_one p) 0 xs

  -- The order of the elements does not matter.
  pub count-perm : (p : A → Bool) {xs ys : List A} → Perm xs ys → count p xs ≡ count p ys
  count-perm p d = Perm.foldr-eq ℕ_set (count_one p) (λ a b n. omega arith) d 0

  -- What has one property has one of two others.
  pub count_cover :
      (p q s : A → Bool) (xs : List A)
      → ((x : A) → p x ≡ true → (q x || s x) ≡ true)
      → count p xs ≤ count q xs + count s xs
  count_cover p q s [] h = omega arith
  count_cover p q s (x ∷ xs) h = ground (arith, h x, count_cover p q s xs h)
