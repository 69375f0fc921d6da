-- ===== src/EventQueue/Memory.antt =====
-- The heap's array as a function from indices to slots: writes, swaps, and the elements in the
-- slots 1 to n, which is what the queue holds.
use mathlib.Core.List.Perm
use mathlib.Core.List.{mem-cons, not-mem-nil}
use mathlib.Core.Logic.Or
use mathlib.Core.Path.{subst}
use native.Mathlib.Decide.{ℕ_discrete}
unfoldable pub use oflops_turbo.Base.Memory.{update}
pub use oflops_turbo.Base.Memory.{update_lem}
use oflops_turbo.Base.{
  ℕ, zero, suc, ◌-◌, sym, Mem, ◌≤◌, ◌<◌, ◌≡◌, refl, ◌≢◌, List, [], ◌∷◌, Perm, arith, ◌==◌,
  if◌then◌else◌,
}

module _ {ℓ} {A : Type ℓ} where
  unfoldable pub swap : (ℕ → A) → ℕ → ℕ → ℕ → A
  swap a i j = update (update a i (a j)) j (a i)

  -- The elements in the slots 1 to n, the last one first.
  unfoldable pub contents : (ℕ → A) → ℕ → List A
  contents a zero = []
  contents a (suc n) = a (suc n) ∷ contents a n

  pub swap_lem :
      (a : ℕ → A) (i j c : ℕ) → swap a i j c ≡ (if j == c then a i else if i == c then a j else a c)
  unfolding swap update
  swap_lem a i j c = refl

  -- Only the slots 1 to n count.
  pub contents_ext :
      (a b : ℕ → A) (n : ℕ) → ((i : ℕ) → 1 ≤ i → i ≤ n → a i ≡ b i) → contents a n ≡ contents b n
  unfolding contents
  contents_ext a b zero h = refl
  contents_ext a b (suc n) h = λ i.
      h (suc n) (omega arith) (omega arith) i ∷ contents_ext a b n (λ j p q. h j p (omega arith)) i

  pub contents-suc : (a : ℕ → A) (n : ℕ) → contents a (suc n) ≡ a (suc n) ∷ contents a n
  unfolding contents
  contents-suc a n = refl

  pub contents-update_out :
      (a : ℕ → A) (i : ℕ) (v : A) (n : ℕ) → n < i → contents (update a i v) n ≡ contents a n
  unfolding update
  contents-update_out a i v n h = contents_ext (update a i v) a n (λ j p q. ground arith)

  -- A write trades the old element for the new one.
  pub update-perm :
      (a : ℕ → A) (i : ℕ) (v : A) (n : ℕ)
      → 1 ≤ i
      → i ≤ n
      → Perm (a i ∷ contents (update a i v) n) (v ∷ contents a n)
  update-perm a i v zero p q = absurd (omega arith)
  update-perm a i v (suc n) p q = elim (ℕ_discrete i (suc n)) [
    | yes e ↦
        rw (e, contents-suc, contents-suc, contents-update_out a (suc n) v n (omega arith), here)
          (Perm.swap v (a (suc n)) _)
    | no ne ↦
        rw (contents-suc, contents-suc, elsewhere ne)
          (Perm.trans (Perm.swap (a (suc n)) (a i) _) (
            Perm.trans (Perm.cons (a (suc n)) (update-perm a i v n p (omega arith)))
              (Perm.swap v (a (suc n)) _)))
  ]
    where
      here : update a (suc n) v (suc n) ≡ v
      here = ground (arith, update_lem a (suc n) v (suc n))

      elsewhere : i ≢ suc n → update a i v (suc n) ≡ a (suc n)
      elsewhere ne = ground (arith, update_lem a i v (suc n))

  pub swap-perm :
      (a : ℕ → A) (i j n : ℕ)
      → 1 ≤ i
      → i ≤ n
      → 1 ≤ j
      → j ≤ n
      → Perm (contents (swap a i j) n) (contents a n)
  unfolding swap
  swap-perm a i j n p q r s =
      let b = update a i (a j) in
      let kept : b j ≡ a j = elim (ℕ_discrete i j) [
        | yes e ↦ ground (arith, update_lem a i (a j) j)
        | no ne ↦ ground (arith, update_lem a i (a j) j)
      ] in
      let second : Perm (a j ∷ contents (update b j (a i)) n) (a i ∷ contents b n) =
        rw kept at (update-perm b j (a i) n r s) in
      Perm.cons_inv (Perm.trans second (update-perm a i (a j) n p q))

  -- Slot `i` is given the last element, and the last slot is given up.
  pub take_out-perm :
      (a : ℕ → A) (i n : ℕ)
      → 1 ≤ i
      → i ≤ n
      → Perm (a i ∷ contents (update a i (a n)) (n - 1)) (contents a n)
  take_out-perm a i zero p q = absurd (omega arith)
  take_out-perm a i (suc m) p q =
      let shorter : suc m - 1 ≡ m = omega arith in
      rw (shorter, contents-suc a m)
        (elim (ℕ_discrete i (suc m)) [
          | yes e ↦ rw (e, contents-update_out a (suc m) (a (suc m)) m (omega arith)) (Perm.refl _)
          | no ne ↦ update-perm a i (a (suc m)) m p (omega arith)
        ])

  -- What holds of the slots 1 to n holds of every element of the contents.
  pub contents-all {κ} :
      (P : A → Type κ)
      → ((x : A) → IsProp (P x))
      → (a : ℕ → A) (n : ℕ) → ((i : ℕ) → 1 ≤ i → i ≤ n → P (a i))
      → (x : A) → Mem x (contents a n)
      → P x
  unfolding contents
  contents-all P prop a zero h x m = absurd (not-mem-nil m)
  contents-all P prop a (suc n) h x m =
      Or.elim (prop x) (mem-cons.0 m) (λ e. subst P (sym e) (h (suc n) (omega arith) (omega arith)))
        (λ l. contents-all P prop a n (λ i p q. h i p (omega arith)) x l)
