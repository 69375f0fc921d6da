-- ===== src/Base/Memory.antt =====
-- Memory as a function from indices to cells: writes, copies into it, and stretches of it.
use oflops_turbo.Base.{
  ℕ, zero, suc, ◌+◌, ◌-◌, ◌≤◌, ◌<◌, ◌≡◌, refl, ap, ◌∙◌, List, [], ◌∷◌, ◌++◌, arith, ◌==◌,
  if◌then◌else◌, length, take, drop,
}

module _ {ℓ} {A : Type ℓ} where
  unfoldable pub update : (ℕ → A) → ℕ → A → ℕ → A
  update a i v j = if i == j then v else a j

  pub update_lem :
      (a : ℕ → A) (i : ℕ) (v : A) (j : ℕ) → update a i v j ≡ (if i == j then v else a j)
  unfolding update
  update_lem a i v j = refl

  -- `memcpy` of the list to the cells from index `i` on.
  unfoldable pub copy_in : (ℕ → A) → ℕ → List A → ℕ → A
  copy_in a i [] = a
  copy_in a i (x ∷ xs) = copy_in (update a i x) (suc i) xs

  -- The `n` cells from index `i` on.
  unfoldable pub slice : (ℕ → A) → ℕ → ℕ → List A
  slice a i zero = []
  slice a i (suc n) = a i ∷ slice a (suc i) n

  pub length-slice : (a : ℕ → A) (i n : ℕ) → length (slice a i n) ≡ n
  unfolding slice
  length-slice a i zero = refl
  length-slice a i (suc n) = ap suc (length-slice a (suc i) n)

  pub slice_ext :
      (a b : ℕ → A) (i n : ℕ)
      → ((j : ℕ) → i ≤ j → j < i + n → a j ≡ b j)
      → slice a i n ≡ slice b i n
  unfolding slice
  slice_ext a b i zero h = refl
  slice_ext a b i (suc n) h = λ k.
      h i (omega arith) (omega arith) k
      ∷ slice_ext a b (suc i) n (λ j p q. h j (omega arith) (omega arith)) k

  pub copy_in-below : (a : ℕ → A) (i : ℕ) (xs : List A) (j : ℕ) → j < i → copy_in a i xs j ≡ a j
  unfolding copy_in
  copy_in-below a i [] j h = refl
  copy_in-below a i (x ∷ xs) j h =
      copy_in-below (update a i x) (suc i) xs j (omega arith) ∙ ground (arith, update_lem a i x j)

  pub slice-copy_in : (a : ℕ → A) (i : ℕ) (xs : List A) → slice (copy_in a i xs) i (length xs) ≡ xs
  unfolding slice copy_in
  slice-copy_in a i [] = refl
  slice-copy_in a i (x ∷ xs) = λ k. head k ∷ slice-copy_in (update a i x) (suc i) xs k
    where
      head : copy_in (update a i x) (suc i) xs i ≡ x
      head =
          rw (copy_in-below (update a i x) (suc i) xs i (omega arith))
            (ground (arith, update_lem a i x i))

  -- A stretch is cut in two.
  pub slice-append : (a : ℕ → A) (i m n : ℕ) → slice a i (m + n) ≡ slice a i m ++ slice a (i + m) n
  unfolding slice
  slice-append a i zero n =
      let here : i + 0 ≡ i = omega arith in let all : 0 + n ≡ n = omega arith in rw (here, all)
  slice-append a i (suc m) n =
      let next : suc m + n ≡ suc (m + n) = omega arith in
      let there : i + suc m ≡ suc i + m = omega arith in
      rw (next, there) (ap (◌∷◌ (a i)) (slice-append a (suc i) m n))

  pub drop-slice : (a : ℕ → A) (i m n : ℕ) → drop m (slice a i n) ≡ slice a (i + m) (n - m)
  unfolding slice
  drop-slice a i zero n =
      let here : i + 0 ≡ i = omega arith in let all : n - 0 ≡ n = omega arith in rw (here, all)
  drop-slice a i (suc m) zero = let none_left : 0 - suc m ≡ 0 = omega arith in rw none_left
  drop-slice a i (suc m) (suc n) =
      let there : i + suc m ≡ suc i + m = omega arith in
      let fewer : suc n - suc m ≡ n - m = omega arith in
      rw (there, fewer) (drop-slice a (suc i) m n)

  pub take-slice : (a : ℕ → A) (i m n : ℕ) → m ≤ n → take m (slice a i n) ≡ slice a i m
  unfolding slice
  take-slice a i zero n h = refl
  take-slice a i (suc m) zero h = absurd (omega arith)
  take-slice a i (suc m) (suc n) h = ap (◌∷◌ (a i)) (take-slice a (suc i) m n (omega arith))
