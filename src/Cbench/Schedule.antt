-- ===== src/Cbench/Schedule.antt =====
-- Which tests cbench runs, and which of them count.
use native.Mathlib.Nat.{div-div-eq-div-mul, pow-suc, div-one}
use mathlib.Core.List.{append-nil, append_assoc}
use oflops_turbo.Base.{
  List, [], ◌∷◌, ◌++◌, ℕ, zero, suc, ◌+◌, ◌-◌, ◌/◌, ◌^◌, ◌≤◌, ◌<◌, ◌≡◌, ◌↔◌, refl, sym, ap, ◌∙◌,
  ◌⊎◌, inl, inr, Bool-cases, true, false, ◌||◌, not, arith, ltb, ◌==◌, if◌then◌else◌,
}
use oflops_turbo.Base.Int.{ℤ, pos, ◌-ℤ◌, ltb_ℤ}
use oflops_turbo.Cbench.{
  Settings, Real, Tally, bits_from, count_bits, leaves_out, one_test, all_tests, counted_tests,
  is_tested,
}

halved : (n i : ℕ) → n / 2 ^ (i + 1) ≡ n / 2 ^ i / 2
halved n i =
    let next : i + 1 ≡ suc i = omega arith in
    rw (next, pow-suc 2 i) (sym (div-div-eq-div-mul n (2 ^ i) 2))

bits_from_zero : (k i n : ℕ) → n / 2 ^ i < 2 ^ k → bits_from k i n ≡ 0 → n / 2 ^ i ≡ 0
unfolding bits_from
bits_from_zero zero i n h e = omega arith
bits_from_zero (suc k) i n h e =
    let half = halved n i in
    let small = rw (pow-suc 2 k) at h in
    let below : n / 2 ^ (i + 1) < 2 ^ k = omega (arith, half, small) in
    let rest = bits_from_zero k (i + 1) n below (ground arith) in
    let low : n / 2 ^ i / 2 ≡ 0 = sym half ∙ rest in ground (arith, low)

-- `count_bits` is 0 for no number but 0.
pub count_bits_zero_iff : (n : ℕ) → n < 2 ^ 32 → (count_bits n ≡ 0) ↔ (n ≡ 0)
unfolding count_bits bits_from
count_bits_zero_iff n h =
    (λ e. sym (div-one n) ∙ bits_from_zero 32 0 n (omega (arith, div-one n)) e, λ e. rw e refl)

-- In a ranged test cbench tests every number of switches, not only 1, 2, 4, 8 and so on.
pub is_tested_all :
    (s : Settings) (i : ℕ) → s.should_test_range ≡ true → i + 1 < 2 ^ 32 → is_tested s i ≡ true
unfolding is_tested
is_tested_all s i range h = elim (Bool-cases (count_bits (i + 1) == 0)) [
  | inl none ↦ let gone = (count_bits_zero_iff (i + 1) h).0 (ground arith) in absurd (omega arith)
  | inr some_bit ↦ rw (some_bit, range) refl
]

module _ {V : Type 0} (real : Real V) where
  -- The sum of `n` values, from the `j`-th on.
  unfoldable pub sum_of : ℕ → ℕ → (ℕ → V) → V → V
  sum_of zero j value acc = acc
  sum_of (suc n) j value acc = sum_of n (j + 1) value (real.add acc (value j))

  -- The delay of a test: only the first one waits.
  abbrev pub delay_of : ℤ → ℕ → ℤ
  delay_of d j = if ltb 0 j then pos 0 else d

  module _ (s : Settings) (run : ℕ → ℤ → V) where
    all_tests-add :
        (a b j : ℕ) (t : Tally V)
        → all_tests real s (a + b) j run t
          ≡ all_tests real s b (j + a) run (all_tests real s a j run t)
    unfolding all_tests
    all_tests-add zero b j t =
        let first : 0 + b ≡ b = omega arith in
        let here : j + 0 ≡ j = omega arith in rw (first, here) refl
    all_tests-add (suc a) b j t =
        let next : suc a + b ≡ suc (a + b) = omega arith in
        let there : j + suc a ≡ j + 1 + a = omega arith in
        rw (next, there) (all_tests-add a b (j + 1) (one_test real s (run j) (pos j) t))

    sum-one_test_out :
        (j : ℕ) (t : Tally V)
        → leaves_out s (pos j) ≡ true
        → (one_test real s (run j) (pos j) t).sum ≡ t.sum
    unfolding one_test
    sum-one_test_out j t out = rw out refl

    sum-one_test_in :
        (j : ℕ) (t : Tally V)
        → leaves_out s (pos j) ≡ false
        → (one_test real s (run j) (pos j) t).sum ≡ real.add t.sum (run j (delay_of t.delay j))
    unfolding one_test
    sum-one_test_in j t counts =
        let first : ltb_ℤ (pos 0) (pos j) ≡ ltb 0 j = ground arith in rw (counts, first) refl

    delay_of-begin :
        (d : ℤ) (j : ℕ) (t : Tally V) → (0 < j) ⊎ (t.delay ≡ d) → delay_of t.delay j ≡ delay_of d j
    delay_of-begin d j t begin = elim begin [
      | inl later ↦ let test : ltb 0 j ≡ true = ground arith in rw test refl
      | inr e ↦ ap (λ z. delay_of z j) e
    ]

    -- The values of `n` tests from the `j`-th on, counted or not.
    unfoldable pub values_from : ℤ → ℕ → ℕ → List V
    values_from d zero j = []
    values_from d (suc n) j = run j (delay_of d j) ∷ values_from d n (j + 1)

    results-one_test :
        (d : ℤ) (j : ℕ) (t : Tally V)
        → (0 < j) ⊎ (t.delay ≡ d)
        → (one_test real s (run j) (pos j) t).results ≡ t.results ++ (run j (delay_of d j) ∷ [])
    unfolding one_test
    results-one_test d j t begin =
        let first : ltb_ℤ (pos 0) (pos j) ≡ ltb 0 j = ground arith in
        let kept : t.results ++ (run j (delay_of t.delay j) ∷ [])
            ≡ t.results ++ (run j (delay_of d j) ∷ []) =
          ap (λ z. t.results ++ (run j z ∷ [])) (delay_of-begin d j t begin) in
        elim (Bool-cases (leaves_out s (pos j))) [
          | inl out ↦ rw (out, first) kept
          | inr counts ↦ rw (counts, first) kept
        ]

    results-all_tests :
        (d : ℤ) (n j : ℕ) (t : Tally V)
        → (0 < j) ⊎ (t.delay ≡ d)
        → (all_tests real s n j run t).results ≡ t.results ++ values_from d n j
    unfolding all_tests values_from
    results-all_tests d zero j t begin = sym (append-nil t.results)
    results-all_tests d (suc n) j t begin =
        results-all_tests d n (j + 1) (one_test real s (run j) (pos j) t) (inl (omega arith))
        ∙ ap (λ l. l ++ values_from d n (j + 1)) (results-one_test d j t begin)
        ∙ append_assoc t.results (run j (delay_of d j) ∷ []) (values_from d n (j + 1))

    -- Tests that are left out do not change the sum.
    sum-all_tests_out :
        (m j : ℕ) (t : Tally V)
        → ((i : ℕ) → j ≤ i → i < j + m → leaves_out s (pos i) ≡ true)
        → (all_tests real s m j run t).sum ≡ t.sum
    unfolding all_tests
    sum-all_tests_out zero j t out = refl
    sum-all_tests_out (suc m) j t out =
        sum-all_tests_out m (j + 1) (one_test real s (run j) (pos j) t)
          (λ i lo hi. out i (omega arith) (omega arith))
        ∙ sum-one_test_out j t (out j (omega arith) (omega arith))

    -- Tests that count are added in order.
    sum-all_tests_in :
        (d : ℤ) (m j : ℕ) (t : Tally V)
        → (0 < j) ⊎ (t.delay ≡ d)
        → ((i : ℕ) → j ≤ i → i < j + m → leaves_out s (pos i) ≡ false)
        → (all_tests real s m j run t).sum ≡ sum_of m j (λ i. run i (delay_of d i)) t.sum
    unfolding all_tests sum_of
    sum-all_tests_in d zero j t start counts = refl
    sum-all_tests_in d (suc m) j t start counts =
        sum-all_tests_in d m (j + 1) (one_test real s (run j) (pos j) t) (inl (omega arith))
          (λ i lo hi. counts i (omega arith) (omega arith))
        ∙ ap (sum_of m (j + 1) (λ i. run i (delay_of d i))) (
            sum-one_test_in j t (counts j (omega arith) (omega arith))
            ∙ ap (λ z. real.add t.sum (run j z)) (delay_of-begin d j t start))

  module _ (s : Settings) (w c n : ℕ) (warm : s.warmup ≡ pos w) (cool : s.cooldown ≡ pos c)
      (loops : s.tests_per_loop ≡ pos n) (fits : w + c < n) (run : ℕ → ℤ → V) where
    leaves_out_value : (j : ℕ) → leaves_out s (pos j) ≡ (ltb j w || not (ltb (j + c) n))
    unfolding leaves_out ◌-ℤ◌
    leaves_out_value j =
        (λ k. ltb_ℤ (pos j) (warm k) || not (ltb_ℤ (pos j) (loops k -ℤ cool k))) ∙ ground arith

    -- Warmup and cooldown are not negative and leave a test over. The sum that cbench reports is
    -- that of the values of the tests from number `warmup` on, as many as `counted_tests` says.
    -- The values of all tests, with those of the warmup and the cooldown, are kept in order, and
    -- of them all only the very first test is run with the delay.
    pub sum-all_tests :
        (t : Tally V)
        → (counted_tests s ≡ pos (n - w - c))
          × (((all_tests real s n 0 run t).sum
                ≡ sum_of (n - w - c) w (λ j. run j (delay_of t.delay j)) t.sum)
              × ((all_tests real s n 0 run t).results ≡ t.results ++ values_from s run t.delay n 0))
    unfolding counted_tests all_tests ◌-ℤ◌
    sum-all_tests t = (
      (λ k. loops k -ℤ warm k -ℤ cool k) ∙ ground arith,
      (total, results-all_tests s run t.delay n 0 t (inr refl)),
    )
      where
        first : Tally V
        first = all_tests real s w 0 run t

        second : Tally V
        second = all_tests real s (n - w - c) w run first

        split : all_tests real s n 0 run t ≡ all_tests real s c (w + (n - w - c)) run second
        split =
            let whole : n ≡ w + (n - w - c + c) = omega arith in
            let from : 0 + w ≡ w = omega arith in
            ap (λ m. all_tests real s m 0 run t) whole
            ∙ all_tests-add s run w (n - w - c + c) 0 t
            ∙ ap (λ j. all_tests real s (n - w - c + c) j run first) from
            ∙ all_tests-add s run (n - w - c) c w first

        begin : (0 < w) ⊎ (first.delay ≡ t.delay)
        begin = go w
          where
            go : (w : ℕ) → (0 < w) ⊎ ((all_tests real s w 0 run t).delay ≡ t.delay)
            go zero = inr refl
            go (suc k) = inl (omega arith)

        total :
            (all_tests real s n 0 run t).sum
            ≡ sum_of (n - w - c) w (λ j. run j (delay_of t.delay j)) t.sum
        total =
            ap (λ r. r.sum) split
            ∙ sum-all_tests_out s run c (w + (n - w - c)) second
                (λ i lo hi. leaves_out_value i ∙ ground arith)
            ∙ sum-all_tests_in s run t.delay (n - w - c) w first begin
                (λ i lo hi. leaves_out_value i ∙ ground arith)
            ∙ ap (sum_of (n - w - c) w (λ j. run j (delay_of t.delay j)))
                (sum-all_tests_out s run w 0 t (λ i lo hi. leaves_out_value i ∙ ground arith))
