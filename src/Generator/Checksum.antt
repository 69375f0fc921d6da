-- ===== src/Generator/Checksum.antt =====
-- `ip_sum_calc` of utils.c, over the 16-bit words of a header as `htons` gives them, and the byte that
-- is left where the length is odd.
use oflops_turbo.Base.{
  ℕ, zero, suc, ◌+◌, ◌-◌, ◌*◌, ◌/◌, ◌%◌, ◌^◌, ◌≤◌, ◌<◌, ◌≡◌, refl, ap, ◌∙◌, inl, inr, Bool-cases,
  true, false, List, [], ◌∷◌, ◌++◌, arith, leb, ◌==◌, length, length-append, if◌then◌else◌, Run, ok,
  out_of_fuel, ◌>>=◌,
}

-- (sum & 0xFFFF) + (sum >> 16)
abbrev pub carry_in : ℕ → ℕ
carry_in sum = sum % 65536 + sum / 65536

-- The loop over the words; `sum` is a `uint32_t`.
unfoldable pub sum_words : ℕ → List ℕ → ℕ
sum_words sum [] = sum
sum_words sum (w ∷ ws) =
    let next = (sum + w) % 2 ^ 32 in
    sum_words (if leb (2 ^ 31) next then carry_in next else next) ws

-- while(sum>>16)
unfoldable pub fold_carries : ℕ → ℕ → Run ℕ
fold_carries zero sum = out_of_fuel
fold_carries (suc k) sum =
    let rest = fold_carries k (carry_in sum) in if sum / 65536 == 0 then ok sum else rest

-- `ip_sum_calc`; `rest` is the byte that is left over, or 0.
unfoldable pub ip_sum_calc : List ℕ → ℕ → Run ℕ
ip_sum_calc ws rest = fold_carries 4 ((sum_words 0 ws + rest) % 2 ^ 32) >>= λ sum. ok (65535 - sum)

-- The words of a header are 16-bit words.
abbrev pub AllWords : List ℕ → Type 0
AllWords [] = Unit
AllWords (w ∷ ws) = (w < 65536) × AllWords ws

-- The sum of the words.
unfoldable pub total : List ℕ → ℕ
total [] = 0
total (w ∷ ws) = w + total ws

total-append : (xs ys : List ℕ) → total (xs ++ ys) ≡ total xs + total ys
unfolding total
total-append [] ys = omega arith
total-append (x ∷ xs) ys = let rest = total-append xs ys in omega (arith, rest)

total_bound : (ws : List ℕ) → AllWords ws → total ws ≤ 65535 * length ws
unfolding total
total_bound [] h = omega arith
total_bound (w ∷ ws) h = let rest = total_bound ws h.1 in omega (arith, rest, h.0)

sum_words-total :
    (sum : ℕ) (ws : List ℕ)
    → AllWords ws
    → sum + 65535 * length ws < 2 ^ 31
    → sum_words sum ws ≡ sum + total ws
unfolding sum_words total
sum_words-total sum [] h small = omega arith
sum_words-total sum (w ∷ ws) h small =
    let exact : (sum + w) % 2 ^ 32 ≡ sum + w = omega (arith, h.0) in
    let low : leb (2 ^ 31) (sum + w) ≡ false = ground (arith, h.0) in
    let rest = sum_words-total (sum + w) ws h.1 (omega (arith, h.0)) in
    rw (exact, low) (rest ∙ omega arith)

-- The result of the folds, with what it leaves out.
record Folds (k s : ℕ) : Type 0 where
  pub result : ℕ
  pub out : ℕ
  pub positive : 0 < result
  pub small : result < 65536
  pub kept : s ≡ result + 65535 * out
  pub run : fold_carries k s ≡ ok result

Folds-stop : (k s : ℕ) → 0 < s → s < 65536 → Folds (suc k) s
unfolding fold_carries
Folds-stop k s positive small =
    let last : (s / 65536 == 0) ≡ true = ground arith in
    record {
      result = s;
      out = 0;
      positive = positive;
      small = small;
      kept = omega arith;
      run = rw last refl;
    }

Folds-next : (k s : ℕ) → 0 < s → Folds k (carry_in s) → Folds (suc k) s
unfolding fold_carries
Folds-next k s positive rest = elim (Bool-cases (s / 65536 == 0)) [
  | inl last ↦ Folds-stop k s positive (ground arith)
  | inr more ↦ record {
    result = rest.result;
    out = rest.out + s / 65536;
    positive = rest.positive;
    small = rest.small;
    kept = omega (arith, rest.kept);
    run = rw more rest.run;
  }
]

folds : (s : ℕ) → 0 < s → s < 2 ^ 32 → Folds 4 s
folds s positive small = Folds-next 3 s positive (
    Folds-next 2 (carry_in s) (omega arith)
      (Folds-stop 1 (carry_in (carry_in s)) (omega arith) (omega arith)))

ip_sum_calc-total :
    (ws : List ℕ)
    → AllWords ws
    → length ws < 32768
    → ip_sum_calc ws 0 ≡ (fold_carries 4 (total ws) >>= λ sum. ok (65535 - sum))
unfolding ip_sum_calc
ip_sum_calc-total ws h short =
    let sum = sum_words-total 0 ws h (omega arith) in
    let bound = total_bound ws h in
    let exact : (sum_words 0 ws + 0) % 2 ^ 32 ≡ total ws = omega (arith, sum, bound) in
    ap (λ n. fold_carries 4 n >>= λ sum. ok (65535 - sum)) exact

AllWords-append : (xs ys : List ℕ) → AllWords xs → AllWords ys → AllWords (xs ++ ys)
AllWords-append [] ys h k = k
AllWords-append (x ∷ xs) ys h k = (h.0, AllWords-append xs ys h.1 k)

-- A header with `c` as its checksum word.
ip_sum_calc-with :
    (before after : List ℕ) (c : ℕ)
    → AllWords before
    → AllWords after
    → c < 65536
    → length before + length after < 32767
    → ip_sum_calc (before ++ (c ∷ after)) 0
      ≡ (fold_carries 4 (total before + total after + c) >>= λ sum. ok (65535 - sum))
unfolding total
ip_sum_calc-with before after c hb ha hc short =
    let size = length-append before (c ∷ after) in
    let sum = total-append before (c ∷ after) in
    let all : total (before ++ (c ∷ after)) ≡ total before + total after + c = omega (arith, sum) in
    ip_sum_calc-total (before ++ (c ∷ after)) (AllWords-append before (c ∷ after) hb (hc, ha))
      (omega (arith, size))
    ∙ ap (λ n. fold_carries 4 n >>= λ sum. ok (65535 - sum)) all

-- A header of at most 65535 bytes, an even number, and not all of them 0. With its checksum word at 0,
-- `ip_sum_calc` returns a word, and once that is stored as the checksum, `ip_sum_calc` of the whole
-- header is 0, as the receiver of a packet wants it.
pub ip_sum_calc-verifies :
    (before after : List ℕ)
    → AllWords before
    → AllWords after
    → length before + length after < 32767
    → 0 < total before + total after
    → (c : ℕ) × ((c < 65536)
        × (ip_sum_calc (before ++ (0 ∷ after)) 0 ≡ ok c)
        × (ip_sum_calc (before ++ (c ∷ after)) 0 ≡ ok 0))
ip_sum_calc-verifies before after hb ha short nonzero =
    let bound = total_bound before hb in
    let bound' = total_bound after ha in
    let first = folds (total before + total after) nonzero (omega (arith, bound, bound')) in
    let c = 65535 - first.result in
    let low : c < 65536 = omega arith in
    let second =
      folds (total before + total after + c) (omega arith) (omega (arith, bound, bound')) in
    let full : 65535 - second.result ≡ 0 = omega (
      arith, first.kept, first.positive, first.small, second.kept, second.positive, second.small,
    ) in
    let same : total before + total after + 0 ≡ total before + total after = omega arith in
    (
      c,
      (
        low,
        ip_sum_calc-with before after 0 hb ha (omega arith) short ∙ rw (same, first.run) refl,
        ip_sum_calc-with before after c hb ha low short ∙ rw (second.run, full) refl,
      ),
    )
