-- ===== src/EventQueue/Heapify.antt =====
-- `heapify` repairs the order below one slot.
use native.Mathlib.Decide.{ℕ_discrete}
use mathlib.Core.List.Perm
use oflops_turbo.Base.{
  ℕ, zero, suc, ◌+◌, ◌≤◌, ◌<◌, ◌≡◌, ◌≢◌, ◌⊎◌, inl, inr, refl, ◌==◌, ==_iff, true, false, Perm,
  arith, ok, ◌>>=◌, Returns, returns, Returns-bind, Returns-map, Returns-value, leb, if◌then◌else◌,
  Bool-cases,
}
use oflops_turbo.Time.{timer_lt}
use oflops_turbo.Time.Order.{timer_lt_irrefl, timer_lt_asymm, timer_lt_of_lt_of_le}
use oflops_turbo.EventQueue.{
  Slots, WcQueue, parent, left, right, load, earliest, exchange, heapify_loop, heapify,
}
use oflops_turbo.EventQueue.Memory.{update, swap, contents, swap_lem, swap-perm}
use oflops_turbo.EventQueue.Order.{
  NotAfter, NotAfter-trans, IsHeapBut, load-ok, store-ok, child_cases,
}

-- `m` is `i` if no child of `i` is due before it, and else a child that is due first.
record IsEarliest (n : ℕ) (a : Slots) (i m : ℕ) : Type 0 where
  inside : (m ≡ i) ⊎ ((m ≤ n) × (parent m ≡ i) × (timer_lt (a m).key (a i).key ≡ true))
  first : (c : ℕ) → 2 ≤ c → c ≤ n → parent c ≡ i → NotAfter (a m) (a c)

-- One of the two tests of `heapify`: the child `c`, if it is there and due before `m`, else `m`.
abbrev pick : ℕ → Slots → ℕ → ℕ → ℕ
pick n a c m = if leb c n then (if timer_lt (a c).key (a m).key then c else m) else m

record Picked (n : ℕ) (a : Slots) (c m m' : ℕ) : Type 0 where
  either : (m' ≡ m) ⊎ ((m' ≡ c) × (c ≤ n) × (timer_lt (a m').key (a m).key ≡ true))
  kept : NotAfter (a m') (a m)
  beats : c ≤ n → NotAfter (a m') (a c)

pick-Picked : (n : ℕ) (a : Slots) (c m : ℕ) → Picked n a c m (pick n a c m)
pick-Picked n a c m = elim (Bool-cases (leb c n)) [
  | inl there ↦ elim (Bool-cases (timer_lt (a c).key (a m).key)) [
    | inl before ↦
        rw (there, before)
          (record {
            either = inr (refl, ground arith, before);
            kept = timer_lt_asymm (a c).key (a m).key before;
            beats = λ _. timer_lt_irrefl (a c).key;
          })
    | inr after ↦
        rw (there, after)
          (record { either = inl refl; kept = timer_lt_irrefl (a m).key; beats = λ _. after })
  ]
  | inr absent ↦ rw absent (record {
    either = inl refl;
    kept = timer_lt_irrefl (a m).key;
    beats = λ h. absurd (ground arith);
  })
]

Picked-twice :
    (n : ℕ) (a : Slots) (i m m' : ℕ)
    → 1 ≤ i
    → Picked n a (left i) i m
    → Picked n a (right i) m m'
    → IsEarliest n a i m'
Picked-twice n a i m m' pos p q = record {
  inside = ground (arith, timer_lt_of_lt_of_le (a m').key (a m).key (a i).key);
  first = λ c lo hi e. elim (child_cases c i e) [
    | inl l ↦ NotAfter-trans (a m') (a m) (a c) q.kept (rw l (p.beats (omega arith)))
    | inr r ↦ rw r (q.beats (omega arith))
  ];
}

module _ (len n : ℕ) (a : Slots) (i : ℕ) (start : 1 ≤ i) (room : n < len) where
  test-ok :
      (c m : ℕ)
      → (c ≤ n → m ≤ n)
      → (if leb c n
          then (do x ← load len a c; y ← load len a m; ok (if timer_lt x.key y.key then c else m))
          else ok m)
        ≡ ok (pick n a c m)
  test-ok c m h = elim (Bool-cases (leb c n)) [
    | inl there ↦
        let in_c : c < len = ground arith in
        let in_m : m < len = ground arith in rw (there, load-ok len a c in_c, load-ok len a m in_m)
    | inr absent ↦ rw absent
  ]

  earliest-IsEarliest : Returns (IsEarliest n a i) (earliest len n a i)
  unfolding earliest
  earliest-IsEarliest =
      let m = pick n a (left i) i in
      let p : Picked n a (left i) i m = pick-Picked n a (left i) i in
      let inside : right i ≤ n → m ≤ n = λ h. ground (arith, p.either) in
      rw (test-ok (left i) i (omega arith), test-ok (right i) m inside)
        (returns (Picked-twice n a i m _ start p (pick-Picked n a (right i) m)))

  exchange-ok : (m : ℕ) → i ≤ n → m ≤ n → exchange len a i m ≡ ok (swap a i m)
  unfolding exchange swap
  exchange-ok m p q = rw (
    load-ok len a i (omega arith),
    load-ok len a m (omega arith),
    store-ok len a i (a m) (omega arith),
    store-ok len (update a i (a m)) m (a i) (omega arith),
  )

-- Below slot `t` only the edges from slot `j` down may be out of order.
record DownInv (t n : ℕ) (a : Slots) (j : ℕ) : Type 0 where
  below : t ≤ j
  edges : (c : ℕ) → 2 ≤ c → c ≤ n → c ≢ t → parent c ≢ j → NotAfter (a (parent c)) (a c)
  bridged : (c : ℕ) → 2 ≤ c → c ≤ n → parent c ≡ j → j ≢ t → 2 ≤ j → NotAfter (a (parent j)) (a c)

exchange-DownInv :
    (t n : ℕ) (a : Slots) (j m : ℕ)
    → 1 ≤ j
    → DownInv t n a j
    → IsEarliest n a j m
    → m ≤ n
    → parent m ≡ j
    → timer_lt (a m).key (a j).key ≡ true
    → DownInv t n (swap a j m) m
exchange-DownInv t n a j m pos v s p q r = record {
  below = omega (arith, v.below);
  edges = λ c lo hi ne out. ground (
    arith,
    swap_lem a j m c,
    swap_lem a j m (parent c),
    v.edges c,
    v.bridged m,
    s.first c,
    timer_lt_asymm (a m).key (a j).key,
  );
  bridged =
      λ c lo hi e ne lo'. ground (arith, swap_lem a j m c, swap_lem a j m (parent m), v.edges c);
}

-- The slots 1 to `n` hold what they held in `a`, in heap order but for the edge above slot `t`.
abbrev pub Sifted : ℕ → ℕ → Slots → Slots → Type 0
Sifted t n a b = IsHeapBut t n b × Perm (contents b n) (contents a n)

heapify_loop_restores :
    (k t len n : ℕ) (a : Slots) (j : ℕ)
    → 1 ≤ j
    → n < len
    → 1 ≤ k
    → n + 1 < k + j
    → DownInv t n a j
    → Returns (Sifted t n a) (heapify_loop k len n a j)
unfolding heapify_loop
heapify_loop_restores zero t len n a j pos room some_fuel fuel v = absurd (omega arith)
heapify_loop_restores (suc k) t len n a j pos room some_fuel fuel v =
    Returns-bind (earliest-IsEarliest len n a j pos room) λ m s. elim s.inside [
      | inl settled ↦ rw ((==_iff m j).1 settled) (
          returns (
            λ c lo hi ne. elim (ℕ_discrete (parent c) j) [
              | yes e ↦ rw (e, ← settled) (s.first c lo hi e)
              | no out ↦ v.edges c lo hi ne out
            ],
            Perm.refl _,
          ))
      | inr moved ↦
          let deeper : j < m = omega (arith, moved.1) in
          let inside : j ≤ n = omega (arith, moved.0) in
          let test : (m == j) ≡ false = ground arith in
          rw (test, exchange-ok len n a j pos room m inside moved.0)
            (Returns-map
              (heapify_loop_restores k t len n (swap a j m) m (omega arith) room
                (omega (arith, moved.0)) (omega arith)
                (exchange-DownInv t n a j m pos v s moved.0 moved.1 moved.2))
              λ b r. (r.0, Perm.trans r.1 (swap-perm a j m n pos inside (omega arith) moved.0)))
    ]

-- Slot `i` may be out of order with its children and its parent, and all else is in order.
abbrev pub IsLoose : ℕ → ℕ → Slots → Type 0
IsLoose i n a = (c : ℕ) → 2 ≤ c → c ≤ n → c ≢ i → parent c ≢ i → NotAfter (a (parent c)) (a c)

-- `heapify` from slot `i` returns, reads and writes only inside the array, reorders the elements
-- and nothing else, and leaves nothing out of order but perhaps the edge above slot `i`.
pub heapify_value :
    (q : WcQueue) (i : ℕ)
    → 1 ≤ i
    → q.size < q.length
    → IsLoose i q.size q.array
    → (a : Slots) × (heapify q i ≡ ok (record q { array = a })) × Sifted i q.size q.array a
unfolding heapify
heapify_value q i pos room loose =
    let (a, run, s) = Returns-value (
      heapify_loop_restores (q.size + 1) i q.length q.size q.array i pos room (omega arith)
        (omega arith)
        (record {
          below = omega arith;
          edges = loose;
          bridged = λ c lo hi e ne. absurd (ne refl);
        })) in
    (a, rw run, s)
