-- ===== src/EventQueue/Order.antt =====
-- The heap order, and what a valid queue is.
use native.Mathlib.Decide.{ℕ_discrete}
use oflops_turbo.Base.{
  ℕ, zero, suc, ◌≤◌, ◌<◌, ◌≡◌, ◌↔◌, ◌≢◌, ◌⊎◌, inl, inr, refl, true, false, arith, ok,
}
use oflops_turbo.Time.{timer_lt}
use oflops_turbo.Time.Order.{timer_lt_irrefl, timer_le_trans}
use oflops_turbo.EventQueue.{
  Qelm, Slots, WcQueue, parent, left, right, load, store, verify_from, verify_heap,
}
use oflops_turbo.EventQueue.Memory.{update}

-- `x` is due no later than `y`.
abbrev pub NotAfter : Qelm → Qelm → Type 0
NotAfter x y = timer_lt y.key x.key ≡ false

pub NotAfter-trans : (x y z : Qelm) → NotAfter x y → NotAfter y z → NotAfter x z
NotAfter-trans x y z h k = timer_le_trans x.key y.key z.key h k

-- Among the slots 1 to `n`, each but slot `t` is due no earlier than its parent.
abbrev pub IsHeapBut : ℕ → ℕ → Slots → Type 0
IsHeapBut t n a = (c : ℕ) → 2 ≤ c → c ≤ n → c ≢ t → NotAfter (a (parent c)) (a c)

-- The heap order of the slots 1 to `n`.
abbrev pub IsHeap : ℕ → Slots → Type 0
IsHeap n a = (c : ℕ) → 2 ≤ c → c ≤ n → NotAfter (a (parent c)) (a c)

pub record IsValid (q : WcQueue) : Type 0 where
  pub heap : IsHeap q.size q.array
  pub room : q.size < q.length

root_first_below :
    (k n : ℕ) (a : Slots) (i : ℕ) → IsHeap n a → i < k → 1 ≤ i → i ≤ n → NotAfter (a 1) (a i)
root_first_below zero n a i h f p q = absurd (omega arith)
root_first_below (suc k) n a i h f p q = elim (ℕ_discrete i 1) [
  | yes e ↦ rw e (timer_lt_irrefl (a 1).key)
  | no ne ↦
      NotAfter-trans (a 1) (a (parent i)) (a i)
        (root_first_below k n a (parent i) h (omega arith) (omega arith) (omega arith))
        (h i (omega arith) q)
]

-- In a heap nothing is due before slot 1.
pub root_first : (n : ℕ) (a : Slots) (i : ℕ) → IsHeap n a → 1 ≤ i → i ≤ n → NotAfter (a 1) (a i)
root_first n a i h p q = root_first_below (suc i) n a i h (omega arith) p q

pub load-ok : (len : ℕ) (a : Slots) (i : ℕ) → i < len → load len a i ≡ ok (a i)
unfolding load
load-ok len a i h = ground arith

pub store-ok :
    (len : ℕ) (a : Slots) (i : ℕ) (e : Qelm) → i < len → store len a i e ≡ ok (update a i e)
unfolding store
store-ok len a i e h = ground arith

pub child_cases : (c i : ℕ) → parent c ≡ i → (c ≡ left i) ⊎ (c ≡ right i)
child_cases c i e = ground arith

verify_from_sound :
    (k n : ℕ) (a : Slots)
    → verify_from k n a ≡ true
    → (c : ℕ) → 2 ≤ c
    → c ≤ n
    → parent c ≤ k
    → NotAfter (a (parent c)) (a c)
unfolding verify_from
verify_from_sound zero n a h c p q r = absurd (omega arith)
verify_from_sound (suc k) n a h c p q r = elim (ℕ_discrete (parent c) (suc k)) [
  | yes e ↦ elim (child_cases c (suc k) e) [
    | inl l ↦ rw (e, l) (ground arith)
    | inr l ↦ rw (e, l) (ground arith)
  ]
  | no ne ↦ verify_from_sound k n a (ground arith) c p q (omega arith)
]

verify_from_complete : (k n : ℕ) (a : Slots) → IsHeap n a → verify_from k n a ≡ true
unfolding verify_from
verify_from_complete zero n a h = refl
verify_from_complete (suc k) n a h =
    let l : parent (left (suc k)) ≡ suc k = omega arith in
    let r : parent (right (suc k)) ≡ suc k = omega arith in
    let hl = rw l at (h (left (suc k)) (omega arith)) in
    let hr = rw r at (h (right (suc k)) (omega arith)) in
    ground (arith, hl, hr, verify_from_complete k n a h)

-- The assertions of `verify_heap` hold exactly if the slots 1 to `size` are in heap order.
pub verify_heap_iff : (q : WcQueue) → (verify_heap q ≡ true) ↔ IsHeap q.size q.array
unfolding verify_heap
verify_heap_iff q = (
  λ h c p r. verify_from_sound q.size q.size q.array h c p r (omega arith),
  verify_from_complete q.size q.size q.array,
)
