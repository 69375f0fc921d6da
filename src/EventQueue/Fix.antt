-- ===== src/EventQueue/Fix.antt =====
-- `wc_event_remove` takes out the element with an id, wherever it stands.
use mathlib.Core.List.Perm
use native.Mathlib.Decide.{ℕ_discrete}
use mathlib.Core.HLevel.{¬_prop}
use oflops_turbo.Base.{
  ℕ, zero, suc, ◌+◌, ◌-◌, ◌≤◌, ◌<◌, ◌≡◌, ◌≢◌, ◌==◌, ==_iff, inl, inr, refl, ap, not, true, false,
  Perm, Mem, Option, none, some, arith, ok, ◌>>=◌, Returns, returns, Returns-bind, Returns-map, ltb,
  Bool-cases,
}
use oflops_turbo.EventQueue.{
  Qelm, Slots, WcQueue, Taken, taken, parent, load, store, find_id, fix_up, wc_event_remove,
}
use oflops_turbo.EventQueue.Memory.{contents, contents-all}
use oflops_turbo.EventQueue.Order.{IsHeap, IsValid, load-ok, store-ok}
use oflops_turbo.EventQueue.Heapify.{IsLoose, heapify_value}
use oflops_turbo.EventQueue.Take.{elements, Removed, shrunk, shrunk-IsLoose, repaired-Removed}

-- The heap order in `b`, which holds what `a` held.
abbrev Reordered : ℕ → Slots → Slots → Type 0
Reordered n a b = IsHeap n b × Perm (contents b n) (contents a n)

fix_up_value :
    (k : ℕ) (q : WcQueue) (i : ℕ)
    → i < k
    → 1 ≤ i
    → q.size < q.length
    → IsLoose i q.size q.array
    → (a : Slots) × (fix_up k q i ≡ ok (record q { array = a })) × Reordered q.size q.array a
unfolding fix_up
fix_up_value zero q i fuel pos room loose = absurd (omega arith)
fix_up_value (suc k) q i fuel pos room loose =
    let (a, run, s) = heapify_value q i pos room loose in
    elim (Bool-cases (ltb 0 (parent i))) [
      | inl above ↦
          let (b, again, t) =
            fix_up_value k (record q { array = a }) (parent i) (omega arith) (ground arith) room
              (λ c lo hi ne out. s.0 c lo hi (λ e. out (ap parent e))) in
          (b, rw (run, above) again, (t.0, Perm.trans t.1 s.1))
      | inr root ↦ (a, rw (run, root), ((λ c lo hi. s.0 c lo hi (ground arith)), s.1))
    ]

-- What the search over `n` slots from `i` on returns.
abbrev Finds : ℕ → Slots → ℕ → ℕ → Option ℕ → Type 0
Finds n a id i none = (j : ℕ) → i ≤ j → j < i + n → (a j).id ≢ id
Finds n a id i (some j) = (i ≤ j) × (j < i + n) × ((a j).id ≡ id)

Finds-later :
    (n : ℕ) (a : Slots) (id i : ℕ) (o : Option ℕ)
    → (a i).id ≢ id
    → Finds n a id (i + 1) o
    → Finds (suc n) a id i o
Finds-later n a id i none ne h = λ j lo hi. elim (ℕ_discrete j i) [
  | yes e ↦ rw e ne
  | no other ↦ h j (omega arith) (omega arith)
]
Finds-later n a id i (some j) ne h = omega arith

find_id-Finds :
    (n len : ℕ) (a : Slots) (id i : ℕ)
    → i + n ≤ len
    → Returns (Finds n a id i) (find_id n len a id i)
unfolding find_id
find_id-Finds zero len a id i room = returns (λ j lo hi. absurd (omega arith))
find_id-Finds (suc n) len a id i room =
    rw (load-ok len a i (omega arith)) (elim (Bool-cases ((a i).id == id)) [
      | inl same ↦ rw same (returns (omega arith, omega arith, (==_iff _ _).0 same))
      | inr other ↦ rw other (
          Returns-map (find_id-Finds n len a id (i + 1) (omega arith))
            (λ o. Finds-later n a id i o (ground arith)))
    ])

-- What `wc_event_remove` does for an id: it takes out an element that has it, or, if none has,
-- returns -1 and changes nothing.
pub data RemovedById (q : WcQueue) (id : ℕ) (r : Option Taken × WcQueue) : Type 0 where
  found : (e : Qelm) → e.id ≡ id → Removed q e r → RemovedById q id r
  absent : ((e : Qelm) → Mem e (elements q) → e.id ≢ id) → r ≡ (none, q) → RemovedById q id r

module _ (q : WcQueue) (v : IsValid q) (off : q.timers_enabled ≡ false) where
  -- On a valid queue with the timers disabled, `wc_event_remove` takes out an element with the
  -- given id, whichever slot it is in, and leaves a valid queue of the others; if no element has
  -- that id, it returns -1 and changes nothing.
  pub wc_event_remove_correct : (id : ℕ) → Returns (RemovedById q id) (wc_event_remove q id)
  unfolding wc_event_remove
  wc_event_remove_correct id =
      rw enabled
        (Returns-bind (find_id-Finds q.size q.length q.array id 1 (omega (arith, v.room))) finish)
    where
      enabled : not q.timers_enabled ≡ true
      enabled = ground arith

      finish :
          (o : Option ℕ)
          → Finds q.size q.array id 1 o
          → Returns (RemovedById q id) (elim o [
            | none ↦ ok (none, q)
            | some i ↦ (do
              e ← load q.length q.array i
              last ← load q.length q.array q.size
              a ← store q.length q.array i last
              q' ← fix_up (i + 1) (record q { array = a; size = q.size - 1 }) i
              ok (some (taken e), q'))
          ])
      finish none h = returns (
          absent
            (contents-all (λ e. e.id ≢ id) (λ e. ¬_prop) q.array q.size
              (λ i p r. h i p (omega arith)))
            refl)
      finish (some i) h =
          let inside : i ≤ q.size = omega (arith, h.1) in
          let (b, run, t) =
            fix_up_value (i + 1) (shrunk q i) i (omega arith) h.0 (omega (arith, v.room))
              (shrunk-IsLoose q i v h.0 inside) in
          rw
            (
              load-ok q.length q.array i (omega (arith, v.room)),
              load-ok q.length q.array q.size v.room,
              store-ok q.length q.array i (q.array q.size) (omega (arith, v.room)),
              run,
            )
            (returns (found (q.array i) h.2 (repaired-Removed q i v h.0 inside _ t.0 t.1 refl off)))
