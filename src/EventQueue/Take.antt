-- ===== src/EventQueue/Take.antt =====
-- `wc_queue_extract` takes out an element that is due first.
use mathlib.Core.List.Perm
use oflops_turbo.Base.{
  ℕ, ◌-◌, ◌≤◌, ◌≡◌, refl, true, false, List, ◌∷◌, Perm, Mem, Option, none, some, arith, ok, Returns,
  returns, ltb, Bool-set, not,
}
use oflops_turbo.EventQueue.{Qelm, WcQueue, Taken, taken, parent, wc_queue_extract}
use oflops_turbo.EventQueue.Memory.{update, contents, update_lem, take_out-perm, contents-all}
use oflops_turbo.EventQueue.Order.{NotAfter, IsHeap, IsValid, root_first, load-ok, store-ok}
use oflops_turbo.EventQueue.Heapify.{IsLoose, heapify_value}

-- The elements of a queue.
abbrev pub elements : WcQueue → List Qelm
elements q = contents q.array q.size

-- What a call that takes the element `e` out of `q` returns.
pub record Removed (q : WcQueue) (e : Qelm) (r : Option Taken × WcQueue) : Type 0 where
  pub result : r.0 ≡ some (taken e)
  pub valid : IsValid r.1
  pub rest : Perm (e ∷ elements r.1) (elements q)
  pub disabled : r.1.timers_enabled ≡ false
  pub counter : r.1.event_id ≡ q.event_id

-- `q` with its last element in slot `i`, and one slot fewer.
abbrev pub shrunk : WcQueue → ℕ → WcQueue
shrunk q i = record q { array = update q.array i (q.array q.size); size = q.size - 1 }

module _ (q : WcQueue) (i : ℕ) (v : IsValid q) (pos : 1 ≤ i) (inside : i ≤ q.size) where
  pub shrunk-IsLoose : IsLoose i (shrunk q i).size (shrunk q i).array
  shrunk-IsLoose c lo hi ne out = ground (
    arith,
    update_lem q.array i (q.array q.size) c,
    update_lem q.array i (q.array q.size) (parent c),
    v.heap c,
  )

  -- A queue that holds the rest in heap order is what the removal of slot `i` asks for.
  pub repaired-Removed :
      (q' : WcQueue)
      → IsHeap (shrunk q i).size q'.array
      → Perm (contents q'.array (shrunk q i).size) (contents (shrunk q i).array (shrunk q i).size)
      → q' ≡ record (shrunk q i) { array = q'.array }
      → q.timers_enabled ≡ false
      → Removed q (q.array i) (some (taken (q.array i)), q')
  repaired-Removed q' h p e off = rw e (record {
    result = refl;
    valid = record { heap = h; room = omega (arith, v.room) };
    rest = Perm.trans (Perm.cons (q.array i) p) (take_out-perm q.array i q.size pos inside);
    disabled = off;
    counter = refl;
  })

module _ (q : WcQueue) (v : IsValid q) (some_left : 1 ≤ q.size)
    (off : q.timers_enabled ≡ false) where
  -- The element that is taken out is that of slot 1.
  pub wc_queue_extract-Removed : Returns (Removed q (q.array 1)) (wc_queue_extract q)
  unfolding wc_queue_extract
  wc_queue_extract-Removed =
      let enabled : not q.timers_enabled ≡ true = ground arith in
      let nonempty : ltb q.size 1 ≡ false = ground arith in
      rw
        (
          enabled,
          nonempty,
          load-ok q.length q.array 1 (omega (arith, v.room)),
          load-ok q.length q.array q.size v.room,
          store-ok q.length q.array 1 (q.array q.size) (omega (arith, v.room)),
        )
        (let (a, done, s) =
            heapify_value (shrunk q 1) 1 (omega arith) (omega (arith, v.room))
              (shrunk-IsLoose q 1 v (omega arith) some_left) in
          rw done (
            returns (
              repaired-Removed q 1 v (omega arith) some_left _
                (λ c lo hi. s.0 c lo hi (omega arith)) s.1 refl off)))

-- On a valid queue that is not empty, with the timers disabled, `wc_queue_extract` returns an
-- element that no element of the queue is due before, and leaves a valid queue of the others.
pub wc_queue_extract_correct :
    (q : WcQueue)
    → IsValid q
    → 1 ≤ q.size
    → q.timers_enabled ≡ false
    → (e : Qelm) × Returns (Removed q e) (wc_queue_extract q)
      × ((x : Qelm) → Mem x (elements q) → NotAfter e x)
wc_queue_extract_correct q v some_left off = (
  q.array 1,
  wc_queue_extract-Removed q v some_left off,
  contents-all (λ x. NotAfter (q.array 1) x) (λ x. Bool-set _ _) q.array q.size
      (λ i p r. root_first q.size q.array i v.heap p r),
)

-- On an empty queue it returns -1 and changes nothing.
pub wc_queue_extract-empty :
    (q : WcQueue) → q.size ≡ 0 → q.timers_enabled ≡ false → wc_queue_extract q ≡ ok (none, q)
unfolding wc_queue_extract
wc_queue_extract-empty q e off =
    let enabled : not q.timers_enabled ≡ true = ground arith in
    let empty : ltb q.size 1 ≡ true = ground arith in rw (enabled, empty)
