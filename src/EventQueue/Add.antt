-- ===== src/EventQueue/Add.antt =====
-- `wc_event_add` puts one element in.
use mathlib.Core.List.Perm
use native.Mathlib.Decide.{ℕ_discrete}
use oflops_turbo.Base.{
  ℕ, zero, suc, ◌+◌, ◌*◌, ◌≤◌, ◌<◌, ◌≡◌, ◌≢◌, inl, inr, refl, ap, not, true, false, List, ◌∷◌, Perm,
  arith, Returns, returns, Returns-bind, Returns-map, ltb, leb, if◌then◌else◌, Bool-cases,
}
use oflops_turbo.Time.{TimeVal, timer_lt}
use oflops_turbo.Time.Order.{timer_lt_asymm, timer_le_trans}
use oflops_turbo.EventQueue.{
  Qelm, Slots, WcQueue, parent, sift_up, make_room, wc_queue_double, wc_event_add,
}
use oflops_turbo.EventQueue.Memory.{
  update, update_lem, swap, swap_lem, contents, contents-suc, contents_ext, contents-update_out,
  swap-perm,
}
use oflops_turbo.EventQueue.Order.{NotAfter, IsHeap, IsValid, load-ok, store-ok}
use oflops_turbo.EventQueue.Take.{elements}

-- With `e` in slot `i`, only the edge above slot `i` may be out of order.
record UpInv (n : ℕ) (a : Slots) (i : ℕ) (e : Qelm) : Type 0 where
  low : 1 ≤ i
  high : i ≤ n
  edges : (c : ℕ) → 2 ≤ c → c ≤ n → c ≢ i → NotAfter (update a i e (parent c)) (update a i e c)
  bridged :
      (c : ℕ)
      → 2 ≤ c
      → c ≤ n
      → parent c ≡ i
      → 2 ≤ i
      → NotAfter (update a i e (parent i)) (update a i e c)

-- Where the search ends: in slot `j` of `b` the element `e` restores the heap order.
record Placed (n : ℕ) (a : Slots) (i : ℕ) (e : Qelm) (r : Slots × ℕ) : Type 0 where
  low : 1 ≤ r.1
  high : r.1 ≤ n
  heap : IsHeap n (update r.0 r.1 e)
  same : Perm (contents (update r.0 r.1 e) n) (contents (update a i e) n)

module _ (n : ℕ) (a : Slots) (i : ℕ) (e : Qelm) (inner : 2 ≤ i) where
  -- The array with the parent of slot `i` moved down.
  abbrev moved : Slots
  moved = update a i (a (parent i))

  moved-swap : (c : ℕ) → update moved (parent i) e c ≡ swap (update a i e) i (parent i) c
  moved-swap c = ground (
    arith,
    update_lem moved (parent i) e c,
    update_lem a i (a (parent i)) c,
    swap_lem (update a i e) i (parent i) c,
    update_lem a i e i,
    update_lem a i e (parent i),
    update_lem a i e c,
  )

  moved-perm : i ≤ n → Perm (contents (update moved (parent i) e) n) (contents (update a i e) n)
  moved-perm high =
      rw
        (contents_ext (update moved (parent i) e) (swap (update a i e) i (parent i)) n
          (λ c lo hi. moved-swap c))
        (swap-perm (update a i e) i (parent i) n (omega arith) high (omega arith) (omega arith))

  moved-UpInv :
      UpInv n a i e → timer_lt e.key (a (parent i)).key ≡ true → UpInv n moved (parent i) e
  moved-UpInv v before = record {
    low = omega arith;
    high = omega (arith, v.high);
    edges = λ c lo hi ne. ground (
      arith,
      update_lem moved (parent i) e c,
      update_lem moved (parent i) e (parent c),
      update_lem a i (a (parent i)) c,
      update_lem a i (a (parent i)) (parent c),
      update_lem a i e c,
      update_lem a i e (parent c),
      update_lem a i e (parent i),
      v.edges c,
      v.bridged c,
      timer_lt_asymm e.key (a (parent i)).key,
      timer_le_trans e.key (a (parent i)).key (a c).key,
    );
    bridged = λ c lo hi up lo'. ground (
      arith,
      update_lem moved (parent i) e c,
      update_lem moved (parent i) e (parent (parent i)),
      update_lem a i (a (parent i)) c,
      update_lem a i (a (parent i)) (parent (parent i)),
      update_lem a i e c,
      update_lem a i e (parent (parent i)),
      update_lem a i e (parent i),
      v.edges c,
      v.edges (parent i),
      timer_le_trans (a (parent (parent i))).key (a (parent i)).key (a c).key,
    );
  }

sift_up_places :
    (k len n : ℕ) (a : Slots) (i : ℕ) (e : Qelm)
    → i < k
    → n < len
    → UpInv n a i e
    → Returns (Placed n a i e) (sift_up k len a i e.key)
unfolding sift_up
sift_up_places zero len n a i e fuel room v = absurd (omega arith)
sift_up_places (suc k) len n a i e fuel room v = elim (Bool-cases (ltb 1 i)) [
  | inr root ↦ rw root (
      returns (record {
        low = v.low;
        high = v.high;
        heap = λ c lo hi. v.edges c lo hi (ground arith);
        same = Perm.refl _;
      }))
  | inl inner ↦
      let deep : 2 ≤ i = ground arith in
      rw (inner, load-ok len a (parent i) (omega (arith, v.high)))
        (elim (Bool-cases (timer_lt e.key (a (parent i)).key)) [
          | inl before ↦
              rw (before, store-ok len a i (a (parent i)) (omega (arith, v.high)))
                (Returns-map
                  (sift_up_places k len n (moved n a i e deep) (parent i) e (omega arith) room
                    (moved-UpInv n a i e deep v before))
                  λ r p. record {
                    low = p.low;
                    high = p.high;
                    heap = p.heap;
                    same = Perm.trans p.same (moved-perm n a i e deep v.high);
                  })
          | inr settled ↦ rw settled (
              returns (record {
                low = v.low;
                high = v.high;
                heap = λ c lo hi. elim (ℕ_discrete c i) [
                  | yes here ↦
                      rw here (ground (arith, update_lem a i e i, update_lem a i e (parent i)))
                  | no ne ↦ v.edges c lo hi ne
                ];
                same = Perm.refl _;
              }))
        ])
]

-- What `wc_event_add` makes of a queue that holds `held`: a valid queue that also holds `e`.
pub record Added (held : List Qelm) (e : Qelm) (r : ℕ × WcQueue) : Type 0 where
  pub id : r.0 ≡ e.id
  pub valid : IsValid r.1
  pub all : Perm (elements r.1) (e ∷ held)
  pub counter : r.1.event_id ≡ e.id + 1
  pub disabled : r.1.timers_enabled ≡ false

-- A doubled or untouched array has room for one more element, and the old elements stay.
record Roomy (q : WcQueue) (a : Slots) (len : ℕ) : Type 0 where
  bound : q.size + 1 < len
  kept : (i : ℕ) → i ≤ q.size → a i ≡ q.array i

make_room_value :
    (fresh : Slots) (q : WcQueue)
    → IsValid q
    → (a : Slots) × (len : ℕ) × (make_room fresh q ≡ record q { array = a; length = len })
      × Roomy q a len
unfolding make_room wc_queue_double
make_room_value fresh q v = elim (Bool-cases (leb q.length (q.size + 1))) [
  | inl full ↦ (
    (λ i. if ltb i q.length then q.array i else fresh i),
    q.length * 2,
    rw full,
    record { bound = omega (arith, v.room); kept = λ i h. ground (arith, v.room) },
  )
  | inr free ↦
      (q.array, q.length, rw free, record { bound = ground (arith, v.room); kept = λ i h. refl })
]

-- The element that `wc_event_add` makes.
abbrev pub new_element : WcQueue → ℕ → ℕ → TimeVal → Qelm
new_element q fun arg key = record {
  id = q.event_id;
  key = key;
  event = record { eventtime = key; fun = fun; arg = arg };
}

grown-UpInv :
    (q : WcQueue) (a : Slots) (len : ℕ) (e : Qelm)
    → IsValid q
    → Roomy q a len
    → UpInv (q.size + 1) a (q.size + 1) e
grown-UpInv q a len e v r = record {
  low = omega arith;
  high = omega arith;
  edges = λ c lo hi ne. ground (
    arith,
    update_lem a (q.size + 1) e c,
    update_lem a (q.size + 1) e (parent c),
    r.kept c,
    r.kept (parent c),
    v.heap c,
  );
  bridged = λ c lo hi up. absurd (omega arith);
}

grown-perm :
    (q : WcQueue) (a : Slots) (len : ℕ) (e : Qelm)
    → Roomy q a len
    → contents (update a (q.size + 1) e) (q.size + 1) ≡ e ∷ elements q
grown-perm q a len e r =
    let next : q.size + 1 ≡ suc q.size = omega arith in
    rw
      (
        next,
        contents-suc,
        contents-update_out a (suc q.size) e q.size (omega arith),
        contents_ext a q.array q.size (λ i lo hi. r.kept i hi),
      )
      (ap (λ x. x ∷ elements q) (ground (arith, update_lem a (suc q.size) e (suc q.size))))

-- On a valid queue with the timers disabled, `wc_event_add` writes only inside the array (which it
-- doubles where it is full), returns the next id, and leaves a valid queue of the old elements and
-- one new one with that id, key, function and argument; the id counter is one higher.
pub wc_event_add_correct :
    (fresh : Slots) (q : WcQueue) (fun arg : ℕ) (key : TimeVal)
    → IsValid q
    → q.timers_enabled ≡ false
    → Returns (Added (elements q) (new_element q fun arg key)) (wc_event_add fresh q fun arg key)
unfolding wc_event_add
wc_event_add_correct fresh q fun arg key v off =
    let e = new_element q fun arg key in
    let (a, len, made, r) = make_room_value fresh q v in
    let enabled : not q.timers_enabled ≡ true = ground arith in
    rw (enabled, made)
      (Returns-bind
        (sift_up_places (q.size + 1 + 1) len (q.size + 1) a (q.size + 1) e (omega arith) r.bound
          (grown-UpInv q a len e v r))
        λ s p. rw (store-ok len s.0 s.1 e (omega (arith, p.high, r.bound))) (
          returns (record {
            id = refl;
            valid = record { heap = p.heap; room = r.bound };
            all = rw (grown-perm q a len e r) at p.same;
            counter = refl;
            disabled = off;
          })))
