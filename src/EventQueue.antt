-- ===== src/EventQueue.antt =====
-- wc_event.c: the queue of timed events, a binary min-heap in an array whose slot 0 is not used.
-- A function that writes through its pointer returns the new queue; one of the static functions
-- that only moves elements takes the array, its length and the size, and returns the new array.
-- The lock and the condition variable order the calls of several threads and are not modelled: a
-- call runs alone. An `int` index or id that passes 2^31 is not modelled.
pub mod Memory
pub mod Order
pub mod Heapify
pub mod Add
pub mod Take
pub mod Fix
pub mod Delta
pub mod Signal
pub mod Tests
use oflops_turbo.Base.{
  ℕ, zero, suc, ◌+◌, ◌-◌, ◌*◌, ◌/◌, Bool, true, false, ◌&&◌, Option, none, some, ltb, leb, ◌==◌,
  if◌then◌else◌, Run, ok, aborted, fault, out_of_fuel, ◌>>=◌, assert, not,
}
use oflops_turbo.Base.Int.{ℤ, pos, negsuc, ltb_ℤ}
use oflops_turbo.Time.{TimeVal, timer_lt}
use Memory.{update}

-- `struct wc_event`; a function or argument pointer is its address.
pub record WcEvent : Type 0 where
  pub eventtime : TimeVal
  pub fun : ℕ
  pub arg : ℕ

-- `struct qelm`; it owns the event that its `data` points to.
pub record Qelm : Type 0 where
  pub id : ℕ
  pub key : TimeVal
  pub event : WcEvent

abbrev pub Slots : Type 0
Slots = ℕ → Qelm

-- `struct wc_queue`, with the counter `WC_EVENT_ID`. Slots at `length` or later are outside of the
-- array: `load` and `store` refuse them.
pub record WcQueue : Type 0 where
  pub array : Slots
  pub length : ℕ
  pub size : ℕ
  pub timers_enabled : Bool
  pub event_id : ℕ

abbrev pub parent : ℕ → ℕ
parent i = i / 2

abbrev pub left : ℕ → ℕ
left i = 2 * i

abbrev pub right : ℕ → ℕ
right i = 2 * i + 1

-- `array[i]`, read and written.
pub load : ℕ → Slots → ℕ → Run Qelm
load len a i = if ltb i len then ok (a i) else fault

pub store : ℕ → Slots → ℕ → Qelm → Run Slots
store len a i e = if ltb i len then ok (update a i e) else fault

-- `fresh` is what the memory that `malloc` returns holds.
pub wc_queue_init : Slots → ℕ → ℕ → WcQueue
wc_queue_init fresh init_size event_id = record {
  array = fresh;
  length = init_size;
  size = 0;
  timers_enabled = false;
  event_id = event_id;
}

pub wc_queue_isempty : WcQueue → Bool
wc_queue_isempty q = ltb q.size 1

-- The index that `heapify` calls `largest`: of `i` and its children, one with an earliest key.
pub earliest : ℕ → ℕ → Slots → ℕ → Run ℕ
earliest len size a i = do
  m ←
      if leb (left i) size
      then (do
        x ← load len a (left i)
        y ← load len a i
        ok (if timer_lt x.key y.key then left i else i))
      else ok i
  if leb (right i) size
      then (do
        x ← load len a (right i)
        y ← load len a m
        ok (if timer_lt x.key y.key then right i else m))
      else ok m

-- `tmp = a[i]; a[i] = a[m]; a[m] = tmp`
pub exchange : ℕ → Slots → ℕ → ℕ → Run Slots
exchange len a i m = do
  tmp ← load len a i
  other ← load len a m
  b ← store len a i other
  store len b m tmp

pub heapify_loop : ℕ → ℕ → ℕ → Slots → ℕ → Run Slots
heapify_loop zero len size a i = out_of_fuel
heapify_loop (suc k) len size a i = do
  m ← earliest len size a i
  let sink = exchange len a i m >>= λ b. heapify_loop k len size b m
  if m == i then ok a else sink

pub heapify : WcQueue → ℕ → Run WcQueue
heapify q i =
    heapify_loop (q.size + 1) q.length q.size q.array i >>= λ a. ok (record q { array = a })

-- The new array has twice the length and the old elements in its first half.
pub wc_queue_double : Slots → WcQueue → WcQueue
wc_queue_double fresh q = record q {
  array = λ i. if ltb i q.length then q.array i else fresh i;
  length = q.length * 2;
}

-- The loop of `wc_event_add`: the array, with parents moved down, and the slot for the new element.
pub sift_up : ℕ → ℕ → Slots → ℕ → TimeVal → Run (Slots × ℕ)
sift_up zero len a i key = out_of_fuel
sift_up (suc k) len a i key =
    let climb : Run (Slots × ℕ) = do
      p ← load len a (parent i)
      let rise = store len a i p >>= λ b. sift_up k len b (parent i) key
      if timer_lt key p.key then rise else ok (a, i)
    in if ltb 1 i then climb else ok (a, i)

-- The test before the insertion, on the size before it grows.
pub make_room : Slots → WcQueue → WcQueue
make_room fresh q = if leb q.length (q.size + 1) then wc_queue_double fresh q else q

pub wc_event_add : Slots → WcQueue → ℕ → ℕ → TimeVal → Run (ℕ × WcQueue)
wc_event_add fresh q fun arg key = assert (not q.timers_enabled) (do
  let room = make_room fresh q
  let n = room.size + 1
  (a, i) ← sift_up (n + 1) room.length room.array n key
  b ← store room.length a i (record {
    id = room.event_id;
    key = key;
    event = record { eventtime = key; fun = fun; arg = arg };
  })
  ok (room.event_id, record room { array = b; size = n; event_id = room.event_id + 1 }))

-- What a call hands back through its pointers: of a removal only `fun` and `arg` are read.
pub record Taken : Type 0 where
  pub id : ℕ
  pub key : TimeVal
  pub fun : ℕ
  pub arg : ℕ

abbrev pub taken : Qelm → Taken
taken e = record { id = e.id; key = e.key; fun = e.event.fun; arg = e.event.arg }

-- `none` is the result -1.
pub wc_queue_extract : WcQueue → Run (Option Taken × WcQueue)
wc_queue_extract q = assert (not q.timers_enabled) (
    if ltb q.size 1 then ok (none, q) else (do
      top ← load q.length q.array 1
      last ← load q.length q.array q.size
      a ← store q.length q.array 1 last
      q' ← heapify (record q { array = a; size = q.size - 1 }) 1
      ok (some (taken top), q')))

-- The search of `wc_event_remove`, over `n` slots from `i` on.
pub find_id : ℕ → ℕ → Slots → ℕ → ℕ → Run (Option ℕ)
find_id zero len a id i = ok none
find_id (suc n) len a id i = do
  e ← load len a i
  let rest = find_id n len a id (i + 1)
  if e.id == id then ok (some i) else rest

-- The loop that repairs the heap from slot `i` up to the root.
pub fix_up : ℕ → WcQueue → ℕ → Run WcQueue
fix_up zero q i = out_of_fuel
fix_up (suc k) q i = do
  q' ← heapify q i
  let rest = fix_up k q' (parent i)
  if ltb 0 (parent i) then rest else ok q'

pub wc_event_remove : WcQueue → ℕ → Run (Option Taken × WcQueue)
wc_event_remove q id = assert (not q.timers_enabled) (do
  found ← find_id q.size q.length q.array id 1
  elim found [
    | none ↦ ok (none, q)
    | some i ↦ (do
      e ← load q.length q.array i
      last ← load q.length q.array q.size
      a ← store q.length q.array i last
      q' ← fix_up (i + 1) (record q { array = a; size = q.size - 1 }) i
      ok (some (taken e), q'))
  ])

-- `verify_heap`, over the slots 1 to `n`; `true` means that no assertion fails.
pub verify_from : ℕ → ℕ → Slots → Bool
verify_from zero size a = true
verify_from (suc n) size a =
    (if leb (left (suc n)) size
      then not (timer_lt (a (left (suc n))).key (a (suc n)).key)
      else true)
    && (if leb (right (suc n)) size
        then not (timer_lt (a (right (suc n))).key (a (suc n)).key)
        else true)
    && verify_from n size a

pub verify_heap : WcQueue → Bool
verify_heap q = verify_from q.size q.size q.array

-- `timersub` of <sys/time.h>, a parameter: it returns its first argument less the second.
abbrev pub TimerSub : Type 0
TimerSub = TimeVal → TimeVal → TimeVal

-- `wc_get_next_event_delta`: the result, and what is stored in `*delta` (if anything is).
-- `now` is what `gettimeofday` returns.
pub wc_get_next_event_delta : TimerSub → TimeVal → WcQueue → Run (ℤ × Option TimeVal)
wc_get_next_event_delta timersub now q = assert (not q.timers_enabled) (
    if wc_queue_isempty q then ok (negsuc 0, none) else (do
      top ← load q.length q.array 1
      ok (if timer_lt top.key now then (pos 1, none) else (pos 0, some (timersub top.key now)))))
