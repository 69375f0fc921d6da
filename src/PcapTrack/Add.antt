-- ===== src/PcapTrack/Add.antt =====
-- `ptrack_add_of_entry`: how a TCP payload is cut into OpenFlow messages.
use oflops_turbo.Base.{
  ℕ, zero, suc, ◌+◌, ◌≤◌, ◌<◌, ◌≡◌, refl, ap, ◌⊎◌, inl, inr, true, false, List, [], ◌∷◌, ◌++◌,
  arith, ltb, leb, Bool-cases, length, drop, length-append, length-drop, get_elem?-append,
  take-append, drop-append, ok, fault, out_of_fuel, Bool, ◌&&◌, if◌then◌else◌,
}
use oflops_turbo.PcapTrack.{
  Bytes, Tracker, byte_at, short_at, tcp_payload_offset, add_entry, add_loop, ptrack_add_of_entry,
}

-- The bytes of a complete message: its header's `length` is its length.
pub record IsMessage (m : Bytes) : Type 0 where
  pub header : 4 ≤ length m
  pub sized : short_at m 2 ≡ ok (length m)

-- What may follow the last complete message: fewer bytes than its length field ends with, or the start of a
-- message that is longer than what is left.
abbrev pub IsTail : Bytes → Type 0
IsTail xs =
    (length xs < 4) ⊎ ((n : ℕ) × (short_at xs 2 ≡ ok n) × ((4 ≤ length xs) × (length xs < n)))

-- One to three bytes, which end before the length field does.
abbrev pub is_stump : Bytes → Bool
is_stump xs = ltb 0 (length xs) && ltb (length xs) 4

abbrev pub AllMessages : List Bytes → Type 0
AllMessages [] = Unit
AllMessages (m ∷ ms) = IsMessage m × AllMessages ms

-- A payload: messages one after the other, and a tail.
abbrev pub payload : List Bytes → Bytes → Bytes
payload [] tail = tail
payload (m ∷ ms) tail = m ++ payload ms tail

byte_at-append : (xs ys : Bytes) (i : ℕ) → i < length xs → byte_at (xs ++ ys) i ≡ byte_at xs i
unfolding byte_at
byte_at-append xs ys i h = rw (get_elem?-append xs ys i h, byte_at)

short_at-append :
    (xs ys : Bytes) (i : ℕ) → i + 1 < length xs → short_at (xs ++ ys) i ≡ short_at xs i
unfolding short_at
short_at-append xs ys i h =
    rw (byte_at-append xs ys i (omega arith), byte_at-append xs ys (i + 1) (omega arith))

short_at-beyond : (xs : Bytes) → length xs < 4 → short_at xs 2 ≡ fault
unfolding short_at byte_at
short_at-beyond [] h = refl
short_at-beyond (a ∷ []) h = refl
short_at-beyond (a ∷ b ∷ []) h = refl
short_at-beyond (a ∷ b ∷ c ∷ []) h = refl
short_at-beyond (a ∷ b ∷ c ∷ d ∷ xs) h = absurd (omega arith)

module _ {Header : Type 0} (hdr : Header) where
  -- The tracker after one slot is filled for each message.
  unfoldable pub add_all : Tracker Header → List Bytes → Tracker Header
  add_all t [] = t
  add_all t (m ∷ ms) = add_all (add_entry t m hdr) ms

  -- On a payload of complete messages and a tail, the loop ends, files each message in order, drops
  -- the tail, and returns the number of messages; at a tail of one to three bytes it reads outside.
  pub add_loop_splits :
      (k : ℕ) (t : Tracker Header) (ms : List Bytes) (tail : Bytes) (add_count : ℕ)
      → AllMessages ms
      → IsTail tail
      → length (payload ms tail) < k
      → add_loop k t (payload ms tail) hdr add_count
        ≡ (if is_stump tail then fault else ok (add_count + length ms, add_all t ms))
  unfolding add_loop add_all
  add_loop_splits zero t ms tail c p q fuel = absurd (omega arith)
  add_loop_splits (suc k) t [] tail c p q fuel =
      let none_added : c + 0 ≡ c = omega arith in
      elim (Bool-cases (ltb 0 (length tail))) [
        | inr empty ↦ rw (empty, none_added) refl
        | inl left ↦ elim q [
          | inl stump ↦
              let short : ltb (length tail) 4 ≡ true = ground arith in
              rw (left, short, short_at-beyond tail stump) refl
          | inr cut ↦
              let over : ltb (length tail) cut.0 ≡ true = ground (arith, cut.2.1) in
              let long : ltb (length tail) 4 ≡ false = ground (arith, cut.2.0) in
              rw (left, long, cut.1, over, none_added) refl
        ]
      ]
  add_loop_splits (suc k) t (m ∷ ms) tail c p q fuel =
      let rest = payload ms tail in
      let size = length-append m rest in
      let some_bytes : ltb 0 (length (m ++ rest)) ≡ true = ground (arith, p.0.header) in
      let whole : ltb (length (m ++ rest)) (length m) ≡ false = ground arith in
      let count : c + 1 + length ms ≡ c + suc (length ms) = omega arith in
      rw (
        some_bytes,
        short_at-append m rest 2 (omega (arith, p.0.header)),
        p.0.sized,
        whole,
        take-append m rest,
        drop-append m rest,
        add_loop_splits k (add_entry t m hdr) ms tail (c + 1) p.1 q (omega (arith, p.0.header)),
        count,
      )

  -- On a payload that starts with a header whose `length` is 0 the loop never ends: it files empty
  -- entries for ever.
  pub add_loop_stuck :
      (k : ℕ) (t : Tracker Header) (rest : Bytes) (add_count : ℕ)
      → short_at rest 2 ≡ ok 0
      → 0 < length rest
      → add_loop k t rest hdr add_count ≡ out_of_fuel
  unfolding add_loop
  add_loop_stuck zero t rest c e h = refl
  add_loop_stuck (suc k) t rest c e h =
      let some_bytes : ltb 0 (length rest) ≡ true = ground arith in
      let whole : ltb (length rest) 0 ≡ false = ground arith in
      rw (some_bytes, e, whole) (add_loop_stuck k (add_entry t [] hdr) rest (c + 1) e h)

  -- `ptrack_add_of_entry` on a packet whose TCP payload is complete messages and a tail, which is
  -- the start of a longer message or fewer than four bytes. It files each message in order, drops
  -- the tail, and returns the number of messages; where the tail has one to three bytes, it reads
  -- the length of the next message behind the end of the packet.
  pub ptrack_add_of_entry_splits :
      (t : Tracker Header) (xs : Bytes) (offset : ℕ) (ms : List Bytes) (tail : Bytes)
      → tcp_payload_offset xs ≡ ok offset
      → offset < length xs
      → drop offset xs ≡ payload ms tail
      → AllMessages ms
      → IsTail tail
      → ptrack_add_of_entry t xs hdr
        ≡ (if is_stump tail then fault else ok (length ms, add_all t ms))
  unfolding ptrack_add_of_entry
  ptrack_add_of_entry_splits t xs offset ms tail e inside cut p q =
      let some_payload : leb (length xs) offset ≡ false = ground arith in
      let shorter : length (payload ms tail) < length xs + 1 =
        omega (arith, ap length cut, length-drop offset xs) in
      rw (e, some_payload, cut, add_loop_splits (length xs + 1) t ms tail 0 p q shorter)
        (ap (λ n. if is_stump tail then fault else ok (n, add_all t ms)) (omega arith))

  -- A packet whose TCP payload starts with a header whose `length` is 0 is never done with.
  pub ptrack_add_of_entry_stuck :
      (t : Tracker Header) (xs : Bytes) (offset : ℕ)
      → tcp_payload_offset xs ≡ ok offset
      → offset < length xs
      → short_at (drop offset xs) 2 ≡ ok 0
      → ((k : ℕ) (c : ℕ) → add_loop k t (drop offset xs) hdr c ≡ out_of_fuel)
        × (ptrack_add_of_entry t xs hdr ≡ out_of_fuel)
  unfolding ptrack_add_of_entry
  ptrack_add_of_entry_stuck t xs offset e inside zero_length =
      let some_payload : leb (length xs) offset ≡ false = ground arith in
      let some_bytes : 0 < length (drop offset xs) = omega (arith, length-drop offset xs) in
      (
        (λ k c. add_loop_stuck k t (drop offset xs) c zero_length some_bytes),
        rw (e, some_payload) (add_loop_stuck _ t (drop offset xs) 0 zero_length some_bytes),
      )
