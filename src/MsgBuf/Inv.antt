-- ===== src/MsgBuf/Inv.antt =====
-- What each operation of msgbuf.c does to the bytes that a buffer holds.
use oflops_turbo.Base.{
  [], ℕ, zero, suc, ◌+◌, ◌-◌, ◌≤◌, ◌<◌, ◌≡◌, refl, sym, ap, ◌∙◌, inl, inr, true, false, ◌++◌, arith,
  ltb, leb, if◌then◌else◌, Bool-cases, ltb→lt, ◌==◌, length, take, drop, drop-length, take-length,
  Returns, returns, Returns-bind, Returns-map,
}
use oflops_turbo.Base.Int.{ℤ, pos, negsuc}
use oflops_turbo.Base.Memory.{
  copy_in, slice, length-slice, slice_ext, copy_in-below, slice-copy_in, slice-append, drop-slice,
  take-slice,
}
use oflops_turbo.MsgBuf.{
  Bytes, MsgBuf, msgbuf_grow, settle, pull_bytes, msgbuf_pull, append_at_stop, grow_until,
  msgbuf_push,
}

pub record IsValid (m : MsgBuf) : Type 0 where
  pub ordered : m.start ≤ m.stop
  pub bounded : m.stop ≤ m.len
  pub room : 0 < m.len

-- The bytes that a buffer holds.
abbrev pub contents : MsgBuf → Bytes
contents m = slice m.buf m.start (m.stop - m.start)

-- The result `m'` is a valid buffer that holds `xs`.
abbrev pub Holds : Bytes → MsgBuf → Type 0
Holds xs m = IsValid m × (contents m ≡ xs)

pub length-contents : (m : MsgBuf) → length (contents m) ≡ m.stop - m.start
length-contents m = length-slice m.buf m.start (m.stop - m.start)

pub settle-Holds : (m : MsgBuf) → IsValid m → Holds (contents m) (settle m)
unfolding settle slice
settle-Holds m v = elim (Bool-cases (leb m.stop m.start)) [
  | inl drained ↦
      let gone : m.stop - m.start ≡ 0 = ground arith in
      rw (drained, gone)
        (record { ordered = omega arith; bounded = omega arith; room = v.room }, refl)
  | inr held ↦ rw held (v, refl)
]

pub grow-Holds : (fresh : ℕ → ℕ) (m : MsgBuf) → IsValid m → Holds (contents m) (msgbuf_grow fresh m)
unfolding msgbuf_grow
grow-Holds fresh m v = (
  record { ordered = v.ordered; bounded = omega (arith, v.bounded); room = omega (arith, v.room) },
  slice_ext _ m.buf m.start (m.stop - m.start) (λ j lo hi. ground (arith, v.bounded, v.ordered)),
)

pub append_at_stop-Holds :
    (m : MsgBuf) (xs : Bytes)
    → IsValid m
    → m.stop + length xs ≤ m.len
    → Returns
        (λ m'. Holds (contents m ++ xs) m' × (m'.start ≡ m.start) × (m'.len ≡ m.len))
        (append_at_stop m xs)
unfolding append_at_stop
append_at_stop-Holds m xs v fits =
    let test : leb (m.stop + length xs) m.len ≡ true = ground arith in
    rw test (
      returns (
        (record { ordered = omega (arith, v.ordered); bounded = fits; room = v.room }, whole),
        refl,
        refl,
      ))
  where
    size : m.stop + length xs - m.start ≡ (m.stop - m.start) + length xs
    size = omega (arith, v.ordered)

    join : m.start + (m.stop - m.start) ≡ m.stop
    join = omega (arith, v.ordered)

    old :
        slice (copy_in m.buf m.stop xs) m.start (m.stop - m.start)
        ≡ slice m.buf m.start (m.stop - m.start)
    old =
        slice_ext _ m.buf m.start (m.stop - m.start)
          (λ j lo hi. copy_in-below m.buf m.stop xs j (omega arith))

    whole :
        slice (copy_in m.buf m.stop xs) m.start (m.stop + length xs - m.start) ≡ contents m ++ xs
    whole = rw (size, slice-append, join, old, slice-copy_in)

grow_until-Holds :
    (k : ℕ) (fresh : ℕ → ℕ) (m : MsgBuf) (count : ℕ)
    → IsValid m
    → 0 < k
    → m.stop + count < k + m.len
    → Returns
        (λ m'. Holds (contents m) m' × (m.stop + count ≤ m'.len) × (m'.stop ≡ m.stop))
        (grow_until k fresh m count)
unfolding grow_until msgbuf_grow
grow_until-Holds zero fresh m count v some_fuel fuel = absurd (omega arith)
grow_until-Holds (suc k) fresh m count v some_fuel fuel =
    elim (Bool-cases (ltb m.len (m.stop + count))) [
      | inl short ↦
          let over = ltb→lt _ _ short in
          let grown = grow-Holds fresh m v in
          rw short (
            Returns-map
              (grow_until-Holds k fresh (msgbuf_grow fresh m) count grown.0 (omega arith)
                (omega (arith, v.room)))
              (λ m' h. ((h.0.0, h.0.1 ∙ grown.1), h.1, h.2)))
      | inr fits ↦ rw fits (returns ((v, refl), ground arith, refl))
    ]

-- `msgbuf_push` returns: its loop ends, its copy stays inside the buffer, and the buffer then holds
-- the bytes it held, followed by the bytes pushed.
pub msgbuf_push-Holds :
    (fresh : ℕ → ℕ) (m : MsgBuf) (xs : Bytes)
    → IsValid m
    → Returns (Holds (contents m ++ xs)) (msgbuf_push fresh m xs)
unfolding msgbuf_push
msgbuf_push-Holds fresh m xs v =
    Returns-bind
      (grow_until-Holds (m.stop + length xs + 1) fresh m (length xs) v (omega arith)
        (omega (arith, v.room)))
      λ m' h.
        Returns-map (append_at_stop-Holds m' xs h.0.0 (rw h.2 h.1))
          λ m'' a. (a.0.0, a.0.1 ∙ ap (λ b. b ++ xs) h.0.1)

-- What a call returns that hands out the first `n` bytes.
abbrev pub Pulled : MsgBuf → ℕ → ℤ × Bytes × MsgBuf → Type 0
Pulled m n r =
    Holds (drop n (contents m)) r.2
    × (r.1 ≡ take n (contents m))
    × (r.0 ≡ (if length r.1 == 0 then negsuc 0 else pos (length r.1)))

pub advance-Holds :
    (m : MsgBuf) (n : ℕ)
    → IsValid m
    → n ≤ m.stop - m.start
    → Holds (drop n (contents m)) (settle (record m { start = m.start + n }))
advance-Holds m n v h =
    let moved : IsValid (record m { start = m.start + n }) = record {
      ordered = omega (arith, v.ordered);
      bounded = v.bounded;
      room = v.room;
    } in
    let s = settle-Holds _ moved in
    let left : m.stop - (m.start + n) ≡ m.stop - m.start - n = omega arith in
    (s.0, s.1 ∙ rw (left, ← drop-slice m.buf m.start n (m.stop - m.start)))

pull_bytes-Pulled :
    (m : MsgBuf) (n : ℕ) → IsValid m → n ≤ m.stop - m.start → Pulled m n (pull_bytes m n)
unfolding pull_bytes
pull_bytes-Pulled m n v h = elim (Bool-cases (leb n 0)) [
  | inl nothing ↦
      let zero_bytes : n ≡ 0 = ground arith in rw (nothing, zero_bytes) ((v, refl), refl, refl)
  | inr something ↦
      let size = length-slice m.buf m.start n in
      let counted : (n == 0) ≡ false = ground arith in
      rw (something, size, counted)
        (advance-Holds m n v h, sym (take-slice m.buf m.start n (m.stop - m.start) h), refl)
]

-- `msgbuf_pull` hands out the first `count` bytes, or all where there are fewer, and keeps the
-- rest; where that is no byte, it returns -1 and changes nothing.
pub msgbuf_pull-Holds : (m : MsgBuf) (count : ℕ) → IsValid m → Pulled m count (msgbuf_pull m count)
unfolding msgbuf_pull
msgbuf_pull-Holds m count v = elim (Bool-cases (ltb count (m.stop - m.start))) [
  | inl some_stay ↦ rw some_stay (pull_bytes-Pulled m count v (ground arith))
  | inr all_go ↦
      let p = pull_bytes-Pulled m (m.stop - m.start) v (omega arith) in
      let size = length-contents m in
      let few : m.stop - m.start ≤ count = ground arith in
      rw
        (
          all_go,
          drop-length (contents m) count (omega arith),
          take-length (contents m) count (omega arith),
        )
        (rw
          (
            drop-length (contents m) (m.stop - m.start) (omega arith),
            take-length (contents m) (m.stop - m.start) (omega arith),
          )
          at p)
]

-- A pull of no bytes changes nothing.
pub msgbuf_pull-zero : (m : MsgBuf) → msgbuf_pull m 0 ≡ (negsuc 0, [], m)
unfolding msgbuf_pull pull_bytes
msgbuf_pull-zero m = elim (Bool-cases (ltb 0 (m.stop - m.start))) [
  | inl some_held ↦ rw some_held refl
  | inr none_held ↦ let gone : m.stop - m.start ≡ 0 = ground arith in rw (none_held, gone) refl
]
