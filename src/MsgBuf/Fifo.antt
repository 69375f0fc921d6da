-- ===== src/MsgBuf/Fifo.antt =====
-- A buffer behaves as the queue of the bytes that it holds.
use oflops_turbo.Base.{
  ◌∙◌, ℕ, zero, suc, ◌+◌, ◌*◌, ◌^◌, ◌≤◌, ◌<◌, ◌≡◌, refl, ap, true, inl, inr, Bool-cases, ltb, leb,
  if◌then◌else◌, List, [], ◌∷◌, ◌++◌, length, take, drop, Run, ok, fault, ◌>>=◌, Returns-value,
  arith, IfOk, IfOk-then, IfOk-if,
}
use oflops_turbo.Base.Memory.{slice}
use oflops_turbo.MsgBuf.{
  Bytes, MsgBuf, msgbuf_clear, msgbuf_grow, grow_until, append_at_stop, settle, pull_bytes,
  msgbuf_pull, msgbuf_push,
}
use oflops_turbo.MsgBuf.Inv.{IsValid, contents, msgbuf_push-Holds, msgbuf_pull-Holds}

-- What a client does with a buffer.
pub data Op : Type 0 where
  push : Bytes → Op
  pull : ℕ → Op
  clear : Op

-- The rest of a client's run where the length of the buffer is still an `int`; the doubling past 2^31 is an
-- overflow, which has no defined result.
abbrev pub in_int {ℓ} : {A : Type ℓ} → MsgBuf → Run A → Run A
in_int m rest = if ltb m.len (2 ^ 31) then rest else fault

-- The bytes that the calls of `msgbuf_pull` hand out, one entry for each.
pub replies : (ℕ → ℕ) → MsgBuf → List Op → Run (List Bytes)
replies fresh m [] = ok []
replies fresh m (push xs ∷ ops) = msgbuf_push fresh m xs >>= λ m'. in_int m' (replies fresh m' ops)
replies fresh m (pull n ∷ ops) =
    let r = msgbuf_pull m n in replies fresh r.2 ops >>= λ rest. ok (r.1 ∷ rest)
replies fresh m (clear ∷ ops) = replies fresh (msgbuf_clear m) ops

-- The same calls on an unbounded queue of bytes.
pub queue_replies : Bytes → List Op → List Bytes
queue_replies q [] = []
queue_replies q (push xs ∷ ops) = queue_replies (q ++ xs) ops
queue_replies q (pull n ∷ ops) = take n q ∷ queue_replies (drop n q) ops
queue_replies q (clear ∷ ops) = queue_replies [] ops

clear-IsValid : (m : MsgBuf) → IsValid m → IsValid (msgbuf_clear m)
unfolding msgbuf_clear
clear-IsValid m v = record { ordered = omega arith; bounded = omega arith; room = v.room }

clear-len : (m : MsgBuf) → m.len < 2 ^ 31 → (msgbuf_clear m).len < 2 ^ 31
unfolding msgbuf_clear
clear-len m h = h

clear-stop : (m : MsgBuf) → (msgbuf_clear m).stop ≡ 0
unfolding msgbuf_clear
clear-stop m = refl

contents-clear : (m : MsgBuf) → contents (msgbuf_clear m) ≡ []
unfolding msgbuf_clear slice
contents-clear m = refl

-- The number of bytes that a client pushes.
abbrev pub pushed : List Op → ℕ
pushed [] = 0
pushed (push xs ∷ ops) = length xs + pushed ops
pushed (pull n ∷ ops) = pushed ops
pushed (clear ∷ ops) = pushed ops

-- A push that ends below 2^30 bytes leaves a length below 2^31, and the pulls do not move the end up.
grow_until-len :
    (k : ℕ) (fresh : ℕ → ℕ) (m : MsgBuf) (count : ℕ)
    → m.len < 2 ^ 31
    → m.stop + count ≤ 2 ^ 30
    → IfOk (λ m'. (m'.len < 2 ^ 31) × (m'.stop ≡ m.stop)) (grow_until k fresh m count)
unfolding grow_until msgbuf_grow
grow_until-len zero fresh m count h few = tt
grow_until-len (suc k) fresh m count h few = elim (Bool-cases (ltb m.len (m.stop + count))) [
  | inl short ↦
      let room : m.len * 2 < 2 ^ 31 = ground arith in
      rw short (grow_until-len k fresh (msgbuf_grow fresh m) count room few)
  | inr fits ↦ rw fits (h, refl)
]

msgbuf_push-len :
    (fresh : ℕ → ℕ) (m : MsgBuf) (xs : Bytes)
    → m.len < 2 ^ 31
    → m.stop + length xs ≤ 2 ^ 30
    → IfOk (λ m'. (m'.len < 2 ^ 31) × (m'.stop ≡ m.stop + length xs)) (msgbuf_push fresh m xs)
unfolding msgbuf_push append_at_stop
msgbuf_push-len fresh m xs h few =
    IfOk-then (λ m'. (m'.len < 2 ^ 31) × (m'.stop ≡ m.stop))
      (λ m'. (m'.len < 2 ^ 31) × (m'.stop ≡ m.stop + length xs))
      (grow_until (m.stop + length xs + 1) fresh m (length xs)) _
      (grow_until-len (m.stop + length xs + 1) fresh m (length xs) h few)
      λ m' g.
        IfOk-if _ (leb (m'.stop + length xs) m'.len) _ fault (g.0, ap (λ n. n + length xs) g.1) tt

settle-stop : (m : MsgBuf) → ((settle m).len ≡ m.len) × ((settle m).stop ≤ m.stop)
unfolding settle
settle-stop m = elim (Bool-cases (leb m.stop m.start)) [
  | inl drained ↦ rw drained (refl, omega arith)
  | inr held ↦ rw held (refl, omega arith)
]

pull_bytes-stop :
    (m : MsgBuf) (n : ℕ) → ((pull_bytes m n).2.len ≡ m.len) × ((pull_bytes m n).2.stop ≤ m.stop)
unfolding pull_bytes
pull_bytes-stop m n = elim (Bool-cases (leb n 0)) [
  | inl nothing ↦ rw nothing (refl, omega arith)
  | inr something ↦ rw something (settle-stop (record m { start = m.start + n }))
]

msgbuf_pull-stop :
    (m : MsgBuf) (n : ℕ) → ((msgbuf_pull m n).2.len ≡ m.len) × ((msgbuf_pull m n).2.stop ≤ m.stop)
unfolding msgbuf_pull
msgbuf_pull-stop m n = pull_bytes-stop m _

-- A valid buffer, and pushes, pulls and clears in any order, where the buffer is shorter than 2^31
-- bytes and its end and all pushes come to 2^30 bytes at most. The lengths of the buffer stay
-- below 2^31, every call returns, and every pull hands out what the unbounded queue of the bytes
-- of the buffer hands out.
pub replies_refine :
    (fresh : ℕ → ℕ) (ops : List Op) (m : MsgBuf)
    → IsValid m
    → m.len < 2 ^ 31
    → m.stop + pushed ops ≤ 2 ^ 30
    → replies fresh m ops ≡ ok (queue_replies (contents m) ops)
unfolding replies queue_replies
replies_refine fresh [] m v h few = refl
replies_refine fresh (push xs ∷ ops) m v h few =
    let (m', run, holds) = Returns-value (msgbuf_push-Holds fresh m xs v) in
    let size = rw run at (msgbuf_push-len fresh m xs h (omega arith)) in
    let small : ltb m'.len (2 ^ 31) ≡ true = ground (arith, size.0) in
    rw (run, small)
      (replies_refine fresh ops m' holds.0 size.0 (omega (arith, size.1))
        ∙ ap (λ b. ok (queue_replies b ops)) holds.1)
replies_refine fresh (pull n ∷ ops) m v h few =
    let p = msgbuf_pull-Holds m n v in
    let size = msgbuf_pull-stop m n in
    rw (
      replies_refine fresh ops (msgbuf_pull m n).2 p.0.0 (omega (arith, size.0))
          (omega (arith, size.1)),
      p.0.1,
      p.1,
    )
replies_refine fresh (clear ∷ ops) m v h few = rw (
  replies_refine fresh ops (msgbuf_clear m) (clear-IsValid m v) (clear-len m h)
      (omega (arith, clear-stop m)),
  contents-clear m,
)
