-- ===== src/MsgBuf/Tests.antt =====
-- The statements about msgbuf.c at a concrete buffer and socket.
use oflops_turbo.Base.{
  ℕ, zero, suc, ◌+◌, ◌≤◌, ◌≡◌, refl, false, [], ◌∷◌, arith, ltb, if◌then◌else◌, length, ok, Returns,
}
use oflops_turbo.Base.Int.{pos}
use oflops_turbo.MsgBuf.{Bytes, MsgBuf, Received, bytes, Sent, sent, msgbuf_write_all}
use oflops_turbo.MsgBuf.Inv.{IsValid, contents}
use oflops_turbo.MsgBuf.Fifo.{push, pull, clear, replies, queue_replies, replies_refine}
use oflops_turbo.MsgBuf.Socket.{IsRead, IsWrite, Progresses, AllSent, msgbuf_write_all_sends}

-- The memory that is added is zero.
abbrev zeroed : ℕ → ℕ
zeroed i = 0

-- Two bytes, 11 and 12, in the slots 1 and 2 of four.
abbrev held : MsgBuf
held = record { buf = λ i. 10 + i; len = 4; start = 1; stop = 3 }

held-IsValid : IsValid held
held-IsValid = record { ordered = omega arith; bounded = omega arith; room = omega arith }

replies_refine_example :
    replies zeroed held (push (7 ∷ 8 ∷ []) ∷ pull 3 ∷ clear ∷ pull 2 ∷ [])
    ≡ ok (queue_replies (contents held) (push (7 ∷ 8 ∷ []) ∷ pull 3 ∷ clear ∷ pull 2 ∷ []))
replies_refine_example =
    replies_refine zeroed (push (7 ∷ 8 ∷ []) ∷ pull 3 ∷ clear ∷ pull 2 ∷ []) held held-IsValid
      (omega arith) (omega arith)

-- A socket with the byte 5 to read.
abbrev one_byte : ℕ → Received
one_byte n = if ltb 0 n then bytes (5 ∷ []) else bytes []

one_byte-IsRead : IsRead one_byte
one_byte-IsRead zero xs e = ap_length xs e
  where
    ap_length : (xs : Bytes) → bytes [] ≡ bytes xs → length xs ≤ 0
    ap_length [] e = omega arith
    ap_length (x ∷ xs) e = ground arith
one_byte-IsRead (suc n) xs e = ground arith

-- A socket that takes one byte at a time.
abbrev slow : Bytes → Sent
slow [] = sent 0
slow (x ∷ xs) = sent 1

slow-IsWrite : IsWrite slow
slow-IsWrite [] n e = ground arith
slow-IsWrite (x ∷ xs) n e = ground arith

slow-Progresses : Progresses slow
slow-Progresses = record { law = slow-IsWrite; takes = takes }
  where
    takes : (xs : Bytes) → 1 ≤ length xs → (k : ℕ) × (slow xs ≡ sent k) × (1 ≤ k)
    takes [] h = absurd (omega arith)
    takes (x ∷ xs) h = (1, refl, omega arith)

msgbuf_write_all_sends_example :
    Returns (AllSent held) (msgbuf_write_all held (slow ∷ slow ∷ slow ∷ []) 0 false (pos 0))
msgbuf_write_all_sends_example =
    msgbuf_write_all_sends held (slow ∷ slow ∷ slow ∷ []) false held-IsValid
      (slow-Progresses, (slow-Progresses, (slow-Progresses, tt))) (omega arith)
