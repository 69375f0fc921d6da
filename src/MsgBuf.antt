-- ===== src/MsgBuf.antt =====
-- msgbuf.c: a growing buffer of bytes, written at its end and read at its start. A function that
-- changes `*mbuf` returns the new buffer. A count is a number or, where the C function may return
-- a negative one, an integer. The functions here have lengths without a bound; where a buffer
-- would grow past the `int` that holds its length is said in MsgBuf/Fifo. `fresh` is what the
-- memory that `malloc` or `realloc` adds holds; neither fails. A socket is what its calls return:
-- `read` of the bytes that were asked for, `write` of the bytes that were offered.
pub mod Inv
pub mod Fifo
pub mod Socket
mod Tests
use oflops_turbo.Base.{
  ℕ, zero, suc, ◌+◌, ◌-◌, ◌*◌, ◌≤◌, Bool, true, false, List, [], ◌∷◌, ◌++◌, Option, none, some, ltb,
  leb, ◌==◌, if◌then◌else◌, length, take, ◌&&◌, not, Run, ok, aborted, fault, out_of_fuel, ◌>>=◌,
  assert,
}
use oflops_turbo.Base.Int.{ℤ, pos, negsuc, pos_part, ltb_ℤ, ◌+ℤ◌}
use oflops_turbo.Base.Memory.{copy_in, slice}

abbrev pub Bytes : Type 0
Bytes = List ℕ

-- `struct msgbuf`; `end` is `stop` here.
pub record MsgBuf : Type 0 where
  pub buf : ℕ → ℕ
  pub len : ℕ
  pub start : ℕ
  pub stop : ℕ

-- `msgbuf_new`, which asserts that the size is not 0.
pub msgbuf_new : (ℕ → ℕ) → ℕ → Run MsgBuf
msgbuf_new fresh bufsize =
    assert (ltb 0 bufsize) (ok (record { buf = fresh; len = bufsize; start = 0; stop = 0 }))

pub msgbuf_clear : MsgBuf → MsgBuf
msgbuf_clear m = record m { start = 0; stop = 0 }

-- `msgbuf_grow`: twice the length, with the old bytes in the first half.
pub msgbuf_grow : (ℕ → ℕ) → MsgBuf → MsgBuf
msgbuf_grow fresh m = record m {
  buf = λ i. if ltb i m.len then m.buf i else fresh i;
  len = m.len * 2;
}

-- `msgbuf_count_buffered`
abbrev pub msgbuf_count_buffered : MsgBuf → ℕ
msgbuf_count_buffered m = m.stop - m.start

-- `msgbuf_peek`: the index in `buf` that the result points to.
pub msgbuf_peek : MsgBuf → Option ℕ
msgbuf_peek m = if leb m.stop m.start then none else some m.start

-- The reset that ends `msgbuf_write` and `msgbuf_pull`.
pub settle : MsgBuf → MsgBuf
settle m = if leb m.stop m.start then record m { start = 0; stop = 0 } else m

-- `msgbuf_pull` once `min` is known.
pull_bytes : MsgBuf → ℕ → ℤ × Bytes × MsgBuf
pull_bytes m n =
    if leb n 0
    then (negsuc 0, [], m)
    else (pos n, slice m.buf m.start n, settle (record m { start = m.start + n }))

-- `msgbuf_pull`: the result, the bytes that go to `buf` (if that is not NULL), the new buffer.
pub msgbuf_pull : MsgBuf → ℕ → ℤ × Bytes × MsgBuf
unfolding pull_bytes
msgbuf_pull m count =
    pull_bytes m (if ltb count (m.stop - m.start) then count else m.stop - m.start)

-- A copy of bytes to `&buf[stop]`, which must fit.
pub append_at_stop : MsgBuf → Bytes → Run MsgBuf
append_at_stop m xs =
    if leb (m.stop + length xs) m.len
    then ok (record m { buf = copy_in m.buf m.stop xs; stop = m.stop + length xs })
    else fault

-- The loop of `msgbuf_push`.
pub grow_until : ℕ → (ℕ → ℕ) → MsgBuf → ℕ → Run MsgBuf
grow_until zero fresh m count = out_of_fuel
grow_until (suc k) fresh m count =
    let more = grow_until k fresh (msgbuf_grow fresh m) count in
    if ltb m.len (m.stop + count) then more else ok m

pub msgbuf_push : (ℕ → ℕ) → MsgBuf → Bytes → Run MsgBuf
msgbuf_push fresh m xs =
    grow_until (m.stop + length xs + 1) fresh m (length xs) >>= λ m'. append_at_stop m' xs

-- What `read` returns: bytes, 0 at the end of the stream, or -1 with an `errno` that is one of
-- EWOULDBLOCK, EAGAIN and EINTR (`true`) or another.
pub data Received : Type 0 where
  bytes : Bytes → Received
  closed : Received
  failed : Bool → Received

-- The growth that ends `msgbuf_read`.
pub grow_if_full : (ℕ → ℕ) → MsgBuf → MsgBuf
grow_if_full fresh m = if leb m.len m.stop then msgbuf_grow fresh m else m

-- `msgbuf_read`, where `read n` is what `read` returns if it is asked for `n` bytes.
pub msgbuf_read : (ℕ → ℕ) → MsgBuf → (ℕ → Received) → Run (ℤ × MsgBuf)
msgbuf_read fresh m read = elim (read (m.len - m.stop)) [
  | bytes xs ↦ append_at_stop m xs >>= λ m'. ok (pos (length xs), grow_if_full fresh m')
  | closed ↦ ok (pos 0, grow_if_full fresh m)
  | failed again ↦ ok (negsuc 0, grow_if_full fresh m)
]

-- What `write` returns: a count, or -1 with an `errno` as for `read`.
pub data Sent : Type 0 where
  sent : ℕ → Sent
  refused : Bool → Sent

-- What a call leaves behind: its result, whether `errno` is one of EWOULDBLOCK, EAGAIN and EINTR,
-- the bytes that the socket took, and the buffer.
pub record Wrote : Type 0 where
  pub result : ℤ
  pub again : Bool
  pub wire : Bytes
  pub mbuf : MsgBuf

-- The call of `write` in `msgbuf_write`, with the first `n` bytes of the buffer, and what follows.
offer : MsgBuf → (Bytes → Sent) → ℕ → Bool → Wrote
offer m write n again = elim (write (slice m.buf m.start n)) [
  | sent k ↦ record {
    result = pos k;
    again = again;
    wire = take k (slice m.buf m.start n);
    mbuf = settle (record m { start = m.start + k });
  }
  | refused again' ↦ record { result = negsuc 0; again = again'; wire = []; mbuf = settle m }
]

-- `msgbuf_write`, where `write xs` is what `write` returns for the bytes `xs`, and `again` tells of
-- the `errno` before the call.
pub msgbuf_write : MsgBuf → (Bytes → Sent) → ℕ → Bool → Wrote
unfolding offer
msgbuf_write m write len again =
    let buffered = m.stop - m.start in
    if (if ltb 0 len then ltb buffered len else false)
    then record { result = negsuc 0; again = again; wire = []; mbuf = m }
    else offer m write (if ltb 0 len then len else buffered) again

is_negative : ℤ → Bool
is_negative (pos n) = false
is_negative (negsuc n) = true

-- `msgbuf_write_all`, over what the calls of `write` return, one after the other; `out_of_fuel` if
-- the loop outlives them. `count` starts at 0, and is only added to where it is positive.
pub msgbuf_write_all : MsgBuf → List (Bytes → Sent) → ℕ → Bool → ℤ → Run Wrote
unfolding is_negative
msgbuf_write_all m [] len again count =
    if ltb m.start m.stop
    then out_of_fuel
    else ok (record { result = count; again = again; wire = []; mbuf = m })
msgbuf_write_all m (write ∷ writes) len again count =
    let w = msgbuf_write m write len again in
    let count' = if ltb_ℤ (pos 0) count then count +ℤ w.result else count in
    let more : Run Wrote = msgbuf_write_all w.mbuf writes len w.again count' >>= λ r.
    ok (record r { wire = w.wire ++ r.wire }) in
    if ltb m.start m.stop
    then (if is_negative w.result && not w.again then ok w else more)
    else ok (record { result = count; again = again; wire = []; mbuf = m })

-- Whether `msgbuf_read_all` gives up: at the end of the stream, and at an `errno` of another kind.
gives_up : Received → Bool
gives_up (bytes xs) = length xs == 0
gives_up closed = true
gives_up (failed again) = not again

-- `msgbuf_read_all`, over what the calls of `read` return, as above.
pub msgbuf_read_all : (ℕ → ℕ) → MsgBuf → List (ℕ → Received) → ℕ → ℕ → Run (ℤ × MsgBuf)
unfolding gives_up
msgbuf_read_all fresh m [] len count = if ltb count len then out_of_fuel else ok (pos count, m)
msgbuf_read_all fresh m (read ∷ reads) len count =
    let look : Run (ℤ × MsgBuf) = do
      (tmp, m') ← msgbuf_read fresh m read
      let more = msgbuf_read_all fresh m' reads len (count + pos_part tmp)
      if gives_up (read (m.len - m.stop)) then ok (tmp, m') else more
    in if ltb count len then look else ok (pos count, m)
