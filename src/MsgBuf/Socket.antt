-- ===== src/MsgBuf/Socket.antt =====
-- Reading from a socket into a buffer, and writing a buffer to a socket.
use mathlib.Core.List.{append-nil}
use oflops_turbo.Base.{
  ℕ, ◌+◌, ◌-◌, ◌≤◌, ◌<◌, ◌≡◌, refl, sym, ap, ◌∙◌, inl, inr, Bool, false, List, [], ◌∷◌, ◌++◌, arith,
  ltb, leb, ltb→lt, if◌then◌else◌, Bool-cases, length, take, take-append-drop, length-append,
  length-take, ok, ◌>>=◌, Returns, returns, Returns-bind,
}
use oflops_turbo.Base.Int.{ℤ, pos, negsuc}
use oflops_turbo.Base.Memory.{slice, length-slice, take-slice}
use oflops_turbo.MsgBuf.{
  Bytes, MsgBuf, Received, bytes, closed, failed, grow_if_full, msgbuf_read, Sent, sent, refused,
  Wrote, settle, offer, append_at_stop, msgbuf_write, msgbuf_write_all,
}
use oflops_turbo.MsgBuf.Inv.{
  IsValid, contents, Holds, length-contents, settle-Holds, grow-Holds, append_at_stop-Holds,
  advance-Holds,
}

-- read(2): it returns no more bytes than it is asked for.
abbrev pub IsRead : (ℕ → Received) → Type 0
IsRead read = (n : ℕ) (xs : Bytes) → read n ≡ bytes xs → length xs ≤ n

-- write(2): it takes no more bytes than it is offered.
abbrev pub IsWrite : (Bytes → Sent) → Type 0
IsWrite write = (xs : Bytes) (n : ℕ) → write xs ≡ sent n → n ≤ length xs

grow_if_full-Holds :
    (fresh : ℕ → ℕ) (m : MsgBuf) → IsValid m → Holds (contents m) (grow_if_full fresh m)
unfolding grow_if_full
grow_if_full-Holds fresh m v = elim (Bool-cases (leb m.len m.stop)) [
  | inl full ↦ rw full (grow-Holds fresh m v)
  | inr free ↦ rw free (v, refl)
]

-- The bytes and the result of a `read`.
abbrev pub arrived : Received → Bytes
arrived (bytes xs) = xs
arrived closed = []
arrived (failed again) = []

abbrev pub count_of : Received → ℤ
count_of (bytes xs) = pos (length xs)
count_of closed = pos 0
count_of (failed again) = negsuc 0

-- `msgbuf_read` stays inside the buffer, returns what `read` returns, and appends the bytes that
-- arrive to those that the buffer holds.
pub msgbuf_read_appends :
    (fresh : ℕ → ℕ) (m : MsgBuf) (read : ℕ → Received)
    → IsValid m
    → IsRead read
    → Returns {A = ℤ × MsgBuf}
        (λ r.
          (r.0 ≡ count_of (read (m.len - m.stop)))
          × Holds (contents m ++ arrived (read (m.len - m.stop))) r.1)
        (msgbuf_read fresh m read)
unfolding msgbuf_read
msgbuf_read_appends fresh m read v law = go (read (m.len - m.stop)) refl
  where
    same : Holds (contents m ++ []) (grow_if_full fresh m)
    same = rw append-nil (grow_if_full-Holds fresh m v)

    go :
        (r : Received)
        → read (m.len - m.stop) ≡ r
        → Returns {A = ℤ × MsgBuf}
            (λ p. (p.0 ≡ count_of r) × Holds (contents m ++ arrived r) p.1)
            (elim r [
              | bytes xs ↦ append_at_stop m xs >>= λ m'. ok (pos (length xs), grow_if_full fresh m')
              | closed ↦ ok (pos 0, grow_if_full fresh m)
              | failed again ↦ ok (negsuc 0, grow_if_full fresh m)
            ])
    go (bytes xs) e =
        Returns-bind
          (append_at_stop-Holds m xs v (omega (arith, law (m.len - m.stop) xs e, v.bounded)))
          λ m' a. let g = grow_if_full-Holds fresh m' a.0.0 in returns (refl, (g.0, g.1 ∙ a.0.1))
    go closed e = returns (refl, same)
    go (failed again) e = returns (refl, same)

-- The bytes that a call sends are the first that the buffer held, and the rest stay.
abbrev pub Splits : MsgBuf → Wrote → Type 0
Splits m w = IsValid w.mbuf × (w.wire ++ contents w.mbuf ≡ contents m)

offer-Splits :
    (m : MsgBuf) (write : Bytes → Sent) (n : ℕ) (again : Bool)
    → IsValid m
    → IsWrite write
    → n ≤ m.stop - m.start
    → Splits m (offer m write n again)
unfolding offer
offer-Splits m write n again v law h = go (write (slice m.buf m.start n)) refl
  where
    go :
        (s : Sent)
        → write (slice m.buf m.start n) ≡ s
        → Splits m (elim s [
          | sent k ↦ record {
            result = pos k;
            again = again;
            wire = take k (slice m.buf m.start n);
            mbuf = settle (record m { start = m.start + k });
          }
          | refused again' ↦ record {
            result = negsuc 0;
            again = again';
            wire = [];
            mbuf = settle m;
          }
        ])
    go (sent k) e =
        let taken : k ≤ n = omega (arith, law _ k e, length-slice m.buf m.start n) in
        let a = advance-Holds m k v (omega arith) in
        let same : take k (slice m.buf m.start n) ≡ take k (contents m) =
          take-slice m.buf m.start k n taken
          ∙ sym (take-slice m.buf m.start k (m.stop - m.start) (omega arith)) in
        (a.0, rw (same, a.1) (take-append-drop k (contents m)))
    go (refused again') e = settle-Holds m v

-- `msgbuf_write` sends a prefix of the bytes that the buffer holds, and keeps the rest.
pub msgbuf_write-Splits :
    (m : MsgBuf) (write : Bytes → Sent) (len : ℕ) (again : Bool)
    → IsValid m
    → IsWrite write
    → Splits m (msgbuf_write m write len again)
unfolding msgbuf_write
msgbuf_write-Splits m write len again v law =
    elim (Bool-cases (if ltb 0 len then ltb (m.stop - m.start) len else false)) [
      | inl short ↦ rw short (v, refl)
      | inr enough ↦ rw enough (offer-Splits m write _ again v law (ground arith))
    ]

-- A socket that takes at least one byte of any bytes that it is offered.
pub record Progresses (write : Bytes → Sent) : Type 0 where
  pub law : IsWrite write
  pub takes : (xs : Bytes) → 1 ≤ length xs → (k : ℕ) × (write xs ≡ sent k) × (1 ≤ k)

-- Every entry of a list has a property.
abbrev pub All {ℓ κ} : {A : Type ℓ} → (A → Type κ) → List A → Type κ
All P [] = Unit
All P (x ∷ xs) = P x × All P xs

-- What `msgbuf_write_all` leaves behind once it has sent everything.
pub record AllSent (m : MsgBuf) (w : Wrote) : Type 0 where
  pub result : w.result ≡ pos 0
  pub wire : w.wire ≡ contents m
  pub emptied : contents w.mbuf ≡ []
  pub valid : IsValid w.mbuf

contents-nil : (m : MsgBuf) → m.stop ≤ m.start → contents m ≡ []
unfolding slice
contents-nil m h = let gone : m.stop - m.start ≡ 0 = omega arith in rw gone

msgbuf_write_takes :
    (m : MsgBuf) (write : Bytes → Sent) (again : Bool)
    → Progresses write
    → m.start < m.stop
    → let w = msgbuf_write m write 0 again in (k : ℕ) × (w.result ≡ pos k) × (1 ≤ length w.wire)
unfolding msgbuf_write offer
msgbuf_write_takes m write again p more =
    let xs = slice m.buf m.start (m.stop - m.start) in
    let size = length-slice m.buf m.start (m.stop - m.start) in
    let (k, e, some_byte) = p.takes xs (omega arith) in
    let whole : msgbuf_write m write 0 again ≡ record {
      result = pos k;
      again = again;
      wire = take k xs;
      mbuf = settle (record m { start = m.start + k });
    } =
      rw (e, offer) in
    rw whole (k, refl, omega (arith, length-take k xs))

-- On a socket that takes at least one byte at each call, `msgbuf_write_all` with length 0 ends
-- after as many calls as the buffer holds bytes, at most; it sends all bytes in order, leaves the
-- buffer empty, and returns 0.
pub msgbuf_write_all_sends :
    (m : MsgBuf) (writes : List (Bytes → Sent)) (again : Bool)
    → IsValid m
    → All Progresses writes
    → m.stop - m.start ≤ length writes
    → Returns (AllSent m) (msgbuf_write_all m writes 0 again (pos 0))
unfolding msgbuf_write_all
msgbuf_write_all_sends m [] again v p enough =
    let drained = contents-nil m (omega arith) in
    let done : ltb m.start m.stop ≡ false = ground arith in
    rw done (returns (record { result = refl; wire = sym drained; emptied = drained; valid = v }))
msgbuf_write_all_sends m (write ∷ writes) again v p enough =
    elim (Bool-cases (ltb m.start m.stop)) [
      | inl more ↦
          let w = msgbuf_write m write 0 again in
          let s = msgbuf_write-Splits m write 0 again v p.0.law in
          let (k, e, some_byte) = msgbuf_write_takes m write again p.0 (ltb→lt _ _ more) in
          let sizes = ap length s.1 in
          let fewer : w.mbuf.stop - w.mbuf.start ≤ length writes = omega (
            arith,
            length-append w.wire (contents w.mbuf),
            length-contents w.mbuf,
            length-contents m,
          ) in
          rw (more, e)
            (Returns-bind (msgbuf_write_all_sends w.mbuf writes w.again s.0 p.1 fewer) λ r a.
              returns (record {
                result = a.result;
                wire = rw a.wire s.1;
                emptied = a.emptied;
                valid = a.valid;
              }))
      | inr done ↦
          let drained = contents-nil m (ground arith) in
          rw done
            (returns (record { result = refl; wire = sym drained; emptied = drained; valid = v }))
    ]
