-- ===== src/FakeSwitch.antt =====
-- cbench/fakeswitch.c: an emulated OpenFlow switch that sends probes to a controller and counts the
-- answers. The buffers are those of MsgBuf. `exit(1)` is the end `aborted`. A function that changes
-- `*fs` returns the new switch. The debug messages, the socket number and the assertions that a
-- local buffer of BUFLEN bytes is large enough are left out: the replies are lists of bytes.
-- `fresh` is what new memory holds; `now` is what `gettimeofday` returns. A count of answers that
-- passes 2^31 is not modelled.
pub mod Reply
pub mod Fields
pub mod React
pub mod Frames
pub mod Probes
pub mod Single
pub mod Rate
mod Tests
use oflops_turbo.Base.{
  ℕ, zero, suc, ◌+◌, ◌-◌, ◌*◌, ◌/◌, ◌%◌, Bool, true, false, ◌&&◌, ◌||◌, List, [], ◌∷◌, ◌++◌, Option,
  none, some, ltb, leb, ◌==◌, if◌then◌else◌, length, Run, ok, aborted, fault, out_of_fuel, ◌>>=◌,
}
use oflops_turbo.Base.Int.{ℤ, pos, negsuc, ◌+ℤ◌, ltb_ℤ, eqb_ℤ}
use oflops_turbo.Base.Memory.{slice}
use oflops_turbo.Time.{TimeVal, timer_lt}
use oflops_turbo.MsgBuf.{
  Bytes, MsgBuf, msgbuf_new, msgbuf_push, msgbuf_pull, msgbuf_peek, msgbuf_count_buffered,
  msgbuf_read, msgbuf_write, Received, Sent,
}
use Reply.{Protocol, hello_message, features_reply, vendor_reply, echo_reply, packet_in}

-- `enum test_mode`
pub data TestMode : Type 0 where
  latency throughput : TestMode

-- `struct fakeswitch`
pub record FakeSwitch : Type 0 where
  pub id : ℕ
  pub inbuf : MsgBuf
  pub outbuf : MsgBuf
  pub mode : TestMode
  pub probe_state : ℤ
  pub count : ℕ
  pub ready_to_send : ℕ
  pub probe_size : ℕ
  pub delay : ℕ
  pub delay_start : TimeVal
  pub total_mac_addresses : ℕ
  pub current_mac_address : ℕ

-- The byte at an index of a buffer, and the big-endian number in two bytes.
pub buffer_byte : MsgBuf → ℕ → Run ℕ
buffer_byte m i = if ltb i m.len then ok (m.buf i) else fault

pub buffer_short : MsgBuf → ℕ → Run ℕ
buffer_short m i = do high ← buffer_byte m i; low ← buffer_byte m (i + 1); ok (high * 256 + low)

-- An answer to a probe.
pub answered : FakeSwitch → FakeSwitch
answered fs = record fs { count = fs.count + 1; probe_state = fs.probe_state +ℤ negsuc 0 }

-- The reset of `probe_state` that ends each round of `fakeswitch_handle_read`.
pub clamp : FakeSwitch → FakeSwitch
clamp fs = if ltb_ℤ fs.probe_state (pos 0) then record fs { probe_state = pos 0 } else fs

module _ (of : Protocol) (fresh : ℕ → ℕ) (now : TimeVal) where
  -- `fakeswitch_init`, for the switch number `ID`; `delay_start` is what the memory holds.
  pub fakeswitch_init : ℕ → TimeVal → ℕ → ℕ → TestMode → ℕ → Run FakeSwitch
  fakeswitch_init id delay_start bufsize delay mode total = do
    inbuf ← msgbuf_new fresh bufsize
    outbuf ← msgbuf_new fresh bufsize
    greeted ← msgbuf_push fresh outbuf (hello_message of)
    ok (record {
      id = id;
      inbuf = inbuf;
      outbuf = greeted;
      mode = mode;
      probe_state = pos 0;
      count = 0;
      ready_to_send = 0;
      probe_size = length (packet_in of id 0 0);
      delay = delay;
      delay_start = delay_start;
      total_mac_addresses = total;
      current_mac_address = 0;
    })

  -- The case OFPT_FEATURES_REQUEST.
  pub start_test : FakeSwitch → FakeSwitch
  start_test fs = if fs.delay == 0 then record fs { ready_to_send = 1 } else record fs {
    ready_to_send = 2;
    delay_start = record {
      tv_sec = now.tv_sec +ℤ pos (fs.delay / 1000);
      tv_usec = now.tv_usec +ℤ pos (fs.delay % 1000 * 1000);
    };
  }

  pub push_out : FakeSwitch → Bytes → Run FakeSwitch
  push_out fs xs = msgbuf_push fresh fs.outbuf xs >>= λ out. ok (record fs { outbuf = out })

  -- The switch statement of `fakeswitch_handle_read`, on the type and the xid of the message;
  -- `command` reads that field of a flow_mod.
  pub react : FakeSwitch → ℕ → Bytes → Run ℕ → Run FakeSwitch
  unfolding push_out
  react fs type xid command =
      if type == of.packet_out
      then ok (answered fs)
      else if type == of.flow_mod
      then (do
        c ← command
        ok (if (c == of.add) || (c == of.modify_strict) then answered fs else fs))
      else if type == of.features_request
      then (do fs' ← push_out fs (features_reply of fs.id xid); ok (start_test fs'))
      else if type == of.vendor
      then (do fs' ← push_out fs (vendor_reply of xid); ok (record fs' { probe_state = pos 0 }))
      else if type == of.echo_request
      then push_out fs (echo_reply of xid)
      else ok fs

  -- The loop of `fakeswitch_handle_read`. The message is read after it was pulled, from where it
  -- still stands in the memory of the buffer.
  pub read_loop : ℕ → FakeSwitch → Run FakeSwitch
  read_loop zero fs = out_of_fuel
  read_loop (suc k) fs =
      let round : Run FakeSwitch = do
        let m = fs.inbuf
        size ← buffer_short m (m.start + 2)
        let pulled = record fs { inbuf = (msgbuf_pull m size).2 }
        let next : Run FakeSwitch = do
          type ← buffer_byte m (m.start + 1)
          fs' ←
              react pulled type (slice m.buf (m.start + 4) 4)
                (buffer_short m (m.start + of.command_offset))
          read_loop k (clamp fs')
        if ltb (msgbuf_count_buffered m) size then ok fs else next
      in if leb 8 (msgbuf_count_buffered fs.inbuf) then round else ok fs

  -- `fakeswitch_handle_read`: `read` is what the socket answers.
  pub fakeswitch_handle_read : (ℕ → Received) → FakeSwitch → Run FakeSwitch
  fakeswitch_handle_read read fs = do
    (count, inbuf) ← msgbuf_read fresh fs.inbuf read
    if ltb_ℤ (pos 0) count
        then read_loop (msgbuf_count_buffered inbuf + 1) (record fs { inbuf = inbuf })
        else aborted

  -- The loop of `fakeswitch_handle_write` that queues `n` probes; a remainder by 0 is a fault.
  pub queue_probes : ℕ → FakeSwitch → Run FakeSwitch
  queue_probes zero fs = ok fs
  queue_probes (suc n) fs = if fs.total_mac_addresses == 0 then fault else (do
    out ← msgbuf_push fresh fs.outbuf (packet_in of fs.id 0 fs.current_mac_address)
    queue_probes n (record fs {
      outbuf = out;
      probe_state = fs.probe_state +ℤ pos 1;
      current_mac_address = (fs.current_mac_address + 1) % fs.total_mac_addresses;
    }))

  -- `send_count`
  pub probes_to_send : FakeSwitch → ℕ
  probes_to_send fs = elim fs.mode [
    | latency ↦ if eqb_ℤ fs.probe_state (pos 0) then 1 else 0
    | throughput ↦
        if ltb (msgbuf_count_buffered fs.outbuf) 65536
        then (65536 - msgbuf_count_buffered fs.outbuf) / fs.probe_size
        else 0
  ]

  -- What `fakeswitch_handle_write` does before it writes.
  pub prepare : FakeSwitch → Run FakeSwitch
  prepare fs =
      if fs.ready_to_send == 1
      then queue_probes (probes_to_send fs) fs
      else if fs.ready_to_send == 2
      then ok (if timer_lt fs.delay_start now then record fs { ready_to_send = 1 } else fs)
      else ok fs

  -- `fakeswitch_handle_write`, with the bytes that the socket took.
  pub fakeswitch_handle_write : (Bytes → Sent) → Bool → FakeSwitch → Run (Bytes × FakeSwitch)
  fakeswitch_handle_write write again fs = do
    fs' ← prepare fs
    let w = msgbuf_write fs'.outbuf write 0 again
    ok (
        if ltb 0 (msgbuf_count_buffered fs'.outbuf)
        then (w.wire, record fs' { outbuf = w.mbuf })
        else ([], fs'))

  -- `fakeswitch_handle_io`, by the flags POLLIN and POLLOUT of `revents`.
  pub fakeswitch_handle_io :
      Bool → Bool → (ℕ → Received) → (Bytes → Sent) → Bool → FakeSwitch → Run (Bytes × FakeSwitch)
  fakeswitch_handle_io pollin pollout read write again fs = do
    fs' ← if pollin then fakeswitch_handle_read read fs else ok fs
    if pollout then fakeswitch_handle_write write again fs' else ok ([], fs')

module _ (fresh : ℕ → ℕ) where
  -- The inner loop of `fakeswitch_get_count`.
  pub discard : ℕ → MsgBuf → ℕ → Run MsgBuf
  discard zero m count = out_of_fuel
  discard (suc k) m count =
      let drop_one : Run MsgBuf = do
        at ← elim (msgbuf_peek m) [ some i ↦ ok i | none ↦ fault ]
        msglen ← buffer_short m (at + 2)
        let rest = discard k (msgbuf_pull m msglen).2 (count - msglen)
        if ltb count msglen then ok m else rest
      in if ltb 0 count then drop_one else ok m

  -- The outer loop, over what the calls of `read` return.
  pub drain : List (ℕ → Received) → MsgBuf → Run MsgBuf
  drain [] m = out_of_fuel
  drain (read ∷ reads) m = do
    (count, m') ← msgbuf_read fresh m read
    elim count [
      | pos n ↦
          let more = discard (n + 1) m' n >>= λ m''. drain reads m'' in
          if ltb 0 n then more else ok m'
      | negsuc _ ↦ ok m'
    ]

  pub fakeswitch_get_count : List (ℕ → Received) → FakeSwitch → Run (ℕ × FakeSwitch)
  fakeswitch_get_count reads fs = do
    inbuf ← drain reads fs.inbuf
    ok (fs.count, record fs { count = 0; probe_state = pos 0; inbuf = inbuf })
