-- ===== src/ModuleRun.antt =====
-- module_run.c: the thread that captures packets and hands them to the test module.
-- The world answers with what `poll` returns in each round and with what the capture libraries return
-- for a channel. A call of the module's `handle_pcap_event` is recorded as the channel and the data
-- that it is given. `static pcap_event *pe` is a part of the state, with whether it points to memory
-- that was freed; an access to freed memory is a fault.
pub mod Channels
pub mod Handed
pub mod Delivery
pub mod Nf2
pub mod Tests
use oflops_turbo.Base.{
  ℕ, zero, suc, ◌+◌, Bool, true, false, ◌&&◌, ◌||◌, List, [], ◌∷◌, ◌++◌, Option, none, some, ltb,
  ◌==◌, if◌then◌else◌, length, Run, ok, aborted, fault, ◌>>=◌, assert,
}
use oflops_turbo.Base.Int.{ℤ, pos, ltb_ℤ, eqb_ℤ}
use oflops_turbo.Base.Memory.{update}
use oflops_turbo.MsgBuf.{Bytes, MsgBuf, Sent, Wrote, msgbuf_write}
use oflops_turbo.Setup.{Channel, pcap, nf2}

-- A channel, once its capture is set up: whether `pcap_handle` and `nf_cap` are there.
pub record Watched : Type 0 where
  pub info : Channel
  pub pcap_handle : Bool
  pub nf_cap : Bool
  pub packet_len : ℕ

-- Where the static `pe` points to.
pub data StaticEvent : Type 0 where
  null allocated freed : StaticEvent

-- What the thread writes.
pub record Capture : Type 0 where
  pub started : Bool
  pub dump_controller : Bool
  pub pe : StaticEvent
  pub outgoing : ℕ → MsgBuf
  pub handled : List (ℕ × Bytes)
  pub dumped : List Bytes

-- What `pcap_next_ex` or `nf_cap_next` finds.
pub data Found : Type 0 where
  nothing failed : Found
  packet : Bytes → Found

-- What `poll` reports of a descriptor, and what its channel then answers.
pub record Revents : Type 0 where
  pub pollin : Bool
  pub pollout : Bool
  pub write : Bytes → Sent
  pub found : Found

-- A packet for the test module.
pub handle_pcap_event : ℕ → Bytes → Capture → Capture
handle_pcap_event ch xs s =
    if s.started then record s { handled = s.handled ++ ((ch, xs) ∷ []) } else s

-- The write at the start of `process_pcap_event`. `err` is the result of the comparison, so 1 where
-- the write fails, and that is none of EAGAIN, EWOULDBLOCK and EINTR.
pub flush : ℕ → Watched → Revents → Capture → Run Capture
flush ch c r s =
    let w = msgbuf_write (s.outgoing ch) r.write c.packet_len false in
    if r.pollout
    then (if ltb_ℤ w.result (pos 0)
        then aborted
        else ok (record s { outgoing = update s.outgoing ch w.mbuf }))
    else ok s

-- The branch for PCAP.
pub pcap_packet : ℕ → Watched → Found → Capture → Run Capture
pcap_packet ch c nothing s = assert c.pcap_handle (ok s)
pcap_packet ch c failed s = assert c.pcap_handle (ok s)
pcap_packet ch c (packet xs) s =
    let dumps = (ch == 0) && (c.pcap_handle && s.dump_controller) in
    let s' = if dumps then record s { dumped = s.dumped ++ (xs ∷ []) } else s in
    assert c.pcap_handle (ok (handle_pcap_event ch xs s'))

-- The copy to `pe->data`, which has 2000 bytes, and what follows.
pub nf_copy : ℕ → Bytes → Capture → Run Capture
nf_copy ch xs s =
    if ltb 2000 (length xs) then fault else ok (record (handle_pcap_event ch xs s) { pe = freed })

-- `malloc_and_check` where `pe` is NULL.
pub allocate : StaticEvent → StaticEvent
allocate null = allocated
allocate allocated = allocated
allocate freed = freed

-- The branch for NF2.
pub nf_packet : ℕ → Found → Capture → Run Capture
nf_packet ch nothing s = ok (record s { pe = allocate s.pe })
nf_packet ch failed s = ok (record s { pe = allocate s.pe })
nf_packet ch (packet xs) s = elim (allocate s.pe) [
  | null ↦ fault
  | allocated ↦ nf_copy ch xs s
  | freed ↦ fault
]

pub process_pcap_event : ℕ → Watched → Revents → Capture → Run Capture
process_pcap_event ch c r s = flush ch c r s >>= λ s'.
    if r.pollin
    then (if eqb_ℤ c.info.cap_type pcap
        then pcap_packet ch c r.found s'
        else if eqb_ℤ c.info.cap_type nf2
        then nf_packet ch r.found s'
        else ok s')
    else ok s'

-- The loop of `process_event`, from channel `ch` on.
pub channel_of : ℤ → List Watched → ℕ → Option (ℕ × Watched)
channel_of fd [] ch = none
channel_of fd (c ∷ cs) ch =
    let later = channel_of fd cs (ch + 1) in if eqb_ℤ fd c.info.pcap_fd then some (ch, c) else later

pub process_event : List Watched → ℤ → Revents → Capture → Run Capture
process_event cs fd r s = elim (channel_of fd cs 0) [
  | none ↦ aborted
  | some (ch, c) ↦ process_pcap_event ch c r s
]

-- The descriptors that a round of `test_module_loop` polls, each for POLLIN.
pub poll_set : List Watched → List ℤ
poll_set [] = []
poll_set (c ∷ cs) =
    let later = poll_set cs in if c.pcap_handle || c.nf_cap then c.info.pcap_fd ∷ later else later

-- What `poll` returns: -1 (with whether `errno` is EINTR), 0, or the events of each descriptor.
pub data PollResult : Type 0 where
  poll_failed : Bool → PollResult
  timeout : PollResult
  ready : List Revents → PollResult

-- The loop over the descriptors that were polled.
pub process_ready : List Watched → List ℤ → List Revents → Capture → Run Capture
process_ready cs [] rs s = ok s
process_ready cs (fd ∷ fds) [] s = fault
process_ready cs (fd ∷ fds) (r ∷ rs) s = do
  s' ← if r.pollin || r.pollout then process_event cs fd r s else ok s
  process_ready cs fds rs s'

-- A round. After a poll that was interrupted no descriptor has an event.
pub poll_round : List Watched → PollResult → Capture → Run Capture
poll_round cs (poll_failed interrupted) s = if interrupted then ok s else aborted
poll_round cs timeout s = ok s
poll_round cs (ready rs) s = process_ready cs (poll_set cs) rs s

-- `test_module_loop`, over the rounds until `end_module` is set.
unfoldable pub test_module_loop : List Watched → List PollResult → Capture → Run Capture
test_module_loop cs [] s = ok s
test_module_loop cs (p ∷ ps) s = poll_round cs p s >>= λ s'. test_module_loop cs ps s'
