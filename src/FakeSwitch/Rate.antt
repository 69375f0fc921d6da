-- ===== src/FakeSwitch/Rate.antt =====
-- When a switch starts to send probes, and how many it queues in throughput mode.
use oflops_turbo.Base.{
  ℕ, zero, suc, ◌+◌, ◌-◌, ◌*◌, ◌/◌, ◌%◌, ◌≤◌, ◌<◌, ◌≡◌, refl, ap, ◌∙◌, true, false, [], ◌∷◌, arith,
  ltb, ◌==◌, if◌then◌else◌, length, length-append, length-take, length-drop, ok, Returns, returns,
  Returns-bind, Returns-map,
}
use oflops_turbo.Base.Int.{ℤ, pos, ◌+ℤ◌, ltb_ℤ, eqb_ℤ, int_laws, +ℤ_parts}
use oflops_turbo.Time.{TimeVal, timer_lt}
use oflops_turbo.MsgBuf.{Bytes}
use oflops_turbo.MsgBuf.Inv.{IsValid, contents, length-contents, msgbuf_push-Holds}
use oflops_turbo.FakeSwitch.{
  FakeSwitch, latency, throughput, start_test, queue_probes, probes_to_send, prepare,
}
use oflops_turbo.FakeSwitch.Reply.{Protocol, fake_packet, big_endian, overwrite, packet_in}

-- What is overwritten in place keeps its length.
pub length-overwrite :
    (xs : Bytes) (at : ℕ) (ys : Bytes)
    → at + length ys ≤ length xs
    → length (overwrite xs at ys) ≡ length xs
length-overwrite xs at ys h =
    rw (length-append, length-append, length-take, length-drop) (omega arith)

length-big_endian : (k n : ℕ) → length (big_endian k n) ≡ k
unfolding big_endian
length-big_endian zero n = refl
length-big_endian (suc k) n = ap suc (length-big_endian k n)

module _ (of : Protocol) (four : (n : ℕ) → length (of.int_bytes n) ≡ 4) where
  -- A probe is 82 bytes long.
  pub length-packet_in : (id buffer_id mac : ℕ) → length (packet_in of id buffer_id mac) ≡ 82
  unfolding packet_in
  length-packet_in id buffer_id mac =
      let a = overwrite fake_packet 0 (of.version ∷ []) in
      let ha : length a ≡ 82 = refl in
      let b = overwrite a 8 (big_endian 4 buffer_id) in
      let hb : length b ≡ 82 =
        length-overwrite a 8 (big_endian 4 buffer_id)
          (omega (arith, ha, length-big_endian 4 buffer_id))
        ∙ ha in
      let c = overwrite b 25 (of.int_bytes mac) in
      let hc : length c ≡ 82 =
        length-overwrite b 25 (of.int_bytes mac) (omega (arith, hb, four mac)) ∙ hb in
      let d = overwrite c 23 (id % 256 ∷ []) in
      let hd : length d ≡ 82 = length-overwrite c 23 (id % 256 ∷ []) (omega (arith, hc)) ∙ hc in
      length-overwrite d 29 (id % 256 ∷ []) (omega (arith, hd)) ∙ hd

  module _ (fresh : ℕ → ℕ) (now : TimeVal) where
    -- What `n` rounds of the loop that queues probes do.
    pub record Queued (fs : FakeSwitch) (n : ℕ) (g : FakeSwitch) : Type 0 where
      pub valid : IsValid g.outbuf
      pub waiting : g.probe_state ≡ fs.probe_state +ℤ pos n
      pub size : length (contents g.outbuf) ≡ length (contents fs.outbuf) + n * 82

    queue_probes-Queued :
        (n : ℕ) (fs : FakeSwitch)
        → IsValid fs.outbuf
        → 0 < fs.total_mac_addresses
        → Returns (Queued fs n) (queue_probes of fresh now n fs)
    unfolding queue_probes
    queue_probes-Queued zero fs v some_mac =
        returns (record { valid = v; waiting = omega int_laws; size = omega arith })
    queue_probes-Queued (suc n) fs v some_mac =
        let test : (fs.total_mac_addresses == 0) ≡ false = ground arith in
        let probe = packet_in of fs.id 0 fs.current_mac_address in
        rw test (
          Returns-bind (msgbuf_push-Holds fresh fs.outbuf probe v) λ out h.
            Returns-map (queue_probes-Queued n _ h.0 some_mac) λ g q. record {
              valid = q.valid;
              waiting = q.waiting ∙ omega int_laws;
              size = omega (
                arith,
                q.size,
                ap length h.1,
                length-append (contents fs.outbuf) probe,
                length-packet_in fs.id 0 fs.current_mac_address,
              );
            })

    -- In throughput mode, a switch that is ready fills its output buffer: afterwards that holds no
    -- more than 65536 bytes, and less than one probe short of them, and as many probes more wait
    -- for an answer as were queued.
    pub prepare_fills :
        (fs : FakeSwitch)
        → IsValid fs.outbuf
        → 0 < fs.total_mac_addresses
        → fs.ready_to_send ≡ 1
        → fs.mode ≡ throughput
        → fs.probe_size ≡ 82
        → fs.outbuf.stop - fs.outbuf.start < 65536
        → Returns
            (λ g.
              (length (contents g.outbuf) ≤ 65536)
              × (65536 < length (contents g.outbuf) + 82)
              × Queued fs (probes_to_send of fresh now fs) g)
            (prepare of fresh now fs)
    unfolding prepare probes_to_send
    prepare_fills fs v some_mac ready mode size below =
        let go : (fs.ready_to_send == 1) ≡ true = ap (λ n. n == 1) ready in
        let n : probes_to_send of fresh now fs ≡ (65536 - (fs.outbuf.stop - fs.outbuf.start)) / 82 =
          count in
        rw go (
          Returns-map (queue_probes-Queued (probes_to_send of fresh now fs) fs v some_mac) λ g q. (
            omega (arith, q.size, n, length-contents fs.outbuf),
            omega (arith, q.size, n, length-contents fs.outbuf),
            q,
          ))
      where
        count : probes_to_send of fresh now fs ≡ (65536 - (fs.outbuf.stop - fs.outbuf.start)) / 82
        count =
            let test : ltb (fs.outbuf.stop - fs.outbuf.start) 65536 ≡ true = ground arith in
            (ap
              (λ m. elim m [
                | latency ↦ if eqb_ℤ fs.probe_state (pos 0) then 1 else 0
                | throughput ↦
                    if ltb (fs.outbuf.stop - fs.outbuf.start) 65536
                    then (65536 - (fs.outbuf.stop - fs.outbuf.start)) / fs.probe_size
                    else 0
              ])
              mode)
            ∙ (rw test (ap (λ k. (65536 - (fs.outbuf.stop - fs.outbuf.start)) / k) size))

past :
    (s usec : ℤ) (later : TimeVal)
    → later.tv_sec ≡ s +ℤ pos 1
    → timer_lt (record { tv_sec = s; tv_usec = usec }) later ≡ true
unfolding timer_lt
past s usec later e =
    let a : eqb_ℤ s later.tv_sec ≡ false = ap (eqb_ℤ s) e ∙ other in
    let b : ltb_ℤ s later.tv_sec ≡ true = ap (ltb_ℤ s) e ∙ less in rw (a, b) refl
  where
    other : eqb_ℤ s (s +ℤ pos 1) ≡ false
    other = ground (arith, +ℤ_parts s (pos 1))

    less : ltb_ℤ s (s +ℤ pos 1) ≡ true
    less = ground (arith, +ℤ_parts s (pos 1))

-- A switch that starts at `now` with a delay is made ready at any time within the second
-- `now + delay / 1000 + 1`, whatever the microseconds of both times: `delay_start` is not normalised.
pub prepare_early :
    (of : Protocol) (fresh : ℕ → ℕ) (now later : TimeVal) (fs : FakeSwitch)
    → 0 < fs.delay
    → later.tv_sec ≡ now.tv_sec +ℤ pos (fs.delay / 1000) +ℤ pos 1
    → prepare of fresh later (start_test of fresh now fs)
      ≡ ok (record (start_test of fresh now fs) { ready_to_send = 1 })
unfolding prepare start_test
prepare_early of fresh now later fs some_delay e =
    let test : (fs.delay == 0) ≡ false = ground arith in
    let late =
      past (now.tv_sec +ℤ pos (fs.delay / 1000)) (now.tv_usec +ℤ pos (fs.delay % 1000 * 1000)) later
        e in
    rw (test, late) refl
