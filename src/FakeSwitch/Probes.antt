-- ===== src/FakeSwitch/Probes.antt =====
-- The counter `probe_state` of a switch. It may be 0 while a probe waits: OFPT_VENDOR and the end
-- of a test reset it.
use oflops_turbo.Base.{
  List, ℕ, zero, suc, ◌+◌, ◌-◌, ◌/◌, ◌≡◌, refl, ap, ◌∙◌, ◌⊎◌, inl, inr, Bool, true, false, ◌||◌, [],
  ltb, leb, ◌==◌, if◌then◌else◌, Bool-cases, Run, ok, aborted, fault, IfOk, IfOk-bind, IfOk-if,
  IfOk-then,
}
use oflops_turbo.Base.Int.{pos, negsuc, ◌+ℤ◌, ltb_ℤ, eqb_ℤ}
use oflops_turbo.Time.{TimeVal, timer_lt}
use oflops_turbo.MsgBuf.{Bytes, MsgBuf, Received, Sent, msgbuf_push, msgbuf_pull, msgbuf_read}
use oflops_turbo.FakeSwitch.{
  fakeswitch_get_count, drain, FakeSwitch, latency, throughput, answered, clamp, start_test,
  push_out, react, read_loop, buffer_short, buffer_byte, fakeswitch_handle_read, queue_probes,
  probes_to_send, prepare, fakeswitch_handle_write, fakeswitch_handle_io,
}
use oflops_turbo.FakeSwitch.Reply.{Protocol, features_reply, vendor_reply, echo_reply}

-- In latency mode, the counter of the probes that wait for an answer is 0 or 1.
pub record IsSingle (fs : FakeSwitch) : Type 0 where
  pub mode : fs.mode ≡ latency
  pub waiting : (fs.probe_state ≡ pos 0) ⊎ (fs.probe_state ≡ pos 1)

clamp-IsSingle : (fs : FakeSwitch) → IsSingle fs → IsSingle (clamp fs)
unfolding clamp
clamp-IsSingle fs s =
    let settled : ltb_ℤ fs.probe_state (pos 0) ≡ false = elim s.waiting [
      | inl e ↦ ap (λ z. ltb_ℤ z (pos 0)) e
      | inr e ↦ ap (λ z. ltb_ℤ z (pos 0)) e
    ] in
    rw settled s

-- An answer to no probe makes the count negative, and the reset after it makes it 0.
clamp-answered : (fs : FakeSwitch) → IsSingle fs → IsSingle (clamp (answered fs))
unfolding clamp answered ◌+ℤ◌
clamp-answered fs s = elim s.waiting [
  | inl e ↦
      let low : ltb_ℤ (fs.probe_state +ℤ negsuc 0) (pos 0) ≡ true =
        ap (λ z. ltb_ℤ (z +ℤ negsuc 0) (pos 0)) e in
      rw low (record { mode = s.mode; waiting = inl refl })
  | inr e ↦
      let fine : ltb_ℤ (fs.probe_state +ℤ negsuc 0) (pos 0) ≡ false =
        ap (λ z. ltb_ℤ (z +ℤ negsuc 0) (pos 0)) e in
      rw fine (record { mode = s.mode; waiting = inl (ap (λ z. z +ℤ negsuc 0) e) })
]

module _ (of : Protocol) (fresh : ℕ → ℕ) (now : TimeVal) where
  start_test-IsSingle : (fs : FakeSwitch) → IsSingle fs → IsSingle (start_test of fresh now fs)
  unfolding start_test
  start_test-IsSingle fs s = elim (Bool-cases (fs.delay == 0)) [
    | inl e ↦ rw e (record { mode = s.mode; waiting = s.waiting })
    | inr e ↦ rw e (record { mode = s.mode; waiting = s.waiting })
  ]

  Single : Run FakeSwitch → Type 0
  Single r = IfOk (λ fs. IsSingle (clamp fs)) r

  push_out-IsSingle :
      (fs : FakeSwitch) (xs : Bytes) (P : FakeSwitch → Type 0)
      → ((out : MsgBuf) → P (record fs { outbuf = out }))
      → IfOk P (push_out of fresh now fs xs)
  unfolding push_out
  push_out-IsSingle fs xs P h = IfOk-bind P (msgbuf_push fresh fs.outbuf xs) _ h

  kept : (fs : FakeSwitch) → IsSingle fs → (out : MsgBuf) → IsSingle (record fs { outbuf = out })
  kept fs s out = record { mode = s.mode; waiting = s.waiting }

  react-IsSingle :
      (fs : FakeSwitch) (type : ℕ) (xid : Bytes) (command : Run ℕ)
      → IsSingle fs
      → Single (react of fresh now fs type xid command)
  unfolding react Single
  react-IsSingle fs type xid command s =
      let P = λ (g : FakeSwitch). IsSingle (clamp g) in
      let same = clamp-IsSingle fs s in
      IfOk-if P (type == of.packet_out) (ok (answered fs)) _ (clamp-answered fs s) (
        IfOk-if P (type == of.flow_mod) _ _
          (IfOk-bind P command _ λ c. elim (Bool-cases ((c == of.add) || (c == of.modify_strict))) [
            | inl e ↦ rw e (clamp-answered fs s)
            | inr e ↦ rw e same
          ])
          (IfOk-if P (type == of.features_request) _ _
            (IfOk-then IsSingle P (push_out of fresh now fs (features_reply of fs.id xid)) _
              (push_out-IsSingle fs (features_reply of fs.id xid) IsSingle (kept fs s))
              λ g sg. clamp-IsSingle (start_test of fresh now g) (start_test-IsSingle g sg))
            (IfOk-if P (type == of.vendor) _ _
              (IfOk-then IsSingle P (push_out of fresh now fs (vendor_reply of xid)) _
                (push_out-IsSingle fs (vendor_reply of xid) IsSingle (kept fs s))
                λ g sg.
                  clamp-IsSingle (record g { probe_state = pos 0 })
                    (record { mode = sg.mode; waiting = inl refl }))
              (IfOk-if P (type == of.echo_request) _ (ok fs)
                (push_out-IsSingle fs (echo_reply of xid) P
                  (λ out. clamp-IsSingle (record fs { outbuf = out }) (kept fs s out)))
                same))))

  read_loop-IsSingle :
      (k : ℕ) (fs : FakeSwitch) → IsSingle fs → IfOk IsSingle (read_loop of fresh now k fs)
  unfolding read_loop Single
  read_loop-IsSingle zero fs s = tt
  read_loop-IsSingle (suc k) fs s =
      let m = fs.inbuf in
      IfOk-if IsSingle (leb 8 (m.stop - m.start)) _ (ok fs)
        (IfOk-bind IsSingle (buffer_short m (m.start + 2)) _ λ size.
          IfOk-if IsSingle (ltb (m.stop - m.start) size) (ok fs) _ s (
            IfOk-bind IsSingle (buffer_byte m (m.start + 1)) _ λ type.
              IfOk-then (λ g. IsSingle (clamp g)) IsSingle _ _
                (react-IsSingle (record fs { inbuf = (msgbuf_pull m size).2 }) type _ _
                  (record { mode = s.mode; waiting = s.waiting }))
                λ g sg. read_loop-IsSingle k (clamp g) sg))
        s

  handle_read-IsSingle :
      (read : ℕ → Received) (fs : FakeSwitch)
      → IsSingle fs
      → IfOk IsSingle (fakeswitch_handle_read of fresh now read fs)
  unfolding fakeswitch_handle_read
  handle_read-IsSingle read fs s = IfOk-bind IsSingle (msgbuf_read fresh fs.inbuf read) _ λ r.
      IfOk-if IsSingle (ltb_ℤ (pos 0) r.0) _ aborted
        (read_loop-IsSingle _ (record fs { inbuf = r.1 })
          (record { mode = s.mode; waiting = s.waiting }))
        tt

  pub probes-latency :
      (fs : FakeSwitch)
      → fs.mode ≡ latency
      → probes_to_send of fresh now fs ≡ (if eqb_ℤ fs.probe_state (pos 0) then 1 else 0)
  unfolding probes_to_send
  probes-latency fs e =
      ap
        (λ mode. elim mode [
          | latency ↦ if eqb_ℤ fs.probe_state (pos 0) then 1 else 0
          | throughput ↦
              if ltb (fs.outbuf.stop - fs.outbuf.start) 65536
              then (65536 - (fs.outbuf.stop - fs.outbuf.start)) / fs.probe_size
              else 0
        ])
        e

  queue_one-IsSingle :
      (fs : FakeSwitch)
      → fs.mode ≡ latency
      → fs.probe_state ≡ pos 0
      → IfOk IsSingle (queue_probes of fresh now 1 fs)
  unfolding queue_probes ◌+ℤ◌
  queue_one-IsSingle fs mode e = IfOk-if IsSingle (fs.total_mac_addresses == 0) fault _ tt (
      IfOk-bind IsSingle (msgbuf_push fresh fs.outbuf _) _
        λ out. record { mode = mode; waiting = inr (ap (λ z. z +ℤ pos 1) e) })

  -- In latency mode the next probe is only queued where none waits.
  prepare-IsSingle : (fs : FakeSwitch) → IsSingle fs → IfOk IsSingle (prepare of fresh now fs)
  unfolding prepare queue_probes
  prepare-IsSingle fs s = IfOk-if IsSingle (fs.ready_to_send == 1) _ _ queue (
      IfOk-if IsSingle (fs.ready_to_send == 2) _ (ok fs)
        (elim (Bool-cases (timer_lt fs.delay_start now)) [
          | inl e ↦ rw e (record { mode = s.mode; waiting = s.waiting })
          | inr e ↦ rw e s
        ])
        s)
    where
      queue : IfOk IsSingle (queue_probes of fresh now (probes_to_send of fresh now fs) fs)
      queue = elim s.waiting [
        | inl e ↦
            let one : probes_to_send of fresh now fs ≡ 1 =
              probes-latency fs s.mode ∙ ap (λ z. if eqb_ℤ z (pos 0) then 1 else 0) e in
            rw one (queue_one-IsSingle fs s.mode e)
        | inr e ↦
            let nothing : probes_to_send of fresh now fs ≡ 0 =
              probes-latency fs s.mode ∙ ap (λ z. if eqb_ℤ z (pos 0) then 1 else 0) e in
            rw nothing s
      ]

  -- In latency mode the counter is 0 or 1, and never negative: each call of `fakeswitch_handle_io`
  -- that returns keeps this up, whatever the controller sends, in whatever pieces, and whatever
  -- the sockets and the clock answer.
  pub handle_io-IsSingle :
      (pollin pollout : Bool) (read : ℕ → Received) (write : Bytes → Sent) (again : Bool)
      (fs : FakeSwitch)
      → IsSingle fs
      → IfOk {A = Bytes × FakeSwitch}
          (λ r. IsSingle r.1)
          (fakeswitch_handle_io of fresh now pollin pollout read write again fs)
  unfolding fakeswitch_handle_io fakeswitch_handle_write
  handle_io-IsSingle pollin pollout read write again fs s =
      let P = λ (r : Bytes × FakeSwitch). IsSingle r.1 in
      IfOk-then IsSingle P (if pollin then fakeswitch_handle_read of fresh now read fs else ok fs) _
        (IfOk-if IsSingle pollin _ (ok fs) (handle_read-IsSingle read fs s) s)
        λ g sg.
          IfOk-if P pollout _ (ok ([], g))
            (IfOk-then IsSingle P (prepare of fresh now g) _ (prepare-IsSingle g sg) λ h sh.
              elim (Bool-cases (ltb 0 (h.outbuf.stop - h.outbuf.start))) [
                | inl e ↦ rw e (record { mode = sh.mode; waiting = sh.waiting })
                | inr e ↦ rw e sh
              ])
            sg

-- A count at the end of a test forgets the probes that wait.
pub get_count-IsSingle :
    (fresh : ℕ → ℕ) (reads : List (ℕ → Received)) (fs : FakeSwitch)
    → IsSingle fs
    → IfOk {A = ℕ × FakeSwitch} (λ r. IsSingle r.1) (fakeswitch_get_count fresh reads fs)
unfolding fakeswitch_get_count
get_count-IsSingle fresh reads fs s =
    IfOk-bind {B = ℕ × FakeSwitch} (λ r. IsSingle r.1) (drain fresh reads fs.inbuf) _
      λ inbuf. record { mode = s.mode; waiting = inl refl }
