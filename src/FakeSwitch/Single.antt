-- ===== src/FakeSwitch/Single.antt =====
-- What a switch in latency mode sends between two answers.
use mathlib.Core.List.{append-nil, append_assoc}
use oflops_turbo.Base.{
  ℕ, ◌-◌, ◌<◌, ◌≡◌, refl, sym, ap, ◌∙◌, inl, inr, Bool, true, false, List, [], ◌∷◌, ◌++◌, arith,
  ltb, ◌==◌, if◌then◌else◌, Bool-cases, Run, ok, ◌>>=◌, Returns, returns, Returns-bind,
}
use oflops_turbo.Base.Int.{pos, ◌+ℤ◌, eqb_ℤ}
use oflops_turbo.Time.{TimeVal}
use oflops_turbo.MsgBuf.{Bytes, Sent, closed}
use oflops_turbo.MsgBuf.Inv.{IsValid, contents, msgbuf_push-Holds}
use oflops_turbo.MsgBuf.Socket.{IsWrite, msgbuf_write-Splits}
use oflops_turbo.FakeSwitch.{
  FakeSwitch, queue_probes, probes_to_send, prepare, fakeswitch_handle_write, fakeswitch_handle_io,
}
use oflops_turbo.FakeSwitch.Reply.{Protocol, packet_in}
use oflops_turbo.FakeSwitch.Probes.{IsSingle, probes-latency}

-- A call of `fakeswitch_handle_io` where the socket can be written to and has nothing to read.
pub record Call : Type 0 where
  pub now : TimeVal
  pub write : Bytes → Sent
  pub again : Bool

abbrev pub AllWrite : List Call → Type 0
AllWrite [] = Unit
AllWrite (c ∷ cs) = IsWrite c.write × AllWrite cs

-- A switch in latency mode that is past its delay, with a buffer in order.
pub record IsProbing (fs : FakeSwitch) : Type 0 where
  pub single : IsSingle fs
  pub ready : fs.ready_to_send ≡ 1
  pub macs : 0 < fs.total_mac_addresses
  pub valid : IsValid fs.outbuf

module _ (of : Protocol) (fresh : ℕ → ℕ) where
  -- Calls one after the other: the bytes that the socket took, and the switch.
  pub calls : List Call → FakeSwitch → Run (Bytes × FakeSwitch)
  calls [] fs = ok ([], fs)
  calls (c ∷ cs) fs =
      fakeswitch_handle_io of fresh c.now false true (λ n. closed) c.write c.again fs >>= λ r.
      calls cs r.1 >>= λ s. ok (r.0 ++ s.0, s.1)

  -- The probe that is due: one where the counter is 0, and none where it is not.
  abbrev pub due : FakeSwitch → Bytes
  due fs = if eqb_ℤ fs.probe_state (pos 0) then packet_in of fs.id 0 fs.current_mac_address else []

  -- The result is a switch that waits for one answer, with these bytes sent or still to be sent.
  pub record Waits (xs : Bytes) (r : Bytes × FakeSwitch) : Type 0 where
    pub bytes : r.0 ++ contents r.1.outbuf ≡ xs
    pub waiting : r.1.probe_state ≡ pos 1
    pub probing : IsProbing r.1

  prepare-Waits :
      (now : TimeVal) (fs : FakeSwitch)
      → IsProbing fs
      → Returns (λ g. Waits (contents fs.outbuf ++ due fs) ([], g)) (prepare of fresh now fs)
  unfolding prepare queue_probes ◌+ℤ◌
  prepare-Waits now fs p =
      let go : (fs.ready_to_send == 1) ≡ true = ap (λ n. n == 1) p.ready in
      let test : (fs.total_mac_addresses == 0) ≡ false = ground (arith, p.macs) in
      elim p.single.waiting [
        | inl none_waits ↦
            let yes : eqb_ℤ fs.probe_state (pos 0) ≡ true = ap (λ z. eqb_ℤ z (pos 0)) none_waits in
            let one : probes_to_send of fresh now fs ≡ 1 =
              probes-latency of fresh now fs p.single.mode ∙ rw yes refl in
            let next = ap (λ z. z +ℤ pos 1) none_waits in
            rw (go, one, test, yes)
              (Returns-bind
                (msgbuf_push-Holds fresh fs.outbuf (packet_in of fs.id 0 fs.current_mac_address)
                  p.valid)
                λ out h. returns (record {
                  bytes = h.1;
                  waiting = next;
                  probing = record {
                    single = record { mode = p.single.mode; waiting = inr next };
                    ready = p.ready;
                    macs = p.macs;
                    valid = h.0;
                  };
                }))
        | inr one_waits ↦
            let no : eqb_ℤ fs.probe_state (pos 0) ≡ false = ap (λ z. eqb_ℤ z (pos 0)) one_waits in
            let none : probes_to_send of fresh now fs ≡ 0 =
              probes-latency of fresh now fs p.single.mode ∙ rw no refl in
            rw (go, none, no)
              (returns (record {
                bytes = sym (append-nil (contents fs.outbuf));
                waiting = one_waits;
                probing = p;
              }))
      ]

  handle_io-Waits :
      (c : Call) (fs : FakeSwitch)
      → IsProbing fs
      → IsWrite c.write
      → Returns
          (Waits (contents fs.outbuf ++ due fs))
          (fakeswitch_handle_io of fresh c.now false true (λ n. closed) c.write c.again fs)
  unfolding fakeswitch_handle_io fakeswitch_handle_write
  handle_io-Waits c fs p law = Returns-bind (prepare-Waits c.now fs p) λ g w.
      let s = msgbuf_write-Splits g.outbuf c.write 0 c.again w.probing.valid law in
      returns (elim (Bool-cases (ltb 0 (g.outbuf.stop - g.outbuf.start))) [
        | inl some_bytes ↦ rw some_bytes (record {
          bytes = s.1 ∙ w.bytes;
          waiting = w.waiting;
          probing = record {
            single = record { mode = w.probing.single.mode; waiting = w.probing.single.waiting };
            ready = w.probing.ready;
            macs = w.probing.macs;
            valid = s.0;
          };
        })
        | inr no_bytes ↦ rw no_bytes w
      ])

  join-Waits :
      (xs : Bytes) (r s : Bytes × FakeSwitch)
      → Waits xs r
      → Waits (contents r.1.outbuf) s
      → Waits xs (r.0 ++ s.0, s.1)
  join-Waits xs r s a b = record {
    bytes = append_assoc r.0 s.0 (contents s.1.outbuf) ∙ ap (λ ys. r.0 ++ ys) b.bytes ∙ a.bytes;
    waiting = b.waiting;
    probing = b.probing;
  }

  calls_waiting :
      (cs : List Call) (fs : FakeSwitch)
      → IsProbing fs
      → fs.probe_state ≡ pos 1
      → AllWrite cs
      → Returns (Waits (contents fs.outbuf)) (calls cs fs)
  unfolding calls
  calls_waiting [] fs p one_waits law =
      returns (record { bytes = refl; waiting = one_waits; probing = p })
  calls_waiting (c ∷ cs) fs p one_waits law =
      let no : eqb_ℤ fs.probe_state (pos 0) ≡ false = ap (λ z. eqb_ℤ z (pos 0)) one_waits in
      let first = rw (no, append-nil) at (handle_io-Waits c fs p law.0) in
      Returns-bind {R = Waits (contents fs.outbuf)} first λ r a.
        Returns-bind {R = Waits (contents fs.outbuf)}
          (calls_waiting cs r.1 a.probing a.waiting law.1)
          λ s b. returns (join-Waits (contents fs.outbuf) r s a b)

  -- A switch in latency mode that is past its delay, with its counter `probe_state` at 0 or 1 and
  -- an output buffer in order, and one or more calls of `fakeswitch_handle_io` in which it can
  -- write and has nothing to read, whatever the socket takes and the clock says. All calls return.
  -- What the socket took in all of them, followed by what is still in the output buffer, is what
  -- was in the output buffer and, where the counter was 0, exactly one probe behind it. Then the
  -- counter is 1.
  pub calls-Waits :
      (c : Call) (cs : List Call) (fs : FakeSwitch)
      → IsProbing fs
      → AllWrite (c ∷ cs)
      → Returns (Waits (contents fs.outbuf ++ due fs)) (calls (c ∷ cs) fs)
  unfolding calls
  calls-Waits c cs fs p law =
      Returns-bind {R = Waits (contents fs.outbuf ++ due fs)} (handle_io-Waits c fs p law.0) λ r a.
        Returns-bind {R = Waits (contents fs.outbuf ++ due fs)}
          (calls_waiting cs r.1 a.probing a.waiting law.1)
          λ s b. returns (join-Waits (contents fs.outbuf ++ due fs) r s a b)
