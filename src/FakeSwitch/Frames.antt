-- ===== src/FakeSwitch/Frames.antt =====
-- `fakeswitch_handle_read`: how the bytes of the controller are cut into messages.
use mathlib.Core.List.{append-nil}
use oflops_turbo.Base.{
  ℕ, zero, suc, ◌+◌, ◌-◌, ◌≤◌, ◌<◌, ◌≡◌, refl, sym, ap, ◌∙◌, inl, inr, true, false, List, [], ◌∷◌,
  ◌++◌, arith, ltb, leb, length, get_or, drop, length-append, drop-append, Run, ok, out_of_fuel,
  ◌>>=◌,
}
use oflops_turbo.Base.Int.{pos, ltb_ℤ}
use oflops_turbo.Time.{TimeVal}
use oflops_turbo.MsgBuf.{Bytes, MsgBuf, msgbuf_pull}
use oflops_turbo.MsgBuf.Inv.{
  IsValid, contents, Holds, length-contents, msgbuf_pull-Holds, msgbuf_pull-zero,
}
use oflops_turbo.FakeSwitch.{FakeSwitch, buffer_short, clamp, react, read_loop}
use oflops_turbo.FakeSwitch.Reply.{Protocol, IsProtocol}
use oflops_turbo.FakeSwitch.Fields.{
  message_short, message_xid, joined, IsCut, inside, byte-start, short-start, xid-start,
}
use oflops_turbo.FakeSwitch.React.{react_value, clamp_inbuf, outbuf-clamp, command_irrelevant}

module _ (of : Protocol) (fresh : ℕ → ℕ) (now : TimeVal) where
  -- A complete message; a flow_mod has the field `command`.
  pub record IsFrame (m : Bytes) : Type 0 where
    pub header : 8 ≤ length m
    pub sized : message_short m 2 ≡ length m
    pub command : get_or m 1 0 ≡ of.flow_mod → of.command_offset + 1 < length m

  abbrev pub AllFrames : List Bytes → Type 0
  AllFrames [] = Unit
  AllFrames (m ∷ ms) = IsFrame m × AllFrames ms

  -- What the switch does about one message after the other.
  unfoldable pub handle_all : FakeSwitch → List Bytes → Run FakeSwitch
  handle_all fs [] = ok fs
  handle_all fs (m ∷ ms) =
      react of fresh now fs (get_or m 1 0) (message_xid m) (ok (message_short m of.command_offset))
      >>= λ g. handle_all (clamp g) ms

  -- The buffer after the pull of a first message.
  pulled-Holds :
      (b : MsgBuf) (m rest : Bytes)
      → IsValid b
      → contents b ≡ m ++ rest
      → Holds rest (msgbuf_pull b (length m)).2
  pulled-Holds b m rest v e =
      let p = msgbuf_pull-Holds b (length m) v in
      (p.0.0, p.0.1 ∙ ap (drop (length m)) e ∙ drop-append m rest)

  -- Where the output buffer is valid and a valid input buffer holds complete messages (each flow_mod
  -- with its field `command`) and a cut tail, the loop of `fakeswitch_handle_read` ends after as many
  -- rounds as there are bytes, at most: the switch has then handled each message in order, and the
  -- input buffer holds the tail.
  pub read_loop_frames :
      (k : ℕ) (fs : FakeSwitch) (b : MsgBuf) (ms : List Bytes) (tail : Bytes)
      → IsValid fs.outbuf
      → Holds (joined ms tail) b
      → AllFrames ms
      → IsCut tail
      → length (joined ms tail) < k
      → (g : FakeSwitch) × (r : MsgBuf) × (handle_all fs ms ≡ ok g)
        × Holds tail r
        × (read_loop of fresh now k (record fs { inbuf = b }) ≡ ok (record g { inbuf = r }))
  unfolding read_loop handle_all
  read_loop_frames zero fs b ms tail vo h f cut fuel = absurd (omega arith)
  read_loop_frames (suc k) fs b [] tail vo h f cut fuel =
      let size : b.stop - b.start ≡ length tail = sym (length-contents b) ∙ ap length h.1 in
      (
        fs,
        b,
        refl,
        h,
        elim cut [
          | inl short ↦
              let test : leb 8 (b.stop - b.start) ≡ false = ground (arith, size) in rw test refl
          | inr part ↦
              let test : leb 8 (b.stop - b.start) ≡ true = ground (arith, size) in
              let all : contents b ≡ tail ++ [] = h.1 ∙ sym (append-nil tail) in
              let more : ltb (b.stop - b.start) (message_short tail 2) ≡ true =
                ground (arith, size) in
              rw (test, short-start b tail [] h.0 all 2 (omega (arith, part.0)), more) refl
        ],
      )
  read_loop_frames (suc k) fs b (m ∷ ms) tail vo h f cut fuel =
      let rest = joined ms tail in
      let (g, re) =
        react_value of fresh now fs (get_or m 1 0) (message_xid m)
          (message_short m of.command_offset) vo in
      let b' = (msgbuf_pull b (length m)).2 in
      let size : b.stop - b.start ≡ length m + length rest =
        sym (length-contents b) ∙ ap length h.1 ∙ length-append m rest in
      let test : leb 8 (b.stop - b.start) ≡ true = ground (arith, size, f.0.header) in
      let whole : ltb (b.stop - b.start) (length m) ≡ false = ground (arith, size) in
      let reads =
        command_irrelevant of fresh now (record fs { inbuf = b' }) (get_or m 1 0) (message_xid m)
          (buffer_short b (b.start + of.command_offset)) (ok (message_short m of.command_offset))
          (λ p. short-start b m rest h.0 h.1 of.command_offset (f.0.command p)) in
      let here : react of fresh now fs (get_or m 1 0) (message_xid m)
            (ok (message_short m of.command_offset))
          ≡ ok g =
        re.run fs.inbuf ∙ ap (λ x. ok (record g { inbuf = x })) (sym re.same) in
      let (z, r, all, left, run) =
        read_loop_frames k (clamp g) b' ms tail (rw (outbuf-clamp of fresh now g) re.valid)
          (pulled-Holds b m rest h.0 h.1) f.1 cut
          (omega (arith, length-append m rest, f.0.header)) in
      (
        z,
        r,
        rw here all,
        left,
        rw
            (
              test,
              short-start b m rest h.0 h.1 2 (omega (arith, f.0.header)),
              f.0.sized,
              whole,
              byte-start b m rest h.0 h.1 1 (omega (arith, f.0.header)),
              xid-start b m rest h.0 h.1 f.0.header,
              reads,
              re.run b',
              clamp_inbuf of fresh now g b',
            )
            run,
      )

  -- A HELLO whose header says that it has length 0 is never pulled: the loop reads it again and
  -- again, and does not end.
  pub read_loop_stuck :
      (k : ℕ) (fs : FakeSwitch) (m rest : Bytes)
      → IsProtocol of
      → Holds (m ++ rest) fs.inbuf
      → 8 ≤ length m
      → get_or m 1 0 ≡ of.hello
      → message_short m 2 ≡ 0
      → ltb_ℤ fs.probe_state (pos 0) ≡ false
      → read_loop of fresh now k fs ≡ out_of_fuel
  unfolding read_loop react clamp
  read_loop_stuck zero fs m rest p h header hello zero_length settled = refl
  read_loop_stuck (suc k) fs m rest p h header hello zero_length settled =
      let test : leb 8 (fs.inbuf.stop - fs.inbuf.start) ≡ true =
        ground (arith, inside fs.inbuf m rest h.0 h.1) in
      let whole : ltb (fs.inbuf.stop - fs.inbuf.start) 0 ≡ false = ground arith in
      rw
        (
          test,
          short-start fs.inbuf m rest h.0 h.1 2 (omega arith),
          zero_length,
          whole,
          msgbuf_pull-zero fs.inbuf,
          byte-start fs.inbuf m rest h.0 h.1 1 (omega arith),
          hello,
          p.packet_out,
          p.flow_mod,
          p.features_request,
          p.vendor,
          p.echo_request,
          settled,
        )
        (read_loop_stuck k fs m rest p h header hello zero_length settled)
