-- ===== src/FakeSwitch/React.antt =====
-- What the switch does about one message does not depend on its input buffer.
use oflops_turbo.Base.{
  ℕ, ◌≡◌, refl, inl, inr, ◌||◌, ◌==◌, ==_iff, Bool-cases, Run, ok, Returns-value,
}
use oflops_turbo.Base.Int.{pos, ltb_ℤ}
use oflops_turbo.Time.{TimeVal}
use oflops_turbo.MsgBuf.{Bytes, MsgBuf}
use oflops_turbo.MsgBuf.Inv.{IsValid, msgbuf_push-Holds}
use oflops_turbo.FakeSwitch.{FakeSwitch, answered, clamp, start_test, push_out, react}
use oflops_turbo.FakeSwitch.Reply.{Protocol, features_reply, vendor_reply, echo_reply}

module _ (of : Protocol) (fresh : ℕ → ℕ) (now : TimeVal) where
  -- The reaction is the same whatever the input buffer holds, and leaves that alone.
  pub record Reacts (fs : FakeSwitch) (type : ℕ) (xid : Bytes) (command : Run ℕ) (g : FakeSwitch)
      : Type 0 where
    pub run :
        (b : MsgBuf)
        → react of fresh now (record fs { inbuf = b }) type xid command
          ≡ ok (record g { inbuf = b })
    pub same : g.inbuf ≡ fs.inbuf
    pub valid : IsValid g.outbuf

  pub push_out_value :
      (fs : FakeSwitch) (xs : Bytes)
      → IsValid fs.outbuf
      → (out : MsgBuf) × IsValid out
        × ((b : MsgBuf)
            → push_out of fresh now (record fs { inbuf = b }) xs
              ≡ ok (record fs { inbuf = b; outbuf = out }))
  unfolding push_out
  push_out_value fs xs v =
      let (out, run, h) = Returns-value (msgbuf_push-Holds fresh fs.outbuf xs v) in
      (out, h.0, λ b. rw run)

  pub react_value :
      (fs : FakeSwitch) (type : ℕ) (xid : Bytes) (c : ℕ)
      → IsValid fs.outbuf
      → (g : FakeSwitch) × Reacts fs type xid (ok c) g
  unfolding react answered start_test
  react_value fs type xid c v = elim (Bool-cases (type == of.packet_out)) [
    | inl p ↦ (answered fs, record { run = λ b. rw p refl; same = refl; valid = v })
    | inr np ↦ elim (Bool-cases (type == of.flow_mod)) [
      | inl p ↦ elim (Bool-cases ((c == of.add) || (c == of.modify_strict))) [
        | inl t ↦ (answered fs, record { run = λ b. rw (np, p, t) refl; same = refl; valid = v })
        | inr nt ↦ (fs, record { run = λ b. rw (np, p, nt) refl; same = refl; valid = v })
      ]
      | inr nf ↦ elim (Bool-cases (type == of.features_request)) [
        | inl p ↦
            let (out, vo, run) = push_out_value fs (features_reply of fs.id xid) v in
            elim (Bool-cases (fs.delay == 0)) [
              | inl now_ ↦ (
                start_test of fresh now (record fs { outbuf = out }),
                record {
                  run = λ b. rw (np, nf, p, run b, now_) refl;
                  same = rw now_ refl;
                  valid = rw now_ vo;
                },
              )
              | inr later ↦ (
                start_test of fresh now (record fs { outbuf = out }),
                record {
                  run = λ b. rw (np, nf, p, run b, later) refl;
                  same = rw later refl;
                  valid = rw later vo;
                },
              )
            ]
        | inr nr ↦ elim (Bool-cases (type == of.vendor)) [
          | inl p ↦
              let (out, vo, run) = push_out_value fs (vendor_reply of xid) v in
              (
                record fs { outbuf = out; probe_state = pos 0 },
                record { run = λ b. rw (np, nf, nr, p, run b) refl; same = refl; valid = vo },
              )
          | inr nv ↦ elim (Bool-cases (type == of.echo_request)) [
            | inl p ↦
                let (out, vo, run) = push_out_value fs (echo_reply of xid) v in
                (
                  record fs { outbuf = out },
                  record { run = λ b. rw (np, nf, nr, nv, p, run b) refl; same = refl; valid = vo },
                )
            | inr ne ↦
                (fs, record { run = λ b. rw (np, nf, nr, nv, ne) refl; same = refl; valid = v })
          ]
        ]
      ]
    ]
  ]

  pub clamp_inbuf :
      (g : FakeSwitch) (b : MsgBuf)
      → clamp (record g { inbuf = b }) ≡ record (clamp g) { inbuf = b }
  unfolding clamp
  clamp_inbuf g b = elim (Bool-cases (ltb_ℤ g.probe_state (pos 0))) [
    | inl low ↦ rw low refl
    | inr fine ↦ rw fine refl
  ]

  pub outbuf-clamp : (g : FakeSwitch) → (clamp g).outbuf ≡ g.outbuf
  unfolding clamp
  outbuf-clamp g = elim (Bool-cases (ltb_ℤ g.probe_state (pos 0))) [
    | inl low ↦ rw low refl
    | inr fine ↦ rw fine refl
  ]

  pub command_irrelevant :
      (fs : FakeSwitch) (type : ℕ) (xid : Bytes) (x y : Run ℕ)
      → (type ≡ of.flow_mod → x ≡ y)
      → react of fresh now fs type xid x ≡ react of fresh now fs type xid y
  unfolding react
  command_irrelevant fs type xid x y h = elim (Bool-cases (type == of.flow_mod)) [
    | inl p ↦ rw (h ((==_iff _ _).0 p)) refl
    | inr nf ↦ rw nf refl
  ]
