-- ===== src/ModuleRun/Nf2.antt =====
-- The branch of `process_pcap_event` for the NetFPGA card.
use oflops_turbo.Base.{ℕ, ◌≤◌, arith, ok, ◌≡◌, refl, ap, ◌∙◌, true, false, ltb, length, fault}
use oflops_turbo.Base.Int.{eqb_ℤ}
use oflops_turbo.MsgBuf.{Bytes}
use oflops_turbo.Setup.{pcap, nf2}
use oflops_turbo.ModuleRun.{
  Watched, Capture, packet, Revents, null, allocated, freed, flush, nf_packet, nf_copy, allocate,
  handle_pcap_event, process_pcap_event,
}

-- A packet that fits is handed on, and `pe` is freed, unless it was freed before.
nf_packet-fits :
    (ch : ℕ) (xs : Bytes) (s : Capture)
    → length xs ≤ 2000
    → s.pe ≡ null
    → nf_packet ch (packet xs) s ≡ ok (record (handle_pcap_event ch xs s) { pe = freed })
unfolding nf_packet nf_copy allocate
nf_packet-fits ch xs s fits new =
    let short : ltb 2000 (length xs) ≡ false = ground arith in
    ap (λ e. elim (allocate e) [ null ↦ fault | allocated ↦ nf_copy ch xs s | freed ↦ fault ]) new
    ∙ rw short refl

-- An NF2 channel with a packet to read.
pub record ReadsNf2 (c : Watched) (r : Revents) (xs : Bytes) : Type 0 where
  pub not_pcap : eqb_ℤ c.info.cap_type pcap ≡ false
  pub is_nf2 : eqb_ℤ c.info.cap_type nf2 ≡ true
  pub pollin : r.pollin ≡ true
  pub pollout : r.pollout ≡ false
  pub found : r.found ≡ packet xs

process_pcap_event-nf :
    (ch : ℕ) (c : Watched) (r : Revents) (xs : Bytes) (s : Capture)
    → ReadsNf2 c r xs
    → process_pcap_event ch c r s ≡ nf_packet ch (packet xs) s
unfolding process_pcap_event flush
process_pcap_event-nf ch c r xs s reads =
    rw (reads.pollout, reads.pollin, reads.not_pcap, reads.is_nf2)
      (ap (λ f. nf_packet ch f s) reads.found)

-- Two packets of NF2 channels, the same or different ones, of at most the 2000 bytes that `pe`
-- has, where `pe` is NULL before the first. The first packet is handed on, and `pe` is freed with
-- its data. The second one is then written to memory that was freed. With `pe` reset to NULL in
-- between, which the code does not do, the second one is handed on as well.
pub process_pcap_event-again :
    (ch ch' : ℕ) (c c' : Watched) (r r' : Revents) (xs ys : Bytes) (s : Capture)
    → ReadsNf2 c r xs
    → ReadsNf2 c' r' ys
    → s.pe ≡ null
    → length xs ≤ 2000
    → length ys ≤ 2000
    → (process_pcap_event ch c r s ≡ ok (record (handle_pcap_event ch xs s) { pe = freed }))
      × ((process_pcap_event ch' c' r' (record (handle_pcap_event ch xs s) { pe = freed }) ≡ fault)
          × (process_pcap_event ch' c' r' (record (handle_pcap_event ch xs s) { pe = null })
              ≡ ok
                  (record (handle_pcap_event ch' ys
                    (record (handle_pcap_event ch xs s) { pe = null })) { pe = freed })))
unfolding nf_packet allocate
process_pcap_event-again ch ch' c c' r r' xs ys s a b new fits fits' =
    let after = handle_pcap_event ch xs s in
    (
      process_pcap_event-nf ch c r xs s a ∙ nf_packet-fits ch xs s fits new,
      (
        process_pcap_event-nf ch' c' r' ys (record after { pe = freed }) b,
        process_pcap_event-nf ch' c' r' ys (record after { pe = null }) b
            ∙ nf_packet-fits ch' ys (record after { pe = null }) fits' refl,
      ),
    )
