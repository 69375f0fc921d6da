-- ===== src/Modules/Reactive/AllReceived.antt =====
-- The end of the test, after a series of captured packets.
use oflops_turbo.Base.{
  ℕ, zero, suc, ◌+◌, ◌≤◌, ◌<◌, ◌≡◌, refl, ap, sym, ◌∙◌, inl, inr, Bool, Bool-cases, true, false,
  ◌&&◌, ◌||◌, List, [], ◌∷◌, Option, arith, leb, if◌then◌else◌, Run, ok, ◌>>=◌, Returns, returns,
  Returns-bind, Returns-map,
}
use oflops_turbo.Base.Count.{count}
use oflops_turbo.Base.Int.{pos, eqb_ℤ}
use oflops_turbo.Time.{TimeVal}
use oflops_turbo.EventQueue.{Slots, WcQueue}
use oflops_turbo.EventQueue.Order.{IsValid}
use oflops_turbo.EventQueue.Take.{elements}
use oflops_turbo.MsgBuf.{Bytes}
use oflops_turbo.Msg.{EtherAddr}
use oflops_turbo.Setup.{Context, pcap}
use oflops_turbo.Generator.Packets.{Packet}
use oflops_turbo.Generator.Extract.{PktgenHdr}
use oflops_turbo.Generator.Extract.Sent.{InRange, packet_bytes, extract_pktgen_pkt-packet_bytes}
use oflops_turbo.Modules.{flow_id}
use oflops_turbo.Modules.Reactive.{Reactive, handle_pcap_event}
use oflops_turbo.Modules.Reactive.Ending.{
  is_bye, true_count, true_count_le, IsCounted, file_received-IsStep, or_false,
}

-- A packet of a traffic generator, as it was captured, and the time when it is handled.
pub record Captured : Type 0 where
  pub to : EtherAddr
  pub from : EtherAddr
  pub packet : Packet
  pub rest : Bytes
  pub len : ℕ
  pub ts : TimeVal
  pub now : TimeVal

abbrev pub AllCaptured : List Captured → Type 0
AllCaptured [] = Unit
AllCaptured (c ∷ cs) = (InRange c.packet × (38 ≤ c.len)) × AllCaptured cs

-- Whether a packet of the flow `i` was captured, and whether one of each of the first `n` flows was.
abbrev pub occurs : ℕ → ℕ → List Captured → Bool
occurs network i [] = false
occurs network i (c ∷ cs) = eqb_ℤ (flow_id network c.packet.daddr) (pos i) || occurs network i cs

abbrev pub all_occur : ℕ → ℕ → List Captured → Bool
all_occur network zero cs = true
all_occur network (suc n) cs = occurs network n cs && all_occur network n cs

all_occur_lem :
    (network n : ℕ) (cs : List Captured) (f : ℕ → Bool)
    → ((i : ℕ) → i < n → f i ≡ occurs network i cs)
    → leb n (true_count n f) ≡ all_occur network n cs
all_occur_lem network zero cs f h = refl
all_occur_lem network (suc n) cs f h =
    let later = all_occur_lem network n cs f (λ i lt. h i (omega arith)) in
    let here = h n (omega arith) in
    let bound = true_count_le n f in
    elim (Bool-cases (f n)) [
      | inl there ↦
          let same : leb (suc n) (1 + true_count n f) ≡ leb n (true_count n f) = ground arith in
          rw (← here, there) (same ∙ later)
      | inr missing ↦
          let none_ : leb (suc n) (0 + true_count n f) ≡ false = ground arith in
          rw (← here, missing) none_
    ]

none_true : (n : ℕ) → true_count n (λ i. false) ≡ 0
none_true zero = refl
none_true (suc n) = omega (arith, none_true n)

or_assoc : (a b c : Bool) → ((a || b) || c) ≡ (a || (b || c))
or_assoc true b c = refl
or_assoc false b c = refl

module _ (network : ℕ) (fresh : Slots) (ctx : Context)
    (nf_header : Bytes → ℕ → Option PktgenHdr) where
  -- `handle_pcap_event` for each packet, on the first data channel.
  unfoldable pub captures : List Captured → Reactive → WcQueue → Run (Reactive × WcQueue)
  captures [] s q = ok (s, q)
  captures (c ∷ cs) s q = do
    (s', q') ←
        handle_pcap_event network fresh ctx nf_header 1 (packet_bytes c.to c.from c.packet c.rest)
          c.len c.ts c.now s q
    captures cs s' q'

module _ (network : ℕ) where
  -- What the packets have changed.
  record IsAfter (byes : ℕ) (cs : List Captured) (s s' : Reactive) (q' : WcQueue) : Type 0 where
    counted : IsCounted byes s' q'
    same_flows : s'.flows ≡ s.flows
    received : (i : ℕ) → i < s.flows → s'.ip_received i ≡ (s.ip_received i || occurs network i cs)

  -- What a test with this module has done after the packets `cs`: each flow is marked as received if a
  -- packet of it was captured, and one event more than before ends the test if all flows were received, and
  -- none if not.
  pub record IsEnding (cs : List Captured) (s : Reactive) (q : WcQueue) (r : Reactive × WcQueue)
      : Type 0 where
    pub valid : IsValid r.1
    pub received : (i : ℕ) → i < s.flows → r.0.ip_received i ≡ occurs network i cs
    pub ending :
        count is_bye (elements r.1)
        ≡ count is_bye (elements q) + (if all_occur network s.flows cs then 1 else 0)

module _ (network : ℕ) (fresh : Slots) (ctx : Context) (nf_header : Bytes → ℕ → Option PktgenHdr)
    (known : 1 ≤ ctx.n_channels) (there : 1 < ctx.max_channels)
    (captured : eqb_ℤ (ctx.channels 1).cap_type pcap ≡ true) where
  captures-IsAfter :
      (byes : ℕ) (cs : List Captured) (s : Reactive) (q : WcQueue)
      → AllCaptured cs
      → IsCounted byes s q
      → Returns
          (λ r. IsAfter network byes cs s r.0 r.1)
          (captures network fresh ctx nf_header cs s q)
  unfolding captures handle_pcap_event
  captures-IsAfter byes [] s q h c =
      returns
        (record { counted = c; same_flows = refl; received = λ i lt. or_false (s.ip_received i) })
  captures-IsAfter byes (p ∷ ps) s q h c =
      rw
        (extract_pktgen_pkt-packet_bytes ctx nf_header 1 known there captured p.to p.from p.packet
          p.rest p.len h.0.0 h.0.1)
        (Returns-bind
          (file_received-IsStep byes fresh p.ts p.now (flow_id network p.packet.daddr) s q c)
          λ r f. Returns-map (captures-IsAfter byes ps r.0 r.1 h.1 f.counted) λ r' g. record {
            counted = g.counted;
            same_flows = g.same_flows ∙ f.same_flows;
            received = λ i lt.
                g.received i (omega (arith, f.same_flows))
                ∙ ap (λ b. b || occurs network i ps) (f.received i lt)
                ∙ or_assoc (s.ip_received i) _ (occurs network i ps);
          })

  -- A module that has received nothing, with at least one flow and a valid queue, and packets of traffic
  -- generators that libpcap captures on the first data channel, in any order and number. `handle_pcap_event`
  -- returns for all of them. A flow is marked as received exactly if one of the packets is of that flow,
  -- and the end of the test is scheduled once if there is one of each flow, and else not at all.
  pub captures-IsEnding :
      (cs : List Captured) (s : Reactive) (q : WcQueue)
      → AllCaptured cs
      → 0 < s.flows
      → s.ip_received ≡ (λ i. false)
      → s.ip_received_count ≡ 0
      → IsValid q
      → q.timers_enabled ≡ false
      → Returns (IsEnding network cs s q) (captures network fresh ctx nf_header cs s q)
  captures-IsEnding cs s q h some_flow blank zero_ v off =
      Returns-map (captures-IsAfter (count is_bye (elements q)) cs s q h start) λ r g.
        let marks : (i : ℕ) → i < s.flows → r.0.ip_received i ≡ occurs network i cs =
          λ i lt. g.received i lt ∙ ap (λ f. f i || occurs network i cs) blank in
        let test : leb r.0.flows r.0.ip_received_count ≡ all_occur network s.flows cs =
          ap (leb r.0.flows) g.counted.counted
          ∙ ap (λ n. leb n (true_count n r.0.ip_received)) g.same_flows
          ∙ all_occur_lem network s.flows cs r.0.ip_received marks in
        record {
          valid = g.counted.valid;
          received = marks;
          ending =
              g.counted.ending ∙ ap (λ b. count is_bye (elements q) + (if b then 1 else 0)) test;
        }
    where
      start : IsCounted (count is_bye (elements q)) s q
      start =
          let missing : leb s.flows s.ip_received_count ≡ false = ground arith in
          record {
            valid = v;
            disabled = off;
            counted = zero_ ∙ sym (ap (true_count s.flows) blank ∙ none_true s.flows);
            ending = rw missing (omega arith);
          }
