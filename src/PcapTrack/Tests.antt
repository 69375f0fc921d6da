-- ===== src/PcapTrack/Tests.antt =====
-- The statements about pcap_track.c at concrete packets. The pcap headers are numbers here.
use oflops_turbo.Base.{ℕ, ◌≡◌, refl, inr, [], ◌∷◌, ◌++◌, none, arith, replicate, ok, out_of_fuel}
use oflops_turbo.PcapTrack.{
  Bytes, Tracker, byte_at, short_at, transport_offset, tcp_payload_offset, add_entry, add_loop,
  ptrack_add_of_entry, ptrack_new, ptrack_lookup,
}
use oflops_turbo.PcapTrack.Add.{
  IsMessage, IsTail, add_all, ptrack_add_of_entry_splits, ptrack_add_of_entry_stuck,
}
use oflops_turbo.PcapTrack.Lookup.{NeverFull, created, added, looked_up, ptrack_lookup_misses}

-- An Ethernet, an IPv4 and a TCP header without options, 54 bytes.
abbrev headers : Bytes
headers =
    replicate 12 0
    ++ (8 ∷ 0 ∷ 0x45 ∷ replicate 8 0)
    ++ (6 ∷ replicate 10 0)
    ++ replicate 12 0
    ++ (0x50 ∷ replicate 7 0)

-- OFPT_HELLO, 8 bytes.
abbrev hello : Bytes
hello = 1 ∷ 0 ∷ 0 ∷ 8 ∷ 0 ∷ 0 ∷ 0 ∷ 1 ∷ []

-- Two messages and a cut third.
abbrev packet : Bytes
packet = headers ++ hello ++ hello ++ (1 ∷ 0 ∷ 0 ∷ 8 ∷ [])

abbrev unused : Tracker ℕ
unused = ptrack_new 0

hello-IsMessage : IsMessage hello
unfolding short_at byte_at
hello-IsMessage = record { header = omega arith; sized = refl }

cut-IsTail : IsTail (1 ∷ 0 ∷ 0 ∷ 8 ∷ [])
unfolding short_at byte_at
cut-IsTail = inr (8, refl, (omega arith, omega arith))

ptrack_add_of_entry_splits_example :
    ptrack_add_of_entry unused packet 3 ≡ ok (2, add_all 3 unused (hello ∷ hello ∷ []))
unfolding tcp_payload_offset transport_offset short_at byte_at
ptrack_add_of_entry_splits_example =
    ptrack_add_of_entry_splits 3 unused packet 54 (hello ∷ hello ∷ []) (1 ∷ 0 ∷ 0 ∷ 8 ∷ []) refl
      (omega arith) refl (hello-IsMessage, (hello-IsMessage, tt)) cut-IsTail

filled_by_packet :
    ptrack_add_of_entry unused packet 3 ≡ ok (2, add_all 3 unused (hello ∷ hello ∷ []))
unfolding tcp_payload_offset transport_offset short_at byte_at
filled_by_packet =
    ptrack_add_of_entry_splits 3 unused packet 54 (hello ∷ hello ∷ []) (1 ∷ 0 ∷ 0 ∷ 8 ∷ []) refl
      (omega arith) refl (hello-IsMessage, (hello-IsMessage, tt)) cut-IsTail

abbrev silent : Bytes
silent = headers ++ replicate 4 0

ptrack_add_of_entry_stuck_example :
    ((k : ℕ) (c : ℕ) → add_loop k unused (replicate 4 0) 3 c ≡ out_of_fuel)
    × (ptrack_add_of_entry unused silent 3 ≡ out_of_fuel)
unfolding tcp_payload_offset transport_offset short_at byte_at
ptrack_add_of_entry_stuck_example =
    ptrack_add_of_entry_stuck 3 unused silent 54 refl (omega arith) refl

abbrev filled : Tracker ℕ
filled = add_all 3 unused (hello ∷ hello ∷ [])

lookup_none : ptrack_lookup filled hello ≡ ok (none, filled)
unfolding add_all add_entry ptrack_new
lookup_none =
    ptrack_lookup_misses filled hello (added packet 3 2 (created 0) filled_by_packet (omega arith))
      (omega arith)

-- The tracker, with a lookup in between.
filled-NeverFull : NeverFull filled
unfolding add_all add_entry ptrack_new
filled-NeverFull =
    looked_up hello none (added packet 3 2 (created 0) filled_by_packet (omega arith)) lookup_none

ptrack_lookup_misses_example : ptrack_lookup filled hello ≡ ok (none, filled)
ptrack_lookup_misses_example = ptrack_lookup_misses filled hello filled-NeverFull (omega arith)
