-- ===== src/ModuleRun/Tests.antt =====
-- The statements about module_run.c at concrete channels.
use oflops_turbo.Base.{ℕ, ◌≡◌, refl, true, false, List, [], ◌∷◌, ◌++◌, fault, ok, arith, Returns}
use oflops_turbo.Base.Int.{ℤ, pos, negsuc}
use oflops_turbo.MsgBuf.{MsgBuf, Bytes, sent}
use oflops_turbo.Setup.{Channel, pcap, nf2}
use oflops_turbo.ModuleRun.{
  Watched, Capture, nothing, packet, Revents, PollResult, poll_failed, timeout, ready, null, freed,
  handle_pcap_event, process_pcap_event, test_module_loop, poll_set,
}
use oflops_turbo.ModuleRun.Channels.{AllByPcap, AllDistinct, Polls, all_packets, packets_of}
use oflops_turbo.ModuleRun.Delivery.{test_module_loop-delivers}
use oflops_turbo.ModuleRun.Nf2.{process_pcap_event-again}

abbrev channel : ℤ → ℤ → Channel
channel fd cap_type = record {
  dev = [];
  of_port = pos 1;
  in_oid = [];
  out_oid = [];
  pcap_fd = fd;
  raw_sock = negsuc 0;
  sock = negsuc 0;
  cap_type = cap_type;
  ifindex = pos 0;
}

-- A channel that captures, and one that does not.
abbrev watched : ℤ → Watched
watched fd = record { info = channel fd pcap; pcap_handle = true; nf_cap = false; packet_len = 0 }

abbrev unwatched : Watched
unwatched = record {
  info = channel (negsuc 0) pcap;
  pcap_handle = false;
  nf_cap = false;
  packet_len = 0;
}

abbrev zeros : ℕ → ℕ
zeros i = 0

abbrev blank : MsgBuf
blank = record { buf = zeros; len = 64; start = 0; stop = 0 }

abbrev capture : Capture
capture = record {
  started = true;
  dump_controller = true;
  pe = null;
  outgoing = λ i. blank;
  handled = [];
  dumped = [];
}

abbrev reads : Bytes → Revents
reads xs = record { pollin = true; pollout = false; write = λ xs. sent 0; found = packet xs }

abbrev rests : Revents
rests = record { pollin = false; pollout = false; write = λ xs. sent 0; found = nothing }

-- Three channels, of which the second does not capture.
abbrev pub channels : List Watched
channels = watched (pos 5) ∷ unwatched ∷ watched (pos 7) ∷ []

abbrev pub polls : List PollResult
polls =
    ready (reads (1 ∷ []) ∷ reads (2 ∷ []) ∷ [])
    ∷ timeout
    ∷ poll_failed true
    ∷ ready (rests ∷ reads (3 ∷ []) ∷ [])
    ∷ []

-- The packets of the third channel carry its number, 2, though it is the second that is polled.
packets : all_packets channels polls ≡ (0, 1 ∷ []) ∷ (2, 2 ∷ []) ∷ (2, 3 ∷ []) ∷ []
unfolding all_packets packets_of
packets = refl

pub channels-AllByPcap : AllByPcap channels
channels-AllByPcap = (
  record { cap_type = refl; nf_cap = refl },
  (record { cap_type = refl; nf_cap = refl }, (record { cap_type = refl; nf_cap = refl }, tt)),
)

pub channels-AllDistinct : AllDistinct channels
channels-AllDistinct = ((refl, (refl, tt)), ((refl, tt), (tt, tt)))

pub polls-Polls : Polls channels polls
unfolding poll_set
polls-Polls = ((refl, (refl, tt)), (refl, ((refl, (refl, tt)), tt)))

test_module_loop-delivers_example :
    Returns
      (λ t. t.handled ≡ [] ++ all_packets channels polls)
      (test_module_loop channels polls capture)
test_module_loop-delivers_example =
    test_module_loop-delivers channels channels-AllByPcap channels-AllDistinct polls capture
      polls-Polls refl

-- Two packets of a card's channel.
abbrev card : Watched
card = record { info = channel (pos 5) nf2; pcap_handle = false; nf_cap = true; packet_len = 0 }

process_pcap_event-again_example :
    (process_pcap_event 1 card (reads (1 ∷ [])) capture
      ≡ ok (record (handle_pcap_event 1 (1 ∷ []) capture) { pe = freed }))
    × ((process_pcap_event 1 card
            (reads (2 ∷ []))
            (record (handle_pcap_event 1 (1 ∷ []) capture) { pe = freed })
          ≡ fault)
        × (process_pcap_event 1 card
              (reads (2 ∷ []))
              (record (handle_pcap_event 1 (1 ∷ []) capture) { pe = null })
            ≡ ok
                (record (handle_pcap_event 1
                  (2 ∷ [])
                  (record (handle_pcap_event 1 (1 ∷ []) capture) { pe = null })) { pe = freed })))
process_pcap_event-again_example =
    process_pcap_event-again 1 1 card card (reads (1 ∷ [])) (reads (2 ∷ [])) (1 ∷ []) (2 ∷ [])
      capture
      (record { not_pcap = refl; is_nf2 = refl; pollin = refl; pollout = refl; found = refl })
      (record { not_pcap = refl; is_nf2 = refl; pollin = refl; pollout = refl; found = refl }) refl
      (omega arith) (omega arith)
