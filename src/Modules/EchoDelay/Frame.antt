-- ===== src/Modules/EchoDelay/Frame.antt =====
-- What `handle_pcap_event` reads of a captured packet that carries an OpenFlow message.
use oflops_turbo.Base.{
  ℕ, zero, suc, ◌+◌, ◌*◌, ◌/◌, ◌%◌, ◌≤◌, ◌≡◌, refl, ◌∙◌, inl, inr, Bool-cases, true, false, [], ◌∷◌,
  ◌++◌, arith, ltb, ◌==◌, length, length-append, get_elem?, ok,
}
use oflops_turbo.Time.{TimeVal}
use oflops_turbo.MsgBuf.{Bytes}
use oflops_turbo.Msg.Probe.{byte_of, short_of}
use oflops_turbo.Generator.Extract.{long_of}
use oflops_turbo.Modules.EchoDelay.{EchoTest, file_echo, handle_pcap_event}

-- A packet: the Ethernet header, the IP header with its first byte, the TCP header with its byte 12, and an
-- OpenFlow header with what follows it.
pub record EchoPacket : Type 0 where
  pub ether : Bytes
  pub ip_first : ℕ
  pub ip_rest : Bytes
  pub tcp_front : Bytes
  pub tcp_offset : ℕ
  pub tcp_rest : Bytes
  pub version : ℕ
  pub type : ℕ
  pub len_high : ℕ
  pub len_low : ℕ
  pub xid0 : ℕ
  pub xid1 : ℕ
  pub xid2 : ℕ
  pub xid3 : ℕ
  pub payload : Bytes
  pub ts : TimeVal

abbrev pub message_bytes : EchoPacket → Bytes
message_bytes p =
    p.version ∷ p.type ∷ p.len_high ∷ p.len_low ∷ p.xid0 ∷ p.xid1 ∷ p.xid2 ∷ p.xid3 ∷ p.payload

abbrev pub frame_bytes : EchoPacket → Bytes
frame_bytes p =
    p.ether
    ++ ((p.ip_first ∷ p.ip_rest)
        ++ (p.tcp_front ++ ((p.tcp_offset ∷ p.tcp_rest) ++ message_bytes p)))

-- The transaction id, in host order.
abbrev pub xid_of : EchoPacket → ℕ
xid_of p = 65536 * (256 * p.xid0 + p.xid1) + (256 * p.xid2 + p.xid3)

-- The headers are as long as they say.
pub record IsFramed (p : EchoPacket) : Type 0 where
  pub ether_length : length p.ether ≡ 14
  pub ip_length : suc (length p.ip_rest) ≡ 4 * (p.ip_first % 16)
  pub front_length : length p.tcp_front ≡ 12
  pub tcp_length : 13 + length p.tcp_rest ≡ 4 * (p.tcp_offset / 16)

get_elem?-skip :
    (xs ys : Bytes) (n i : ℕ) → n ≡ length xs + i → get_elem? (xs ++ ys) n ≡ get_elem? ys i
get_elem?-skip [] ys n i e = let here : n ≡ i = omega arith in rw here refl
get_elem?-skip (x ∷ xs) ys zero i e = absurd (omega arith)
get_elem?-skip (x ∷ xs) ys (suc n) i e = get_elem?-skip xs ys n i (omega arith)

byte_of-skip : (xs ys : Bytes) (n i : ℕ) → n ≡ length xs + i → byte_of (xs ++ ys) n ≡ byte_of ys i
unfolding byte_of
byte_of-skip xs ys n i e = rw (byte_of, get_elem?-skip xs ys n i e) refl

module _ (p : EchoPacket) (f : IsFramed p) where
  -- Where the message starts.
  abbrev at : ℕ
  at = 14 + 4 * (p.ip_first % 16) + 4 * (p.tcp_offset / 16)

  frame_ihl : byte_of (frame_bytes p) 14 ≡ ok p.ip_first
  unfolding byte_of
  frame_ihl = byte_of-skip p.ether _ 14 0 (omega (arith, f.ether_length))

  -- Past the Ethernet header and the IP header.
  frame_tcp :
      (n i : ℕ)
      → n ≡ 14 + 4 * (p.ip_first % 16) + i
      → byte_of (frame_bytes p) n
        ≡ byte_of (p.tcp_front ++ ((p.tcp_offset ∷ p.tcp_rest) ++ message_bytes p)) i
  frame_tcp n i e =
      byte_of-skip p.ether _ n (suc (length p.ip_rest) + i)
        (omega (arith, f.ether_length, f.ip_length))
      ∙ byte_of-skip (p.ip_first ∷ p.ip_rest) _ (suc (length p.ip_rest) + i) i refl

  frame_doff : byte_of (frame_bytes p) (14 + 4 * (p.ip_first % 16) + 12) ≡ ok p.tcp_offset
  unfolding byte_of
  frame_doff = frame_tcp _ 12 refl ∙ byte_of-skip p.tcp_front _ 12 0 (omega (arith, f.front_length))

  frame_message : (n i : ℕ) → n ≡ at + i → byte_of (frame_bytes p) n ≡ byte_of (message_bytes p) i
  frame_message n i e =
      frame_tcp n (12 + (suc (length p.tcp_rest) + i)) (omega (arith, f.tcp_length))
      ∙ byte_of-skip p.tcp_front _ _ (suc (length p.tcp_rest) + i) (omega (arith, f.front_length))
      ∙ byte_of-skip (p.tcp_offset ∷ p.tcp_rest) (message_bytes p) _ i refl

  frame_type : byte_of (frame_bytes p) (at + 1) ≡ ok p.type
  unfolding byte_of
  frame_type = frame_message (at + 1) 1 refl

  frame_xid : long_of (frame_bytes p) (at + 4) ≡ ok (xid_of p)
  unfolding long_of short_of byte_of
  frame_xid =
      rw
        (
          frame_message (at + 4) 4 refl,
          frame_message (at + 4 + 1) 5 (omega arith),
          frame_message (at + 4 + 2) 6 (omega arith),
          frame_message (at + 4 + 2 + 1) 7 (omega arith),
        )
        refl

  -- A packet on the control channel whose headers were captured: the switch sees the type and the id of
  -- its OpenFlow message.
  pub handle_pcap_event-frame_bytes :
      (of_request of_reply caplen : ℕ) (s : EchoTest)
      → at ≤ caplen
      → handle_pcap_event of_request of_reply true (frame_bytes p) caplen p.ts s
        ≡ file_echo of_request of_reply p.type (xid_of p) p.ts s
  unfolding handle_pcap_event file_echo
  handle_pcap_event-frame_bytes of_request of_reply caplen s h =
      let ip_there : ltb caplen (14 + 4 * (p.ip_first % 16)) ≡ false = ground arith in
      let tcp_there : ltb caplen at ≡ false = ground arith in
      rw (frame_ihl, ip_there, frame_doff, tcp_there, frame_type, frame_xid)
        (elim (Bool-cases (p.type == of_request)) [
          | inl e ↦ rw e refl
          | inr e ↦ elim (Bool-cases (p.type == of_reply)) [
            | inl k ↦ rw (e, k) refl
            | inr k ↦ rw (e, k) refl
          ]
        ])

  pub at-length : at ≤ length (frame_bytes p)
  at-length = omega (
    arith,
    length-append p.ether (
        (p.ip_first ∷ p.ip_rest)
        ++ (p.tcp_front ++ ((p.tcp_offset ∷ p.tcp_rest) ++ message_bytes p))),
    length-append p.ip_rest (p.tcp_front ++ ((p.tcp_offset ∷ p.tcp_rest) ++ message_bytes p)),
    length-append p.tcp_front ((p.tcp_offset ∷ p.tcp_rest) ++ message_bytes p),
    length-append p.tcp_rest (message_bytes p),
    f.ether_length,
    f.ip_length,
    f.front_length,
    f.tcp_length,
  )
