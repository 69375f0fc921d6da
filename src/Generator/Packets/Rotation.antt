-- ===== src/Generator/Packets/Rotation.antt =====
-- The addresses, the numbers and the checksums of the packets that `send_pkt` sends.
use mathlib.Core.Path.{subst}
use oflops_turbo.Base.{
  ℕ, suc, ◌+◌, ◌-◌, ◌*◌, ◌/◌, ◌%◌, ◌^◌, ◌≤◌, ◌<◌, ◌≡◌, refl, sym, ap, ◌∙◌, inl, inr, Bool-cases,
  false, List, [], ◌∷◌, some, arith, ltb, ◌==◌, ok, ◌>>=◌, Returns, returns, Returns-bind,
}
use oflops_turbo.Base.Int.{pos}
use oflops_turbo.Time.{TimeVal, TimeSpec, add_timespec, to_uint32}
use oflops_turbo.Generator.Checksum.{ip_sum_calc, ip_sum_calc-verifies, total}
use oflops_turbo.Generator.Packets.{
  Parsers, Details, new_packet, read_mac_addr, innitialize_generator_packet, Packet, PktDetails,
  ip_words, set_check, next_flow, send_from,
}

-- The checksum of the header is right.
abbrev pub Verifies : Packet → Type 0
Verifies p = ip_sum_calc (ip_words p) 0 ≡ ok 0

-- The generator after `k` packets: its packet goes to the address in the given place of the range from
-- `ip_dest_min` to `ip_dest_max`, which has been gone through `turns` times.
pub record IsAt (k : ℕ) (st : PktDetails) (p : Packet) : Type 0 where
  pub here : st.packet ≡ some p
  pub ordered : st.ip_dest_min ≤ st.ip_dest_max
  pub bounded : st.ip_dest_max < 2 ^ 32
  pub turns : ℕ
  pub place : ℕ
  pub in_range : place < st.ip_dest_max - st.ip_dest_min + 1
  pub sent : k ≡ turns * (st.ip_dest_max - st.ip_dest_min + 1) + place
  pub daddr : p.daddr ≡ st.ip_dest_min + place
  pub seq_num : st.seq_num ≡ k % 2 ^ 32
  pub tot_len : p.tot_len < 65536
  pub check : Verifies p

set_check-Verifies :
    (p : Packet)
    → p.tot_len < 65536
    → (c : ℕ) × ((set_check p ≡ ok (record p { check = c })) × Verifies (record p { check = c }))
unfolding set_check ip_words total
set_check-Verifies p sized =
    let before = 17664 ∷ p.tot_len ∷ 0 ∷ 0 ∷ 25617 ∷ [] in
    let after =
      p.saddr / 65536 % 65536 ∷ p.saddr % 65536 ∷ p.daddr / 65536 % 65536 ∷ p.daddr % 65536 ∷ [] in
    let v =
      ip_sum_calc-verifies before after
        (omega arith, (sized, (omega arith, (omega arith, (omega arith, tt)))))
        (omega arith, (omega arith, (omega arith, (omega arith, tt)))) (omega arith)
        (omega arith) in
    (v.0, (rw v.1.1 refl, v.1.2))

-- The generator after the packet `p`.
abbrev after_sending : PktDetails → TimeSpec → Packet → PktDetails
after_sending st t p = record st {
  seq_num = (st.seq_num + 1) % 2 ^ 32;
  timestamp = t;
  packet = some p;
}

-- The last place is followed by the first.
IsAt-turn :
    (k : ℕ) (st : PktDetails) (p q : Packet) (t : TimeSpec)
    → IsAt k st p
    → p.daddr ≡ st.ip_dest_max
    → q.daddr ≡ st.ip_dest_min
    → q.tot_len < 65536
    → Verifies q
    → IsAt (suc k) (after_sending st t q) q
IsAt-turn k st p q t at last first sized right = record {
  here = refl;
  ordered = at.ordered;
  bounded = at.bounded;
  turns = at.turns + 1;
  place = 0;
  in_range = omega arith;
  sent = omega (arith, at.sent, last, at.daddr, at.ordered);
  daddr = omega (arith, first);
  seq_num = omega (arith, at.seq_num);
  tot_len = sized;
  check = right;
}

-- Another place is followed by the next.
IsAt-step :
    (k : ℕ) (st : PktDetails) (p q : Packet) (t : TimeSpec)
    → IsAt k st p
    → p.daddr < st.ip_dest_max
    → q.daddr ≡ p.daddr + 1
    → q.tot_len < 65536
    → Verifies q
    → IsAt (suc k) (after_sending st t q) q
IsAt-step k st p q t at inside next sized right = record {
  here = refl;
  ordered = at.ordered;
  bounded = at.bounded;
  turns = at.turns;
  place = at.place + 1;
  in_range = omega (arith, inside, at.daddr);
  sent = omega (arith, at.sent);
  daddr = omega (arith, next, at.daddr);
  seq_num = omega (arith, at.seq_num);
  tot_len = sized;
  check = right;
}

next_flow-IsAt :
    (k : ℕ) (st : PktDetails) (p q : Packet) (t : TimeSpec)
    → IsAt k st p
    → q.daddr ≡ p.daddr
    → q.tot_len ≡ p.tot_len
    → Verifies q
    → Returns
        (λ r. IsAt (suc k) (after_sending st t r) r × (r.seq_num ≡ q.seq_num))
        (next_flow st q)
unfolding next_flow
next_flow-IsAt k st p q t at same len right = elim (Bool-cases (st.ip_dest_min == st.ip_dest_max)) [
  | inl single ↦ rw single (
      returns (
        IsAt-turn k st p q t at (ground (arith, at.ordered, at.in_range, at.daddr))
            (ground (arith, same, at.in_range, at.daddr)) (omega (arith, len, at.tot_len)) right,
        refl,
      ))
  | inr range ↦ elim (Bool-cases (q.daddr == st.ip_dest_max)) [
    | inl last ↦
        let c =
          set_check-Verifies (record q { daddr = st.ip_dest_min })
            (omega (arith, len, at.tot_len)) in
        let run : next_flow st q ≡ ok (record q { daddr = st.ip_dest_min; check = c.0 }) =
          rw (next_flow, range, last) c.1.0 in
        subst (Returns _) (sym run) (
          returns (
            IsAt-turn k st p (record q { daddr = st.ip_dest_min; check = c.0 }) t at
                (ground (arith, at.daddr, same)) refl (omega (arith, len, at.tot_len)) c.1.1,
            refl,
          ))
    | inr inside ↦
        let small : q.daddr < st.ip_dest_max =
          ground (arith, at.daddr, at.in_range, same, at.ordered) in
        let sum : (q.daddr + 1) % 2 ^ 32 ≡ q.daddr + 1 = omega (arith, at.bounded) in
        let c =
          set_check-Verifies (record q { daddr = q.daddr + 1 }) (omega (arith, len, at.tot_len)) in
        let run : next_flow st q ≡ ok (record q { daddr = q.daddr + 1; check = c.0 }) =
          rw (next_flow, range, inside, sum) c.1.0 in
        subst (Returns _) (sym run) (
          returns (
            IsAt-step k st p (record q { daddr = q.daddr + 1; check = c.0 }) t at
                (omega (arith, same)) (ap (λ n. n + 1) same) (omega (arith, len, at.tot_len)) c.1.1,
            refl,
          ))
  ]
]

-- A generator whose range of addresses is in order has sent `k` packets. The next call of `send_pkt`
-- sends a packet with the number `k`, whose header checksum is right, and which goes to the address
-- after that of the packet before, or to the first one after the last one: the range is gone through
-- in order, again and again.
pub send_from-IsAt :
    (k delay : ℕ) (now : TimeVal) (st : PktDetails) (p : Packet)
    → IsAt k st p
    → Returns (λ r. IsAt (suc k) r.1 r.0 × (r.0.seq_num ≡ k % 2 ^ 32)) (send_from delay now st)
unfolding send_from ip_words next_flow
send_from-IsAt k delay now st p at =
    let t = add_timespec st.timestamp (pos 0) (pos delay) in
    let q = record p {
      seq_num = st.seq_num;
      tv_sec = to_uint32 now.tv_sec;
      tv_usec = to_uint32 now.tv_usec;
    } in
    let flow = next_flow-IsAt k st p q t at refl refl at.check in
    subst (Returns _) (sym (sends at.here))
      (Returns-bind flow λ r f. returns (f.0, f.1 ∙ at.seq_num))
  where
    sends :
        st.packet ≡ some p
        → send_from delay now st ≡ (
            next_flow st (record p {
              seq_num = st.seq_num;
              tv_sec = to_uint32 now.tv_sec;
              tv_usec = to_uint32 now.tv_usec;
            })
            >>= λ q. ok (q, after_sending st (add_timespec st.timestamp (pos 0) (pos delay)) q))
    sends here = rw (send_from, here) refl

-- A new generator of the user space is at the start of its range: with at least 58 bytes, two addresses
-- of hardware that can be read, and a range of addresses in order, `innitialize_generator_packet` builds a
-- packet to the first address with a right checksum, and has sent nothing.
pub innitialize_generator_packet-IsAt :
    (parsers : Parsers) (state : PktDetails) (det : Details) (dhost shost : List ℕ)
    → state.seq_num ≡ 0
    → 58 ≤ det.pkt_size
    → read_mac_addr parsers.strtol det.mac_dst ≡ ok dhost
    → read_mac_addr parsers.strtol det.mac_src ≡ ok shost
    → parsers.inet_addr det.dst_ip_min ≤ parsers.inet_addr det.dst_ip_max
    → parsers.inet_addr det.dst_ip_max < 2 ^ 32
    → Returns
        (λ st. (p : Packet) × (IsAt 0 st p × (p.daddr ≡ st.ip_dest_min)))
        (innitialize_generator_packet parsers state det)
unfolding innitialize_generator_packet new_packet
innitialize_generator_packet-IsAt parsers state det dhost shost fresh sized dst src ordered
      bounded =
    let long : ltb det.pkt_size 58 ≡ false = ground arith in
    let c = set_check-Verifies (new_packet parsers det dhost shost) (omega arith) in
    rw (long, dst, src, c.1.0)
      (returns (
        record (new_packet parsers det dhost shost) { check = c.0 },
        (
          record {
            here = refl;
            ordered = ordered;
            bounded = bounded;
            turns = 0;
            place = 0;
            in_range = omega arith;
            sent = omega arith;
            daddr = omega arith;
            seq_num = fresh ∙ omega arith;
            tot_len = omega arith;
            check = c.1.1;
          },
          refl,
        ),
      ))
