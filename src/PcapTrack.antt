-- ===== src/PcapTrack.antt =====
-- pcap_track.c: a ring of the OpenFlow messages seen in captured packets, with their pcap headers.
-- A `struct pcap_pkthdr` is only copied, so it is any type. The functions that change the tracker
-- return the new one. A captured packet is the list of its bytes; reading past its end is a fault.
-- `malloc_and_check` does not return on failure, so its result is the copy that it is made for.
pub mod Add
pub mod Lookup
mod Tests
use oflops_turbo.Base.{
  ℕ, zero, suc, ◌+◌, ◌-◌, ◌*◌, ◌/◌, ◌%◌, ◌^◌, Bool, true, false, ◌&&◌, ◌||◌, not, List, [], ◌∷◌,
  Option, none, some, ltb, leb, ◌==◌, if◌then◌else◌, length, get_elem?, take, drop, Run, ok, fault,
  out_of_fuel, ◌>>=◌,
}
use oflops_turbo.Base.Int.{ℤ, pos, negsuc, sub_ℕ}
use oflops_turbo.Base.Memory.{update}

abbrev pub Bytes : Type 0
Bytes = List ℕ

-- PTRACK_MAX_LEN
abbrev pub max_len : ℕ
max_len = 256

-- INT_MAX
abbrev pub int_max : ℕ
int_max = 2 ^ 31 - 1

-- The byte at an index, and the big-endian number in two bytes.
pub byte_at : Bytes → ℕ → Run ℕ
byte_at xs i = elim (get_elem? xs i) [ some b ↦ ok b | none ↦ fault ]

pub short_at : Bytes → ℕ → Run ℕ
short_at xs i = do high ← byte_at xs i; low ← byte_at xs (i + 1); ok (high * 256 + low)

-- The IP and TCP headers of `tcp_payload_offset`, the first from `offset` on.
transport_offset : Bytes → ℕ → Run ℕ
transport_offset xs offset = if leb (length xs) offset then ok int_max else (do
  protocol ← byte_at xs (offset + 9)
  if not (protocol == 6) then ok int_max else (do
    version_ihl ← byte_at xs offset
    let tcp = offset + version_ihl % 16 * 4
    doff ← byte_at xs (tcp + 12)
    ok (tcp + doff / 16 * 4)))

-- `tcp_payload_offset`: an Ethernet header, perhaps with a VLAN tag, then IP and TCP.
pub tcp_payload_offset : Bytes → Run ℕ
unfolding transport_offset
tcp_payload_offset xs = do
  outer ← short_at xs 12
  let offset = if outer == 0x8100 then 4 else 0
  if leb (length xs) offset then ok int_max else (do
    inner ← short_at xs (offset + 12)
    if inner == 0x0800 then transport_offset xs (offset + 14) else ok int_max)

-- `struct ptrack_entry`; no data is [].
pub record Entry (Header : Type 0) : Type 0 where
  pub bytes : Bytes
  pub len : ℕ
  pub hdr : Header

-- `struct ptrack_list`
pub record Tracker (Header : Type 0) : Type 0 where
  pub entries : ℕ → Entry Header
  pub count : ℕ
  pub head : ℕ

-- `memcmp(xs, ys, n) == 0`
pub same_bytes : ℕ → Bytes → Bytes → Bool
same_bytes zero xs ys = true
same_bytes (suc n) (x ∷ xs) (y ∷ ys) = (x == y) && same_bytes n xs ys
same_bytes (suc n) xs ys = false

module _ {Header : Type 0} where
  -- `ptrack_new`; `zeroed` is the header of zero bytes.
  pub ptrack_new : Header → Tracker Header
  ptrack_new zeroed = record {
    entries = λ _. record { bytes = []; len = 0; hdr = zeroed };
    count = 0;
    head = 0;
  }

  -- The body of the loop of `ptrack_add_of_entry`: one message goes to slot `head`.
  pub add_entry : Tracker Header → Bytes → Header → Tracker Header
  add_entry t message hdr = record {
    entries = update t.entries t.head (record { bytes = message; len = length message; hdr = hdr });
    head = if leb max_len (t.head + 1) then 0 else t.head + 1;
    count = if ltb t.count max_len then t.count + 1 else t.count;
  }

  -- The loop, on the bytes that are left: the tracker and `add_count`.
  pub add_loop : ℕ → Tracker Header → Bytes → Header → ℕ → Run (ℕ × Tracker Header)
  add_loop zero t rest hdr add_count = out_of_fuel
  add_loop (suc k) t rest hdr add_count =
      let body : Run (ℕ × Tracker Header) = do
        add_len ← short_at rest 2
        let more =
            add_loop k (add_entry t (take add_len rest) hdr) (drop add_len rest) hdr (add_count + 1)
        if ltb (length rest) add_len then ok (add_count, t) else more
      in if ltb 0 (length rest) then body else ok (add_count, t)

  pub ptrack_add_of_entry : Tracker Header → Bytes → Header → Run (ℕ × Tracker Header)
  ptrack_add_of_entry t xs hdr = do
    offset ← tcp_payload_offset xs
    if leb (length xs) offset then ok (0, t) else add_loop (length xs + 1) t (drop offset xs) hdr 0

  -- The slot that a round of `ptrack_lookup` and `ptrack_free` looks at: `head - 1 - count`, and
  -- PTRACK_MAX_LEN more where that is negative; still negative, it is outside of the array.
  pub slot_of : Tracker Header → Run ℕ
  slot_of t = elim (sub_ℕ t.head (1 + t.count)) [
    | pos i ↦ ok i
    | negsuc n ↦ elim (sub_ℕ max_len (n + 1)) [ pos i ↦ ok i | negsuc _ ↦ fault ]
  ]

  -- The tracker after a match.
  pub forget : Tracker Header → Tracker Header
  forget t = record t {
    head = if t.head == 0 then max_len - 1 else t.head - 1;
    count = t.count - 1;
  }

  -- The loop of `ptrack_lookup`, with the number of rounds left.
  pub lookup_loop : ℕ → Tracker Header → Bytes → Run (Option Header × Tracker Header)
  lookup_loop zero t xs = ok (none, t)
  lookup_loop (suc n) t xs = do
    idx ← slot_of t
    let ent = t.entries idx
    let rest = lookup_loop n t xs
    if leb (length xs) ent.len && same_bytes (length xs) xs ent.bytes
        then ok (some ent.hdr, forget t)
        else rest

  -- `ptrack_lookup`: the header that is written to `*hdr` where the result is 1.
  pub ptrack_lookup : Tracker Header → Bytes → Run (Option Header × Tracker Header)
  ptrack_lookup t xs = lookup_loop t.count t xs

  -- `ptrack_free`: the slots whose data are freed, in order.
  pub freed : ℕ → Tracker Header → Run (List ℕ)
  freed zero t = ok []
  freed (suc n) t = do idx ← slot_of t; rest ← freed n t; ok (idx ∷ rest)

  pub ptrack_free : Tracker Header → Run (List ℕ)
  ptrack_free t = freed t.count t
