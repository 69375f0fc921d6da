-- ===== src/ModuleRun/Channels.antt =====
-- Channels that capture with libpcap, what `poll` reports of them, and which packets that are.
use mathlib.Core.Option.{some-injective, none-ne-some}
use oflops_turbo.Base.{
  ℕ, zero, suc, ◌+◌, ◌≡◌, sym, ap, ◌∙◌, true, false, ◌&&◌, List, [], ◌∷◌, ◌++◌, some, arith,
  if◌then◌else◌, length, drop, get_elem?,
}
use oflops_turbo.Base.Int.{ℤ, eqb_ℤ}
use oflops_turbo.MsgBuf.{Bytes}
use oflops_turbo.Setup.{pcap}
use oflops_turbo.ModuleRun.{
  Watched, Found, nothing, failed, packet, Revents, PollResult, poll_failed, timeout, ready,
  channel_of, poll_set,
}

-- The channel captures with libpcap, if it captures at all.
pub record ByPcap (c : Watched) : Type 0 where
  pub cap_type : eqb_ℤ c.info.cap_type pcap ≡ true
  pub nf_cap : c.nf_cap ≡ false

abbrev pub AllByPcap : List Watched → Type 0
AllByPcap [] = Unit
AllByPcap (c ∷ cs) = ByPcap c × AllByPcap cs

-- No channel that captures has the descriptor.
abbrev pub Unused : ℤ → List Watched → Type 0
Unused fd [] = Unit
Unused fd (c ∷ cs) = ((c.pcap_handle && eqb_ℤ c.info.pcap_fd fd) ≡ false) × Unused fd cs

-- No channel has the descriptor of a capturing channel after it.
abbrev pub AllDistinct : List Watched → Type 0
AllDistinct [] = Unit
AllDistinct (c ∷ cs) = Unused c.info.pcap_fd cs × AllDistinct cs

-- Only packets to read are reported, one answer for each of the polled descriptors.
abbrev pub AnswersAll : ℕ → List Revents → Type 0
AnswersAll zero rs = Unit
AnswersAll (suc n) [] = ⊥
AnswersAll (suc n) (r ∷ rs) = (r.pollout ≡ false) × AnswersAll n rs

-- `poll` answers so, or not at all.
abbrev pub Polls : List Watched → List PollResult → Type 0
Polls cs [] = Unit
Polls cs (poll_failed interrupted ∷ ps) = (interrupted ≡ true) × Polls cs ps
Polls cs (timeout ∷ ps) = Polls cs ps
Polls cs (ready rs ∷ ps) = AnswersAll (length (poll_set cs)) rs × Polls cs ps

-- The packet that a channel reads.
abbrev pub found_in : ℕ → Found → List (ℕ × Bytes)
found_in ch nothing = []
found_in ch failed = []
found_in ch (packet xs) = (ch, xs) ∷ []

abbrev pub read_from : ℕ → Revents → List (ℕ × Bytes)
read_from ch r = if r.pollin then found_in ch r.found else []

abbrev pub read_first : ℕ → List Revents → List (ℕ × Bytes)
read_first ch [] = []
read_first ch (r ∷ rs) = read_from ch r

-- The packets of a round with the numbers of their channels, from channel `ch` on: the answers belong
-- to the channels that capture, in order.
unfoldable pub packets_of : ℕ → List Watched → List Revents → List (ℕ × Bytes)
packets_of ch [] rs = []
packets_of ch (c ∷ cs) rs =
    let here = read_first ch rs ++ packets_of (ch + 1) cs (drop 1 rs) in
    let next = packets_of (ch + 1) cs rs in if c.pcap_handle then here else next

unfoldable pub all_packets : List Watched → List PollResult → List (ℕ × Bytes)
all_packets cs [] = []
all_packets cs (poll_failed interrupted ∷ ps) = all_packets cs ps
all_packets cs (timeout ∷ ps) = all_packets cs ps
all_packets cs (ready rs ∷ ps) = packets_of 0 cs rs ++ all_packets cs ps

eqb_ℤ-refl : (a : ℤ) → eqb_ℤ a a ≡ true
eqb_ℤ-refl a = ground arith

-- A descriptor that no capturing channel has is not that of the channel in place `i`.
Unused-get_elem :
    (fd : ℤ) (cs : List Watched) (i : ℕ) (d : Watched)
    → Unused fd cs
    → get_elem? cs i ≡ some d
    → d.pcap_handle ≡ true
    → eqb_ℤ d.info.pcap_fd fd ≡ false
Unused-get_elem fd [] i d u at h = absurd (none-ne-some d at)
Unused-get_elem fd (c ∷ cs) zero d u at h =
    let e : c ≡ d = some-injective c d at in
    sym (ap (λ b. b && eqb_ℤ d.info.pcap_fd fd) h)
    ∙ sym (ap (λ (x : Watched). x.pcap_handle && eqb_ℤ x.info.pcap_fd fd) e)
    ∙ u.0
Unused-get_elem fd (c ∷ cs) (suc i) d u at h = Unused-get_elem fd cs i d u.1 at h

-- The descriptor of a capturing channel leads back to the channel.
pub channel_of-get_elem :
    (cs : List Watched) (i ch : ℕ) (d : Watched)
    → AllDistinct cs
    → get_elem? cs i ≡ some d
    → d.pcap_handle ≡ true
    → channel_of d.info.pcap_fd cs ch ≡ some (ch + i, d)
unfolding channel_of
channel_of-get_elem [] i ch d u at h = absurd (none-ne-some d at)
channel_of-get_elem (c ∷ cs) zero ch d u at h =
    let e : c ≡ d = some-injective c d at in
    let same : eqb_ℤ d.info.pcap_fd c.info.pcap_fd ≡ true =
      ap (λ (x : Watched). eqb_ℤ d.info.pcap_fd x.info.pcap_fd) e ∙ eqb_ℤ-refl d.info.pcap_fd in
    let place : ch ≡ ch + 0 = omega arith in rw same (λ k. some (place k, e k))
channel_of-get_elem (c ∷ cs) (suc i) ch d u at h =
    let other : eqb_ℤ d.info.pcap_fd c.info.pcap_fd ≡ false =
      Unused-get_elem c.info.pcap_fd cs i d u.0 at h in
    let place : ch + 1 + i ≡ ch + suc i = omega arith in
    rw other (channel_of-get_elem cs i (ch + 1) d u.1 at h ∙ ap (λ n. some (n, d)) place)
