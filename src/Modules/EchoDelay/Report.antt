-- ===== src/Modules/EchoDelay/Report.antt =====
-- What `destroy` reports of the packets that were captured.
use oflops_turbo.Base.{
  ℕ, zero, suc, ◌+◌, ◌^◌, ◌≤◌, ◌<◌, ◌≡◌, refl, ap, ◌∙◌, Bool, true, false, List, [], ◌∷◌, arith,
  ltb, ◌==◌, if◌then◌else◌, ok, ◌>>=◌, Returns, returns, Returns-bind, Returns-map, Returns-value,
}
use oflops_turbo.Base.Int.{pos, ◌+ℤ◌, ltb_ℤ}
use oflops_turbo.Base.Memory.{slice}
use oflops_turbo.Time.{TimeVal, time_diff}
use oflops_turbo.Time.Arith.{micros, time_diff_exact}
use oflops_turbo.Modules.EchoDelay.{
  EchoTest, EchoEntry, max_entries, entry, measured, collect_delays, destroy,
}
use oflops_turbo.Modules.EchoDelay.Frame.{EchoPacket, handle_pcap_event-frame_bytes, at-length}
use oflops_turbo.Modules.EchoDelay.Capture.{
  captures, last_ts, known_count, is_known, AllFramed, IsFiled, if_same, file_echo-IsFiled,
}

module _ (s s' : EchoTest) (same : s'.trans_id ≡ s.trans_id) where
  is_known_same : (i : ℕ) → is_known s' i ≡ is_known s i
  is_known_same i = rw same refl

  known_count_same :
      (type : ℕ) (ps : List EchoPacket) → known_count type s' ps ≡ known_count type s ps
  known_count_same type [] = refl
  known_count_same type (p ∷ ps) = rw same (ap (◌+◌ _) (known_count_same type ps))

-- For a field, one packet and then others.
last_ts-step :
    (known known' : Bool) (type i : ℕ) (p : EchoPacket) (ps : List EchoPacket) (t v w : TimeVal)
    → known' ≡ known
    → v ≡ (if known then last_ts type i (p ∷ []) t else t)
    → w ≡ (if known' then last_ts type i ps v else v)
    → w ≡ (if known then last_ts type i (p ∷ ps) t else t)
last_ts-step true known' type i p ps t v w k e h = h ∙ rw (k, e) refl
last_ts-step false known' type i p ps t v w k e h = h ∙ rw (k, e) refl

module _ (of_request of_reply : ℕ) (distinct : (of_request == of_reply) ≡ false) where
  IsFiled-step :
      (p : EchoPacket) (ps : List EchoPacket) (s s1 s2 : EchoTest)
      → IsFiled of_request of_reply (p ∷ []) s s1
      → IsFiled of_request of_reply ps s1 s2
      → IsFiled of_request of_reply (p ∷ ps) s s2
  IsFiled-step p ps s s1 s2 f g = record {
    next_id = g.next_id ∙ f.next_id;
    counted = omega (arith, f.counted, g.counted, known_count_same s s1 f.next_id of_request ps);
    sent = λ i.
        last_ts-step (is_known s i) (is_known s1 i) of_request i p ps _ _ _
          (is_known_same s s1 f.next_id i) (f.sent i) (g.sent i);
    received = λ i.
        last_ts-step (is_known s i) (is_known s1 i) of_reply i p ps _ _ _
          (is_known_same s s1 f.next_id i) (f.received i) (g.received i);
  }

  -- Packets whose headers are complete, on the control channel, while the next id is inside `echo_data`.
  pub captures-IsFiled :
      (ps : List EchoPacket) (s : EchoTest)
      → AllFramed ps
      → s.trans_id < max_entries
      → Returns (IsFiled of_request of_reply ps s) (captures of_request of_reply ps s)
  unfolding captures
  captures-IsFiled [] s h few = returns (record {
    next_id = refl;
    counted = omega arith;
    sent = λ i. if_same (is_known s i) (s.echo_data i).snd;
    received = λ i. if_same (is_known s i) (s.echo_data i).rcv;
  })
  captures-IsFiled (p ∷ ps) s h few =
      rw (handle_pcap_event-frame_bytes p h.0 of_request of_reply _ s (at-length p h.0)) (
        Returns-bind (file_echo-IsFiled of_request of_reply distinct p s few) λ s1 f.
          Returns-map (captures-IsFiled ps s1 h.1 (omega (arith, f.next_id)))
            λ s2 g. IsFiled-step p ps s s1 s2 f g)

-- The loop of `destroy` over entries that are all complete.
collect_delays-measured :
    (delay : ℕ → ℕ) (n i : ℕ) (d : ℕ → EchoEntry)
    → i + n ≤ max_entries
    → ((j : ℕ)
        → i ≤ j
        → j < i + n
        → (measured (d j) ≡ true) × (time_diff (d j).snd (d j).rcv ≡ delay j))
    → collect_delays n i d ≡ ok (slice delay i n, 0)
unfolding collect_delays slice entry
collect_delays-measured delay zero i d room h = refl
collect_delays-measured delay (suc n) i d room h =
    let inside : ltb i max_entries ≡ true = ground arith in
    let here = h i (omega arith) (omega arith) in
    let next : i + 1 ≡ suc i = omega arith in
    rw
      (
        inside,
        next,
        collect_delays-measured delay n (suc i) d (omega arith)
            (λ j lo hi. h j (omega arith) (omega arith)),
        here.0,
        here.1,
      )
      refl

-- The times of the last request and of the last reply with the id `i`.
abbrev pub request_ts : ℕ → List EchoPacket → EchoTest → ℕ → TimeVal
request_ts of_request ps s i = last_ts of_request i ps (s.echo_data i).snd

abbrev pub reply_ts : ℕ → List EchoPacket → EchoTest → ℕ → TimeVal
reply_ts of_reply ps s i = last_ts of_reply i ps (s.echo_data i).rcv

-- They lie after the epoch, and `delay` microseconds apart.
pub record IsAnswered (request reply : TimeVal) (delay : ℕ) : Type 0 where
  pub seen : ltb_ℤ (pos 0) request.tv_sec ≡ true
  pub answered : ltb_ℤ (pos 0) reply.tv_sec ≡ true
  pub apart : micros reply ≡ micros request +ℤ pos delay
  pub short : delay < 2 ^ 32

answered_entry :
    (e : EchoEntry) (delay : ℕ)
    → IsAnswered e.snd e.rcv delay
    → (measured e ≡ true) × (time_diff e.snd e.rcv ≡ delay)
unfolding measured
answered_entry e delay a =
    (rw (a.seen, a.answered) refl, time_diff_exact e.snd e.rcv delay a.apart a.short)

-- The module has sent `n` requests, and the array has room for their ids. The packets that are then
-- captured on the control channel are complete; among them are `n` echo requests with ids that the
-- module knows, and for each id from 1 to `n` the last request and the last reply lie a delay apart that fits
-- in 32 bits. Then `handle_pcap_event` returns for all of them, and `destroy` computes its statistics
-- from exactly these delays, in the order of the ids, and counts none as lost.
pub captures-destroy :
    (of_request of_reply n : ℕ) (ps : List EchoPacket) (s : EchoTest) (delay : ℕ → ℕ)
    → (of_request == of_reply) ≡ false
    → AllFramed ps
    → s.trans_id ≡ suc n
    → suc n < max_entries
    → s.echo_data_count ≡ 0
    → known_count of_request s ps ≡ n
    → ((i : ℕ)
        → 1 ≤ i
        → i ≤ n
        → IsAnswered (request_ts of_request ps s i) (reply_ts of_reply ps s i) (delay i))
    → (captures of_request of_reply ps s >>= destroy) ≡ ok (slice delay 1 n, 0)
unfolding destroy
captures-destroy of_request of_reply n ps s delay distinct framed next_id room zero_ as_many
      answers =
    let (s', done, f) =
      Returns-value
        (captures-IsFiled of_request of_reply distinct ps s framed (omega (arith, next_id))) in
    let counted : s'.echo_data_count ≡ n = omega (arith, f.counted) in
    let complete : (j : ℕ)
        → 1 ≤ j
        → j < 1 + n
        → (measured (s'.echo_data j) ≡ true)
          × (time_diff (s'.echo_data j).snd (s'.echo_data j).rcv ≡ delay j) =
      λ j lo hi.
        let known : is_known s j ≡ true = ground arith in
        let sent : (s'.echo_data j).snd ≡ request_ts of_request ps s j = f.sent j ∙ rw known refl in
        let received : (s'.echo_data j).rcv ≡ reply_ts of_reply ps s j =
          f.received j ∙ rw known refl in
        answered_entry (s'.echo_data j) (delay j)
          (rw (sent, received) (answers j lo (omega arith))) in
    rw (done, counted) (collect_delays-measured delay n 1 s'.echo_data (omega arith) complete)
