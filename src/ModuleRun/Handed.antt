-- ===== src/ModuleRun/Handed.antt =====
-- What each step of `test_module_loop` adds to the packets that were handed to the test module.
use mathlib.Core.Path.{subst}
use mathlib.Core.List.{append_assoc, append-nil}
use oflops_turbo.Base.{
  Bool, ℕ, suc, ◌+◌, ◌≡◌, refl, sym, ap, ◌∙◌, inl, inr, Bool-cases, true, false, ◌&&◌, ◌||◌, List,
  [], ◌∷◌, ◌++◌, some, arith, ◌==◌, if◌then◌else◌, length, drop, get_elem?, ok, ◌>>=◌, Returns,
  returns, Returns-bind, Returns-map,
}
use oflops_turbo.Base.Int.{ℤ}
use oflops_turbo.MsgBuf.{Bytes}
use oflops_turbo.ModuleRun.{
  Watched, Capture, Found, nothing, failed, packet, Revents, PollResult, poll_failed, timeout,
  ready, handle_pcap_event, flush, pcap_packet, process_pcap_event, channel_of, process_event,
  poll_set, process_ready, poll_round, test_module_loop,
}
use oflops_turbo.ModuleRun.Channels.{
  ByPcap, AllByPcap, AllDistinct, AnswersAll, Polls, found_in, read_from, read_first, packets_of,
  all_packets, channel_of-get_elem,
}

module _ (live : Bool) where
  -- The packets that are handed over, if the test has started.
  abbrev pub keep : List (ℕ × Bytes) → List (ℕ × Bytes)
  keep new = if live then new else []

  -- What a call has handed over: the thread goes on as before, with `new` packets more, if the test has
  -- started.
  pub record Adds (old new : List (ℕ × Bytes)) (s : Capture) : Type 0 where
    pub started : s.started ≡ live
    pub handled : s.handled ≡ old ++ keep new

  keep_nothing : [] ≡ keep []
  keep_nothing = elim (Bool-cases live) [ inl runs ↦ rw runs refl | inr waits ↦ rw waits refl ]

  pub Adds-nothing : (s : Capture) → s.started ≡ live → Adds s.handled [] s
  Adds-nothing s on = record {
    started = on;
    handled = sym (append-nil s.handled) ∙ ap (λ l. s.handled ++ l) keep_nothing;
  }

  handle_pcap_event-Adds :
      (ch : ℕ) (xs : Bytes) (s : Capture)
      → s.started ≡ live
      → Adds s.handled ((ch, xs) ∷ []) (handle_pcap_event ch xs s)
  unfolding handle_pcap_event
  handle_pcap_event-Adds ch xs s on = elim (Bool-cases live) [
    | inl runs ↦ record { started = rw (on, runs) refl; handled = rw (on, runs) refl }
    | inr waits ↦ record {
      started = rw (on, waits) refl;
      handled = rw (on, waits) (sym (append-nil s.handled));
    }
  ]

  pcap_packet-Adds :
      (ch : ℕ) (c : Watched) (found : Found) (s : Capture)
      → c.pcap_handle ≡ true
      → s.started ≡ live
      → Returns (Adds s.handled (found_in ch found)) (pcap_packet ch c found s)
  unfolding pcap_packet
  pcap_packet-Adds ch c nothing s h on = rw h (returns (Adds-nothing s on))
  pcap_packet-Adds ch c failed s h on = rw h (returns (Adds-nothing s on))
  pcap_packet-Adds ch c (packet xs) s h on =
      elim (Bool-cases ((ch == 0) && (c.pcap_handle && s.dump_controller))) [
        | inl dumps ↦
            rw (dumps, h)
              (returns
                (handle_pcap_event-Adds ch xs (record s { dumped = s.dumped ++ (xs ∷ []) }) on))
        | inr quiet ↦ rw (quiet, h) (returns (handle_pcap_event-Adds ch xs s on))
      ]

  process_pcap_event-Adds :
      (ch : ℕ) (c : Watched) (r : Revents) (s : Capture)
      → ByPcap c
      → c.pcap_handle ≡ true
      → r.pollout ≡ false
      → s.started ≡ live
      → Returns (Adds s.handled (read_from ch r)) (process_pcap_event ch c r s)
  unfolding process_pcap_event flush
  process_pcap_event-Adds ch c r s by h out on = elim (Bool-cases r.pollin) [
    | inl reads ↦ rw (out, reads, by.cap_type) (pcap_packet-Adds ch c r.found s h on)
    | inr quiet ↦ rw (out, quiet) (returns (Adds-nothing s on))
  ]

  keep-append : (xs ys : List (ℕ × Bytes)) → keep xs ++ keep ys ≡ keep (xs ++ ys)
  keep-append xs ys = elim (Bool-cases live) [ inl runs ↦ rw runs refl | inr waits ↦ rw waits refl ]

  pub Adds-append :
      (old xs ys : List (ℕ × Bytes)) (s t : Capture)
      → Adds old xs s
      → Adds s.handled ys t
      → Adds old (xs ++ ys) t
  Adds-append old xs ys s t a b = record {
    started = b.started;
    handled =
        b.handled
        ∙ ap (λ l. l ++ keep ys) a.handled
        ∙ append_assoc old (keep xs) (keep ys)
        ∙ ap (λ l. old ++ l) (keep-append xs ys);
  }

  -- A round over the descriptors of the channels `suffix` of `cs`, from number `ch` on.
  module _ (cs : List Watched) where
    -- The descriptors of the capturing channels among them lead back to them.
    abbrev pub LeadsBack : List Watched → ℕ → Type 0
    LeadsBack suffix ch =
        (i : ℕ) (d : Watched)
        → get_elem? suffix i ≡ some d
        → d.pcap_handle ≡ true
        → channel_of d.info.pcap_fd cs 0 ≡ some (ch + i, d)

    LeadsBack-rest :
        (c : Watched) (suffix : List Watched) (ch : ℕ)
        → LeadsBack (c ∷ suffix) ch
        → LeadsBack suffix (ch + 1)
    LeadsBack-rest c suffix ch leads i d at h =
        let place : ch + suc i ≡ ch + 1 + i = omega arith in
        leads (suc i) d at h ∙ ap (λ n. some (n, d)) place

    process_event-found :
        (c : Watched) (ch : ℕ) (r : Revents) (s : Capture)
        → channel_of c.info.pcap_fd cs 0 ≡ some (ch, c)
        → process_event cs c.info.pcap_fd r s ≡ process_pcap_event ch c r s
    unfolding process_event
    process_event-found c ch r s found = rw (process_event, found) refl

    -- A round over the descriptors `fd ∷ fds`, of which the first is that of `c`.
    process_ready-head :
        (c : Watched) (fds : List ℤ) (later : List Revents → List (ℕ × Bytes)) (ch : ℕ)
        (rs : List Revents) (s : Capture)
        → ByPcap c
        → c.pcap_handle ≡ true
        → channel_of c.info.pcap_fd cs 0 ≡ some (ch, c)
        → AnswersAll (suc (length fds)) rs
        → s.started ≡ live
        → ((rs : List Revents) (s : Capture)
            → AnswersAll (length fds) rs
            → s.started ≡ live
            → Returns (Adds s.handled (later rs)) (process_ready cs fds rs s))
        → Returns
            (Adds s.handled (read_first ch rs ++ later (drop 1 rs)))
            (process_ready cs (c.info.pcap_fd ∷ fds) rs s)
    unfolding process_ready process_event
    process_ready-head c fds later ch [] s by h found answers on rest = absurd answers
    process_ready-head c fds later ch (r ∷ rs) s by h found answers on rest =
        elim (Bool-cases r.pollin) [
          | inl reads ↦
              let event : (if r.pollin || r.pollout
                    then process_event cs c.info.pcap_fd r s
                    else ok s)
                  ≡ process_pcap_event ch c r s =
                ap (λ b. if b || r.pollout then process_event cs c.info.pcap_fd r s else ok s) reads
                ∙ process_event-found c ch r s found in
              subst
                (λ m.
                  Returns (Adds s.handled (read_from ch r ++ later rs))
                    (m >>= process_ready cs fds rs))
                (sym event)
                (Returns-bind (process_pcap_event-Adds ch c r s by h answers.0 on) λ s' a.
                  Returns-map (rest rs s' answers.1 a.started)
                    λ t b. Adds-append s.handled (read_from ch r) (later rs) s' t a b)
          | inr quiet ↦ rw (quiet, answers.0) (rest rs s answers.1 on)
        ]

    process_ready-Adds :
        (suffix : List Watched) (ch : ℕ) (rs : List Revents) (s : Capture)
        → AllByPcap suffix
        → LeadsBack suffix ch
        → AnswersAll (length (poll_set suffix)) rs
        → s.started ≡ live
        → Returns
            (Adds s.handled (packets_of ch suffix rs))
            (process_ready cs (poll_set suffix) rs s)
    unfolding process_ready poll_set packets_of
    process_ready-Adds [] ch rs s by leads answers on = returns (Adds-nothing s on)
    process_ready-Adds (c ∷ suffix) ch rs s by leads answers on = elim (Bool-cases c.pcap_handle) [
      | inl h ↦
          let set : poll_set (c ∷ suffix) ≡ c.info.pcap_fd ∷ poll_set suffix =
            ap (λ b. if b || c.nf_cap then c.info.pcap_fd ∷ poll_set suffix else poll_set suffix)
              h in
          let new : read_first ch rs ++ packets_of (ch + 1) suffix (drop 1 rs)
              ≡ packets_of ch (c ∷ suffix) rs =
            sym (
              ap
                (λ b.
                  if b
                  then read_first ch rs ++ packets_of (ch + 1) suffix (drop 1 rs)
                  else packets_of (ch + 1) suffix rs)
                h) in
          let found = leads 0 c refl h ∙ ap (λ n. some (n, c)) (omega arith) in
          subst
            (λ l.
              Returns (Adds s.handled (packets_of ch (c ∷ suffix) rs)) (process_ready cs l rs s))
            (sym set)
            (subst
              (λ l.
                Returns (Adds s.handled l)
                  (process_ready cs (c.info.pcap_fd ∷ poll_set suffix) rs s))
              new
              (process_ready-head c (poll_set suffix) (packets_of (ch + 1) suffix) ch rs s by.0 h
                found (subst (λ l. AnswersAll (length l) rs) set answers) on
                λ rs' s' answers' on'.
                  process_ready-Adds suffix (ch + 1) rs' s' by.1 (LeadsBack-rest c suffix ch leads)
                    answers' on'))
      | inr quiet ↦
          let none_here : (c.pcap_handle || c.nf_cap) ≡ false =
            ap (λ b. b || c.nf_cap) quiet ∙ by.0.nf_cap in
          let set : poll_set (c ∷ suffix) ≡ poll_set suffix =
            ap (λ b. if b then c.info.pcap_fd ∷ poll_set suffix else poll_set suffix) none_here in
          let new : packets_of (ch + 1) suffix rs ≡ packets_of ch (c ∷ suffix) rs = sym (
            ap
              (λ b.
                if b
                then read_first ch rs ++ packets_of (ch + 1) suffix (drop 1 rs)
                else packets_of (ch + 1) suffix rs)
              quiet) in
          subst
            (λ l.
              Returns (Adds s.handled (packets_of ch (c ∷ suffix) rs)) (process_ready cs l rs s))
            (sym set)
            (subst (λ l. Returns (Adds s.handled l) (process_ready cs (poll_set suffix) rs s)) new
              (process_ready-Adds suffix (ch + 1) rs s by.1 (LeadsBack-rest c suffix ch leads)
                (subst (λ l. AnswersAll (length l) rs) set answers) on))
    ]

  module _ (cs : List Watched) (by : AllByPcap cs) (distinct : AllDistinct cs) where
    pub test_module_loop-Adds :
        (ps : List PollResult) (s : Capture)
        → Polls cs ps
        → s.started ≡ live
        → Returns (Adds s.handled (all_packets cs ps)) (test_module_loop cs ps s)
    unfolding test_module_loop poll_round all_packets
    test_module_loop-Adds [] s polls on = returns (Adds-nothing s on)
    test_module_loop-Adds (poll_failed interrupted ∷ ps) s polls on =
        rw polls.0 (test_module_loop-Adds ps s polls.1 on)
    test_module_loop-Adds (timeout ∷ ps) s polls on = test_module_loop-Adds ps s polls on
    test_module_loop-Adds (ready rs ∷ ps) s polls on =
        Returns-bind
          (process_ready-Adds cs cs 0 rs s by
            (λ i d at h. channel_of-get_elem cs i 0 d distinct at h) polls.0 on)
          λ s' a.
            Returns-map (test_module_loop-Adds ps s' polls.1 a.started)
              λ t b. Adds-append s.handled (packets_of 0 cs rs) (all_packets cs ps) s' t a b
