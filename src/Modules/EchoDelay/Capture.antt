-- ===== src/Modules/EchoDelay/Capture.antt =====
-- What the module has written in `echo_data` after a series of captured packets.
use oflops_turbo.Base.{
  ℕ, ◌+◌, ◌<◌, ◌≡◌, refl, ap, ◌∙◌, inl, inr, Bool, Bool-cases, true, false, ◌&&◌, List, [], ◌∷◌,
  arith, ltb, leb, ◌==◌, if◌then◌else◌, length, Run, ok, ◌>>=◌, Returns, returns,
}
use oflops_turbo.Base.Memory.{update, update_lem}
use oflops_turbo.Time.{TimeVal}
use oflops_turbo.Modules.EchoDelay.{
  EchoTest, EchoEntry, max_entries, put_entry, file_echo, handle_pcap_event,
}
use oflops_turbo.Modules.EchoDelay.Frame.{EchoPacket, IsFramed, frame_bytes, xid_of}

-- The ids that have been sent, or are the next one.
abbrev pub is_known : EchoTest → ℕ → Bool
is_known s i = ltb 0 i && leb i s.trans_id

module _ (of_request of_reply : ℕ) where
  -- `handle_pcap_event` for each packet.
  unfoldable pub captures : List EchoPacket → EchoTest → Run EchoTest
  captures [] s = ok s
  captures (p ∷ ps) s =
      handle_pcap_event of_request of_reply true (frame_bytes p) (length (frame_bytes p)) p.ts s
      >>= λ s'. captures ps s'

-- The time of the last message with this type and id, or `t` where there is none.
abbrev pub last_ts : ℕ → ℕ → List EchoPacket → TimeVal → TimeVal
last_ts type i [] t = t
last_ts type i (p ∷ ps) t = last_ts type i ps (if p.type == type && xid_of p == i then p.ts else t)

-- How many messages of this type have a known id.
abbrev pub known_count : ℕ → EchoTest → List EchoPacket → ℕ
known_count type s [] = 0
known_count type s (p ∷ ps) =
    (if p.type == type && is_known s (xid_of p) then 1 else 0) + known_count type s ps

abbrev pub AllFramed : List EchoPacket → Type 0
AllFramed [] = Unit
AllFramed (p ∷ ps) = IsFramed p × AllFramed ps

-- What the packets `ps` have changed.
pub record IsFiled (of_request of_reply : ℕ) (ps : List EchoPacket) (s s' : EchoTest) : Type 0 where
  pub next_id : s'.trans_id ≡ s.trans_id
  pub counted : s'.echo_data_count ≡ s.echo_data_count + known_count of_request s ps
  pub sent :
      (i : ℕ)
      → (s'.echo_data i).snd ≡ (
          if is_known s i then last_ts of_request i ps (s.echo_data i).snd else (s.echo_data i).snd)
  pub received :
      (i : ℕ)
      → (s'.echo_data i).rcv
        ≡ (if is_known s i then last_ts of_reply i ps (s.echo_data i).rcv else (s.echo_data i).rcv)

-- A write to a known entry, for a field that changes and for one that does not.
module _ (field : EchoEntry → TimeVal) (s : EchoTest) (x i : ℕ) (e : EchoEntry) where
  field_written :
      is_known s x ≡ true
      → field (update s.echo_data x e i) ≡ (
          if is_known s i
          then (if x == i then field e else field (s.echo_data i))
          else field (s.echo_data i))
  field_written known = elim (Bool-cases (x == i)) [
    | inl same ↦
        let also : is_known s i ≡ true = ground arith in
        rw (update_lem s.echo_data x e i, same, also) refl
    | inr other ↦ elim (Bool-cases (is_known s i)) [
      | inl yes_ ↦ rw (update_lem s.echo_data x e i, other, yes_) refl
      | inr no_ ↦ rw (update_lem s.echo_data x e i, other, no_) refl
    ]
  ]

  field_kept :
      field e ≡ field (s.echo_data x) → field (update s.echo_data x e i) ≡ field (s.echo_data i)
  field_kept h = elim (Bool-cases (x == i)) [
    | inl same ↦
        let here : x ≡ i = ground arith in
        rw (update_lem s.echo_data x e i, same) (h ∙ ap (λ n. field (s.echo_data n)) here)
    | inr other ↦ rw (update_lem s.echo_data x e i, other) refl
  ]

pub if_same {ℓ} : {A : Type ℓ} (b : Bool) (a : A) → a ≡ (if b then a else a)
if_same true a = refl
if_same false a = refl

-- A packet that changes nothing.
unchanged :
    {of_request of_reply : ℕ} {ps : List EchoPacket} (s : EchoTest)
    → s.echo_data_count ≡ s.echo_data_count + known_count of_request s ps
    → ((i : ℕ)
        → (s.echo_data i).snd ≡ (
            if is_known s i
            then last_ts of_request i ps (s.echo_data i).snd
            else (s.echo_data i).snd))
    → ((i : ℕ)
        → (s.echo_data i).rcv ≡ (
            if is_known s i
            then last_ts of_reply i ps (s.echo_data i).rcv
            else (s.echo_data i).rcv))
    → IsFiled of_request of_reply ps s s
unchanged s c f g = record { next_id = refl; counted = c; sent = f; received = g }

-- A message with an unknown id counts for no known entry.
unknown_apart :
    (s : EchoTest) (x i : ℕ) (t u : TimeVal)
    → is_known s x ≡ false
    → t ≡ (if is_known s i then (if x == i then u else t) else t)
unknown_apart s x i t u h = elim (Bool-cases (is_known s i)) [
  | inl known ↦ let other : (x == i) ≡ false = ground arith in rw (known, other) refl
  | inr unknown ↦ rw unknown refl
]

module _ (of_request of_reply : ℕ) (distinct : (of_request == of_reply) ≡ false) (p : EchoPacket)
    (s : EchoTest) (few : s.trans_id < max_entries) where
  request-IsFiled :
      (p.type == of_request) ≡ true
      → Returns
          (IsFiled of_request of_reply (p ∷ []) s)
          (file_echo of_request of_reply p.type (xid_of p) p.ts s)
  unfolding file_echo put_entry
  request-IsFiled request =
      let other : (p.type == of_reply) ≡ false = ground arith in
      elim (Bool-cases (is_known s (xid_of p))) [
        | inl known ↦
            let inside : ltb (xid_of p) max_entries ≡ true = ground arith in
            rw (request, known, inside)
              (returns (record {
                next_id = refl;
                counted = rw (request, known) refl;
                sent = λ i. rw request (field_written (λ e. e.snd) s (xid_of p) i _ known);
                received = λ i.
                    rw other
                      (field_kept (λ e. e.rcv) s (xid_of p) i _ refl ∙ if_same (is_known s i) _);
              }))
        | inr unknown ↦
            rw (request, unknown)
              (returns (
                unchanged s (rw (request, unknown) (omega arith))
                  (λ i. rw request (unknown_apart s (xid_of p) i _ _ unknown))
                  (λ i. rw other (if_same (is_known s i) _))))
      ]

  reply-IsFiled :
      (p.type == of_request) ≡ false
      → (p.type == of_reply) ≡ true
      → Returns
          (IsFiled of_request of_reply (p ∷ []) s)
          (file_echo of_request of_reply p.type (xid_of p) p.ts s)
  unfolding file_echo put_entry
  reply-IsFiled other reply = elim (Bool-cases (is_known s (xid_of p))) [
    | inl known ↦
        let inside : ltb (xid_of p) max_entries ≡ true = ground arith in
        rw (other, reply, known, inside)
          (returns (record {
            next_id = refl;
            counted = rw other (omega arith);
            sent = λ i.
                rw other (field_kept (λ e. e.snd) s (xid_of p) i _ refl ∙ if_same (is_known s i) _);
            received = λ i. rw reply (field_written (λ e. e.rcv) s (xid_of p) i _ known);
          }))
    | inr unknown ↦
        rw (other, reply, unknown)
          (returns (
            unchanged s (rw other (omega arith)) (λ i. rw other (if_same (is_known s i) _))
              (λ i. rw reply (unknown_apart s (xid_of p) i _ _ unknown))))
  ]

  -- One packet.
  pub file_echo-IsFiled :
      Returns
        (IsFiled of_request of_reply (p ∷ []) s)
        (file_echo of_request of_reply p.type (xid_of p) p.ts s)
  unfolding file_echo
  file_echo-IsFiled = elim (Bool-cases (p.type == of_request)) [
    | inl request ↦ request-IsFiled request
    | inr other ↦ elim (Bool-cases (p.type == of_reply)) [
      | inl reply ↦ reply-IsFiled other reply
      | inr none_ ↦
          rw (other, none_)
            (returns (
              unchanged s (rw other (omega arith)) (λ i. rw other (if_same (is_known s i) _))
                (λ i. rw none_ (if_same (is_known s i) _))))
    ]
  ]
