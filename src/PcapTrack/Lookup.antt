-- ===== src/PcapTrack/Lookup.antt =====
-- `ptrack_lookup` and `ptrack_free`: which slots they look at.
use oflops_turbo.Base.{
  ℕ, zero, suc, ◌+◌, ◌-◌, ◌≤◌, ◌<◌, ◌≡◌, ◌∙◌, refl, ap, inl, inr, false, ◌&&◌, Option, none, some,
  arith, ltb, leb, ◌==◌, if◌then◌else◌, Bool-cases, ltb→lt, ltb-false→le, ==_iff, length, replicate,
  take, drop, ok, fault, IfOk, IfOk-bind, IfOk-if,
}
use oflops_turbo.Base.Int.{pos, negsuc, sub_ℕ}
use oflops_turbo.Base.Memory.{update_lem}
use oflops_turbo.PcapTrack.{
  Bytes, Tracker, max_len, short_at, tcp_payload_offset, add_entry, add_loop, ptrack_add_of_entry,
  ptrack_new, same_bytes, forget, slot_of, lookup_loop, ptrack_lookup, freed, ptrack_free,
}

module _ {Header : Type 0} where
  -- The trackers that `ptrack_new` and calls of `ptrack_add_of_entry` make, before any lookup.
  pub data Built : Tracker Header → Type 0 where
    new : (zeroed : Header) → Built (ptrack_new zeroed)
    add :
        {t t' : Tracker Header} (xs : Bytes) (hdr : Header) (n : ℕ)
        → Built t
        → ptrack_add_of_entry t xs hdr ≡ ok (n, t')
        → Built t'

  -- The trackers that `ptrack_new`, `ptrack_add_of_entry` and `ptrack_lookup` make and that were never
  -- full.
  pub data NeverFull : Tracker Header → Type 0 where
    created : (zeroed : Header) → NeverFull (ptrack_new zeroed)
    added :
        {t t' : Tracker Header} (xs : Bytes) (hdr : Header) (n : ℕ)
        → NeverFull t
        → ptrack_add_of_entry t xs hdr ≡ ok (n, t')
        → t'.count < max_len
        → NeverFull t'
    looked_up :
        {t t' : Tracker Header} (xs : Bytes) (found : Option Header)
        → NeverFull t
        → ptrack_lookup t xs ≡ ok (found, t')
        → NeverFull t'

  -- Until it is full, a tracker has filled the slots below `head`, and never the last one.
  record IsYoung (t : Tracker Header) : Type 0 where
    bounded : t.count ≤ max_len
    aligned : t.count < max_len → t.head ≡ t.count
    last_empty : t.count < max_len → (t.entries (max_len - 1)).len ≡ 0
    wrapped : t.head < max_len

  add_entry-IsYoung :
      (t : Tracker Header) (m : Bytes) (hdr : Header) → IsYoung t → IsYoung (add_entry t m hdr)
  unfolding add_entry
  add_entry-IsYoung t m hdr v = record {
    bounded = ground (arith, v.bounded);
    aligned = ground (arith, v.aligned, v.bounded);
    last_empty = ground (
      arith,
      update_lem t.entries t.head (record { bytes = m; len = length m; hdr = hdr }) (max_len - 1),
      v.aligned,
      v.last_empty,
    );
    wrapped = ground (arith, v.wrapped);
  }

  add_loop-IsYoung :
      (k : ℕ) (t : Tracker Header) (rest : Bytes) (hdr : Header) (c : ℕ)
      → IsYoung t
      → IfOk (λ (r : ℕ × Tracker Header). IsYoung r.1) (add_loop k t rest hdr c)
  unfolding add_loop
  add_loop-IsYoung zero t rest hdr c v = tt
  add_loop-IsYoung (suc k) t rest hdr c v =
      IfOk-if _ (ltb 0 (length rest)) _ (ok (c, t))
        (IfOk-bind _ (short_at rest 2) _ λ n. IfOk-if _ (ltb (length rest) n) (ok (c, t)) _ v (
          add_loop-IsYoung k (add_entry t (take n rest) hdr) (drop n rest) hdr (c + 1)
            (add_entry-IsYoung t (take n rest) hdr v)))
        v

  add-IsYoung :
      (t : Tracker Header) (xs : Bytes) (hdr : Header)
      → IsYoung t
      → IfOk (λ (r : ℕ × Tracker Header). IsYoung r.1) (ptrack_add_of_entry t xs hdr)
  unfolding ptrack_add_of_entry
  add-IsYoung t xs hdr v = IfOk-bind _ (tcp_payload_offset xs) _ λ offset.
      IfOk-if _ (leb (length xs) offset) (ok (0, t)) _ v
        (add_loop-IsYoung (length xs + 1) t (drop offset xs) hdr 0 v)

  new-IsYoung : (zeroed : Header) → IsYoung (ptrack_new zeroed)
  unfolding ptrack_new
  new-IsYoung zeroed = record {
    bounded = omega arith;
    aligned = λ _. refl;
    last_empty = λ _. refl;
    wrapped = omega arith;
  }

  Built-IsYoung : {t : Tracker Header} → Built t → IsYoung t
  Built-IsYoung (new zeroed) = new-IsYoung zeroed
  Built-IsYoung (add {t = t} xs hdr n b e) = rw e at (add-IsYoung t xs hdr (Built-IsYoung b))

  -- Every round of a lookup looks at one slot.
  lookup_loop_misses :
      (n : ℕ) (t : Tracker Header) (xs : Bytes) (i : ℕ)
      → slot_of t ≡ ok i
      → (t.entries i).len < length xs
      → lookup_loop n t xs ≡ ok (none, t)
  unfolding lookup_loop
  lookup_loop_misses zero t xs i e h = refl
  lookup_loop_misses (suc n) t xs i e h =
      let longer : leb (length xs) (t.entries i).len ≡ false = ground arith in
      rw (e, longer) (lookup_loop_misses n t xs i e h)

  slot_of_young :
      (t : Tracker Header) → IsYoung t → t.count < max_len → slot_of t ≡ ok (max_len - 1)
  unfolding slot_of
  slot_of_young t v h =
      let before : sub_ℕ t.head (1 + t.count) ≡ negsuc 0 = ground (arith, v.aligned) in
      rw (before, slot_of) refl

  forget-IsYoung :
      (t : Tracker Header)
      → IsYoung t
      → 0 < t.count
      → t.count < max_len
      → IsYoung (forget t) × ((forget t).count < max_len)
  unfolding forget
  forget-IsYoung t v some_left h = (
    record {
      bounded = omega arith;
      aligned = λ few. ground (arith, v.aligned);
      last_empty = λ few. v.last_empty h;
      wrapped = ground (arith, v.wrapped);
    },
    omega arith,
  )

  lookup_loop-IsYoung :
      (n : ℕ) (t : Tracker Header) (xs : Bytes)
      → n ≤ t.count
      → IsYoung t
      → t.count < max_len
      → IfOk
          (λ (r : Option Header × Tracker Header). IsYoung r.1 × (r.1.count < max_len))
          (lookup_loop n t xs)
  unfolding lookup_loop
  lookup_loop-IsYoung zero t xs few v h = (v, h)
  lookup_loop-IsYoung (suc n) t xs few v h = IfOk-bind _ (slot_of t) _ λ idx.
      IfOk-if _
        (leb (length xs) (t.entries idx).len && same_bytes (length xs) xs (t.entries idx).bytes)
        (ok (some (t.entries idx).hdr, forget t)) _ (forget-IsYoung t v (omega arith) h)
        (lookup_loop-IsYoung n t xs (omega arith) v h)

  NeverFull-IsYoung : {t : Tracker Header} → NeverFull t → IsYoung t × (t.count < max_len)
  unfolding ptrack_lookup ptrack_new
  NeverFull-IsYoung (created zeroed) = (new-IsYoung zeroed, omega arith)
  NeverFull-IsYoung (added {t = t} xs hdr n b e h) =
      (rw e at (add-IsYoung t xs hdr (NeverFull-IsYoung b).0), h)
  NeverFull-IsYoung (looked_up {t = t} xs found b e) =
      let y = NeverFull-IsYoung b in
      rw e at (lookup_loop-IsYoung t.count t xs (omega arith) y.0 y.1)

  -- A tracker that was never full, whatever was added to it and looked up in it, finds no data of
  -- at least one byte: each round of `ptrack_lookup` looks at the last slot, which is empty, and
  -- the call returns 0 and changes nothing.
  pub ptrack_lookup_misses :
      (t : Tracker Header) (xs : Bytes)
      → NeverFull t
      → 0 < length xs
      → ptrack_lookup t xs ≡ ok (none, t)
  unfolding ptrack_lookup
  ptrack_lookup_misses t xs b some_bytes =
      let (v, h) = NeverFull-IsYoung b in
      lookup_loop_misses t.count t xs (max_len - 1) (slot_of_young t v h)
        (omega (arith, v.last_empty h))

  slot_of_full :
      (t : Tracker Header)
      → 0 < t.head
      → t.head ≤ max_len
      → t.count ≡ max_len
      → slot_of t ≡ ok (t.head - 1)
  unfolding slot_of
  slot_of_full t lo hi full =
      let before : sub_ℕ t.head (1 + t.count) ≡ negsuc (max_len - t.head) = ground arith in
      let after : sub_ℕ max_len (max_len - t.head + 1) ≡ pos (t.head - 1) = ground arith in
      rw (before, after, slot_of) refl

  slot_of_outside : (t : Tracker Header) → t.head ≡ 0 → t.count ≡ max_len → slot_of t ≡ fault
  unfolding slot_of
  slot_of_outside t empty full =
      let before : sub_ℕ t.head (1 + t.count) ≡ negsuc max_len = ground arith in
      rw (before, slot_of) refl

  lookup_loop_fault :
      (n : ℕ) (t : Tracker Header) (xs : Bytes)
      → slot_of t ≡ fault
      → lookup_loop (suc n) t xs ≡ fault
  unfolding lookup_loop
  lookup_loop_fault n t xs e = rw e refl

  -- In a full tracker whose `head` has wrapped to 0, `ptrack_lookup` reads outside of the array.
  pub ptrack_lookup_outside :
      (t : Tracker Header) (xs : Bytes)
      → t.head ≡ 0
      → t.count ≡ max_len
      → ptrack_lookup t xs ≡ fault
  unfolding ptrack_lookup
  ptrack_lookup_outside t xs empty full =
      ap (λ n. lookup_loop n t xs) full ∙ lookup_loop_fault 255 t xs (slot_of_outside t empty full)

  freed-replicate :
      (n : ℕ) (t : Tracker Header) (i : ℕ) → slot_of t ≡ ok i → freed n t ≡ ok (replicate n i)
  unfolding freed
  freed-replicate zero t i e = refl
  freed-replicate (suc n) t i e = rw (e, freed-replicate n t i e)

  freed-fault : (n : ℕ) (t : Tracker Header) → slot_of t ≡ fault → freed (suc n) t ≡ fault
  unfolding freed
  freed-fault n t e = rw e refl

  -- `ptrack_free` frees the data of one slot as often as there are entries: of the last slot, which
  -- is empty, where the tracker is not full; of the newest entry, 256 times, where it is full. A
  -- full tracker whose `head` is 0 makes it read outside of the array.
  pub ptrack_free_lem :
      (t : Tracker Header)
      → Built t
      → ptrack_free t ≡ (
          if ltb t.count max_len
          then ok (replicate t.count (max_len - 1))
          else if t.head == 0
          then fault
          else ok (replicate max_len (t.head - 1)))
  unfolding ptrack_free
  ptrack_free_lem t b = elim (Bool-cases (ltb t.count max_len)) [
    | inl young ↦
        let few = ltb→lt _ _ young in
        rw young (freed-replicate t.count t (max_len - 1) (slot_of_young t v few))
    | inr old ↦
        let full : t.count ≡ max_len = omega (arith, ltb-false→le _ _ old, v.bounded) in
        rw old (elim (Bool-cases (t.head == 0)) [
          | inl empty ↦ rw empty (
              ap (λ n. freed n t) full
              ∙ freed-fault 255 t (slot_of_outside t ((==_iff _ _).0 empty) full))
          | inr some_left ↦
              let lo : 0 < t.head = ground arith in
              rw some_left (
                ap (λ n. freed n t) full
                ∙ freed-replicate max_len t (t.head - 1)
                    (slot_of_full t lo (omega (arith, v.wrapped)) full))
        ])
  ]
    where
      v : IsYoung t
      v = Built-IsYoung b
