-- ===== src/FakeSwitch/Fields.antt =====
-- The fields of a message, in a list of bytes and in a buffer.
use oflops_turbo.Base.{
  ℕ, zero, suc, ◌+◌, ◌-◌, ◌*◌, ◌≤◌, ◌<◌, ◌≡◌, refl, sym, ap, ◌∙◌, ◌⊎◌, true, List, [], ◌∷◌, ◌++◌,
  arith, ltb, length, get_or, length-append, ok,
}
use oflops_turbo.Base.Memory.{slice}
use oflops_turbo.MsgBuf.{Bytes, MsgBuf}
use oflops_turbo.MsgBuf.Inv.{IsValid, contents, length-contents}
use oflops_turbo.FakeSwitch.{buffer_byte, buffer_short}

-- The fields of a message.
abbrev pub message_short : Bytes → ℕ → ℕ
message_short m i = get_or m i 0 * 256 + get_or m (i + 1) 0

abbrev pub message_xid : Bytes → Bytes
message_xid m = get_or m 4 0 ∷ get_or m 5 0 ∷ get_or m 6 0 ∷ get_or m 7 0 ∷ []

-- Messages one after the other, and a tail.
abbrev pub joined : List Bytes → Bytes → Bytes
joined [] tail = tail
joined (m ∷ ms) tail = m ++ joined ms tail

-- What may follow the last complete message: less than a header, or less than its header says.
abbrev pub IsCut : Bytes → Type 0
IsCut xs = (length xs < 8) ⊎ ((8 ≤ length xs) × (length xs < message_short xs 2))

get_or-slice : (a : ℕ → ℕ) (s n i : ℕ) → i < n → get_or (slice a s n) i 0 ≡ a (s + i)
unfolding slice
get_or-slice a s zero i h = absurd (omega arith)
get_or-slice a s (suc n) zero h = ap a (omega arith)
get_or-slice a s (suc n) (suc i) h =
    let there : s + suc i ≡ suc s + i = omega arith in
    rw there (get_or-slice a (suc s) n i (omega arith))

get_or-append : (xs ys : Bytes) (i : ℕ) → i < length xs → get_or (xs ++ ys) i 0 ≡ get_or xs i 0
get_or-append [] ys i h = absurd (omega arith)
get_or-append (x ∷ xs) ys zero h = refl
get_or-append (x ∷ xs) ys (suc i) h = get_or-append xs ys i (omega arith)

module _ (b : MsgBuf) (m rest : Bytes) (v : IsValid b) (e : contents b ≡ m ++ rest) where
  pub inside : length m ≤ b.stop - b.start
  inside = omega (arith, ap length e, length-append m rest, length-contents b)

  pub buf-start : (i : ℕ) → i < length m → b.buf (b.start + i) ≡ get_or m i 0
  buf-start i h =
      sym (get_or-slice b.buf b.start (b.stop - b.start) i (omega (arith, inside)))
      ∙ ap (λ xs. get_or xs i 0) e
      ∙ get_or-append m rest i h

  pub byte-start : (i : ℕ) → i < length m → buffer_byte b (b.start + i) ≡ ok (get_or m i 0)
  unfolding buffer_byte
  byte-start i h =
      let within : ltb (b.start + i) b.len ≡ true = ground (arith, inside, v.bounded) in
      rw (within, buf-start i h)

  pub short-start :
      (i : ℕ) → i + 1 < length m → buffer_short b (b.start + i) ≡ ok (message_short m i)
  unfolding buffer_short
  short-start i h =
      let next : b.start + i + 1 ≡ b.start + (i + 1) = omega arith in
      rw (next, byte-start i (omega arith), byte-start (i + 1) h)

  pub xid-start : 8 ≤ length m → slice b.buf (b.start + 4) 4 ≡ message_xid m
  unfolding slice
  xid-start h =
      let five : suc (b.start + 4) ≡ b.start + 5 = omega arith in
      let six : suc (b.start + 5) ≡ b.start + 6 = omega arith in
      let seven : suc (b.start + 6) ≡ b.start + 7 = omega arith in
      rw (
        five,
        six,
        seven,
        buf-start 4 (omega arith),
        buf-start 5 (omega arith),
        buf-start 6 (omega arith),
        buf-start 7 (omega arith),
      )
