-- ===== src/Modules/ActionDelay/Written.antt =====
-- How a list of actions is written, and where `init` cuts it.
use oflops_turbo.Base.{
  ℕ, ◌+◌, ◌/◌, ◌%◌, ◌<◌, ◌≡◌, refl, false, List, [], ◌∷◌, ◌++◌, none, some, arith, ◌||◌, ◌==◌,
  if◌then◌else◌, length, length-append,
}
use oflops_turbo.Msg.{EtherAddr}
use oflops_turbo.Setup.{Chars, cut_at}
use oflops_turbo.Modules.ActionDelay.{char_at}
use oflops_turbo.Modules.ActionDelay.Address.{hex_digit, address_text}

-- An action as it is written: its number, alone, with an Ethernet address, or with a text for a value.
pub data Written : Type 0 where
  alone : ℕ → Written
  address : ℕ → EtherAddr → Written
  setting : ℕ → Chars → ℕ → Written

abbrev pub digit : ℕ → ℕ
digit n = if n == 10 then 97 else 48 + n

abbrev pub text_of : Written → Chars
text_of (alone n) = digit n ∷ []
text_of (address n a) = digit n ∷ 47 ∷ address_text a
text_of (setting n t v) = digit n ∷ 47 ∷ t

abbrev pub number_of : Written → ℕ
number_of (alone n) = n
number_of (address n a) = n
number_of (setting n t v) = n

-- The actions with commas between them.
abbrev pub listed : Written → List Written → Chars
listed w [] = text_of w
listed w (v ∷ ws) = text_of w ++ (44 ∷ listed v ws)

-- No comma in a text.
abbrev pub NoComma : Chars → Type 0
NoComma [] = Unit
NoComma (c ∷ cs) = ((c == 44) ≡ false) × NoComma cs

pub digit_other : (n d : ℕ) → d < 48 → (digit n == d) ≡ false
digit_other n d h = ground arith

hex_digit_other : (d : ℕ) → (hex_digit d == 44) ≡ false
hex_digit_other d = ground arith

byte_other {ℓ} :
    {X : Type ℓ} (b : ℕ)
    → X
    → ((hex_digit (b / 16) == 44) ≡ false) × (((hex_digit (b % 16) == 44) ≡ false) × X)
byte_other b x = (hex_digit_other (b / 16), (hex_digit_other (b % 16), x))

pub address_text-NoComma : (a : EtherAddr) → NoComma (address_text a)
address_text-NoComma a = byte_other a.byte0 (
    byte_other a.byte1
      (byte_other a.byte2 (byte_other a.byte3 (byte_other a.byte4 (byte_other a.byte5 tt)))))

-- An action starts with its digit, with or without more behind it.
pub text_of-starts :
    (w : Written) (more : Chars)
    → ((char_at (text_of w) == 32 || char_at (text_of w) == 0) ≡ false)
      × ((char_at (text_of w ++ more) == 32 || char_at (text_of w ++ more) == 0) ≡ false)
unfolding char_at
text_of-starts (alone n) more = (ground arith, ground arith)
text_of-starts (address n a) more = (ground arith, ground arith)
text_of-starts (setting n t v) more = (ground arith, ground arith)

pub cut_at-digit : (n : ℕ) → cut_at 47 (digit n ∷ []) ≡ (digit n ∷ [], none)
unfolding cut_at
cut_at-digit n = rw (digit_other n 47 (omega arith)) refl

pub cut_at-slash : (n : ℕ) (t : Chars) → cut_at 47 (digit n ∷ 47 ∷ t) ≡ (digit n ∷ [], some t)
unfolding cut_at
cut_at-slash n t = rw (digit_other n 47 (omega arith)) refl

pub cut_at-last : (t : Chars) → NoComma t → cut_at 44 t ≡ (t, none)
unfolding cut_at
cut_at-last [] h = refl
cut_at-last (c ∷ cs) h = rw (h.0, cut_at-last cs h.1) refl

pub cut_at-comma : (t more : Chars) → NoComma t → cut_at 44 (t ++ (44 ∷ more)) ≡ (t, some more)
unfolding cut_at
cut_at-comma [] more h = refl
cut_at-comma (c ∷ cs) more h = rw (h.0, cut_at-comma cs more h.1) refl

pub listed_size : (w : Written) (ws : List Written) → length ws < length (listed w ws)
listed_size w [] = text_size w
  where
    text_size : (w : Written) → 0 < length (text_of w)
    text_size (alone n) = omega arith
    text_size (address n a) = omega arith
    text_size (setting n t v) = omega arith
listed_size w (v ∷ ws) =
    omega (arith, length-append (text_of w) (44 ∷ listed v ws), listed_size v ws)
