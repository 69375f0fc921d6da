-- ===== src/Modules/ActionDelay/Address.antt =====
-- How an Ethernet address is written and read.
use oflops_turbo.Base.{
  ℕ, suc, ◌+◌, ◌*◌, ◌/◌, ◌%◌, ◌<◌, ◌≡◌, refl, true, [], ◌∷◌, arith, ltb, if◌then◌else◌,
}
use oflops_turbo.Msg.{EtherAddr}
use oflops_turbo.Setup.{Chars}
use oflops_turbo.Modules.ActionDelay.{
  is_hex_char, is_hex, hex_step, char_at, read_hex, read_address,
}

abbrev pub hex_digit : ℕ → ℕ
hex_digit d = if ltb d 10 then 48 + d else 87 + d

abbrev pub address_text : EtherAddr → Chars
address_text a =
    hex_digit (a.byte0 / 16)
    ∷ hex_digit (a.byte0 % 16)
    ∷ hex_digit (a.byte1 / 16)
    ∷ hex_digit (a.byte1 % 16)
    ∷ hex_digit (a.byte2 / 16)
    ∷ hex_digit (a.byte2 % 16)
    ∷ hex_digit (a.byte3 / 16)
    ∷ hex_digit (a.byte3 % 16)
    ∷ hex_digit (a.byte4 / 16)
    ∷ hex_digit (a.byte4 % 16)
    ∷ hex_digit (a.byte5 / 16)
    ∷ hex_digit (a.byte5 % 16)
    ∷ []

-- Six bytes.
pub record IsAddress (a : EtherAddr) : Type 0 where
  pub byte0 : a.byte0 < 256
  pub byte1 : a.byte1 < 256
  pub byte2 : a.byte2 < 256
  pub byte3 : a.byte3 < 256
  pub byte4 : a.byte4 < 256
  pub byte5 : a.byte5 < 256

is_hex_char-hex_digit : (d : ℕ) → d < 16 → is_hex_char (hex_digit d) ≡ true
unfolding is_hex_char
is_hex_char-hex_digit d h = ground arith

hex_step-hex_digit : (r d : ℕ) → d < 16 → hex_step r (hex_digit d) ≡ (r * 16 % 256 + d) % 256
unfolding hex_step
hex_step-hex_digit r d h = ground arith

read_hex-digits :
    (b : ℕ) (rest : Chars) → b < 256 → read_hex (hex_digit (b / 16) ∷ hex_digit (b % 16) ∷ rest) ≡ b
unfolding read_hex char_at
read_hex-digits b rest h =
    rw (hex_step-hex_digit 0 (b / 16) (omega arith))
      (rw (hex_step-hex_digit ((0 * 16 % 256 + b / 16) % 256) (b % 16) (omega arith)) (omega arith))

is_hex-digits :
    (b : ℕ) (rest : Chars) (n : ℕ)
    → b < 256
    → is_hex (hex_digit (b / 16) ∷ hex_digit (b % 16) ∷ rest) (suc (suc n)) ≡ is_hex rest n
unfolding is_hex
is_hex-digits b rest n h =
    rw (is_hex_char-hex_digit (b / 16) (omega arith), is_hex_char-hex_digit (b % 16) (omega arith))
      refl

is_hex_end : is_hex [] 0 ≡ true
unfolding is_hex
is_hex_end = refl

-- The text of an address has twelve hexadecimal digits.
pub address_text-is_hex : (a : EtherAddr) → IsAddress a → is_hex (address_text a) 12 ≡ true
address_text-is_hex a h =
    rw
      (
        is_hex-digits a.byte0 _ 10 h.byte0,
        is_hex-digits a.byte1 _ 8 h.byte1,
        is_hex-digits a.byte2 _ 6 h.byte2,
        is_hex-digits a.byte3 _ 4 h.byte3,
        is_hex-digits a.byte4 _ 2 h.byte4,
        is_hex-digits a.byte5 _ 0 h.byte5,
        is_hex_end,
      )
      refl

-- The text of an address is read back.
pub read_address-address_text : (a : EtherAddr) → IsAddress a → read_address (address_text a) ≡ a
unfolding read_address
read_address-address_text a h =
    rw
      (
        read_hex-digits a.byte0 _ h.byte0,
        read_hex-digits a.byte1 _ h.byte1,
        read_hex-digits a.byte2 _ h.byte2,
        read_hex-digits a.byte3 _ h.byte3,
        read_hex-digits a.byte4 _ h.byte4,
        read_hex-digits a.byte5 _ h.byte5,
      )
      refl
