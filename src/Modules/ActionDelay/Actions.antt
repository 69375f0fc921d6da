-- ===== src/Modules/ActionDelay/Actions.antt =====
-- Which actions `init` reads from the text of a list of actions.
use mathlib.Core.List.{append_assoc}
use native.Mathlib.Nat.{mod-eq_of_lt}
use oflops_turbo.Base.{
  not, ℕ, suc, ◌+◌, ◌-◌, ◌&&◌, ◌^◌, ◌≤◌, ◌<◌, ◌≡◌, refl, ap, sym, ◌∙◌, Bool, true, false, List, [],
  ◌∷◌, ◌++◌, map, Option, none, some, arith, leb, ◌||◌, ◌==◌, ◌⊎◌, inl, inr, if◌then◌else◌, length,
  ok, fault, ◌>>=◌, Bool-cases,
}
use oflops_turbo.Base.Int.{pos, ltb_ℤ}
use oflops_turbo.Msg.{EtherAddr}
use oflops_turbo.Setup.{Chars, cut_at}
use oflops_turbo.Modules.ActionDelay.{
  Ofpat, output, set_vlan_vid, set_vlan_pcp, strip_vlan, set_dl_src, set_dl_dst, set_nw_src,
  set_nw_dst, set_nw_tos, set_tp_src, set_tp_dst, other, Library, Body, to_port, vlan_vid, vlan_pcp,
  nothing, dl_addr, nw_addr, nw_tos, tp_port, OfpAction, Command, is_hex, append, append_case,
  append_bare, append_action, char_at, read_action, read_actions, parse_actions,
}
use oflops_turbo.Modules.ActionDelay.Address.{
  address_text, IsAddress, address_text-is_hex, read_address-address_text,
}
use oflops_turbo.Modules.ActionDelay.Written.{
  Written, alone, address, setting, digit, text_of, number_of, listed, NoComma, digit_other,
  address_text-NoComma, text_of-starts, cut_at-digit, cut_at-slash, cut_at-last, cut_at-comma,
  listed_size,
}

module _ (lib : Library) where
  -- The value that a text stands for in each case, and its range.
  abbrev pub Stands : Ofpat → Chars → ℕ → Type 0
  Stands output t v = (lib.strtol 10 t ≡ pos v) × (v < 65536)
  Stands set_vlan_vid t v = (lib.strtol 10 t ≡ pos v) × (v < 4095)
  Stands set_vlan_pcp t v = (lib.strtol 16 t ≡ pos v) × (v < 8)
  Stands strip_vlan t v = ⊥
  Stands set_dl_src t v = ⊥
  Stands set_dl_dst t v = ⊥
  Stands set_nw_src t v =
      ((lib.strtoll 16 t ≡ pos v) × (v < 2 ^ 32)) × ((length t ≡ 8) × (is_hex t 8 ≡ true))
  Stands set_nw_dst t v =
      ((lib.strtoll 16 t ≡ pos v) × (v < 2 ^ 32)) × ((length t ≡ 8) × (is_hex t 8 ≡ true))
  Stands set_nw_tos t v = (lib.strtol 16 t ≡ pos v) × (v < 256)
  Stands set_tp_src t v = (lib.strtol 16 t ≡ pos v) × (v < 65536)
  Stands set_tp_dst t v = (lib.strtol 16 t ≡ pos v) × (v < 65536)
  Stands other t v = ⊥

  -- What each case stores for a value.
  abbrev pub holds : Ofpat → ℕ → Body
  holds output v = to_port v 2000
  holds set_vlan_vid v = vlan_vid v
  holds set_vlan_pcp v = vlan_pcp v
  holds strip_vlan v = nothing
  holds set_dl_src v = nothing
  holds set_dl_dst v = nothing
  holds set_nw_src v = nw_addr v
  holds set_nw_dst v = nw_addr v
  holds set_nw_tos v = nw_tos v
  holds set_tp_src v = tp_port v
  holds set_tp_dst v = tp_port v
  holds other v = nothing

  -- An action that is written as its number asks for.
  abbrev pub IsWritten : Written → Type 0
  IsWritten (alone n) = (n ≤ 10) × (lib.ofpat n ≡ strip_vlan)
  IsWritten (address n a) =
      (n ≤ 10) × (((lib.ofpat n ≡ set_dl_src) ⊎ (lib.ofpat n ≡ set_dl_dst)) × IsAddress a)
  IsWritten (setting n t v) = (n ≤ 10) × (NoComma t × Stands (lib.ofpat n) t v)

  abbrev pub AllWritten : List Written → Type 0
  AllWritten [] = Unit
  AllWritten (w ∷ ws) = IsWritten w × AllWritten ws

  -- The action in the buffer.
  abbrev pub action_of : Written → OfpAction
  action_of (alone n) = record { type = n; len = 8; body = nothing }
  action_of (address n a) = record { type = n; len = 16; body = dl_addr a }
  action_of (setting n t v) = record { type = n; len = 8; body = holds (lib.ofpat n) v }

  abbrev pub sizes : List Written → ℕ
  sizes [] = 0
  sizes (w ∷ ws) = lib.size_of (lib.ofpat (number_of w)) + sizes ws

  -- The buffer behind a list of actions.
  abbrev pub extended : Command → List Written → Command
  extended c ws = record {
    command = c.command ++ map action_of ws;
    command_len = c.command_len + sizes ws;
  }

  append_case-Stands :
      (k : Ofpat) (n : ℕ) (t : Chars) (v : ℕ) (c : Command)
      → Stands k t v
      → append_case lib k n t c ≡ append lib k (record { type = n; len = 8; body = holds k v }) c
  unfolding append_case
  append_case-Stands output n t v c h = rw h.0 (rw (mod-eq_of_lt h.1) refl)
  append_case-Stands set_vlan_vid n t v c h =
      let inside : (ltb_ℤ (pos v) (pos 0) || not (ltb_ℤ (pos v) (pos 4095))) ≡ false =
        ground (arith, h.1) in
      rw h.0 (rw (inside, mod-eq_of_lt {n = v} {m = 65536} (omega (arith, h.1))) refl)
  append_case-Stands set_vlan_pcp n t v c h =
      let inside : (ltb_ℤ (pos v) (pos 0) || ltb_ℤ (pos 7) (pos v)) ≡ false = ground (arith, h.1) in
      rw h.0 (rw (inside, mod-eq_of_lt {n = v} {m = 256} (omega (arith, h.1))) refl)
  append_case-Stands strip_vlan n t v c h = absurd h
  append_case-Stands set_dl_src n t v c h = absurd h
  append_case-Stands set_dl_dst n t v c h = absurd h
  append_case-Stands set_nw_src n t v c h = rw (h.0.0, h.1.0, h.1.1) (rw (mod-eq_of_lt h.0.1) refl)
  append_case-Stands set_nw_dst n t v c h = rw (h.0.0, h.1.0, h.1.1) (rw (mod-eq_of_lt h.0.1) refl)
  append_case-Stands set_nw_tos n t v c h = rw h.0 (rw (mod-eq_of_lt h.1) refl)
  append_case-Stands set_tp_src n t v c h = rw h.0 (rw (mod-eq_of_lt h.1) refl)
  append_case-Stands set_tp_dst n t v c h = rw h.0 (rw (mod-eq_of_lt h.1) refl)
  append_case-Stands other n t v c h = absurd h

  -- The buffer behind one action.
  abbrev stored : Command → Written → Command
  stored c w = record {
    command = c.command ++ (action_of w ∷ []);
    command_len = c.command_len + lib.size_of (lib.ofpat (number_of w));
  }

  append_address :
      (n : ℕ) (a : EtherAddr) (c : Command)
      → IsWritten (address n a)
      → append_case lib (lib.ofpat n) n (address_text a) c ≡ (pos 0, stored c (address n a))
  unfolding append_case append
  append_address n a c h =
      let hex = address_text-is_hex a h.1.1 in
      let back = read_address-address_text a h.1.1 in
      elim h.1.0 [ inl e ↦ rw (e, hex, back) refl | inr e ↦ rw (e, hex, back) refl ]

  read_action-digit :
      (n : ℕ) (param : Option Chars) (text : Chars) (c : Command)
      → n ≤ 10
      → cut_at 47 text ≡ (digit n ∷ [], param)
      → read_action lib text c ≡ (append_action lib n param c >>= λ r. ok r.1)
  unfolding read_action char_at
  read_action-digit n param text c h e = rw e (elim (Bool-cases (n == 10)) [
    | inl ten ↦ let n10 : n ≡ 10 = ground arith in rw n10 refl
    | inr less ↦
        let low : (leb 48 (48 + n) && leb (48 + n) 57) ≡ true = ground arith in
        let same : 48 + n - 48 ≡ n = omega arith in rw (less, low, same) refl
  ])

  read_action-text_of :
      (w : Written) (c : Command) → IsWritten w → read_action lib (text_of w) c ≡ ok (stored c w)
  unfolding append_action append_bare append_case append
  read_action-text_of (alone n) c h =
      read_action-digit n none (text_of (alone n)) c h.0 (cut_at-digit n) ∙ rw h.1 refl
  read_action-text_of (address n a) c h =
      read_action-digit n (some (address_text a)) (text_of (address n a)) c h.0
        (cut_at-slash n (address_text a))
      ∙ ap (λ r. ok r.1) (append_address n a c h)
  read_action-text_of (setting n t v) c h =
      read_action-digit n (some t) (text_of (setting n t v)) c h.0 (cut_at-slash n t)
      ∙ ap (λ r. ok r.1) (append_case-Stands (lib.ofpat n) n t v c h.1.1)

  text_of-NoComma : (w : Written) → IsWritten w → NoComma (text_of w)
  text_of-NoComma (alone n) h = (digit_other n 44 (omega arith), tt)
  text_of-NoComma (address n a) h = (digit_other n 44 (omega arith), (refl, address_text-NoComma a))
  text_of-NoComma (setting n t v) h = (digit_other n 44 (omega arith), (refl, h.1.0))

  -- The last action, and one that another is behind.
  read_actions-last :
      (k : ℕ) (behind : Bool) (w : Written) (c : Command)
      → IsWritten w
      → read_actions lib (suc (suc k)) behind (text_of w) c
        ≡ (if behind then ok (stored c w) else fault)
  unfolding read_actions char_at
  read_actions-last k true w c h =
      rw
        (
          (text_of-starts w []).0,
          cut_at-last (text_of w) (text_of-NoComma w h),
          read_action-text_of w c h,
        )
        refl
  read_actions-last k false w c h =
      rw ((text_of-starts w []).0, cut_at-last (text_of w) (text_of-NoComma w h)) refl

  read_actions-next :
      (k : ℕ) (behind : Bool) (w : Written) (more : Chars) (c : Command)
      → IsWritten w
      → read_actions lib (suc k) behind (text_of w ++ (44 ∷ more)) c
        ≡ read_actions lib k behind more (stored c w)
  unfolding read_actions char_at
  read_actions-next k behind w more c h =
      rw
        (
          (text_of-starts w (44 ∷ more)).1,
          cut_at-comma (text_of w) more (text_of-NoComma w h),
          read_action-text_of w c h,
        )
        refl

  read_actions-listed :
      (k : ℕ) (behind : Bool) (w : Written) (ws : List Written) (c : Command)
      → AllWritten (w ∷ ws)
      → read_actions lib (suc (suc (length ws)) + k) behind (listed w ws) c
        ≡ (if behind then ok (extended c (w ∷ ws)) else fault)
  read_actions-listed k behind w [] c h =
      let fuel : 2 + k ≡ suc (suc k) = omega arith in
      let len : c.command_len + (lib.size_of (lib.ofpat (number_of w)) + 0)
          ≡ (stored c w).command_len =
        omega arith in
      rw (fuel, len) (read_actions-last k behind w c h.0)
  read_actions-listed k behind w (v ∷ ws) c h =
      let fuel : suc (suc (suc (length ws))) + k ≡ suc (suc (suc (length ws)) + k) = omega arith in
      let act = append_assoc c.command (action_of w ∷ []) (map action_of (v ∷ ws)) in
      let size = lib.size_of (lib.ofpat (number_of w)) in
      let len : c.command_len + size + sizes (v ∷ ws) ≡ c.command_len + (size + sizes (v ∷ ws)) =
        omega arith in
      let same : extended (stored c w) (v ∷ ws) ≡ extended c (w ∷ v ∷ ws) = rw (act, len) refl in
      rw (fuel, sym same)
        (read_actions-next _ behind w (listed v ws) c h.0
          ∙ read_actions-listed k behind v ws (stored c w) h.1)

-- The value of the parameter `action` is a list of actions with commas between them. Each is its digit,
-- `a` for 10, and, behind a slash, the address or the value that it sets, which `strtol` or `strtoll`
-- reads, in the range of that action. Where the byte that the loop sets to zero in the end is in the
-- memory, `init` appends exactly these actions to the buffer, in order, with their addresses and values, and
-- the length of the buffer grows by their sizes. Where it is not, `init` writes outside.
pub parse_actions-listed :
    (lib : Library) (behind : Bool) (w : Written) (ws : List Written) (c : Command)
    → AllWritten lib (w ∷ ws)
    → parse_actions lib behind (listed w ws) c
      ≡ (if behind then ok (extended lib c (w ∷ ws)) else fault)
unfolding parse_actions
parse_actions-listed lib behind w ws c h =
    let k = length (listed w ws) - suc (length ws) in
    let fuel : length (listed w ws) + 1 ≡ suc (suc (length ws)) + k =
      omega (arith, listed_size w ws) in
    rw fuel (read_actions-listed lib k behind w ws c h)
