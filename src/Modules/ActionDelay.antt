-- ===== src/Modules/ActionDelay.antt =====
-- example_modules/openflow_action_delay/action_delay.c: how the module that measures the actions of a flow
-- reads them from its argument. The buffer `command` is the list of its actions. What `realloc` leaves
-- in the padding of an action, and logging, are not modelled; the rest of the module is as in the other ones.
pub mod Address
pub mod Written
pub mod Actions
use oflops_turbo.Base.{
  ℕ, zero, suc, ◌+◌, ◌-◌, ◌*◌, ◌%◌, ◌^◌, Bool, true, false, ◌&&◌, ◌||◌, not, List, [], ◌∷◌, ◌++◌,
  drop, Option, none, some, leb, ◌==◌, if◌then◌else◌, length, Run, ok, fault, out_of_fuel, ◌>>=◌,
}
use oflops_turbo.Base.Int.{ℤ, pos, negsuc, ltb_ℤ}
use oflops_turbo.Msg.{EtherAddr}
use oflops_turbo.Setup.{Chars, cut_at}
use oflops_turbo.Setup.Args.{to_unsigned}

-- The cases of the switch of `append_action`.
pub data Ofpat : Type 0 where
  output : Ofpat
  set_vlan_vid : Ofpat
  set_vlan_pcp : Ofpat
  strip_vlan : Ofpat
  set_dl_src : Ofpat
  set_dl_dst : Ofpat
  set_nw_src : Ofpat
  set_nw_dst : Ofpat
  set_nw_tos : Ofpat
  set_tp_src : Ofpat
  set_tp_dst : Ofpat
  other : Ofpat

-- What the code uses of other libraries: `strtol` and `strtoll` with their base, and, from openflow.h, the
-- constants OFPAT_* and the sizes of the actions.
pub record Library : Type 0 where
  pub strtol : ℕ → Chars → ℤ
  pub strtoll : ℕ → Chars → ℤ
  pub ofpat : ℕ → Ofpat
  pub size_of : Ofpat → ℕ

-- What an action holds behind its type and its length. A field is given by its value: that `htons` and `htonl`
-- turn it to network order is not shown.
pub data Body : Type 0 where
  to_port : ℕ → ℕ → Body
  vlan_vid : ℕ → Body
  vlan_pcp : ℕ → Body
  nothing : Body
  dl_addr : EtherAddr → Body
  nw_addr : ℕ → Body
  nw_tos : ℕ → Body
  tp_port : ℕ → Body

pub record OfpAction : Type 0 where
  pub type : ℕ
  pub len : ℕ
  pub body : Body

-- The variables `command` and `command_len`.
pub record Command : Type 0 where
  pub command : List OfpAction
  pub command_len : ℕ

-- The test on a character in `is_hex`; the end of the string is no such character.
pub is_hex_char : ℕ → Bool
is_hex_char c = (leb 65 c && leb c 70) || ((leb 97 c && leb c 102) || (leb 48 c && leb c 57))

pub is_hex : Chars → ℕ → Bool
is_hex cs zero = true
is_hex [] (suc n) = false
is_hex (c ∷ cs) (suc n) = let rest = is_hex cs n in if not (is_hex_char c) then false else rest

-- A round of the loop of `read_hex`, in `uint8_t`.
pub hex_step : ℕ → ℕ → ℕ
hex_step ret c =
    let shifted = ret * 16 % 256 in
    if leb 65 c && leb c 70
    then (shifted + (10 + (c - 65))) % 256
    else if leb 97 c && leb c 102
    then (shifted + (10 + (c - 97))) % 256
    else if leb 48 c && leb c 57
    then (shifted + (c - 48)) % 256
    else shifted

-- The character that a pointer points to.
pub char_at : Chars → ℕ
char_at [] = 0
char_at (c ∷ cs) = c

pub read_hex : Chars → ℕ
read_hex text = hex_step (hex_step 0 (char_at text)) (char_at (drop 1 text))

-- The loop that reads an Ethernet address.
pub read_address : Chars → EtherAddr
read_address text = record {
  byte0 = read_hex text;
  byte1 = read_hex (drop 2 text);
  byte2 = read_hex (drop 4 text);
  byte3 = read_hex (drop 6 text);
  byte4 = read_hex (drop 8 text);
  byte5 = read_hex (drop 10 text);
}

module _ (lib : Library) where
  -- The end of each case: the buffer grows by the size of the action, which is stored in it.
  pub append : Ofpat → OfpAction → Command → ℤ × Command
  append k act c = (
    pos 0,
    record { command = c.command ++ (act ∷ []); command_len = c.command_len + lib.size_of k },
  )

  -- The cases, with a parameter.
  pub append_case : Ofpat → ℕ → Chars → Command → ℤ × Command
  append_case output n t c =
      let port = to_unsigned 65536 (lib.strtol 10 t) in
      append output (record { type = n; len = 8; body = to_port port 2000 }) c
  append_case set_vlan_vid n t c =
      let z = lib.strtol 10 t in
      if ltb_ℤ z (pos 0) || not (ltb_ℤ z (pos 4095))
      then (negsuc 0, c)
      else append set_vlan_vid (record { type = n; len = 8; body = vlan_vid (to_unsigned 65536 z) })
          c
  append_case set_vlan_pcp n t c =
      let z = lib.strtol 16 t in
      if ltb_ℤ z (pos 0) || ltb_ℤ (pos 7) z
      then (negsuc 0, c)
      else append set_vlan_pcp (record { type = n; len = 8; body = vlan_pcp (to_unsigned 256 z) }) c
  append_case strip_vlan n t c = append strip_vlan (record { type = n; len = 8; body = nothing }) c
  append_case set_dl_src n t c =
      if not (length t == 12) || not (is_hex t 12)
      then (negsuc 0, c)
      else append set_dl_src (record { type = n; len = 16; body = dl_addr (read_address t) }) c
  append_case set_dl_dst n t c =
      if not (length t == 12) || not (is_hex t 12)
      then (negsuc 0, c)
      else append set_dl_dst (record { type = n; len = 16; body = dl_addr (read_address t) }) c
  append_case set_nw_src n t c =
      let address = to_unsigned (2 ^ 32) (lib.strtoll 16 t) in
      if not (length t == 8) || not (is_hex t 8)
      then (negsuc 0, c)
      else append set_nw_src (record { type = n; len = 8; body = nw_addr address }) c
  append_case set_nw_dst n t c =
      let address = to_unsigned (2 ^ 32) (lib.strtoll 16 t) in
      if not (length t == 8) || not (is_hex t 8)
      then (negsuc 0, c)
      else append set_nw_dst (record { type = n; len = 8; body = nw_addr address }) c
  append_case set_nw_tos n t c =
      let tos = to_unsigned 256 (lib.strtol 16 t) in
      append set_nw_tos (record { type = n; len = 8; body = nw_tos tos }) c
  append_case set_tp_src n t c =
      let port = to_unsigned 65536 (lib.strtol 16 t) in
      append set_tp_src (record { type = n; len = 8; body = tp_port port }) c
  append_case set_tp_dst n t c =
      let port = to_unsigned 65536 (lib.strtol 16 t) in
      append set_tp_dst (record { type = n; len = 8; body = tp_port port }) c
  append_case other n t c = (pos 0, c)

  -- The cases, without one: only the removal of the VLAN and an unknown action do not read it.
  pub append_bare : Ofpat → ℕ → Command → Run (ℤ × Command)
  append_bare strip_vlan n c = ok (append_case strip_vlan n [] c)
  append_bare other n c = ok (pos 0, c)
  append_bare k n c = fault

  -- `append_action`, where `action_param` may be null.
  pub append_action : ℕ → Option Chars → Command → Run (ℤ × Command)
  append_action n none c = append_bare (lib.ofpat n) n c
  append_action n (some t) c = ok (append_case (lib.ofpat n) n t c)

  -- The body of the loop over the actions in `init`, for one of them. A result of -1 is ignored.
  pub read_action : Chars → Command → Run Command
  read_action action c =
      let (name, param) = cut_at 47 action in
      let first = char_at name in
      if leb 48 first && leb first 57
      then (append_action (first - 48) param c >>= λ r. ok r.1)
      else if first == 97
      then (append_action 10 param c >>= λ r. ok r.1)
      else ok c

  -- That loop. Behind the last action it writes a zero at `config_str + len + 1`, behind the end of the
  -- argument; `behind` says whether that byte is in the memory. What the zero changes is not modelled.
  pub read_actions : ℕ → Bool → Chars → Command → Run Command
  read_actions zero behind p c = out_of_fuel
  read_actions (suc k) behind p c =
      let (action, rest) = cut_at 44 p in
      let step : Run Command = do
        next ← elim rest [ none ↦ if behind then ok [] else fault | some more ↦ ok more ]
        c' ← read_action action c
        read_actions k behind next c'
      in if (char_at p == 32) || (char_at p == 0) then ok c else step

  pub parse_actions : Bool → Chars → Command → Run Command
  parse_actions behind value c = read_actions (length value + 1) behind value c
