-- ===== src/Setup/Config.antt =====
-- `load_config_file` of usage.c, over what libconfig returns for a file, and `setup_channel_snmp` of
-- channel_info.c.
use oflops_turbo.Base.{
  ℕ, zero, suc, ◌+◌, ◌-◌, ◌*◌, Bool, List, [], ◌∷◌, ◌++◌, Option, none, some, ltb, leb, ◌==◌,
  if◌then◌else◌, length, get_elem?, Run, ok, aborted, fault, out_of_fuel, ◌>>=◌,
}
use oflops_turbo.Base.Int.{ℤ, pos, eqb_ℤ}
use oflops_turbo.Setup.{
  Chars, Channel, Context, System, put_channel, channel_info_init, add_channel, parse_test_module,
}
use oflops_turbo.Setup.Objid.{my_read_objid}
use oflops_turbo.Setup.Args.{to_unsigned}

-- A string setting: absent, there with another type (NULL), or there with a string.
pub data Text : Type 0 where
  absent null : Text
  text : Chars → Text

-- An element of `oflops.data` and of `oflops.module`.
pub record DataElem : Type 0 where
  pub dev : Text
  pub port_num : Option ℤ
  pub in_snmp_mib : Text
  pub out_snmp_mib : Text
  pub type : Text

pub record ModuleElem : Type 0 where
  pub path : Option Chars
  pub param : Option Chars

-- The settings that are looked up; an integer setting of another type reads as 0.
pub record Settings : Type 0 where
  pub traffic_generator : Option ℤ
  pub dump_control_channel : Option ℤ
  pub control_dev : Text
  pub tls_cert : Text
  pub tls_privkey : Text
  pub tls_trustedcert : Text
  pub control_port : Option ℤ
  pub snmp_addr : Text
  pub snmp_community : Text
  pub in_mib : Text
  pub out_mib : Text
  pub cpu_mib : Text
  pub data_elems : List DataElem
  pub modules : List ModuleElem

-- An integer setting that is there and not 0.
pub given : Option ℤ → (ℤ → Context → Context) → Context → Context
given none set ctx = ctx
given (some z) set ctx = if eqb_ℤ z (pos 0) then ctx else set z ctx

-- A string setting that is there.
pub given_text : Text → (Chars → Context → Context) → Context → Context
given_text absent set ctx = ctx
given_text null set ctx = ctx
given_text (text t) set ctx = set t ctx

-- `(elem != NULL) && (strlen(string) > 0)`, with a copy of the string; the length of NULL is a fault.
pub nonempty : Text → Run (Option Chars)
nonempty absent = ok none
nonempty null = fault
nonempty (text t) = ok (if ltb 0 (length t) then some t else none)

module _ (sys : System) where
  read_oid : Option Chars → Run (List ℤ)
  read_oid none = ok []
  read_oid (some t) = my_read_objid sys.atoi sys.max_oid_len t

  pub setup_channel_snmp : Context → ℕ → Option Chars → Option Chars → Run Context
  unfolding read_oid
  setup_channel_snmp ctx ch in_oid out_oid = do
    ins ← read_oid in_oid
    outs ← read_oid out_oid
    put_channel ctx ch (record (ctx.channels ch) { in_oid = ins; out_oid = outs })

  -- `oflops.control.snmp_addr`: the community is only set where its setting is there.
  snmp_of : Settings → Context → Run Context
  snmp_of conf ctx = elim conf.snmp_addr [
    | absent ↦ ok ctx
    | null ↦ ok ctx
    | text client ↦ elim conf.snmp_community [
      | absent ↦ fault
      | null ↦ fault
      | text community ↦ ok (record ctx { snmp = some (some client, some community) })
    ]
  ]

  -- The loop over the tokens of `cpu_mib`. `my_read_objid` returns nothing, and its result is tested:
  -- `is_left` tells what the test finds.
  cpu_oids_of : (Chars → Bool) → List Chars → Context → Run Context
  cpu_oids_of is_left [] ctx = ok ctx
  cpu_oids_of is_left (t ∷ ts) ctx = do
    oid ← my_read_objid sys.atoi sys.max_oid_len t
    let next = cpu_oids_of is_left ts (record ctx { cpu_oids = ctx.cpu_oids ++ (oid ∷ []) })
    if is_left t then next else aborted

  -- `oflops.control.cpu_mib`: a string of delimiters only has no first token.
  cpu_of : (Chars → Bool) → Text → Context → Run Context
  unfolding cpu_oids_of
  cpu_of is_left mib ctx = do
    t ← nonempty mib
    elim t [
      | none ↦ ok ctx
      | some t ↦
          if length (sys.tokens 59 t) == 0 then fault else cpu_oids_of is_left (sys.tokens 59 t) ctx
    ]

  -- The type of a data channel, which is copied to 100 bytes; `cap_type_of` compares it with "pcap" and
  -- "nf2" as `strncasecmp` does.
  cap_type : (Chars → Option ℤ) → Text → Channel → Run Channel
  cap_type cap_type_of t c = nonempty t >>= λ t. elim t [
    | none ↦ ok c
    | some t ↦
        if leb 100 (length t)
        then fault
        else (elim (cap_type_of t) [ none ↦ aborted | some z ↦ ok (record c { cap_type = z }) ])
  ]

  -- One element of `oflops.data`.
  pub add_data_elem : (Chars → Option ℤ) → Context → DataElem → Run Context
  unfolding cap_type
  add_data_elem cap_type_of ctx e = elim e.dev [
    | absent ↦ ok ctx
    | null ↦ fault
    | text dev ↦ (do
      ctx' ← add_channel sys ctx dev
      let last = ctx'.n_channels - 1
      let port : ℤ = elim e.port_num [ none ↦ pos last | some z ↦ z ]
      ins ← nonempty e.in_snmp_mib
      outs ← nonempty e.out_snmp_mib
      c ← cap_type cap_type_of e.type (record (ctx'.channels last) { of_port = port })
      ctx'' ← put_channel ctx' last c
      setup_channel_snmp ctx'' last ins outs)
  ]

  pub add_data : (Chars → Option ℤ) → Context → List DataElem → Run Context
  add_data cap_type_of ctx [] = ok ctx
  add_data cap_type_of ctx (e ∷ es) =
      add_data_elem cap_type_of ctx e >>= λ ctx'. add_data cap_type_of ctx' es

  -- The loop over `oflops.module`, at index `i`. `argc` is never reset, and the loop that frees `argv`
  -- uses `i` as well. Reading `argv` past its end is a fault.
  unfoldable pub load_modules : ℕ → ℕ → Chars → List ModuleElem → ℕ → ℕ → Context → Run Context
  load_modules zero buflen junk elems i argc ctx = out_of_fuel
  load_modules (suc k) buflen junk elems i argc ctx = elim (get_elem? elems i) [
    | none ↦ ok ctx
    | some e ↦ elim e.path [
      | none ↦ load_modules k buflen junk elems (i + 1) argc ctx
      | some path ↦
          let argv : List Chars = elim e.param [ none ↦ path ∷ [] | some p ↦ path ∷ p ∷ [] ] in
          let argc' = argc + length argv in
          let load : Run Context = do
            ctx' ← parse_test_module sys buflen junk ctx argv
            load_modules k buflen junk elems (argc' + 1) argc' ctx'
          in if leb argc' (length argv) then load else fault
    ]
  ]

  -- The settings for the control channel, up to its object ids.
  control_of : (Chars → Bool) → Settings → Context → Run Context
  unfolding snmp_of cpu_of
  control_of is_left conf ctx = do
    let a = given conf.traffic_generator (λ z c. record c { traffic_gen = z }) ctx
    let b = given conf.dump_control_channel (λ z c. record c { dump_controller = z }) a
    c ← elim conf.control_dev [
      | absent ↦ ok b
      | null ↦ ok b
      | text dev ↦ channel_info_init sys dev >>= put_channel b 0
    ]
    let d = given_text conf.tls_cert (λ t c. record c { tls_cert = some t }) c
    let e = given_text conf.tls_privkey (λ t c. record c { tls_privkey = some t }) d
    let f = given_text conf.tls_trustedcert (λ t c. record c { tls_trustedcert = some t }) e
    g ←
        snmp_of conf
          (given conf.control_port (λ z c. record c { listen_port = pos (to_unsigned 65536 z) }) f)
    ins ← nonempty conf.in_mib
    outs ← nonempty conf.out_mib
    h ← setup_channel_snmp g 0 ins outs
    cpu_of is_left conf.cpu_mib h

  -- `load_config_file`, on the settings of the file (`none` where it cannot be read).
  pub load_config_file :
      ℕ → Chars → (Chars → Option ℤ) → (Chars → Bool) → Context → Option Settings → Run Context
  unfolding control_of
  load_config_file buflen junk cap_type_of is_left ctx none = ok ctx
  load_config_file buflen junk cap_type_of is_left ctx (some conf) = do
    a ← control_of is_left conf ctx
    b ← add_data cap_type_of a conf.data_elems
    load_modules (2 * length conf.modules + 2) buflen junk conf.modules 0 0 b
