-- ===== src/Setup.antt =====
-- How a run is set up: context.c, channel_info.c, usage.c, and `load_test_module` of module_run.c.
-- A string is the list of its characters. The arrays `channels` and `tests` are functions from
-- indices with the length that was allocated; a write outside of it is a fault. Memory does not run
-- out, messages to the terminal are left out, and a call that ends the process is `aborted`.
pub mod Objid
pub mod Args
pub mod Config
pub mod Safe
pub mod Tables
pub mod Modules
pub mod Tests
use oflops_turbo.Base.{
  ℕ, zero, suc, ◌+◌, ◌-◌, ◌*◌, Bool, true, false, ◌||◌, ◌&&◌, List, [], ◌∷◌, ◌++◌, Option, none,
  some, ltb, leb, ◌==◌, if◌then◌else◌, length, take, replicate, Run, ok, aborted, fault, ◌>>=◌,
}
use oflops_turbo.Base.Int.{ℤ, pos, negsuc}
use oflops_turbo.Base.Memory.{update}

abbrev pub Chars : Type 0
Chars = List ℕ

-- `struct channel_info`, the fields that the setup writes; an oid is the list of its numbers.
pub record Channel : Type 0 where
  pub dev : Chars
  pub of_port : ℤ
  pub in_oid : List ℤ
  pub out_oid : List ℤ
  pub pcap_fd : ℤ
  pub raw_sock : ℤ
  pub sock : ℤ
  pub cap_type : ℤ
  pub ifindex : ℤ

-- PCAP and NF2, and the traffic generators.
abbrev pub pcap : ℤ
pcap = pos 1

abbrev pub nf2 : ℤ
nf2 = pos 2

abbrev pub pktgen : ℤ
pktgen = pos 2

-- The functions that `load_test_module` looks for.
pub data Hook : Type 0 where
  init destroy get_pcap_filter handle_pcap_event of_event_packet_in of_event_flow_removed : Hook
  of_event_echo_request of_event_port_status of_event_other handle_timer_event : Hook
  handle_snmp_event handle_traffic_generation of_message get_openflow_versions : Hook

-- `struct test_module`: its file, and for each hook whether it is the module's own or the default.
pub record TestModule : Type 0 where
  pub file : Chars
  pub is_own : Hook → Bool

-- `struct oflops_context`, the fields that the setup writes.
pub record Context : Type 0 where
  pub n_tests : ℕ
  pub max_tests : ℕ
  pub tests : ℕ → TestModule
  pub listen_port : ℤ
  pub snaplen : ℕ
  pub n_channels : ℕ
  pub max_channels : ℕ
  pub channels : ℕ → Channel
  pub of_versions : List ℕ
  pub tls_cert : Option Chars
  pub tls_privkey : Option Chars
  pub tls_trustedcert : Option Chars
  pub dump_controller : ℤ
  pub log : Chars
  pub traffic_gen : ℤ
  pub cpu_oids : List (List ℤ)
  pub started : Bool
  pub snmp : Option (Option Chars × Option Chars)

-- What the setup uses of other libraries: `atoi` and `strtol`, `strtok` with one delimiter as the list
-- of its tokens, the index of an interface, what `dlopen` and `dlsym` find in a file (`name` and
-- `start`, and the hooks), MAX_OID_LEN and OFP_TCP_PORT, and the `init` of a module.
pub record System : Type 0 where
  pub atoi : Chars → ℤ
  pub tokens : ℕ → Chars → List Chars
  pub ifindex_of : Chars → Option ℤ
  pub dlopen : Chars → Option (Bool × Bool × (Hook → Bool))
  pub max_oid_len : ℕ
  pub tcp_port : ℕ
  pub run_init : TestModule → Chars → Context → Context

-- `oflops_default_context`: the memory of the two arrays holds `junk` and `junk_tests`.
unfoldable pub oflops_default_context : System → Chars → (ℕ → Channel) → (ℕ → TestModule) → Context
oflops_default_context sys log_file junk junk_tests = record {
  n_tests = 0;
  max_tests = 10;
  tests = junk_tests;
  listen_port = pos sys.tcp_port;
  snaplen = 112;
  n_channels = 1;
  max_channels = 10;
  channels = update junk 0 (record (junk 0) { raw_sock = negsuc 0 });
  of_versions = [];
  tls_cert = none;
  tls_privkey = none;
  tls_trustedcert = none;
  dump_controller = pos 0;
  log = log_file;
  traffic_gen = pktgen;
  cpu_oids = [];
  started = false;
  snmp = none;
}

-- A write to `ctx->channels[i]`.
pub put_channel : Context → ℕ → Channel → Run Context
put_channel ctx i c =
    if ltb i ctx.max_channels then ok (record ctx { channels = update ctx.channels i c }) else fault

-- The resize in front of a new data channel.
pub grow_channels : Context → Context
grow_channels ctx =
    if leb ctx.max_channels ctx.n_channels
    then record ctx { max_channels = ctx.max_channels * 2 }
    else ctx

-- `index(dev, ':')`: the part before the colon, and the part after it.
unfoldable pub cut_at : ℕ → Chars → Chars × Option Chars
cut_at d [] = ([], none)
cut_at d (c ∷ cs) = let r = cut_at d cs in if c == d then ([], some cs) else (c ∷ r.0, r.1)

module _ (sys : System) where
  -- `channel_info_init`: the new channel.
  pub channel_info_init : Chars → Run Channel
  channel_info_init dev =
      let (name, port) = cut_at 58 dev in
      elim (sys.ifindex_of name) [
        | none ↦ aborted
        | some i ↦ ok (record {
          dev = name;
          of_port = elim port [ none ↦ negsuc 0 | some p ↦ sys.atoi p ];
          in_oid = replicate sys.max_oid_len (pos 0);
          out_oid = replicate sys.max_oid_len (pos 0);
          pcap_fd = negsuc 0;
          raw_sock = negsuc 0;
          sock = negsuc 0;
          cap_type = pcap;
          ifindex = i;
        })
      ]

  -- A channel in the first free place.
  pub add_channel : Context → Chars → Run Context
  add_channel ctx dev = do
    let ctx' = grow_channels ctx
    c ← channel_info_init dev
    ctx'' ← put_channel ctx' ctx'.n_channels c
    ok (record ctx'' { n_channels = ctx'.n_channels + 1 })

  -- The end of `load_test_module`: the module in the first free place of `tests`, and its `init`.
  pub install : Context → TestModule → Chars → Run (Bool × Context)
  install ctx loaded initstr =
      let grown =
        if leb ctx.max_tests ctx.n_tests
        then record ctx { max_tests = ctx.max_tests * 2 }
        else ctx in
      if ltb grown.n_tests grown.max_tests
      then ok (
        false,
        sys.run_init loaded initstr (record grown {
          tests = update grown.tests grown.n_tests loaded;
          n_tests = grown.n_tests + 1;
        }),
      )
      else fault

  -- `load_test_module`: whether it fails, and the context.
  pub load_test_module : Context → Chars → Chars → Run (Bool × Context)
  load_test_module ctx file initstr = elim (sys.dlopen file) [
    | none ↦ ok (true, ctx)
    | some (name, start, own) ↦
        if name && start
        then install ctx (record { file = file; is_own = own }) initstr
        else ok (true, ctx)
  ]

  -- The loop of `parse_test_module`, with the buffer and `count`: " %s" of each argument, cut where
  -- the BUFLEN bytes of the buffer end.
  pub join_args : ℕ → Chars → ℕ → List Chars → Chars
  join_args buflen buf count [] = buf
  join_args buflen buf count (arg ∷ args) =
      let more =
        join_args buflen (take count buf ++ take (buflen - count - 1 - 1) (32 ∷ arg))
          (count + suc (length arg)) args in
      if ltb count buflen then more else buf

  -- `parse_test_module`; the buffer holds `junk` where there is no second argument.
  pub parse_test_module : ℕ → Chars → Context → List Chars → Run Context
  parse_test_module buflen junk ctx [] = aborted
  parse_test_module buflen junk ctx (file ∷ args) = do
    (failed, ctx') ← load_test_module ctx file (join_args buflen junk 0 args)
    ok ctx'
