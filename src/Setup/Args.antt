-- ===== src/Setup/Args.antt =====
-- `parse_args` of usage.c, over what `getopt_long` returns.
use oflops_turbo.Base.{
  ℕ, ◌+◌, ◌-◌, ◌%◌, ◌||◌, List, [], ◌∷◌, ◌++◌, map, Option, none, some, ltb, ◌==◌, if◌then◌else◌,
  length, Run, ok, aborted, ◌>>=◌, assert,
}
use oflops_turbo.Base.Int.{ℤ, pos, negsuc, ltb_ℤ, eqb_ℤ}
use oflops_turbo.Setup.{
  Chars, Context, System, put_channel, channel_info_init, add_channel, parse_test_module,
}

-- `struct option`: a letter, and whether there is an argument (0, 1 or, where it is optional, 2).
pub record LongOption : Type 0 where
  pub val : ℕ
  pub has_arg : ℕ

-- `oflops_options`, without the closing entry.
abbrev pub oflops_options : List LongOption
oflops_options =
    record { val = b'c'; has_arg = 1 }
    ∷ record { val = b's'; has_arg = 2 }
    ∷ record { val = b'd'; has_arg = 1 }
    ∷ record { val = b'p'; has_arg = 1 }
    ∷ record { val = b'o'; has_arg = 1 }
    ∷ record { val = b'g'; has_arg = 1 }
    ∷ record { val = b't'; has_arg = 0 }
    ∷ record { val = b'i'; has_arg = 1 }
    ∷ record { val = b'v'; has_arg = 1 }
    ∷ record { val = b'x'; has_arg = 1 }
    ∷ record { val = b'y'; has_arg = 1 }
    ∷ record { val = b'z'; has_arg = 1 }
    ∷ []

-- `make_short_from_long`
pub make_short_from_long : List LongOption → Chars
make_short_from_long [] = []
make_short_from_long (o ∷ os) =
    let rest = make_short_from_long os in if o.has_arg == 0 then o.val ∷ rest else o.val ∷ 58 ∷ rest

-- What `getopt_long` returns: the letter as a constructor, with `optarg`.
pub data Arg : Type 0 where
  control_dev data_dev port log generator input_config of_versions : Chars → Arg
  tls_cert tls_privkey tls_trustedcert : Chars → Arg
  snmp_dev : Option Chars → Arg
  trace unknown : Arg

-- Conversion of an `int` to `uint16_t` and to `uint8_t`.
abbrev pub to_unsigned : ℕ → ℤ → ℕ
to_unsigned size (pos n) = n % size
to_unsigned size (negsuc n) = size - 1 - n % size

-- The case 'g'.
pub choose_generator : ℤ → ℤ
choose_generator z = if ltb_ℤ z (pos 1) || ltb_ℤ (pos 2) z then pos 2 else z

-- The first token and the second, as `strtok` returns them.
unfoldable pub first_two : List Chars → Option Chars × Option Chars
first_two [] = (none, none)
first_two (x ∷ []) = (some x, none)
first_two (x ∷ y ∷ rest) = (some x, some y)

module _ (sys : System) (load_config_file : Context → Chars → Run Context) where
  -- The case 'd'; a channel without a port has the number of its place.
  unfoldable pub add_data_channel : Context → Chars → Run Context
  add_data_channel ctx dev = do
    ctx' ← add_channel sys ctx dev
    let c = ctx'.channels (ctx'.n_channels - 1)
    if eqb_ℤ c.of_port (negsuc 0)
        then put_channel ctx' (ctx'.n_channels - 1)
            (record c { of_port = pos (ctx'.n_channels - 1) })
        else ok ctx'

  -- The switch statement; `snmp_arg` counts the options 's'.
  unfoldable pub apply_arg : Context → ℕ → Arg → Run (ℕ × Context)
  unfolding first_two
  apply_arg ctx snmp_arg (control_dev a) =
      assert (ltb 0 ctx.n_channels)
        (do c ← channel_info_init sys a; ctx' ← put_channel ctx 0 c; ok (snmp_arg, ctx'))
  apply_arg ctx snmp_arg (snmp_dev a) = assert (ltb (snmp_arg + 1) 2) (elim a [
    | none ↦ aborted
    | some a ↦ ok (snmp_arg + 1, record ctx { snmp = some (first_two (sys.tokens 58 a)) })
  ])
  apply_arg ctx snmp_arg (data_dev a) = add_data_channel ctx a >>= λ ctx'. ok (snmp_arg, ctx')
  apply_arg ctx snmp_arg (port a) =
      ok (snmp_arg, record ctx { listen_port = pos (to_unsigned 65536 (sys.atoi a)) })
  apply_arg ctx snmp_arg (log a) = ok (snmp_arg, record ctx { log = a })
  apply_arg ctx snmp_arg (generator a) =
      ok (snmp_arg, record ctx { traffic_gen = choose_generator (sys.atoi a) })
  apply_arg ctx snmp_arg (input_config a) = load_config_file ctx a >>= λ ctx'. ok (snmp_arg, ctx')
  apply_arg ctx snmp_arg trace = ok (snmp_arg, record ctx { dump_controller = pos 1 })
  apply_arg ctx snmp_arg (tls_cert a) = ok (snmp_arg, record ctx { tls_cert = some a })
  apply_arg ctx snmp_arg (tls_privkey a) = ok (snmp_arg, record ctx { tls_privkey = some a })
  apply_arg ctx snmp_arg (tls_trustedcert a) =
      ok (snmp_arg, record ctx { tls_trustedcert = some a })
  apply_arg ctx snmp_arg (of_versions a) = ok (
    snmp_arg,
    record ctx {
      of_versions = ctx.of_versions ++ map (λ t. to_unsigned 256 (sys.atoi t)) (sys.tokens 44 a);
    },
  )
  apply_arg ctx snmp_arg unknown = aborted

  -- The loop over the options.
  unfoldable pub apply_args : Context → ℕ → List Arg → Run Context
  apply_args ctx snmp_arg [] = ok ctx
  apply_args ctx snmp_arg (a ∷ args) = apply_arg ctx snmp_arg a >>= λ r. apply_args r.1 r.0 args

  -- `parse_args`: the options, and the arguments after them, which name a test module.
  unfoldable pub parse_args : ℕ → Chars → Context → List Arg → List Chars → Run Context
  parse_args buflen junk ctx args rest = do
    ctx' ← apply_args ctx 0 args
    if ltb 0 (length rest) then parse_test_module sys buflen junk ctx' rest else ok ctx'
