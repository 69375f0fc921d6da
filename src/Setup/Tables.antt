-- ===== src/Setup/Tables.antt =====
-- The arrays of channels and of tests: no write of the setup is outside of them.
use oflops_turbo.Base.{
  ℕ, ◌+◌, ◌-◌, ◌*◌, ◌<◌, ◌≡◌, refl, inl, inr, Bool, Bool-cases, true, List, [], ◌∷◌, Option, none,
  some, replicate, length, ◌&&◌, arith, ltb, leb, if◌then◌else◌, Run, ok, aborted,
}
use oflops_turbo.Base.Int.{ℤ, pos, negsuc, eqb_ℤ}
use oflops_turbo.Setup.{
  cut_at, pcap, Chars, Channel, TestModule, Context, System, put_channel, channel_info_init,
  grow_channels, add_channel, Hook, install, join_args, load_test_module, parse_test_module,
}
use oflops_turbo.Setup.Args.{
  Arg, control_dev, snmp_dev, data_dev, port, log, generator, input_config, trace, tls_cert,
  tls_privkey, tls_trustedcert, of_versions, unknown, add_data_channel, apply_arg, apply_args,
  parse_args,
}
use oflops_turbo.Setup.Safe.{IsFitting, IsSafe, returned, exited, IsSafe-bind, IsSafe-map}

-- An option other than that for a configuration file.
abbrev pub IsDirect : Arg → Type 0
IsDirect a = elim a [ input_config s ↦ ⊥ | _ ↦ Unit ]

abbrev pub AllDirect : List Arg → Type 0
AllDirect [] = Unit
AllDirect (a ∷ args) = IsDirect a × AllDirect args

module _ (sys : System)
    (keeps : (m : TestModule) (s : Chars) (ctx : Context)
      → IsFitting ctx
      → IsFitting (sys.run_init m s ctx)) where
  channel_info_init-IsSafe : (dev : Chars) → IsSafe (λ c. Unit {0}) (channel_info_init sys dev)
  unfolding channel_info_init
  channel_info_init-IsSafe dev = go (sys.ifindex_of (cut_at 58 dev).0)
    where
      go :
          (i : Option ℤ)
          → IsSafe {A = Channel}
              (λ c. Unit {0})
              (elim i [
                | none ↦ aborted
                | some i ↦ ok (record {
                  dev = (cut_at 58 dev).0;
                  of_port = elim (cut_at 58 dev).1 [ none ↦ negsuc 0 | some p ↦ sys.atoi p ];
                  in_oid = replicate sys.max_oid_len (pos 0);
                  out_oid = replicate sys.max_oid_len (pos 0);
                  pcap_fd = negsuc 0;
                  raw_sock = negsuc 0;
                  sock = negsuc 0;
                  cap_type = pcap;
                  ifindex = i;
                })
              ])
      go none = exited
      go (some i) = returned tt

  put_channel-IsSafe :
      (ctx : Context) (i : ℕ) (c : Channel)
      → IsFitting ctx
      → i < ctx.max_channels
      → IsSafe
          (λ d. IsFitting d × (d.n_channels ≡ ctx.n_channels) × (d.max_channels ≡ ctx.max_channels))
          (put_channel ctx i c)
  unfolding put_channel
  put_channel-IsSafe ctx i c v h =
      let inside : ltb i ctx.max_channels ≡ true = ground arith in
      rw inside (
        returned (
          record { control = v.control; channels = v.channels; tests = v.tests; room = v.room },
          refl,
          refl,
        ))

  grow_channels-IsFitting :
      (ctx : Context)
      → IsFitting ctx
      → IsFitting (grow_channels ctx)
        × ((grow_channels ctx).n_channels < (grow_channels ctx).max_channels)
  unfolding grow_channels
  grow_channels-IsFitting ctx v = elim (Bool-cases (leb ctx.max_channels ctx.n_channels)) [
    | inl full ↦ rw full (
      record {
        control = v.control;
        channels = omega (arith, v.channels);
        tests = v.tests;
        room = v.room;
      },
      ground (arith, v.control, v.channels),
    )
    | inr free ↦ rw free (v, ground (arith, v.channels))
  ]

  add_channel-IsSafe :
      (ctx : Context) (dev : Chars)
      → IsFitting ctx
      → IsSafe (λ d. IsFitting d × (1 < d.n_channels)) (add_channel sys ctx dev)
  unfolding add_channel
  add_channel-IsSafe ctx dev v =
      let g = grow_channels-IsFitting ctx v in
      IsSafe-bind (channel_info_init-IsSafe dev) λ c _.
        IsSafe-bind
          (put_channel-IsSafe (grow_channels ctx) (grow_channels ctx).n_channels c g.0 g.1)
          λ d p. returned (
            record {
              control = omega arith;
              channels = omega (arith, p.2, g.1);
              tests = p.0.tests;
              room = p.0.room;
            },
            omega (arith, g.0.control),
          )

  add_data_channel-IsSafe :
      (load : Context → Chars → Run Context) (ctx : Context) (dev : Chars)
      → IsFitting ctx
      → IsSafe IsFitting (add_data_channel sys load ctx dev)
  unfolding add_data_channel
  add_data_channel-IsSafe load ctx dev v = IsSafe-bind (add_channel-IsSafe ctx dev v) λ d p.
      elim (Bool-cases (eqb_ℤ (d.channels (d.n_channels - 1)).of_port (negsuc 0))) [
        | inl none_given ↦ rw none_given (
            IsSafe-map
              (put_channel-IsSafe d (d.n_channels - 1) _ p.0 (omega (arith, p.0.channels, p.1)))
              λ e q. q.0)
        | inr given ↦ rw given (returned p.0)
      ]

  install-IsSafe :
      (ctx : Context) (loaded : TestModule) (initstr : Chars)
      → IsFitting ctx
      → IsSafe {A = Bool × Context} (λ r. IsFitting r.1) (install sys ctx loaded initstr)
  unfolding install
  install-IsSafe ctx loaded initstr v = elim (Bool-cases (leb ctx.max_tests ctx.n_tests)) [
    | inl full ↦
        let room : ltb ctx.n_tests (ctx.max_tests * 2) ≡ true = ground (arith, v.room, v.tests) in
        rw (full, room)
          (returned (
            keeps loaded initstr _ (record {
              control = v.control;
              channels = v.channels;
              tests = omega (arith, v.tests, v.room);
              room = omega (arith, v.room);
            })))
    | inr free ↦
        let room : ltb ctx.n_tests ctx.max_tests ≡ true = ground (arith, v.tests) in
        rw (free, room)
          (returned (
            keeps loaded initstr _ (record {
              control = v.control;
              channels = v.channels;
              tests = ground arith;
              room = v.room;
            })))
  ]

  load_test_module-IsSafe :
      (ctx : Context) (file initstr : Chars)
      → IsFitting ctx
      → IsSafe {A = Bool × Context} (λ r. IsFitting r.1) (load_test_module sys ctx file initstr)
  unfolding load_test_module
  load_test_module-IsSafe ctx file initstr v = go (sys.dlopen file)
    where
      go :
          (o : Option (Bool × Bool × (Hook → Bool)))
          → IsSafe {A = Bool × Context}
              (λ r. IsFitting r.1)
              (elim o [
                | none ↦ ok (true, ctx)
                | some (name, start, own) ↦
                    if name && start
                    then install sys ctx (record { file = file; is_own = own }) initstr
                    else ok (true, ctx)
              ])
      go none = returned v
      go (some (name, start, own)) = elim (Bool-cases (name && start)) [
        | inl both ↦ rw both (install-IsSafe ctx (record { file = file; is_own = own }) initstr v)
        | inr not_both ↦ rw not_both (returned v)
      ]

  parse_test_module-IsSafe :
      (buflen : ℕ) (junk : Chars) (ctx : Context) (args : List Chars)
      → IsFitting ctx
      → IsSafe IsFitting (parse_test_module sys buflen junk ctx args)
  unfolding parse_test_module
  parse_test_module-IsSafe buflen junk ctx [] v = exited
  parse_test_module-IsSafe buflen junk ctx (file ∷ args) v =
      IsSafe-bind (load_test_module-IsSafe ctx file (join_args sys buflen junk 0 args) v)
        λ r vr. returned vr

  module _ (load : Context → Chars → Run Context) where
    apply_arg-IsSafe :
        (ctx : Context) (n : ℕ) (a : Arg)
        → IsDirect a
        → IsFitting ctx
        → IsSafe {A = ℕ × Context} (λ r. IsFitting r.1) (apply_arg sys load ctx n a)
    unfolding apply_arg
    apply_arg-IsSafe ctx n (control_dev a) direct v =
        let some_channel : ltb 0 ctx.n_channels ≡ true = ground (arith, v.control) in
        rw some_channel (
          IsSafe-bind (channel_info_init-IsSafe a) λ c _.
            IsSafe-bind (put_channel-IsSafe ctx 0 c v (omega (arith, v.control, v.channels)))
              λ d p. returned p.0)
    apply_arg-IsSafe ctx n (snmp_dev none) direct v = elim (Bool-cases (ltb (n + 1) 2)) [
      | inl first ↦ rw first exited
      | inr again ↦ rw again exited
    ]
    apply_arg-IsSafe ctx n (snmp_dev (some a)) direct v = elim (Bool-cases (ltb (n + 1) 2)) [
      | inl first ↦ rw first (
          returned
            (record { control = v.control; channels = v.channels; tests = v.tests; room = v.room }))
      | inr again ↦ rw again exited
    ]
    apply_arg-IsSafe ctx n (data_dev a) direct v =
        IsSafe-bind (add_data_channel-IsSafe load ctx a v) λ d p. returned p
    apply_arg-IsSafe ctx n (port a) direct v =
        returned
          (record { control = v.control; channels = v.channels; tests = v.tests; room = v.room })
    apply_arg-IsSafe ctx n (log a) direct v =
        returned
          (record { control = v.control; channels = v.channels; tests = v.tests; room = v.room })
    apply_arg-IsSafe ctx n (generator a) direct v =
        returned
          (record { control = v.control; channels = v.channels; tests = v.tests; room = v.room })
    apply_arg-IsSafe ctx n (input_config a) direct v = absurd direct
    apply_arg-IsSafe ctx n trace direct v =
        returned
          (record { control = v.control; channels = v.channels; tests = v.tests; room = v.room })
    apply_arg-IsSafe ctx n (tls_cert a) direct v =
        returned
          (record { control = v.control; channels = v.channels; tests = v.tests; room = v.room })
    apply_arg-IsSafe ctx n (tls_privkey a) direct v =
        returned
          (record { control = v.control; channels = v.channels; tests = v.tests; room = v.room })
    apply_arg-IsSafe ctx n (tls_trustedcert a) direct v =
        returned
          (record { control = v.control; channels = v.channels; tests = v.tests; room = v.room })
    apply_arg-IsSafe ctx n (of_versions a) direct v =
        returned
          (record { control = v.control; channels = v.channels; tests = v.tests; room = v.room })
    apply_arg-IsSafe ctx n unknown direct v = exited

    apply_args-IsSafe :
        (args : List Arg) (ctx : Context) (n : ℕ)
        → AllDirect args
        → IsFitting ctx
        → IsSafe IsFitting (apply_args sys load ctx n args)
    unfolding apply_args
    apply_args-IsSafe [] ctx n direct v = returned v
    apply_args-IsSafe (a ∷ args) ctx n direct v =
        IsSafe-bind (apply_arg-IsSafe ctx n a direct.0 v)
          λ r p. apply_args-IsSafe args r.1 r.0 direct.1 p

    -- A command line without the option for a configuration file, and whatever else is on it.
    -- `parse_args` never writes outside of the arrays of channels and of test modules, and leaves
    -- a context whose tables fit, if the `init` of the modules keeps the tables in order.
    pub parse_args-IsSafe :
        (buflen : ℕ) (junk : Chars) (ctx : Context) (args : List Arg) (rest : List Chars)
        → AllDirect args
        → IsFitting ctx
        → IsSafe IsFitting (parse_args sys load buflen junk ctx args rest)
    unfolding parse_args
    parse_args-IsSafe buflen junk ctx args rest direct v =
        IsSafe-bind (apply_args-IsSafe args ctx 0 direct v) λ d p.
          elim (Bool-cases (ltb 0 (length rest))) [
            | inl some_left ↦ rw some_left (parse_test_module-IsSafe buflen junk d rest p)
            | inr none_left ↦ rw none_left (returned p)
          ]
