-- ===== src/Setup/Tests.antt =====
-- The statements about the setup at a concrete command line, configuration and object id.
use oflops_turbo.Base.{
  ℕ, ◌+◌, ◌-◌, ◌*◌, ◌≡◌, refl, map, true, false, [], ◌∷◌, none, some, arith, ok, fault, ◌>>=◌,
}
use oflops_turbo.Base.Int.{pos, negsuc}
use oflops_turbo.Setup.{
  Chars, Channel, Context, System, TestModule, oflops_default_context, parse_test_module, pcap,
}
use oflops_turbo.Setup.Objid.{my_read_objid, dotted, my_read_objid-dotted}
use oflops_turbo.Setup.Args.{data_dev, control_dev, parse_args}
use oflops_turbo.Setup.Config.{load_modules}
use oflops_turbo.Setup.Safe.{IsFitting, IsSafe}
use oflops_turbo.Setup.Tables.{parse_args-IsSafe}
use oflops_turbo.Setup.Modules.{module_elem, load_modules_first}

-- The value of a string of decimal digits.
abbrev decimal : ℕ → Chars → ℕ
decimal acc [] = acc
decimal acc (c ∷ cs) = decimal (10 * acc + (c - 48)) cs

-- Interfaces all have the number 3, and every file holds a test module without hooks of its own.
abbrev system : System
system = record {
  atoi = λ s. pos (decimal 0 s);
  tokens = λ d s. s ∷ [];
  ifindex_of = λ s. some (pos 3);
  dlopen = λ s. some (true, true, λ h. false);
  max_oid_len = 4;
  tcp_port = 6633;
  run_init = λ m s ctx. ctx;
}

-- 1.3.6
my_read_objid-dotted_example :
    my_read_objid (λ s. pos (decimal 0 s)) 4 (49 ∷ 46 ∷ 51 ∷ 46 ∷ 54 ∷ [])
    ≡ ok (pos 1 ∷ pos 3 ∷ pos 6 ∷ [])
unfolding dotted
my_read_objid-dotted_example =
    my_read_objid-dotted (λ s. pos (decimal 0 s)) 4 (49 ∷ []) ((51 ∷ []) ∷ (54 ∷ []) ∷ [])
      (((refl, tt), omega arith), (((refl, tt), omega arith), (((refl, tt), omega arith), tt)))

abbrev no_channel : Channel
no_channel = record {
  dev = [];
  of_port = negsuc 0;
  in_oid = [];
  out_oid = [];
  pcap_fd = negsuc 0;
  raw_sock = negsuc 0;
  sock = negsuc 0;
  cap_type = pcap;
  ifindex = pos 0;
}

abbrev no_module : TestModule
no_module = record { file = []; is_own = λ h. false }

abbrev pub context : Context
context = oflops_default_context system (b'l' ∷ b'o' ∷ b'g' ∷ []) (λ i. no_channel) (λ i. no_module)

context-IsFitting : IsFitting context
unfolding oflops_default_context
context-IsFitting = record {
  control = omega arith;
  channels = omega arith;
  tests = omega arith;
  room = omega arith;
}

parse_args-IsSafe_example : IsSafe IsFitting (
    parse_args system
      (λ ctx s. fault)
      1024
      []
      context
      (control_dev (b'e' ∷ b't' ∷ b'h' ∷ b'0' ∷ [])
        ∷ data_dev (b'e' ∷ b't' ∷ b'h' ∷ b'1' ∷ b':' ∷ b'2' ∷ [])
        ∷ [])
      ((b'm' ∷ b'.' ∷ b's' ∷ b'o' ∷ []) ∷ []))
parse_args-IsSafe_example =
    parse_args-IsSafe system (λ m s ctx v. v) (λ ctx s. fault) 1024 [] context
      (control_dev (b'e' ∷ b't' ∷ b'h' ∷ b'0' ∷ [])
        ∷ data_dev (b'e' ∷ b't' ∷ b'h' ∷ b'1' ∷ b':' ∷ b'2' ∷ [])
        ∷ [])
      ((b'm' ∷ b'.' ∷ b's' ∷ b'o' ∷ []) ∷ []) (tt, (tt, tt)) context-IsFitting

-- The second of two modules is skipped.
load_modules_first_example :
    load_modules system 6 1024 []
      (map module_elem
        (((b'a' ∷ b'.' ∷ b's' ∷ b'o' ∷ []), none) ∷ ((b'b' ∷ b'.' ∷ b's' ∷ b'o' ∷ []), none) ∷ []))
      0
      0
      context
    ≡ (parse_test_module system 1024 [] context ((b'a' ∷ b'.' ∷ b's' ∷ b'o' ∷ []) ∷ []) >>= λ ctx.
        ok ctx)
load_modules_first_example =
    load_modules_first system 1024 [] 4 ((b'a' ∷ b'.' ∷ b's' ∷ b'o' ∷ []), none)
      (((b'b' ∷ b'.' ∷ b's' ∷ b'o' ∷ []), none) ∷ []) context
