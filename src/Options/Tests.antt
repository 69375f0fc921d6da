-- ===== src/Options/Tests.antt =====
-- The statements about cbench/myargs.c at a table of two options.
use oflops_turbo.Base.{◌≡◌, refl, true, false, [], ◌∷◌, none, some, Returns}
use oflops_turbo.Base.Int.{pos}
use oflops_turbo.Options.{Myarg, Chars, type_none, type_flag, nothing, flag, myargs_to_short}
use oflops_turbo.Options.Short.{AllNamed, read_short, myargs_to_short_reads}
use oflops_turbo.Options.Default.{integer_option}

-- "loops" and "debug"
abbrev loops_name : Chars
loops_name = 108 ∷ 111 ∷ 111 ∷ 112 ∷ 115 ∷ []

abbrev debug_name : Chars
debug_name = 100 ∷ 101 ∷ 98 ∷ 117 ∷ 103 ∷ []

abbrev debug : Myarg
debug = record {
  name = some debug_name;
  shortname = 100;
  type = type_flag;
  default_val = flag (pos 0);
}

abbrev loops : Myarg
loops = integer_option loops_name 108 (pos 16)

abbrev closing : Myarg
closing = record { name = none; shortname = 0; type = type_none; default_val = nothing }

table-AllNamed : AllNamed (debug ∷ loops ∷ [])
table-AllNamed = ((debug_name, refl), refl, ((loops_name, refl), refl, tt))

myargs_to_short_reads_example :
    Returns
      (λ s. read_short s ≡ (100, false) ∷ (108, true) ∷ [])
      (myargs_to_short (debug ∷ loops ∷ closing ∷ []))
myargs_to_short_reads_example =
    myargs_to_short_reads closing refl (debug ∷ loops ∷ []) table-AllNamed
