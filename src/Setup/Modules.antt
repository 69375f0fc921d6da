-- ===== src/Setup/Modules.antt =====
-- The loop of `load_config_file` over the test modules of a configuration.
use oflops_turbo.Base.{
  ℕ, zero, suc, ◌+◌, ◌≤◌, ◌<◌, ◌≡◌, refl, ap, ◌⊎◌, map, inl, inr, true, false, List, [], ◌∷◌,
  Option, none, some, arith, leb, if◌then◌else◌, length, get_elem?, ok, fault, ◌>>=◌,
}
use oflops_turbo.Setup.{Chars, Context, System, parse_test_module}
use oflops_turbo.Setup.Config.{ModuleElem, load_modules}

-- A module with a path, and perhaps a parameter.
abbrev pub module_elem : Chars × Option Chars → ModuleElem
module_elem (path, param) = record { path = some path; param = param }

-- The arguments that such a module stands for.
abbrev pub argv_of : Chars × Option Chars → List Chars
argv_of (path, none) = path ∷ []
argv_of (path, some p) = path ∷ p ∷ []

get_elem-elems :
    (es : List (Chars × Option Chars)) (i : ℕ)
    → (length es ≤ i) × (get_elem? (map module_elem es) i ≡ none)
      ⊎ (i < length es)
        × ((e : Chars × Option Chars) × (get_elem? (map module_elem es) i ≡ some (module_elem e)))
get_elem-elems [] i = inl (omega arith, refl)
get_elem-elems (e ∷ es) zero = inr (omega arith, (e, refl))
get_elem-elems (e ∷ es) (suc i) = elim (get_elem-elems es i) [
  | inl gone ↦ inl (omega (arith, gone.0), gone.1)
  | inr there ↦ inr (omega (arith, there.0), there.1)
]

module _ (sys : System) (buflen : ℕ) (junk : Chars) where
  -- A second module is never loaded: reading its arguments goes past the end of `argv`.
  again_fault :
      (k : ℕ) (elems : List ModuleElem) (i argc : ℕ) (ctx : Context) (e : Chars × Option Chars)
      → 0 < argc
      → get_elem? elems i ≡ some (module_elem e)
      → load_modules sys (suc k) buflen junk elems i argc ctx ≡ fault
  unfolding load_modules
  again_fault k elems i argc ctx (path, none) h at =
      let over : leb (argc + 1) 1 ≡ false = ground arith in rw (load_modules, at, over) refl
  again_fault k elems i argc ctx (path, some p) h at =
      let over : leb (argc + 2) 2 ≡ false = ground arith in rw (load_modules, at, over) refl

  -- Of the modules of a configuration, each with a path, only the first is ever loaded. With up to
  -- one more (two more, where the first has a parameter) the others are skipped without a word; with
  -- still more, `argv` is read past its end.
  pub load_modules_first :
      (k : ℕ) (e : Chars × Option Chars) (es : List (Chars × Option Chars)) (ctx : Context)
      → load_modules sys (suc (suc k)) buflen junk (map module_elem (e ∷ es)) 0 0 ctx ≡ (
          parse_test_module sys buflen junk ctx (argv_of e) >>= λ ctx'.
          if leb (length es) (length (argv_of e)) then ok ctx' else fault)
  unfolding load_modules
  load_modules_first k (path, none) es ctx =
      ap (λ f. parse_test_module sys buflen junk ctx (path ∷ []) >>= f) (λ j ctx'. after ctx' j)
    where
      after :
          (ctx' : Context)
          → load_modules sys (suc k) buflen junk (map module_elem ((path, none) ∷ es)) 2 1 ctx'
            ≡ (if leb (length es) 1 then ok ctx' else fault)
      after ctx' = elim (get_elem-elems es 1) [
        | inl gone ↦
            let few : leb (length es) 1 ≡ true = ground (arith, gone.0) in
            rw (few, load_modules, gone.1) refl
        | inr there ↦
            let many : leb (length es) 1 ≡ false = ground (arith, there.0) in
            rw many (
              again_fault k (map module_elem ((path, none) ∷ es)) 2 1 ctx' there.1.0 (omega arith)
                there.1.1)
      ]
  load_modules_first k (path, some p) es ctx =
      ap (λ f. parse_test_module sys buflen junk ctx (path ∷ p ∷ []) >>= f) (λ j ctx'. after ctx' j)
    where
      after :
          (ctx' : Context)
          → load_modules sys (suc k) buflen junk (map module_elem ((path, some p) ∷ es)) 3 2 ctx'
            ≡ (if leb (length es) 2 then ok ctx' else fault)
      after ctx' = elim (get_elem-elems es 2) [
        | inl gone ↦
            let few : leb (length es) 2 ≡ true = ground (arith, gone.0) in
            rw (few, load_modules, gone.1) refl
        | inr there ↦
            let many : leb (length es) 2 ≡ false = ground (arith, there.0) in
            rw many (
              again_fault k (map module_elem ((path, some p) ∷ es)) 3 2 ctx' there.1.0 (omega arith)
                there.1.1)
      ]
