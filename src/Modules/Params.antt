-- ===== src/Modules/Params.antt =====
-- The loop that `init` of each measurement module in C has: it cuts its argument into parameters, a name
-- and a value with `=` between them, at the spaces. The memory from `param` on is the list of its bytes,
-- up to the end of the object, so what lies behind the end of the string is read and written as the
-- code does it. An access outside of the object, or through a null pointer, is a fault.
pub mod Applied
use oflops_turbo.Base.{
  ℕ, zero, suc, ◌+◌, Bool, true, false, List, [], ◌∷◌, Option, none, some, ◌==◌, if◌then◌else◌,
  length, Run, ok, fault, out_of_fuel, ◌>>=◌,
}
use oflops_turbo.Setup.{Chars, cut_at}

-- `index(param, ' ')`: whether there is a space, the characters in front of it or of the end of the
-- string, and the memory behind that space or behind the end of the string.
pub next_space : Chars → Run (Bool × Chars × Chars)
next_space [] = fault
next_space (c ∷ memory) =
    let later : Run (Bool × Chars × Chars) = next_space memory >>= λ r. ok (r.0, c ∷ r.1, r.2) in
    if c == 32 then ok (true, [], memory) else if c == 0 then ok (false, [], memory) else later

-- The memory from `pos` on, after `*pos = '\0'; pos++`, or `none` where the loop ends. Behind the last
-- parameter `pos` is the byte after the end of the string.
pub step_over : Bool × Chars × Chars → Run (Option Chars)
step_over (true, text, memory) = ok (some memory)
step_over (false, [], memory) = ok none
step_over (false, c ∷ text, []) = fault
step_over (false, c ∷ text, b ∷ memory) = ok (some memory)

-- `while(*config_str == ' ') config_str++`; where the memory ends, the next read is a fault.
pub skip_spaces : Chars → Chars
skip_spaces [] = []
skip_spaces (c ∷ cs) = let rest = skip_spaces cs in if c == 32 then rest else c ∷ cs

module _ {ℓ} {S : Type ℓ} (set_param : Chars → Chars → S → Run S) where
  -- One parameter; without `=` the zero is written through a null pointer.
  pub apply_param : Chars → S → Run S
  apply_param text s =
      let (name, value) = cut_at 61 text in
      elim value [ none ↦ fault | some v ↦ set_param name v s ]

  pub params_loop : ℕ → Chars → S → Run S
  params_loop zero param s = out_of_fuel
  params_loop (suc k) param s = do
    r ← next_space param
    next ← step_over r
    elim next [ none ↦ ok s | some memory ↦ apply_param r.1 s >>= λ s'. params_loop k memory s' ]

  -- `init`: the loop over leading spaces, and then that over the parameters.
  pub init_params : Chars → S → Run S
  init_params memory s = params_loop (length memory + 1) (skip_spaces memory) s
