-- ===== src/Setup/Safe.antt =====
-- What it means that the setup keeps inside its tables.
use oflops_turbo.Base.{ℕ, ◌≤◌, ◌<◌, arith, Run, ok, aborted, ◌>>=◌}
use oflops_turbo.Setup.{Chars, Channel, TestModule, Context, System, oflops_default_context}

-- The places that are used are there, and the control channel is one of them.
pub record IsFitting (ctx : Context) : Type 0 where
  pub control : 0 < ctx.n_channels
  pub channels : ctx.n_channels ≤ ctx.max_channels
  pub tests : ctx.n_tests ≤ ctx.max_tests
  pub room : 0 < ctx.max_tests

-- The call does not access memory outside of an array, and ends with a context whose tables fit. A
-- call that ends the process is fine.
pub data IsSafe {ℓ} {A : Type ℓ} (P : A → Type 0) : Run A → Type ℓ where
  returned : {a : A} → P a → IsSafe P (ok a)
  exited : IsSafe P aborted

pub IsSafe-bind {ℓ κ} :
    {A : Type ℓ} {B : Type κ} {P : A → Type 0} {Q : B → Type 0} {r : Run A} {f : A → Run B}
    → IsSafe P r
    → ((a : A) → P a → IsSafe Q (f a))
    → IsSafe Q (r >>= f)
IsSafe-bind (returned p) rest = rest _ p
IsSafe-bind exited rest = exited

pub IsSafe-map {ℓ} :
    {A : Type ℓ} {P Q : A → Type 0} {r : Run A} → IsSafe P r → ((a : A) → P a → Q a) → IsSafe Q r
IsSafe-map (returned p) weaken = returned (weaken _ p)
IsSafe-map exited weaken = exited

default-IsFitting :
    (sys : System) (log_file : Chars) (junk : ℕ → Channel) (junk_tests : ℕ → TestModule)
    → IsFitting (oflops_default_context sys log_file junk junk_tests)
unfolding oflops_default_context
default-IsFitting sys log_file junk junk_tests = record {
  control = omega arith;
  channels = omega arith;
  tests = omega arith;
  room = omega arith;
}
