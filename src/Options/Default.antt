-- ===== src/Options/Default.antt =====
-- The defaults that cbench asks for by name.
use oflops_turbo.Base.{
  ℕ, ◌+◌, ◌≡◌, refl, ap, true, false, List, [], ◌∷◌, ◌++◌, none, some, arith, ◌==◌, ok, aborted,
  ◌>>=◌, ◌∙◌,
}
use oflops_turbo.Base.Int.{ℤ}
use oflops_turbo.Options.{
  Myarg, Chars, type_integer, integer, same, find_arg, found_as, get_default, read_integer,
  myargs_get_default_integer,
}

same_refl : (xs : Chars) → same xs xs ≡ true
unfolding same
same_refl [] = refl
same_refl (x ∷ xs) = let here : (x == x) ≡ true = ground arith in rw (here, same_refl xs) refl

-- No entry has the name, and none closes the table.
abbrev pub AllOther : Chars → List Myarg → Type 0
AllOther arg [] = Unit
AllOther arg (o ∷ os) = ((n : Chars) × (o.name ≡ some n) × (same n arg ≡ false)) × AllOther arg os

find_arg_skips :
    (arg : Chars) (before rest : List Myarg) (i : ℕ)
    → AllOther arg before
    → (j : ℕ) × (find_arg (before ++ rest) arg i ≡ find_arg rest arg j)
unfolding find_arg
find_arg_skips arg [] rest i other = (i, refl)
find_arg_skips arg (o ∷ before) rest i other =
    let (j, e) = find_arg_skips arg before rest (i + 1) other.1 in (j, rw (other.0.1, other.0.2) e)

-- An option with an integer.
abbrev pub integer_option : Chars → ℕ → ℤ → Myarg
integer_option name letter z = record {
  name = some name;
  shortname = letter;
  type = type_integer;
  default_val = integer z;
}

-- The default of an integer option is the value in the first entry with the name that is asked for.
pub get_default_integer_found :
    (before rest : List Myarg) (arg : Chars) (letter : ℕ) (z : ℤ)
    → AllOther arg before
    → myargs_get_default_integer (before ++ (integer_option arg letter z ∷ rest)) arg ≡ ok z
unfolding myargs_get_default_integer get_default find_arg found_as
get_default_integer_found before rest arg letter z other =
    let o = integer_option arg letter z in
    let (j, e) = find_arg_skips arg before (o ∷ rest) 0 other in
    let here : find_arg (o ∷ rest) arg j ≡ ok (some (j, o)) = rw (same_refl arg) refl in
    ap (λ r. r >>= found_as type_integer >>= read_integer) (e ∙ here)

-- For a name that no entry has, the call aborts.
pub get_default_integer_missing :
    (before : List Myarg) (end : Myarg) (arg : Chars)
    → AllOther arg before
    → end.name ≡ none
    → myargs_get_default_integer (before ++ (end ∷ [])) arg ≡ aborted
unfolding myargs_get_default_integer get_default find_arg found_as
get_default_integer_missing before end arg other closes =
    let (j, e) = find_arg_skips arg before (end ∷ []) 0 other in
    let here : find_arg (end ∷ []) arg j ≡ ok none = rw closes refl in
    ap (λ r. r >>= found_as type_integer >>= read_integer) (e ∙ here)
