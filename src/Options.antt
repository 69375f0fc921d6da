-- ===== src/Options.antt =====
-- cbench/myargs.c: a table of command line options, and what getopt and cbench ask of it.
-- A table is the list of its entries, the closing one included, whose name is NULL (`none`); reading
-- past its end is a fault. A string is the list of its characters. `malloc` and `strdup` do not fail.
pub mod Short
pub mod Default
mod Tests
use oflops_turbo.Base.{
  ℕ, zero, suc, ◌+◌, ◌*◌, Bool, true, false, ◌&&◌, List, [], ◌∷◌, ◌++◌, Option, none, some, ltb,
  leb, ◌==◌, if◌then◌else◌, length, Run, ok, aborted, fault, ◌>>=◌, assert,
}
use oflops_turbo.Base.Int.{ℤ, pos}

abbrev pub Chars : Type 0
Chars = List ℕ

-- The member `type`.
pub data ArgType : Type 0 where
  type_none type_integer type_flag type_string type_decimal : ArgType

-- The union `default_val`, by the member that was written. A decimal is never read.
pub data DefaultVal : Type 0 where
  nothing : DefaultVal
  integer : ℤ → DefaultVal
  flag : ℤ → DefaultVal
  string : Chars → DefaultVal
  decimal : DefaultVal

-- `struct myargs`, without the comment.
pub record Myarg : Type 0 where
  pub name : Option Chars
  pub shortname : ℕ
  pub type : ArgType
  pub default_val : DefaultVal

-- `struct option` of <getopt.h>; `flag` is always NULL.
pub record LongOption : Type 0 where
  pub name : Option Chars
  pub has_arg : ℕ
  pub val : ℕ

-- `!strcmp(xs, ys)`
pub same : Chars → Chars → Bool
same [] [] = true
same [] (y ∷ ys) = false
same (x ∷ xs) [] = false
same (x ∷ xs) (y ∷ ys) = (x == y) && same xs ys

-- Whether an option takes an argument.
abbrev pub takes_arg : ArgType → Bool
takes_arg type_none = false
takes_arg type_flag = false
takes_arg type_integer = true
takes_arg type_string = true
takes_arg type_decimal = true

pub count_options : List Myarg → Run ℕ
count_options [] = fault
count_options (o ∷ rest) = elim o.name [
  | none ↦ ok 0
  | some _ ↦ count_options rest >>= λ n. ok (n + 1)
]

-- The loop of `myargs_to_short` over `n` entries: the characters that are written.
pub short_loop : ℕ → List Myarg → Run Chars
short_loop zero options = ok []
short_loop (suc n) [] = fault
short_loop (suc n) (o ∷ rest) = do
  tail ← short_loop n rest
  ok (if takes_arg o.type then o.shortname ∷ 58 ∷ tail else o.shortname ∷ tail)

-- `myargs_to_short`: the string, whose closing 0 is written at index `len` of `max` bytes.
pub myargs_to_short : List Myarg → Run Chars
myargs_to_short options = do
  n ← count_options options
  written ← short_loop n options
  if ltb (length written) (n * 2 + 1) then ok written else fault

-- The loop of `myargs_to_long` over `n` entries.
pub long_loop : ℕ → List Myarg → Run (List LongOption)
long_loop zero options = ok []
long_loop (suc n) [] = fault
long_loop (suc n) (o ∷ rest) = do
  tail ← long_loop n rest
  ok (
      record { name = o.name; has_arg = if takes_arg o.type then 1 else 0; val = o.shortname }
      ∷ tail)

pub myargs_to_long : List Myarg → Run (List LongOption)
myargs_to_long options = do n ← count_options options; long_loop (n + 1) options

-- `find_arg`, with the entry at the index that is returned; `none` is the result -1.
pub find_arg : List Myarg → Chars → ℕ → Run (Option (ℕ × Myarg))
find_arg [] arg i = fault
find_arg (o ∷ rest) arg i = elim o.name [
  | none ↦ ok none
  | some n ↦ let later = find_arg rest arg (i + 1) in if same n arg then ok (some (i, o)) else later
]

-- The two assertions of the functions that return a default, and the member of the union.
found_as : ArgType → Option (ℕ × Myarg) → Run DefaultVal
found_as t none = aborted
found_as t (some (i, o)) = assert (is_type t o.type) (ok o.default_val)
  where
    is_type : ArgType → ArgType → Bool
    is_type type_string type_string = true
    is_type type_integer type_integer = true
    is_type type_flag type_flag = true
    is_type s t = false

pub get_default : ArgType → List Myarg → Chars → Run DefaultVal
unfolding found_as
get_default t options argname = find_arg options argname 0 >>= found_as t

pub myargs_get_default_string : List Myarg → Chars → Run Chars
myargs_get_default_string options argname = get_default type_string options argname >>= λ v.
    elim v [
      | string s ↦ ok s
      | nothing ↦ fault
      | integer _ ↦ fault
      | flag _ ↦ fault
      | decimal ↦ fault
    ]

-- `default_val.integer`
abbrev pub read_integer : DefaultVal → Run ℤ
read_integer nothing = fault
read_integer (integer z) = ok z
read_integer (flag z) = fault
read_integer (string s) = fault
read_integer decimal = fault

pub myargs_get_default_integer : List Myarg → Chars → Run ℤ
myargs_get_default_integer options argname =
    get_default type_integer options argname >>= read_integer

pub myargs_get_default_flag : List Myarg → Chars → Run ℤ
myargs_get_default_flag options argname = get_default type_flag options argname >>= λ v. elim v [
  | flag z ↦ ok z
  | nothing ↦ fault
  | integer _ ↦ fault
  | string _ ↦ fault
  | decimal ↦ fault
]
