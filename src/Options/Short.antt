-- ===== src/Options/Short.antt =====
-- The string and the table for getopt say the same about the options.
use oflops_turbo.Base.{
  ℕ, suc, ◌+◌, ◌*◌, ◌≤◌, ◌≡◌, refl, ap, Bool, Bool-cases, inl, inr, true, false, List, [], ◌∷◌,
  ◌++◌, map, none, some, arith, ltb, ◌==◌, if◌then◌else◌, length, ok, ◌∙◌, Returns, returns,
  Returns-bind, Returns-value,
}
use oflops_turbo.Options.{
  Myarg, Chars, LongOption, takes_arg, count_options, short_loop, myargs_to_short, long_loop,
  myargs_to_long,
}

-- How getopt reads the string: a colon after a letter says that the option takes an argument.
unfoldable pub read_short : Chars → List (ℕ × Bool)
read_short [] = []
read_short (c ∷ []) = (c, false) ∷ []
read_short (c ∷ d ∷ rest) =
    let plain = read_short (d ∷ rest) in
    let after = read_short rest in if d == 58 then (c, true) ∷ after else (c, false) ∷ plain

-- What a table says of its options, the letter and whether there is an argument.
abbrev pub letters : List Myarg → List (ℕ × Bool)
letters = map (λ (o : Myarg). (o.shortname, takes_arg o.type))

-- Entries with a name, and a letter that is not a colon.
abbrev pub AllNamed : List Myarg → Type 0
AllNamed [] = Unit
AllNamed (o ∷ os) = ((n : Chars) × (o.name ≡ some n)) × ((o.shortname == 58) ≡ false) × AllNamed os

-- What getopt_long is told of an option.
abbrev pub long_of : Myarg → LongOption
long_of o = record { name = o.name; has_arg = if takes_arg o.type then 1 else 0; val = o.shortname }

-- A string that does not start with a colon.
abbrev pub IsPlain : Chars → Type 0
IsPlain [] = Unit
IsPlain (c ∷ cs) = (c == 58) ≡ false

read_short_plain :
    (c : ℕ) (cs : Chars) → IsPlain cs → read_short (c ∷ cs) ≡ (c, false) ∷ read_short cs
unfolding read_short
read_short_plain c [] p = refl
read_short_plain c (d ∷ []) p = rw p refl
read_short_plain c (d ∷ e ∷ cs) p = rw p refl

-- The string that belongs to the options.
record Written (os : List Myarg) (s : Chars) : Type 0 where
  reads : read_short s ≡ letters os
  short : length s ≤ 2 * length os
  plain : IsPlain s

module _ (end : Myarg) (closes : end.name ≡ none) where
  pub count_options_lem :
      (os : List Myarg) → AllNamed os → count_options (os ++ (end ∷ [])) ≡ ok (length os)
  unfolding count_options
  count_options_lem [] p = rw closes refl
  count_options_lem (o ∷ os) p =
      let next : length os + 1 ≡ suc (length os) = omega arith in
      rw (p.0.1, count_options_lem os p.2, next) refl

  short_loop-Written :
      (os : List Myarg)
      → AllNamed os
      → Returns (Written os) (short_loop (length os) (os ++ (end ∷ [])))
  unfolding short_loop read_short
  short_loop-Written [] p = returns (record { reads = refl; short = omega arith; plain = tt })
  short_loop-Written (o ∷ os) p = Returns-bind (short_loop-Written os p.2) λ s w.
      elim (Bool-cases (takes_arg o.type)) [
        | inl arg ↦ rw arg (
            returns {a = o.shortname ∷ 58 ∷ s} (record {
              reads = rw arg (ap (λ x. (o.shortname, true) ∷ x) w.reads);
              short = omega (arith, w.short);
              plain = p.1;
            }))
        | inr no_arg ↦ rw no_arg (
            returns {a = o.shortname ∷ s} (record {
              reads = rw no_arg (
                  read_short_plain o.shortname s w.plain
                  ∙ ap (λ x. (o.shortname, false) ∷ x) w.reads);
              short = omega (arith, w.short);
              plain = p.1;
            }))
      ]

  -- The string of `myargs_to_short` stays inside its memory, closing 0 included, and getopt reads
  -- the letters of the table from it, in order, each with whether it takes an argument.
  pub myargs_to_short_reads :
      (os : List Myarg)
      → AllNamed os
      → Returns (λ s. read_short s ≡ letters os) (myargs_to_short (os ++ (end ∷ [])))
  unfolding myargs_to_short
  myargs_to_short_reads os p =
      let (s, run, w) = Returns-value (short_loop-Written os p) in
      let fits : ltb (length s) (length os * 2 + 1) ≡ true = ground (arith, w.short) in
      rw (count_options_lem os p, run, fits) (returns w.reads)

  long_loop_lem :
      (os : List Myarg)
      → long_loop (length os + 1) (os ++ (end ∷ [])) ≡ ok (map long_of (os ++ (end ∷ [])))
  unfolding long_loop
  long_loop_lem [] = refl
  long_loop_lem (o ∷ os) =
      let next : suc (length os) + 1 ≡ suc (length os + 1) = omega arith in
      rw (next, long_loop_lem os) refl

  -- `myargs_to_long` describes every option of the table, in order, and ends with the closing entry.
  pub myargs_to_long_lem :
      (os : List Myarg)
      → AllNamed os
      → myargs_to_long (os ++ (end ∷ [])) ≡ ok (map long_of (os ++ (end ∷ [])))
  unfolding myargs_to_long
  myargs_to_long_lem os p = rw (count_options_lem os p) (long_loop_lem os)
