-- ===== src/Modules/Params/Applied.antt =====
-- What `init` does with a well-formed argument, and with the memory behind it.
use oflops_turbo.Base.{
  ℕ, zero, suc, ◌+◌, ◌-◌, ◌<◌, ◌≡◌, refl, ap, sym, ◌∙◌, true, false, List, [], ◌∷◌, ◌++◌, none,
  some, arith, ◌==◌, length, length-append, replicate, Run, ok, aborted, fault, out_of_fuel, ◌>>=◌,
}
use mathlib.Core.List.{append_assoc}
use oflops_turbo.Setup.{Chars, cut_at}
use oflops_turbo.Modules.Params.{
  next_space, step_over, apply_param, params_loop, skip_spaces, init_params,
}

-- A parameter, and its text.
pub record Param : Type 0 where
  pub name : Chars
  pub value : Chars

abbrev pub text : Param → Chars
text p = p.name ++ (61 ∷ p.value)

-- Parameters with a space between them.
unfoldable pub joined : Param → List Param → Chars
joined p [] = text p
joined p (q ∷ ps) = text p ++ (32 ∷ joined q ps)

-- No space, end of string, or `=` in a name; no space or end of string in a value.
abbrev pub IsName : Chars → Type 0
IsName [] = Unit
IsName (c ∷ cs) = (((c == 32) ≡ false) × (((c == 0) ≡ false) × ((c == 61) ≡ false))) × IsName cs

abbrev pub IsWord : Chars → Type 0
IsWord [] = Unit
IsWord (c ∷ cs) = (((c == 32) ≡ false) × ((c == 0) ≡ false)) × IsWord cs

abbrev pub IsParam : Param → Type 0
IsParam p = IsName p.name × IsWord p.value

abbrev pub AllParams : List Param → Type 0
AllParams [] = Unit
AllParams (p ∷ ps) = IsParam p × AllParams ps

text-IsWord : (name value : Chars) → IsName name → IsWord value → IsWord (name ++ (61 ∷ value))
text-IsWord [] value n v = ((refl, refl), v)
text-IsWord (c ∷ cs) value n v = ((n.0.0, n.0.1.0), text-IsWord cs value n.1 v)

-- A word, up to the space or to the end of the string behind it.
next_space-found :
    (w memory : Chars) → IsWord w → next_space (w ++ (32 ∷ memory)) ≡ ok (true, w, memory)
unfolding next_space
next_space-found [] memory h = refl
next_space-found (c ∷ cs) memory h = rw (h.0.0, h.0.1, next_space-found cs memory h.1) refl

next_space-ended :
    (w memory : Chars) → IsWord w → next_space (w ++ (0 ∷ memory)) ≡ ok (false, w, memory)
unfolding next_space
next_space-ended [] memory h = refl
next_space-ended (c ∷ cs) memory h = rw (h.0.0, h.0.1, next_space-ended cs memory h.1) refl

cut_at-text :
    (name value : Chars) → IsName name → cut_at 61 (name ++ (61 ∷ value)) ≡ (name, some value)
unfolding cut_at
cut_at-text [] value n = refl
cut_at-text (c ∷ cs) value n = rw (n.0.1.1, cut_at-text cs value n.1) refl

bind_assoc {ℓ} :
    {S : Type ℓ} (r : Run S) (f g : S → Run S) → (r >>= f >>= g) ≡ (r >>= λ s. f s >>= g)
bind_assoc (ok s) f g = refl
bind_assoc aborted f g = refl
bind_assoc fault f g = refl
bind_assoc out_of_fuel f g = refl

bind_ext {ℓ} :
    {S : Type ℓ} (r : Run S) {f g : S → Run S} → ((s : S) → f s ≡ g s) → (r >>= f) ≡ (r >>= g)
bind_ext (ok s) h = h s
bind_ext aborted h = refl
bind_ext fault h = refl
bind_ext out_of_fuel h = refl

bind_end {ℓ} : {S : Type ℓ} (r : Run S) {f : S → Run S} → ((s : S) → f s ≡ ok s) → (r >>= f) ≡ r
bind_end (ok s) h = h s
bind_end aborted h = refl
bind_end fault h = refl
bind_end out_of_fuel h = refl

module _ {ℓ} {S : Type ℓ} (set_param : Chars → Chars → S → Run S) where
  -- What the module does with each parameter, in order.
  abbrev pub set_all : List Param → S → Run S
  set_all [] s = ok s
  set_all (p ∷ ps) s = set_param p.name p.value s >>= λ s'. set_all ps s'

  -- The same without the last one, and then an access outside of the memory.
  abbrev pub all_but_last : Param → List Param → S → Run S
  all_but_last p [] s = fault
  all_but_last p (q ∷ ps) s = set_param p.name p.value s >>= λ s'. all_but_last q ps s'

  apply_param-text :
      (p : Param) (s : S)
      → IsParam p
      → apply_param set_param (text p) s ≡ set_param p.name p.value s
  unfolding apply_param
  apply_param-text p s h =
      ap (λ r. elim r.1 [ none ↦ fault | some v ↦ set_param r.0 v s ])
        (cut_at-text p.name p.value h.0)

  step_over-ended :
      (w : Chars) (b : ℕ) (memory : Chars)
      → 0 < length w
      → step_over (false, w, b ∷ memory) ≡ ok (some memory)
  unfolding step_over
  step_over-ended [] b memory h = absurd (omega arith)
  step_over-ended (c ∷ cs) b memory h = refl

  step_over-outside : (w : Chars) → 0 < length w → step_over (false, w, []) ≡ fault
  unfolding step_over
  step_over-outside [] h = absurd (omega arith)
  step_over-outside (c ∷ cs) h = refl

  text_size : (p : Param) → 0 < length (text p)
  text_size p = omega (arith, length-append p.name (61 ∷ p.value))

  -- A parameter with another one behind it.
  params_loop-next :
      (k : ℕ) (p q : Param) (ps : List Param) (behind : Chars) (s : S)
      → IsParam p
      → params_loop set_param (suc (suc (length ps)) + k) (joined p (q ∷ ps) ++ (0 ∷ behind)) s ≡ (
          set_param p.name p.value s >>= λ s'.
          params_loop set_param (suc (length ps) + k) (joined q ps ++ (0 ∷ behind)) s')
  unfolding params_loop joined step_over
  params_loop-next k p q ps behind s h =
      let fuel : suc (suc (length ps)) + k ≡ suc (suc (length ps) + k) = omega arith in
      rw
        (
          fuel,
          append_assoc (text p) (32 ∷ joined q ps) (0 ∷ behind),
          next_space-found (text p) (joined q ps ++ (0 ∷ behind))
              (text-IsWord p.name p.value h.0 h.1),
          apply_param-text p s h,
        )
        refl

  params_loop-joined :
      (k : ℕ) (p : Param) (ps : List Param) (behind : Chars) (s : S)
      → AllParams (p ∷ ps)
      → params_loop set_param (suc (length ps) + k) (joined p ps ++ (0 ∷ behind)) s ≡ elim behind [
        | [] ↦ all_but_last p ps s
        | b ∷ memory ↦ set_all (p ∷ ps) s >>= λ s'. params_loop set_param k memory s'
      ]
  unfolding params_loop joined
  params_loop-joined k p [] [] s h =
      let fuel : 1 + k ≡ suc k = omega arith in
      rw
        (
          fuel,
          next_space-ended (text p) [] (text-IsWord p.name p.value h.0.0 h.0.1),
          step_over-outside (text p) (text_size p),
        )
        refl
  params_loop-joined k p [] (b ∷ memory) s h =
      let fuel : 1 + k ≡ suc k = omega arith in
      rw
        (
          fuel,
          next_space-ended (text p) (b ∷ memory) (text-IsWord p.name p.value h.0.0 h.0.1),
          step_over-ended (text p) b memory (text_size p),
          apply_param-text p s h.0,
        )
        (sym (
          bind_assoc (set_param p.name p.value s) (λ s'. ok s')
            (λ s'. params_loop set_param k memory s')))
  params_loop-joined k p (q ∷ ps) [] s h =
      params_loop-next k p q ps [] s h.0
      ∙ bind_ext (set_param p.name p.value s) (λ s'. params_loop-joined k q ps [] s' h.1)
  params_loop-joined k p (q ∷ ps) (b ∷ memory) s h =
      params_loop-next k p q ps (b ∷ memory) s h.0
      ∙ bind_ext (set_param p.name p.value s) (λ s'. params_loop-joined k q ps (b ∷ memory) s' h.1)
      ∙ sym (
          bind_assoc (set_param p.name p.value s) (λ s'. set_all (q ∷ ps) s')
            (λ s'. params_loop set_param k memory s'))

skip_spaces-text :
    (name value more : Chars)
    → IsName name
    → skip_spaces ((name ++ (61 ∷ value)) ++ more) ≡ (name ++ (61 ∷ value)) ++ more
unfolding skip_spaces
skip_spaces-text [] value more h = refl
skip_spaces-text (c ∷ cs) value more h = rw h.0.0 refl

skip_spaces-joined :
    (p : Param) (ps : List Param) (more : Chars)
    → IsName p.name
    → skip_spaces (joined p ps ++ more) ≡ joined p ps ++ more
unfolding joined
skip_spaces-joined p [] more h = skip_spaces-text p.name p.value more h
skip_spaces-joined p (q ∷ ps) more h =
    rw (append_assoc (text p) (32 ∷ joined q ps) more)
      (skip_spaces-text p.name p.value (32 ∷ (joined q ps ++ more)) h)

skip_spaces-replicate :
    (m : ℕ) (more : Chars) → skip_spaces (replicate m 32 ++ more) ≡ skip_spaces more
unfolding skip_spaces
skip_spaces-replicate zero more = refl
skip_spaces-replicate (suc m) more = skip_spaces-replicate m more

joined_size : (p : Param) (ps : List Param) → length ps < length (joined p ps)
unfolding joined
joined_size p [] = text_size p
  where
    text_size : (p : Param) → 0 < length (text p)
    text_size p = omega (arith, length-append p.name (61 ∷ p.value))
joined_size p (q ∷ ps) = omega (arith, length-append (text p) (32 ∷ joined q ps), joined_size q ps)

-- The argument in memory, with `m` spaces in front and `behind` behind its end.
abbrev pub argument : ℕ → Param → List Param → Chars → Chars
argument m p ps behind = replicate m 32 ++ (joined p ps ++ (0 ∷ behind))

module _ {ℓ} {S : Type ℓ} (set_param : Chars → Chars → S → Run S) (m : ℕ) (p : Param)
    (ps : List Param) (s : S) (h : AllParams (p ∷ ps)) where
  params_loop-end :
      (k : ℕ) (rest : Chars) (s' : S) → 0 < k → params_loop set_param k (0 ∷ rest) s' ≡ ok s'
  unfolding params_loop next_space step_over
  params_loop-end zero rest s' some_fuel = absurd (omega arith)
  params_loop-end (suc k) rest s' some_fuel = refl

  init_params-behind :
      (behind : Chars)
      → (k : ℕ) × ((0 < k)
          × (init_params set_param (argument m p ps behind) s ≡ elim behind [
            | [] ↦ all_but_last set_param p ps s
            | b ∷ memory ↦ set_all set_param (p ∷ ps) s >>= λ s'. params_loop set_param k memory s'
          ]))
  unfolding init_params
  init_params-behind behind =
      let more = joined p ps ++ (0 ∷ behind) in
      let k = length (argument m p ps behind) - length ps in
      let size = length-append (replicate m 32) more in
      let inner = length-append (joined p ps) (0 ∷ behind) in
      let fuel : length (argument m p ps behind) + 1 ≡ suc (length ps) + k =
        omega (arith, size, inner, joined_size p ps) in
      (
        k,
        (
          omega (arith, size, inner, joined_size p ps),
          rw (fuel, skip_spaces-replicate m more, skip_spaces-joined p ps (0 ∷ behind) h.0.0)
              (params_loop-joined set_param k p ps behind s h),
        ),
      )

  -- A well-formed argument of `init`: parameters with a space between them and, in front, any number of
  -- spaces. Where the second byte behind the end of the string is there and is 0, `init` does with
  -- each parameter what the module does with it, in order, and ends. Where the memory ends with the
  -- string, it does so for all but the last parameter, and then writes outside.
  pub init_params-joined :
      (b : ℕ) (rest : Chars)
      → (init_params set_param (argument m p ps (b ∷ 0 ∷ rest)) s ≡ set_all set_param (p ∷ ps) s)
        × (init_params set_param (argument m p ps []) s ≡ all_but_last set_param p ps s)
  init_params-joined b rest =
      let (k, (some_fuel, e)) = init_params-behind (b ∷ 0 ∷ rest) in
      let (j, (other_fuel, f)) = init_params-behind [] in
      (e ∙ bind_end (set_all set_param (p ∷ ps) s) (λ s'. params_loop-end k rest s' some_fuel), f)
