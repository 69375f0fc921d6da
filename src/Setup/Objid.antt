-- ===== src/Setup/Objid.antt =====
-- `my_read_objid` of channel_info.c: the parser of object ids.
use mathlib.Core.List.{append_assoc}
use oflops_turbo.Base.{
  ℕ, zero, suc, ◌+◌, ◌<◌, ◌≡◌, refl, ap, ◌∙◌, inl, inr, Bool-cases, true, false, List, [], ◌∷◌,
  ◌++◌, map, arith, leb, ◌==◌, if◌then◌else◌, length, length-append, Run, ok, fault, out_of_fuel,
}
use oflops_turbo.Base.Int.{ℤ}
use oflops_turbo.Setup.{Chars}

-- The inner loop: the characters up to a dot or the end, and those after the dot.
pub component : Chars → Chars × Chars
component [] = ([], [])
component (c ∷ cs) = let r = component cs in if c == 46 then ([], cs) else (c ∷ r.0, r.1)

module _ (strtol : Chars → ℤ) (oid_len : ℕ) where
  -- The outer loop, with the numbers that are written; the array has `oid_len` places, and the number
  -- is written before the test whether it is full.
  pub objid_loop : ℕ → Chars → List ℤ → Run (List ℤ)
  objid_loop zero in_oid out = out_of_fuel
  objid_loop (suc k) in_oid out =
      let (part, rest) = component in_oid in
      let out' = out ++ (strtol part ∷ []) in
      let more = objid_loop k rest out' in
      if leb oid_len (length out) then fault else if length rest == 0 then ok out' else more

  pub my_read_objid : Chars → Run (List ℤ)
  my_read_objid in_oid = objid_loop (length in_oid + 1) in_oid []

-- Parts with a dot between them.
unfoldable pub dotted : List Chars → Chars
dotted [] = []
dotted (p ∷ []) = p
dotted (p ∷ q ∷ ps) = p ++ (46 ∷ dotted (q ∷ ps))

-- Parts without dots, and none that is empty.
abbrev pub NoDot : Chars → Type 0
NoDot [] = Unit
NoDot (c ∷ cs) = ((c == 46) ≡ false) × NoDot cs

abbrev pub AllParts : List Chars → Type 0
AllParts [] = Unit
AllParts (p ∷ ps) = (NoDot p × (0 < length p)) × AllParts ps

component-last : (p : Chars) → NoDot p → component p ≡ (p, [])
unfolding component
component-last [] h = refl
component-last (c ∷ cs) h = rw (h.0, component-last cs h.1) refl

component-next : (p rest : Chars) → NoDot p → component (p ++ (46 ∷ rest)) ≡ (p, rest)
unfolding component
component-next [] rest h = refl
component-next (c ∷ cs) rest h = rw (h.0, component-next cs rest h.1) refl

dotted_nonempty : (p : Chars) (ps : List Chars) → 0 < length p → 0 < length (dotted (p ∷ ps))
unfolding dotted
dotted_nonempty p [] h = h
dotted_nonempty p (q ∷ ps) h = omega (arith, length-append p (46 ∷ dotted (q ∷ ps)))

module _ (strtol : Chars → ℤ) (oid_len : ℕ) where
  objid_loop-dotted :
      (k : ℕ) (p : Chars) (ps : List Chars) (out : List ℤ)
      → AllParts (p ∷ ps)
      → length (dotted (p ∷ ps)) < k
      → objid_loop strtol oid_len k (dotted (p ∷ ps)) out ≡ (
          if leb (length out + length (p ∷ ps)) oid_len
          then ok (out ++ map strtol (p ∷ ps))
          else fault)
  unfolding objid_loop dotted
  objid_loop-dotted zero p ps out h fuel = absurd (omega arith)
  objid_loop-dotted (suc k) p [] out h fuel = elim (Bool-cases (leb oid_len (length out))) [
    | inl full ↦
        let over : leb (length out + 1) oid_len ≡ false = ground arith in
        rw (component-last p h.0.0, full, over) refl
    | inr room ↦
        let fits : leb (length out + 1) oid_len ≡ true = ground arith in
        rw (component-last p h.0.0, room, fits) refl
  ]
  objid_loop-dotted (suc k) p (q ∷ ps) out h fuel =
      let rest = dotted (q ∷ ps) in
      let size = length-append p (46 ∷ rest) in
      elim (Bool-cases (leb oid_len (length out))) [
        | inl full ↦
            let over : leb (length out + suc (suc (length ps))) oid_len ≡ false = ground arith in
            rw (component-next p rest h.0.0, full, over) refl
        | inr room ↦
            let left : (length rest == 0) ≡ false = ground (arith, dotted_nonempty q ps h.1.0.1) in
            let later =
              objid_loop-dotted k q ps (out ++ (strtol p ∷ [])) h.1 (omega (arith, size)) in
            let grown = length-append out (strtol p ∷ []) in
            let moved : length (out ++ (strtol p ∷ [])) + suc (length ps)
                ≡ length out + suc (suc (length ps)) =
              omega (arith, grown) in
            let joined = append_assoc out (strtol p ∷ []) (map strtol (q ∷ ps)) in
            rw (component-next p rest h.0.0, room, left) (later ∙ rw (moved, joined) refl)
      ]

  -- `my_read_objid` reads back the numbers of a dotted object id, in order, where they are no more
  -- than the array holds; with one more number it writes outside of the array.
  pub my_read_objid-dotted :
      (p : Chars) (ps : List Chars)
      → AllParts (p ∷ ps)
      → my_read_objid strtol oid_len (dotted (p ∷ ps))
        ≡ (if leb (length (p ∷ ps)) oid_len then ok (map strtol (p ∷ ps)) else fault)
  unfolding my_read_objid
  my_read_objid-dotted p ps h =
      objid_loop-dotted (length (dotted (p ∷ ps)) + 1) p ps [] h (omega arith)
      ∙ ap (λ n. if leb n oid_len then ok (map strtol (p ∷ ps)) else fault) (omega arith)
