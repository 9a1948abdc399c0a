-- ===== src/Opt/CopyProp/Phi.antt =====
-- The source of a phi is what all its operands name.
use nybit.Base.{ℕ, ◌≡◌, ◌⊎◌, inl, inr, ap, arith, Option-cases, some, List, [], ◌∷◌}
use nybit.Ir.Function.{Operand, invalid}
use nybit.Opt.CopyProp.{next_first, found_first, phi_source}

-- The operand names the result of the phi, the source, or no value.
abbrev pub Names : ℕ → ℕ → Operand → Type 0
Names result v op =
    (op ≡ Operand.value result) ⊎ ((op ≡ Operand.value v) ⊎ (op ≡ Operand.value invalid))

-- Every second operand does.
abbrev pub AllName : ℕ → ℕ → List Operand → Type 0
AllName result v [] = Unit {0}
AllName result v (op ∷ []) = Names result v op
AllName result v (op ∷ from ∷ ops) = Names result v op × AllName result v ops

-- What `first_val` may be where the loop finds `v` in the end.
abbrev pub Leads : ℕ → ℕ → Type 0
Leads v f = (f ≡ invalid) ⊎ (f ≡ v)

found_first-Leads : (f v : ℕ) → found_first f ≡ some v → Leads v f
found_first-Leads f v e = ground arith

next_first_lem :
    (result f v g u : ℕ)
    → next_first result f (Operand.value u) ≡ some g
    → (g ≡ invalid) ⊎ (g ≡ v)
    → ((u ≡ result) ⊎ ((u ≡ v) ⊎ (u ≡ invalid))) × ((f ≡ invalid) ⊎ (f ≡ v))
next_first_lem result f v g u e leads = ground arith

named :
    (result v u : ℕ) → (u ≡ result) ⊎ ((u ≡ v) ⊎ (u ≡ invalid)) → Names result v (Operand.value u)
named result v u (inl e) = inl (ap Operand.value e)
named result v u (inr (inl e)) = inr (inl (ap Operand.value e))
named result v u (inr (inr e)) = inr (inr (ap Operand.value e))

next_first-Names :
    (result f v g : ℕ) (op : Operand)
    → next_first result f op ≡ some g
    → Leads v g
    → Names result v op × Leads v f
next_first-Names result f v g (Operand.value u) e leads =
    let both = next_first_lem result f v g u e leads in (named result v u both.0, both.1)
next_first-Names result f v g _ e leads = cc

-- Where the loop over the sources of a phi returns a value, every second operand names the
-- result of the phi, that value, or no value, and the value that the loop started with is that
-- value or none.
pub phi_source-AllName :
    (result f v : ℕ) (ops : List Operand)
    → phi_source result f ops ≡ some v
    → AllName result v ops × Leads v f
unfolding phi_source
phi_source-AllName result f v [] e = (tt, found_first-Leads f v e)
phi_source-AllName result f v (op ∷ []) e = elim (Option-cases (next_first result f op)) [
  | inl stops ↦ absurd (let e' = rw (phi_source, stops) at e in cc)
  | inr goes ↦
      let e' : found_first goes.0 ≡ some v = rw (phi_source, goes.1) at e in
      next_first-Names result f v goes.0 op goes.1 (found_first-Leads goes.0 v e')
]
phi_source-AllName result f v (op ∷ from ∷ ops) e = elim (Option-cases (next_first result f op)) [
  | inl stops ↦ absurd (let e' = rw (phi_source, stops) at e in cc)
  | inr goes ↦
      let e' : phi_source result goes.0 ops ≡ some v = rw (phi_source, goes.1) at e in
      let rest = phi_source-AllName result goes.0 v ops e' in
      let here = next_first-Names result f v goes.0 op goes.1 rest.1 in ((here.0, rest.0), here.1)
]
