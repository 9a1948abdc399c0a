-- ===== src/Opt/Fates.antt =====
-- What a pass of src/opt may do to the instructions of a function: keep them, or remove some.
use nybit.Base.{
  ℕ, ◌≡◌, ◌≢◌, ◌∙◌, refl, sym, ap, subst, arith, false, Bool-cases, Option-cases, inl, inr, some,
  List, get_elem?, ◌==◌,
}
use nybit.Base.Outcome.{done}
use nybit.Ir.Function.{Instruction, Function, is_none, replace_all_uses}
use nybit.Ir.Function.Remove.{remove_instruction, cleared}
use nybit.Ir.Function.Others.{Core, core, core_of, core_at, remove_instruction-core_at}
use nybit.Ir.Function.Removed.{cleared_core, remove_instruction-cleared}

-- The function has the same instruction at `i` but for its links; or has it removed, and then the
-- instruction was one of those that `P` allows.
pub data FateOf (P : Instruction → Type 0) (old new : Function) (i : ℕ) : Type 0 where
  kept : core_at new i ≡ core_at old i → FateOf P old new i
  removed :
      (inst : Instruction)
      → get_elem? old.instructions i ≡ some inst
      → core_at new i ≡ some (core (cleared inst))
      → P inst
      → FateOf P old new i

pub replace_all_uses-instructions :
    (fn : Function) (a b : ℕ) → (replace_all_uses fn a b).instructions ≡ fn.instructions
unfolding replace_all_uses
replace_all_uses-instructions fn a b = elim (Bool-cases (a == b)) [
  | inl same ↦ rw (replace_all_uses, same) refl
  | inr differ ↦ rw (replace_all_uses, differ) refl
]

module _ (P : Instruction → Type 0) (old : Function) where
  abbrev pub AllFates : Function → Type 0
  AllFates fn = (i : ℕ) → FateOf P old fn i

  -- A live instruction of the later state is the old one but for its links.
  pub was_at :
      (fn : Function) (i : ℕ) {inst : Instruction}
      → FateOf P old fn i
      → get_elem? fn.instructions i ≡ some inst
      → is_none inst.opcode ≡ false
      → (was : Instruction) × (get_elem? old.instructions i ≡ some was) × (core inst ≡ core was)
  was_at fn i {inst = inst} (kept e) found live =
      let at : some (core inst) ≡ core_at old i = sym (ap core_of found) ∙ e in
      elim (Option-cases (get_elem? old.instructions i)) [
        | inl missing ↦ let r = rw missing at at in cc
        | inr there ↦ let r = rw there.1 at at in (there.0, there.1, cc)
      ]
  was_at fn i {inst = inst} (removed was at gone may) found live =
      let both : some (core inst) ≡ some (core (cleared was)) = sym (ap core_of found) ∙ gone in
      let same : core inst ≡ core (cleared was) = cc in
      let dead = ap (λ (c : Core). is_none c.opcode) same in
      absurd (let differ = sym live ∙ dead in cc)

  -- A change that keeps the instruction keeps its fate.
  pub FateOf-later :
      (fn fn1 : Function) (j : ℕ)
      → core_at fn1 j ≡ core_at fn j
      → FateOf P old fn j
      → FateOf P old fn1 j
  FateOf-later fn fn1 j same (kept e) = kept (same ∙ e)
  FateOf-later fn fn1 j same (removed was at gone may) = removed was at (same ∙ gone) may

  pub AllFates-same :
      (fn fn1 : Function) → fn1.instructions ≡ fn.instructions → AllFates fn → AllFates fn1
  AllFates-same fn fn1 same h j =
      FateOf-later fn fn1 j (ap (λ (xs : List Instruction). core_of (get_elem? xs j)) same) (h j)

  -- Removing an allowed instruction.
  pub AllFates-removed :
      (fn fn1 : Function) (i : ℕ) (inst was : Instruction)
      → AllFates fn
      → get_elem? fn.instructions i ≡ some inst
      → is_none inst.opcode ≡ false
      → get_elem? old.instructions i ≡ some was
      → core inst ≡ core was
      → P was
      → remove_instruction fn i ≡ done fn1
      → AllFates fn1
  AllFates-removed fn fn1 i inst was h found live at same may gone j = elim (Bool-cases (i == j)) [
    | inl here ↦
        let e : i ≡ j = ground (arith, here) in
        let clear = remove_instruction-cleared fn i inst found live gone in
        subst (λ (k : ℕ). FateOf P old fn1 k) e
          (removed was at (clear ∙ ap (λ (c : Core). some (cleared_core c)) same) may)
    | inr other ↦
        let ne : i ≢ j = ground (arith, other) in
        FateOf-later fn fn1 j (remove_instruction-core_at fn i j ne gone) (h j)
  ]
