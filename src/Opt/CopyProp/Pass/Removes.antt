-- ===== src/Opt/CopyProp/Pass/Removes.antt =====
-- The pass of src/opt/copy_prop.c removes only copies.
use nybit.Base.{
  ℕ, zero, suc, ◌+◌, ◌≡◌, ◌∙◌, refl, sym, ap, subst, false, Bool-cases, Option-cases, inl, inr,
  Option, none, some, List, length, get_elem?, ◌==◌, ltb,
}
use nybit.Base.Outcome.{Outcome, done, faulted, bind_inv}
use nybit.Ir.Function.{
  Operand, Instruction, Function, invalid, is_none, replace_operand, replace_all_uses,
}
use nybit.Ir.Function.Remove.{remove_instruction}
use nybit.Ir.Function.Others.{Core}
use nybit.Analysis.UseDef.Complete.{IsSingleDef, All-of_get}
use nybit.Opt.CopyProp.{get_operands, get_copy_source}
use nybit.Opt.CopyProp.Pass.{
  Renaming, no_copies, find_copies, resolve_all, source_in, rename_operand, rename_operands,
  drop_copy, visit_copy, propagate, pass_copy_prop,
}
use nybit.Opt.Fates.{
  FateOf, kept, AllFates, was_at, AllFates-same, AllFates-removed, replace_all_uses-instructions,
}
use nybit.Opt.Gvn.Pass.Removes.{Numbered}
use nybit.Opt.CopyProp.Pass.Sources.{
  Sourced, find_copies-Sourced, resolve_all-Sourced, no_copies_only, source_in_inv,
}

replace_operand-instructions :
    (fn : Function) (i op_i : ℕ) (op : Operand)
    → (replace_operand fn i op_i op).instructions ≡ fn.instructions
unfolding replace_operand
replace_operand-instructions fn i op_i op = elim (Option-cases (get_elem? fn.instructions i)) [
  | inl missing ↦ rw (replace_operand, missing) refl
  | inr (inst, found) ↦ elim (Bool-cases (ltb op_i inst.op_count)) [
    | inl inside ↦ rw (replace_operand, found, inside) refl
    | inr beyond ↦ rw (replace_operand, found, beyond) refl
  ]
]

rename_operand-instructions :
    (copy_map : List ℕ) (inst : Instruction) (op_i : ℕ) (st : Renaming) (op : Operand)
    → (rename_operand copy_map inst op_i st op).fn.instructions ≡ st.fn.instructions
rename_operand-instructions copy_map inst op_i st (Operand.value v) =
    elim (Option-cases (source_in copy_map v)) [
      | inl no_copy ↦ rw (rename_operand, no_copy) refl
      | inr (src, copy) ↦
          rw (rename_operand, copy)
            (replace_operand-instructions st.fn inst.id op_i (Operand.value src))
    ]
rename_operand-instructions copy_map inst op_i st _ = refl

rename_operands-instructions :
    (copy_map : List ℕ) (inst : Instruction) (op_i n : ℕ) (st : Renaming) {st1 : Renaming}
    → rename_operands copy_map inst op_i n st ≡ done st1
    → st1.fn.instructions ≡ st.fn.instructions
unfolding rename_operands
rename_operands-instructions copy_map inst op_i zero st {st1 = st1} e =
    let same : st ≡ st1 = cc in ap (λ (s : Renaming). s.fn.instructions) (sym same)
rename_operands-instructions copy_map inst op_i (suc n) st {st1 = st1} e =
    elim (Option-cases (get_elem? st.fn.operands (inst.op_start + op_i))) [
      | inl missing ↦ let r : faulted ≡ done st1 = rw (rename_operands, missing) at e in cc
      | inr (op, found) ↦
          let next = rename_operand copy_map inst op_i st op in
          let r : rename_operands copy_map inst (suc op_i) n next ≡ done st1 =
            rw (rename_operands, found) at e in
          rename_operands-instructions copy_map inst (suc op_i) n next r
          ∙ rename_operand-instructions copy_map inst op_i st op
    ]

-- A copy of the function, which is the only definition of its result.
pub record IsCopy (fn : Function) (inst : Instruction) : Type 0 where
  pub live : is_none inst.opcode ≡ false
  pub src : ℕ
  pub copies : get_copy_source fn inst ≡ done (some src)

-- What is a copy has a result.
copy_result :
    (fn : Function) (def : Instruction) {src : ℕ}
    → get_copy_source fn def ≡ done (some src)
    → (def.result == invalid) ≡ false
unfolding get_copy_source
copy_result fn def {src = src} e = elim (Bool-cases (def.result == invalid)) [
  | inl no_result ↦
      let r : ◌≡◌ {A = Outcome (Option ℕ)} (done none) (done (some src)) =
        rw (get_copy_source, no_result) at e in
      absurd cc
  | inr result ↦ result
]

module _ (old : Function) (numbered : Numbered old) (single : IsSingleDef old.instructions)
    (copy_map : List ℕ) (sourced : Sourced old copy_map) where
  -- The only definition of a value in the map is a copy.
  IsCopy-only :
      (i : ℕ) (was : Instruction) {t : ℕ}
      → get_elem? old.instructions i ≡ some was
      → is_none was.opcode ≡ false
      → source_in copy_map was.result ≡ some t
      → IsCopy old was
  IsCopy-only i was at live there =
      let (s, entry, valid) = source_in_inv copy_map was.result there in
      let source = sourced was.result s entry valid in
      let place =
        single source.at i source.def was source.found at source.live live
          (copy_result old source.def source.copies) source.result in
      let both : some source.def ≡ some was =
        sym source.found ∙ ap (λ (k : ℕ). get_elem? old.instructions k) place ∙ at in
      let same : source.def ≡ was = cc in
      record {
        live = live;
        src = source.src;
        copies = ap (λ (x : Instruction). get_copy_source old x) (sym same) ∙ source.copies;
      }

  drop_copy-AllFates :
      (st : Renaming) (i : ℕ) (inst : Instruction) (target : ℕ) {st1 : Renaming}
      → get_elem? st.fn.instructions i ≡ some inst
      → is_none inst.opcode ≡ false
      → source_in copy_map inst.result ≡ some target
      → AllFates (IsCopy old) old st.fn
      → drop_copy inst target st ≡ done st1
      → AllFates (IsCopy old) old st1.fn
  drop_copy-AllFates st i inst target {st1 = st1} found live there h e =
      let fn0 = replace_all_uses st.fn inst.result target in
      let insts : fn0.instructions ≡ st.fn.instructions =
        replace_all_uses-instructions st.fn inst.result target in
      let gone = bind_inv (remove_instruction fn0 inst.id) _ e in
      let (was, at, cores) = was_at (IsCopy old) old st.fn i (h i) found live in
      let id : inst.id ≡ i = ap (λ (c : Core). c.id) cores ∙ numbered i was at in
      let results : inst.result ≡ was.result = ap (λ (c : Core). c.result) cores in
      let live_was : is_none was.opcode ≡ false =
        ap (λ (c : Core). is_none c.opcode) (sym cores) ∙ live in
      let copy = IsCopy-only i was at live_was (ap (source_in copy_map) (sym results) ∙ there) in
      let removed_i : remove_instruction fn0 i ≡ done gone.0 =
        ap (λ (k : ℕ). remove_instruction fn0 k) (sym id) ∙ gone.1 in
      let fates =
        AllFates-removed (IsCopy old) old fn0 gone.0 i inst was
          (AllFates-same (IsCopy old) old st.fn fn0 insts h)
          (ap (λ (xs : List Instruction). get_elem? xs i) insts ∙ found) live at cores copy
          removed_i in
      let same : gone.0 ≡ st1.fn = let last = gone.2 in cc in
      subst (AllFates (IsCopy old) old) same fates

  visit_copy-AllFates :
      (st : Renaming) (i : ℕ) (inst : Instruction) {st1 : Renaming}
      → get_elem? st.fn.instructions i ≡ some inst
      → AllFates (IsCopy old) old st.fn
      → visit_copy copy_map st inst ≡ done st1
      → AllFates (IsCopy old) old st1.fn
  unfolding visit_copy
  visit_copy-AllFates st i inst {st1 = st1} found h e =
      let unchanged : done st ≡ done st1 → AllFates (IsCopy old) old st1.fn = λ r.
        let same : st ≡ st1 = cc in
        subst (λ (x : Renaming). AllFates (IsCopy old) old x.fn) same h in
      elim (Bool-cases (is_none inst.opcode)) [
        | inl dead ↦ unchanged (rw (visit_copy, dead) at e)
        | inr live ↦ elim (Option-cases (source_in copy_map inst.result)) [
          | inr (target, there) ↦
              drop_copy-AllFates st i inst target found live there h
                (rw (visit_copy, live, there) at e)
          | inl other ↦ elim (Option-cases (get_operands st.fn inst)) [
            | inl outside ↦ elim (Bool-cases (inst.op_count == 0)) [
              | inl no_ops ↦ unchanged (rw (visit_copy, live, other, outside, no_ops) at e)
              | inr some_ops ↦
                  let r : faulted ≡ done st1 =
                    rw (visit_copy, live, other, outside, some_ops) at e in
                  absurd cc
            ]
            | inr (ops, inside) ↦
                let r : rename_operands copy_map inst 0 inst.op_count st ≡ done st1 =
                  rw (visit_copy, live, other, inside) at e in
                AllFates-same (IsCopy old) old st.fn st1.fn
                  (rename_operands-instructions copy_map inst 0 inst.op_count st r) h
          ]
        ]
      ]

  propagate-AllFates :
      (i n : ℕ) (st : Renaming) {st1 : Renaming}
      → AllFates (IsCopy old) old st.fn
      → propagate copy_map i n st ≡ done st1
      → AllFates (IsCopy old) old st1.fn
  unfolding propagate
  propagate-AllFates i zero st {st1 = st1} h e =
      let same : st ≡ st1 = cc in subst (λ (x : Renaming). AllFates (IsCopy old) old x.fn) same h
  propagate-AllFates i (suc n) st {st1 = st1} h e =
      elim (Option-cases (get_elem? st.fn.instructions i)) [
        | inl missing ↦ let r : faulted ≡ done st1 = rw (propagate, missing) at e in absurd cc
        | inr (inst, found) ↦
            let turn =
              bind_inv (visit_copy copy_map st inst) (propagate copy_map (suc i) n)
                (rw (propagate, found) at e) in
            propagate-AllFates (suc i) n turn.0 (visit_copy-AllFates st i inst found h turn.1)
              turn.2
      ]

-- For a function in which each instruction is at the index that its id names and no two live
-- instructions have the same result, where copy propagation returns, each index has the
-- instruction that it had but for its links, or that instruction is removed, and it was live
-- and a copy of some value.
pub pass_copy_prop-FateOf :
    (fn : Function) (i : ℕ) {st1 : Renaming}
    → Numbered fn
    → IsSingleDef fn.instructions
    → pass_copy_prop fn ≡ done st1
    → FateOf (IsCopy fn) fn st1.fn i
unfolding pass_copy_prop
pass_copy_prop-FateOf fn i {st1 = st1} numbered single e =
    let n = length fn.values in
    let st : Renaming = record { fn = fn; changed = false } in
    elim (Bool-cases (n == 0)) [
      | inl no_values ↦
          let r : done st ≡ done st1 = rw (pass_copy_prop, no_values) at e in
          let same : st ≡ st1 = cc in
          subst (λ (x : Renaming). FateOf (IsCopy fn) fn x.fn i) same (kept refl)
      | inr values ↦
          let found =
            bind_inv (find_copies fn fn.instructions (no_copies n)) _
              (rw (pass_copy_prop, values) at e) in
          let own = All-of_get fn.instructions (λ k x at. (k, at)) in
          let sourced = resolve_all-Sourced fn 0 n found.0 (
            find_copies-Sourced fn fn.instructions (no_copies n) own
              (λ v s at valid. absurd (valid (no_copies_only n v at))) found.1) in
          propagate-AllFates fn numbered single (resolve_all 0 n found.0) sourced 0
            (length fn.instructions) st (λ j. kept refl) found.2 i
    ]
