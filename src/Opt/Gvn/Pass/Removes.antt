-- ===== src/Opt/Gvn/Pass/Removes.antt =====
-- The pass of src/opt/gvn.c removes only instructions that may be shared.
use nybit.Base.{
  ℕ, zero, suc, ◌≡◌, ◌≢◌, ◌∙◌, refl, sym, ap, subst, arith, Bool, true, false, ◌&&◌, ◌||◌, not,
  Bool-cases, Option-cases, inl, inr, Option, none, some, [], length, get_elem?, ◌==◌, bit_and,
}
use nybit.Base.Outcome.{Outcome, done}
use nybit.Ir.Opcode.{Opcode}
use nybit.Ir.Function.{Instruction, Function, invalid, is_none, replace_all_uses}
use nybit.Ir.Function.Remove.{remove_instruction, cleared}
use nybit.Ir.Function.Others.{Core, core, core_of, core_at, remove_instruction-core_at}
use nybit.Ir.Function.Removed.{cleared_core, remove_instruction-cleared}
use nybit.Analysis.Dominator.{DominatorTree}
use nybit.Opt.Gvn.{is_gvn_candidate}
use nybit.Opt.Gvn.Pass.{Numbering, is_shared, visit, walk, walk_blocks, pass_gvn}
use nybit.Opt.Gvn.Pass.Visit.{and_then_inv, Visited, skipped, noted, replaced, visit-Visited}

-- The function has the same instruction at `i` but for its links; or has it removed, and then it
-- has a result, is of a kind that may be shared, and is not volatile.
pub data SharedFate (old new : Function) (i : ℕ) : Type 0 where
  kept : core_at new i ≡ core_at old i → SharedFate old new i
  shared :
      (inst : Instruction)
      → get_elem? old.instructions i ≡ some inst
      → core_at new i ≡ some (core (cleared inst))
      → is_shared inst ≡ true
      → SharedFate old new i

candidate-live : (op : Opcode) → is_gvn_candidate op ≡ true → is_none op ≡ false
unfolding is_gvn_candidate
candidate-live Opcode.none h = cc
candidate-live _ h = refl

is_shared-live : (inst : Instruction) → is_shared inst ≡ true → is_none inst.opcode ≡ false
is_shared-live inst h = candidate-live inst.opcode (ground (arith, h))

-- The instruction is at the index that its id names.
abbrev pub Numbered : Function → Type 0
Numbered fn = (i : ℕ) (inst : Instruction) → get_elem? fn.instructions i ≡ some inst → inst.id ≡ i

same_instructions :
    (fn : Function) (a b : ℕ) → (replace_all_uses fn a b).instructions ≡ fn.instructions
unfolding replace_all_uses
same_instructions fn a b = elim (Bool-cases (a == b)) [
  | inl same ↦ rw (replace_all_uses, same) refl
  | inr differ ↦ rw (replace_all_uses, differ) refl
]

module _ (old : Function) (numbered : Numbered old) where
  abbrev AllFates : Function → Type 0
  AllFates fn = (i : ℕ) → SharedFate old fn i

  -- A live instruction of the later state is the old one but for its links.
  was_at :
      (fn : Function) (i : ℕ) {inst : Instruction}
      → SharedFate old fn i
      → get_elem? fn.instructions i ≡ some inst
      → is_none inst.opcode ≡ false
      → (was : Instruction) × (get_elem? old.instructions i ≡ some was) × (core inst ≡ core was)
  was_at fn i {inst = inst} (kept e) found live =
      let at : some (core inst) ≡ core_at old i = sym (ap core_of found) ∙ e in
      elim (Option-cases (get_elem? old.instructions i)) [
        | inl missing ↦ let r = rw missing at at in cc
        | inr there ↦ let r = rw there.1 at at in (there.0, there.1, cc)
      ]
  was_at fn i {inst = inst} (shared was at gone may) found live =
      let both : some (core inst) ≡ some (core (cleared was)) = sym (ap core_of found) ∙ gone in
      let same : core inst ≡ core (cleared was) = cc in
      let dead = ap (λ (c : Core). is_none c.opcode) same in
      absurd (let differ = sym live ∙ dead in cc)

  later :
      (fn fn1 : Function) (j : ℕ)
      → core_at fn1 j ≡ core_at fn j
      → SharedFate old fn j
      → SharedFate old fn1 j
  later fn fn1 j same (kept e) = kept (same ∙ e)
  later fn fn1 j same (shared was at gone may) = shared was at (same ∙ gone) may

  abbrev shared_core : Core → Bool
  shared_core c = not (c.result == invalid) && is_gvn_candidate c.opcode && (bit_and c.flags 1 == 0)

  visit-AllFates :
      (dt : DominatorTree) (b_id curr : ℕ) (inst : Instruction) (st st1 : Numbering)
      → get_elem? st.fn.instructions curr ≡ some inst
      → AllFates st.fn
      → Visited dt b_id inst st st1
      → AllFates st1.fn
  visit-AllFates dt b_id curr inst st st1 found h (skipped plain e) j = rw e (h j)
  visit-AllFates dt b_id curr inst st st1 found h (noted key may made e) j = rw e (h j)
  visit-AllFates dt b_id curr inst st st1 found h (replaced key cand may made match gone table) j =
      let live = is_shared-live inst may in
      let was = was_at st.fn curr (h curr) found live in
      let id : inst.id ≡ curr = ap (λ (c : Core). c.id) was.2 ∙ numbered curr was.0 was.1 in
      let fn0 = replace_all_uses st.fn inst.result cand.val in
      let insts : fn0.instructions ≡ st.fn.instructions =
        same_instructions st.fn inst.result cand.val in
      let cores = λ (k : ℕ). ap (λ xs. core_of (get_elem? xs k)) insts in
      let gone_at : remove_instruction fn0 curr ≡ done st1.fn =
        ap (λ k. remove_instruction fn0 k) (sym id) ∙ gone in
      elim (Bool-cases (curr == j)) [
        | inl here ↦
            let e : curr ≡ j = ground (arith, here) in
            let there : get_elem? fn0.instructions curr ≡ some inst =
              ap (λ xs. get_elem? xs curr) insts ∙ found in
            let clear = remove_instruction-cleared fn0 curr inst there live gone_at in
            subst (λ k. SharedFate old st1.fn k) e
              (shared was.0 was.1 (clear ∙ ap (λ (c : Core). some (cleared_core c)) was.2)
                (ap shared_core (sym was.2) ∙ may))
        | inr other ↦
            let ne : curr ≢ j = ground (arith, other) in
            later st.fn st1.fn j (remove_instruction-core_at fn0 curr j ne gone_at ∙ cores j) (h j)
      ]

  stay :
      (st st1 : Numbering)
      → AllFates st.fn
      → ◌≡◌ {A = Outcome (Option Numbering)} (done (some st)) (done (some st1))
      → AllFates st1.fn
  stay st st1 h r j = let same : st ≡ st1 = cc in rw (sym same) (h j)

  walk-AllFates :
      (dt : DominatorTree) (b_id fuel : ℕ) (st : Numbering) (curr : ℕ) {st1 : Numbering}
      → AllFates st.fn
      → walk dt b_id fuel st curr ≡ done (some st1)
      → AllFates st1.fn
  unfolding walk
  walk-AllFates dt b_id zero st curr {st1 = st1} h e = elim (Bool-cases (curr == invalid)) [
    | inl over ↦
        let r : ◌≡◌ {A = Outcome (Option Numbering)} (done (some st)) (done (some st1)) =
          rw (walk, over) at e in
        stay st st1 h r
    | inr more ↦
        let r : ◌≡◌ {A = Outcome (Option Numbering)} (done none) (done (some st1)) =
          rw (walk, more) at e in
        absurd cc
  ]
  walk-AllFates dt b_id (suc fuel) st curr {st1 = st1} h e = elim (Bool-cases (curr == invalid)) [
    | inl over ↦
        let r : ◌≡◌ {A = Outcome (Option Numbering)} (done (some st)) (done (some st1)) =
          rw (walk, over) at e in
        stay st st1 h r
    | inr more ↦ elim (Option-cases (get_elem? st.fn.instructions curr)) [
      | inl missing ↦
          let r : ◌≡◌ {A = Outcome (Option Numbering)} (done (some st)) (done (some st1)) =
            rw (walk, more, missing) at e in
          stay st st1 h r
      | inr found ↦
          let inst = found.0 in
          let turn =
            and_then_inv (visit dt b_id inst st) (λ s. walk dt b_id fuel s inst.next)
              (rw (walk, more, found.1) at e) in
          walk-AllFates dt b_id fuel turn.0 inst.next
            (visit-AllFates dt b_id curr inst st turn.0 found.1 h
              (visit-Visited dt b_id inst st turn.1))
            turn.2
    ]
  ]

  walk_blocks-AllFates :
      (dt : DominatorTree) (fuel b_id n : ℕ) (st : Numbering) {st1 : Numbering}
      → AllFates st.fn
      → walk_blocks dt fuel b_id n st ≡ done (some st1)
      → AllFates st1.fn
  unfolding walk_blocks
  walk_blocks-AllFates dt fuel b_id zero st {st1 = st1} h e = stay st st1 h e
  walk_blocks-AllFates dt fuel b_id (suc n) st {st1 = st1} h e =
      elim (Option-cases (get_elem? st.fn.blocks b_id)) [
        | inl missing ↦
            walk_blocks-AllFates dt fuel (suc b_id) n st h (rw (walk_blocks, missing) at e)
        | inr found ↦
            let block =
              and_then_inv (walk dt b_id fuel st found.0.first_inst)
                (walk_blocks dt fuel (suc b_id) n) (rw (walk_blocks, found.1) at e) in
            walk_blocks-AllFates dt fuel (suc b_id) n block.0
              (walk-AllFates dt b_id fuel st found.0.first_inst h block.1) block.2
      ]

-- For a function in which each instruction is at the index that its id names, where value
-- numbering returns, each index has the instruction that it had but for its links, or that
-- instruction is removed, and it had a result, was of a kind that may be shared, and was not
-- volatile.
pub pass_gvn-SharedFate :
    (dt : DominatorTree) (fn : Function) (i : ℕ) {st1 : Numbering}
    → Numbered fn
    → pass_gvn dt fn ≡ done (some st1)
    → SharedFate fn st1.fn i
unfolding pass_gvn
pass_gvn-SharedFate dt fn i {st1 = st1} numbered e =
    let st : Numbering = record { fn = fn; table = []; changed = false } in
    let fresh = λ (j : ℕ). let same : SharedFate fn fn j = kept refl in same in
    elim (Bool-cases (length fn.blocks == 0 || fn.entry_block == invalid)) [
      | inl empty ↦ stay fn numbered st st1 fresh (rw (pass_gvn, empty) at e) i
      | inr blocks ↦
          walk_blocks-AllFates fn numbered dt (suc (length fn.instructions)) 0 (length fn.blocks) st
            fresh (rw (pass_gvn, blocks) at e) i
    ]
