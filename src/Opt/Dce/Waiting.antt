-- ===== src/Opt/Dce/Waiting.antt =====
-- The worklist of dead code elimination has every instruction that nothing needs.
use nybit.Base.{
  ℕ, zero, suc, ◌<◌, ◌≡◌, ◌≢◌, ◌∙◌, inl, inr, sym, ap, subst, arith, true, false, ◌^◌, Bool-cases,
  List-cases, some, List, [], ◌∷◌, length, get_elem?, ◌==◌, lt-length_of_get_elem?,
}
use nybit.Base.Outcome.{done, bind_inv}
use nybit.Ir.Function.{Operand, Instruction, Function, is_none}
use nybit.Ir.Function.Remove.{cleared, remove_instruction}
use nybit.Ir.Function.Others.{Core, core, core_of, core_at, remove_instruction-core_at}
use nybit.Ir.Function.Removed.{remove_instruction-cleared}
use nybit.Analysis.UseDef.{UseDef, get_def, read_operands}
use nybit.Analysis.UseDef.Counts.{occurs, Defines}
use nybit.Opt.Dce.{Pass, popped, turn, loop, has_side_effects, release}
use nybit.Opt.Dce.Fuel.{Turned, skipped, dropped, turn_inv, loop-over, loop-stops, loop-turns}
use nybit.Opt.Dce.Fates.{
  Fate, kept, Invariant, uses_in, same_core, dropped-split, dropped-Exact, turn-Invariant,
}
use nybit.Opt.Dce.Pushed.{waits, release-waits, release-pushes}

-- A live instruction without effects, whose result is a value.
pub record IsPlain (n : ℕ) (inst : Instruction) : Type 0 where
  pub live : is_none inst.opcode ≡ false
  pub plain : has_side_effects inst.opcode inst.flags ≡ false
  pub valued : inst.result < n

IsPlain-core : {n : ℕ} (a b : Instruction) → core a ≡ core b → IsPlain n a → IsPlain n b
IsPlain-core a b same h = record {
  live = ap (λ (c : Core). is_none c.opcode) (sym same) ∙ h.live;
  plain = ap (λ (c : Core). has_side_effects c.opcode c.flags) (sym same) ∙ h.plain;
  valued = let results = ap (λ (c : Core). c.result) same in omega (arith, results, h.valued);
}

module _ (old : Function) (ud : UseDef) (n : ℕ) where
  -- The definition of each value is known.
  abbrev pub Known : Type 0
  Known =
      (j : ℕ) (inst : Instruction)
      → get_elem? old.instructions j ≡ some inst
      → IsPlain n inst
      → get_def ud inst.result ≡ j

  -- What nothing uses is on the worklist.
  abbrev pub Waiting : Pass → Type 0
  Waiting p =
      (j : ℕ) (inst : Instruction)
      → get_elem? p.fn.instructions j ≡ some inst
      → IsPlain n inst
      → uses_in old p.fn inst.result ≡ 0
      → waits j p.work.dead ≡ true

  module _ (known : Known) (defs : Defines old.instructions ud.def_inst)
      (few : length old.instructions < 2 ^ 32) where
    dropped-waits :
        (p : Pass) (i : ℕ) (rest : List ℕ) (inst : Instruction) (ops : List Operand)
        (fn1 : Function)
        → p.work.dead ≡ i ∷ rest
        → Invariant old n p
        → Waiting p
        → get_elem? p.fn.instructions i ≡ some inst
        → is_none inst.opcode ≡ false
        → read_operands p.fn inst ≡ done ops
        → remove_instruction p.fn i ≡ done fn1
        → (j : ℕ) (now was : Instruction) → (i == j) ≡ false
        → get_elem? p.fn.instructions j ≡ some was
        → core now ≡ core was
        → IsPlain n was
        → uses_in old fn1 now.result ≡ 0
        → waits j (release ud p.fn n ops (popped p rest).work).dead ≡ true
    dropped-waits p i rest inst ops fn1 top h waiting found live read gone j now was ne at same
          plain unused =
        let results : now.result ≡ was.result = ap (λ (c : Core). c.result) same in
        let unused_was : uses_in old fn1 was.result ≡ 0 =
          ap (uses_in old fn1) (sym results) ∙ unused in
        let split = dropped-split old p n i inst ops was.result h found live read gone in
        elim (Bool-cases (occurs was.result ops == 0)) [
          | inl unnamed ↦
              let before = waiting j was at plain (ground (arith, split, unused_was, unnamed)) in
              let waited : waits j (i ∷ rest) ≡ true = rw top at before in
              release-waits ud p.fn n j ops (popped p rest).work (ground (arith, waited, ne))
          | inr named ↦
              let (first, at_first, cores) = same_core old p.fn j (h.fates j) at plain.live in
              let firsts : first.result ≡ was.result = ap (λ (c : Core). c.result) (sym cores) in
              let defined = known j first at_first (IsPlain-core was first cores plain) in
              release-pushes old.instructions n (uses_in old fn1) ud p.fn defs was.result j
                plain.valued unused_was (ap (get_def ud) (sym firsts) ∙ defined)
                (record {
                  inst = was;
                  found = at;
                  valid = ground (arith, few, lt-length_of_get_elem? old.instructions j at_first);
                  plain = plain.plain;
                })
                ops (popped p rest).work named
                (dropped-Exact old p n i rest inst ops top h found live read gone)
        ]

    turn-Waiting :
        (i : ℕ) (rest : List ℕ) (p q : Pass)
        → p.work.dead ≡ i ∷ rest
        → Invariant old n p
        → Waiting p
        → Turned ud n i (popped p rest) q
        → Waiting q
    turn-Waiting i rest p q top h waiting (skipped idle e) =
        let there : Waiting (popped p rest) = λ j inst at plain unused.
          let waited : waits j (i ∷ rest) ≡ true = rw top at (waiting j inst at plain unused) in
          elim (Bool-cases (i == j)) [
            | inr other ↦ ground (arith, waited, other)
            | inl same ↦
                let is_j : i ≡ j = ground (arith, same) in
                absurd (ground (arith, idle inst (rw is_j at), plain.live, plain.plain))
          ] in
        rw (sym e) there
    turn-Waiting i rest p q top h waiting (dropped inst ops fn1 found live plain read gone e) =
        let after : Waiting (record {
          fn = fn1;
          work = release ud p.fn n ops (popped p rest).work;
          changed = true;
        }) =
          λ j now at is_plain unused. elim (Bool-cases (i == j)) [
            | inl same ↦
                let is_j : i ≡ j = ground (arith, same) in
                let cleared_j : core_at fn1 j ≡ some (core (cleared inst)) =
                  rw is_j at (remove_instruction-cleared p.fn i inst found live gone) in
                let both : some (core now) ≡ some (core (cleared inst)) =
                  sym (ap core_of at) ∙ cleared_j in
                let cores : core now ≡ core (cleared inst) = cc in
                let dead = ap (λ (c : Core). is_none c.opcode) cores in
                absurd (let differ = sym is_plain.live ∙ dead in cc)
            | inr other ↦
                let ne : i ≢ j = ground (arith, other) in
                let kept_j : Fate p.fn fn1 j = kept (remove_instruction-core_at p.fn i j ne gone) in
                let (was, at_was, cores) = same_core p.fn fn1 j kept_j at is_plain.live in
                dropped-waits p i rest inst ops fn1 top h waiting found live read gone j now was
                  other at_was cores (IsPlain-core now was cores is_plain) unused
          ] in
        rw e after

    pub loop-Waiting :
        (fuel : ℕ) (p : Pass) {q : Pass}
        → Invariant old n p
        → Waiting p
        → loop ud n fuel p ≡ done (some q)
        → Waiting q × (q.work.dead ≡ [])
    loop-Waiting zero p {q = q} h waiting e = elim (List-cases p.work.dead) [
      | inl over ↦
          let both = sym (loop-over ud n zero p over) ∙ e in
          let same : p ≡ q = cc in
          subst (λ (x : Pass). Waiting x × (x.work.dead ≡ [])) same (waiting, over)
      | inr more ↦ let both = sym (loop-stops ud n p more.0 more.1 more.2) ∙ e in cc
    ]
    loop-Waiting (suc fuel) p {q = q} h waiting e = elim (List-cases p.work.dead) [
      | inl over ↦
          let both = sym (loop-over ud n (suc fuel) p over) ∙ e in
          let same : p ≡ q = cc in
          subst (λ (x : Pass). Waiting x × (x.work.dead ≡ [])) same (waiting, over)
      | inr more ↦
          let goes = sym (loop-turns ud n fuel p more.0 more.1 more.2) ∙ e in
          let once = bind_inv (turn ud n more.0 (popped p more.1)) (loop ud n fuel) goes in
          let turned = turn_inv ud n more.0 _ once.1 in
          loop-Waiting fuel once.0
            (turn-Invariant old n ud more.0 more.1 p once.0 defs more.2 h turned)
            (turn-Waiting more.0 more.1 p once.0 more.2 h waiting turned) once.2
    ]
