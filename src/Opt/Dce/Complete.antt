-- ===== src/Opt/Dce/Complete.antt =====
-- Dead code elimination leaves no instruction without effects whose result nothing uses.
use nybit.Base.{
  ℕ, ◌+◌, ◌<◌, ◌≡◌, ◌∙◌, inl, inr, refl, ap, subst, arith, Bool, true, false, ◌^◌, Bool-cases,
  Option-cases, some, [], length, get_elem?, ltb, ◌==◌,
}
use nybit.Base.Outcome.{done, bind_inv}
use nybit.Ir.Function.{Instruction, Function, invalid}
use nybit.Analysis.UseDef.{UseDef, init, get_def, use_count}
use nybit.Analysis.UseDef.Counts.{live_uses, live_operands, IsNumbered}
use nybit.Analysis.UseDef.Describes.{Describes, init-Describes}
use nybit.Analysis.UseDef.Complete.{IsSingleDef, All_at, init-def}
use nybit.Opt.Dce.{loop, started, seed, is_seed, active_counts, pass_dce}
use nybit.Opt.Dce.Fates.{uses_in}
use nybit.Opt.Dce.Pushed.{waits, seed-pushes}
use nybit.Opt.Dce.Sound.{get_elem?-active_counts, loop-Invariant, started-Invariant}
use nybit.Opt.Dce.Waiting.{IsPlain, Known, Waiting, loop-Waiting}

module _ (fn : Function) (ud : UseDef) (own : IsNumbered fn.instructions)
    (single : IsSingleDef fn.instructions) (few : length fn.values < 2 ^ 32) where
  has_result :
      (inst : Instruction) → IsPlain (length fn.values) inst → (inst.result == invalid) ≡ false
  has_result inst h = ground (arith, h.valued, few)

  own_id :
      (j : ℕ) (inst : Instruction)
      → get_elem? fn.instructions j ≡ some inst
      → IsPlain (length fn.values) inst
      → inst.id ≡ j
  own_id j inst at h =
      let there =
        All_at (λ (y : Instruction). get_elem? fn.instructions y.id ≡ some y) fn.instructions j own
          at in
      single inst.id j inst inst there at h.live h.live (has_result inst h) refl

  started-Waiting : Describes fn ud → Waiting fn ud (length fn.values) (started fn ud)
  unfolding started
  started-Waiting h j inst at plain unused =
      let n = length fn.values in
      let active = active_counts ud 0 n in
      let first : 0 + inst.result ≡ inst.result = omega arith in
      let count : get_elem? active inst.result ≡ some 0 =
        get_elem?-active_counts ud 0 n inst.result plain.valued
        ∙ rw (first, use_count, h.counts inst.result plain.valued) (ap some unused) in
      let below : ltb inst.result n ≡ true = ground (arith, plain.valued) in
      let taken : is_seed n active inst ≡ true =
        rw (plain.live, has_result inst plain, plain.plain, below, count) refl in
      let id = own_id j inst at plain in
      subst (λ (x : ℕ). waits x (seed n active fn.instructions []) ≡ true) id
        (seed-pushes n active fn.instructions [] j at taken)

-- Dead code elimination misses nothing: for a function of less than 2^32 instructions and
-- values, whose instructions are numbered by their ids, whose live instructions have less than
-- 2^32 operands together and no result in common, where the pass returns a function, every live
-- instruction of it that has no side effects and whose result is a value of the function has a
-- result that some live instruction uses.
pub pass_dce-AllUsed :
    (fn : Function) (j : ℕ) (inst : Instruction) {fn1 : Function} {changed : Bool}
    → IsNumbered fn.instructions
    → IsSingleDef fn.instructions
    → live_operands fn.operands fn.instructions < 2 ^ 32
    → length fn.instructions < 2 ^ 32
    → length fn.values < 2 ^ 32
    → pass_dce fn ≡ done (some (fn1, changed))
    → get_elem? fn1.instructions j ≡ some inst
    → IsPlain (length fn.values) inst
    → 0 < live_uses fn1.operands fn1.instructions inst.result
unfolding pass_dce
pass_dce-AllUsed fn j inst {fn1 = fn1} {changed = changed} own single small few few_values e at
      plain =
    let n = length fn.values in
    let values : (n == 0) ≡ false = ground (arith, plain.valued) in
    let first = bind_inv (init fn) _ (rw (pass_dce, values) at e) in
    let ud = first.0 in
    let second = bind_inv (loop ud n (length fn.instructions + n) (started fn ud)) _ first.2 in
    let described = init-Describes fn own small first.1 in
    let known : Known fn ud n = λ k x found h.
      let defined =
        init-def fn k x own single found h.live (has_result fn ud own single few_values x h)
          h.valued first.1 in
      rw (get_def, defined) refl in
    elim (Option-cases second.0) [
      | inl out ↦ let last = rw out at second.2 in cc
      | inr got ↦
          let last = rw got.1 at second.2 in
          let same : got.0.fn ≡ fn1 = cc in
          let returned = second.1 ∙ ap done got.1 in
          let started_h = started-Invariant fn ud own described in
          let h = loop-Invariant fn n ud _ (started fn ud) described.defs started_h returned in
          let (waiting, empty) =
            loop-Waiting fn ud n known described.defs few _ (started fn ud) started_h
              (started-Waiting fn ud own single few_values described) returned in
          let pool : fn1.operands ≡ fn.operands = rw same at h.pool in
          elim (Bool-cases (live_uses fn.operands fn1.instructions inst.result == 0)) [
            | inl unused ↦
                let none_left : uses_in fn got.0.fn inst.result ≡ 0 =
                  rw same (ground (arith, unused)) in
                let waits_j = waiting j inst (rw same at) plain none_left in
                let never : waits j [] ≡ true = rw empty at waits_j in cc
            | inr used ↦ rw pool (ground (arith, used))
          ]
    ]
