-- ===== src/Opt/Dce/Sound.antt =====
-- Dead code elimination removes nothing that has an effect or a use.
use nybit.Base.{
  ℕ, zero, suc, ◌+◌, ◌<◌, ◌≡◌, ◌∙◌, inl, inr, refl, sym, ap, arith, Bool, true, false, ◌^◌,
  Bool-cases, Option-cases, List-cases, Option, some, List, [], ◌∷◌, length, get_elem?, ◌==◌, All,
}
use nybit.Base.Outcome.{Outcome, done, bind_inv}
use nybit.Ir.Function.{Instruction, Function}
use nybit.Ir.Function.Others.{core_at}
use nybit.Analysis.UseDef.{UseDef, init, use_count}
use nybit.Analysis.UseDef.Counts.{live_uses, live_operands, IsNumbered, Tabulates, Defines}
use nybit.Analysis.UseDef.Describes.{Describes, init-Describes}
use nybit.Opt.Dce.{
  Pass, popped, turn, loop, started, seed, is_seed, is_zero, active_counts, pass_dce,
}
use nybit.Opt.Dce.Fuel.{turn_inv, loop-over, loop-stops, loop-turns}
use nybit.Opt.Dce.Release.{Ready}
use nybit.Opt.Dce.Fates.{Fate, kept, Invariant, turn-Invariant}

module _ (old : Function) where
  pub loop-Invariant :
      (n : ℕ) (ud : UseDef) (fuel : ℕ) (p : Pass) {q : Pass}
      → Defines old.instructions ud.def_inst
      → Invariant old n p
      → loop ud n fuel p ≡ done (some q)
      → Invariant old n q
  loop-Invariant n ud zero p {q = q} defs h e = elim (List-cases p.work.dead) [
    | inl over ↦
        let both = sym (loop-over ud n zero p over) ∙ e in let same : p ≡ q = cc in rw (sym same) h
    | inr more ↦ let both = sym (loop-stops ud n p more.0 more.1 more.2) ∙ e in cc
  ]
  loop-Invariant n ud (suc fuel) p {q = q} defs h e = elim (List-cases p.work.dead) [
    | inl over ↦
        let both = sym (loop-over ud n (suc fuel) p over) ∙ e in
        let same : p ≡ q = cc in rw (sym same) h
    | inr more ↦
        let goes = sym (loop-turns ud n fuel p more.0 more.1 more.2) ∙ e in
        let once = bind_inv (turn ud n more.0 (popped p more.1)) (loop ud n fuel) goes in
        loop-Invariant n ud fuel once.0 defs
          (turn-Invariant old n ud more.0 more.1 p once.0 defs more.2 h
            (turn_inv ud n more.0 _ once.1))
          once.2
  ]

pub get_elem?-active_counts :
    (ud : UseDef) (i n v : ℕ)
    → v < n
    → get_elem? (active_counts ud i n) v ≡ some (use_count ud (i + v))
get_elem?-active_counts ud i zero v h = elim h [ ]
get_elem?-active_counts ud i (suc n) zero h = ap (λ k. some (use_count ud k)) (omega arith)
get_elem?-active_counts ud i (suc n) (suc v) h =
    get_elem?-active_counts ud (suc i) n v (omega arith)
    ∙ ap (λ k. some (use_count ud k)) (omega arith)

is_seed-unused :
    (n : ℕ) (f : ℕ → ℕ) (active : List ℕ) (inst : Instruction)
    → Tabulates n f active
    → is_seed n active inst ≡ true
    → f inst.result ≡ 0
is_seed-unused n f active inst h taken =
    let small : inst.result < n = ground (arith, taken) in
    let at = h inst.result small in
    let zero_uses : is_zero (get_elem? active inst.result) ≡ true = ground (arith, taken) in
    let is_0 : (f inst.result == 0) ≡ true = rw at at zero_uses in ground (arith, is_0)

seed-Ready :
    (n : ℕ) (f : ℕ → ℕ) (active : List ℕ) (all insts : List Instruction) (dead : List ℕ)
    → Tabulates n f active
    → All (λ inst. get_elem? all inst.id ≡ some inst) insts
    → All (Ready all f) dead
    → All (Ready all f) (seed n active insts dead)
unfolding seed
seed-Ready n f active all [] dead h own ready = ready
seed-Ready n f active all (inst ∷ insts) dead h own ready =
    elim (Bool-cases (is_seed n active inst)) [
      | inl taken ↦
          let unused = is_seed-unused n f active inst h taken in
          rw taken (
            seed-Ready n f active all insts (inst.id ∷ dead) h own.1 ((inst, own.0, unused), ready))
      | inr not_taken ↦ rw not_taken (seed-Ready n f active all insts dead h own.1 ready)
    ]

pub started-Invariant :
    (fn : Function) (ud : UseDef)
    → IsNumbered fn.instructions
    → Describes fn ud
    → Invariant fn (length fn.values) (started fn ud)
unfolding started
started-Invariant fn ud own h =
    let n = length fn.values in
    let f = live_uses fn.operands fn.instructions in
    let table : Tabulates n f (active_counts ud 0 n) = λ v below.
      let at = h.counts v below in
      let first : 0 + v ≡ v = omega arith in
      get_elem?-active_counts ud 0 n v below ∙ rw (first, use_count, at) refl in
    record {
      pool = refl;
      exact = record {
        counts = λ v below. table v below ∙ ap some (omega arith);
        ready =
            seed-Ready n f (active_counts ud 0 n) fn.instructions fn.instructions [] table own tt;
      };
      fates = λ i. kept refl;
    }

-- For a function whose instructions are numbered by their ids and whose live instructions have
-- less than 2^32 operands together, where dead code elimination returns a function, each index
-- has the instruction that it had but for its links, or that instruction is removed, had no
-- side effects, and no live instruction of the new function uses its result; the pool of
-- operands stays.
pub pass_dce-Fate :
    (fn : Function) (i : ℕ) {fn1 : Function} {changed : Bool}
    → IsNumbered fn.instructions
    → live_operands fn.operands fn.instructions < 2 ^ 32
    → pass_dce fn ≡ done (some (fn1, changed))
    → Fate fn fn1 i × (fn1.operands ≡ fn.operands)
unfolding pass_dce
pass_dce-Fate fn i {fn1 = fn1} {changed = changed} own small e =
    elim (Bool-cases (length fn.values == 0)) [
      | inl no_values ↦
          let r : ◌≡◌ {A = Outcome (Option (Function × Bool))} (done (some (fn, false)))
              (done (some (fn1, changed))) =
            rw (pass_dce, no_values) at e in
          let same : fn ≡ fn1 = cc in
          (kept (ap (λ g. core_at g i) (sym same)), ap (λ g. g.operands) (sym same))
      | inr values ↦
          let n = length fn.values in
          let first = bind_inv (init fn) _ (rw (pass_dce, values) at e) in
          let ud = first.0 in
          let second =
            bind_inv (loop ud n (length fn.instructions + n) (started fn ud)) _ first.2 in
          let described = init-Describes fn own small first.1 in
          elim (Option-cases second.0) [
            | inl out ↦ let last = rw out at second.2 in cc
            | inr got ↦
                let last = rw got.1 at second.2 in
                let same : got.0.fn ≡ fn1 = cc in
                let h =
                  loop-Invariant fn n ud _ (started fn ud) described.defs
                    (started-Invariant fn ud own described) (second.1 ∙ ap done got.1) in
                (rw same at (h.fates i), rw same at h.pool)
          ]
    ]
