-- ===== src/Opt/Dce/Fuel.antt =====
-- The fuel of dead code elimination: one round for each entry of the worklist and each value that
-- still has uses.
use nybit.Base.{
  ℕ, zero, suc, ◌+◌, ◌-◌, ◌≤◌, ◌≡◌, ◌≢◌, refl, sym, ap, ◌∙◌, arith, Bool, true, false, ◌||◌,
  Bool-cases, Option-cases, List-cases, inl, inr, Option, none, some, List, [], ◌∷◌, length,
  get_elem?, set, ltb, ◌==◌, if◌then◌else◌,
}
use nybit.Base.Outcome.{Outcome, done, ◌>>=◌, bind_inv}
use nybit.Ir.Function.{Operand, Instruction, Function, invalid, is_none}
use nybit.Ir.Function.Remove.{remove_instruction}
use nybit.Analysis.UseDef.{UseDef, init, read_operands, get_def}
use nybit.Opt.Dce.{
  Work, Pass, has_side_effects, push_def, release_value, release, turn, popped, loop, started, seed,
  is_seed, active_counts, pass_dce, drop_instruction,
}

-- How many of the counts are not zero.
abbrev nonzero : List ℕ → ℕ
nonzero [] = 0
nonzero (c ∷ counts) = (if c == 0 then 0 else 1) + nonzero counts

nonzero-set :
    (counts : List ℕ) (v d : ℕ) {c : ℕ}
    → get_elem? counts v ≡ some c
    → (c == 0) ≡ false
    → nonzero (set counts v d) + 1 ≡ nonzero counts + (if d == 0 then 0 else 1)
nonzero-set [] v d e h = cc
nonzero-set (x ∷ counts) zero d {c = c} e h = let same : x ≡ c = cc in rw (same, h) (omega arith)
nonzero-set (x ∷ counts) (suc v) d e h = omega (arith, nonzero-set counts v d e h)

potential : Work → ℕ
potential w = length w.dead + nonzero w.active

push_def-le :
    (fn : Function) (d : ℕ) (dead : List ℕ) → length (push_def fn d dead) ≤ suc (length dead)
unfolding push_def
push_def-le fn d dead = elim (Bool-cases (d == invalid)) [
  | inl no_def ↦ rw (push_def, no_def) (omega arith)
  | inr some_def ↦ elim (Option-cases (get_elem? fn.instructions d)) [
    | inl missing ↦ rw (push_def, some_def, missing) (omega arith)
    | inr found ↦ elim (Bool-cases (has_side_effects found.0.opcode found.0.flags)) [
      | inl kept ↦ rw (push_def, some_def, found.1, kept) (omega arith)
      | inr pushed ↦ rw (push_def, some_def, found.1, pushed) (omega arith)
    ]
  ]
]

release_value-le :
    (ud : UseDef) (fn : Function) (v : ℕ) (w : Work)
    → potential (release_value ud fn v w) ≤ potential w
unfolding potential
release_value-le ud fn v w = elim (Option-cases (get_elem? w.active v)) [
  | inl missing ↦ rw (release_value, missing) (omega arith)
  | inr found ↦
      let c = found.0 in
      elim (Bool-cases (c == 0)) [
        | inl gone ↦ rw (release_value, found.1, gone) (omega arith)
        | inr used ↦
            let counts = nonzero-set w.active v (c - 1) found.1 used in
            elim (Bool-cases (c - 1 == 0)) [
              | inl last ↦
                  let pushed = push_def-le fn (get_def ud v) w.dead in
                  let fewer = rw last at counts in
                  rw (release_value, found.1, used, last) (omega arith)
              | inr more ↦
                  let same = rw more at counts in
                  rw (release_value, found.1, used, more) (omega arith)
            ]
      ]
]

release-le :
    (ud : UseDef) (fn : Function) (n : ℕ) (ops : List Operand) (w : Work)
    → potential (release ud fn n ops w) ≤ potential w
release-le ud fn n [] w = omega arith
release-le ud fn n (Operand.value v ∷ ops) w = elim (Bool-cases (ltb v n)) [
  | inl below ↦
      let rest = release-le ud fn n ops (release_value ud fn v w) in
      let here = release_value-le ud fn v w in rw below (omega (arith, rest, here))
  | inr beyond ↦ rw beyond (release-le ud fn n ops w)
]
release-le ud fn n (Operand.empty ∷ ops) w = release-le ud fn n ops w
release-le ud fn n (Operand.block u ∷ ops) w = release-le ud fn n ops w
release-le ud fn n (Operand.imm_int u ∷ ops) w = release-le ud fn n ops w
release-le ud fn n (Operand.imm_float u ∷ ops) w = release-le ud fn n ops w
release-le ud fn n (Operand.function u ∷ ops) w = release-le ud fn n ops w
release-le ud fn n (Operand.symbol u ∷ ops) w = release-le ud fn n ops w
release-le ud fn n (Operand.global u ∷ ops) w = release-le ud fn n ops w
release-le ud fn n (Operand.type_of u ∷ ops) w = release-le ud fn n ops w

-- How a turn of the `while` loop ends: nothing is done, or the instruction is dropped.
pub data Turned (ud : UseDef) (n i : ℕ) (p q : Pass) : Type 0 where
  skipped :
      ((inst : Instruction)
        → get_elem? p.fn.instructions i ≡ some inst
        → (is_none inst.opcode || has_side_effects inst.opcode inst.flags) ≡ true)
      → p ≡ q
      → Turned ud n i p q
  dropped :
      (inst : Instruction) (ops : List Operand) (fn1 : Function)
      → get_elem? p.fn.instructions i ≡ some inst
      → is_none inst.opcode ≡ false
      → has_side_effects inst.opcode inst.flags ≡ false
      → read_operands p.fn inst ≡ done ops
      → remove_instruction p.fn i ≡ done fn1
      → q ≡ record { fn = fn1; work = release ud p.fn n ops p.work; changed = true }
      → Turned ud n i p q

idle :
    (insts : List Instruction) (i : ℕ) (inst : Instruction)
    → get_elem? insts i ≡ some inst
    → (is_none inst.opcode || has_side_effects inst.opcode inst.flags) ≡ true
    → (x : Instruction) → get_elem? insts i ≡ some x
    → (is_none x.opcode || has_side_effects x.opcode x.flags) ≡ true
idle insts i inst found h x at =
    let both : ◌≡◌ {A = Option Instruction} (some inst) (some x) = sym found ∙ at in
    let same : inst ≡ x = cc in
    ap (λ (y : Instruction). is_none y.opcode || has_side_effects y.opcode y.flags) (sym same) ∙ h

pub turn_inv :
    (ud : UseDef) (n i : ℕ) (p : Pass) {q : Pass} → turn ud n i p ≡ done q → Turned ud n i p q
unfolding turn
turn_inv ud n i p {q = q} e = elim (Option-cases (get_elem? p.fn.instructions i)) [
  | inl missing ↦
      let r : done p ≡ done q = rw (turn, missing) at e in
      skipped
        (λ x at.
          absurd (let both : ◌≡◌ {A = Option Instruction} none (some x) = sym missing ∙ at in cc))
        cc
  | inr found ↦
      let inst = found.0 in
      elim (Bool-cases (is_none inst.opcode)) [
        | inl dead ↦
            let r : done p ≡ done q = rw (turn, found.1, dead) at e in
            skipped (idle p.fn.instructions i inst found.1 (rw dead refl)) cc
        | inr live ↦ elim (Bool-cases (has_side_effects inst.opcode inst.flags)) [
          | inl kept ↦
              let r : done p ≡ done q = rw (turn, found.1, live, kept) at e in
              skipped (idle p.fn.instructions i inst found.1 (rw (live, kept) refl)) cc
          | inr plain ↦
              let r : drop_instruction ud n i inst p ≡ done q =
                rw (turn, found.1, live, plain) at e in
              let read = bind_inv (read_operands p.fn inst) _ r in
              let gone = bind_inv (remove_instruction p.fn i) _ read.2 in
              dropped inst read.0 gone.0 found.1 live plain read.1 gone.1 (let last = gone.2 in cc)
        ]
      ]
]

turn-le :
    (ud : UseDef) (n i : ℕ) (p : Pass) {q : Pass}
    → Turned ud n i p q
    → potential q.work ≤ potential p.work
turn-le ud n i p (skipped _ e) = rw (sym e) (omega arith)
turn-le ud n i p (dropped inst ops fn1 found live plain read gone e) =
    rw e (release-le ud p.fn n ops p.work)

pub loop-over :
    (ud : UseDef) (n fuel : ℕ) (p : Pass) → p.work.dead ≡ [] → loop ud n fuel p ≡ done (some p)
unfolding loop
loop-over ud n zero p e = simp (loop, e) refl
loop-over ud n (suc fuel) p e = simp (loop, e) refl

pub loop-stops :
    (ud : UseDef) (n : ℕ) (p : Pass) (i : ℕ) (rest : List ℕ)
    → p.work.dead ≡ i ∷ rest
    → loop ud n zero p ≡ done none
unfolding loop
loop-stops ud n p i rest e = rw (loop, e) refl

pub loop-turns :
    (ud : UseDef) (n fuel : ℕ) (p : Pass) (i : ℕ) (rest : List ℕ)
    → p.work.dead ≡ i ∷ rest
    → loop ud n (suc fuel) p ≡ (turn ud n i (popped p rest) >>= loop ud n fuel)
unfolding loop
loop-turns ud n fuel p i rest e = rw (loop, e) refl

loop-ends :
    (ud : UseDef) (n fuel : ℕ) (p : Pass) → potential p.work ≤ fuel → loop ud n fuel p ≢ done none
unfolding potential
loop-ends ud n zero p enough e = elim (List-cases p.work.dead) [
  | inl over ↦ let ended = loop-over ud n zero p over in let both = sym ended ∙ e in cc
  | inr more ↦ let size = ap (λ xs. length xs) more.2 in absurd (omega arith)
]
loop-ends ud n (suc fuel) p enough e = elim (List-cases p.work.dead) [
  | inl over ↦ let ended = loop-over ud n (suc fuel) p over in let both = sym ended ∙ e in cc
  | inr more ↦
      let goes = sym (loop-turns ud n fuel p more.0 more.1 more.2) ∙ e in
      let once = bind_inv (turn ud n more.0 (popped p more.1)) (loop ud n fuel) goes in
      let fewer = turn-le ud n more.0 (popped p more.1) (turn_inv ud n more.0 _ once.1) in
      let size = ap (λ xs. length xs) more.2 in loop-ends ud n fuel once.0 (omega arith) once.2
]

seed-le :
    (n : ℕ) (active : List ℕ) (insts : List Instruction) (dead : List ℕ)
    → length (seed n active insts dead) ≤ length insts + length dead
unfolding seed
seed-le n active [] dead = omega arith
seed-le n active (inst ∷ insts) dead = elim (Bool-cases (is_seed n active inst)) [
  | inl yes_seed ↦
      let rest = seed-le n active insts (inst.id ∷ dead) in rw (seed, yes_seed) (omega arith)
  | inr no_seed ↦ let rest = seed-le n active insts dead in rw (seed, no_seed) (omega arith)
]

nonzero-active_counts : (ud : UseDef) (i n : ℕ) → nonzero (active_counts ud i n) ≤ n
nonzero-active_counts ud i zero = omega arith
nonzero-active_counts ud i (suc n) = ground (arith, nonzero-active_counts ud (suc i) n)

-- Dead code elimination never runs out of its fuel, which is the number of instructions and of
-- values together.
pub pass_dce_ends : (fn : Function) → pass_dce fn ≢ done none
unfolding pass_dce started potential
pass_dce_ends fn e = elim (Bool-cases (length fn.values == 0)) [
  | inl no_values ↦
      let r : ◌≡◌ {A = Outcome (Option (Function × Bool))} (done (some (fn, false))) (done none) =
        rw (pass_dce, no_values) at e in
      cc
  | inr values ↦
      let n = length fn.values in
      let first = bind_inv (init fn) _ (rw (pass_dce, values) at e) in
      let ud = first.0 in
      let fuel = length fn.instructions + n in
      let second = bind_inv (loop ud n fuel (started fn ud)) _ first.2 in
      let counts = active_counts ud 0 n in
      elim (Option-cases second.0) [
        | inl out ↦
            loop-ends ud n fuel (started fn ud)
              (omega (arith, seed-le n counts fn.instructions [], nonzero-active_counts ud 0 n))
              (second.1 ∙ ap done out)
        | inr got ↦ let last = rw got.1 at second.2 in cc
      ]
]
