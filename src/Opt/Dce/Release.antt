-- ===== src/Opt/Dce/Release.antt =====
-- Taking the operands of a dropped instruction from the counts keeps the counts exact, and puts
-- only definitions of unused values on the worklist.
use nybit.Base.{
  ℕ, ◌+◌, ◌-◌, ◌<◌, ◌≡◌, ◌≢◌, ◌⊎◌, ◌∙◌, inl, inr, refl, ap, arith, true, false, Bool-cases,
  Option-cases, some, List, [], ◌∷◌, get_elem?, set, ltb, ◌==◌, All, get_elem?-set_self,
  get_elem?-set_ne, lt-length_of_get_elem?,
}
use nybit.Ir.Function.{Operand, Instruction, Function, invalid}
use nybit.Analysis.UseDef.{UseDef, get_def}
use nybit.Analysis.UseDef.Counts.{occurs, Tabulates, Defines}
use nybit.Opt.Dce.{Work, has_side_effects, push_def, release_value, release}

Tabulates-set :
    (n : ℕ) (f g : ℕ → ℕ) (xs : List ℕ) (v : ℕ)
    → Tabulates n f xs
    → v < n
    → ((u : ℕ) → v ≢ u → f u ≡ g u)
    → Tabulates n g (set xs v (g v))
Tabulates-set n f g xs v h small same u below = elim (Bool-cases (v == u)) [
  | inl here ↦
      let e : v ≡ u = ground (arith, here) in
      rw e (get_elem?-set_self xs u (g u) (lt-length_of_get_elem? xs u (h u below)))
  | inr there ↦
      let ne : v ≢ u = ground (arith, there) in
      get_elem?-set_ne xs (g v) ne ∙ h u below ∙ ap some (same u ne)
]

module _ (insts : List Instruction) where
  -- The id names an instruction whose result has no uses left.
  abbrev pub Ready : (ℕ → ℕ) → ℕ → Type 0
  Ready base d = (inst : Instruction) × (get_elem? insts d ≡ some inst) × (base inst.result ≡ 0)

  push_def-Ready :
      (base : ℕ → ℕ) (fn : Function) (d : ℕ) (dead : List ℕ)
      → (d ≡ invalid) ⊎ Ready base d
      → All (Ready base) dead
      → All (Ready base) (push_def fn d dead)
  unfolding push_def
  push_def-Ready base fn d dead named h = elim (Bool-cases (d == invalid)) [
    | inl no_def ↦ rw (push_def, no_def) h
    | inr some_def ↦ elim (Option-cases (get_elem? fn.instructions d)) [
      | inl missing ↦ rw (push_def, some_def, missing) h
      | inr found ↦ elim (Bool-cases (has_side_effects found.0.opcode found.0.flags)) [
        | inl kept ↦ rw (push_def, some_def, found.1, kept) h
        | inr pushed ↦ elim named [
          | inl e ↦ absurd (let differ = some_def in ground (arith, e))
          | inr ready ↦ rw (push_def, some_def, found.1, pushed) (ready, h)
        ]
      ]
    ]
  ]

  get_def-Ready :
      (base : ℕ → ℕ) (ud : UseDef) (v : ℕ)
      → Defines insts ud.def_inst
      → base v ≡ 0
      → (get_def ud v ≡ invalid) ⊎ Ready base (get_def ud v)
  get_def-Ready base ud v defs unused = elim (Option-cases (get_elem? ud.def_inst v)) [
    | inl missing ↦ inl (rw (get_def, missing) refl)
    | inr found ↦
        rw (get_def, found.1)
          (elim (defs v found.0 found.1) [
            | inl e ↦ inl e
            | inr by ↦ inr (by.0, by.1, ap base by.2 ∙ unused)
          ])
  ]

  -- The counts are those of the base and of the operands still to come.
  pub record Exact (n : ℕ) (base : ℕ → ℕ) (ops : List Operand) (w : Work) : Type 0 where
    pub counts : Tabulates n (λ v. base v + occurs v ops) w.active
    pub ready : All (Ready base) w.dead

  pub release_value-Exact :
      (n : ℕ) (base : ℕ → ℕ) (ud : UseDef) (fn : Function) (v : ℕ) (ops : List Operand) (w : Work)
      → Defines insts ud.def_inst
      → v < n
      → Exact n base (Operand.value v ∷ ops) w
      → Exact n base ops (release_value ud fn v w)
  release_value-Exact n base ud fn v ops w defs small h =
      let c = base v + occurs v (Operand.value v ∷ ops) in
      let at : get_elem? w.active v ≡ some c = h.counts v small in
      let one : (v == v) ≡ true = ground arith in
      let used : (c == 0) ≡ false = ground arith in
      let fewer : c - 1 ≡ base v + occurs v ops = ground arith in
      let table =
        Tabulates-set n (λ u. base u + occurs u (Operand.value v ∷ ops))
          (λ u. base u + occurs u ops) w.active v h.counts small (λ u ne. ground arith) in
      elim (Bool-cases (base v + occurs v ops == 0)) [
        | inl last ↦
            let unused : base v ≡ 0 = ground (arith, last) in
            rw (release_value, at, used, fewer, last)
              (record {
                counts = table;
                ready =
                    push_def-Ready base fn (get_def ud v) w.dead
                      (get_def-Ready base ud v defs unused) h.ready;
              })
        | inr more ↦
            rw (release_value, at, used, fewer, more) (record { counts = table; ready = h.ready })
      ]

  -- A number that is no value's says nothing of the counts.
  pub Exact-beyond :
      (n : ℕ) (base : ℕ → ℕ) (v : ℕ) (ops : List Operand) (w : Work)
      → ltb v n ≡ false
      → Exact n base (Operand.value v ∷ ops) w
      → Exact n base ops w
  Exact-beyond n base v ops w beyond h = record {
    counts = λ u small.
        let differ : v ≢ u = ground (arith, beyond) in
        let other : (v == u) ≡ false = ground arith in
        (let at = h.counts u small in rw other at at) ∙ ap some (omega arith);
    ready = h.ready;
  }

  pub release-Exact :
      (n : ℕ) (base : ℕ → ℕ) (ud : UseDef) (fn : Function) (ops : List Operand) (w : Work)
      → Defines insts ud.def_inst
      → Exact n base ops w
      → Exact n base [] (release ud fn n ops w)
  release-Exact n base ud fn [] w defs h = h
  release-Exact n base ud fn (Operand.value v ∷ ops) w defs h = elim (Bool-cases (ltb v n)) [
    | inl below ↦
        let small : v < n = ground (arith, below) in
        rw below (
          release-Exact n base ud fn ops (release_value ud fn v w) defs
            (release_value-Exact n base ud fn v ops w defs small h))
    | inr beyond ↦
        rw beyond (release-Exact n base ud fn ops w defs (Exact-beyond n base v ops w beyond h))
  ]
  release-Exact n base ud fn (Operand.empty ∷ ops) w defs h =
      release-Exact n base ud fn ops w defs (record { counts = h.counts; ready = h.ready })
  release-Exact n base ud fn (Operand.block u ∷ ops) w defs h =
      release-Exact n base ud fn ops w defs (record { counts = h.counts; ready = h.ready })
  release-Exact n base ud fn (Operand.imm_int u ∷ ops) w defs h =
      release-Exact n base ud fn ops w defs (record { counts = h.counts; ready = h.ready })
  release-Exact n base ud fn (Operand.imm_float u ∷ ops) w defs h =
      release-Exact n base ud fn ops w defs (record { counts = h.counts; ready = h.ready })
  release-Exact n base ud fn (Operand.function u ∷ ops) w defs h =
      release-Exact n base ud fn ops w defs (record { counts = h.counts; ready = h.ready })
  release-Exact n base ud fn (Operand.symbol u ∷ ops) w defs h =
      release-Exact n base ud fn ops w defs (record { counts = h.counts; ready = h.ready })
  release-Exact n base ud fn (Operand.global u ∷ ops) w defs h =
      release-Exact n base ud fn ops w defs (record { counts = h.counts; ready = h.ready })
  release-Exact n base ud fn (Operand.type_of u ∷ ops) w defs h =
      release-Exact n base ud fn ops w defs (record { counts = h.counts; ready = h.ready })
