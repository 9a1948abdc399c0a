-- ===== src/Opt/Dce/Pushed.antt =====
-- Dead code elimination puts the definition of a value on the worklist when its last use goes.
use nybit.Base.{
  ℕ, zero, suc, ◌+◌, ◌-◌, ◌<◌, ◌≡◌, ◌∙◌, inl, inr, ap, subst, sym, arith, Bool, true, false, ◌||◌,
  Bool-cases, Option-cases, some, List, [], ◌∷◌, get_elem?, ltb, ◌==◌,
}
use nybit.Ir.Function.{Operand, Instruction, Function, invalid}
use nybit.Analysis.UseDef.{UseDef, get_def}
use nybit.Analysis.UseDef.Counts.{occurs, Defines}
use nybit.Opt.Dce.{Work, has_side_effects, push_def, release_value, release, is_seed, seed}
use nybit.Opt.Dce.Release.{Exact, Exact-beyond, release_value-Exact}

-- Whether an id is on the worklist.
abbrev pub waits : ℕ → List ℕ → Bool
waits d [] = false
waits d (x ∷ xs) = x == d || waits d xs

push_def-waits :
    (fn : Function) (i d : ℕ) (dead : List ℕ)
    → waits d dead ≡ true
    → waits d (push_def fn i dead) ≡ true
unfolding push_def
push_def-waits fn i d dead h = elim (Bool-cases (i == invalid)) [
  | inl no_def ↦ rw (push_def, no_def) h
  | inr some_def ↦ elim (Option-cases (get_elem? fn.instructions i)) [
    | inl missing ↦ rw (push_def, some_def, missing) h
    | inr found ↦ elim (Bool-cases (has_side_effects found.0.opcode found.0.flags)) [
      | inl kept ↦ rw (push_def, some_def, found.1, kept) h
      | inr pushed ↦ rw (push_def, some_def, found.1, pushed) (ground (arith, h))
    ]
  ]
]

release_value-waits :
    (ud : UseDef) (fn : Function) (v d : ℕ) (w : Work)
    → waits d w.dead ≡ true
    → waits d (release_value ud fn v w).dead ≡ true
release_value-waits ud fn v d w h = elim (Option-cases (get_elem? w.active v)) [
  | inl missing ↦ rw (release_value, missing) h
  | inr found ↦ elim (Bool-cases (found.0 == 0)) [
    | inl gone ↦ rw (release_value, found.1, gone) h
    | inr used ↦ elim (Bool-cases (found.0 - 1 == 0)) [
      | inl last ↦
          rw (release_value, found.1, used, last) (push_def-waits fn (get_def ud v) d w.dead h)
      | inr more ↦ rw (release_value, found.1, used, more) h
    ]
  ]
]

pub release-waits :
    (ud : UseDef) (fn : Function) (n d : ℕ) (ops : List Operand) (w : Work)
    → waits d w.dead ≡ true
    → waits d (release ud fn n ops w).dead ≡ true
release-waits ud fn n d [] w h = h
release-waits ud fn n d (Operand.value v ∷ ops) w h = elim (Bool-cases (ltb v n)) [
  | inl below ↦
      rw (release, below)
        (release-waits ud fn n d ops (release_value ud fn v w) (release_value-waits ud fn v d w h))
  | inr beyond ↦ rw (release, beyond) (release-waits ud fn n d ops w h)
]
release-waits ud fn n d (Operand.empty ∷ ops) w h = release-waits ud fn n d ops w h
release-waits ud fn n d (Operand.block u ∷ ops) w h = release-waits ud fn n d ops w h
release-waits ud fn n d (Operand.imm_int u ∷ ops) w h = release-waits ud fn n d ops w h
release-waits ud fn n d (Operand.imm_float u ∷ ops) w h = release-waits ud fn n d ops w h
release-waits ud fn n d (Operand.function u ∷ ops) w h = release-waits ud fn n d ops w h
release-waits ud fn n d (Operand.symbol u ∷ ops) w h = release-waits ud fn n d ops w h
release-waits ud fn n d (Operand.global u ∷ ops) w h = release-waits ud fn n d ops w h
release-waits ud fn n d (Operand.type_of u ∷ ops) w h = release-waits ud fn n d ops w h

-- An instruction that may be dropped, with its id.
pub record Droppable (fn : Function) (d : ℕ) : Type 0 where
  pub inst : Instruction
  pub found : get_elem? fn.instructions d ≡ some inst
  pub valid : (d == invalid) ≡ false
  pub plain : has_side_effects inst.opcode inst.flags ≡ false

push_def-pushes :
    (fn : Function) (d : ℕ) (dead : List ℕ) → Droppable fn d → waits d (push_def fn d dead) ≡ true
unfolding push_def
push_def-pushes fn d dead h = rw (push_def, h.valid, h.found, h.plain) (ground arith)

module _ (insts : List Instruction) (n : ℕ) (base : ℕ → ℕ) (ud : UseDef) (fn : Function)
    (defs : Defines insts ud.def_inst) (v d : ℕ) (small : v < n) (unused : base v ≡ 0)
    (defined : get_def ud v ≡ d) (droppable : Droppable fn d) where
  release_value-pushes :
      (ops : List Operand) (w : Work)
      → occurs v ops ≡ 0
      → Exact insts n base (Operand.value v ∷ ops) w
      → waits d (release_value ud fn v w).dead ≡ true
  release_value-pushes ops w last h =
      let one : base v + occurs v (Operand.value v ∷ ops) ≡ 1 = ground (arith, unused, last) in
      let at : get_elem? w.active v ≡ some 1 = h.counts v small ∙ ap some one in
      rw (release_value, at, defined) (push_def-pushes fn d w.dead droppable)

  -- Taking back all uses of a value that is not used otherwise.
  pub release-pushes :
      (ops : List Operand) (w : Work)
      → (occurs v ops == 0) ≡ false
      → Exact insts n base ops w
      → waits d (release ud fn n ops w).dead ≡ true
  release-pushes [] w used h = cc
  release-pushes (Operand.value u ∷ ops) w used h = elim (Bool-cases (ltb u n)) [
    | inr beyond ↦
        let other : (u == v) ≡ false = ground (arith, beyond, small) in
        rw (release, beyond)
          (release-pushes ops w (ground (arith, used, other))
            (Exact-beyond insts n base u ops w beyond h))
    | inl below ↦
        let exact = release_value-Exact insts n base ud fn u ops w defs (ground (arith, below)) h in
        elim (Bool-cases (occurs v ops == 0)) [
          | inr more ↦ rw (release, below) (release-pushes ops (release_value ud fn u w) more exact)
          | inl last ↦
              let same : u ≡ v = ground (arith, used, last) in
              let none_left : occurs v ops ≡ 0 = ground (arith, last) in
              let here : Exact insts n base (Operand.value v ∷ ops) w =
                subst (λ (x : ℕ). Exact insts n base (Operand.value x ∷ ops) w) same h in
              let pushed = release_value-pushes ops w none_left here in
              rw (release, below)
                (release-waits ud fn n d ops (release_value ud fn u w) (
                  subst (λ (x : ℕ). waits d (release_value ud fn x w).dead ≡ true) (sym same)
                    pushed))
        ]
  ]
  release-pushes (Operand.empty ∷ ops) w used h =
      release-pushes ops w used (record { counts = h.counts; ready = h.ready })
  release-pushes (Operand.block u ∷ ops) w used h =
      release-pushes ops w used (record { counts = h.counts; ready = h.ready })
  release-pushes (Operand.imm_int u ∷ ops) w used h =
      release-pushes ops w used (record { counts = h.counts; ready = h.ready })
  release-pushes (Operand.imm_float u ∷ ops) w used h =
      release-pushes ops w used (record { counts = h.counts; ready = h.ready })
  release-pushes (Operand.function u ∷ ops) w used h =
      release-pushes ops w used (record { counts = h.counts; ready = h.ready })
  release-pushes (Operand.symbol u ∷ ops) w used h =
      release-pushes ops w used (record { counts = h.counts; ready = h.ready })
  release-pushes (Operand.global u ∷ ops) w used h =
      release-pushes ops w used (record { counts = h.counts; ready = h.ready })
  release-pushes (Operand.type_of u ∷ ops) w used h =
      release-pushes ops w used (record { counts = h.counts; ready = h.ready })

seed-waits :
    (n : ℕ) (active : List ℕ) (d : ℕ) (insts : List Instruction) (dead : List ℕ)
    → waits d dead ≡ true
    → waits d (seed n active insts dead) ≡ true
unfolding seed
seed-waits n active d [] dead h = h
seed-waits n active d (inst ∷ insts) dead h = elim (Bool-cases (is_seed n active inst)) [
  | inl taken ↦ rw taken (seed-waits n active d insts (inst.id ∷ dead) (ground (arith, h)))
  | inr not_taken ↦ rw not_taken (seed-waits n active d insts dead h)
]

-- Each instruction that passes the test is put on the worklist.
pub seed-pushes :
    (n : ℕ) (active : List ℕ) (insts : List Instruction) (dead : List ℕ) (k : ℕ)
    {inst : Instruction}
    → get_elem? insts k ≡ some inst
    → is_seed n active inst ≡ true
    → waits inst.id (seed n active insts dead) ≡ true
unfolding seed
seed-pushes n active [] dead k at h = cc
seed-pushes n active (x ∷ insts) dead zero {inst = inst} at h =
    let same : x ≡ inst = cc in
    let taken : is_seed n active x ≡ true = ap (λ (y : Instruction). is_seed n active y) same ∙ h in
    let ids : x.id ≡ inst.id = ap (λ (y : Instruction). y.id) same in
    rw taken (seed-waits n active inst.id insts (x.id ∷ dead) (ground (arith, ids)))
seed-pushes n active (x ∷ insts) dead (suc k) at h = seed-pushes n active insts _ k at h
