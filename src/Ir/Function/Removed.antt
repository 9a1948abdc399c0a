-- ===== src/Ir/Function/Removed.antt =====
-- What the removal of an instruction leaves of it, and that the pool of operands stays.
use nybit.Base.{
  ℕ, ◌≡◌, ◌∙◌, refl, ap, false, Option-cases, inl, inr, some, List, get_elem?, ◌==◌,
  get_elem?-set_self, lt-length_of_get_elem?,
}
use nybit.Base.Outcome.{done, ◌>>=◌}
use nybit.Ir.Opcode.{Opcode}
use nybit.Ir.Function.{
  Operand, Instruction, Function, invalid, is_none, adjust, write, adjust_found, write_found,
}
use nybit.Ir.Function.Remove.{
  unlink_prev, unlink_next, retire, remove_instruction, cleared, count_down,
}
use nybit.Ir.Function.Others.{
  Core, core, core_of, core_at, Returns, Returns-bind, if-Returns, Keeps, unlink_prev-Keeps,
  unlink_next-Keeps,
}

abbrev pub cleared_core : Core → Core
cleared_core c = record c { opcode = Opcode.none; op_count = 0 }

retire-cleared :
    (fn : Function) (inst : Instruction) (i : ℕ) {c : Core}
    → core_at fn i ≡ some c
    → core_at (retire fn inst i) i ≡ some (cleared_core c)
unfolding retire
retire-cleared fn inst i {c = c} h = elim (Option-cases (get_elem? fn.instructions i)) [
  | inl missing ↦ let gone = rw missing at h in cc
  | inr found ↦
      let at : some (core found.0) ≡ some c = rw found.1 at h in
      let same : core found.0 ≡ c = cc in
      let below = lt-length_of_get_elem? fn.instructions i found.1 in
      rw
        (
          adjust_found fn.instructions i cleared found.1,
          get_elem?-set_self fn.instructions i (cleared found.0) below,
        )
        (ap (λ k. some (cleared_core k)) same)
]

module _ (fn : Function) (i : ℕ) (inst : Instruction) where
  abbrev IsCleared : Function → Type 0
  IsCleared other = core_at other i ≡ some (core (cleared inst))

  remove_instruction-Returns :
      get_elem? fn.instructions i ≡ some inst
      → is_none inst.opcode ≡ false
      → Returns IsCleared (remove_instruction fn i)
  unfolding remove_instruction
  remove_instruction-Returns found live = elim (Option-cases (get_elem? fn.blocks inst.block)) [
    | inl nowhere ↦
        rw (remove_instruction, found, live, nowhere) (retire-cleared fn inst i (ap core_of found))
    | inr block ↦
        rw (remove_instruction, found, live, block.1)
          (Returns-bind (Keeps fn i) IsCleared (unlink_prev fn inst) _ (unlink_prev-Keeps fn i inst)
            (λ fn1 h1.
              Returns-bind (Keeps fn1 i) IsCleared (unlink_next fn1 i) _ (unlink_next-Keeps fn1 i i)
                (λ fn2 h2.
                  retire-cleared (record fn2 { blocks = adjust fn2.blocks inst.block count_down })
                    inst i (h2 ∙ h1 ∙ ap core_of found))))
  ]

  pub remove_instruction-cleared :
      {fn1 : Function}
      → get_elem? fn.instructions i ≡ some inst
      → is_none inst.opcode ≡ false
      → remove_instruction fn i ≡ done fn1
      → core_at fn1 i ≡ some (core (cleared inst))
  remove_instruction-cleared found live e =
      let at = remove_instruction-Returns found live in rw e at at

-- The other function has the same pool of operands.
abbrev SamePool : List Operand → Function → Type 0
SamePool pool other = other.operands ≡ pool

write-SamePool :
    (fn : Function) (k : ℕ) (f : Instruction → Instruction)
    → Returns
        (SamePool fn.operands)
        (write fn.instructions k f >>= (λ insts. done (record fn { instructions = insts })))
write-SamePool fn k f = elim (Option-cases (get_elem? fn.instructions k)) [
  | inl missing ↦ rw (write, missing) tt
  | inr found ↦ rw (write_found fn.instructions k f found.1) refl
]

unlink_prev-SamePool :
    (fn : Function) (inst : Instruction) → Returns (SamePool fn.operands) (unlink_prev fn inst)
unfolding unlink_prev
unlink_prev-SamePool fn inst =
    if-Returns (SamePool fn.operands) (inst.prev == invalid) _ _ refl
      (write-SamePool fn inst.prev (λ p. record p { next = inst.next }))

unlink_next-SamePool : (fn : Function) (i : ℕ) → Returns (SamePool fn.operands) (unlink_next fn i)
unfolding unlink_next
unlink_next-SamePool fn i = elim (Option-cases (get_elem? fn.instructions i)) [
  | inl missing ↦ rw (unlink_next, missing) tt
  | inr found ↦
      rw (unlink_next, found.1)
        (if-Returns (SamePool fn.operands) (found.0.next == invalid) _ _ refl
          (write-SamePool fn found.0.next (λ n. record n { prev = found.0.prev })))
]

remove_instruction-SamePool :
    (fn : Function) (i : ℕ) → Returns (SamePool fn.operands) (remove_instruction fn i)
unfolding remove_instruction retire
remove_instruction-SamePool fn i = elim (Option-cases (get_elem? fn.instructions i)) [
  | inl missing ↦ rw (remove_instruction, missing) refl
  | inr found ↦
      let inst = found.0 in
      let pool = SamePool fn.operands in
      elim (Option-cases (get_elem? fn.blocks inst.block)) [
        | inl nowhere ↦
            rw (remove_instruction, found.1, nowhere)
              (if-Returns pool (is_none inst.opcode) _ _ refl refl)
        | inr block ↦
            rw (remove_instruction, found.1, block.1)
              (if-Returns pool (is_none inst.opcode) _ _ refl (
                Returns-bind pool pool (unlink_prev fn inst) _ (unlink_prev-SamePool fn inst)
                  (λ fn1 h1.
                    Returns-bind (SamePool fn1.operands) pool (unlink_next fn1 i) _
                      (unlink_next-SamePool fn1 i) (λ fn2 h2. h2 ∙ h1))))
      ]
]

pub remove_instruction-operands :
    (fn : Function) (i : ℕ) {fn1 : Function}
    → remove_instruction fn i ≡ done fn1
    → fn1.operands ≡ fn.operands
remove_instruction-operands fn i e = let at = remove_instruction-SamePool fn i in rw e at at
