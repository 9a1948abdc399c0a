-- ===== src/Ir/Function/Others.antt =====
-- Removing an instruction changes nothing but the links of the others.
use nybit.Base.{
  ℕ, ◌≡◌, ◌≢◌, ◌∙◌, refl, sym, ap, arith, Bool, true, false, Bool-cases, Option-cases, inl, inr,
  Option, none, some, List, get_elem?, set, ◌==◌, if◌then◌else◌, get_elem?-set_self,
  get_elem?-set_ne, lt-length_of_get_elem?,
}
use nybit.Base.Outcome.{Outcome, done, aborted, faulted, ◌>>=◌}
use nybit.Ir.Opcode.{Opcode}
use nybit.Ir.Function.{
  Instruction, Function, invalid, is_none, adjust, write, adjust_found, write_found,
}
use nybit.Ir.Function.Remove.{
  unlink_prev, unlink_next, retire, remove_instruction, cleared, count_down,
}

-- An instruction but for its links.
pub record Core : Type 0 where
  pub id : ℕ
  pub opcode : Opcode
  pub flags : ℕ
  pub result : ℕ
  pub op_start : ℕ
  pub op_count : ℕ
  pub block : ℕ

abbrev pub core : Instruction → Core
core i = record {
  id = i.id;
  opcode = i.opcode;
  flags = i.flags;
  result = i.result;
  op_start = i.op_start;
  op_count = i.op_count;
  block = i.block;
}

abbrev pub core_of : Option Instruction → Option Core
core_of none = none
core_of (some i) = some (core i)

-- The instruction at an index, if there is one, but for its links.
abbrev pub core_at : Function → ℕ → Option Core
core_at fn j = core_of (get_elem? fn.instructions j)

-- Where the call returns, the property holds of what it returns.
abbrev pub Returns : (Function → Type 0) → Outcome Function → Type 0
Returns P (done fn) = P fn
Returns P aborted = Unit {0}
Returns P faulted = Unit {0}

pub Returns-bind :
    (P Q : Function → Type 0) (o : Outcome Function) (f : Function → Outcome Function)
    → Returns P o
    → ((fn : Function) → P fn → Returns Q (f fn))
    → Returns Q (o >>= f)
Returns-bind P Q (done fn) f h next = next fn h
Returns-bind P Q aborted f h next = tt
Returns-bind P Q faulted f h next = tt

pub if-Returns :
    (P : Function → Type 0) (b : Bool) (x y : Outcome Function)
    → Returns P x
    → Returns P y
    → Returns P (if b then x else y)
if-Returns P true x y hx hy = hx
if-Returns P false x y hx hy = hy

core_of-set :
    (insts : List Instruction) (k j : ℕ) (v : Instruction) {l : Instruction}
    → get_elem? insts k ≡ some l
    → core v ≡ core l
    → core_of (get_elem? (set insts k v) j) ≡ core_of (get_elem? insts j)
core_of-set insts k j v {l = l} found same = elim (Bool-cases (k == j)) [
  | inl here ↦
      let e : k ≡ j = ground arith in
      let at : get_elem? insts j ≡ some l = rw (sym e) found in
      let after : get_elem? (set insts j v) j ≡ some v =
        get_elem?-set_self insts j v (lt-length_of_get_elem? insts j at) in
      rw (e, after, at) (ap some same)
  | inr there ↦ let ne : k ≢ j = ground arith in rw (get_elem?-set_ne insts v ne) refl
]

module _ (fn : Function) (j : ℕ) where
  -- The other function has the same instruction at `j`, but for its links.
  abbrev pub Keeps : Function → Type 0
  Keeps other = core_at other j ≡ core_at fn j

  write-Keeps :
      (k : ℕ) (f : Instruction → Instruction)
      → ((i : Instruction) → core (f i) ≡ core i)
      → Returns Keeps
          (write fn.instructions k f >>= (λ insts. done (record fn { instructions = insts })))
  write-Keeps k f same = elim (Option-cases (get_elem? fn.instructions k)) [
    | inl missing ↦ rw (write, missing) tt
    | inr found ↦
        rw (write_found fn.instructions k f found.1)
          (core_of-set fn.instructions k j (f found.0) found.1 (same found.0))
  ]

  pub unlink_prev-Keeps : (inst : Instruction) → Returns Keeps (unlink_prev fn inst)
  unfolding unlink_prev
  unlink_prev-Keeps inst =
      if-Returns Keeps (inst.prev == invalid) _ _ refl
        (write-Keeps inst.prev (λ p. record p { next = inst.next }) (λ i. refl))

  pub unlink_next-Keeps : (i : ℕ) → Returns Keeps (unlink_next fn i)
  unfolding unlink_next
  unlink_next-Keeps i = elim (Option-cases (get_elem? fn.instructions i)) [
    | inl missing ↦ rw (unlink_next, missing) tt
    | inr found ↦
        rw (unlink_next, found.1)
          (if-Returns Keeps (found.0.next == invalid) _ _ refl
            (write-Keeps found.0.next (λ n. record n { prev = found.0.prev }) (λ k. refl)))
  ]

  retire-Keeps : (inst : Instruction) (i : ℕ) → i ≢ j → Keeps (retire fn inst i)
  unfolding retire
  retire-Keeps inst i ne = elim (Option-cases (get_elem? fn.instructions i)) [
    | inl missing ↦ rw (adjust, missing) refl
    | inr found ↦
        rw
          (
            adjust_found fn.instructions i cleared found.1,
            get_elem?-set_ne fn.instructions (cleared found.0) ne,
          )
          refl
  ]

remove_instruction-Keeps :
    (fn : Function) (i j : ℕ) → i ≢ j → Returns (Keeps fn j) (remove_instruction fn i)
unfolding remove_instruction
remove_instruction-Keeps fn i j ne = elim (Option-cases (get_elem? fn.instructions i)) [
  | inl missing ↦ rw (remove_instruction, missing) refl
  | inr found ↦
      let inst = found.0 in
      elim (Option-cases (get_elem? fn.blocks inst.block)) [
        | inl nowhere ↦
            rw (remove_instruction, found.1, nowhere)
              (if-Returns (Keeps fn j) (is_none inst.opcode) _ _ refl (retire-Keeps fn j inst i ne))
        | inr block ↦
            rw (remove_instruction, found.1, block.1)
              (if-Returns (Keeps fn j) (is_none inst.opcode) _ _ refl (
                Returns-bind (Keeps fn j) (Keeps fn j) (unlink_prev fn inst) _
                  (unlink_prev-Keeps fn j inst)
                  (λ fn1 h1.
                    Returns-bind (Keeps fn1 j) (Keeps fn j) (unlink_next fn1 i) _
                      (unlink_next-Keeps fn1 j i)
                      (λ fn2 h2.
                        retire-Keeps
                          (record fn2 { blocks = adjust fn2.blocks inst.block count_down }) j inst i
                          ne
                        ∙ h2
                        ∙ h1))))
      ]
]

pub remove_instruction-core_at :
    (fn : Function) (i j : ℕ) {fn1 : Function}
    → i ≢ j
    → remove_instruction fn i ≡ done fn1
    → core_at fn1 j ≡ core_at fn j
remove_instruction-core_at fn i j ne e =
    let kept = remove_instruction-Keeps fn i j ne in rw e at kept
