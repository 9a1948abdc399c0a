-- ===== src/Opt/CopyProp/Pass.antt =====
-- src/opt/copy_prop.c: the pass over a function, which removes copies and names their sources.
pub mod Sources
pub mod Removes
use nybit.Base.{
  ℕ, zero, suc, ◌+◌, Bool, true, false, Option, none, some, List, [], ◌∷◌, length, get_elem?, set,
  ltb, ◌==◌, if◌then◌else◌,
}
use nybit.Base.Outcome.{Outcome, done, faulted, ◌>>=◌}
use nybit.Ir.Function.{
  Operand, Instruction, Function, invalid, is_none, write, replace_operand, replace_all_uses,
}
use nybit.Ir.Function.Remove.{remove_instruction}
use nybit.Opt.CopyProp.{get_operands, get_copy_source, resolve_copy}

-- `copy_map`, filled with the invalid value
abbrev pub no_copies : ℕ → List ℕ
no_copies zero = []
no_copies (suc n) = invalid ∷ no_copies n

-- The loop that notes the copies.
abbrev pub note_source : List ℕ → Instruction → Option ℕ → Outcome (List ℕ)
note_source copy_map inst none = done copy_map
note_source copy_map inst (some src) = write copy_map inst.result (λ old. src)

unfoldable pub find_copies : Function → List Instruction → List ℕ → Outcome (List ℕ)
unfolding get_copy_source
find_copies fn [] copy_map = done copy_map
find_copies fn (inst ∷ insts) copy_map =
    (if is_none inst.opcode
      then done copy_map
      else (get_copy_source fn inst >>= note_source copy_map inst))
    >>= find_copies fn insts

-- The loop that resolves the chains, from the value `i` on.
unfoldable pub resolve_all : ℕ → ℕ → List ℕ → List ℕ
unfolding resolve_copy
resolve_all i zero copy_map = copy_map
resolve_all i (suc n) copy_map = resolve_all (suc i) n (elim (get_elem? copy_map i) [
  | none ↦ copy_map
  | some src ↦ if src == invalid then copy_map else set copy_map i (resolve_copy copy_map src)
])

-- The source of a value that is a copy.
abbrev pub source_in : List ℕ → ℕ → Option ℕ
source_in copy_map v = elim (get_elem? copy_map v) [
  | none ↦ none
  | some src ↦ if src == invalid then none else some src
]

-- The function and whether it was changed.
pub record Renaming : Type 0 where
  pub fn : Function
  pub changed : Bool

abbrev pub rename_operand : List ℕ → Instruction → ℕ → Renaming → Operand → Renaming
rename_operand copy_map inst op_i st (Operand.value v) = elim (source_in copy_map v) [
  | none ↦ st
  | some src ↦ record {
    fn = replace_operand st.fn inst.id op_i (Operand.value src);
    changed = true;
  }
]
rename_operand copy_map inst op_i st op = st

-- The loop over the operands, from `op_i` on.
unfoldable pub rename_operands : List ℕ → Instruction → ℕ → ℕ → Renaming → Outcome Renaming
rename_operands copy_map inst op_i zero st = done st
rename_operands copy_map inst op_i (suc n) st =
    elim (get_elem? st.fn.operands (inst.op_start + op_i)) [
      | none ↦ faulted
      | some op ↦
          rename_operands copy_map inst (suc op_i) n (rename_operand copy_map inst op_i st op)
    ]

-- The removal of a copy.
abbrev pub drop_copy : Instruction → ℕ → Renaming → Outcome Renaming
drop_copy inst target st =
    remove_instruction (replace_all_uses st.fn inst.result target) inst.id
    >>= (λ fn. done (record { fn = fn; changed = true }))

-- The body of the last loop.
unfoldable pub visit_copy : List ℕ → Renaming → Instruction → Outcome Renaming
unfolding rename_operands remove_instruction replace_all_uses get_operands
visit_copy copy_map st inst =
    if is_none inst.opcode then done st else (elim (source_in copy_map inst.result) [
      | some target ↦ drop_copy inst target st
      | none ↦ elim (get_operands st.fn inst) [
        | none ↦ if inst.op_count == 0 then done st else faulted
        | some ops ↦ rename_operands copy_map inst 0 inst.op_count st
      ]
    ])

-- The last loop, from the instruction `i` on.
unfoldable pub propagate : List ℕ → ℕ → ℕ → Renaming → Outcome Renaming
unfolding visit_copy
propagate copy_map i zero st = done st
propagate copy_map i (suc n) st = elim (get_elem? st.fn.instructions i) [
  | none ↦ faulted
  | some inst ↦ visit_copy copy_map st inst >>= propagate copy_map (suc i) n
]

-- `ny_opt_pass_copy_prop`
unfoldable pub pass_copy_prop : Function → Outcome Renaming
unfolding find_copies resolve_all propagate
pass_copy_prop fn =
    let n = length fn.values in
    let st : Renaming = record { fn = fn; changed = false } in
    if n == 0
    then done st
    else (find_copies fn fn.instructions (no_copies n)
        >>= (λ copy_map. propagate (resolve_all 0 n copy_map) 0 (length fn.instructions) st))
