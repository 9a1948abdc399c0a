-- ===== src/Opt/CopyProp.antt =====
-- src/opt/copy_prop.c: which instructions are copies, and following copies; the pass is in Pass.
pub mod Phi
pub mod Resolve
pub mod Pass
use nybit.Base.{
  ℕ, zero, suc, ◌+◌, Bool, true, false, ◌&&◌, ◌||◌, Option, none, some, List, [], ◌∷◌, length,
  get_elem?, leb, ltb, ◌==◌, if◌then◌else◌,
}
use nybit.Base.Outcome.{Outcome, done, faulted}
use nybit.Ir.Opcode.{Opcode}
use nybit.Ir.Function.{Operand, Instruction, Value, Function, invalid}
use nybit.Opt.Common.{get_type_bit_width}

abbrev pub drop : ℕ → List Operand → List Operand
drop zero ops = ops
drop (suc n) [] = []
drop (suc n) (op ∷ ops) = drop n ops

abbrev pub take : ℕ → List Operand → List Operand
take zero ops = []
take (suc n) [] = []
take (suc n) (op ∷ ops) = op ∷ take n ops

-- `ny_function_get_operands`: null, or the instruction's operands.
unfoldable pub get_operands : Function → Instruction → Option (List Operand)
get_operands fn inst =
    if ltb (length fn.operands) (inst.op_start + inst.op_count)
    then none
    else some (take inst.op_count (drop inst.op_start fn.operands))

-- One turn of the loop over the sources of a phi: `first_val` afterwards, or `none` for
-- `return false`.
abbrev pub next_first : ℕ → ℕ → Operand → Option ℕ
next_first result first_val (Operand.value v) =
    if v == result
    then some first_val
    else if first_val == invalid
    then some v
    else if first_val == v
    then some first_val
    else none
next_first result first_val _ = none

abbrev pub found_first : ℕ → Option ℕ
found_first first_val = if first_val == invalid then none else some first_val

-- The loop over every second operand of a phi.
unfoldable pub phi_source : ℕ → ℕ → List Operand → Option ℕ
phi_source result first_val [] = found_first first_val
phi_source result first_val (op ∷ []) = elim (next_first result first_val op) [
  | none ↦ none
  | some f ↦ found_first f
]
phi_source result first_val (op ∷ from ∷ ops) = elim (next_first result first_val op) [
  | none ↦ none
  | some f ↦ phi_source result f ops
]

-- The arm of a select with two equal values.
abbrev pub select_source : List Operand → Option ℕ
select_source (c ∷ Operand.value a ∷ Operand.value b ∷ []) = if a == b then some a else none
select_source _ = none

-- The arms of the conversions, with the test that the types have to pass.
abbrev pub cast_source : Function → (ℕ → Bool) → List Operand → Option ℕ
cast_source fn same_type (Operand.value v ∷ ops) = elim (get_elem? fn.values v) [
  | none ↦ none
  | some src ↦ if same_type src.type then some v else none
]
cast_source fn same_type _ = none

abbrev pub source_of : Function → ℕ → Opcode → ℕ → List Operand → Option ℕ
source_of fn type Opcode.phi result ops =
    if leb 2 (length ops) then phi_source result invalid ops else none
source_of fn type Opcode.select result ops = select_source ops
source_of fn type Opcode.bitcast result ops = cast_source fn (λ t. t == type) ops
source_of fn type Opcode.cast result ops = cast_source fn (λ t. t == type) ops
source_of fn type Opcode.truncate result ops =
    cast_source fn (λ t. get_type_bit_width t == get_type_bit_width type) ops
source_of fn type Opcode.sext result ops =
    cast_source fn (λ t. get_type_bit_width t == get_type_bit_width type) ops
source_of fn type Opcode.zext result ops =
    cast_source fn (λ t. get_type_bit_width t == get_type_bit_width type) ops
source_of fn type _ result ops = none

-- Whether an operand is read, by the opcode and the number of operands.
abbrev pub reads_operands : Opcode → ℕ → Bool
reads_operands Opcode.phi n = leb 2 n
reads_operands Opcode.select n = n == 3
reads_operands Opcode.bitcast n = leb 1 n
reads_operands Opcode.cast n = leb 1 n
reads_operands Opcode.truncate n = leb 1 n
reads_operands Opcode.sext n = leb 1 n
reads_operands Opcode.zext n = leb 1 n
reads_operands _ n = false

-- `get_copy_source`: `none` is `false`. Operands are read through a null pointer where they lie
-- outside the array.
unfoldable pub get_copy_source : Function → Instruction → Outcome (Option ℕ)
unfolding get_operands phi_source get_type_bit_width
get_copy_source fn inst =
    if inst.result == invalid then done none else (elim (get_elem? fn.values inst.result) [
      | none ↦ done none
      | some res ↦ elim (get_operands fn inst) [
        | none ↦ if reads_operands inst.opcode inst.op_count then faulted else done none
        | some ops ↦ done (source_of fn res.type inst.opcode inst.result ops)
      ]
    ])

-- The loop of `resolve_copy`; the fuel is what is left of `max_depth`.
unfoldable pub follow : ℕ → List ℕ → ℕ → ℕ
follow zero copy_map curr = curr
follow (suc fuel) copy_map curr = elim (get_elem? copy_map curr) [
  | none ↦ curr
  | some next ↦ elim (next == invalid || next == curr) [
    | true ↦ curr
    | false ↦ follow fuel copy_map next
  ]
]

unfoldable pub resolve_copy : List ℕ → ℕ → ℕ
unfolding follow
resolve_copy copy_map v = follow 64 copy_map v
