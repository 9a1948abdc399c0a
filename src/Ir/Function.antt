-- ===== src/Ir/Function.antt =====
-- src/ir/function.c: a function's arrays of instructions, values, blocks and operands. An array is
-- a list of less than 2^32 entries; an id is an index, checked where the source checks it (`adjust`), and behind `write` the
-- access is the unchecked one. The source locations of debug information are left out.
pub mod Remove
pub mod Chain
pub mod Append
pub mod Unlink
pub mod Uses
pub mod Others
pub mod Removed
use nybit.Base.{
  ℕ, zero, suc, ◌+◌, ◌-◌, ◌%◌, ◌^◌, Bool, true, false, Option, none, some, List, [], ◌∷◌, ◌++◌,
  length, get_elem?, set, ◌≡◌, refl, ltb, ◌==◌, not, ◌&&◌, if◌then◌else◌,
}
use nybit.Base.Outcome.{Outcome, done, aborted, faulted, ◌>>=◌}
use nybit.Ir.Opcode.{Opcode}

-- `NY_INVALID_INST` and the like
abbrev pub invalid : ℕ
invalid = 2 ^ 32 - 1

-- `Ny_Operand`, a tagged union; the integers are 64-bit patterns and so are the floats.
pub data Operand : Type 0 where
  empty : Operand
  value block imm_int imm_float function symbol global type_of : ℕ → Operand

pub data ValueKind : Type 0 where
  instruction argument constant : ValueKind

pub record Value : Type 0 where
  pub id : ℕ
  pub type : ℕ
  pub kind : ValueKind
  pub def : ℕ
  pub index : ℕ
  pub name : List ℕ

pub record Instruction : Type 0 where
  pub id : ℕ
  pub opcode : Opcode
  pub flags : ℕ
  pub result : ℕ
  pub op_start : ℕ
  pub op_count : ℕ
  pub block : ℕ
  pub prev : ℕ
  pub next : ℕ

pub record Block : Type 0 where
  pub id : ℕ
  pub name : List ℕ
  pub first_inst : ℕ
  pub last_inst : ℕ
  pub inst_count : ℕ
  pub preds : List ℕ
  pub succs : List ℕ

pub record Function : Type 0 where
  pub id : ℕ
  pub name : List ℕ
  pub return_type : ℕ
  pub param_types : List ℕ
  pub param_names : List (List ℕ)
  pub call_conv : ℕ
  pub entry_block : ℕ
  pub blocks : List Block
  pub instructions : List Instruction
  pub values : List Value
  pub operands : List Operand

abbrev pub is_none : Opcode → Bool
is_none Opcode.none = true
is_none _ = false

module _ {ℓ} {A : Type ℓ} where
  -- A change behind a pointer that may be null.
  abbrev pub adjust : List A → ℕ → (A → A) → List A
  adjust xs i f = elim (get_elem? xs i) [ some x ↦ set xs i (f x) | none ↦ xs ]

  -- A change at an index that nothing checks.
  abbrev pub write : List A → ℕ → (A → A) → Outcome (List A)
  write xs i f = elim (get_elem? xs i) [ some x ↦ done (set xs i (f x)) | none ↦ faulted ]

  pub adjust_found :
      (xs : List A) (i : ℕ) (f : A → A) {x : A}
      → get_elem? xs i ≡ some x
      → adjust xs i f ≡ set xs i (f x)
  adjust_found xs i f e = rw (adjust, e) refl

  pub write_found :
      (xs : List A) (i : ℕ) (f : A → A) {x : A}
      → get_elem? xs i ≡ some x
      → write xs i f ≡ done (set xs i (f x))
  write_found xs i f e = rw (write, e) refl

-- `ny_function_init`
unfoldable pub function_init : ℕ → List ℕ → ℕ → ℕ → Function
function_init id name ret_type call_conv = record {
  id = id;
  name = name;
  return_type = ret_type;
  param_types = [];
  param_names = [];
  call_conv = call_conv;
  entry_block = invalid;
  blocks = [];
  instructions = [];
  values = [];
  operands = [];
}

-- `ny_function_add_param`
unfoldable pub add_param : Function → ℕ → List ℕ → Function
add_param fn type name = record fn {
  param_types = fn.param_types ++ type ∷ [];
  param_names = fn.param_names ++ name ∷ [];
}

-- `ny_function_create_block`
unfoldable pub create_block : Function → List ℕ → Function × ℕ
create_block fn name =
    let id = length fn.blocks in
    let b : Block = record {
      id = id;
      name = name;
      first_inst = invalid;
      last_inst = invalid;
      inst_count = 0;
      preds = [];
      succs = [];
    } in
    (
      record fn {
        blocks = fn.blocks ++ b ∷ [];
        entry_block = if fn.entry_block == invalid then id else fn.entry_block;
      },
      id,
    )

-- `ny_function_create_value`
unfoldable pub create_value : Function → ℕ → ValueKind → ℕ → ℕ → List ℕ → Function × ℕ
create_value fn type kind def index name =
    let id = length fn.values in
    (
      record fn {
        values =
            fn.values
            ++ record { id = id; type = type; kind = kind; def = def; index = index; name = name }
              ∷ [];
      },
      id,
    )

-- The part of `ny_function_append_instruction` that hangs the new instruction behind the last.
unfoldable pub link_last : Function → ℕ → Block → ℕ → Outcome Function
link_last fn block_id blk inst_id =
    let done_block = record blk { last_inst = inst_id; inst_count = blk.inst_count + 1 } in
    if blk.first_inst == invalid
    then done
        (record fn { blocks = set fn.blocks block_id (record done_block { first_inst = inst_id }) })
    else (write fn.instructions blk.last_inst (λ l. record l { next = inst_id }) >>= (λ insts.
        done (record fn { instructions = insts; blocks = set fn.blocks block_id done_block })))

-- `ny_function_append_instruction`
unfoldable pub append_instruction :
    Function → ℕ → Opcode → ℕ → List Operand → ℕ → Outcome (Function × ℕ)
unfolding link_last
append_instruction fn block_id opcode result ops flags = elim (get_elem? fn.blocks block_id) [
  | none ↦ aborted
  | some blk ↦
      let inst_id = length fn.instructions in
      let inst : Instruction = record {
        id = inst_id;
        opcode = opcode;
        flags = flags;
        result = result;
        op_start = length fn.operands;
        op_count = length ops % 2 ^ 16;
        block = block_id;
        prev = blk.last_inst;
        next = invalid;
      } in
      let added = record fn {
        instructions = fn.instructions ++ inst ∷ [];
        operands = fn.operands ++ ops;
        values =
            if result == invalid
            then fn.values
            else adjust fn.values result (λ v. record v { def = inst_id });
      } in
      link_last added block_id blk inst_id >>= (λ linked. done (linked, inst_id))
]

-- `ny_instruction_replace_operand`
unfoldable pub replace_operand : Function → ℕ → ℕ → Operand → Function
replace_operand fn inst_id op_idx new_op = elim (get_elem? fn.instructions inst_id) [
  | none ↦ fn
  | some inst ↦
      if ltb op_idx inst.op_count
      then record fn { operands = set fn.operands (inst.op_start + op_idx) new_op }
      else fn
]

-- The operand with the new value in place of the old one.
abbrev pub renamed : ℕ → ℕ → Operand → Operand
renamed old_val new_val (Operand.value v) = Operand.value (if v == old_val then new_val else v)
renamed old_val new_val op = op

-- The inner loop of `ny_function_replace_all_uses`, from `start` on.
abbrev pub rename_range : ℕ → ℕ → List Operand → ℕ → ℕ → List Operand
rename_range old_val new_val ops start zero = ops
rename_range old_val new_val ops start (suc n) =
    rename_range old_val new_val (adjust ops start (renamed old_val new_val)) (suc start) n

-- Its outer loop, over the instructions.
abbrev pub rename_all : ℕ → ℕ → List Instruction → List Operand → List Operand
rename_all old_val new_val [] ops = ops
rename_all old_val new_val (inst ∷ insts) ops = rename_all old_val new_val insts (
    if is_none inst.opcode
    then ops
    else rename_range old_val new_val ops inst.op_start inst.op_count)

-- `ny_function_replace_all_uses`
unfoldable pub replace_all_uses : Function → ℕ → ℕ → Function
replace_all_uses fn old_val new_val =
    if old_val == new_val
    then fn
    else record fn { operands = rename_all old_val new_val fn.instructions fn.operands }
