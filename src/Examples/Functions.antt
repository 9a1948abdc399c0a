-- ===== src/Examples/Functions.antt =====
-- src/ir/function.c at concrete inputs.
use nybit.Base.{◌≤◌, length, ℕ, ◌≡◌, ◌≢◌, refl, arith, [], ◌∷◌, get_elem?, some}
use nybit.Base.Outcome.{done}
use nybit.Ir.Opcode.{Opcode}
use nybit.Ir.Function.{
  Operand, Instruction, Function, invalid, append_instruction, replace_all_uses,
}
use nybit.Ir.Function.Remove.{remove_instruction}
use nybit.Ir.Function.Chain.{Holds}
use nybit.Ir.Function.Append.{append_instruction-Holds}
use nybit.Ir.Function.Unlink.{remove_instruction-Holds}
use nybit.Ir.Function.Uses.{is_used, renamed_if, get_elem?-replace_all_uses, replace_all_uses_gone}

abbrev instruction_at : ℕ → Opcode → ℕ → ℕ → ℕ → ℕ → Instruction
instruction_at id op start count prev next = record {
  id = id;
  opcode = op;
  flags = 0;
  result = id;
  op_start = start;
  op_count = count;
  block = 0;
  prev = prev;
  next = next;
}

-- One block with the instructions 0, 1 and 2.
abbrev three : Function
three = record {
  id = 0;
  name = [];
  return_type = 0;
  param_types = [];
  param_names = [];
  call_conv = 0;
  entry_block = 0;
  blocks =
      record {
        id = 0;
        name = [];
        first_inst = 0;
        last_inst = 2;
        inst_count = 3;
        preds = [];
        succs = [];
      }
      ∷ [];
  instructions =
      instruction_at 0 Opcode.add 0 2 invalid 1
      ∷ instruction_at 1 Opcode.mul 2 1 0 2
      ∷ instruction_at 2 Opcode.neg 3 1 1 invalid
      ∷ [];
  values = [];
  operands = Operand.value 5 ∷ Operand.imm_int 5 ∷ Operand.value 6 ∷ Operand.value 5 ∷ [];
}

three-Holds : Holds three 0 (0 ∷ 1 ∷ 2 ∷ [])
three-Holds = record {
  block = _;
  found = refl;
  first = refl;
  last = refl;
  count = refl;
  linked = (
    record { inst = _; found = refl; live = refl; owner = refl; prev = refl; next = refl },
    (
      record { inst = _; found = refl; live = refl; owner = refl; prev = refl; next = refl },
      (record { inst = _; found = refl; live = refl; owner = refl; prev = refl; next = refl }, tt),
    ),
  );
  distinct = ((omega arith, (omega arith, tt)), ((omega arith, tt), (tt, tt)));
}

remove_instruction-Holds_example :
    (fn1 : Function) × (remove_instruction three 1 ≡ done fn1)
    × Holds fn1 0 (0 ∷ 2 ∷ [])
    × (length fn1.instructions ≤ invalid)
remove_instruction-Holds_example =
    remove_instruction-Holds three 0 (0 ∷ []) 1 (2 ∷ []) (omega arith) three-Holds

append_instruction-Holds_example :
    (fn1 : Function) × (append_instruction three 0 Opcode.return 9 (Operand.value 2 ∷ []) 0
      ≡ done (fn1, 3))
    × Holds fn1 0 (0 ∷ 1 ∷ 2 ∷ 3 ∷ [])
append_instruction-Holds_example =
    append_instruction-Holds three 0 (0 ∷ 1 ∷ 2 ∷ []) Opcode.return 9 (Operand.value 2 ∷ []) 0
      (omega arith) refl three-Holds

get_elem?-replace_all_uses_example :
    get_elem? (replace_all_uses three 5 7).operands 3
    ≡ renamed_if (is_used three.instructions 3) 5 7 (get_elem? three.operands 3)
get_elem?-replace_all_uses_example = get_elem?-replace_all_uses three 5 7 3

replace_all_uses_gone_example :
    get_elem? (replace_all_uses three 5 7).operands 0 ≢ some (Operand.value 5)
replace_all_uses_gone_example = replace_all_uses_gone three 5 7 0 (omega arith) refl

-- The function without its instruction 1.
abbrev without_mul : Function
without_mul = record three {
  blocks =
      record {
        id = 0;
        name = [];
        first_inst = 0;
        last_inst = 2;
        inst_count = 2;
        preds = [];
        succs = [];
      }
      ∷ [];
  instructions =
      instruction_at 0 Opcode.add 0 2 invalid 2
      ∷ record (instruction_at 1 Opcode.none 2 0 invalid invalid) { result = 1 }
      ∷ instruction_at 2 Opcode.neg 3 1 0 invalid
      ∷ [];
}
