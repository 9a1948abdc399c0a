-- ===== src/Examples/Blocks.antt =====
-- src/ir/block.c and the removal of blocks at concrete inputs.
use nybit.Base.{ℕ, zero, suc, ◌≡◌, refl, arith, List, [], ◌∷◌}
use nybit.Base.Outcome.{done}
use nybit.Ir.Opcode.{Opcode}
use nybit.Ir.Function.{Instruction, Block, Function, invalid}
use nybit.Ir.Function.Chain.{Holds}
use nybit.Ir.Block.{add_edge, remove_edge}
use nybit.Ir.Block.Edges.{has_succ, has_pred, Symmetric, add_edge-Symmetric, remove_edge_keeps}
use nybit.Ir.Rewire.{remove_all}
use nybit.Ir.Rewire.Emptied.{remove_all-Holds}

abbrev block_of : ℕ → List ℕ → List ℕ → Block
block_of id preds succs = record {
  id = id;
  name = [];
  first_inst = 0;
  last_inst = 1;
  inst_count = 2;
  preds = preds;
  succs = succs;
}

-- Block 0 goes to block 1 and to itself.
abbrev graph : List Block
graph = block_of 0 (0 ∷ []) (1 ∷ 0 ∷ []) ∷ block_of 1 (0 ∷ []) [] ∷ []

abbrev apart : List Block
apart = block_of 0 [] [] ∷ block_of 1 [] [] ∷ []

apart-Symmetric : Symmetric apart
apart-Symmetric zero zero = refl
apart-Symmetric zero (suc zero) = refl
apart-Symmetric (suc zero) zero = refl
apart-Symmetric (suc zero) (suc zero) = refl
apart-Symmetric zero (suc (suc s)) = refl
apart-Symmetric (suc zero) (suc (suc s)) = refl
apart-Symmetric (suc (suc p)) zero = refl
apart-Symmetric (suc (suc p)) (suc zero) = refl
apart-Symmetric (suc (suc p)) (suc (suc s)) = refl

add_edge-Symmetric_example : Symmetric (add_edge apart 0 1)
add_edge-Symmetric_example =
    add_edge-Symmetric apart 0 1 (omega arith) (omega arith) apart-Symmetric

remove_edge_keeps_example :
    (has_succ (remove_edge graph 0 0) 0 1 ≡ has_succ graph 0 1)
    × (has_pred (remove_edge graph 0 0) 0 2 ≡ has_pred graph 0 2)
remove_edge_keeps_example =
    remove_edge_keeps graph 0 0 0 1 2 (omega arith) (omega arith) (omega arith) (omega arith)

abbrev bare_instruction : ℕ → Opcode → ℕ → ℕ → Instruction
bare_instruction id op prev next = record {
  id = id;
  opcode = op;
  flags = 0;
  result = invalid;
  op_start = 0;
  op_count = 0;
  block = 0;
  prev = prev;
  next = next;
}

-- A block with two instructions.
abbrev two : Function
two = record {
  id = 0;
  name = [];
  return_type = 0;
  param_types = [];
  param_names = [];
  call_conv = 0;
  entry_block = 0;
  blocks = block_of 0 [] [] ∷ [];
  instructions =
      bare_instruction 0 Opcode.add invalid 1 ∷ bare_instruction 1 Opcode.return 0 invalid ∷ [];
  values = [];
  operands = [];
}

two-Holds : Holds two 0 (0 ∷ 1 ∷ [])
two-Holds = record {
  block = _;
  found = refl;
  first = refl;
  last = refl;
  count = refl;
  linked = (
    record { inst = _; found = refl; live = refl; owner = refl; prev = refl; next = refl },
    (record { inst = _; found = refl; live = refl; owner = refl; prev = refl; next = refl }, tt),
  );
  distinct = ((omega arith, tt), (tt, tt));
}

remove_all-Holds_example : (fn1 : Function) × (remove_all 3 two 0 ≡ done fn1) × Holds fn1 0 []
remove_all-Holds_example =
    remove_all-Holds 3 two 0 (0 ∷ 1 ∷ []) (omega arith) (omega arith) two-Holds
