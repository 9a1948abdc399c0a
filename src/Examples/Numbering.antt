-- ===== src/Examples/Numbering.antt =====
-- src/opt/gvn.c at concrete inputs.
use nybit.Base.{zero, suc, sym, ap, ℕ, ◌≡◌, refl, arith, true, false, List, [], ◌∷◌, some}
use nybit.Base.Outcome.{done}
use nybit.Ir.Opcode.{Opcode}
use nybit.Ir.Function.{Operand, Instruction, Function, Value, ValueKind, invalid}
use nybit.Analysis.Dominator.{DominatorTree}
use nybit.Opt.Gvn.{gvn_key_equal, key_of}
use nybit.Opt.Gvn.Keys.{SameOperands, gvn_key_equal-key_of}
use nybit.Opt.Gvn.Pass.{Numbering, visit, pass_gvn}
use nybit.Opt.Gvn.Pass.Removes.{SharedFate, Numbered, pass_gvn-SharedFate}
use nybit.Opt.Gvn.Pass.Visit.{Visited, visit-Visited}

abbrev xs : List Operand
xs = Operand.value 7 ∷ Operand.value 3 ∷ []

abbrev ys : List Operand
ys = Operand.value 3 ∷ Operand.value 7 ∷ []

swapped_equal : gvn_key_equal (key_of Opcode.add 4 xs) (key_of Opcode.add 4 ys) ≡ true
unfolding gvn_key_equal key_of
swapped_equal = refl

gvn_key_equal-key_of_example :
    (Opcode.add ≡ Opcode.add) × (◌≡◌ {A = ℕ} 4 4) × SameOperands Opcode.add xs ys
gvn_key_equal-key_of_example =
    gvn_key_equal-key_of Opcode.add Opcode.add 4 4 xs ys (omega arith) (omega arith) swapped_equal

abbrev instruction_at : ℕ → Opcode → ℕ → ℕ → ℕ → ℕ → ℕ → Instruction
instruction_at id op result start count prev next = record {
  id = id;
  opcode = op;
  flags = 0;
  result = result;
  op_start = start;
  op_count = count;
  block = 0;
  prev = prev;
  next = next;
}

abbrev value_at : ℕ → ℕ → Value
value_at id def = record {
  id = id;
  type = 4;
  kind = ValueKind.instruction;
  def = def;
  index = 0;
  name = [];
}

abbrev first : Instruction
first = instruction_at 0 Opcode.add 2 0 2 invalid 1

abbrev second : Instruction
second = instruction_at 1 Opcode.add 3 2 2 0 invalid

-- v2 = add v0, v1; v3 = add v1, v0
abbrev sums : Function
sums = record {
  id = 0;
  name = [];
  return_type = 0;
  param_types = [];
  param_names = [];
  call_conv = 0;
  entry_block = 0;
  blocks =
      record {
        id = 0;
        name = [];
        first_inst = 0;
        last_inst = 1;
        inst_count = 2;
        preds = [];
        succs = [];
      }
      ∷ [];
  instructions = first ∷ second ∷ [];
  values = value_at 0 invalid ∷ value_at 1 invalid ∷ value_at 2 0 ∷ value_at 3 1 ∷ [];
  operands = Operand.value 0 ∷ Operand.value 1 ∷ Operand.value 1 ∷ Operand.value 0 ∷ [];
}

abbrev root : DominatorTree
root = record { entry = 0; idom = 0 ∷ []; rpo = some 0 ∷ [] }

abbrev noted_first : Numbering
noted_first = record {
  fn = sums;
  table =
      record {
        key = record {
          opcode = Opcode.add;
          type = 4;
          op_count = 2;
          op0 = Operand.value 0;
          op1 = Operand.value 1;
          op2 = Operand.empty;
        };
        val = 2;
        blk_id = 0;
      }
      ∷ [];
  changed = false;
}

abbrev without_second : Numbering
without_second = record {
  fn = record sums {
    blocks =
        record {
          id = 0;
          name = [];
          first_inst = 0;
          last_inst = 0;
          inst_count = 1;
          preds = [];
          succs = [];
        }
        ∷ [];
    instructions =
        record first { next = invalid } ∷ instruction_at 1 Opcode.none 3 2 0 invalid invalid ∷ [];
    values = value_at 0 invalid ∷ value_at 1 invalid ∷ value_at 2 0 ∷ value_at 3 invalid ∷ [];
  };
  table = noted_first.table;
  changed = true;
}

visit_second : visit root 0 second noted_first ≡ done (some without_second)
unfolding visit
visit_second = refl

visit-Visited_example : Visited root 0 second noted_first without_second
visit-Visited_example = visit-Visited root 0 second noted_first visit_second

-- The whole pass shares the two sums, whose operands are in another order.
pass : pass_gvn root sums ≡ done (some without_second)
unfolding pass_gvn
pass = refl

sums-Numbered : Numbered sums
sums-Numbered zero inst e =
    let same : first ≡ inst = cc in ap (λ (k : Instruction). k.id) (sym same)
sums-Numbered (suc zero) inst e =
    let same : second ≡ inst = cc in ap (λ (k : Instruction). k.id) (sym same)
sums-Numbered (suc (suc i)) inst e = cc

pass_gvn-SharedFate_example : SharedFate sums without_second.fn 1
pass_gvn-SharedFate_example = pass_gvn-SharedFate root sums 1 sums-Numbered pass
