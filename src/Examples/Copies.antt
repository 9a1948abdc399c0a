-- ===== src/Examples/Copies.antt =====
-- src/opt/copy_prop.c and the widths of src/opt/common.c at concrete inputs.
use nybit.Base.{
  ℕ, zero, suc, ap, sym, ◌∙◌, arith, true, false, ◌==◌, get_elem?, ◌≡◌, ◌⊎◌, refl, List, [], ◌∷◌,
  some,
}
use nybit.Base.Outcome.{done}
use nybit.Ir.TypeId
use nybit.Ir.Opcode.{Opcode}
use nybit.Ir.Function.{Operand, Instruction, Value, ValueKind, Function, invalid}
use nybit.Opt.CopyProp.{phi_source, get_copy_source, resolve_copy}
use nybit.Analysis.UseDef.Complete.{IsSingleDef}
use nybit.Opt.Fates.{FateOf}
use nybit.Opt.Gvn.Pass.Removes.{Numbered}
use nybit.Opt.CopyProp.Pass.{pass_copy_prop}
use nybit.Opt.CopyProp.Pass.Removes.{IsCopy, pass_copy_prop-FateOf}
use nybit.Opt.CopyProp.Phi.{AllName, Leads, phi_source-AllName}
use nybit.Opt.CopyProp.Resolve.{Chain, IsRoot, resolve_copy-Chain}

-- A phi 7 of 3, from two blocks, and of itself.
abbrev phi_operands : List Operand
phi_operands =
    Operand.value 3
    ∷ Operand.block 0
    ∷ Operand.value 7
    ∷ Operand.block 1
    ∷ Operand.value 3
    ∷ Operand.block 2
    ∷ []

phi_run : phi_source 7 invalid phi_operands ≡ some 3
unfolding phi_source
phi_run = refl

phi_source-AllName_example : AllName 7 3 phi_operands × Leads 3 invalid
phi_source-AllName_example = phi_source-AllName 7 invalid 3 phi_operands phi_run

-- 3 is a copy of 2, which is one of 0.
abbrev copies : List ℕ
copies = invalid ∷ invalid ∷ 0 ∷ 2 ∷ []

resolve_copy-Chain_example :
    (n : ℕ) × Chain copies n 3 (resolve_copy copies 3)
    × (IsRoot copies (resolve_copy copies 3) ⊎ (n ≡ 64))
resolve_copy-Chain_example = resolve_copy-Chain copies 3

abbrev value_of : ℕ → ℕ → Value
value_of id type = record {
  id = id;
  type = type;
  kind = ValueKind.instruction;
  def = invalid;
  index = 0;
  name = [];
}

-- The zero extension of a 32-bit value to 128 bits, whose widths are taken to be the same, passes
-- for a copy of that value.
abbrev extension : Instruction
extension = record {
  id = 0;
  opcode = Opcode.zext;
  flags = 0;
  result = 1;
  op_start = 0;
  op_count = 1;
  block = 0;
  prev = invalid;
  next = invalid;
}

abbrev wide : Function
wide = record {
  id = 0;
  name = [];
  return_type = 0;
  param_types = [];
  param_names = [];
  call_conv = 0;
  entry_block = 0;
  blocks = [];
  instructions = extension ∷ [];
  values = value_of 0 TypeId.i32 ∷ value_of 1 TypeId.i128 ∷ [];
  operands = Operand.value 0 ∷ [];
}

wide_copy : get_copy_source wide extension ≡ done (some 0)
unfolding get_copy_source
wide_copy = refl

abbrev instruction_of : ℕ → Opcode → ℕ → ℕ → ℕ → ℕ → ℕ → Instruction
instruction_of id op result start count prev next = record {
  id = id;
  opcode = op;
  flags = 0;
  result = result;
  op_start = start;
  op_count = count;
  block = 0;
  prev = prev;
  next = next;
}

abbrev one_block : ℕ → ℕ → Instruction → Instruction → ℕ → Operand → Function
one_block first count i0 i1 def1 returned = record {
  id = 0;
  name = [];
  return_type = 0;
  param_types = [];
  param_names = [];
  call_conv = 0;
  entry_block = 0;
  blocks =
      record {
        id = 0;
        name = [];
        first_inst = first;
        last_inst = 1;
        inst_count = count;
        preds = [];
        succs = [];
      }
      ∷ [];
  instructions = i0 ∷ i1 ∷ [];
  values =
      value_of 0 TypeId.i32
      ∷ record {
        id = 1;
        type = TypeId.i32;
        kind = ValueKind.instruction;
        def = def1;
        index = 0;
        name = [];
      }
      ∷ [];
  operands = Operand.value 0 ∷ returned ∷ [];
}

abbrev a_copy : Instruction
a_copy = instruction_of 0 Opcode.bitcast 1 0 1 invalid 1

abbrev a_return : Instruction
a_return = instruction_of 1 Opcode.return invalid 1 1 0 invalid

-- v1 = bitcast v0; ret v1
abbrev copying : Function
copying = one_block 0 2 a_copy a_return 0 (Operand.value 1)

-- ret v0
abbrev copied : Function
copied =
    one_block 1 1 (instruction_of 0 Opcode.none 1 0 0 invalid invalid)
      (instruction_of 1 Opcode.return invalid 1 1 invalid invalid) invalid (Operand.value 0)

copying_run : pass_copy_prop copying ≡ done (record { fn = copied; changed = true })
unfolding pass_copy_prop
copying_run = refl

copying-Numbered : Numbered copying
copying-Numbered zero inst e =
    let same : a_copy ≡ inst = cc in ap (λ (x : Instruction). x.id) (sym same)
copying-Numbered (suc zero) inst e =
    let same : a_return ≡ inst = cc in ap (λ (x : Instruction). x.id) (sym same)
copying-Numbered (suc (suc i)) inst e = cc

only_copy :
    (i : ℕ) (a : Instruction)
    → get_elem? copying.instructions i ≡ some a
    → (a.result == invalid) ≡ false
    → i ≡ 0
only_copy zero a e valid = refl
only_copy (suc zero) a e valid =
    let same : a_return ≡ a = cc in
    let no_result : a.result ≡ invalid = ap (λ (x : Instruction). x.result) (sym same) in
    absurd (ground (arith, valid, no_result))
only_copy (suc (suc i)) a e valid = cc

copying-IsSingleDef : IsSingleDef copying.instructions
copying-IsSingleDef i j a b at_i at_j live_a live_b valid same =
    only_copy i a at_i valid ∙ sym (only_copy j b at_j (ground (arith, valid, same)))

pass_copy_prop-FateOf_example : FateOf (IsCopy copying) copying copied 0
pass_copy_prop-FateOf_example =
    pass_copy_prop-FateOf copying 0 copying-Numbered copying-IsSingleDef copying_run
