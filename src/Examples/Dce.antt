-- ===== src/Examples/Dce.antt =====
-- src/analysis/use_def.c and src/opt/dce.c at concrete inputs.
use nybit.Base.{
  ℕ, zero, suc, ap, sym, false, ◌<◌, ◌==◌, get_elem?, ◌≡◌, ◌≢◌, refl, arith, true, [], ◌∷◌, some,
  none,
}
use nybit.Base.Outcome.{done}
use nybit.Ir.Opcode.{Opcode}
use nybit.Ir.Function.{Operand, Instruction, Function, Value, ValueKind, invalid}
use nybit.Analysis.UseDef.{UseDef, init}
use nybit.Analysis.UseDef.Describes.{Describes, init-Describes}
use nybit.Analysis.UseDef.Counts.{live_uses}
use nybit.Analysis.UseDef.Complete.{IsSingleDef}
use nybit.Opt.Dce.{pass_dce, has_side_effects}
use nybit.Opt.Dce.Complete.{pass_dce-AllUsed}
use nybit.Opt.Dce.Fuel.{pass_dce_ends}
use nybit.Opt.Dce.Fates.{Fate}
use nybit.Opt.Dce.Sound.{pass_dce-Fate}

abbrev instruction_at : ℕ → Opcode → ℕ → ℕ → ℕ → ℕ → ℕ → Instruction
instruction_at id op result start count prev next = record {
  id = id;
  opcode = op;
  flags = 0;
  result = result;
  op_start = start;
  op_count = count;
  block = 0;
  prev = prev;
  next = next;
}

abbrev value_at : ℕ → ℕ → Value
value_at id def = record {
  id = id;
  type = 4;
  kind = ValueKind.instruction;
  def = def;
  index = 0;
  name = [];
}

abbrev blocks_of : ℕ → ℕ → ℕ → Instruction → Instruction → Instruction → ℕ → ℕ → Function
blocks_of first last count i0 i1 i2 def1 def2 = record {
  id = 0;
  name = [];
  return_type = 0;
  param_types = [];
  param_names = [];
  call_conv = 0;
  entry_block = 0;
  blocks =
      record {
        id = 0;
        name = [];
        first_inst = first;
        last_inst = last;
        inst_count = count;
        preds = [];
        succs = [];
      }
      ∷ [];
  instructions = i0 ∷ i1 ∷ i2 ∷ [];
  values = value_at 0 invalid ∷ value_at 1 def1 ∷ value_at 2 def2 ∷ [];
  operands =
      Operand.value 0
      ∷ Operand.value 0
      ∷ Operand.value 1
      ∷ Operand.imm_int 5
      ∷ Operand.value 0
      ∷ [];
}

-- v1 = add v0, v0; v2 = mul v1, 5; ret v0: nothing but the return is of use.
abbrev idle : Function
idle =
    blocks_of 0 2 3 (instruction_at 0 Opcode.add 1 0 2 invalid 1)
      (instruction_at 1 Opcode.mul 2 2 2 0 2) (instruction_at 2 Opcode.return invalid 4 1 1 invalid)
      0 1

-- The multiplication goes first, and then the sum that only it used.
abbrev reduced : Function
reduced =
    blocks_of 2 2 1 (instruction_at 0 Opcode.none 1 0 0 invalid invalid)
      (instruction_at 1 Opcode.none 2 2 0 invalid invalid)
      (instruction_at 2 Opcode.return invalid 4 1 invalid invalid) invalid invalid

run : pass_dce idle ≡ done (some (reduced, true))
unfolding pass_dce
run = refl

pass_dce-Fate_example : Fate idle reduced 0 × (reduced.operands ≡ idle.operands)
pass_dce-Fate_example = pass_dce-Fate idle 0 (refl, (refl, (refl, tt))) (omega arith) run

pass_dce_ends_example : pass_dce idle ≢ done none
pass_dce_ends_example = pass_dce_ends idle

abbrev idle_uses : UseDef
idle_uses = record {
  val_count = 3;
  def_inst = invalid ∷ 0 ∷ 1 ∷ [];
  use_start = 0 ∷ 3 ∷ 4 ∷ [];
  use_count = 3 ∷ 1 ∷ 0 ∷ [];
  uses =
      some (record { inst = 0; op_idx = 0 })
      ∷ some (record { inst = 0; op_idx = 1 })
      ∷ some (record { inst = 2; op_idx = 0 })
      ∷ some (record { inst = 1; op_idx = 0 })
      ∷ [];
  total_uses = 4;
}

counted : init idle ≡ done idle_uses
unfolding init
counted = refl

init-Describes_example : Describes idle idle_uses
init-Describes_example = init-Describes idle (refl, (refl, (refl, tt))) (omega arith) counted

-- v1 = add v0, v0; v2 = mul v1, 5; ret v1: only the multiplication is of no use.
abbrev half_idle : Function
half_idle =
    blocks_of 0 2 3 (instruction_at 0 Opcode.add 1 0 2 invalid 1)
      (instruction_at 1 Opcode.mul 2 2 2 0 2) (instruction_at 2 Opcode.return invalid 2 1 1 invalid)
      0 1

abbrev sum_kept : Instruction
sum_kept = instruction_at 0 Opcode.add 1 0 2 invalid 2

abbrev halved : Function
halved =
    blocks_of 0 2 2 sum_kept (instruction_at 1 Opcode.none 2 2 0 invalid invalid)
      (instruction_at 2 Opcode.return invalid 2 1 0 invalid) 0 invalid

run_half : pass_dce half_idle ≡ done (some (halved, true))
unfolding pass_dce
run_half = refl

result_at :
    (i : ℕ) (a : Instruction)
    → get_elem? half_idle.instructions i ≡ some a
    → (a.result == invalid) ≡ false
    → a.result ≡ suc i
result_at zero a e valid =
    let same : instruction_at 0 Opcode.add 1 0 2 invalid 1 ≡ a = cc in
    ap (λ (x : Instruction). x.result) (sym same)
result_at (suc zero) a e valid =
    let same : instruction_at 1 Opcode.mul 2 2 2 0 2 ≡ a = cc in
    ap (λ (x : Instruction). x.result) (sym same)
result_at (suc (suc zero)) a e valid =
    let same : instruction_at 2 Opcode.return invalid 2 1 1 invalid ≡ a = cc in
    let no_result : a.result ≡ invalid = ap (λ (x : Instruction). x.result) (sym same) in
    absurd (ground (arith, valid, no_result))
result_at (suc (suc (suc i))) a e valid = cc

half_idle-IsSingleDef : IsSingleDef half_idle.instructions
half_idle-IsSingleDef i j a b at_i at_j live_a live_b valid same =
    omega (arith, same, result_at i a at_i valid, result_at j b at_j (ground (arith, valid, same)))

sum_kept_plain : has_side_effects Opcode.add 0 ≡ false
unfolding has_side_effects
sum_kept_plain = refl

pass_dce-AllUsed_example : 0 < live_uses halved.operands halved.instructions 1
pass_dce-AllUsed_example =
    pass_dce-AllUsed half_idle 0 sum_kept (refl, (refl, (refl, tt))) half_idle-IsSingleDef
      (omega arith) (omega arith) (omega arith) run_half refl
      (record { live = refl; plain = sum_kept_plain; valued = omega arith })
