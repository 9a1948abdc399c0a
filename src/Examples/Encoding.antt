-- ===== src/Examples/Encoding.antt =====
-- src/target/aarch64/aarch64_encode.c at a concrete input.
use nybit.Base.{ℕ, ◌≡◌, refl, arith, true, List, [], ◌∷◌, length}
use nybit.Base.Outcome.{done}
use nybit.Target.Aarch64.{Reg, Operand, Opcode, Instruction, CodeBuffer, FixupKind}
use nybit.Target.Aarch64.Buffer.{patch_word, IsPatched, patch_word-IsPatched}
use nybit.Target.Aarch64.Patch.{Block, encode_blocks, encode_function}
use nybit.Target.Aarch64.Patch.Whole.{FunctionEncoded, encode_function-FunctionEncoded}

abbrev x0 : Reg
x0 = record { size = 8; phys_reg = 0 }

abbrev plain : Opcode → List Operand → Instruction
plain opcode ops = record { opcode = opcode; cond = 0; op_count = length ops; shift = 0; ops = ops }

abbrev nothing : CodeBuffer
nothing = record { bytes = []; fixups = [] }

-- Block 0 counts up and goes on to block 1, which returns.
abbrev two_blocks : List Block
two_blocks =
    record {
      id = 0;
      instructions =
          plain Opcode.add (Operand.reg x0 ∷ Operand.reg x0 ∷ Operand.imm 1 ∷ [])
          ∷ plain Opcode.b (Operand.label 1 ∷ [])
          ∷ [];
    }
    ∷ record { id = 1; instructions = plain Opcode.ret [] ∷ [] }
    ∷ []

abbrev laid_out : CodeBuffer
laid_out = record {
  bytes = 0x00 ∷ 0x04 ∷ 0x00 ∷ 0x91 ∷ 0x00 ∷ 0x00 ∷ 0x00 ∷ 0x14 ∷ 0xC0 ∷ 0x03 ∷ 0x5F ∷ 0xD6 ∷ [];
  fixups =
      record { kind = FixupKind.branch26; code_offset = 4; target_block = 1; symbol_name = [] }
      ∷ [];
}

lays_out : encode_blocks 1 nothing (0 ∷ 0 ∷ []) two_blocks ≡ done (laid_out, 0 ∷ 8 ∷ [], true)
unfolding encode_blocks
lays_out = refl

encode_function-FunctionEncoded_example :
    FunctionEncoded nothing two_blocks laid_out (encode_function nothing two_blocks)
encode_function-FunctionEncoded_example =
    encode_function-FunctionEncoded nothing two_blocks laid_out (0 ∷ 8 ∷ []) refl (omega arith)
      lays_out (omega arith)

patch_word-IsPatched_example :
    (bytes1 : List ℕ) × (patch_word laid_out.bytes 4 0x14000001 ≡ done bytes1)
    × IsPatched laid_out.bytes 4 0x14000001 bytes1
patch_word-IsPatched_example = patch_word-IsPatched laid_out.bytes 4 0x14000001 (omega arith)
