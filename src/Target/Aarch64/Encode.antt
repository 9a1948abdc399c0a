-- ===== src/Target/Aarch64/Encode.antt =====
-- src/target/aarch64/aarch64_encode.c: the encoder of one instruction. The diagnostics are left out:
-- with an instruction that is rejected, the message says which.
pub mod Fields
pub mod Moves
pub mod Memory
use nybit.Base.{
  ℕ, ◌+◌, ◌-◌, ◌*◌, ◌/◌, ◌%◌, ◌^◌, Bool, true, false, ◌&&◌, ◌||◌, Option, none, some, List, [], ◌∷◌,
  ◌++◌, length, ltb, leb, ◌==◌, if◌then◌else◌,
}
use nybit.Base.Outcome.{Outcome, done, faulted, ◌>>=◌}
use nybit.Ir.Function.{invalid}
use nybit.Target.Aarch64.{Reg, Operand, Instruction, Opcode, FixupKind, Fixup, CodeBuffer}
use nybit.Target.Aarch64.Buffer.{append_word}
use nybit.Target.Aarch64.Encode.Fields.{
  Encoding, word, fixed, rejected, op_at, as_imm, as_label, as_global, reg_at, reg_num, shl32, join,
}
use nybit.Target.Aarch64.Encode.Moves.{
  encode_mov, encode_mov_wide, encode_add, encode_cmp, encode_three_reg, encode_mul, encode_msub,
  encode_mvn, encode_shift, encode_cset,
}
use nybit.Target.Aarch64.Encode.Memory.{
  encode_adrp, encode_add_lo12, encode_ldr, encode_str, encode_ldr_sym, encode_pair,
}

abbrev call_word : Operand → Outcome Encoding
call_word (Operand.label b) = done (fixed 0x94000000 FixupKind.branch26 b [])
call_word op = as_global op >>= (λ name. done (fixed 0x94000000 FixupKind.call26 invalid name))

-- `AARCH64_OPC_BR` and `AARCH64_OPC_BLR`
unfoldable pub encode_branch_reg : ℕ → Instruction → Outcome Encoding
unfolding reg_num
encode_branch_reg base inst =
    reg_at inst 0 >>= (λ src. done (word (join (base ∷ shl32 (reg_num src) 5 ∷ []))))

-- The arms for branches and calls.
unfoldable pub encode_branch : Instruction → Outcome Encoding
encode_branch inst =
    op_at inst 0 >>= as_label >>= (λ b. done (fixed 0x14000000 FixupKind.branch26 b []))

unfoldable pub encode_call : Instruction → Outcome Encoding
encode_call inst = op_at inst 0 >>= call_word

unfoldable pub encode_branch_cond : Instruction → Outcome Encoding
encode_branch_cond inst =
    op_at inst 0
    >>= as_label
    >>= (λ b. done (fixed (join (0x54000000 ∷ inst.cond % 2 ^ 4 ∷ [])) FixupKind.branch19 b []))

-- `AARCH64_OPC_BRK`
unfoldable pub encode_brk : Instruction → Outcome Encoding
encode_brk inst =
    op_at inst 0
    >>= as_imm
    >>= (λ imm. done (word (join (0xD4200000 ∷ shl32 (imm % 2 ^ 16) 5 ∷ []))))

-- The switch of `aarch64_encode_instruction`.
unfoldable pub encode_word : Opcode → Instruction → Outcome Encoding
unfolding encode_mov encode_mov_wide encode_add encode_cmp encode_three_reg encode_mul encode_msub
    encode_mvn encode_shift encode_cset encode_adrp encode_add_lo12 encode_ldr encode_str
    encode_ldr_sym encode_pair encode_branch encode_call encode_branch_cond encode_branch_reg
    encode_brk
encode_word Opcode.mov inst = encode_mov inst
encode_word Opcode.movz inst = encode_mov_wide 0x52800000 inst
encode_word Opcode.movk inst = encode_mov_wide 0x72800000 inst
encode_word Opcode.add inst = encode_add 0x11000000 0x0B000000 inst
encode_word Opcode.sub inst = encode_add 0x51000000 0x4B000000 inst
encode_word Opcode.cmp inst = encode_cmp inst
encode_word Opcode.mul inst = encode_mul inst
encode_word Opcode.sdiv inst = encode_three_reg 0x1AC00C00 inst
encode_word Opcode.udiv inst = encode_three_reg 0x1AC00800 inst
encode_word Opcode.msub inst = encode_msub inst
encode_word Opcode.and inst = encode_three_reg 0x0A000000 inst
encode_word Opcode.orr inst = encode_three_reg 0x2A000000 inst
encode_word Opcode.eor inst = encode_three_reg 0x4A000000 inst
encode_word Opcode.mvn inst = encode_mvn inst
encode_word Opcode.lsl inst = encode_shift 0x1AC02000 0xD3400000 0x53000000 true inst
encode_word Opcode.lsr inst = encode_shift 0x1AC02400 0xD3400000 0x53000000 false inst
encode_word Opcode.asr inst = encode_shift 0x1AC02800 0x93400000 0x13000000 false inst
encode_word Opcode.cset inst = encode_cset inst
encode_word Opcode.adrp inst = encode_adrp inst
encode_word Opcode.add_lo12 inst = encode_add_lo12 inst
encode_word Opcode.ldr inst = encode_ldr inst
encode_word Opcode.str inst = encode_str inst
encode_word Opcode.ldr_sym inst = encode_ldr_sym inst
encode_word Opcode.stp inst = encode_pair 0x6D000000 0x2D000000 0xA9000000 0x29000000 inst
encode_word Opcode.ldp inst = encode_pair 0x6D400000 0x2D400000 0xA9400000 0x29400000 inst
encode_word Opcode.b inst = encode_branch inst
encode_word Opcode.bl inst = encode_call inst
encode_word Opcode.bcond inst = encode_branch_cond inst
encode_word Opcode.br inst = encode_branch_reg 0xD61F0000 inst
encode_word Opcode.blr inst = encode_branch_reg 0xD63F0000 inst
encode_word Opcode.ret inst = done (word 0xD65F03C0)
encode_word Opcode.brk inst = encode_brk inst
encode_word _ inst = done rejected

-- What the arm's end does to the buffer, and what the call returns.
unfoldable pub emit : CodeBuffer → Encoding → CodeBuffer × Bool
unfolding append_word
emit buf (word w) = (append_word buf w, true)
emit buf (fixed w kind target name) =
    let added = append_word buf w in
    (
      record added {
        fixups =
            added.fixups
            ++ record {
              kind = kind;
              code_offset = length buf.bytes;
              target_block = target;
              symbol_name = name;
            }
              ∷ [];
      },
      true,
    )
emit buf rejected = (buf, false)

-- `aarch64_encode_instruction`
unfoldable pub encode_instruction : CodeBuffer → Instruction → Outcome (CodeBuffer × Bool)
unfolding encode_word emit
encode_instruction buf inst = encode_word inst.opcode inst >>= (λ e. done (emit buf e))
