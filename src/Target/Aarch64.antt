-- ===== src/Target/Aarch64.antt =====
-- include/nybit/target_aarch64.h: instructions of the AArch64 back end. An operand is a tagged union; reading
-- another member than the one that was stored is taken for a fault. An `int64_t` or `int32_t` is
-- its bit pattern.
pub mod Buffer
pub mod Encode
pub mod Patch
use nybit.Base.{ℕ, List}

-- `AArch64_Reg`, but for `id` and `is_virtual`.
pub record Reg : Type 0 where
  pub size : ℕ
  pub phys_reg : ℕ

-- `AArch64_Mem`, but for the symbol.
pub record Mem : Type 0 where
  pub base : Reg
  pub disp : ℕ

-- `AArch64_Operand`
pub data Operand : Type 0 where
  none : Operand
  reg : Reg → Operand
  imm : ℕ → Operand
  mem : Mem → Operand
  label : ℕ → Operand
  global : List ℕ → Operand

-- `AArch64_Opcode`
pub data Opcode : Type 0 where
  none mov movz movk add sub subs mul sdiv udiv msub and orr eor mvn lsl lsr asr cmp cset : Opcode
  adrp add_lo12 ldr str ldr_sym stp ldp b bl bcond cbz cbnz br blr ret brk count : Opcode

-- `AArch64_Instruction`, but for `size`, which the encoder does not read.
pub record Instruction : Type 0 where
  pub opcode : Opcode
  pub cond : ℕ
  pub op_count : ℕ
  pub shift : ℕ
  pub ops : List Operand

-- `AArch64_Fixup_Kind`
pub data FixupKind : Type 0 where
  branch26 branch19 call26 adrp add_lo12 ldst_lo12 : FixupKind

-- `AArch64_Fixup`, but for the addend, which is always 0.
pub record Fixup : Type 0 where
  pub kind : FixupKind
  pub code_offset : ℕ
  pub target_block : ℕ
  pub symbol_name : List ℕ

-- `AArch64_Code_Buffer`, but for the relocations, which the encoder does not touch.
pub record CodeBuffer : Type 0 where
  pub bytes : List ℕ
  pub fixups : List Fixup
