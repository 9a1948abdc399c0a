-- ===== src/Target/Aarch64/Encode/Fields.antt =====
-- src/target/aarch64/aarch64_encode.c: operands, and the fields of a word.
use nybit.Base.{
  ℕ, ◌-◌, ◌*◌, ◌/◌, ◌%◌, ◌^◌, Bool, ◌&&◌, ◌||◌, none, some, List, [], ◌∷◌, get_elem?, ltb, leb,
  ◌==◌, if◌then◌else◌, bit_or,
}
use nybit.Base.Outcome.{Outcome, done, faulted, ◌>>=◌}
use nybit.Target.Aarch64.{Reg, Mem, Operand, Instruction, FixupKind}

-- What an arm of the switch comes to: a word, a word with a fixup, or `return false`.
pub data Encoding : Type 0 where
  word : ℕ → Encoding
  fixed : ℕ → FixupKind → ℕ → List ℕ → Encoding
  rejected : Encoding

abbrev pub op_at : Instruction → ℕ → Outcome Operand
op_at inst i = elim (get_elem? inst.ops i) [ none ↦ faulted | some op ↦ done op ]

abbrev pub as_reg : Operand → Outcome Reg
as_reg (Operand.reg r) = done r
as_reg _ = faulted

abbrev pub as_imm : Operand → Outcome ℕ
as_imm (Operand.imm i) = done i
as_imm _ = faulted

abbrev pub as_mem : Operand → Outcome Mem
as_mem (Operand.mem m) = done m
as_mem _ = faulted

abbrev pub as_label : Operand → Outcome ℕ
as_label (Operand.label b) = done b
as_label _ = faulted

abbrev pub as_global : Operand → Outcome (List ℕ)
as_global (Operand.global name) = done name
as_global _ = faulted

abbrev pub reg_at : Instruction → ℕ → Outcome Reg
reg_at inst i = op_at inst i >>= as_reg

-- `reg_num`
unfoldable pub reg_num : Reg → ℕ
reg_num r = if leb 32 r.phys_reg then r.phys_reg - 32 else r.phys_reg

-- `is_fp_reg`
abbrev pub is_fp_reg : Reg → Bool
is_fp_reg r = leb 32 r.phys_reg

-- `sf_bit`
unfoldable pub sf_bit : ℕ → ℕ
sf_bit size = if size == 8 then 2 ^ 31 else 0

-- `x << k` on `uint32_t`
abbrev pub shl32 : ℕ → ℕ → ℕ
shl32 x k = x * 2 ^ k % 2 ^ 32

-- `a | b | ...`
abbrev pub join : List ℕ → ℕ
join [] = 0
join (x ∷ xs) = bit_or x (join xs)

-- The quotient of two `int32_t`, which is cut off towards zero, where the divisor is positive.
abbrev pub quot32 : ℕ → ℕ → ℕ
quot32 x d = if ltb x (2 ^ 31) then x / d else (2 ^ 32 - (2 ^ 32 - x) / d) % 2 ^ 32

-- `imm7 < -64 || imm7 > 63` is false.
abbrev pub fits_imm7 : ℕ → Bool
fits_imm7 x = ltb x 64 || leb (2 ^ 32 - 64) x

-- `rhs.imm > 4095 && (rhs.imm & 0xFFF) == 0 && rhs.imm <= 65535`
abbrev pub is_shifted_imm : ℕ → Bool
is_shifted_imm imm = ltb 4095 imm && (imm % 2 ^ 12 == 0) && leb imm 65535
