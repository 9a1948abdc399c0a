-- ===== src/Target/Aarch64/Encode/Memory.antt =====
-- src/target/aarch64/aarch64_encode.c: addresses, loads and stores.
use nybit.Base.{ℕ, ◌%◌, ◌^◌, List, [], ◌∷◌, leb, ◌==◌, if◌then◌else◌}
use nybit.Base.Outcome.{Outcome, done, ◌>>=◌}
use nybit.Ir.Function.{invalid}
use nybit.Target.Aarch64.{Reg, Mem, Operand, Instruction, FixupKind}
use nybit.Target.Aarch64.Encode.Fields.{
  Encoding, word, fixed, rejected, op_at, as_mem, as_global, reg_at, reg_num, is_fp_reg, sf_bit,
  shl32, join, quot32, fits_imm7,
}

-- `AARCH64_OPC_ADRP`
unfoldable pub encode_adrp : Instruction → Outcome Encoding
unfolding reg_num
encode_adrp inst = reg_at inst 0 >>= (λ dst.
    op_at inst 1
    >>= as_global
    >>= (λ name. done (fixed (join (0x90000000 ∷ reg_num dst ∷ [])) FixupKind.adrp invalid name)))

-- `AARCH64_OPC_ADD_LO12`
unfoldable pub encode_add_lo12 : Instruction → Outcome Encoding
unfolding reg_num sf_bit
encode_add_lo12 inst = reg_at inst 0 >>= (λ dst. reg_at inst 1 >>= (λ base.
    op_at inst 2 >>= as_global >>= (λ name. done (
      fixed (join (sf_bit 8 ∷ 0x91000000 ∷ shl32 (reg_num base) 5 ∷ reg_num dst ∷ []))
        FixupKind.add_lo12 invalid name))))

-- The base of a load or store: for vector registers and others, of 8 bytes and less.
abbrev pub access_base : Reg → ℕ → ℕ → ℕ → ℕ → ℕ
access_base r fp8 fp4 gp8 gp4 =
    if is_fp_reg r then (if r.size == 8 then fp8 else fp4) else if r.size == 8 then gp8 else gp4

abbrev pub scale_of : Reg → ℕ
scale_of r = if r.size == 8 then 8 else 4

-- The word of a load or store with a displacement.
unfoldable pub access_word : ℕ → Reg → Mem → ℕ
unfolding reg_num
access_word base r mem = join (
    base
    ∷ shl32 (quot32 mem.disp (scale_of r) % 2 ^ 12) 10
    ∷ shl32 (reg_num mem.base) 5
    ∷ reg_num r
    ∷ [])

-- `AARCH64_OPC_LDR`
unfoldable pub encode_ldr : Instruction → Outcome Encoding
unfolding access_word
encode_ldr inst = reg_at inst 0 >>= (λ dst. op_at inst 1 >>= as_mem >>= (λ mem.
    done
      (word (access_word (access_base dst 0xFD400000 0xBD400000 0xF9400000 0xB9400000) dst mem))))

-- The word of an access to the low part of a symbol's address.
unfoldable pub symbol_word : ℕ → Reg → Reg → ℕ
unfolding reg_num
symbol_word base base_reg r = join (base ∷ shl32 (reg_num base_reg) 5 ∷ reg_num r ∷ [])

-- The two forms of `AARCH64_OPC_STR`.
unfoldable pub encode_str_symbol : Instruction → List ℕ → Outcome Encoding
unfolding symbol_word
encode_str_symbol inst name = reg_at inst 0 >>= (λ src. reg_at inst 1 >>= (λ base_reg. done (
    fixed (symbol_word (access_base src 0xFD000000 0xBD000000 0xF9000000 0xB9000000) base_reg src)
      FixupKind.ldst_lo12 invalid name)))

unfoldable pub encode_str_mem : Instruction → Outcome Encoding
unfolding access_word
encode_str_mem inst = reg_at inst 0 >>= (λ src. op_at inst 1 >>= as_mem >>= (λ mem.
    done
      (word (access_word (access_base src 0xFD000000 0xBD000000 0xF9000000 0xB9000000) src mem))))

abbrev pub str_form : Instruction → Operand → Outcome Encoding
str_form inst (Operand.global name) = encode_str_symbol inst name
str_form inst _ = encode_str_mem inst

-- `AARCH64_OPC_STR`
unfoldable pub encode_str : Instruction → Outcome Encoding
unfolding encode_str_symbol encode_str_mem
encode_str inst =
    if leb 3 inst.op_count then (op_at inst 2 >>= str_form inst) else encode_str_mem inst

-- `AARCH64_OPC_LDR_SYM`
unfoldable pub encode_ldr_sym : Instruction → Outcome Encoding
unfolding symbol_word
encode_ldr_sym inst = reg_at inst 0 >>= (λ dst. reg_at inst 1 >>= (λ base_reg.
    op_at inst 2 >>= as_global >>= (λ name. done (
      fixed (symbol_word (if dst.size == 8 then 0xF9400000 else 0xB9400000) base_reg dst)
        FixupKind.ldst_lo12 invalid name))))

-- The word of a pair: the first register, the second, the base and the scaled displacement.
unfoldable pub pair_word : ℕ → Reg → Reg → Reg → ℕ → ℕ
unfolding reg_num
pair_word base rt1 rt2 base_reg imm7 = join (
    base
    ∷ shl32 (imm7 % 2 ^ 7) 15
    ∷ shl32 (reg_num rt2) 10
    ∷ shl32 (reg_num base_reg) 5
    ∷ reg_num rt1
    ∷ [])

-- `AARCH64_OPC_STP` and `AARCH64_OPC_LDP`, by their four bases.
unfoldable pub encode_pair : ℕ → ℕ → ℕ → ℕ → Instruction → Outcome Encoding
unfolding pair_word
encode_pair fp8 fp4 gp8 gp4 inst = reg_at inst 0 >>= (λ rt1. reg_at inst 1 >>= (λ rt2.
    op_at inst 2 >>= as_mem >>= (λ mem.
      let imm7 = quot32 mem.disp (scale_of rt1) in
      if fits_imm7 imm7
      then done (word (pair_word (access_base rt1 fp8 fp4 gp8 gp4) rt1 rt2 mem.base imm7))
      else done rejected)))
