-- ===== src/Target/Aarch64/Encode/Moves.antt =====
-- src/target/aarch64/aarch64_encode.c: moves, arithmetic and logic.
use nybit.Base.{ℕ, ◌-◌, ◌/◌, ◌%◌, ◌^◌, Bool, ◌||◌, [], ◌∷◌, leb, ◌==◌, if◌then◌else◌}
use nybit.Base.Outcome.{Outcome, done, ◌>>=◌}
use nybit.Target.Aarch64.{Reg, Operand, Instruction}
use nybit.Target.Aarch64.Encode.Fields.{
  Encoding, word, op_at, as_imm, as_reg, reg_at, reg_num, is_fp_reg, sf_bit, shl32, join,
  is_shifted_imm,
}

-- `AARCH64_OPC_MOV`
unfoldable pub encode_mov : Instruction → Outcome Encoding
unfolding reg_num sf_bit
encode_mov inst = reg_at inst 0 >>= (λ dst. reg_at inst 1 >>= (λ src. done (
    word (
      if is_fp_reg dst || is_fp_reg src
      then join (
          (if dst.size == 8 then 0x1E604000 else 0x1E204000)
          ∷ shl32 (reg_num src) 5
          ∷ reg_num dst
          ∷ [])
      else if reg_num src == 31
      then join (sf_bit dst.size ∷ 0x11000000 ∷ shl32 31 5 ∷ reg_num dst ∷ [])
      else join (
          sf_bit dst.size ∷ 0x2A000000 ∷ shl32 (reg_num src) 16 ∷ shl32 31 5 ∷ reg_num dst ∷ [])))))

-- `AARCH64_OPC_MOVZ` and `AARCH64_OPC_MOVK`
unfoldable pub encode_mov_wide : ℕ → Instruction → Outcome Encoding
unfolding reg_num sf_bit
encode_mov_wide base inst = reg_at inst 0 >>= (λ dst. op_at inst 1 >>= as_imm >>= (λ imm. done (
    word (
      join (
        sf_bit dst.size
        ∷ base
        ∷ shl32 (inst.shift % 2 ^ 2) 21
        ∷ shl32 (imm % 2 ^ 16) 5
        ∷ reg_num dst
        ∷ [])))))

-- The word of an addition or subtraction with an immediate.
unfoldable pub add_imm_word : ℕ → Reg → Reg → ℕ → ℕ
unfolding reg_num sf_bit
add_imm_word base dst src imm =
    let shifted = is_shifted_imm imm in
    join (
      sf_bit dst.size
      ∷ base
      ∷ shl32 (if shifted then 1 else 0) 22
      ∷ shl32 (if shifted then imm / 2 ^ 12 % 2 ^ 12 else imm % 2 ^ 12) 10
      ∷ shl32 (reg_num src) 5
      ∷ reg_num dst
      ∷ [])

-- The word of an operation on three registers.
unfoldable pub three_reg_word : ℕ → Reg → Reg → Reg → ℕ
unfolding reg_num sf_bit
three_reg_word base dst src1 src2 =
    join
      (sf_bit dst.size ∷ base ∷ shl32 (reg_num src2) 16 ∷ shl32 (reg_num src1) 5 ∷ reg_num dst ∷ [])

abbrev pub add_word : ℕ → ℕ → Reg → Reg → Operand → Outcome Encoding
add_word imm_base reg_base dst src (Operand.imm imm) =
    done (word (add_imm_word imm_base dst src imm))
add_word imm_base reg_base dst src rhs =
    as_reg rhs >>= (λ src2. done (word (three_reg_word reg_base dst src src2)))

-- `AARCH64_OPC_ADD` and `AARCH64_OPC_SUB`
unfoldable pub encode_add : ℕ → ℕ → Instruction → Outcome Encoding
unfolding add_imm_word three_reg_word
encode_add imm_base reg_base inst =
    reg_at inst 0
    >>= (λ dst. reg_at inst 1 >>= (λ src. op_at inst 2 >>= add_word imm_base reg_base dst src))

abbrev pub cmp_word : Reg → Operand → Outcome Encoding
cmp_word lhs (Operand.imm imm) = done (
    word (
      join
        (sf_bit lhs.size ∷ 0x71000000 ∷ shl32 (imm % 2 ^ 12) 10 ∷ shl32 (reg_num lhs) 5 ∷ 31 ∷ [])))
cmp_word lhs rhs = as_reg rhs >>= (λ src. done (
    word (
      join
        (sf_bit lhs.size ∷ 0x6B000000 ∷ shl32 (reg_num src) 16 ∷ shl32 (reg_num lhs) 5 ∷ 31 ∷ []))))

-- `AARCH64_OPC_CMP`
unfoldable pub encode_cmp : Instruction → Outcome Encoding
unfolding reg_num sf_bit
encode_cmp inst = reg_at inst 0 >>= (λ lhs. op_at inst 1 >>= cmp_word lhs)

-- `AARCH64_OPC_SDIV`, `AARCH64_OPC_UDIV`, `AARCH64_OPC_AND`, `AARCH64_OPC_ORR` and `AARCH64_OPC_EOR`
unfoldable pub encode_three_reg : ℕ → Instruction → Outcome Encoding
unfolding three_reg_word
encode_three_reg base inst = reg_at inst 0 >>= (λ dst.
    reg_at inst 1
    >>= (λ src1. reg_at inst 2 >>= (λ src2. done (word (three_reg_word base dst src1 src2)))))

-- `AARCH64_OPC_MUL`
unfoldable pub encode_mul : Instruction → Outcome Encoding
unfolding reg_num sf_bit
encode_mul inst = reg_at inst 0 >>= (λ dst. reg_at inst 1 >>= (λ src1. reg_at inst 2 >>= (λ src2.
    done (
      word (
        join (
          sf_bit dst.size
          ∷ 0x1B007C00
          ∷ shl32 (reg_num src2) 16
          ∷ shl32 31 10
          ∷ shl32 (reg_num src1) 5
          ∷ reg_num dst
          ∷ []))))))

-- `AARCH64_OPC_MSUB`
unfoldable pub encode_msub : Instruction → Outcome Encoding
unfolding reg_num sf_bit
encode_msub inst = reg_at inst 0 >>= (λ dst. reg_at inst 1 >>= (λ src1. reg_at inst 2 >>= (λ src2.
    reg_at inst 3 >>= (λ src3. done (
      word (
        join (
          sf_bit dst.size
          ∷ 0x1B008000
          ∷ shl32 (reg_num src2) 16
          ∷ shl32 (reg_num src3) 10
          ∷ shl32 (reg_num src1) 5
          ∷ reg_num dst
          ∷ [])))))))

-- `AARCH64_OPC_MVN`
unfoldable pub encode_mvn : Instruction → Outcome Encoding
unfolding reg_num sf_bit
encode_mvn inst = reg_at inst 0 >>= (λ dst. reg_at inst 1 >>= (λ src. done (
    word (
      join
        (sf_bit dst.size ∷ 0x2A200000 ∷ shl32 (reg_num src) 16 ∷ shl32 31 5 ∷ reg_num dst ∷ [])))))

-- The shifts by a register or an immediate: the base of the register form, the base of the
-- immediate form for 8 bytes and for less, and whether it is `LSL`.
unfoldable pub encode_shift : ℕ → ℕ → ℕ → Bool → Instruction → Outcome Encoding
unfolding reg_num sf_bit three_reg_word
encode_shift reg_base wide_base base is_left inst = reg_at inst 0 >>= (λ dst.
    reg_at inst 1 >>= (λ src1.
      let wide = dst.size == 8 in
      let shift = inst.shift % (if wide then 64 else 32) in
      let immr = if is_left then (if wide then 64 else 32) - shift else shift in
      let imms = (if wide then 63 else 31) - (if is_left then shift else 0) in
      let by_imm = word (
        join (
          sf_bit dst.size
          ∷ (if wide then wide_base else base)
          ∷ shl32 (immr % 2 ^ 6) 16
          ∷ shl32 (imms % 2 ^ 6) 10
          ∷ shl32 (reg_num src1) 5
          ∷ reg_num dst
          ∷ [])) in
      if leb 3 inst.op_count
      then (op_at inst 2 >>= (λ rhs. done (elim rhs [
        | Operand.reg src2 ↦ word (three_reg_word reg_base dst src1 src2)
        | _ ↦ by_imm
      ])))
      else done by_imm))

-- `invert_cond`, by the numbers of the conditions.
unfoldable pub invert_cond : ℕ → ℕ
invert_cond cond =
    if cond == 1
    then 2
    else if cond == 2
    then 1
    else if cond == 3
    then 6
    else if cond == 4
    then 5
    else if cond == 5
    then 4
    else if cond == 6
    then 3
    else if cond == 7
    then 10
    else if cond == 8
    then 9
    else if cond == 9
    then 8
    else if cond == 10
    then 7
    else 1

-- `AARCH64_OPC_CSET`
unfoldable pub encode_cset : Instruction → Outcome Encoding
unfolding reg_num sf_bit invert_cond
encode_cset inst = reg_at inst 0 >>= (λ dst. done (
    word (
      join (
        sf_bit dst.size
        ∷ 0x1A800000
        ∷ shl32 31 16
        ∷ shl32 31 5
        ∷ reg_num dst
        ∷ shl32 (invert_cond inst.cond % 2 ^ 4) 12
        ∷ shl32 1 10
        ∷ []))))
