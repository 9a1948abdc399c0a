-- ===== src/Opt/Gvn.antt =====
-- src/opt/gvn.c: which instructions may be shared, and the keys by which they are compared.
pub mod Keys
pub mod Pass
use nybit.Base.{
  ℕ, zero, suc, ◌-◌, ◌*◌, ◌%◌, ◌^◌, Bool, true, false, ◌&&◌, ◌||◌, not, Option, none, some, List,
  [], ◌∷◌, length, get_elem?, ltb, leb, ◌==◌, if◌then◌else◌, bit_and,
}
use nybit.Base.Outcome.{Outcome, done, faulted, ◌>>=◌}
use nybit.Ir.TypeId
use nybit.Ir.Opcode.{Opcode}
use nybit.Ir.Opcode.Code.{code}
use nybit.Ir.Function.{Operand, Instruction, Function}
use nybit.Analysis.UseDef.{read_operands}
use nybit.Opt.Common.{is_commutative}

-- `is_gvn_candidate`
unfoldable pub is_gvn_candidate : Opcode → Bool
is_gvn_candidate Opcode.add = true
is_gvn_candidate Opcode.sub = true
is_gvn_candidate Opcode.mul = true
is_gvn_candidate Opcode.div_s = true
is_gvn_candidate Opcode.div_u = true
is_gvn_candidate Opcode.rem_s = true
is_gvn_candidate Opcode.rem_u = true
is_gvn_candidate Opcode.neg = true
is_gvn_candidate Opcode.fadd = true
is_gvn_candidate Opcode.fsub = true
is_gvn_candidate Opcode.fmul = true
is_gvn_candidate Opcode.fdiv = true
is_gvn_candidate Opcode.fneg = true
is_gvn_candidate Opcode.and = true
is_gvn_candidate Opcode.or = true
is_gvn_candidate Opcode.xor = true
is_gvn_candidate Opcode.not = true
is_gvn_candidate Opcode.shl = true
is_gvn_candidate Opcode.shr = true
is_gvn_candidate Opcode.sar = true
is_gvn_candidate Opcode.rotl = true
is_gvn_candidate Opcode.rotr = true
is_gvn_candidate Opcode.cmp_eq = true
is_gvn_candidate Opcode.cmp_ne = true
is_gvn_candidate Opcode.cmp_lt_s = true
is_gvn_candidate Opcode.cmp_lt_u = true
is_gvn_candidate Opcode.cmp_le_s = true
is_gvn_candidate Opcode.cmp_le_u = true
is_gvn_candidate Opcode.cmp_gt_s = true
is_gvn_candidate Opcode.cmp_gt_u = true
is_gvn_candidate Opcode.cmp_ge_s = true
is_gvn_candidate Opcode.cmp_ge_u = true
is_gvn_candidate Opcode.fcmp_eq = true
is_gvn_candidate Opcode.fcmp_ne = true
is_gvn_candidate Opcode.fcmp_lt = true
is_gvn_candidate Opcode.fcmp_le = true
is_gvn_candidate Opcode.fcmp_gt = true
is_gvn_candidate Opcode.fcmp_ge = true
is_gvn_candidate Opcode.select = true
is_gvn_candidate Opcode.cast = true
is_gvn_candidate Opcode.extend = true
is_gvn_candidate Opcode.truncate = true
is_gvn_candidate Opcode.bitcast = true
is_gvn_candidate Opcode.sext = true
is_gvn_candidate Opcode.zext = true
is_gvn_candidate Opcode.fext = true
is_gvn_candidate Opcode.ftrunc = true
is_gvn_candidate Opcode.sitofp = true
is_gvn_candidate Opcode.fptosi = true
is_gvn_candidate _ = false

-- `==` on two doubles, given by their bits: a NaN equals nothing, and the two zeros are equal.
abbrev pub float_equal : ℕ → ℕ → Bool
float_equal a b =
    let nan = λ (x : ℕ). ltb (2047 * 2 ^ 52) (x % 2 ^ 63) in
    let is_zero = λ (x : ℕ). x % 2 ^ 63 == 0 in
    not (nan a) && not (nan b) && (a == b || (is_zero a && is_zero b))

-- `operand_equal`; a global falls through the switch.
unfoldable pub operand_equal : Operand → Operand → Bool
operand_equal Operand.empty Operand.empty = true
operand_equal (Operand.value a) (Operand.value b) = a == b
operand_equal (Operand.block a) (Operand.block b) = a == b
operand_equal (Operand.imm_int a) (Operand.imm_int b) = a == b
operand_equal (Operand.imm_float a) (Operand.imm_float b) = float_equal a b
operand_equal (Operand.function a) (Operand.function b) = a == b
operand_equal (Operand.symbol a) (Operand.symbol b) = a == b
operand_equal (Operand.type_of a) (Operand.type_of b) = a == b
operand_equal _ _ = false

-- `GVN_Key`
pub record Key : Type 0 where
  pub opcode : Opcode
  pub type : ℕ
  pub op_count : ℕ
  pub op0 : Operand
  pub op1 : Operand
  pub op2 : Operand

-- `gvn_key_equal`
unfoldable pub gvn_key_equal : Key → Key → Bool
unfolding operand_equal code
gvn_key_equal a b =
    if not (code a.opcode == code b.opcode)
      || not (a.type == b.type)
      || not (a.op_count == b.op_count)
    then false
    else if ltb 0 a.op_count && not (operand_equal a.op0 b.op0)
    then false
    else if ltb 1 a.op_count && not (operand_equal a.op1 b.op1)
    then false
    else if ltb 2 a.op_count && not (operand_equal a.op2 b.op2)
    then false
    else true

-- An operand of the array, or the zeroed one of the key where the instruction has no more.
abbrev pub operand_or_empty : List Operand → ℕ → Operand
operand_or_empty ops i = elim (get_elem? ops i) [ none ↦ Operand.empty | some op ↦ op ]

-- Whether the two operands of a commutative instruction change places.
abbrev pub swaps : Operand → Operand → Bool
swaps (Operand.value a) (Operand.value b) = ltb b a
swaps op0 (Operand.value b) = true
swaps op0 op1 = false

-- The key of an instruction with these operands.
unfoldable pub key_of : Opcode → ℕ → List Operand → Key
unfolding is_commutative
key_of opcode type ops =
    let op0 = operand_or_empty ops 0 in
    let op1 = operand_or_empty ops 1 in
    let swapped = is_commutative opcode && (length ops == 2 && swaps op0 op1) in
    record {
      opcode = opcode;
      type = type;
      op_count = length ops % 2 ^ 16;
      op0 = if swapped then op1 else op0;
      op1 = if swapped then op0 else op1;
      op2 = operand_or_empty ops 2;
    }

abbrev pub result_type : Function → ℕ → ℕ
result_type fn result = elim (get_elem? fn.values result) [ none ↦ TypeId.void | some v ↦ v.type ]

-- `make_gvn_key`
unfoldable pub make_gvn_key : Function → Instruction → Outcome Key
unfolding read_operands key_of
make_gvn_key fn inst =
    read_operands fn inst >>= (λ ops. done (key_of inst.opcode (result_type fn inst.result) ops))
