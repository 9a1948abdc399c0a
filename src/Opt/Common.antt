-- ===== src/Opt/Common.antt =====
-- src/opt/common.c: the widths of types, and masks and sign extension at a width.
use nybit.Base.{ℕ, ◌-◌, ◌^◌, Bool, true, false, leb, ◌==◌, if◌then◌else◌, bit_and}
use nybit.Word.{shl64, sar64}
use nybit.Ir.Opcode.{Opcode}
use nybit.Ir.TypeId

-- `ny_opt_get_type_bit_width`. Every other type id has width 32.
unfoldable pub get_type_bit_width : ℕ → ℕ
get_type_bit_width type_id =
    if type_id == TypeId.i8
    then 8
    else if type_id == TypeId.i16
    then 16
    else if type_id == TypeId.i32
    then 32
    else if type_id == TypeId.i64
    then 64
    else if type_id == TypeId.ptr
    then 64
    else if type_id == TypeId.f16
    then 16
    else if type_id == TypeId.f32
    then 32
    else if type_id == TypeId.f64
    then 64
    else 32

-- `ny_opt_mask_to_width`
unfoldable pub mask_to_width : ℕ → ℕ → ℕ
mask_to_width val width = if leb 64 width then val else bit_and val (2 ^ width - 1)

-- `ny_opt_sign_extend_width`
unfoldable pub sign_extend_width : ℕ → ℕ → ℕ
sign_extend_width val width =
    if leb 64 width then val else let shift = 64 - width in sar64 (shl64 val shift) shift

-- `ny_opt_is_commutative`
unfoldable pub is_commutative : Opcode → Bool
is_commutative Opcode.add = true
is_commutative Opcode.mul = true
is_commutative Opcode.fadd = true
is_commutative Opcode.fmul = true
is_commutative Opcode.and = true
is_commutative Opcode.or = true
is_commutative Opcode.xor = true
is_commutative Opcode.cmp_eq = true
is_commutative Opcode.cmp_ne = true
is_commutative Opcode.fcmp_eq = true
is_commutative Opcode.fcmp_ne = true
is_commutative _ = false
