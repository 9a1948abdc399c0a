-- ===== src/Opt/Fold.antt =====
-- src/opt/const_fold.c: constant folding of integer operations. Operands and results are
-- `int64_t` bit patterns. Where the C expression has no defined value (a signed sum, difference,
-- product, quotient or remainder that no int64_t holds) the result is `undefined`.
pub mod Words
pub mod Agrees
pub mod Bitwise
pub mod Rotate
pub mod Compare
pub mod Defined
pub mod Correct
pub mod Unary
use nybit.Base.{
  ℕ, ◌-◌, ◌/◌, ◌%◌, ◌^◌, Bool, true, false, ◌&&◌, leb, ltb, ◌==◌, not, if◌then◌else◌, bit_and,
  bit_or, bit_xor,
}
use nybit.Base.Int.{ℤ, pos, ◌+ℤ◌, ◌-ℤ◌, ◌*ℤ◌, tdiv, tmod, ltb_ℤ}
use nybit.Word.{signed64, word_of, fits64, shl64, shr64, sar64, not64}
use nybit.Opt.Common.{mask_to_width, sign_extend_width}
use nybit.Ir.Opcode.{Opcode}

-- `folded v` is `true` with `*out_val = v`, and `declined` is `false`.
pub data Fold : Type 0 where
  folded : ℕ → Fold
  declined undefined : Fold

-- A signed result, extended from the width.
unfoldable pub extend_signed : ℕ → ℤ → Fold
extend_signed width z = if fits64 z then folded (sign_extend_width (word_of z) width) else undefined

-- `ny_fold_int_unary`
unfoldable pub fold_int_unary : Opcode → ℕ → ℕ → Fold
unfolding extend_signed
fold_int_unary Opcode.neg a width = extend_signed width (pos 0 -ℤ signed64 a)
fold_int_unary Opcode.not a width = folded (sign_extend_width (not64 a) width)
fold_int_unary _ a width = declined

-- The arms of `DIV_S` to `REM_U` of `ny_fold_int_binary`.
unfoldable pub fold_div_s : ℕ → ℕ → ℕ → Fold
unfolding extend_signed
fold_div_s a b width =
    if b == 0
    then declined
    else if width == 64 && (a == 2 ^ 63 && b == 2 ^ 64 - 1)
    then declined
    else extend_signed width (tdiv (signed64 a) (signed64 b))

unfoldable pub fold_div_u : ℕ → ℕ → ℕ → Fold
fold_div_u a b width =
    let ub = mask_to_width b width in
    let ua = mask_to_width a width in
    if ub == 0 then declined else folded (sign_extend_width (ua / ub) width)

-- In C `a % b` has no value where `a / b` has none.
unfoldable pub fold_rem_s : ℕ → ℕ → ℕ → Fold
fold_rem_s a b width =
    if b == 0
    then declined
    else if fits64 (tdiv (signed64 a) (signed64 b))
    then folded (sign_extend_width (word_of (tmod (signed64 a) (signed64 b))) width)
    else undefined

unfoldable pub fold_rem_u : ℕ → ℕ → ℕ → Fold
fold_rem_u a b width =
    let ub = mask_to_width b width in
    let ua = mask_to_width a width in
    if ub == 0 then declined else folded (sign_extend_width (ua % ub) width)

-- `(uint32_t)b % width`
abbrev pub shift_amount : ℕ → ℕ → ℕ
shift_amount b width = b % 2 ^ 32 % width

-- The arms of `SHL` to `ROTR` of `ny_fold_int_binary`.
unfoldable pub fold_shl : ℕ → ℕ → ℕ → ℕ
fold_shl a b width = sign_extend_width (shl64 a (shift_amount b width)) width

unfoldable pub fold_shr : ℕ → ℕ → ℕ → ℕ
fold_shr a b width = sign_extend_width (shr64 (mask_to_width a width) (shift_amount b width)) width

unfoldable pub fold_sar : ℕ → ℕ → ℕ → ℕ
fold_sar a b width =
    sign_extend_width (sar64 (sign_extend_width a width) (shift_amount b width)) width

unfoldable pub fold_rotl : ℕ → ℕ → ℕ → ℕ
fold_rotl a b width =
    let sh = shift_amount b width in
    let ua = mask_to_width a width in
    sign_extend_width (if sh == 0 then ua else bit_or (shl64 ua sh) (shr64 ua (width - sh))) width

unfoldable pub fold_rotr : ℕ → ℕ → ℕ → ℕ
fold_rotr a b width =
    let sh = shift_amount b width in
    let ua = mask_to_width a width in
    sign_extend_width (if sh == 0 then ua else bit_or (shr64 ua sh) (shl64 ua (width - sh))) width

abbrev pub default_width : ℕ → ℕ
default_width width = if width == 0 then 32 else width

-- The `switch` of `ny_fold_int_binary`.
unfoldable pub fold_binary_at : Opcode → ℕ → ℕ → ℕ → Fold
unfolding extend_signed fold_div_s fold_div_u fold_rem_s fold_rem_u fold_shl fold_shr fold_sar
    fold_rotl fold_rotr
fold_binary_at Opcode.add a b width = extend_signed width (signed64 a +ℤ signed64 b)
fold_binary_at Opcode.sub a b width = extend_signed width (signed64 a -ℤ signed64 b)
fold_binary_at Opcode.mul a b width = extend_signed width (signed64 a *ℤ signed64 b)
fold_binary_at Opcode.div_s a b width = fold_div_s a b width
fold_binary_at Opcode.div_u a b width = fold_div_u a b width
fold_binary_at Opcode.rem_s a b width = fold_rem_s a b width
fold_binary_at Opcode.rem_u a b width = fold_rem_u a b width
fold_binary_at Opcode.and a b width = folded (bit_and a b)
fold_binary_at Opcode.or a b width = folded (bit_or a b)
fold_binary_at Opcode.xor a b width = folded (bit_xor a b)
fold_binary_at Opcode.shl a b width = folded (fold_shl a b width)
fold_binary_at Opcode.shr a b width = folded (fold_shr a b width)
fold_binary_at Opcode.sar a b width = folded (fold_sar a b width)
fold_binary_at Opcode.rotl a b width = folded (fold_rotl a b width)
fold_binary_at Opcode.rotr a b width = folded (fold_rotr a b width)
fold_binary_at _ a b width = declined

unfoldable pub fold_int_binary : Opcode → ℕ → ℕ → ℕ → Fold
unfolding fold_binary_at
fold_int_binary op a b width = fold_binary_at op a b (default_width width)

-- `b ? 1 : 0`
abbrev pub flag : Bool → Fold
flag b = if b then folded 1 else folded 0

-- The `switch` of `ny_fold_int_cmp`, on the signed and the unsigned readings of the operands.
unfoldable pub compare_words : Opcode → ℕ → ℕ → ℕ → ℕ → Fold
compare_words Opcode.cmp_eq sa sb ua ub = flag (sa == sb)
compare_words Opcode.cmp_ne sa sb ua ub = flag (not (sa == sb))
compare_words Opcode.cmp_lt_s sa sb ua ub = flag (ltb_ℤ (signed64 sa) (signed64 sb))
compare_words Opcode.cmp_lt_u sa sb ua ub = flag (ltb ua ub)
compare_words Opcode.cmp_le_s sa sb ua ub = flag (not (ltb_ℤ (signed64 sb) (signed64 sa)))
compare_words Opcode.cmp_le_u sa sb ua ub = flag (leb ua ub)
compare_words Opcode.cmp_gt_s sa sb ua ub = flag (ltb_ℤ (signed64 sb) (signed64 sa))
compare_words Opcode.cmp_gt_u sa sb ua ub = flag (ltb ub ua)
compare_words Opcode.cmp_ge_s sa sb ua ub = flag (not (ltb_ℤ (signed64 sa) (signed64 sb)))
compare_words Opcode.cmp_ge_u sa sb ua ub = flag (leb ub ua)
compare_words _ sa sb ua ub = declined

-- `ny_fold_int_cmp`
unfoldable pub fold_int_cmp : Opcode → ℕ → ℕ → ℕ → Fold
unfolding compare_words
fold_int_cmp op a b width0 =
    let width = default_width width0 in
    compare_words op (sign_extend_width a width) (sign_extend_width b width) (mask_to_width a width)
      (mask_to_width b width)
