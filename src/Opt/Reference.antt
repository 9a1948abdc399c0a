-- ===== src/Opt/Reference.antt =====
-- What the integer instructions mean at a width: arithmetic on the patterns below 2 ^ w, written
-- without 64-bit words. The results of the folder are compared with it.
use nybit.Base.{
  ℕ, ◌+◌, ◌-◌, ◌*◌, ◌/◌, ◌%◌, ◌^◌, Bool, Option, none, some, leb, ltb, ◌==◌, not, if◌then◌else◌,
  bit_and, bit_or, bit_xor,
}
use nybit.Base.Int.{ℤ, pos, negsuc, tdiv, tmod, ltb_ℤ}
use nybit.Ir.Opcode.{Opcode}

-- The integer that the `w`-bit pattern `x` stands for.
abbrev pub signed : ℕ → ℕ → ℤ
signed w x = if ltb x (2 ^ (w - 1)) then pos x else negsuc (2 ^ w - 1 - x)

-- The `w`-bit pattern of an integer.
abbrev pub wrap : ℕ → ℤ → ℕ
wrap w (pos n) = n % 2 ^ w
wrap w (negsuc n) = 2 ^ w - 1 - n % 2 ^ w

-- `x` moved down by `k` places under copies of its sign bit.
abbrev pub shift_signed : ℕ → ℕ → ℕ → ℕ
shift_signed w x k = if ltb x (2 ^ (w - 1)) then x / 2 ^ k else 2 ^ w - 1 - (2 ^ w - 1 - x) / 2 ^ k

-- `none` is an opcode that is no unary integer operation.
unfoldable pub eval_unary : ℕ → Opcode → ℕ → Option ℕ
eval_unary w Opcode.neg x = some ((2 ^ w - x) % 2 ^ w)
eval_unary w Opcode.not x = some (2 ^ w - 1 - x)
eval_unary w _ x = none

-- `none` is a division by zero or an opcode that is no binary integer operation.
unfoldable pub eval_binary : ℕ → Opcode → ℕ → ℕ → Option ℕ
eval_binary w Opcode.add x y = some ((x + y) % 2 ^ w)
eval_binary w Opcode.sub x y = some ((x + 2 ^ w - y) % 2 ^ w)
eval_binary w Opcode.mul x y = some (x * y % 2 ^ w)
eval_binary w Opcode.div_s x y =
    if y == 0 then none else some (wrap w (tdiv (signed w x) (signed w y)))
eval_binary w Opcode.div_u x y = if y == 0 then none else some (x / y)
eval_binary w Opcode.rem_s x y =
    if y == 0 then none else some (wrap w (tmod (signed w x) (signed w y)))
eval_binary w Opcode.rem_u x y = if y == 0 then none else some (x % y)
eval_binary w Opcode.and x y = some (bit_and x y)
eval_binary w Opcode.or x y = some (bit_or x y)
eval_binary w Opcode.xor x y = some (bit_xor x y)
eval_binary w Opcode.shl x y = some (x * 2 ^ (y % w) % 2 ^ w)
eval_binary w Opcode.shr x y = some (x / 2 ^ (y % w))
eval_binary w Opcode.sar x y = some (shift_signed w x (y % w))
eval_binary w Opcode.rotl x y = some (x * 2 ^ (y % w) % 2 ^ w + x / 2 ^ (w - y % w))
eval_binary w Opcode.rotr x y = some (x / 2 ^ (y % w) + x * 2 ^ (w - y % w) % 2 ^ w)
eval_binary w _ x y = none

-- A comparison of two `w`-bit patterns, signed or unsigned.
unfoldable pub eval_compare : ℕ → Opcode → ℕ → ℕ → Option Bool
eval_compare w Opcode.cmp_eq x y = some (x == y)
eval_compare w Opcode.cmp_ne x y = some (not (x == y))
eval_compare w Opcode.cmp_lt_s x y = some (ltb_ℤ (signed w x) (signed w y))
eval_compare w Opcode.cmp_lt_u x y = some (ltb x y)
eval_compare w Opcode.cmp_le_s x y = some (not (ltb_ℤ (signed w y) (signed w x)))
eval_compare w Opcode.cmp_le_u x y = some (leb x y)
eval_compare w Opcode.cmp_gt_s x y = some (ltb_ℤ (signed w y) (signed w x))
eval_compare w Opcode.cmp_gt_u x y = some (ltb y x)
eval_compare w Opcode.cmp_ge_s x y = some (not (ltb_ℤ (signed w x) (signed w y)))
eval_compare w Opcode.cmp_ge_u x y = some (leb y x)
eval_compare w _ x y = none
