-- ===== src/Opt/Fold/Defined.antt =====
-- Where the folder of src/opt/const_fold.c has a value at all: below 64 bits always, and at 64
-- bits unless the signed C expression overflows.
use nybit.Base.{
  ℕ, ◌*◌, ◌%◌, ◌^◌, ◌≤◌, ◌<◌, ◌≡◌, inl, inr, refl, arith, Bool-cases, true, false, some, ◌==◌,
}
use nybit.Base.Int.{ℤ, nat_abs, ◌+ℤ◌, ◌-ℤ◌, ◌*ℤ◌, tdiv}
use nybit.Word.{signed64, word_of, fits64}
use nybit.Ir.Opcode.{Opcode}
use nybit.Opt.Common.{get_type_bit_width, sign_extend_width}
use nybit.Opt.Widths.{
  IsWidth, w8, w16, w32, w64, IsExtended, mask_to_width_lem, get_type_bit_width-IsWidth,
}
use nybit.Opt.Reference.{eval_binary}
use nybit.Opt.Fold.{Fold, folded, extend_signed, fold_binary_at, fold_int_binary}
use nybit.Opt.Fold.Agrees.{low_zero, default_width_lem}
use native.Mathlib.Nat.{div-le_self}

-- A pattern of at most 32 bits.
module _ (a b : ℕ) (ha : IsExtended 32 a) (hb : IsExtended 32 b) where
  fits_add : fits64 (signed64 a +ℤ signed64 b) ≡ true
  unfolding ◌+ℤ◌
  fits_add = ground arith

  fits_sub : fits64 (signed64 a -ℤ signed64 b) ≡ true
  unfolding ◌-ℤ◌
  fits_sub = ground arith

  small_abs : nat_abs (signed64 a) ≤ 2 ^ 31
  small_abs = ground arith

  fits_tdiv : fits64 (tdiv (signed64 a) (signed64 b)) ≡ true
  unfolding tdiv
  fits_tdiv = ground (arith, div-le_self (nat_abs (signed64 a)) (nat_abs (signed64 b)))

product_small : (x y : ℕ) → x ≤ 2 ^ 31 → y ≤ 2 ^ 31 → x * y ≤ 2 ^ 62
product_small x y hx hy = grind arith

fits_mul : (a b : ℕ) → IsExtended 32 a → IsExtended 32 b → fits64 (signed64 a *ℤ signed64 b) ≡ true
unfolding ◌*ℤ◌
fits_mul a b ha hb = ground (
  arith,
  product_small (nat_abs (signed64 a)) (nat_abs (signed64 b)) (small_abs a b ha hb)
      (small_abs b a hb ha),
)

narrow : {w x : ℕ} → IsWidth w → w < 64 → IsExtended w x → IsExtended 32 x
narrow {x} (w8 e) n h = let h' : IsExtended 8 x = rw e at h in omega arith
narrow {x} (w16 e) n h = let h' : IsExtended 16 x = rw e at h in omega arith
narrow {x} (w32 e) n h = rw e at h
narrow (w64 e) n h = absurd (omega arith)

abbrev Folds : Fold → Type 0
Folds f = (r : ℕ) × (f ≡ folded r)

module _ {w : ℕ} (hw : IsWidth w) (n : w < 64) (a b : ℕ) (ha : IsExtended w a)
    (hb : IsExtended w b) where
  not_64 : (w == 64) ≡ false
  not_64 = ground arith

  extend_signed-Folds : (z : ℤ) → fits64 z ≡ true → Folds (extend_signed w z)
  unfolding extend_signed
  extend_signed-Folds z e = (sign_extend_width (word_of z) w, rw e)

  binary-Folds :
      (op : Opcode) {v : ℕ}
      → eval_binary w op (a % 2 ^ w) (b % 2 ^ w) ≡ some v
      → Folds (fold_binary_at op a b w)
  unfolding fold_binary_at eval_binary
  binary-Folds Opcode.add e =
      extend_signed-Folds (signed64 a +ℤ signed64 b)
        (fits_add a b (narrow hw n ha) (narrow hw n hb))
  binary-Folds Opcode.sub e =
      extend_signed-Folds (signed64 a -ℤ signed64 b)
        (fits_sub a b (narrow hw n ha) (narrow hw n hb))
  binary-Folds Opcode.mul e =
      extend_signed-Folds (signed64 a *ℤ signed64 b)
        (fits_mul a b (narrow hw n ha) (narrow hw n hb))
  binary-Folds Opcode.div_s e = elim (Bool-cases (b == 0)) [
    | inl z ↦ cc (rw (low_zero hw b hb, z) at e)
    | inr nz ↦
        rw (nz, not_64)
          (extend_signed-Folds (tdiv (signed64 a) (signed64 b))
            (fits_tdiv a b (narrow hw n ha) (narrow hw n hb)))
  ]
  binary-Folds Opcode.div_u e = elim (Bool-cases (b % 2 ^ w == 0)) [
    | inl z ↦ cc (rw z at e)
    | inr nz ↦ rw (mask_to_width_lem b hw hb.word, nz) (_, refl)
  ]
  binary-Folds Opcode.rem_s e = elim (Bool-cases (b == 0)) [
    | inl z ↦ cc (rw (low_zero hw b hb, z) at e)
    | inr nz ↦ rw (nz, fits_tdiv a b (narrow hw n ha) (narrow hw n hb)) (_, refl)
  ]
  binary-Folds Opcode.rem_u e = elim (Bool-cases (b % 2 ^ w == 0)) [
    | inl z ↦ cc (rw z at e)
    | inr nz ↦ rw (mask_to_width_lem b hw hb.word, nz) (_, refl)
  ]
  binary-Folds Opcode.and e = (_, refl)
  binary-Folds Opcode.or e = (_, refl)
  binary-Folds Opcode.xor e = (_, refl)
  binary-Folds Opcode.shl e = (_, refl)
  binary-Folds Opcode.shr e = (_, refl)
  binary-Folds Opcode.sar e = (_, refl)
  binary-Folds Opcode.rotl e = (_, refl)
  binary-Folds Opcode.rotr e = (_, refl)
  binary-Folds _ e = cc

-- Below 64 bits, on operands extended from the width, `fold_int_binary` folds every integer
-- operation that has a value in the reference arithmetic.
pub fold_int_binary-total :
    (t : ℕ) (op : Opcode) (a b : ℕ) {v : ℕ}
    → get_type_bit_width t < 64
    → IsExtended (get_type_bit_width t) a
    → IsExtended (get_type_bit_width t) b
    → eval_binary
        (get_type_bit_width t)
        op
        (a % 2 ^ get_type_bit_width t)
        (b % 2 ^ get_type_bit_width t)
      ≡ some v
    → (r : ℕ) × (fold_int_binary op a b (get_type_bit_width t) ≡ folded r)
unfolding fold_int_binary
fold_int_binary-total t op a b n ha hb e =
    let hw = get_type_bit_width-IsWidth t in
    rw (default_width_lem hw) (binary-Folds hw n a b ha hb op e)
