-- ===== src/Opt/Fold/Compare.antt =====
-- `ny_fold_int_cmp` of src/opt/const_fold.c against the reference comparison of the width.
use nybit.Base.{ℕ, ◌%◌, ◌^◌, ◌≡◌, refl, arith, Bool, Option, none, some, ◌==◌}
use nybit.Word.{IsWord}
use nybit.Ir.Opcode.{Opcode}
use nybit.Opt.Common.{get_type_bit_width, sign_extend_width}
use nybit.Opt.Widths.{
  IsWidth, w8, w16, w32, w64, IsExtended, mask_to_width_lem, sign_extend_width_low,
  sign_extend_width-IsExtended, get_type_bit_width-IsWidth,
}
use nybit.Opt.Reference.{eval_compare}
use nybit.Opt.Fold.{Fold, declined, flag, compare_words, fold_int_cmp}
use nybit.Opt.Fold.Agrees.{signed_low, default_width_lem}

-- What the folder answers for the verdict of the reference.
abbrev pub verdict : Option Bool → Fold
verdict none = declined
verdict (some b) = flag b

module _ {w : ℕ} (hw : IsWidth w) where
  low_eq : (x y : ℕ) → IsExtended w x → IsExtended w y → (x == y) ≡ (x % 2 ^ w == y % 2 ^ w)
  low_eq x y hx hy = elim hw [
    | w8 e ↦
        let hx' : IsExtended 8 x = rw e at hx in
        let hy' : IsExtended 8 y = rw e at hy in rw e (ground arith)
    | w16 e ↦
        let hx' : IsExtended 16 x = rw e at hx in
        let hy' : IsExtended 16 y = rw e at hy in rw e (ground arith)
    | w32 e ↦
        let hx' : IsExtended 32 x = rw e at hx in
        let hy' : IsExtended 32 y = rw e at hy in rw e (ground arith)
    | w64 e ↦
        let hx' : IsExtended 64 x = rw e at hx in
        let hy' : IsExtended 64 y = rw e at hy in rw e (ground arith)
  ]

  compare_words_lem :
      (op : Opcode) (x y : ℕ)
      → IsExtended w x
      → IsExtended w y
      → compare_words op x y (x % 2 ^ w) (y % 2 ^ w)
        ≡ verdict (eval_compare w op (x % 2 ^ w) (y % 2 ^ w))
  unfolding compare_words eval_compare
  compare_words_lem Opcode.cmp_eq x y hx hy = rw (low_eq x y hx hy)
  compare_words_lem Opcode.cmp_ne x y hx hy = rw (low_eq x y hx hy)
  compare_words_lem Opcode.cmp_lt_s x y hx hy = rw (signed_low hw x hx, signed_low hw y hy)
  compare_words_lem Opcode.cmp_le_s x y hx hy = rw (signed_low hw x hx, signed_low hw y hy)
  compare_words_lem Opcode.cmp_gt_s x y hx hy = rw (signed_low hw x hx, signed_low hw y hy)
  compare_words_lem Opcode.cmp_ge_s x y hx hy = rw (signed_low hw x hx, signed_low hw y hy)
  compare_words_lem _ x y hx hy = refl

  pub fold_int_cmp_lem :
      (op : Opcode) (a b : ℕ)
      → IsWord a
      → IsWord b
      → fold_int_cmp op a b w ≡ verdict (eval_compare w op (a % 2 ^ w) (b % 2 ^ w))
  unfolding fold_int_cmp
  fold_int_cmp_lem op a b ha hb =
      let low_a = sign_extend_width_low a hw ha in
      let low_b = sign_extend_width_low b hw hb in
      rw
        (
          default_width_lem hw,
          mask_to_width_lem a hw ha,
          mask_to_width_lem b hw hb,
          ← low_a,
          ← low_b,
        )
        (compare_words_lem op (sign_extend_width a w) (sign_extend_width b w)
          (sign_extend_width-IsExtended a hw ha) (sign_extend_width-IsExtended b hw hb))

-- At the width of any type and on any two words, `fold_int_cmp` folds exactly the ten integer
-- comparisons, each to 1 where the reference comparison of the low bits holds and to 0 where it
-- does not, and declines every other opcode.
pub fold_int_cmp-eval_compare :
    (t : ℕ) (op : Opcode) (a b : ℕ)
    → IsWord a
    → IsWord b
    → fold_int_cmp op a b (get_type_bit_width t)
      ≡ verdict (
          eval_compare
            (get_type_bit_width t)
            op
            (a % 2 ^ get_type_bit_width t)
            (b % 2 ^ get_type_bit_width t))
fold_int_cmp-eval_compare t op a b = fold_int_cmp_lem (get_type_bit_width-IsWidth t) op a b
