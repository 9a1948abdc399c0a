-- ===== src/Opt/Fold/Unary.antt =====
-- The unary operations of src/opt/const_fold.c against the reference arithmetic of the width.
use nybit.Base.{ℕ, ◌+◌, ◌-◌, ◌%◌, ◌^◌, ◌≡◌, sym, ap, arith, some}
use nybit.Base.{inl}
use nybit.Base.Bits.{two_pow_pos}
use nybit.Word.{IsWord, not64}
use nybit.Ir.Opcode.{Opcode}
use nybit.Opt.Common.{get_type_bit_width}
use nybit.Opt.Widths.{IsWidth, w8, w16, w32, w64, IsExtended, get_type_bit_width-IsWidth}
use nybit.Opt.Reference.{eval_unary}
use nybit.Opt.Fold.{folded, fold_int_unary}
use nybit.Opt.Fold.Agrees.{Agrees, extended_Agrees}
use nybit.Opt.Fold.Correct.{sub-Agrees}

not_low : {w : ℕ} (a : ℕ) → IsWidth w → IsWord a → not64 a % 2 ^ w ≡ 2 ^ w - 1 - a % 2 ^ w
not_low a (w8 e) h = rw e (ground arith)
not_low a (w16 e) h = rw e (ground arith)
not_low a (w32 e) h = rw e (ground arith)
not_low a (w64 e) h = rw e (ground arith)

zero_low : {w : ℕ} → IsWidth w → 0 % 2 ^ w + 2 ^ w ≡ 2 ^ w
zero_low (w8 e) = rw e (omega arith)
zero_low (w16 e) = rw e (omega arith)
zero_low (w32 e) = rw e (omega arith)
zero_low (w64 e) = rw e (omega arith)

module _ {w : ℕ} (hw : IsWidth w) (a : ℕ) (ha : IsExtended w a) where
  zero-IsExtended : IsExtended w 0
  zero-IsExtended = record { word = omega arith; alike = inl (two_pow_pos (w - 1)) }

  fold_int_unary-Agrees :
      (op : Opcode) → Agrees w (fold_int_unary op a w) (eval_unary w op (a % 2 ^ w))
  unfolding fold_int_unary eval_unary
  fold_int_unary-Agrees Opcode.neg =
      let e : (0 % 2 ^ w + 2 ^ w - a % 2 ^ w) % 2 ^ w ≡ (2 ^ w - a % 2 ^ w) % 2 ^ w =
        ap (λ t. (t - a % 2 ^ w) % 2 ^ w) (zero_low hw) in
      rw (sym e) (sub-Agrees hw 0 a zero-IsExtended ha)
  fold_int_unary-Agrees Opcode.not =
      extended_Agrees hw (not64 a) (ground arith) (not_low a hw ha.word)
  fold_int_unary-Agrees _ = tt

-- At the width of any type and on an operand extended from that width, a value that
-- `fold_int_unary` returns is extended from the width, and its low bits are the negation or the
-- complement of the operand's at this width.
pub fold_int_unary-eval_unary :
    (t : ℕ) (op : Opcode) (a : ℕ) {r : ℕ}
    → IsExtended (get_type_bit_width t) a
    → fold_int_unary op a (get_type_bit_width t) ≡ folded r
    → IsExtended (get_type_bit_width t) r
      × (eval_unary (get_type_bit_width t) op (a % 2 ^ get_type_bit_width t)
          ≡ some (r % 2 ^ get_type_bit_width t))
fold_int_unary-eval_unary t op a ha e =
    let agrees = fold_int_unary-Agrees (get_type_bit_width-IsWidth t) a ha op in rw e at agrees
