-- ===== src/Opt/Fold/Correct.antt =====
-- The integer folder of src/opt/const_fold.c against the reference arithmetic of the width.
use nybit.Base.{
  ℕ, ◌+◌, ◌-◌, ◌*◌, ◌/◌, ◌%◌, ◌^◌, ◌≡◌, ◌∙◌, inl, inr, sym, ap, arith, Bool-cases, some, ◌==◌, ◌&&◌,
}
use nybit.Base.Bits.{and_split, or_split, xor_split}
use nybit.Base.Int.{◌+ℤ◌, ◌-ℤ◌, ◌*ℤ◌, tdiv, tmod}
use nybit.Word.{signed64, word_of, fits64, sar64}
use nybit.Ir.Opcode.{Opcode}
use nybit.Opt.Common.{get_type_bit_width}
use nybit.Opt.Widths.{
  IsWidth, IsExtended, mask_to_width_lem, sign_extend_width_idem, get_type_bit_width-IsWidth,
}
use nybit.Opt.Reference.{eval_binary}
use nybit.Opt.Fold.{
  folded, extend_signed, fold_div_s, fold_div_u, fold_rem_s, fold_rem_u, fold_shl, fold_shr,
  fold_sar, fold_binary_at, fold_int_binary,
}
use nybit.Opt.Fold.Words.{
  word_of-IsWord, add_word, sub_word, mul_word, mod-mod_width, add-mod_width, sub-mod_width,
  mul-mod_width, mul-mod_lem,
}
use nybit.Opt.Fold.Agrees.{
  Agrees, extended_Agrees, extend_signed-Agrees, signed_low, wrap_word, low_zero, shift_amount_low,
  default_width_lem, small-Agrees, sar-IsWord, sar_low,
}
use nybit.Opt.Fold.Bitwise.{bit_and-IsExtended, bit_or-IsExtended, bit_xor-IsExtended}
use nybit.Opt.Fold.Rotate.{rotl-Agrees, rotr-Agrees}
use native.Mathlib.Nat.{div-le_self, mod-le}

module _ {w : ℕ} (hw : IsWidth w) (a b : ℕ) (ha : IsExtended w a) (hb : IsExtended w b) where
  add-Agrees :
      Agrees w (extend_signed w (signed64 a +ℤ signed64 b)) (some ((a % 2 ^ w + b % 2 ^ w) % 2 ^ w))
  add-Agrees =
      extend_signed-Agrees hw (signed64 a +ℤ signed64 b)
        (rw (add_word a b ha.word hb.word) (mod-mod_width hw (a + b) ∙ add-mod_width hw a b))

  pub sub-Agrees :
      Agrees w
        (extend_signed w (signed64 a -ℤ signed64 b))
        (some ((a % 2 ^ w + 2 ^ w - b % 2 ^ w) % 2 ^ w))
  sub-Agrees = extend_signed-Agrees hw (signed64 a -ℤ signed64 b) (
      rw (sub_word a b ha.word hb.word)
        (mod-mod_width hw (a + 2 ^ 64 - b) ∙ sub-mod_width hw a b hb.word))

  mul-Agrees :
      Agrees w (extend_signed w (signed64 a *ℤ signed64 b)) (some (a % 2 ^ w * (b % 2 ^ w) % 2 ^ w))
  mul-Agrees =
      extend_signed-Agrees hw (signed64 a *ℤ signed64 b)
        (rw (mul_word a b ha.word hb.word) (mod-mod_width hw (a * b) ∙ mul-mod_width hw a b))

  div_s-Agrees : Agrees w (fold_div_s a b w) (eval_binary w Opcode.div_s (a % 2 ^ w) (b % 2 ^ w))
  unfolding fold_div_s eval_binary
  div_s-Agrees =
      rw (signed_low hw a ha, signed_low hw b hb, low_zero hw b hb)
        (elim (Bool-cases (b == 0)) [
          | inl zero ↦ rw (zero, fold_div_s) tt
          | inr nonzero ↦ elim (Bool-cases (w == 64 && (a == 2 ^ 63 && b == 2 ^ 64 - 1))) [
            | inl traps ↦ rw (nonzero, traps, fold_div_s) tt
            | inr fine ↦
                rw (nonzero, fine, fold_div_s)
                  (extend_signed-Agrees hw (tdiv (signed64 a) (signed64 b)) (wrap_word hw _))
          ]
        ])

  div_u-Agrees : Agrees w (fold_div_u a b w) (eval_binary w Opcode.div_u (a % 2 ^ w) (b % 2 ^ w))
  unfolding fold_div_u eval_binary
  div_u-Agrees =
      rw (mask_to_width_lem a hw ha.word, mask_to_width_lem b hw hb.word)
        (elim (Bool-cases (b % 2 ^ w == 0)) [
          | inl zero ↦ rw zero tt
          | inr nonzero ↦
              rw nonzero
                (small-Agrees hw a (a % 2 ^ w / (b % 2 ^ w)) (div-le_self (a % 2 ^ w) (b % 2 ^ w)))
        ])

  rem_s-Agrees : Agrees w (fold_rem_s a b w) (eval_binary w Opcode.rem_s (a % 2 ^ w) (b % 2 ^ w))
  unfolding fold_rem_s eval_binary
  rem_s-Agrees =
      rw (signed_low hw a ha, signed_low hw b hb, low_zero hw b hb)
        (elim (Bool-cases (b == 0)) [
          | inl zero ↦ rw zero tt
          | inr nonzero ↦ elim (Bool-cases (fits64 (tdiv (signed64 a) (signed64 b)))) [
            | inl fits ↦
                rw (nonzero, fits)
                  (extended_Agrees hw (word_of (tmod (signed64 a) (signed64 b))) (word_of-IsWord _)
                    (wrap_word hw _))
            | inr traps ↦ rw (nonzero, traps) tt
          ]
        ])

  rem_u-Agrees : Agrees w (fold_rem_u a b w) (eval_binary w Opcode.rem_u (a % 2 ^ w) (b % 2 ^ w))
  unfolding fold_rem_u eval_binary
  rem_u-Agrees =
      rw (mask_to_width_lem a hw ha.word, mask_to_width_lem b hw hb.word)
        (elim (Bool-cases (b % 2 ^ w == 0)) [
          | inl zero ↦ rw zero tt
          | inr nonzero ↦
              rw nonzero
                (small-Agrees hw a (a % 2 ^ w % (b % 2 ^ w)) (mod-le (a % 2 ^ w) (b % 2 ^ w)))
        ])

  shl-Agrees : Agrees w (folded (fold_shl a b w)) (eval_binary w Opcode.shl (a % 2 ^ w) (b % 2 ^ w))
  unfolding fold_shl eval_binary
  shl-Agrees = rw (shift_amount_low hw b) (
      extended_Agrees hw _ (omega arith)
        (mod-mod_width hw _ ∙ sym (mul-mod_lem a (2 ^ (b % 2 ^ w % w)) (2 ^ w))))

  shr-Agrees : Agrees w (folded (fold_shr a b w)) (eval_binary w Opcode.shr (a % 2 ^ w) (b % 2 ^ w))
  unfolding fold_shr eval_binary
  shr-Agrees =
      rw (shift_amount_low hw b, mask_to_width_lem a hw ha.word)
        (small-Agrees hw a _ (div-le_self (a % 2 ^ w) (2 ^ (b % 2 ^ w % w))))

  sar-Agrees : Agrees w (folded (fold_sar a b w)) (eval_binary w Opcode.sar (a % 2 ^ w) (b % 2 ^ w))
  unfolding fold_sar eval_binary
  sar-Agrees =
      let k = b % 2 ^ w % w in
      rw (shift_amount_low hw b, sign_extend_width_idem a hw ha)
        (extended_Agrees hw (sar64 a k) (sar-IsWord hw a k ha) (sar_low hw a k ha))

  fold_binary_at-Agrees :
      (op : Opcode) → Agrees w (fold_binary_at op a b w) (eval_binary w op (a % 2 ^ w) (b % 2 ^ w))
  unfolding fold_binary_at eval_binary
  fold_binary_at-Agrees Opcode.add = add-Agrees
  fold_binary_at-Agrees Opcode.sub = sub-Agrees
  fold_binary_at-Agrees Opcode.mul = mul-Agrees
  fold_binary_at-Agrees Opcode.div_s = div_s-Agrees
  fold_binary_at-Agrees Opcode.div_u = div_u-Agrees
  fold_binary_at-Agrees Opcode.rem_s = rem_s-Agrees
  fold_binary_at-Agrees Opcode.rem_u = rem_u-Agrees
  fold_binary_at-Agrees Opcode.and =
      (bit_and-IsExtended hw ha hb, ap some (sym (and_split w a b).1))
  fold_binary_at-Agrees Opcode.or = (bit_or-IsExtended hw ha hb, ap some (sym (or_split w a b).1))
  fold_binary_at-Agrees Opcode.xor =
      (bit_xor-IsExtended hw ha hb, ap some (sym (xor_split w a b).1))
  fold_binary_at-Agrees Opcode.shl = shl-Agrees
  fold_binary_at-Agrees Opcode.shr = shr-Agrees
  fold_binary_at-Agrees Opcode.sar = sar-Agrees
  fold_binary_at-Agrees Opcode.rotl = rotl-Agrees hw a b ha
  fold_binary_at-Agrees Opcode.rotr = rotr-Agrees hw a b ha
  fold_binary_at-Agrees _ = tt

  pub fold_int_binary-Agrees :
      (op : Opcode) → Agrees w (fold_int_binary op a b w) (eval_binary w op (a % 2 ^ w) (b % 2 ^ w))
  unfolding fold_int_binary
  fold_int_binary-Agrees op = rw (default_width_lem hw) (fold_binary_at-Agrees op)

-- At the width of any type and on operands extended from that width, a value that
-- `fold_int_binary` returns is extended from the width, and its low bits are the value of the
-- instruction in the reference arithmetic.
pub fold_int_binary-eval_binary :
    (t : ℕ) (op : Opcode) (a b : ℕ) {r : ℕ}
    → IsExtended (get_type_bit_width t) a
    → IsExtended (get_type_bit_width t) b
    → fold_int_binary op a b (get_type_bit_width t) ≡ folded r
    → IsExtended (get_type_bit_width t) r
      × (eval_binary
            (get_type_bit_width t)
            op
            (a % 2 ^ get_type_bit_width t)
            (b % 2 ^ get_type_bit_width t)
          ≡ some (r % 2 ^ get_type_bit_width t))
fold_int_binary-eval_binary t op a b ha hb e =
    rw e at (fold_int_binary-Agrees (get_type_bit_width-IsWidth t) a b ha hb op)
