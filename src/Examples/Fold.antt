-- ===== src/Examples/Fold.antt =====
-- src/opt/const_fold.c and src/parser/parser.c at concrete inputs.
use nybit.Base.{ℕ, ◌-◌, ◌%◌, ◌^◌, ◌≡◌, refl, arith, some, inl, inr}
use nybit.Ir.TypeId
use nybit.Ir.Opcode.{Opcode, opcode_name}
use nybit.Opt.Common.{get_type_bit_width}
use nybit.Opt.Widths.{IsExtended}
use nybit.Opt.Reference.{eval_unary, eval_binary, eval_compare}
use nybit.Opt.Fold.{fold_int_unary, folded, fold_int_binary, fold_int_cmp}
use nybit.Opt.Fold.Correct.{fold_int_binary-eval_binary}
use nybit.Opt.Fold.Compare.{verdict, fold_int_cmp-eval_compare}
use nybit.Opt.Fold.Unary.{fold_int_unary-eval_unary}
use nybit.Opt.Fold.Defined.{fold_int_binary-total}
use nybit.Parser.Opcodes.{lookup_opcode, lookup_opcode-opcode_name}

-- -100 and 7 as sign-extended bytes.
abbrev minus_100 : ℕ
minus_100 = 2 ^ 64 - 100

minus_100-IsExtended : IsExtended (get_type_bit_width TypeId.i8) minus_100
unfolding get_type_bit_width
minus_100-IsExtended = record { word = omega arith; alike = inr (omega arith) }

seven-IsExtended : IsExtended (get_type_bit_width TypeId.i8) 7
unfolding get_type_bit_width
seven-IsExtended = record { word = omega arith; alike = inl (omega arith) }

quotient :
    fold_int_binary Opcode.div_s minus_100 7 (get_type_bit_width TypeId.i8) ≡ folded (2 ^ 64 - 14)
unfolding fold_int_binary get_type_bit_width nybit.Base.Int.tdiv nybit.Opt.Common.sign_extend_width
quotient = refl

fold_int_binary-eval_binary_example :
    IsExtended (get_type_bit_width TypeId.i8) (2 ^ 64 - 14)
    × (eval_binary
          (get_type_bit_width TypeId.i8)
          Opcode.div_s
          (minus_100 % 2 ^ get_type_bit_width TypeId.i8)
          (7 % 2 ^ get_type_bit_width TypeId.i8)
        ≡ some ((2 ^ 64 - 14) % 2 ^ get_type_bit_width TypeId.i8))
fold_int_binary-eval_binary_example =
    fold_int_binary-eval_binary TypeId.i8 Opcode.div_s minus_100 7 minus_100-IsExtended
      seven-IsExtended quotient

fold_int_cmp-eval_compare_example :
    fold_int_cmp Opcode.cmp_lt_s minus_100 7 (get_type_bit_width TypeId.i8)
    ≡ verdict (
        eval_compare
          (get_type_bit_width TypeId.i8)
          Opcode.cmp_lt_s
          (minus_100 % 2 ^ get_type_bit_width TypeId.i8)
          (7 % 2 ^ get_type_bit_width TypeId.i8))
fold_int_cmp-eval_compare_example =
    fold_int_cmp-eval_compare TypeId.i8 Opcode.cmp_lt_s minus_100 7 (omega arith) (omega arith)

remainder :
    eval_binary
      (get_type_bit_width TypeId.i8)
      Opcode.rem_s
      (minus_100 % 2 ^ get_type_bit_width TypeId.i8)
      (7 % 2 ^ get_type_bit_width TypeId.i8)
    ≡ some 254
unfolding eval_binary get_type_bit_width nybit.Base.Int.tmod
remainder = refl

fold_int_binary-total_example :
    (r : ℕ) × (fold_int_binary Opcode.rem_s minus_100 7 (get_type_bit_width TypeId.i8) ≡ folded r)
unfolding get_type_bit_width
fold_int_binary-total_example =
    fold_int_binary-total TypeId.i8 Opcode.rem_s minus_100 7 (omega arith) minus_100-IsExtended
      seven-IsExtended remainder

lookup_opcode-opcode_name_example : lookup_opcode (opcode_name Opcode.branch_if) ≡ Opcode.branch_if
lookup_opcode-opcode_name_example = lookup_opcode-opcode_name Opcode.branch_if (λ e. absurd cc)

negated : fold_int_unary Opcode.neg minus_100 (get_type_bit_width TypeId.i8) ≡ folded 100
unfolding fold_int_unary get_type_bit_width nybit.Opt.Common.sign_extend_width nybit.Base.Int.◌-ℤ◌
negated = refl

fold_int_unary-eval_unary_example :
    IsExtended (get_type_bit_width TypeId.i8) 100
    × (eval_unary
          (get_type_bit_width TypeId.i8)
          Opcode.neg
          (minus_100 % 2 ^ get_type_bit_width TypeId.i8)
        ≡ some (100 % 2 ^ get_type_bit_width TypeId.i8))
fold_int_unary-eval_unary_example =
    fold_int_unary-eval_unary TypeId.i8 Opcode.neg minus_100 minus_100-IsExtended negated
