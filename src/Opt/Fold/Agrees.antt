-- ===== src/Opt/Fold/Agrees.antt =====
-- How a value folded by src/opt/const_fold.c agrees with the reference arithmetic of the width.
use nybit.Base.{
  ℕ, ◌-◌, ◌%◌, ◌^◌, ◌≤◌, ◌≡◌, ◌∙◌, inl, inr, sym, ap, arith, Bool-cases, true, false, Option, some,
  ltb, ◌==◌, if◌then◌else◌,
}
use nybit.Base.Int.{ℤ, pos, negsuc}
use nybit.Word.{IsWord, signed64, word_of, fits64, sar64}
use nybit.Opt.Common.{sign_extend_width}
use nybit.Opt.Widths.{
  IsWidth, w8, w16, w32, w64, IsExtended, sign_extend_width_low, sign_extend_width-IsExtended,
}
use nybit.Opt.Reference.{signed, wrap, shift_signed}
use nybit.Opt.Fold.{Fold, folded, declined, undefined, extend_signed, shift_amount, default_width}
use nybit.Opt.Fold.Words.{word_of-IsWord, mod-mod_width}

-- A folded value is the extension of the value that the reference gives.
abbrev pub Agrees : ℕ → Fold → Option ℕ → Type 0
Agrees w (folded r) v = IsExtended w r × (v ≡ some (r % 2 ^ w))
Agrees w declined v = Unit
Agrees w undefined v = Unit

module _ {w : ℕ} (hw : IsWidth w) where
  pub extended_Agrees :
      (x : ℕ) {v : ℕ}
      → IsWord x
      → x % 2 ^ w ≡ v
      → Agrees w (folded (sign_extend_width x w)) (some v)
  extended_Agrees x h e =
      (sign_extend_width-IsExtended x hw h, ap some (sym e ∙ sym (sign_extend_width_low x hw h)))

  pub extend_signed-Agrees :
      (z : ℤ) {v : ℕ} → word_of z % 2 ^ w ≡ v → Agrees w (extend_signed w z) (some v)
  unfolding extend_signed
  extend_signed-Agrees z {v} e =
      elim (fits64 z)
        as (λ b.
          Agrees w (if b then folded (sign_extend_width (word_of z) w) else undefined) (some v)) [
            | true ↦ extended_Agrees (word_of z) (word_of-IsWord z) e
            | false ↦ tt
          ]

  -- The two ways to read an extended pattern, and the two ways to wrap an integer.
  pub signed_low : (x : ℕ) → IsExtended w x → signed w (x % 2 ^ w) ≡ signed64 x
  signed_low x h = elim hw [
    | w8 e ↦ let h' : IsExtended 8 x = rw e at h in rw e (ground arith)
    | w16 e ↦ let h' : IsExtended 16 x = rw e at h in rw e (ground arith)
    | w32 e ↦ let h' : IsExtended 32 x = rw e at h in rw e (ground arith)
    | w64 e ↦ let h' : IsExtended 64 x = rw e at h in rw e (ground arith)
  ]

  pub wrap_word : (z : ℤ) → word_of z % 2 ^ w ≡ wrap w z
  wrap_word (pos n) = mod-mod_width hw n
  wrap_word (negsuc n) = elim hw [
    | w8 e ↦ rw e (omega arith)
    | w16 e ↦ rw e (omega arith)
    | w32 e ↦ rw e (omega arith)
    | w64 e ↦ rw e (omega arith)
  ]

  pub low_zero : (x : ℕ) → IsExtended w x → (x % 2 ^ w == 0) ≡ (x == 0)
  low_zero x h = elim hw [
    | w8 e ↦ let h' : IsExtended 8 x = rw e at h in rw e (ground arith)
    | w16 e ↦ let h' : IsExtended 16 x = rw e at h in rw e (ground arith)
    | w32 e ↦ let h' : IsExtended 32 x = rw e at h in rw e (ground arith)
    | w64 e ↦ let h' : IsExtended 64 x = rw e at h in rw e (ground arith)
  ]

  pub low-IsWord : (x : ℕ) → IsWord (x % 2 ^ w)
  low-IsWord x = elim hw [
    | w8 e ↦ rw e (omega arith)
    | w16 e ↦ rw e (omega arith)
    | w32 e ↦ rw e (omega arith)
    | w64 e ↦ rw e (omega arith)
  ]

  pub shift_amount_low : (x : ℕ) → shift_amount x w ≡ x % 2 ^ w % w
  shift_amount_low x = elim hw [
    | w8 e ↦ rw e (omega arith)
    | w16 e ↦ rw e (omega arith)
    | w32 e ↦ rw e (omega arith)
    | w64 e ↦ rw e (omega arith)
  ]

  -- What is no larger than a pattern of the width is one.
  pub low_small : (x y : ℕ) → y ≤ x % 2 ^ w → IsWord y × (y % 2 ^ w ≡ y)
  low_small x y h = elim hw [
    | w8 e ↦ let h' : y ≤ x % 2 ^ 8 = rw e at h in rw e (omega arith)
    | w16 e ↦ let h' : y ≤ x % 2 ^ 16 = rw e at h in rw e (omega arith)
    | w32 e ↦ let h' : y ≤ x % 2 ^ 32 = rw e at h in rw e (omega arith)
    | w64 e ↦ let h' : y ≤ x % 2 ^ 64 = rw e at h in rw e (omega arith)
  ]

  pub small-Agrees : (x y : ℕ) → y ≤ x % 2 ^ w → Agrees w (folded (sign_extend_width y w)) (some y)
  small-Agrees x y h = let (word, same) = low_small x y h in extended_Agrees y word same

  pub sar-IsWord : (x k : ℕ) → IsExtended w x → IsWord (sar64 x k)
  sar-IsWord x k h = ground arith

  -- The two signs: a small pattern, and one whose complement is small.
  sar_low_pos :
      (x k : ℕ)
      → ltb x (2 ^ 63) ≡ true
      → IsExtended w x
      → sar64 x k % 2 ^ w ≡ shift_signed w (x % 2 ^ w) k
  sar_low_pos x k pos_x h = elim hw [
    | w8 e ↦
        let h' : IsExtended 8 x = rw e at h in
        let low : x % 2 ^ 8 ≡ x = ground arith in rw (e, pos_x, low) (ground arith)
    | w16 e ↦
        let h' : IsExtended 16 x = rw e at h in
        let low : x % 2 ^ 16 ≡ x = ground arith in rw (e, pos_x, low) (ground arith)
    | w32 e ↦
        let h' : IsExtended 32 x = rw e at h in
        let low : x % 2 ^ 32 ≡ x = ground arith in rw (e, pos_x, low) (ground arith)
    | w64 e ↦
        let h' : IsExtended 64 x = rw e at h in
        let low : x % 2 ^ 64 ≡ x = ground arith in rw (e, pos_x, low) (ground arith)
  ]

  sar_low_neg :
      (x k : ℕ)
      → ltb x (2 ^ 63) ≡ false
      → IsExtended w x
      → sar64 x k % 2 ^ w ≡ shift_signed w (x % 2 ^ w) k
  sar_low_neg x k neg_x h = elim hw [
    | w8 e ↦
        let h' : IsExtended 8 x = rw e at h in
        let flipped : 2 ^ 64 - 1 - x ≡ 2 ^ 8 - 1 - x % 2 ^ 8 = ground arith in
        rw (e, neg_x, flipped) (ground arith)
    | w16 e ↦
        let h' : IsExtended 16 x = rw e at h in
        let flipped : 2 ^ 64 - 1 - x ≡ 2 ^ 16 - 1 - x % 2 ^ 16 = ground arith in
        rw (e, neg_x, flipped) (ground arith)
    | w32 e ↦
        let h' : IsExtended 32 x = rw e at h in
        let flipped : 2 ^ 64 - 1 - x ≡ 2 ^ 32 - 1 - x % 2 ^ 32 = ground arith in
        rw (e, neg_x, flipped) (ground arith)
    | w64 e ↦
        let h' : IsExtended 64 x = rw e at h in
        let flipped : 2 ^ 64 - 1 - x ≡ 2 ^ 64 - 1 - x % 2 ^ 64 = ground arith in
        rw (e, neg_x, flipped) (ground arith)
  ]

  pub sar_low : (x k : ℕ) → IsExtended w x → sar64 x k % 2 ^ w ≡ shift_signed w (x % 2 ^ w) k
  sar_low x k h = elim (Bool-cases (ltb x (2 ^ 63))) [
    | inl p ↦ sar_low_pos x k p h
    | inr p ↦ sar_low_neg x k p h
  ]

  pub default_width_lem : default_width w ≡ w
  default_width_lem = elim hw [ w8 e ↦ rw e | w16 e ↦ rw e | w32 e ↦ rw e | w64 e ↦ rw e ]
