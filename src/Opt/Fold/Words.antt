-- ===== src/Opt/Fold/Words.antt =====
-- The words that the folder computes, reduced to the width.
use nybit.Base.{ℕ, ◌+◌, ◌-◌, ◌*◌, ◌/◌, ◌%◌, ◌^◌, ◌≡◌, ◌∙◌, sym, arith, ap}
use nybit.Base.Int.{ℤ, pos, negsuc, ◌+ℤ◌, ◌-ℤ◌, ◌*ℤ◌}
use nybit.Word.{IsWord, signed64, word_of}
use nybit.Opt.Widths.{IsWidth, w8, w16, w32, w64}
use native.Mathlib.Nat.{mul_comm, div-add-mod, add-mul-mod_self_right}

pub word_of-IsWord : (z : ℤ) → IsWord (word_of z)
word_of-IsWord (pos n) = omega arith
word_of-IsWord (negsuc n) = omega arith

module _ (a b : ℕ) (ha : IsWord a) (hb : IsWord b) where
  pub add_word : word_of (signed64 a +ℤ signed64 b) ≡ (a + b) % 2 ^ 64
  unfolding ◌+ℤ◌
  add_word = ground arith

  pub sub_word : word_of (signed64 a -ℤ signed64 b) ≡ (a + 2 ^ 64 - b) % 2 ^ 64
  unfolding ◌-ℤ◌
  sub_word = ground arith

-- A product reduced after a factor is reduced.
pub mul-mod_lem : (x c m : ℕ) → x % m * c % m ≡ x * c % m
mul-mod_lem x c m =
    sym (add-mul-mod_self_right (x % m * c) (x / m * c) m) ∙ ap (λ (t : ℕ). t % m) whole
  where
    whole : x % m * c + x / m * c * m ≡ x * c
    whole = omega (arith, ap (λ (t : ℕ). t * c) (div-add-mod x m))

-- A negative factor: 2 ^ 64 - n stands for -n.
negated_product : (a b n : ℕ) → a + n ≡ 2 ^ 64 → a * b + n * b ≡ 2 ^ 64 * b
negated_product a b n h = omega (arith, ap (λ (t : ℕ). t * b) h)

module _ (a b : ℕ) (ha : IsWord a) (hb : IsWord b) where
  pub mul_word : word_of (signed64 a *ℤ signed64 b) ≡ a * b % 2 ^ 64
  unfolding ◌*ℤ◌
  mul_word = ground (
    arith,
    negated_product a b (2 ^ 64 - a),
    negated_product b a (2 ^ 64 - b),
    negated_product b (2 ^ 64 - a) (2 ^ 64 - b),
  )

-- Reducing to 64 bits first does not change the low bits of a width.
module _ {w : ℕ} (hw : IsWidth w) where
  pub mod-mod_width : (x : ℕ) → x % 2 ^ 64 % 2 ^ w ≡ x % 2 ^ w
  mod-mod_width x = elim hw [
    | w8 e ↦ rw e (omega arith)
    | w16 e ↦ rw e (omega arith)
    | w32 e ↦ rw e (omega arith)
    | w64 e ↦ rw e (omega arith)
  ]

  pub add-mod_width : (a b : ℕ) → (a + b) % 2 ^ w ≡ (a % 2 ^ w + b % 2 ^ w) % 2 ^ w
  add-mod_width a b = elim hw [
    | w8 e ↦ rw e (omega arith)
    | w16 e ↦ rw e (omega arith)
    | w32 e ↦ rw e (omega arith)
    | w64 e ↦ rw e (omega arith)
  ]

  pub sub-mod_width :
      (a b : ℕ) → IsWord b → (a + 2 ^ 64 - b) % 2 ^ w ≡ (a % 2 ^ w + 2 ^ w - b % 2 ^ w) % 2 ^ w
  sub-mod_width a b hb = elim hw [
    | w8 e ↦ rw e (omega arith)
    | w16 e ↦ rw e (omega arith)
    | w32 e ↦ rw e (omega arith)
    | w64 e ↦ rw e (omega arith)
  ]

  pub mul-mod_width : (a b : ℕ) → a * b % 2 ^ w ≡ a % 2 ^ w * (b % 2 ^ w) % 2 ^ w
  mul-mod_width a b =
      sym (mul-mod_lem a b (2 ^ w))
      ∙ ap (λ (t : ℕ). t % 2 ^ w) (mul_comm (a % 2 ^ w) b)
      ∙ sym (mul-mod_lem b (a % 2 ^ w) (2 ^ w))
      ∙ ap (λ (t : ℕ). t % 2 ^ w) (mul_comm (b % 2 ^ w) (a % 2 ^ w))
