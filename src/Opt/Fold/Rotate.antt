-- ===== src/Opt/Fold/Rotate.antt =====
-- The rotations of src/opt/const_fold.c: two shifts joined by `|`.
use nybit.Base.{
  ℕ, ◌+◌, ◌-◌, ◌*◌, ◌/◌, ◌%◌, ◌^◌, ◌≤◌, ◌<◌, ◌≡◌, ◌∙◌, inl, inr, refl, sym, arith, Bool-cases, ◌==◌,
  ==_iff, bit_or,
}
use nybit.Base.Bits.{or_split, or_rotl, or_rotr}
use nybit.Word.{IsWord, shl64, shr64}
use nybit.Ir.Opcode.{Opcode}
use nybit.Opt.Widths.{IsWidth, w8, w16, w32, w64, IsExtended, mask_to_width_lem}
use nybit.Opt.Reference.{eval_binary}
use nybit.Opt.Fold.{folded, fold_rotl, fold_rotr}
use nybit.Opt.Fold.Words.{mod-mod_width}
use nybit.Opt.Fold.Agrees.{Agrees, extended_Agrees, shift_amount_low, low_small}
use native.Mathlib.Nat.{div-eq_of_lt, div-le_self, le_refl}

bit_or-IsWord : (x y : ℕ) → IsWord x → IsWord y → IsWord (bit_or x y)
bit_or-IsWord x y hx hy =
    let high : bit_or x y / 2 ^ 64 ≡ 0 =
      (or_split 64 x y).0 ∙ rw (div-eq_of_lt hx, div-eq_of_lt hy) refl in
    omega arith

module _ {w : ℕ} (hw : IsWidth w) where
  below_width : (b : ℕ) → b % 2 ^ w % w ≤ w
  below_width b = elim hw [
    | w8 e ↦ rw e (omega arith)
    | w16 e ↦ rw e (omega arith)
    | w32 e ↦ rw e (omega arith)
    | w64 e ↦ rw e (omega arith)
  ]

  low_lt : (a : ℕ) → a % 2 ^ w < 2 ^ w
  low_lt a = elim hw [
    | w8 e ↦ rw e (omega arith)
    | w16 e ↦ rw e (omega arith)
    | w32 e ↦ rw e (omega arith)
    | w64 e ↦ rw e (omega arith)
  ]

  -- No turn at all.
  turn_zero : (a k : ℕ) → k ≡ 0 → a % 2 ^ w * 2 ^ k % 2 ^ w + a % 2 ^ w / 2 ^ (w - k) ≡ a % 2 ^ w
  turn_zero a k h = elim hw [
    | w8 e ↦ rw (e, h) (omega arith)
    | w16 e ↦ rw (e, h) (omega arith)
    | w32 e ↦ rw (e, h) (omega arith)
    | w64 e ↦ rw (e, h) (omega arith)
  ]

  turn_zero_right :
      (a k : ℕ) → k ≡ 0 → a % 2 ^ w / 2 ^ k + a % 2 ^ w * 2 ^ (w - k) % 2 ^ w ≡ a % 2 ^ w
  turn_zero_right a k h = elim hw [
    | w8 e ↦ rw (e, h) (omega arith)
    | w16 e ↦ rw (e, h) (omega arith)
    | w32 e ↦ rw (e, h) (omega arith)
    | w64 e ↦ rw (e, h) (omega arith)
  ]

  module _ (a k : ℕ) (hk : k ≤ w) where
    turned_left :
        bit_or (shl64 (a % 2 ^ w) k) (shr64 (a % 2 ^ w) (w - k)) % 2 ^ w
        ≡ a % 2 ^ w * 2 ^ k % 2 ^ w + a % 2 ^ w / 2 ^ (w - k)
    turned_left =
        let x = a % 2 ^ w in
        (or_split w (shl64 x k) (shr64 x (w - k))).1
        ∙ rw (mod-mod_width hw (x * 2 ^ k), (low_small hw a (x / 2 ^ (w - k)) (div-le_self x _)).1)
            (or_rotl w k x hk (low_lt a))

    turned_right :
        bit_or (shr64 (a % 2 ^ w) (w - k)) (shl64 (a % 2 ^ w) k) % 2 ^ w
        ≡ a % 2 ^ w / 2 ^ (w - k) + a % 2 ^ w * 2 ^ k % 2 ^ w
    turned_right =
        let x = a % 2 ^ w in
        (or_split w (shr64 x (w - k)) (shl64 x k)).1
        ∙ rw (mod-mod_width hw (x * 2 ^ k), (low_small hw a (x / 2 ^ (w - k)) (div-le_self x _)).1)
            (or_rotr w k x hk (low_lt a))

  turned_back :
      (a k : ℕ)
      → k ≤ w
      → bit_or (shr64 (a % 2 ^ w) k) (shl64 (a % 2 ^ w) (w - k)) % 2 ^ w
        ≡ a % 2 ^ w / 2 ^ k + a % 2 ^ w * 2 ^ (w - k) % 2 ^ w
  turned_back a k hk =
      let e : w - (w - k) ≡ k = omega arith in rw e at (turned_right a (w - k) (omega arith))

  module _ (a b : ℕ) (ha : IsExtended w a) where
    pub rotl-Agrees :
        Agrees w (folded (fold_rotl a b w)) (eval_binary w Opcode.rotl (a % 2 ^ w) (b % 2 ^ w))
    unfolding fold_rotl eval_binary
    rotl-Agrees =
        let x = a % 2 ^ w in
        let k = b % 2 ^ w % w in
        rw (shift_amount_low hw b, mask_to_width_lem a hw ha.word)
          (elim (Bool-cases (k == 0)) [
            | inl still ↦ rw still (
                extended_Agrees hw x (low_small hw a x (le_refl x)).0
                  ((low_small hw a x (le_refl x)).1 ∙ sym (turn_zero a k ((==_iff k 0).0 still))))
            | inr turns ↦ rw turns (
                extended_Agrees hw (bit_or (shl64 x k) (shr64 x (w - k)))
                  (bit_or-IsWord _ _ (omega arith) (low_small hw a _ (div-le_self x _)).0)
                  (turned_left a k (below_width b)))
          ])

    pub rotr-Agrees :
        Agrees w (folded (fold_rotr a b w)) (eval_binary w Opcode.rotr (a % 2 ^ w) (b % 2 ^ w))
    unfolding fold_rotr eval_binary
    rotr-Agrees =
        let x = a % 2 ^ w in
        let k = b % 2 ^ w % w in
        rw (shift_amount_low hw b, mask_to_width_lem a hw ha.word)
          (elim (Bool-cases (k == 0)) [
            | inl still ↦ rw still (
                extended_Agrees hw x (low_small hw a x (le_refl x)).0 (
                  (low_small hw a x (le_refl x)).1
                  ∙ sym (turn_zero_right a k ((==_iff k 0).0 still))))
            | inr turns ↦ rw turns (
                extended_Agrees hw (bit_or (shr64 x k) (shl64 x (w - k)))
                  (bit_or-IsWord _ _ (low_small hw a _ (div-le_self x _)).0 (omega arith))
                  (turned_back a k (below_width b)))
          ])
