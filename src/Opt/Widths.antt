-- ===== src/Opt/Widths.antt =====
-- The laws of src/opt/common.c: the widths that types have, masks, and sign extension.
use nybit.Base.{ℕ, ◌+◌, ◌-◌, ◌%◌, ◌^◌, ◌≤◌, ◌<◌, ◌≡◌, ◌⊎◌, inl, inr, refl, arith}
use nybit.Base.Bits.{and_mask}
use nybit.Word.{IsWord}
use nybit.Opt.Common.{get_type_bit_width, mask_to_width, sign_extend_width}

pub data IsWidth : ℕ → Type 0 where
  w8 : {w : ℕ} → w ≡ 8 → IsWidth w
  w16 : {w : ℕ} → w ≡ 16 → IsWidth w
  w32 : {w : ℕ} → w ≡ 32 → IsWidth w
  w64 : {w : ℕ} → w ≡ 64 → IsWidth w

-- A 64-bit pattern whose bits from the sign bit of the width on are all alike.
pub record IsExtended (w x : ℕ) : Type 0 where
  pub word : IsWord x
  pub alike : (x < 2 ^ (w - 1)) ⊎ (2 ^ 64 ≤ x + 2 ^ (w - 1))

get_type_bit_width_cases :
    (t : ℕ)
    → (get_type_bit_width t ≡ 8)
      ⊎ (get_type_bit_width t ≡ 16)
      ⊎ (get_type_bit_width t ≡ 32)
      ⊎ (get_type_bit_width t ≡ 64)
unfolding get_type_bit_width
get_type_bit_width_cases t = ground arith

-- Every type has one of the four widths.
pub get_type_bit_width-IsWidth : (t : ℕ) → IsWidth (get_type_bit_width t)
get_type_bit_width-IsWidth t = elim (get_type_bit_width_cases t) [
  | inl e ↦ w8 e
  | inr (inl e) ↦ w16 e
  | inr (inr (inl e)) ↦ w32 e
  | inr (inr (inr e)) ↦ w64 e
]

pub mask_to_width_lem : {w : ℕ} (x : ℕ) → IsWidth w → IsWord x → mask_to_width x w ≡ x % 2 ^ w
unfolding mask_to_width
mask_to_width_lem x (w8 e) h = rw e (and_mask 8 x)
mask_to_width_lem x (w16 e) h = rw e (and_mask 16 x)
mask_to_width_lem x (w32 e) h = rw e (and_mask 32 x)
mask_to_width_lem x (w64 e) h = rw e (omega arith)

-- Sign extension keeps the low bits.
pub sign_extend_width_low :
    {w : ℕ} (x : ℕ) → IsWidth w → IsWord x → sign_extend_width x w % 2 ^ w ≡ x % 2 ^ w
unfolding sign_extend_width
sign_extend_width_low x (w8 e) h = rw e (ground arith)
sign_extend_width_low x (w16 e) h = rw e (ground arith)
sign_extend_width_low x (w32 e) h = rw e (ground arith)
sign_extend_width_low x (w64 e) h = rw e (ground arith)

pub sign_extend_width-IsExtended :
    {w : ℕ} (x : ℕ) → IsWidth w → IsWord x → IsExtended w (sign_extend_width x w)
unfolding sign_extend_width
sign_extend_width-IsExtended x (w8 e) h = rw e (ground arith)
sign_extend_width-IsExtended x (w16 e) h = rw e (ground arith)
sign_extend_width-IsExtended x (w32 e) h = rw e (ground arith)
sign_extend_width-IsExtended x (w64 e) h = rw e (ground arith)

-- An extended pattern is extended already.
pub sign_extend_width_idem :
    {w : ℕ} (x : ℕ) → IsWidth w → IsExtended w x → sign_extend_width x w ≡ x
unfolding sign_extend_width
sign_extend_width_idem x (w8 e) h = let h' : IsExtended 8 x = rw e at h in rw e (ground arith)
sign_extend_width_idem x (w16 e) h = let h' : IsExtended 16 x = rw e at h in rw e (ground arith)
sign_extend_width_idem x (w32 e) h = let h' : IsExtended 32 x = rw e at h in rw e (ground arith)
sign_extend_width_idem x (w64 e) h = rw e refl
