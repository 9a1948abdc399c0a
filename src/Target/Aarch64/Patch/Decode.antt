-- ===== src/Target/Aarch64/Patch/Decode.antt =====
-- What a patched word decodes to.
use nybit.Base.{
  ℕ, ◌+◌, ◌-◌, ◌/◌, ◌%◌, ◌^◌, ◌<◌, ◌≡◌, ◌∙◌, refl, arith, true, ltb, if◌then◌else◌, bit_and, bit_or,
}
use nybit.Base.Bits.{and_mask, and_split, or_parts, bit_and_zero, bit_or_zero, zero_bit_or}
use nybit.Target.Aarch64.Encode.Fields.{shl32}
use nybit.Target.Aarch64.Patch.{fits_signed_immediate, patched26, patched19}

-- The immediate of `B` and `BL` is put in place, and the opcode stays.
pub patched26-fields :
    (word imm : ℕ)
    → word < 2 ^ 32
    → (patched26 word imm % 2 ^ 26 ≡ imm % 2 ^ 26) × (patched26 word imm / 2 ^ 26 ≡ word / 2 ^ 26)
unfolding patched26
patched26-fields word imm small =
    let x = bit_and word 0xFC000000 in
    let y = bit_and (imm % 2 ^ 32) 0x03FFFFFF in
    let y_is : y ≡ imm % 2 ^ 26 = and_mask 26 (imm % 2 ^ 32) ∙ omega arith in
    let x_low : x % 2 ^ 26 ≡ 0 = (and_split 26 word 0xFC000000).1 ∙ bit_and_zero (word % 2 ^ 26) in
    let x_high : x / 2 ^ 26 ≡ word / 2 ^ 26 =
      (and_split 26 word 0xFC000000).0 ∙ and_mask 6 (word / 2 ^ 26) ∙ omega arith in
    let y_low : y % 2 ^ 26 ≡ imm % 2 ^ 26 = omega arith in
    let y_high : y / 2 ^ 26 ≡ 0 = omega arith in
    let parts =
      or_parts 26 x y (word / 2 ^ 26) (imm % 2 ^ 26)
        (rw (y_high, x_high) (bit_or_zero (word / 2 ^ 26)))
        (rw (y_low, x_low) (zero_bit_or (imm % 2 ^ 26))) in
    (parts.1, parts.0)

-- The immediate of `B.cond` is put in place, and the bits below and above it stay.
pub patched19-fields :
    (word imm : ℕ)
    → word < 2 ^ 32
    → (patched19 word imm / 2 ^ 5 % 2 ^ 19 ≡ imm % 2 ^ 19)
      × (patched19 word imm % 2 ^ 5 ≡ word % 2 ^ 5)
      × (patched19 word imm / 2 ^ 5 / 2 ^ 19 ≡ word / 2 ^ 24)
unfolding patched19
patched19-fields word imm small =
    let x = bit_and word 0xFF00001F in
    let z = bit_and (imm % 2 ^ 32) 0x7FFFF in
    let y = shl32 z 5 in
    let z_is : z ≡ imm % 2 ^ 19 = and_mask 19 (imm % 2 ^ 32) ∙ omega arith in
    let y_low : y % 2 ^ 5 ≡ 0 = omega arith in
    let y_high : y / 2 ^ 5 ≡ imm % 2 ^ 19 = omega arith in
    let x_low : x % 2 ^ 5 ≡ word % 2 ^ 5 =
      (and_split 5 word 0xFF00001F).1 ∙ and_mask 5 (word % 2 ^ 5) ∙ omega arith in
    let u = bit_and (word / 2 ^ 5) 0x7F80000 in
    let x_high : x / 2 ^ 5 ≡ u = (and_split 5 word 0xFF00001F).0 in
    let u_low : u % 2 ^ 19 ≡ 0 =
      (and_split 19 (word / 2 ^ 5) 0x7F80000).1 ∙ bit_and_zero (word / 2 ^ 5 % 2 ^ 19) in
    let u_high : u / 2 ^ 19 ≡ word / 2 ^ 24 =
      (and_split 19 (word / 2 ^ 5) 0x7F80000).0
      ∙ and_mask 8 (word / 2 ^ 5 / 2 ^ 19)
      ∙ omega arith in
    let m = imm % 2 ^ 19 in
    let m_low : m % 2 ^ 19 ≡ m = omega arith in
    let m_high : m / 2 ^ 19 ≡ 0 = omega arith in
    let upper =
      or_parts 19 u m (word / 2 ^ 24) m (rw (m_high, u_high) (bit_or_zero (word / 2 ^ 24)))
        (rw (m_low, u_low) (zero_bit_or m)) in
    let parts =
      or_parts 5 x y (bit_or u m) (word % 2 ^ 5) (rw (y_high, x_high) refl)
        (rw (y_low, x_low) (bit_or_zero (word % 2 ^ 5))) in
    (rw parts.0 upper.1, parts.1, rw parts.0 upper.0)

-- The 64-bit pattern of a signed field of `k` bits.
abbrev pub signed_field : ℕ → ℕ → ℕ
signed_field k x = if ltb x (2 ^ (k - 1)) then x else x + (2 ^ 64 - 2 ^ k)

pub signed26-fits :
    (imm : ℕ)
    → imm < 2 ^ 64
    → fits_signed_immediate imm 26 ≡ true
    → signed_field 26 (imm % 2 ^ 26) ≡ imm
unfolding fits_signed_immediate
signed26-fits imm small fits = ground (arith, fits)

pub signed19-fits :
    (imm : ℕ)
    → imm < 2 ^ 64
    → fits_signed_immediate imm 19 ≡ true
    → signed_field 19 (imm % 2 ^ 19) ≡ imm
unfolding fits_signed_immediate
signed19-fits imm small fits = ground (arith, fits)
