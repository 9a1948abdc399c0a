-- ===== src/Link/Reloc/Fields.antt =====
-- The fields of the words that relocations write.
use nybit.Base.{ℕ, ◌*◌, ◌/◌, ◌%◌, ◌^◌, ◌<◌, ◌≡◌, ◌∙◌, refl, arith, bit_and, bit_or}
use nybit.Base.Bits.{and_mask, and_split, or_parts, bit_and_zero, bit_or_zero, zero_bit_or}
use nybit.Link.Reloc.{imm12_word}

-- An immediate of twelve bits is put in place, and the bits below and above it stay.
pub imm12_word-fields :
    (word imm12 : ℕ)
    → word < 2 ^ 32
    → imm12 < 2 ^ 12
    → (imm12_word word imm12 / 2 ^ 10 % 2 ^ 12 ≡ imm12)
      × (imm12_word word imm12 % 2 ^ 10 ≡ word % 2 ^ 10)
      × (imm12_word word imm12 / 2 ^ 10 / 2 ^ 12 ≡ word / 2 ^ 22)
imm12_word-fields word imm12 small fits =
    let x = bit_and word 0xFFC003FF in
    let y = imm12 * 2 ^ 10 % 2 ^ 32 in
    let y_low : y % 2 ^ 10 ≡ 0 = omega arith in
    let y_high : y / 2 ^ 10 ≡ imm12 = omega arith in
    let x_low : x % 2 ^ 10 ≡ word % 2 ^ 10 =
      (and_split 10 word 0xFFC003FF).1 ∙ and_mask 10 (word % 2 ^ 10) ∙ omega arith in
    let u = bit_and (word / 2 ^ 10) 0x3FF000 in
    let x_high : x / 2 ^ 10 ≡ u = (and_split 10 word 0xFFC003FF).0 in
    let u_low : u % 2 ^ 12 ≡ 0 =
      (and_split 12 (word / 2 ^ 10) 0x3FF000).1 ∙ bit_and_zero (word / 2 ^ 10 % 2 ^ 12) in
    let u_high : u / 2 ^ 12 ≡ word / 2 ^ 22 =
      (and_split 12 (word / 2 ^ 10) 0x3FF000).0
      ∙ and_mask 10 (word / 2 ^ 10 / 2 ^ 12)
      ∙ omega arith in
    let m_low : imm12 % 2 ^ 12 ≡ imm12 = omega arith in
    let m_high : imm12 / 2 ^ 12 ≡ 0 = omega arith in
    let upper =
      or_parts 12 u imm12 (word / 2 ^ 22) imm12 (rw (m_high, u_high) (bit_or_zero (word / 2 ^ 22)))
        (rw (m_low, u_low) (zero_bit_or imm12)) in
    let parts =
      or_parts 10 x y (bit_or u imm12) (word % 2 ^ 10) (rw (y_high, x_high) refl)
        (rw (y_low, x_low) (bit_or_zero (word % 2 ^ 10))) in
    (rw parts.0 upper.1, parts.1, rw parts.0 upper.0)

-- The word of an `ADRP` with the two parts of its immediate.
abbrev pub adrp_word : ℕ → ℕ → ℕ → ℕ
adrp_word word immlo immhi =
    bit_or (bit_or (bit_and word 0x9F00001F) (immlo * 2 ^ 29 % 2 ^ 32)) (immhi * 2 ^ 5 % 2 ^ 32)

-- Three numbers joined, above and below bit `k`.
or3_parts :
    (k a b c a1 b1 c1 a0 b0 c0 : ℕ)
    → (a / 2 ^ k ≡ a1) × (a % 2 ^ k ≡ a0)
    → (b / 2 ^ k ≡ b1) × (b % 2 ^ k ≡ b0)
    → (c / 2 ^ k ≡ c1) × (c % 2 ^ k ≡ c0)
    → (bit_or (bit_or a b) c / 2 ^ k ≡ bit_or (bit_or a1 b1) c1)
      × (bit_or (bit_or a b) c % 2 ^ k ≡ bit_or (bit_or a0 b0) c0)
or3_parts k a b c a1 b1 c1 a0 b0 c0 ha hb hc =
    let ab =
      or_parts k a b (bit_or a1 b1) (bit_or a0 b0) (rw (ha.0, hb.0) refl) (rw (ha.1, hb.1) refl) in
    or_parts k (bit_or a b) c (bit_or (bit_or a1 b1) c1) (bit_or (bit_or a0 b0) c0)
      (rw (ab.0, hc.0) refl) (rw (ab.1, hc.1) refl)

pub adrp_word-fields :
    (word immlo immhi : ℕ)
    → word < 2 ^ 32
    → immlo < 2 ^ 2
    → immhi < 2 ^ 19
    → (adrp_word word immlo immhi % 2 ^ 5 ≡ word % 2 ^ 5)
      × (adrp_word word immlo immhi / 2 ^ 5 % 2 ^ 19 ≡ immhi)
      × (adrp_word word immlo immhi / 2 ^ 24 % 2 ^ 5 ≡ word / 2 ^ 24 % 2 ^ 5)
      × (adrp_word word immlo immhi / 2 ^ 29 % 2 ^ 2 ≡ immlo)
      × (adrp_word word immlo immhi / 2 ^ 31 ≡ word / 2 ^ 31)
adrp_word-fields word lo hi small fits_lo fits_hi =
    let w = adrp_word word lo hi in
    let a5 = bit_and (word / 2 ^ 5) 0x4F80000 in
    let one =
      or3_parts 5 (bit_and word 0x9F00001F) (lo * 2 ^ 29 % 2 ^ 32) (hi * 2 ^ 5 % 2 ^ 32) a5
        (lo * 2 ^ 24) hi (word % 2 ^ 5) 0 0
        (
          (and_split 5 word 0x9F00001F).0,
          (and_split 5 word 0x9F00001F).1 ∙ and_mask 5 (word % 2 ^ 5) ∙ omega arith,
        )
        (omega arith, omega arith) (omega arith, omega arith) in
    let a24 = bit_and (word / 2 ^ 5 / 2 ^ 19) 0x9F in
    let two =
      or3_parts 19 a5 (lo * 2 ^ 24) hi a24 (lo * 2 ^ 5) 0 0 0 hi
        (
          (and_split 19 (word / 2 ^ 5) 0x4F80000).0,
          (and_split 19 (word / 2 ^ 5) 0x4F80000).1 ∙ bit_and_zero (word / 2 ^ 5 % 2 ^ 19),
        )
        (omega arith, omega arith) (omega arith, omega arith) in
    let a29 = bit_and (word / 2 ^ 5 / 2 ^ 19 / 2 ^ 5) 4 in
    let q = word / 2 ^ 5 / 2 ^ 19 in
    let three =
      or_parts 5 a24 (lo * 2 ^ 5) (bit_or a29 lo) (q % 2 ^ 5)
        (let e = (and_split 5 q 0x9F).0 in
          let f : lo * 2 ^ 5 / 2 ^ 5 ≡ lo = omega arith in rw (e, f) refl)
        (let e = (and_split 5 q 0x9F).1 ∙ and_mask 5 (q % 2 ^ 5) in
          let f : lo * 2 ^ 5 % 2 ^ 5 ≡ 0 = omega arith in
          let g : q % 2 ^ 5 % 2 ^ 5 ≡ q % 2 ^ 5 = omega arith in
          rw (e, f, g) (bit_or_zero (q % 2 ^ 5))) in
    let four =
      or_parts 2 a29 lo (word / 2 ^ 31) lo
        (let e : a29 / 2 ^ 2 ≡ word / 2 ^ 31 =
            (and_split 2 (q / 2 ^ 5) 4).0 ∙ and_mask 1 (q / 2 ^ 5 / 2 ^ 2) ∙ omega arith in
          let f : lo / 2 ^ 2 ≡ 0 = omega arith in rw (e, f) (bit_or_zero (word / 2 ^ 31)))
        (let e : a29 % 2 ^ 2 ≡ 0 =
            (and_split 2 (q / 2 ^ 5) 4).1 ∙ bit_and_zero (q / 2 ^ 5 % 2 ^ 2) in
          let f : lo % 2 ^ 2 ≡ lo = omega arith in rw (e, f) (zero_bit_or lo)) in
    let low : w % 2 ^ 5 ≡ word % 2 ^ 5 = one.1 ∙ rw bit_or_zero (bit_or_zero (word % 2 ^ 5)) in
    let w5 = one.0 in
    let mid : w / 2 ^ 5 % 2 ^ 19 ≡ hi = rw w5 (two.1 ∙ zero_bit_or hi) in
    let w24 : w / 2 ^ 5 / 2 ^ 19 ≡ bit_or a24 (lo * 2 ^ 5) =
      rw w5 (two.0 ∙ bit_or_zero (bit_or a24 (lo * 2 ^ 5))) in
    let w24_low : w / 2 ^ 5 / 2 ^ 19 % 2 ^ 5 ≡ q % 2 ^ 5 = rw w24 three.1 in
    let w29 : w / 2 ^ 5 / 2 ^ 19 / 2 ^ 5 ≡ bit_or a29 lo = rw w24 three.0 in
    let w29_low : w / 2 ^ 5 / 2 ^ 19 / 2 ^ 5 % 2 ^ 2 ≡ lo = rw w29 four.1 in
    let w31 : w / 2 ^ 5 / 2 ^ 19 / 2 ^ 5 / 2 ^ 2 ≡ word / 2 ^ 31 = rw w29 four.0 in
    (low, mid, omega (arith, w24_low), omega (arith, w29_low), omega (arith, w31))
