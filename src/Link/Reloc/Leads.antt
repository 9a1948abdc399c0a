-- ===== src/Link/Reloc/Leads.antt =====
-- The field of a new word leads to the address that is meant.
use nybit.Base.{
  ℕ, ◌+◌, ◌-◌, ◌*◌, ◌/◌, ◌%◌, ◌^◌, ◌<◌, ◌≡◌, sym, arith, Bool-cases, inl, inr, none, some, ◌==◌,
}
use nybit.Word.{sar64}
use nybit.Target.Aarch64.Patch.{patched26}
use nybit.Target.Aarch64.Patch.Decode.{patched26-fields, signed_field}
use nybit.Link.Reloc.{
  RelocType, add64, sub64, in_range, pc32_word, call26_word, adr_page_word, add_lo12_word,
  ldst_lo12_word, imm12_word, new_word,
}
use nybit.Link.Reloc.Fields.{imm12_word-fields, adrp_word, adrp_word-fields}

abbrev pub page : ℕ → ℕ
page x = x - x % 2 ^ 12

-- The field of the word, decoded, leads from the place to the address.
abbrev pub Leads : RelocType → ℕ → ℕ → ℕ → Type 0
Leads RelocType.aarch64_call26 w s p = add64 p (4 * signed_field 26 (w % 2 ^ 26)) ≡ s
Leads RelocType.aarch64_jump26 w s p = add64 p (4 * signed_field 26 (w % 2 ^ 26)) ≡ s
Leads RelocType.aarch64_adr_prel_pg_hi21 w s p =
    add64 (page p) (2 ^ 12 * signed_field 21 (w / 2 ^ 5 % 2 ^ 19 * 2 ^ 2 + w / 2 ^ 29 % 2 ^ 2))
    ≡ page s
Leads RelocType.aarch64_add_abs_lo12_nc w s p = w / 2 ^ 10 % 2 ^ 12 ≡ s % 2 ^ 12
Leads RelocType.aarch64_ldst64_abs_lo12_nc w s p = w / 2 ^ 10 % 2 ^ 12 * 8 ≡ s % 2 ^ 12
Leads RelocType.aarch64_ldst32_abs_lo12_nc w s p = w / 2 ^ 10 % 2 ^ 12 * 4 ≡ s % 2 ^ 12
Leads _ w s p = add64 p (signed_field 32 w) ≡ s

abbrev pub SameAround12 : ℕ → ℕ → Type 0
SameAround12 w old = (w % 2 ^ 10 ≡ old % 2 ^ 10) × (w / 2 ^ 22 ≡ old / 2 ^ 22)

-- The bits of the word outside the field are those of the old word.
abbrev pub SameRest : RelocType → ℕ → ℕ → Type 0
SameRest RelocType.aarch64_call26 w old = w / 2 ^ 26 ≡ old / 2 ^ 26
SameRest RelocType.aarch64_jump26 w old = w / 2 ^ 26 ≡ old / 2 ^ 26
SameRest RelocType.aarch64_adr_prel_pg_hi21 w old =
    (w % 2 ^ 5 ≡ old % 2 ^ 5)
    × (w / 2 ^ 24 % 2 ^ 5 ≡ old / 2 ^ 24 % 2 ^ 5)
    × (w / 2 ^ 31 ≡ old / 2 ^ 31)
SameRest RelocType.aarch64_add_abs_lo12_nc w old = SameAround12 w old
SameRest RelocType.aarch64_ldst64_abs_lo12_nc w old = SameAround12 w old
SameRest RelocType.aarch64_ldst32_abs_lo12_nc w old = SameAround12 w old
SameRest _ w old = Unit {0}

pub record Good (type : RelocType) (old s p w : ℕ) : Type 0 where
  pub leads : Leads type w s p
  pub rest : SameRest type w old

module _ (old s p w : ℕ) (small : old < 2 ^ 32) (small_s : s < 2 ^ 64) (small_p : p < 2 ^ 64) where
  pc32-leads : pc32_word old s p ≡ some w → add64 p (signed_field 32 w) ≡ s
  unfolding pc32_word
  pc32-leads e =
      let val = sub64 s p in
      elim (Bool-cases (in_range 32 val)) [
        | inl fits ↦
            let r : some (val % 2 ^ 32) ≡ some w = rw (pc32_word, fits) at e in
            let is_w : val % 2 ^ 32 ≡ w = cc in
            let back : signed_field 32 (val % 2 ^ 32) ≡ val = ground (arith, fits) in
            rw (sym is_w, back) (omega arith)
        | inr far ↦ let r : none ≡ some w = rw (pc32_word, far) at e in cc
      ]

  call26-leads :
      call26_word old s p ≡ some w
      → (add64 p (4 * signed_field 26 (w % 2 ^ 26)) ≡ s) × (w / 2 ^ 26 ≡ old / 2 ^ 26)
  unfolding call26_word patched26
  call26-leads e =
      let val = sub64 s p in
      let imm = sar64 val 2 in
      elim (Bool-cases (val % 4 == 0)) [
        | inr odd ↦ let r : none ≡ some w = rw (call26_word, odd) at e in cc
        | inl even ↦ elim (Bool-cases (in_range 26 imm)) [
          | inr far ↦ let r : none ≡ some w = rw (call26_word, even, far) at e in cc
          | inl fits ↦
              let r : some (patched26 old imm) ≡ some w = rw (call26_word, even, fits) at e in
              let is_w : patched26 old imm ≡ w = cc in
              let fields = patched26-fields old imm small in
              let back : signed_field 26 (imm % 2 ^ 26) ≡ imm = ground (arith, fits) in
              let lands : add64 p (4 * imm) ≡ s = ground (arith, even) in
              (rw (sym is_w, fields.0, back) lands, rw (sym is_w) fields.1)
        ]
      ]

  adr-leads :
      adr_page_word old s p ≡ some w
      → (add64 (page p) (2 ^ 12 * signed_field 21 (w / 2 ^ 5 % 2 ^ 19 * 2 ^ 2 + w / 2 ^ 29 % 2 ^ 2))
          ≡ page s)
        × (w % 2 ^ 5 ≡ old % 2 ^ 5)
        × (w / 2 ^ 24 % 2 ^ 5 ≡ old / 2 ^ 24 % 2 ^ 5)
        × (w / 2 ^ 31 ≡ old / 2 ^ 31)
  unfolding adr_page_word
  adr-leads e =
      let diff = sub64 (page s) (page p) in
      let imm = sar64 diff 12 in
      let lo = imm % 2 ^ 2 in
      let hi = sar64 imm 2 % 2 ^ 19 in
      elim (Bool-cases (in_range 21 imm)) [
        | inr far ↦ let r : none ≡ some w = rw (adr_page_word, far) at e in cc
        | inl fits ↦
            let r : some (adrp_word old lo hi) ≡ some w = rw (adr_page_word, fits) at e in
            let is_w : adrp_word old lo hi ≡ w = cc in
            let f = adrp_word-fields old lo hi small (omega arith) (omega arith) in
            let joined : hi * 2 ^ 2 + lo ≡ imm % 2 ^ 21 = ground (arith, fits) in
            let back : signed_field 21 (imm % 2 ^ 21) ≡ imm = ground (arith, fits) in
            let lands : add64 (page p) (2 ^ 12 * imm) ≡ page s = ground arith in
            (
              rw (sym is_w, f.1, f.3, joined, back) lands,
              rw (sym is_w) f.0,
              rw (sym is_w) f.2,
              rw (sym is_w) f.4,
            )
      ]

  imm12-leads :
      (imm12 : ℕ)
      → imm12 < 2 ^ 12
      → imm12_word old imm12 ≡ w
      → (w / 2 ^ 10 % 2 ^ 12 ≡ imm12) × SameAround12 w old
  imm12-leads imm12 fits is_w =
      let f = imm12_word-fields old imm12 small fits in
      let high : imm12_word old imm12 / 2 ^ 22 ≡ old / 2 ^ 22 = let e = f.2 in omega arith in
      (rw (sym is_w) f.0, (rw (sym is_w) f.1, rw (sym is_w) high))

  add-leads :
      add_lo12_word old s p ≡ some w → (w / 2 ^ 10 % 2 ^ 12 ≡ s % 2 ^ 12) × SameAround12 w old
  unfolding add_lo12_word
  add-leads e =
      let r : some (imm12_word old (s % 2 ^ 12)) ≡ some w = e in
      imm12-leads (s % 2 ^ 12) (omega arith) cc

  ldst64-leads :
      ldst_lo12_word 8 old s p ≡ some w
      → (w / 2 ^ 10 % 2 ^ 12 * 8 ≡ s % 2 ^ 12) × SameAround12 w old
  unfolding ldst_lo12_word
  ldst64-leads e = elim (Bool-cases (s % 8 == 0)) [
    | inr odd ↦ let r : none ≡ some w = rw (ldst_lo12_word, odd) at e in cc
    | inl even ↦
        let r : some (imm12_word old (s % 2 ^ 12 / 8)) ≡ some w = rw (ldst_lo12_word, even) at e in
        let f = imm12-leads (s % 2 ^ 12 / 8) (omega arith) cc in
        let back : s % 2 ^ 12 / 8 * 8 ≡ s % 2 ^ 12 = ground (arith, even) in (rw f.0 back, f.1)
  ]

  ldst32-leads :
      ldst_lo12_word 4 old s p ≡ some w
      → (w / 2 ^ 10 % 2 ^ 12 * 4 ≡ s % 2 ^ 12) × SameAround12 w old
  unfolding ldst_lo12_word
  ldst32-leads e = elim (Bool-cases (s % 4 == 0)) [
    | inr odd ↦ let r : none ≡ some w = rw (ldst_lo12_word, odd) at e in cc
    | inl even ↦
        let r : some (imm12_word old (s % 2 ^ 12 / 4)) ≡ some w = rw (ldst_lo12_word, even) at e in
        let f = imm12-leads (s % 2 ^ 12 / 4) (omega arith) cc in
        let back : s % 2 ^ 12 / 4 * 4 ≡ s % 2 ^ 12 = ground (arith, even) in (rw f.0 back, f.1)
  ]

  pub new_word-Good : (type : RelocType) → new_word type old s p ≡ some w → Good type old s p w
  unfolding new_word
  new_word-Good RelocType.x86_64_pc32 e = record { leads = pc32-leads e; rest = tt }
  new_word-Good RelocType.x86_64_plt32 e = record { leads = pc32-leads e; rest = tt }
  new_word-Good RelocType.x86_64_gotpcrel e = record { leads = pc32-leads e; rest = tt }
  new_word-Good RelocType.aarch64_call26 e = record {
    leads = (call26-leads e).0;
    rest = (call26-leads e).1;
  }
  new_word-Good RelocType.aarch64_jump26 e = record {
    leads = (call26-leads e).0;
    rest = (call26-leads e).1;
  }
  new_word-Good RelocType.aarch64_adr_prel_pg_hi21 e =
      let h = adr-leads e in record { leads = h.0; rest = (h.1, h.2, h.3) }
  new_word-Good RelocType.aarch64_add_abs_lo12_nc e = record {
    leads = (add-leads e).0;
    rest = (add-leads e).1;
  }
  new_word-Good RelocType.aarch64_ldst64_abs_lo12_nc e = record {
    leads = (ldst64-leads e).0;
    rest = (ldst64-leads e).1;
  }
  new_word-Good RelocType.aarch64_ldst32_abs_lo12_nc e = record {
    leads = (ldst32-leads e).0;
    rest = (ldst32-leads e).1;
  }
