-- ===== src/Link/Reloc/Refused.antt =====
-- Where src/nylink/nylink_reloc.c reports that an address does not fit, no word leads to it.
use nybit.Base.{ℕ, ◌+◌, ◌*◌, ◌/◌, ◌%◌, ◌^◌, ◌<◌, ◌≡◌, arith, Bool-cases, inl, inr, none, ◌==◌}
use nybit.Word.{sar64}
use nybit.Target.Aarch64.Patch.Decode.{signed_field}
use nybit.Link.Reloc.{
  RelocType, add64, sub64, in_range, pc32_word, call26_word, adr_page_word, add_lo12_word,
  ldst_lo12_word, new_word,
}
use nybit.Link.Reloc.Leads.{Leads, page}

-- No word of 32 bits leads from the place to the address.
abbrev pub Unreachable : RelocType → ℕ → ℕ → Type 0
Unreachable type s p = (w : ℕ) → w < 2 ^ 32 → ¬ Leads type w s p

module _ (old s p : ℕ) (small_s : s < 2 ^ 64) (small_p : p < 2 ^ 64) where
  pc32-Unreachable :
      pc32_word old s p ≡ none → (w : ℕ) → w < 2 ^ 32 → ¬ (add64 p (signed_field 32 w) ≡ s)
  unfolding pc32_word
  pc32-Unreachable e w small leads = elim (Bool-cases (in_range 32 (sub64 s p))) [
    | inl fits ↦ let r = rw (pc32_word, fits) at e in cc
    | inr far ↦ ground (arith, far, leads)
  ]

  call26-Unreachable :
      call26_word old s p ≡ none → (w : ℕ) → ¬ (add64 p (4 * signed_field 26 (w % 2 ^ 26)) ≡ s)
  unfolding call26_word
  call26-Unreachable e w leads =
      let val = sub64 s p in
      elim (Bool-cases (val % 4 == 0)) [
        | inr odd ↦ ground (arith, odd, leads)
        | inl even ↦ elim (Bool-cases (in_range 26 (sar64 val 2))) [
          | inl fits ↦ let r = rw (call26_word, even, fits) at e in cc
          | inr far ↦ ground (arith, far, leads)
        ]
      ]

  adr-Unreachable :
      adr_page_word old s p ≡ none
      → (w : ℕ)
      → ¬ (
          add64
            (page p)
            (2 ^ 12 * signed_field 21 (w / 2 ^ 5 % 2 ^ 19 * 2 ^ 2 + w / 2 ^ 29 % 2 ^ 2))
          ≡ page s)
  unfolding adr_page_word
  adr-Unreachable e w leads = elim (Bool-cases (in_range 21 (sar64 (sub64 (page s) (page p)) 12))) [
    | inl fits ↦ let r = rw (adr_page_word, fits) at e in cc
    | inr far ↦ ground (arith, far, leads)
  ]

  ldst64-Unreachable :
      ldst_lo12_word 8 old s p ≡ none → (w : ℕ) → ¬ (w / 2 ^ 10 % 2 ^ 12 * 8 ≡ s % 2 ^ 12)
  unfolding ldst_lo12_word
  ldst64-Unreachable e w leads = elim (Bool-cases (s % 8 == 0)) [
    | inl even ↦ let r = rw (ldst_lo12_word, even) at e in cc
    | inr odd ↦ ground (arith, odd, leads)
  ]

  ldst32-Unreachable :
      ldst_lo12_word 4 old s p ≡ none → (w : ℕ) → ¬ (w / 2 ^ 10 % 2 ^ 12 * 4 ≡ s % 2 ^ 12)
  unfolding ldst_lo12_word
  ldst32-Unreachable e w leads = elim (Bool-cases (s % 4 == 0)) [
    | inl even ↦ let r = rw (ldst_lo12_word, even) at e in cc
    | inr odd ↦ ground (arith, odd, leads)
  ]

  pub new_word-Unreachable :
      (type : RelocType) → new_word type old s p ≡ none → Unreachable type s p
  unfolding new_word add_lo12_word
  new_word-Unreachable RelocType.x86_64_pc32 e = pc32-Unreachable e
  new_word-Unreachable RelocType.x86_64_plt32 e = pc32-Unreachable e
  new_word-Unreachable RelocType.x86_64_gotpcrel e = pc32-Unreachable e
  new_word-Unreachable RelocType.aarch64_call26 e = λ w small. call26-Unreachable e w
  new_word-Unreachable RelocType.aarch64_jump26 e = λ w small. call26-Unreachable e w
  new_word-Unreachable RelocType.aarch64_adr_prel_pg_hi21 e = λ w small. adr-Unreachable e w
  new_word-Unreachable RelocType.aarch64_add_abs_lo12_nc e = cc
  new_word-Unreachable RelocType.aarch64_ldst64_abs_lo12_nc e = λ w small. ldst64-Unreachable e w
  new_word-Unreachable RelocType.aarch64_ldst32_abs_lo12_nc e = λ w small. ldst32-Unreachable e w
