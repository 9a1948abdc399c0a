-- ===== src/Target/Aarch64/Patch/All.antt =====
-- The loop over the fixups patches every branch, and no patch undoes another.
use nybit.Base.{
  ℕ, suc, ◌+◌, ◌%◌, ◌^◌, ◌<◌, ◌≤◌, ◌≡◌, ◌⊎◌, ◌∙◌, refl, sym, ap, subst, arith, Bool, true, false,
  Bool-cases, inl, inr, List, [], ◌∷◌, length, get_elem?, ltb, All as AllOf,
}
use nybit.Base.Outcome.{Outcome, done}
use nybit.Analysis.Cfg.Reach.{IsListed}
use nybit.Target.Aarch64.{FixupKind, Fixup}
use nybit.Target.Aarch64.Buffer.{SameOutside}
use nybit.Target.Aarch64.Patch.{
  fits_signed_immediate, branch_imm, patched26, patched19, patch_branch, block_offset, patch_to,
  patch_kind, apply_fixups,
}
use nybit.Target.Aarch64.Patch.Branch.{
  bits_of, landed, refused, patch_branch-Patched, IsBranch, branch26-IsBranch, branch19-IsBranch,
}
use nybit.Target.Aarch64.Patch.Placed.{
  Sited, Ascending, is_branch, reach, HasOffsets, Placed, no_branch, no_block, goes, IsTooFar,
  Placed-same, Sited-outside,
}

-- A displacement that does not fit is one beyond the reach of the field.
far26 :
    (t o : ℕ)
    → t < 2 ^ 62
    → o < 2 ^ 62
    → t % 4 ≡ o % 4
    → fits_signed_immediate (branch_imm t o) 26 ≡ false
    → (o + 2 ^ 27 ≤ t) ⊎ (t + 2 ^ 27 < o)
unfolding fits_signed_immediate branch_imm
far26 t o small_t small_o same far = ground (arith, far)

far19 :
    (t o : ℕ)
    → t < 2 ^ 62
    → o < 2 ^ 62
    → t % 4 ≡ o % 4
    → fits_signed_immediate (branch_imm t o) 19 ≡ false
    → (o + 2 ^ 20 ≤ t) ⊎ (t + 2 ^ 20 < o)
unfolding fits_signed_immediate branch_imm
far19 t o small_t small_o same far = ground (arith, far)

beyond_reach :
    (kind : FixupKind) (t o : ℕ)
    → t < 2 ^ 62
    → o < 2 ^ 62
    → t % 4 ≡ o % 4
    → fits_signed_immediate (branch_imm t o) (bits_of kind) ≡ false
    → (o + reach kind ≤ t) ⊎ (t + reach kind < o)
beyond_reach FixupKind.branch19 = far19
beyond_reach FixupKind.branch26 = far26
beyond_reach FixupKind.call26 = far26
beyond_reach FixupKind.adrp = far26
beyond_reach FixupKind.add_lo12 = far26
beyond_reach FixupKind.ldst_lo12 = far26

-- What one turn of the loop comes to.
data Turn (to : ℕ → ℕ) (Absent : ℕ → Type 0) (max_id : ℕ) (bytes : List ℕ) (f : Fixup)
    (result : Outcome (List ℕ × Bool)) : Type 0 where
  on :
      (bytes1 : List ℕ)
      → result ≡ done (bytes1, true)
      → length bytes1 ≡ length bytes
      → SameOutside bytes f.code_offset bytes1
      → Placed to Absent bytes1 f
      → Turn to Absent max_id bytes f result
  off : IsTooFar to max_id f → result ≡ done (bytes, false) → Turn to Absent max_id bytes f result

module _ (offsets : List ℕ) (max_id : ℕ) (to : ℕ → ℕ) (Absent : ℕ → Type 0)
    (laid : HasOffsets offsets max_id to Absent) where
  patch_to-Turn :
      (bytes : List ℕ) (f : Fixup) (patched : ℕ → ℕ → ℕ)
      → length bytes < 2 ^ 62
      → is_branch f.kind ≡ true
      → IsBranch f.kind patched
      → Sited bytes f
      → Turn to Absent max_id bytes f (patch_to offsets max_id bytes f (bits_of f.kind) patched)
  patch_to-Turn bytes f patched few is branch s = elim (Bool-cases (ltb max_id f.target_block)) [
    | inl beyond ↦
        on bytes (rw (patch_to, beyond) refl) refl (λ j out. refl)
          (no_block (laid.absent f.target_block (ground (arith, beyond))))
    | inr within ↦
        let block : f.target_block ≤ max_id = ground (arith, within) in
        let found = laid.known f.target_block block in
        let t = to f.target_block in
        let small = laid.small f.target_block block in
        let inside = s.inside in
        let aligned = s.aligned in
        let same : t % 4 ≡ f.code_offset % 4 = laid.aligned f.target_block block ∙ sym aligned in
        let opened : patch_to offsets max_id bytes f (bits_of f.kind) patched
            ≡ patch_branch bytes f.code_offset (bits_of f.kind) patched
                (branch_imm t f.code_offset) =
          rw (patch_to, within, block_offset, found) refl in
        elim (patch_branch-Patched f.kind patched bytes f.code_offset t s.word branch small
          (omega arith) same s.small inside s.at) [
            | landed bytes1 fits e there ↦
                on bytes1 (opened ∙ e) there.size there.others
                  (goes there.word there.written there.lands)
            | refused far e ↦
                off
                  (record {
                    branch = is;
                    block = block;
                    far = beyond_reach f.kind t f.code_offset small (omega arith) same far;
                  })
                  (opened ∙ e)
          ]
  ]

  patch_kind-Turn :
      (kind : FixupKind) (bytes : List ℕ) (f : Fixup)
      → kind ≡ f.kind
      → length bytes < 2 ^ 62
      → Sited bytes f
      → Turn to Absent max_id bytes f (patch_kind kind offsets max_id bytes f)
  patch_kind-Turn FixupKind.branch26 bytes f same few s = rw (ap bits_of same) (
      patch_to-Turn bytes f patched26 few (ap is_branch (sym same))
        (subst (λ k. IsBranch k patched26) same branch26-IsBranch) s)
  patch_kind-Turn FixupKind.branch19 bytes f same few s = rw (ap bits_of same) (
      patch_to-Turn bytes f patched19 few (ap is_branch (sym same))
        (subst (λ k. IsBranch k patched19) same branch19-IsBranch) s)
  patch_kind-Turn FixupKind.call26 bytes f same few s =
      on bytes refl refl (λ j out. refl) (no_branch (ap is_branch (sym same)))
  patch_kind-Turn FixupKind.adrp bytes f same few s =
      on bytes refl refl (λ j out. refl) (no_branch (ap is_branch (sym same)))
  patch_kind-Turn FixupKind.add_lo12 bytes f same few s =
      on bytes refl refl (λ j out. refl) (no_branch (ap is_branch (sym same)))
  patch_kind-Turn FixupKind.ldst_lo12 bytes f same few s =
      on bytes refl refl (λ j out. refl) (no_branch (ap is_branch (sym same)))

  -- What the loop comes to: every branch goes to its block; or one of them is too far from it, and
  -- the call fails.
  pub data Finished (lo : ℕ) (bytes : List ℕ) (fixups : List Fixup)
      (result : Outcome (List ℕ × Bool)) : Type 0 where
    finished :
        (bytes1 : List ℕ)
        → result ≡ done (bytes1, true)
        → length bytes1 ≡ length bytes
        → ((j : ℕ) → j < lo → get_elem? bytes1 j ≡ get_elem? bytes j)
        → AllOf (Placed to Absent bytes1) fixups
        → Finished lo bytes fixups result
    too_far :
        (bytes1 : List ℕ) (f : Fixup)
        → IsListed f fixups
        → IsTooFar to max_id f
        → result ≡ done (bytes1, false)
        → Finished lo bytes fixups result

  pub apply_fixups-Finished :
      (lo : ℕ) (bytes : List ℕ) (fixups : List Fixup)
      → length bytes < 2 ^ 62
      → AllOf (Sited bytes) fixups
      → Ascending lo fixups
      → Finished lo bytes fixups (apply_fixups offsets max_id bytes fixups)
  unfolding apply_fixups
  apply_fixups-Finished lo bytes [] few sited asc = finished bytes refl refl (λ j below. refl) tt
  apply_fixups-Finished lo bytes (f ∷ fixups) few sited asc =
      elim (patch_kind-Turn f.kind bytes f refl few sited.0) [
        | off far e ↦
            too_far bytes f (record { at = 0; found = refl }) far (rw (apply_fixups, e) refl)
        | on bytes1 e size outside placed ↦
            let o = f.code_offset in
            let above = asc.0 in
            let rest_sited =
              Sited-outside bytes bytes1 o fixups (o + 4) outside size (omega arith) asc.1
                sited.1 in
            let goes_on : apply_fixups offsets max_id bytes (f ∷ fixups)
                ≡ apply_fixups offsets max_id bytes1 fixups =
              rw (apply_fixups, e) refl in
            elim (apply_fixups-Finished (o + 4) bytes1 fixups (rw size few) rest_sited asc.1) [
              | too_far bytes2 g there far e2 ↦
                  too_far bytes2 g (record { at = suc there.at; found = there.found }) far
                    (goes_on ∙ e2)
              | finished bytes2 e2 size2 same all ↦
                  finished bytes2 (goes_on ∙ e2) (size2 ∙ size)
                    (λ j below. same j (omega arith) ∙ outside j (ground (arith, below, above)))
                    (Placed-same to Absent bytes1 bytes2 f (o + 4) same (omega arith) placed, all)
            ]
      ]
