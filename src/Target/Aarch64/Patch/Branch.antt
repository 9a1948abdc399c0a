-- ===== src/Target/Aarch64/Patch/Branch.antt =====
-- A patched branch goes to its target.
use nybit.Base.{
  ℕ, ◌+◌, ◌*◌, ◌/◌, ◌%◌, ◌^◌, ◌<◌, ◌≤◌, ◌≡◌, ◌∙◌, refl, ap, arith, Bool, true, false, Bool-cases,
  inl, inr, List, length,
}
use nybit.Base.Outcome.{Outcome, done}
use nybit.Target.Aarch64.{FixupKind}
use nybit.Target.Aarch64.Buffer.{HasWord, SameOutside, read_word-HasWord, patch_word-IsPatched}
use nybit.Target.Aarch64.Patch.{
  fits_signed_immediate, patched26, patched19, branch_imm, patch_branch,
}
use nybit.Target.Aarch64.Patch.Decode.{
  patched26-fields, patched19-fields, signed_field, signed26-fits, signed19-fits,
}

-- The offset that a branch with this immediate, in units of four bytes, goes to.
abbrev pub lands_at : ℕ → ℕ → ℕ
lands_at code_offset imm = (code_offset + 4 * imm) % 2 ^ 64

branch_imm-lands :
    (t c : ℕ)
    → t < 2 ^ 62
    → c < 2 ^ 62
    → t % 4 ≡ c % 4
    → (lands_at c (branch_imm t c) ≡ t) × (branch_imm t c < 2 ^ 64)
unfolding branch_imm
branch_imm-lands t c small_t small_c same = (ground arith, ground arith)

-- The displacement in a word, by the kind of the branch.
abbrev pub displacement : FixupKind → ℕ → ℕ
displacement FixupKind.branch19 word = signed_field 19 (word / 2 ^ 5 % 2 ^ 19)
displacement _ word = signed_field 26 (word % 2 ^ 26)

-- The bits of the immediate.
abbrev pub bits_of : FixupKind → ℕ
bits_of FixupKind.branch19 = 19
bits_of _ = 26

-- The bits of the word that are not of the immediate.
abbrev pub opcode_bits : FixupKind → ℕ → ℕ × ℕ
opcode_bits FixupKind.branch19 word = (word / 2 ^ 24, word % 2 ^ 5)
opcode_bits _ word = (word / 2 ^ 26, 0)

-- A branch to `target` stands at `code_offset`; the opcode and all bytes outside are as before.
pub record BranchesTo (kind : FixupKind) (bytes bytes1 : List ℕ) (code_offset target old : ℕ)
    : Type 0 where
  pub word : ℕ
  pub written : HasWord bytes1 code_offset word
  pub lands : lands_at code_offset (displacement kind word) ≡ target
  pub opcode : opcode_bits kind word ≡ opcode_bits kind old
  pub size : length bytes1 ≡ length bytes
  pub others : SameOutside bytes code_offset bytes1

-- What a patch comes to: the branch goes to its target, or the displacement does not fit the
-- bits of the immediate, and nothing is written.
pub data Patched (kind : FixupKind) (bytes : List ℕ) (code_offset target old : ℕ)
    (result : Outcome (List ℕ × Bool)) : Type 0 where
  landed :
      (bytes1 : List ℕ)
      → fits_signed_immediate (branch_imm target code_offset) (bits_of kind) ≡ true
      → result ≡ done (bytes1, true)
      → BranchesTo kind bytes bytes1 code_offset target old
      → Patched kind bytes code_offset target old result
  refused :
      fits_signed_immediate (branch_imm target code_offset) (bits_of kind) ≡ false
      → result ≡ done (bytes, false)
      → Patched kind bytes code_offset target old result

-- A kind of branch, with the function that puts an immediate into a word.
pub record IsBranch (kind : FixupKind) (patched : ℕ → ℕ → ℕ) : Type 0 where
  pub decodes :
      (word imm : ℕ)
      → word < 2 ^ 32
      → imm < 2 ^ 64
      → fits_signed_immediate imm (bits_of kind) ≡ true
      → displacement kind (patched word imm) ≡ imm
  pub keeps :
      (word imm : ℕ) → word < 2 ^ 32 → opcode_bits kind (patched word imm) ≡ opcode_bits kind word

pub branch26-IsBranch : IsBranch FixupKind.branch26 patched26
branch26-IsBranch = record {
  decodes = λ word imm small fits_word fits.
      let fields = patched26-fields word imm small in
      ap (λ x. signed_field 26 x) fields.0 ∙ signed26-fits imm fits_word fits;
  keeps = λ word imm small.
      let fields = patched26-fields word imm small in ap (λ (x : ℕ). (x, ◌+◌ 0 0)) fields.1;
}

pub branch19-IsBranch : IsBranch FixupKind.branch19 patched19
branch19-IsBranch = record {
  decodes = λ word imm small fits_word fits.
      let fields = patched19-fields word imm small in
      ap (λ x. signed_field 19 x) fields.0 ∙ signed19-fits imm fits_word fits;
  keeps = λ word imm small.
      let fields = patched19-fields word imm small in
      let high : patched19 word imm / 2 ^ 24 ≡ word / 2 ^ 24 = let e = fields.2 in omega arith in
      λ i. (high i, fields.1 i);
}

pub patch_branch-Patched :
    (kind : FixupKind) (patched : ℕ → ℕ → ℕ) (bytes : List ℕ) (c t word : ℕ)
    → IsBranch kind patched
    → t < 2 ^ 62
    → c < 2 ^ 62
    → t % 4 ≡ c % 4
    → word < 2 ^ 32
    → c + 4 ≤ length bytes
    → HasWord bytes c word
    → Patched kind bytes c t word (patch_branch bytes c (bits_of kind) patched (branch_imm t c))
unfolding patch_branch
patch_branch-Patched kind patched bytes c t word branch small_t small_c same small inside at =
    let imm = branch_imm t c in
    let read = read_word-HasWord c word small at in
    let way = branch_imm-lands t c small_t small_c same in
    elim (Bool-cases (fits_signed_immediate imm (bits_of kind))) [
      | inl fits ↦
          let put = patch_word-IsPatched bytes c (patched word imm) inside in
          landed put.0 fits (rw (patch_branch, read, fits, put.1) refl) (record {
            word = patched word imm;
            written = put.2.written;
            lands = ap (λ k. lands_at c k) (branch.decodes word imm small way.1 fits) ∙ way.0;
            opcode = branch.keeps word imm small;
            size = put.2.size;
            others = put.2.others;
          })
      | inr far ↦ refused far (rw (patch_branch, read, far) refl)
    ]
