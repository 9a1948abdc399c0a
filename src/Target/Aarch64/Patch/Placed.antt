-- ===== src/Target/Aarch64/Patch/Placed.antt =====
-- Where the fixups of src/target/aarch64/aarch64_encode.c stand, and what a patched one means.
use nybit.Base.{
  ℕ, ◌+◌, ◌%◌, ◌^◌, ◌<◌, ◌≤◌, ◌≡◌, ◌⊎◌, ◌∙◌, arith, Bool, true, false, some, List, [], ◌∷◌, length,
  get_elem?, All as AllOf,
}
use nybit.Target.Aarch64.{FixupKind, Fixup}
use nybit.Target.Aarch64.Buffer.{HasWord, SameOutside}
use nybit.Target.Aarch64.Patch.Branch.{lands_at, displacement}

-- A word stands at the fixup's offset, which is a multiple of four.
pub record Sited (bytes : List ℕ) (f : Fixup) : Type 0 where
  pub word : ℕ
  pub small : word < 2 ^ 32
  pub at : HasWord bytes f.code_offset word
  pub inside : f.code_offset + 4 ≤ length bytes
  pub aligned : f.code_offset % 4 ≡ 0

-- The words of the fixups stand one after the other, from `lo` on.
abbrev pub Ascending : ℕ → List Fixup → Type 0
Ascending lo [] = Unit {0}
Ascending lo (f ∷ fixups) = (lo ≤ f.code_offset) × Ascending (f.code_offset + 4) fixups

abbrev pub is_branch : FixupKind → Bool
is_branch FixupKind.branch26 = true
is_branch FixupKind.branch19 = true
is_branch _ = false

-- How far a branch leads: a field of 26 or 19 bits, in words of four bytes.
abbrev pub reach : FixupKind → ℕ
reach FixupKind.branch19 = 2 ^ 20
reach _ = 2 ^ 27

-- The offsets of the blocks are `to`, and an id above `max_id` is of no block.
pub record HasOffsets (offsets : List ℕ) (max_id : ℕ) (to : ℕ → ℕ) (Absent : ℕ → Type 0)
    : Type 0 where
  pub known : (b : ℕ) → b ≤ max_id → get_elem? offsets b ≡ some (to b)
  pub small : (b : ℕ) → b ≤ max_id → to b < 2 ^ 62
  pub aligned : (b : ℕ) → b ≤ max_id → to b % 4 ≡ 0
  pub absent : (b : ℕ) → max_id < b → Absent b

-- The fixup is no branch to a block of the function, or the branch goes to the block.
pub data Placed (to : ℕ → ℕ) (Absent : ℕ → Type 0) (bytes : List ℕ) (f : Fixup) : Type 0 where
  no_branch : is_branch f.kind ≡ false → Placed to Absent bytes f
  no_block : Absent f.target_block → Placed to Absent bytes f
  goes :
      (word : ℕ)
      → HasWord bytes f.code_offset word
      → lands_at f.code_offset (displacement f.kind word) ≡ to f.target_block
      → Placed to Absent bytes f

-- The fixup is a branch to a block that lies further away than its field can say.
pub record IsTooFar (to : ℕ → ℕ) (max_id : ℕ) (f : Fixup) : Type 0 where
  pub branch : is_branch f.kind ≡ true
  pub block : f.target_block ≤ max_id
  pub far :
      (f.code_offset + reach f.kind ≤ to f.target_block)
      ⊎ (to f.target_block + reach f.kind < f.code_offset)

pub HasWord-same :
    {bytes bytes1 : List ℕ} {c word : ℕ} (lo : ℕ)
    → ((j : ℕ) → j < lo → get_elem? bytes1 j ≡ get_elem? bytes j)
    → c + 4 ≤ lo
    → HasWord bytes c word
    → HasWord bytes1 c word
HasWord-same {c = c} lo same below h = record {
  byte0 = same c (omega arith) ∙ h.byte0;
  byte1 = same (c + 1) (omega arith) ∙ h.byte1;
  byte2 = same (c + 2) (omega arith) ∙ h.byte2;
  byte3 = same (c + 3) (omega arith) ∙ h.byte3;
}

pub Placed-same :
    (to : ℕ → ℕ) (Absent : ℕ → Type 0) (bytes bytes1 : List ℕ) (f : Fixup) (lo : ℕ)
    → ((j : ℕ) → j < lo → get_elem? bytes1 j ≡ get_elem? bytes j)
    → f.code_offset + 4 ≤ lo
    → Placed to Absent bytes f
    → Placed to Absent bytes1 f
Placed-same to Absent bytes bytes1 f lo same below (no_branch e) = no_branch e
Placed-same to Absent bytes bytes1 f lo same below (no_block e) = no_block e
Placed-same to Absent bytes bytes1 f lo same below (goes word at lands) =
    goes word (HasWord-same lo same below at) lands

pub Sited-outside :
    (bytes bytes1 : List ℕ) (c : ℕ) (fixups : List Fixup) (lo : ℕ)
    → SameOutside bytes c bytes1
    → length bytes1 ≡ length bytes
    → c + 4 ≤ lo
    → Ascending lo fixups
    → AllOf (Sited bytes) fixups
    → AllOf (Sited bytes1) fixups
Sited-outside bytes bytes1 c [] lo same size below asc h = tt
Sited-outside bytes bytes1 c (f ∷ fixups) lo same size below asc h =
    let s = h.0 in
    let o = f.code_offset in
    let above = asc.0 in
    let inside = s.inside in
    let out = λ (j : ℕ) (le : o ≤ j). same j (ground (arith, le, above, below)) in
    (
      record {
        word = s.word;
        small = s.small;
        at = record {
          byte0 = out o (omega arith) ∙ s.at.byte0;
          byte1 = out (o + 1) (omega arith) ∙ s.at.byte1;
          byte2 = out (o + 2) (omega arith) ∙ s.at.byte2;
          byte3 = out (o + 3) (omega arith) ∙ s.at.byte3;
        };
        inside = omega arith;
        aligned = s.aligned;
      },
      Sited-outside bytes bytes1 c fixups (o + 4) same size (omega arith) asc.1 h.1,
    )
