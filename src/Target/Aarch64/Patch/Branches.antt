-- ===== src/Target/Aarch64/Patch/Branches.antt =====
-- src/target/aarch64/aarch64_encode.c: every branch to a block leaves a fixup.
use nybit.Base.{ℕ, suc, ◌+◌, ◌*◌, ◌≡◌, Option, none, some, List, [], ◌∷◌, ◌++◌, length}
use nybit.Analysis.Cfg.Reach.{IsListed}
use nybit.Target.Aarch64.{Operand, Opcode, Instruction, FixupKind, Fixup}
use nybit.Target.Aarch64.Patch.{Block}

-- The block that an instruction branches to, with the field that its word has for it.
abbrev pub branch_of : Opcode → List Operand → Option (FixupKind × ℕ)
branch_of Opcode.b (Operand.label t ∷ ops) = some (FixupKind.branch26, t)
branch_of Opcode.bl (Operand.label t ∷ ops) = some (FixupKind.branch26, t)
branch_of Opcode.bcond (Operand.label t ∷ ops) = some (FixupKind.branch19, t)
branch_of _ _ = none

-- A branch of this kind at this offset, with its target, is among the fixups.
pub record IsNoted (fixups : List Fixup) (at : ℕ) (kind : FixupKind) (t : ℕ) : Type 0 where
  pub fixup : Fixup
  pub listed : IsListed fixup fixups
  pub offset : fixup.code_offset ≡ at
  pub same_kind : fixup.kind ≡ kind
  pub target : fixup.target_block ≡ t

-- The branches of instructions from an offset on are among the fixups.
abbrev pub AreNoted : List Fixup → ℕ → List Instruction → Type 0
AreNoted fixups at [] = Unit {0}
AreNoted fixups at (inst ∷ insts) =
    ((kind : FixupKind) (t : ℕ)
      → branch_of inst.opcode inst.ops ≡ some (kind, t)
      → IsNoted fixups at kind t)
    × AreNoted fixups (at + 4) insts

-- So are those of all blocks.
abbrev pub HasBranches : List Fixup → ℕ → List Block → Type 0
HasBranches fixups at [] = Unit {0}
HasBranches fixups at (b ∷ blocks) =
    AreNoted fixups at b.instructions × HasBranches fixups (at + 4 * length b.instructions) blocks

pub IsListed-append_right : (f : Fixup) (xs ys : List Fixup) → IsListed f ys → IsListed f (xs ++ ys)
IsListed-append_right f [] ys h = h
IsListed-append_right f (x ∷ xs) ys h =
    let rest = IsListed-append_right f xs ys h in record { at = suc rest.at; found = rest.found }

module _ (xs ys : List Fixup) (more : (f : Fixup) → IsListed f xs → IsListed f ys) where
  pub IsNoted-more :
      {at : ℕ} {kind : FixupKind} {t : ℕ} → IsNoted xs at kind t → IsNoted ys at kind t
  IsNoted-more h = record {
    fixup = h.fixup;
    listed = more h.fixup h.listed;
    offset = h.offset;
    same_kind = h.same_kind;
    target = h.target;
  }

  pub AreNoted-more :
      (at : ℕ) (insts : List Instruction) → AreNoted xs at insts → AreNoted ys at insts
  AreNoted-more at [] h = tt
  AreNoted-more at (inst ∷ insts) h =
      (λ kind t e. IsNoted-more (h.0 kind t e), AreNoted-more (at + 4) insts h.1)

  pub HasBranches-more :
      (at : ℕ) (blocks : List Block) → HasBranches xs at blocks → HasBranches ys at blocks
  HasBranches-more at [] h = tt
  HasBranches-more at (b ∷ blocks) h = (
    AreNoted-more at b.instructions h.0,
    HasBranches-more (at + 4 * length b.instructions) blocks h.1,
  )
