-- ===== src/Target/Aarch64/Patch.antt =====
-- src/target/aarch64/aarch64_encode.c: the branches of a function are patched once the offsets of
-- its blocks are known.
pub mod Decode
pub mod Branch
pub mod Placed
pub mod All
pub mod Emit
pub mod Starts
pub mod Branches
pub mod Gained
pub mod Whole
use nybit.Base.{
  ℕ, zero, suc, ◌+◌, ◌-◌, ◌*◌, ◌/◌, ◌%◌, ◌^◌, Bool, true, false, ◌&&◌, ◌||◌, Option, none, some,
  List, [], ◌∷◌, length, get_elem?, set, ltb, leb, ◌==◌, if◌then◌else◌, bit_and, bit_or,
}
use nybit.Base.Outcome.{Outcome, done, faulted, ◌>>=◌}
use nybit.Word.{sar64}
use nybit.Analysis.UseDef.{replicate}
use nybit.Target.Aarch64.{Instruction, FixupKind, Fixup, CodeBuffer}
use nybit.Target.Aarch64.Buffer.{read_word, patch_word}
use nybit.Target.Aarch64.Encode.{encode_instruction}
use nybit.Target.Aarch64.Encode.Fields.{shl32}

-- `fits_signed_immediate` on the pattern of an `int64_t`.
unfoldable pub fits_signed_immediate : ℕ → ℕ → Bool
fits_signed_immediate val bits = ltb val (2 ^ (bits - 1)) || leb (2 ^ 64 - 2 ^ (bits - 1)) val

-- The word with the immediate of the branch in place.
unfoldable pub patched26 : ℕ → ℕ → ℕ
patched26 word imm = bit_or (bit_and word 0xFC000000) (bit_and (imm % 2 ^ 32) 0x03FFFFFF)

unfoldable pub patched19 : ℕ → ℕ → ℕ
patched19 word imm = bit_or (bit_and word 0xFF00001F) (shl32 (bit_and (imm % 2 ^ 32) 0x7FFFF) 5)

-- `delta >> 2`
unfoldable pub branch_imm : ℕ → ℕ → ℕ
branch_imm target_offset code_offset = sar64 ((target_offset + 2 ^ 64 - code_offset) % 2 ^ 64) 2

-- A branch whose displacement is known: the bytes afterwards, and whether the call goes on.
unfoldable pub patch_branch : List ℕ → ℕ → ℕ → (ℕ → ℕ → ℕ) → ℕ → Outcome (List ℕ × Bool)
unfolding read_word patch_word fits_signed_immediate
patch_branch bytes code_offset bits patched imm = read_word bytes code_offset >>= (λ word.
    if fits_signed_immediate imm bits
    then (patch_word bytes code_offset (patched word imm) >>= (λ bytes1. done (bytes1, true)))
    else done (bytes, false))

-- The offset of the target block, in the array of `max_id + 1` entries.
abbrev pub block_offset : List ℕ → ℕ → Outcome ℕ
block_offset block_offsets b = elim (get_elem? block_offsets b) [ none ↦ faulted | some o ↦ done o ]

-- A fixup of a branch, with the bits and the place of its immediate.
abbrev pub patch_to : List ℕ → ℕ → List ℕ → Fixup → ℕ → (ℕ → ℕ → ℕ) → Outcome (List ℕ × Bool)
patch_to block_offsets max_id bytes fixup bits patched =
    if ltb max_id fixup.target_block
    then done (bytes, true)
    else (block_offset block_offsets fixup.target_block >>= (λ target_offset.
        patch_branch bytes fixup.code_offset bits patched
          (branch_imm target_offset fixup.code_offset)))

abbrev pub patch_kind : FixupKind → List ℕ → ℕ → List ℕ → Fixup → Outcome (List ℕ × Bool)
patch_kind FixupKind.branch26 block_offsets max_id bytes fixup =
    patch_to block_offsets max_id bytes fixup 26 patched26
patch_kind FixupKind.branch19 block_offsets max_id bytes fixup =
    patch_to block_offsets max_id bytes fixup 19 patched19
patch_kind _ block_offsets max_id bytes fixup = done (bytes, true)

-- The loop over the fixups.
unfoldable pub apply_fixups : List ℕ → ℕ → List ℕ → List Fixup → Outcome (List ℕ × Bool)
unfolding patch_branch branch_imm patched26 patched19
apply_fixups block_offsets max_id bytes [] = done (bytes, true)
apply_fixups block_offsets max_id bytes (fixup ∷ fixups) =
    patch_kind fixup.kind block_offsets max_id bytes fixup
    >>= (λ r. elim r.1 [ true ↦ apply_fixups block_offsets max_id r.0 fixups | false ↦ done r ])

-- `AArch64_Block`, but for the name.
pub record Block : Type 0 where
  pub id : ℕ
  pub instructions : List Instruction

-- The largest id of a block.
abbrev pub largest_id : ℕ → List Block → ℕ
largest_id max_id [] = max_id
largest_id max_id (b ∷ bs) = largest_id (if ltb max_id b.id then b.id else max_id) bs

-- The loop over the instructions of a block.
unfoldable pub encode_instructions : CodeBuffer → List Instruction → Outcome (CodeBuffer × Bool)
unfolding encode_instruction
encode_instructions buf [] = done (buf, true)
encode_instructions buf (inst ∷ insts) =
    encode_instruction buf inst
    >>= (λ r. elim r.1 [ true ↦ encode_instructions r.0 insts | false ↦ done r ])

-- The loop over the blocks: the buffer, the offsets and whether all went well.
unfoldable pub encode_blocks :
    ℕ → CodeBuffer → List ℕ → List Block → Outcome (CodeBuffer × List ℕ × Bool)
unfolding encode_instructions
encode_blocks max_id buf offsets [] = done (buf, offsets, true)
encode_blocks max_id buf offsets (b ∷ bs) =
    let marked = if leb b.id max_id then set offsets b.id (length buf.bytes) else offsets in
    encode_instructions buf b.instructions >>= (λ r. elim r.1 [
      | true ↦ encode_blocks max_id r.0 marked bs
      | false ↦ done (r.0, marked, false)
    ])

abbrev pub drop : ℕ → List Fixup → List Fixup
drop zero fixups = fixups
drop (suc n) [] = []
drop (suc n) (f ∷ fixups) = drop n fixups

-- `aarch64_encode_function`
unfoldable pub encode_function : CodeBuffer → List Block → Outcome (CodeBuffer × Bool)
unfolding encode_blocks apply_fixups
encode_function buf blocks =
    let max_id = largest_id 0 blocks in
    encode_blocks max_id buf (replicate ((max_id + 1) % 2 ^ 32) 0) blocks >>= (λ r. elim r.2 [
      | false ↦ done (r.0, false)
      | true ↦
          apply_fixups r.1 max_id r.0.bytes (drop (length buf.fixups) r.0.fixups)
          >>= (λ p. done (record r.0 { bytes = p.0 }, p.1))
    ])
