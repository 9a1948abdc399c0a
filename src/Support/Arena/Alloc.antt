-- ===== src/Support/Arena/Alloc.antt =====
-- An allocation lies in its block, aligned, and behind those before it.
use nybit.Base.{
  ℕ, ◌+◌, ◌-◌, ◌%◌, ◌^◌, ◌≤◌, ◌<◌, ◌≡◌, ◌⊎◌, arith, refl, false, Bool-cases, inl, inr, some, List,
  [], ◌∷◌, leb, ◌==◌,
}
use nybit.Ir.Types.Layout.{align_up_mod}
use nybit.Support.Arena.{
  ArenaBlock, Arena, align_forward, alloc_aligned, alloc_in_new_block, arena_alloc,
}
use native.Mathlib.Nat.{mod-lt, mod-eq_of_lt}

-- How much of the head block is used, if there is one, and its capacity.
abbrev pub head_used : Arena → ℕ
head_used arena = elim arena.blocks [ [] ↦ 0 | b ∷ bs ↦ b.used ]

abbrev pub head_capacity : Arena → ℕ
head_capacity arena = elim arena.blocks [ [] ↦ 0 | b ∷ bs ↦ b.capacity ]

abbrev pub older_blocks : Arena → List ArenaBlock
older_blocks arena = elim arena.blocks [ [] ↦ [] | b ∷ bs ↦ bs ]

align_forward_lem :
    (x a : ℕ)
    → 1 ≤ a
    → x + a < 2 ^ 64
    → (align_forward x a % a ≡ 0) × (x ≤ align_forward x a) × (align_forward x a < x + a)
unfolding align_forward
align_forward_lem x a h fits = elim (Bool-cases (leb a 1)) [
  | inl one ↦ let e : a ≡ 1 = ground arith in rw one (rw e (omega arith, omega arith, omega arith))
  | inr wide ↦ elim (Bool-cases (x % a == 0)) [
    | inl whole ↦ rw (wide, whole) (ground arith)
    | inr part ↦
        let below : x % a < a = mod-lt x h in
        let same : (x + (a - x % a)) % 2 ^ 64 ≡ x + (a - x % a) = mod-eq_of_lt (ground arith) in
        rw (wide, part, same) (align_up_mod x a h, omega arith, ground arith)
  ]
]

-- What an allocation of `size` bytes at `offset` has come to.
pub record IsAllocated (before : Arena) (size align offset : ℕ) (after : Arena) : Type 0 where
  pub aligned : offset % align ≡ 0
  pub in_block : offset + size ≤ head_capacity after
  pub used : head_used after ≡ offset + size
  -- Either the head block goes on behind what was used of it, or a new one is put before it.
  pub apart :
      ((head_used before ≤ offset) × (older_blocks after ≡ older_blocks before))
      ⊎ (older_blocks after ≡ before.blocks)

module _ (arena : Arena) (size align : ℕ) where
  new_block-IsAllocated :
      1 ≤ align
      → size + align + 64 < 2 ^ 64
      → IsAllocated arena size align
          (alloc_in_new_block arena size align).0
          (alloc_in_new_block arena size align).1
  unfolding alloc_in_new_block
  new_block-IsAllocated h fits =
      let at = align_forward_lem 0 align h (omega arith) in
      record { aligned = at.0; in_block = ground arith; used = refl; apart = inr refl }

alloc_aligned-IsAllocated :
    (blocks : List ArenaBlock) (d t size align : ℕ)
    → 1 ≤ align
    → head_used (record { blocks = blocks; default_block_size = d; total_allocated = t })
        + size
        + align
        + 64
      < 2 ^ 64
    → IsAllocated
        (record { blocks = blocks; default_block_size = d; total_allocated = t })
        size
        align
        (alloc_aligned
          (record { blocks = blocks; default_block_size = d; total_allocated = t })
          size
          align).0
        (alloc_aligned
          (record { blocks = blocks; default_block_size = d; total_allocated = t })
          size
          align).1
unfolding alloc_aligned
alloc_aligned-IsAllocated [] d t size align h fits =
    new_block-IsAllocated (record { blocks = []; default_block_size = d; total_allocated = t }) size
      align h (omega arith)
alloc_aligned-IsAllocated (cur ∷ older) d t size align h fits =
    let arena : Arena = record {
      blocks = cur ∷ older;
      default_block_size = d;
      total_allocated = t;
    } in
    let at = align_forward_lem cur.used align h (omega arith) in
    let start = align_forward cur.used align in
    let same : (start + size) % 2 ^ 64 ≡ start + size = mod-eq_of_lt (ground arith) in
    elim (Bool-cases (leb (start + size) cur.capacity)) [
      | inl room ↦
          rw (same, room)
            (record {
              aligned = at.0;
              in_block = ground arith;
              used = refl;
              apart = inl (at.1, refl);
            })
      | inr full ↦ rw (same, full) (new_block-IsAllocated arena size align h (omega arith))
    ]

-- Where the sizes stay below 2^64, an allocation of some bytes at an alignment that is not 0
-- succeeds at an aligned offset, ends inside the block, is all that the block uses beyond it,
-- and either begins behind what was used of the head block, the older blocks staying, or opens
-- a block before all others.
pub arena_alloc-IsAllocated :
    (arena : Arena) (size align : ℕ)
    → 1 ≤ size
    → 1 ≤ align
    → head_used arena + size + align + 64 < 2 ^ 64
    → (offset : ℕ) × ((arena_alloc arena size align).0 ≡ some offset)
      × IsAllocated arena size align offset (arena_alloc arena size align).1
unfolding arena_alloc
arena_alloc-IsAllocated arena size align some_size some_align fits =
    let sized : (size == 0) ≡ false = ground arith in
    let given : (align == 0) ≡ false = ground arith in
    (
      (alloc_aligned arena size align).0,
      rw (sized, given) refl,
      rw (sized, given)
          (alloc_aligned-IsAllocated arena.blocks arena.default_block_size arena.total_allocated
            size align some_align fits),
    )
