-- ===== src/Support/Arena.antt =====
-- src/support/arena.c: the arena. A block is its capacity and how much of it is used; `data` begins
-- at offset 0. The newest block is the head of the list.
pub mod Alloc
use nybit.Base.{
  ℕ, ◌+◌, ◌-◌, ◌*◌, ◌%◌, ◌^◌, Bool, true, false, Option, none, some, List, [], ◌∷◌, map, length,
  ltb, leb, ◌==◌, if◌then◌else◌,
}

-- `Ny_Arena_Block`
pub record ArenaBlock : Type 0 where
  pub capacity : ℕ
  pub used : ℕ

-- `Ny_Arena`
pub record Arena : Type 0 where
  pub blocks : List ArenaBlock
  pub default_block_size : ℕ
  pub total_allocated : ℕ

-- `sizeof(Ny_Arena_Block)`: a pointer and two sizes of 64 bits
abbrev pub block_header : ℕ
block_header = 24

-- `ny_arena_init`
unfoldable pub arena_init : ℕ → Arena
arena_init default_block_size = record {
  blocks = [];
  default_block_size = if ltb 0 default_block_size then default_block_size else 64 * 1024;
  total_allocated = 0;
}

unfoldable pub align_forward : ℕ → ℕ → ℕ
align_forward ptr align =
    if leb align 1
    then ptr
    else if ptr % align == 0
    then ptr
    else (ptr + (align - ptr % align)) % 2 ^ 64

-- The end of `ny_arena_alloc`, which opens a new block. The result is the offset in it.
unfoldable pub alloc_in_new_block : Arena → ℕ → ℕ → ℕ × Arena
unfolding align_forward
alloc_in_new_block arena size align =
    let need = (size + align) % 2 ^ 64 in
    let block_size =
      if ltb arena.default_block_size need
      then (need + 64) % 2 ^ 64
      else arena.default_block_size in
    let aligned_used = align_forward 0 align in
    (
      aligned_used,
      record arena {
        blocks = record { capacity = block_size; used = aligned_used + size } ∷ arena.blocks;
        total_allocated = (arena.total_allocated + (block_header + block_size)) % 2 ^ 64;
      },
    )

-- `ny_arena_alloc` from its third statement on.
unfoldable pub alloc_aligned : Arena → ℕ → ℕ → ℕ × Arena
unfolding align_forward alloc_in_new_block
alloc_aligned arena size align = elim arena.blocks [
  | [] ↦ alloc_in_new_block arena size align
  | cur ∷ older ↦
      let aligned_used = align_forward cur.used align in
      let end = (aligned_used + size) % 2 ^ 64 in
      if leb end cur.capacity
      then (aligned_used, record arena { blocks = record cur { used = end } ∷ older })
      else alloc_in_new_block arena size align
]

-- `ny_arena_alloc`: null, or an offset in the block that is the head afterwards.
unfoldable pub arena_alloc : Arena → ℕ → ℕ → Option ℕ × Arena
unfolding alloc_aligned
arena_alloc arena size align =
    let at = alloc_aligned arena size (if align == 0 then 8 else align) in
    if size == 0 then (none, arena) else (some at.0, at.1)

-- `ny_arena_reset`
unfoldable pub arena_reset : Arena → Arena
arena_reset arena = record arena {
  blocks = map {A = ArenaBlock} {B = ArenaBlock} (λ b. record b { used = 0 }) arena.blocks;
}
