-- ===== src/Examples/Memory.antt =====
-- src/support/arena.c at concrete inputs.
use nybit.Base.{ℕ, ◌<◌, ◌≡◌, refl, arith, false, some, [], ◌∷◌, ◌==◌}
use nybit.Base.Outcome.{done}
use nybit.Support.Memory.{MemTracker, alloc, free, realloc, grown_capacity}
use nybit.Support.Memory.Grow.{grown_capacity-lt}
use nybit.Support.Memory.Tracker.{IsBounded, free-alloc, realloc-IsBounded}
use nybit.Support.Arena.{Arena, arena_alloc}
use nybit.Support.Arena.Alloc.{IsAllocated, arena_alloc-IsAllocated}

grown_capacity-lt_example : 100 < grown_capacity 32 100
grown_capacity-lt_example = grown_capacity-lt 32 100 (omega arith)

abbrev tracker : MemTracker
tracker = record {
  current_allocated = 40;
  peak_allocated = 64;
  total_alloc_count = 3;
  total_free_count = 1;
}

free-alloc_example :
    (next : MemTracker) × (free (alloc tracker 16) (16 == 0) 16 ≡ done next)
    × (next.current_allocated ≡ 40)
free-alloc_example = free-alloc tracker 16 (omega arith)

abbrev moved : MemTracker
moved = record {
  current_allocated = 104;
  peak_allocated = 104;
  total_alloc_count = 3;
  total_free_count = 1;
}

run : realloc tracker false 16 80 ≡ done moved
unfolding realloc
run = refl

realloc-IsBounded_example : IsBounded moved
realloc-IsBounded_example = realloc-IsBounded tracker false 16 80 (omega arith) run

abbrev arena : Arena
arena = record {
  blocks = record { capacity = 128; used = 13 } ∷ [];
  default_block_size = 128;
  total_allocated = 152;
}

arena_alloc-IsAllocated_example :
    (offset : ℕ) × ((arena_alloc arena 24 8).0 ≡ some offset)
    × IsAllocated arena 24 8 offset (arena_alloc arena 24 8).1
arena_alloc-IsAllocated_example =
    arena_alloc-IsAllocated arena 24 8 (omega arith) (omega arith) (omega arith)
