-- ===== src/Support/Memory.antt =====
-- src/support/arena.c: the counters of allocated bytes, and growing a buffer. An allocation that
-- fails aborts the program and is left out; the sizes are `size_t`, and wrap.
pub mod Grow
pub mod Tracker
use nybit.Base.{
  ℕ, zero, suc, ◌+◌, ◌-◌, ◌*◌, ◌%◌, ◌^◌, Bool, true, false, ltb, leb, ◌==◌, if◌then◌else◌,
}
use nybit.Base.Outcome.{Outcome, done, aborted}

-- `Ny_Mem_Tracker`
pub record MemTracker : Type 0 where
  pub current_allocated : ℕ
  pub peak_allocated : ℕ
  pub total_alloc_count : ℕ
  pub total_free_count : ℕ

abbrev pub raise_peak : MemTracker → MemTracker
raise_peak t =
    if ltb t.peak_allocated t.current_allocated
    then record t { peak_allocated = t.current_allocated }
    else t

-- `ny_alloc`
unfoldable pub alloc : MemTracker → ℕ → MemTracker
alloc t size =
    if size == 0
    then t
    else (let raised =
          raise_peak (record t { current_allocated = (t.current_allocated + size) % 2 ^ 64 }) in
        record raised { total_alloc_count = (raised.total_alloc_count + 1) % 2 ^ 64 })

-- `ny_free`; `is_null` is the test of the pointer.
unfoldable pub free : MemTracker → Bool → ℕ → Outcome MemTracker
free t is_null size =
    if is_null
    then done t
    else if ltb t.current_allocated size
    then aborted
    else done (record t {
      current_allocated = t.current_allocated - size;
      total_free_count = (t.total_free_count + 1) % 2 ^ 64;
    })

-- `ny_realloc`
unfoldable pub realloc : MemTracker → Bool → ℕ → ℕ → Outcome MemTracker
unfolding alloc free
realloc t is_null old_size new_size =
    if new_size == 0
    then free t is_null old_size
    else if is_null
    then done (alloc t new_size)
    else done (
        raise_peak (record t {
          current_allocated = (t.current_allocated + new_size + (2 ^ 64 - old_size)) % 2 ^ 64;
        }))

-- The loop of `ny_buf_grow`.
unfoldable pub double_until : ℕ → ℕ → ℕ → ℕ
double_until zero new_cap count = new_cap
double_until (suc fuel) new_cap count = elim (leb new_cap count) [
  | true ↦ double_until fuel (new_cap * 2 % 2 ^ 64) count
  | false ↦ new_cap
]

-- The capacity that `ny_buf_grow` leaves. A `size_t` is doubled 64 times at most.
unfoldable pub grown_capacity : ℕ → ℕ → ℕ
unfolding double_until
grown_capacity capacity count =
    if ltb count capacity
    then capacity
    else double_until 64 (if capacity == 0 then 8 else capacity * 2 % 2 ^ 64) count
