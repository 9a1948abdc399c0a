-- ===== src/Support/Memory/Tracker.antt =====
-- The counters agree with each other.
use nybit.Base.{
  ℕ, ◌+◌, ◌-◌, ◌≤◌, ◌<◌, ◌^◌, ◌≡◌, arith, refl, sym, ◌%◌, Bool, true, false, Bool-cases, inl, inr,
  ltb, ◌==◌,
}
use nybit.Base.Outcome.{done}
use nybit.Support.Memory.{MemTracker, alloc, free, realloc, raise_peak}

alloc_current :
    (t : MemTracker) (size : ℕ)
    → t.current_allocated + size < 2 ^ 64
    → (alloc t size).current_allocated ≡ t.current_allocated + size
unfolding alloc
alloc_current t size h = ground arith

-- Where the sum does not pass 64 bits, releasing an allocation of the same size succeeds and
-- the allocated bytes are what they were before both.
pub free-alloc :
    (t : MemTracker) (size : ℕ)
    → t.current_allocated + size < 2 ^ 64
    → (next : MemTracker) × (free (alloc t size) (size == 0) size ≡ done next)
      × (next.current_allocated ≡ t.current_allocated)
unfolding free
free-alloc t size h =
    let a = alloc t size in
    let now = alloc_current t size h in
    let enough : ltb a.current_allocated size ≡ false = ground arith in
    elim (Bool-cases (size == 0)) [
      | inl zero ↦ (a, rw zero refl, ground arith)
      | inr some_bytes ↦ (
        record a {
          current_allocated = a.current_allocated - size;
          total_free_count = (a.total_free_count + 1) % 2 ^ 64;
        },
        rw (some_bytes, enough) refl,
        omega (arith, now),
      )
    ]

-- The peak is at least what is allocated now.
abbrev pub IsBounded : MemTracker → Type 0
IsBounded t = t.current_allocated ≤ t.peak_allocated

alloc-IsBounded : (t : MemTracker) (size : ℕ) → IsBounded t → IsBounded (alloc t size)
unfolding alloc
alloc-IsBounded t size h = ground arith

free-IsBounded :
    (t : MemTracker) (is_null : Bool) (size : ℕ) {next : MemTracker}
    → IsBounded t
    → free t is_null size ≡ done next
    → IsBounded next
unfolding free
free-IsBounded t true size h e = ground arith
free-IsBounded t false size {next = next} h e = elim (Bool-cases (ltb t.current_allocated size)) [
  | inl short ↦ absurd (let e' = rw short at e in cc)
  | inr enough ↦
      let e' = rw enough at e in
      let now : t.current_allocated - size ≡ next.current_allocated = cc in
      let peak : t.peak_allocated ≡ next.peak_allocated = cc in omega arith
]

raise_peak-IsBounded : (t : MemTracker) → IsBounded (raise_peak t)
raise_peak-IsBounded t = ground arith

realloc_kept :
    (t : MemTracker) (is_null : Bool) (old_size new_size : ℕ) {next : MemTracker}
    → IsBounded t
    → (new_size == 0) ≡ false
    → realloc t is_null old_size new_size ≡ done next
    → IsBounded next
unfolding realloc
realloc_kept t true old_size new_size {next = next} h keep e =
    let e' = rw keep at e in
    let same : alloc t new_size ≡ next = cc in rw (sym same) (alloc-IsBounded t new_size h)
realloc_kept t false old_size new_size {next = next} h keep e =
    let e' = rw keep at e in
    let moved = record t {
      current_allocated = (t.current_allocated + new_size + (2 ^ 64 - old_size)) % 2 ^ 64;
    } in
    let same : raise_peak moved ≡ next = cc in rw (sym same) (raise_peak-IsBounded moved)

-- A reallocation that returns keeps the peak at least as high as what is allocated, be it a
-- release, a first allocation or a move.
pub realloc-IsBounded :
    (t : MemTracker) (is_null : Bool) (old_size new_size : ℕ) {next : MemTracker}
    → IsBounded t
    → realloc t is_null old_size new_size ≡ done next
    → IsBounded next
unfolding realloc
realloc-IsBounded t is_null old_size new_size {next = next} h e =
    elim (Bool-cases (new_size == 0)) [
      | inl release ↦ free-IsBounded t is_null old_size h (rw release at e)
      | inr keep ↦ realloc_kept t is_null old_size new_size h keep e
    ]
