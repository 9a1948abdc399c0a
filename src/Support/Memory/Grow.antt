-- ===== src/Support/Memory/Grow.antt =====
-- A grown buffer has room.
use nybit.Base.{
  ℕ, zero, suc, ◌*◌, ◌%◌, ◌^◌, ◌<◌, ◌≡◌, arith, sym, Bool-cases, inl, inr, ltb, leb, ◌==◌,
}
use nybit.Support.Memory.{double_until, grown_capacity}
use native.Mathlib.Nat.{pow-suc, mul_comm, mul_assoc}

double_until-lt :
    (fuel new_cap count : ℕ)
    → count < 2 ^ 63
    → count < new_cap * 2 ^ fuel
    → count < double_until fuel new_cap count
unfolding double_until
double_until-lt zero new_cap count small h = omega (arith, h)
double_until-lt (suc fuel) new_cap count small h = elim (Bool-cases (leb new_cap count)) [
  | inl more ↦
      let same : new_cap * 2 % 2 ^ 64 ≡ new_cap * 2 = ground arith in
      rw (double_until, more, same)
        (double_until-lt fuel (new_cap * 2) count small
          (rw (mul_assoc new_cap 2 (2 ^ fuel), mul_comm 2 (2 ^ fuel), sym (pow-suc 2 fuel)) h))
  | inr over ↦ rw (double_until, over) (ground arith)
]

-- For a count below 2^63, `ny_buf_grow` leaves a capacity above the count, and 64 doublings are
-- enough for it.
pub grown_capacity-lt :
    (capacity count : ℕ) → count < 2 ^ 63 → count < grown_capacity capacity count
unfolding grown_capacity
grown_capacity-lt capacity count small = elim (Bool-cases (ltb count capacity)) [
  | inl room ↦ rw room (ground arith)
  | inr full ↦ elim (Bool-cases (capacity == 0)) [
    | inl none_yet ↦ rw (full, none_yet) (double_until-lt 64 8 count small (omega arith))
    | inr some_yet ↦
        let same : capacity * 2 % 2 ^ 64 ≡ capacity * 2 = ground arith in
        rw (full, some_yet, same) (double_until-lt 64 (capacity * 2) count small (ground arith))
  ]
]
