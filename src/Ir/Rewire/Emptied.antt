-- ===== src/Ir/Rewire/Emptied.antt =====
-- Removing the instructions of a block one after the other empties it.
use nybit.Base.{
  ℕ, zero, suc, ◌≤◌, ◌<◌, ◌≡◌, refl, arith, false, List, [], ◌∷◌, length, ◌==◌,
  lt-length_of_get_elem?,
}
use nybit.Base.Outcome.{done}
use nybit.Ir.Function.{Function, invalid}
use nybit.Ir.Function.Chain.{Holds, first_or}
use nybit.Ir.Function.Unlink.{remove_instruction-Holds}
use nybit.Ir.Rewire.{remove_all}

-- On more fuel than a block has instructions, the loop of `ny_function_remove_block` over them
-- succeeds and leaves the block without any, in a function with at most 2^32 - 1 instructions.
pub remove_all-Holds :
    (fuel : ℕ) (fn : Function) (b : ℕ) (ids : List ℕ)
    → length ids < fuel
    → length fn.instructions ≤ invalid
    → Holds fn b ids
    → (fn1 : Function) × (remove_all fuel fn (first_or ids invalid) ≡ done fn1) × Holds fn1 b []
unfolding remove_all
remove_all-Holds zero fn b ids enough small held = absurd (omega arith)
remove_all-Holds (suc fuel) fn b [] enough small held = (fn, refl, held)
remove_all-Holds (suc fuel) fn b (i ∷ is) enough small held =
    let at = held.linked.0 in
    let below = lt-length_of_get_elem? fn.instructions i at.found in
    let real : (i == invalid) ≡ false = ground arith in
    let removed = remove_instruction-Holds fn b [] i is small held in
    let rest = remove_all-Holds fuel removed.0 b is (omega arith) removed.3 removed.2 in
    (rest.0, rw (remove_all, real, at.found, removed.1, at.next) rest.1, rest.2)
