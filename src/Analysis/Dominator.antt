-- ===== src/Analysis/Dominator.antt =====
-- src/analysis/dominator.c: the questions that a computed dominator tree answers. `rpo` is none for
-- the -1 of a block that is not reached.
pub mod Ancestor
pub mod Intersect
use nybit.Base.{
  ℕ, zero, suc, Bool, true, false, ◌||◌, not, Option, none, some, List, length, get_elem?, leb, ltb,
  ◌==◌, if◌then◌else◌,
}
use nybit.Base.Outcome.{Outcome, done, faulted, ◌>>=◌}
use nybit.Ir.Function.{invalid}

-- `Ny_Dominator_Tree`, but for the children and the frontiers.
pub record DominatorTree : Type 0 where
  pub entry : ℕ
  pub idom : List ℕ
  pub rpo : List (Option ℕ)

-- `dt->idom[b]`, an access that nothing checks.
abbrev pub idom_at : DominatorTree → ℕ → Outcome ℕ
idom_at dt b = elim (get_elem? dt.idom b) [ none ↦ faulted | some p ↦ done p ]

-- The loop of `ny_dominator_tree_dominates`: where it stops, or none where the fuel runs out.
unfoldable pub climb : DominatorTree → ℕ → ℕ → ℕ → Outcome (Option ℕ)
climb dt a zero curr = done none
climb dt a (suc fuel) curr =
    if curr == a || curr == dt.entry
    then done (some curr)
    else (idom_at dt curr >>= (λ parent.
        if parent == invalid || parent == curr then done (some curr) else climb dt a fuel parent))

abbrev pub is_reached : DominatorTree → ℕ → Bool
is_reached dt b = elim (get_elem? dt.rpo b) [
  | none ↦ false
  | some r ↦ elim r [ none ↦ false | some k ↦ true ]
]

-- `ny_dominator_tree_dominates`; a chain of immediate dominators is no longer than the array.
unfoldable pub dominates : DominatorTree → ℕ → ℕ → Outcome (Option Bool)
unfolding climb
dominates dt a b =
    let n = length dt.idom in
    if a == b
    then done (some true)
    else if leb n a || leb n b
    then done (some false)
    else if not (is_reached dt a) || not (is_reached dt b)
    then done (some false)
    else (climb dt a n b >>= (λ r. done (elim r [ none ↦ none | some curr ↦ some (curr == a) ])))

-- `dt->rpo[b]`
abbrev pub rpo_at : DominatorTree → ℕ → Outcome (Option ℕ)
rpo_at dt b = elim (get_elem? dt.rpo b) [ none ↦ faulted | some r ↦ done r ]

-- `>` on `int32_t`, where none is -1.
abbrev pub above : Option ℕ → Option ℕ → Bool
above none y = false
above (some j) none = true
above (some j) (some k) = ltb k j

-- An inner loop of `dom_intersect`: `f` climbs while its number is above `bound`; none where the
-- fuel runs out.
unfoldable pub climb_above : DominatorTree → Option ℕ → ℕ → ℕ → Outcome (Option ℕ)
climb_above dt bound zero f = done none
climb_above dt bound (suc fuel) f =
    rpo_at dt f
    >>= (λ k. if above k bound then (idom_at dt f >>= climb_above dt bound fuel) else done (some f))

abbrev pub meet_or_out : (ℕ → ℕ → Outcome (Option ℕ)) → ℕ → Option ℕ → Outcome (Option ℕ)
meet_or_out next f1 none = done none
meet_or_out next f1 (some f2) = next f1 f2

abbrev pub then_climb :
    DominatorTree → ℕ → (ℕ → ℕ → Outcome (Option ℕ)) → ℕ → Option ℕ → Outcome (Option ℕ)
then_climb dt fuel next f2 none = done none
then_climb dt fuel next f2 (some f1) =
    rpo_at dt f1 >>= (λ bound. climb_above dt bound fuel f2 >>= meet_or_out next f1)

-- `dom_intersect`, with `inner` rounds at most for each inner loop.
unfoldable pub dom_intersect : DominatorTree → ℕ → ℕ → ℕ → ℕ → Outcome (Option ℕ)
unfolding climb_above
dom_intersect dt inner zero f1 f2 = if f1 == f2 then done (some f1) else done none
dom_intersect dt inner (suc fuel) f1 f2 =
    if f1 == f2
    then done (some f1)
    else (rpo_at dt f2 >>= (λ bound.
        climb_above dt bound inner f1 >>= then_climb dt inner (dom_intersect dt inner fuel) f2))
