-- ===== src/Examples/Dominators.antt =====
-- src/analysis/dominator.c at a concrete input.
use nybit.Base.{
  ℕ, zero, suc, ◌<◌, ◌≡◌, ◌↔◌, refl, sym, ◌∙◌, arith, Bool, true, false, some, [], ◌∷◌, get_elem?,
  ◌==◌,
}
use nybit.Base.Outcome.{done}
use nybit.Analysis.Dominator.{DominatorTree, dominates, dom_intersect}
use nybit.Analysis.Dominator.Ancestor.{IsKnown, IsTree, Ancestor, dominates-iff_Ancestor}
use nybit.Analysis.Dominator.Intersect.{IsMeet, dom_intersect-IsMeet}

-- The entry 0 branches to 1 and 2, which join in 3.
abbrev diamond : DominatorTree
diamond = record {
  entry = 0;
  idom = 0 ∷ 0 ∷ 0 ∷ 0 ∷ [];
  rpo = some 0 ∷ some 2 ∷ some 1 ∷ some 3 ∷ [];
}

-- The block with a number.
rpo_inverse :
    (b k : ℕ) → get_elem? diamond.rpo b ≡ some (some k) → get_elem? (0 ∷ 2 ∷ 1 ∷ 3 ∷ []) k ≡ some b
rpo_inverse zero k e = let at : ◌≡◌ {A = ℕ} 0 k = cc in rw (sym at) refl
rpo_inverse (suc zero) k e = let at : ◌≡◌ {A = ℕ} 2 k = cc in rw (sym at) refl
rpo_inverse (suc (suc zero)) k e = let at : ◌≡◌ {A = ℕ} 1 k = cc in rw (sym at) refl
rpo_inverse (suc (suc (suc zero))) k e = let at : ◌≡◌ {A = ℕ} 3 k = cc in rw (sym at) refl
rpo_inverse (suc (suc (suc (suc b)))) k e = cc

parent_of :
    (b k : ℕ)
    → get_elem? diamond.rpo b ≡ some (some k)
    → (p : ℕ) × IsKnown diamond b p k
      × ((b == 0) ≡ false → (j : ℕ) × (get_elem? diamond.rpo p ≡ some (some j)) × (j < k))
parent_of zero k e =
    let at : ◌≡◌ {A = ℕ} 0 k = cc in
    (0, record { idom = refl; valid = refl; rpo = e; bound = omega arith }, λ other. absurd cc)
parent_of (suc zero) k e =
    let at : ◌≡◌ {A = ℕ} 2 k = cc in
    (
      0,
      record { idom = refl; valid = refl; rpo = e; bound = omega arith },
      λ other. (0, refl, omega arith),
    )
parent_of (suc (suc zero)) k e =
    let at : ◌≡◌ {A = ℕ} 1 k = cc in
    (
      0,
      record { idom = refl; valid = refl; rpo = e; bound = omega arith },
      λ other. (0, refl, omega arith),
    )
parent_of (suc (suc (suc zero))) k e =
    let at : ◌≡◌ {A = ℕ} 3 k = cc in
    (
      0,
      record { idom = refl; valid = refl; rpo = e; bound = omega arith },
      λ other. (0, refl, omega arith),
    )
parent_of (suc (suc (suc (suc b)))) k e = cc

diamond-IsTree : IsTree diamond
diamond-IsTree = record {
  root = refl;
  size = refl;
  parent = parent_of;
  distinct = λ b c k at_b at_c.
      let both = sym (rpo_inverse b k at_b) ∙ rpo_inverse c k at_c in let same : b ≡ c = cc in same;
}

dominates-iff_Ancestor_example :
    (c : Bool) × (dominates diamond 0 3 ≡ done (some c)) × ((c ≡ true) ↔ Ancestor diamond 0 3)
dominates-iff_Ancestor_example = dominates-iff_Ancestor diamond 0 3 diamond-IsTree refl refl

dom_intersect-IsMeet_example :
    (r : ℕ) × (dom_intersect diamond 4 8 1 2 ≡ done (some r)) × IsMeet diamond 1 2 r
dom_intersect-IsMeet_example = dom_intersect-IsMeet diamond 1 2 diamond-IsTree refl refl
