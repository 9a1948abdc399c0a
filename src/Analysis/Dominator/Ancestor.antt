-- ===== src/Analysis/Dominator/Ancestor.antt =====
-- A block dominates another where it is met on the way up from it to the entry.
use nybit.Base.{
  ℕ, zero, suc, ◌<◌, ◌≤◌, ◌≡◌, ◌≢◌, ◌∙◌, ◌↔◌, refl, sym, arith, Bool, true, false, Bool-cases, inl,
  inr, some, length, get_elem?, leb, ◌==◌, lt-length_of_get_elem?,
}
use nybit.Base.Outcome.{done}
use nybit.Ir.Function.{invalid}
use nybit.Analysis.Dominator.{DominatorTree, idom_at, climb, dominates, is_reached}

-- The block has an immediate dominator and a number.
pub record IsKnown (dt : DominatorTree) (b parent k : ℕ) : Type 0 where
  pub idom : get_elem? dt.idom b ≡ some parent
  pub valid : (parent == invalid) ≡ false
  pub rpo : get_elem? dt.rpo b ≡ some (some k)
  pub bound : k < length dt.idom

-- Every numbered block but the entry has an immediate dominator with a smaller number, the entry
-- has the number 0, and no two blocks have the same number.
pub record IsTree (dt : DominatorTree) : Type 0 where
  pub root : get_elem? dt.rpo dt.entry ≡ some (some 0)
  pub size : length dt.rpo ≡ length dt.idom
  pub parent :
      (b k : ℕ)
      → get_elem? dt.rpo b ≡ some (some k)
      → (p : ℕ) × IsKnown dt b p k
        × ((b == dt.entry) ≡ false → (j : ℕ) × (get_elem? dt.rpo p ≡ some (some j)) × (j < k))
  pub distinct :
      (b c k : ℕ) → get_elem? dt.rpo b ≡ some (some k) → get_elem? dt.rpo c ≡ some (some k) → b ≡ c

-- `a` is met on the way up from `b`.
pub data Ancestor (dt : DominatorTree) (a : ℕ) : ℕ → Type 0 where
  self : {b : ℕ} → a ≡ b → Ancestor dt a b
  up :
      {b p : ℕ}
      → (b == dt.entry) ≡ false
      → get_elem? dt.idom b ≡ some p
      → Ancestor dt a p
      → Ancestor dt a b

pub Ancestor-trans :
    (dt : DominatorTree) {a b c : ℕ} → Ancestor dt a b → Ancestor dt b c → Ancestor dt a c
Ancestor-trans dt anc (self e) = rw (sym e) anc
Ancestor-trans dt anc (up not_entry at rest) = up not_entry at (Ancestor-trans dt anc rest)

-- An ancestor of a numbered block has a number that is not larger.
pub Ancestor-rpo :
    (dt : DominatorTree) (tree : IsTree dt) {a b : ℕ} (k : ℕ)
    → Ancestor dt a b
    → get_elem? dt.rpo b ≡ some (some k)
    → (j : ℕ) × (get_elem? dt.rpo a ≡ some (some j)) × (j ≤ k)
Ancestor-rpo dt tree k (self e) at = (k, rw e at, omega arith)
Ancestor-rpo dt tree {b = b} k (up {p = p} not_entry idom rest) at =
    let known = tree.parent b k at in
    let both = sym known.1.idom ∙ idom in
    let same : known.0 ≡ p = cc in
    let smaller = known.2 not_entry in
    let above = Ancestor-rpo dt tree smaller.0 rest (rw same at smaller.1) in
    (above.0, above.1, omega (arith, above.2, smaller.2))

pub Ancestor-up :
    (dt : DominatorTree) {a b p : ℕ}
    → Ancestor dt a b
    → a ≢ b
    → get_elem? dt.idom b ≡ some p
    → Ancestor dt a p
Ancestor-up dt (self e) ne idom = absurd (ne e)
Ancestor-up dt {p = p} (up {p = q} not_entry at rest) ne idom =
    let both = sym at ∙ idom in let same : q ≡ p = cc in rw same at rest

Ancestor-entry : (dt : DominatorTree) {a b : ℕ} → Ancestor dt a b → (b == dt.entry) ≡ true → a ≡ b
Ancestor-entry dt (self e) here = e
Ancestor-entry dt (up not_entry at rest) here = absurd (let both = sym not_entry ∙ here in cc)

-- The climb stops at `a` where it meets it, and at the entry else.
climb-Ancestor :
    (dt : DominatorTree) (tree : IsTree dt) (a fuel b k : ℕ)
    → get_elem? dt.rpo b ≡ some (some k)
    → k < fuel
    → (c : ℕ) × (climb dt a fuel b ≡ done (some c)) × ((c == a) ≡ true ↔ Ancestor dt a b)
unfolding climb
climb-Ancestor dt tree a zero b k at enough = absurd (omega arith)
climb-Ancestor dt tree a (suc fuel) b k at enough = elim (Bool-cases (b == a)) [
  | inl here ↦
      let e : a ≡ b = ground (arith, here) in
      (b, rw (climb, here) refl, ((λ same. self e), (λ anc. here)))
  | inr not_a ↦ elim (Bool-cases (b == dt.entry)) [
    | inl top ↦ (
      b,
      rw (climb, not_a, top) refl,
      (
        (λ same. absurd (let both = sym not_a ∙ same in cc)),
        (λ anc. let e = Ancestor-entry dt anc top in ground (arith, e)),
      ),
    )
    | inr not_entry ↦
        let known = tree.parent b k at in
        let p = known.0 in
        let smaller = known.2 not_entry in
        let moves : (p == b) ≡ false = elim (Bool-cases (p == b)) [
          | inr differ ↦ differ
          | inl stays ↦
              let e : p ≡ b = ground (arith, stays) in
              let both = sym (rw e at smaller.1) ∙ at in
              let same : smaller.0 ≡ k = cc in let lt = smaller.2 in absurd (omega arith)
        ] in
        let lt = smaller.2 in
        let rest = climb-Ancestor dt tree a fuel p smaller.0 smaller.1 (omega arith) in
        let ne : a ≢ b = ground (arith, not_a) in
        (
          rest.0,
          rw (climb, not_a, not_entry, idom_at, known.1.idom, known.1.valid, moves) rest.1,
          (
            (λ same. up not_entry known.1.idom (rest.2.0 same)),
            (λ anc. rest.2.1 (Ancestor-up dt anc ne known.1.idom)),
          ),
        )
  ]
]

-- In a tree in which every numbered block but the entry has an immediate dominator with a
-- smaller number, the entry has number 0 and numbers are distinct, the dominance query on two
-- numbered blocks terminates, and it answers true exactly when the first is met on the way up
-- from the second.
pub dominates-iff_Ancestor :
    (dt : DominatorTree) (a b : ℕ) {j k : ℕ}
    → IsTree dt
    → get_elem? dt.rpo a ≡ some (some j)
    → get_elem? dt.rpo b ≡ some (some k)
    → (c : Bool) × (dominates dt a b ≡ done (some c)) × ((c ≡ true) ↔ Ancestor dt a b)
unfolding dominates
dominates-iff_Ancestor dt a b {k = k} tree at_a at_b = elim (Bool-cases (a == b)) [
  | inl same ↦
      let e : a ≡ b = ground (arith, same) in
      (true, rw (dominates, same) refl, ((λ t. self e), (λ anc. refl)))
  | inr differ ↦
      let n = length dt.idom in
      let size = tree.size in
      let below_a = lt-length_of_get_elem? dt.rpo a at_a in
      let below_b = lt-length_of_get_elem? dt.rpo b at_b in
      let in_a : leb n a ≡ false = ground arith in
      let in_b : leb n b ≡ false = ground arith in
      let known = tree.parent b k at_b in
      let found = climb-Ancestor dt tree a n b k at_b known.1.bound in
      (
        found.0 == a,
        rw (dominates, differ, in_a, in_b, is_reached, at_a, at_b, found.1) refl,
        found.2,
      )
]
