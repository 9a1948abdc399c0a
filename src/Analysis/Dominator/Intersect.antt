-- ===== src/Analysis/Dominator/Intersect.antt =====
-- `dom_intersect` of src/analysis/dominator.c finds the nearest common ancestor.
use nybit.Base.{
  ℕ, zero, suc, ◌+◌, ◌<◌, ◌≤◌, ◌≡◌, ◌≢◌, ◌∙◌, refl, sym, ap, arith, true, false, Bool-cases, inl,
  inr, some, length, get_elem?, ltb, ◌==◌,
}
use nybit.Base.Outcome.{done}
use nybit.Analysis.Dominator.{
  DominatorTree, idom_at, rpo_at, climb_above, meet_or_out, then_climb, dom_intersect,
}
use nybit.Analysis.Dominator.Ancestor.{
  IsTree, Ancestor, self, up, Ancestor-rpo, Ancestor-up, Ancestor-trans,
}

module _ (dt : DominatorTree) where
  abbrev Numbered : ℕ → ℕ → Type 0
  Numbered b k = get_elem? dt.rpo b ≡ some (some k)

  -- `g` is the first one on the way up from `f` with a number not above `m`.
  record Climbed (m f kf g kg : ℕ) : Type 0 where
    rpo : Numbered g kg
    stops : kg ≤ m
    lower : kg ≤ kf
    strict : m < kf → kg < kf
    anc : Ancestor dt g f
    common : (c j : ℕ) → Numbered c j → j ≤ m → Ancestor dt c f → Ancestor dt c g

  climb_above-Climbed :
      (tree : IsTree dt) (m fuel f kf : ℕ)
      → Numbered f kf
      → kf < fuel
      → (g kg : ℕ) × (climb_above dt (some m) fuel f ≡ done (some g)) × Climbed m f kf g kg
  unfolding climb_above
  climb_above-Climbed tree m zero f kf at enough = absurd (omega arith)
  climb_above-Climbed tree m (suc fuel) f kf at enough = elim (Bool-cases (ltb m kf)) [
    | inr stays ↦
        let low : kf ≤ m = ground (arith, stays) in
        (
          f,
          kf,
          rw (climb_above, rpo_at, at, stays) refl,
          record {
            rpo = at;
            stops = low;
            lower = omega arith;
            strict = λ more. absurd (omega arith);
            anc = self refl;
            common = λ c j at_c le anc. anc;
          },
        )
    | inl climbs ↦
        let more : m < kf = ground (arith, climbs) in
        let not_entry : (f == dt.entry) ≡ false = elim (Bool-cases (f == dt.entry)) [
          | inr differ ↦ differ
          | inl top ↦
              let e : f ≡ dt.entry = ground (arith, top) in
              let both = sym (ap (λ b. get_elem? dt.rpo b) e ∙ tree.root) ∙ at in
              let zero_here : ◌≡◌ {A = ℕ} 0 kf = cc in absurd (omega arith)
        ] in
        let known = tree.parent f kf at in
        let smaller = known.2 not_entry in
        let lt = smaller.2 in
        let rest = climb_above-Climbed tree m fuel known.0 smaller.0 smaller.1 (omega arith) in
        let h = rest.3 in
        let le = h.lower in
        (
          rest.0,
          rest.1,
          rw (climb_above, rpo_at, at, climbs, idom_at, known.1.idom) rest.2,
          record {
            rpo = h.rpo;
            stops = h.stops;
            lower = omega arith;
            strict = λ below. omega arith;
            anc = up not_entry known.1.idom h.anc;
            common = λ c j at_c low anc.
                let ne : c ≢ f = λ e.
                  let both = sym (ap (λ b. get_elem? dt.rpo b) e ∙ at) ∙ at_c in
                  let same : kf ≡ j = cc in omega arith in
                h.common c j at_c low (Ancestor-up dt anc ne known.1.idom);
          },
        )
  ]

  -- `r` is a common ancestor, and every common ancestor is one of `r`.
  pub record IsMeet (f1 f2 r : ℕ) : Type 0 where
    pub left : Ancestor dt r f1
    pub right : Ancestor dt r f2
    pub nearest : (c : ℕ) → Ancestor dt c f1 → Ancestor dt c f2 → Ancestor dt c r

  -- In each round one of the two climbs.
  one_climbs :
      (tree : IsTree dt) (f1 f2 k1 k2 j1 j2 : ℕ)
      → Numbered f1 k1
      → Numbered f2 k2
      → (f1 == f2) ≡ false
      → j1 ≤ k1
      → j2 ≤ k2
      → (k2 < k1 → j1 < k1)
      → (j1 < k2 → j2 < k2)
      → j1 + j2 < k1 + k2
  one_climbs tree f1 f2 k1 k2 j1 j2 at1 at2 differ le1 le2 first second =
      elim (Bool-cases (ltb k2 k1)) [
        | inl more ↦ let lt = first (ground (arith, more)) in omega arith
        | inr low ↦ elim (Bool-cases (ltb k1 k2)) [
          | inl less ↦ let lt = second (ground (arith, less)) in omega arith
          | inr low2 ↦
              let same : k1 ≡ k2 = ground (arith, low, low2) in
              let e : f1 ≡ f2 = tree.distinct f1 f2 k2 (rw same at at1) at2 in
              absurd (ground (arith, e, differ))
        ]
      ]

  intersect-IsMeet :
      (tree : IsTree dt) (inner fuel f1 f2 k1 k2 : ℕ)
      → Numbered f1 k1
      → Numbered f2 k2
      → k1 < inner
      → k2 < inner
      → k1 + k2 ≤ fuel
      → (r : ℕ) × (dom_intersect dt inner fuel f1 f2 ≡ done (some r)) × IsMeet f1 f2 r
  unfolding dom_intersect
  intersect-IsMeet tree inner zero f1 f2 k1 k2 at1 at2 lt1 lt2 enough =
      let z1 : k1 ≡ 0 = omega arith in
      let z2 : k2 ≡ 0 = omega arith in
      let same : f1 ≡ f2 = tree.distinct f1 f2 0 (rw z1 at at1) (rw z2 at at2) in
      let here : (f1 == f2) ≡ true = ground (arith, same) in
      (
        f1,
        rw (dom_intersect, here) refl,
        record { left = self refl; right = self same; nearest = λ c a1 a2. a1 },
      )
  intersect-IsMeet tree inner (suc fuel) f1 f2 k1 k2 at1 at2 lt1 lt2 enough =
      elim (Bool-cases (f1 == f2)) [
        | inl here ↦
            let same : f1 ≡ f2 = ground (arith, here) in
            (
              f1,
              rw (dom_intersect, here) refl,
              record { left = self refl; right = self same; nearest = λ c a1 a2. a1 },
            )
        | inr differ ↦
            let one = climb_above-Climbed tree k2 inner f1 k1 at1 lt1 in
            let h1 = one.3 in
            let le1 = h1.lower in
            let two = climb_above-Climbed tree one.1 inner f2 k2 at2 lt2 in
            let h2 = two.3 in
            let le2 = h2.lower in
            let fewer : one.1 + two.1 < k1 + k2 =
              one_climbs tree f1 f2 k1 k2 one.1 two.1 at1 at2 differ le1 le2 h1.strict h2.strict in
            let rest =
              intersect-IsMeet tree inner fuel one.0 two.0 one.1 two.1 h1.rpo h2.rpo (omega arith)
                (omega arith) (omega arith) in
            let h = rest.2 in
            (
              rest.0,
              rw
                  (
                    dom_intersect, differ, rpo_at, at2, one.2, then_climb, rpo_at, h1.rpo, two.2,
                    meet_or_out,
                  )
                  rest.1,
              record {
                left = Ancestor-trans dt h.left h1.anc;
                right = Ancestor-trans dt h.right h2.anc;
                nearest = λ c a1 a2.
                    let low2 = Ancestor-rpo dt tree k2 a2 at2 in
                    let c1 = h1.common c low2.0 low2.1 low2.2 a1 in
                    let low1 = Ancestor-rpo dt tree one.1 c1 h1.rpo in
                    h.nearest c c1 (h2.common c low1.0 low1.1 low1.2 a2);
              },
            )
      ]

-- In a tree in which every numbered block but the entry has an immediate dominator with a
-- smaller number, the entry has number 0 and numbers are distinct, the intersection of two
-- numbered blocks terminates with their nearest common ancestor: it is an ancestor of both, and
-- every common ancestor is an ancestor of it.
pub dom_intersect-IsMeet :
    (dt : DominatorTree) (b1 b2 : ℕ) {k1 k2 : ℕ}
    → IsTree dt
    → get_elem? dt.rpo b1 ≡ some (some k1)
    → get_elem? dt.rpo b2 ≡ some (some k2)
    → let n = length dt.idom in
      (r : ℕ) × (dom_intersect dt n (n + n) b1 b2 ≡ done (some r)) × IsMeet dt b1 b2 r
dom_intersect-IsMeet dt b1 b2 {k1 = k1} {k2 = k2} tree at1 at2 =
    let n = length dt.idom in
    let lt1 = (tree.parent b1 k1 at1).1.bound in
    let lt2 = (tree.parent b2 k2 at2).1.bound in
    intersect-IsMeet dt tree n (n + n) b1 b2 k1 k2 at1 at2 lt1 lt2 (omega arith)
