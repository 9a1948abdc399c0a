-- ===== src/Analysis/Cfg/Number.antt =====
-- src/analysis/cfg.c: the last loop, which numbers the blocks of the reversed post order.
use nybit.Base.{
  ℕ, zero, suc, ◌+◌, ◌-◌, ◌%◌, ◌^◌, ◌<◌, ◌≡◌, refl, sym, ap, ◌∙◌, arith, ◌⊎◌, inl, inr, Bool, true,
  some, List, [], ◌∷◌, length, get_elem?, set, ◌==◌, Bool-cases, length-set, length-append,
  get_elem?-set_self, get_elem?-set_ne, get_elem?-append_left, get_elem?-append_last,
  lt-length_of_get_elem?,
}
use nybit.Analysis.Cfg.{reverse, number_blocks, mark_reachable}
use nybit.Analysis.Cfg.Reach.{IsListed, append_last_inv}

pub length-reverse : (xs : List ℕ) → length (reverse xs) ≡ length xs
length-reverse [] = refl
length-reverse (x ∷ xs) = omega (arith, length-append (reverse xs) (x ∷ []), length-reverse xs)

pub get_elem?-reverse :
    (xs : List ℕ) (p : ℕ) {v : ℕ}
    → get_elem? xs p ≡ some v
    → get_elem? (reverse xs) (length xs - suc p) ≡ some v
get_elem?-reverse [] p e = cc
get_elem?-reverse (x ∷ xs) zero e =
    let last : suc (length xs) - 1 ≡ length (reverse xs) = omega (arith, length-reverse xs) in
    rw last (get_elem?-append_last (reverse xs) x ∙ e)
get_elem?-reverse (x ∷ xs) (suc p) e =
    let lt = lt-length_of_get_elem? xs p e in
    let same : suc (length xs) - suc (suc p) ≡ length xs - suc p = omega arith in
    let short : length xs - suc p < length (reverse xs) = omega (arith, lt, length-reverse xs) in
    rw same (
      get_elem?-append_left (reverse xs) (x ∷ []) (length xs - suc p) short
      ∙ get_elem?-reverse xs p e)

pub get_elem?-of_reverse :
    (xs : List ℕ) (k : ℕ) {v : ℕ}
    → get_elem? (reverse xs) k ≡ some v
    → (k < length xs) × (get_elem? xs (length xs - suc k) ≡ some v)
get_elem?-of_reverse [] k e = cc
get_elem?-of_reverse (x ∷ xs) k e = elim (append_last_inv (reverse xs) x k e) [
  | inl old ↦
      let (lt, found) = get_elem?-of_reverse xs k old.1 in
      let next : suc (length xs) - suc k ≡ suc (length xs - suc k) = omega (arith, lt) in
      (omega (arith, lt), rw next found)
  | inr new ↦
      let first : suc (length xs) - suc k ≡ 0 = omega (arith, new.0, length-reverse xs) in
      (omega (arith, new.0, length-reverse xs), rw first (ap some new.1))
]

abbrev pub IsUnique : List ℕ → Type 0
IsUnique xs = (p q v : ℕ) → get_elem? xs p ≡ some v → get_elem? xs q ≡ some v → p ≡ q

pub reverse-IsUnique : (xs : List ℕ) → IsUnique xs → IsUnique (reverse xs)
reverse-IsUnique xs h p q v a b =
    let (lt, x) = get_elem?-of_reverse xs p a in
    let (lt', y) = get_elem?-of_reverse xs q b in
    omega (arith, lt, lt', h (length xs - suc p) (length xs - suc q) v x y)

number-other :
    (bs : List ℕ) (i : ℕ) (index : List ℕ) (v : ℕ)
    → ((p : ℕ) → ¬ (get_elem? bs p ≡ some v))
    → get_elem? (number_blocks bs i index) v ≡ get_elem? index v
number-other [] i index v h = refl
number-other (b ∷ bs) i index v h =
    number-other bs (suc i) (set index b (i % 2 ^ 32)) v (λ p e. h (suc p) e)
    ∙ get_elem?-set_ne index (i % 2 ^ 32) (λ (e : b ≡ v). h 0 (ap some e))

-- The block that stands at `k` has the number `k` places from the first.
pub number-at :
    (bs : List ℕ) (i : ℕ) (index : List ℕ) (k v : ℕ)
    → IsUnique bs
    → get_elem? bs k ≡ some v
    → v < length index
    → get_elem? (number_blocks bs i index) v ≡ some ((i + k) % 2 ^ 32)
number-at [] i index k v u e lt = cc
number-at (b ∷ bs) i index zero v u e lt =
    let same : b ≡ v = cc in
    let first : i + 0 ≡ i = omega arith in
    let rest : (p : ℕ) → ¬ (get_elem? bs p ≡ some v) =
      λ p f. absurd (omega (arith, u 0 (suc p) v e f)) in
    number-other bs (suc i) (set index b (i % 2 ^ 32)) v rest
    ∙ rw (first, same) (get_elem?-set_self index v (i % 2 ^ 32) lt)
number-at (b ∷ bs) i index (suc k) v u e lt =
    let next : i + suc k ≡ suc i + k = omega arith in
    rw next (
      number-at bs (suc i) (set index b (i % 2 ^ 32)) k v
        (λ p q w f g. omega (arith, u (suc p) (suc q) w f g)) e
        (omega (arith, lt, length-set index b (i % 2 ^ 32))))

-- The flag of a block is set where it was or the block is in the list.
pub mark_reachable-found :
    (bs : List ℕ) (flags : List Bool) (v : ℕ)
    → get_elem? (mark_reachable bs flags) v ≡ some true
    → (get_elem? flags v ≡ some true) ⊎ IsListed v bs
mark_reachable-found [] flags v e = inl e
mark_reachable-found (b ∷ bs) flags v e = elim (mark_reachable-found bs (set flags b true) v e) [
  | inl old ↦ elim (Bool-cases (b == v)) [
    | inl same ↦ inr (record { at = 0; found = ground (arith, same) })
    | inr other ↦
        inl (
          sym (get_elem?-set_ne flags true (λ (x : b ≡ v). absurd (ground (arith, x, other))))
          ∙ old)
  ]
  | inr l ↦ inr (record { at = suc l.at; found = l.found })
]

pub mark_reachable-kept :
    (bs : List ℕ) (flags : List Bool) (v : ℕ)
    → get_elem? flags v ≡ some true
    → get_elem? (mark_reachable bs flags) v ≡ some true
mark_reachable-kept [] flags v e = e
mark_reachable-kept (b ∷ bs) flags v e =
    mark_reachable-kept bs (set flags b true) v (elim (Bool-cases (b == v)) [
      | inl same ↦
          let at : b ≡ v = ground (arith, same) in
          rw at (get_elem?-set_self flags v true (lt-length_of_get_elem? flags v e))
      | inr other ↦
          get_elem?-set_ne flags true (λ (x : b ≡ v). absurd (ground (arith, x, other))) ∙ e
    ])

pub mark_reachable-listed :
    (bs : List ℕ) (flags : List Bool) (v k : ℕ)
    → get_elem? bs k ≡ some v
    → v < length flags
    → get_elem? (mark_reachable bs flags) v ≡ some true
mark_reachable-listed [] flags v k e lt = cc
mark_reachable-listed (b ∷ bs) flags v zero e lt =
    let same : b ≡ v = cc in
    mark_reachable-kept bs (set flags b true) v (rw same (get_elem?-set_self flags v true lt))
mark_reachable-listed (b ∷ bs) flags v (suc k) e lt =
    mark_reachable-listed bs (set flags b true) v k e (omega (arith, lt, length-set flags b true))
