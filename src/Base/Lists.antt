-- ===== src/Base/Lists.antt =====
-- Lists measured and indexed by native numbers, under the library's names.
use Prim.Native.Nat.{ℕ, zero, suc, ◌+◌, ◌-◌, ◌≤◌, ◌<◌}
use mathlib.Core.Path.{◌≡◌, refl, ap}
use mathlib.Core.Logic.{◌⊎◌, inl, inr, ◌≢◌}
use mathlib.Core.List.{List, [], ◌∷◌, ◌++◌}
use mathlib.Core.Option.{Option, none, some}
use native.Mathlib.Omega.{arith}
use mathlib.Core.Bool.{Bool, true, false, ◌&&◌}
use nybit.Base.Tests.{Bool-cases, ◌==◌, if◌then◌else◌}

module _ {ℓ} {A : Type ℓ} where
  abbrev pub length : List A → ℕ
  length [] = 0
  length (x ∷ xs) = suc (length xs)

  abbrev pub get_elem? : List A → ℕ → Option A
  get_elem? [] i = none
  get_elem? (x ∷ xs) zero = some x
  get_elem? (x ∷ xs) (suc i) = get_elem? xs i

  -- A write out of bounds changes nothing.
  abbrev pub set : List A → ℕ → A → List A
  set [] i v = []
  set (x ∷ xs) zero v = v ∷ xs
  set (x ∷ xs) (suc i) v = x ∷ set xs i v

  abbrev pub All {κ} : (A → Type κ) → List A → Type κ
  All P [] = Unit {κ}
  All P (x ∷ xs) = P x × All P xs

module _ {ℓ} {A : Type ℓ} where
  pub length-append : (xs ys : List A) → length (xs ++ ys) ≡ length xs + length ys
  length-append [] ys = omega arith
  length-append (x ∷ xs) ys = omega (arith, length-append xs ys)

  pub length-set : (xs : List A) (i : ℕ) (v : A) → length (set xs i v) ≡ length xs
  length-set [] i v = refl
  length-set (x ∷ xs) zero v = refl
  length-set (x ∷ xs) (suc i) v = ap suc (length-set xs i v)

  pub get_elem?-set_self :
      (xs : List A) (i : ℕ) (v : A) → i < length xs → get_elem? (set xs i v) i ≡ some v
  get_elem?-set_self [] i v h = elim h [ ]
  get_elem?-set_self (x ∷ xs) zero v h = refl
  get_elem?-set_self (x ∷ xs) (suc i) v h = get_elem?-set_self xs i v (omega arith)

  pub get_elem?-set_ne :
      (xs : List A) {i j : ℕ} (v : A) → i ≢ j → get_elem? (set xs i v) j ≡ get_elem? xs j
  get_elem?-set_ne [] v h = refl
  get_elem?-set_ne (x ∷ xs) {i = zero} {j = zero} v h = absurd (h refl)
  get_elem?-set_ne (x ∷ xs) {i = zero} {j = suc j} v h = refl
  get_elem?-set_ne (x ∷ xs) {i = suc i} {j = zero} v h = refl
  get_elem?-set_ne (x ∷ xs) {i = suc i} {j = suc j} v h = get_elem?-set_ne xs v (λ e. h (ap suc e))

  pub get_elem?-of_lt : (xs : List A) (i : ℕ) → i < length xs → (x : A) × (get_elem? xs i ≡ some x)
  get_elem?-of_lt [] i h = elim h [ ]
  get_elem?-of_lt (x ∷ xs) zero h = (x, refl)
  get_elem?-of_lt (x ∷ xs) (suc i) h = get_elem?-of_lt xs i (omega arith)

  pub lt-length_of_get_elem? :
      (xs : List A) (i : ℕ) {x : A} → get_elem? xs i ≡ some x → i < length xs
  lt-length_of_get_elem? [] i h = cc
  lt-length_of_get_elem? (x ∷ xs) zero h = omega arith
  lt-length_of_get_elem? (x ∷ xs) (suc i) h = omega (arith, lt-length_of_get_elem? xs i h)

  pub get_elem?-append_left :
      (xs ys : List A) (i : ℕ) → i < length xs → get_elem? (xs ++ ys) i ≡ get_elem? xs i
  get_elem?-append_left [] ys i h = elim h [ ]
  get_elem?-append_left (x ∷ xs) ys zero h = refl
  get_elem?-append_left (x ∷ xs) ys (suc i) h = get_elem?-append_left xs ys i (omega arith)

  pub get_elem?-append_last : (xs : List A) (x : A) → get_elem? (xs ++ x ∷ []) (length xs) ≡ some x
  get_elem?-append_last [] x = refl
  get_elem?-append_last (y ∷ xs) x = get_elem?-append_last xs x

  -- The first index, counted from `i`, at which the test holds.
  abbrev pub find_index : (A → Bool) → List A → ℕ → Option ℕ
  find_index p [] i = none
  find_index p (x ∷ xs) i = let rest = find_index p xs (suc i) in if p x then some i else rest

-- `strcmp` and `memcmp` on the bytes of a text.
abbrev pub bytes_eq : List ℕ → List ℕ → Bool
bytes_eq [] [] = true
bytes_eq [] (y ∷ ys) = false
bytes_eq (x ∷ xs) [] = false
bytes_eq (x ∷ xs) (y ∷ ys) = x == y && bytes_eq xs ys

pub bytes_eq_refl : (xs : List ℕ) → bytes_eq xs xs ≡ true
bytes_eq_refl [] = refl
bytes_eq_refl (x ∷ xs) = ground (arith, bytes_eq_refl xs)

module _ {ℓ} {A : Type ℓ} where
  pub set-append_last : (xs : List A) (b x : A) → set (xs ++ b ∷ []) (length xs) x ≡ xs ++ x ∷ []
  set-append_last [] b x = refl
  set-append_last (y ∷ xs) b x = ap (λ t. y ∷ t) (set-append_last xs b x)

  pub find_index-append_last :
      (p : A → Bool) (xs : List A) (x : A) (i : ℕ)
      → find_index p xs i ≡ none
      → p x ≡ true
      → find_index p (xs ++ x ∷ []) i ≡ some (length xs + i)
  find_index-append_last p [] x i missing h = rw h (ap some (omega arith))
  find_index-append_last p (y ∷ xs) x i missing h =
      ground (arith, find_index-append_last p xs x (suc i))

  pub find_index_found :
      (p : A → Bool) (xs : List A) (i : ℕ) {k : ℕ}
      → find_index p xs i ≡ some k
      → (i ≤ k) × (x : A) × (get_elem? xs (k - i) ≡ some x) × (p x ≡ true)
  find_index_found p [] i h = cc
  find_index_found p (x ∷ xs) i {k = k} h = elim (Bool-cases (p x)) [
    | inl here ↦
        let at : i ≡ k = ground (arith, here) in
        let first : k - i ≡ 0 = omega arith in (omega arith, x, rw first refl, here)
    | inr there ↦
        let later : find_index p xs (suc i) ≡ some k = rw there at h in
        let rest = find_index_found p xs (suc i) later in
        let above : suc i ≤ k = rest.0 in
        let next : k - i ≡ suc (k - suc i) = omega arith in
        (omega arith, rest.1, rw next rest.2, rest.3)
  ]

module _ {ℓ} {A : Type ℓ} where
  pub List-cases : (xs : List A) → (xs ≡ []) ⊎ ((x : A) × (rest : List A) × (xs ≡ x ∷ rest))
  List-cases [] = inl refl
  List-cases (x ∷ rest) = inr (x, rest, refl)

  -- The entry at an index after a write: the new one there, the old one elsewhere.
  pub get_elem?-set_cases :
      (xs : List A) (i : ℕ) (x : A) (v : ℕ) {y : A}
      → get_elem? (set xs i x) v ≡ some y
      → ((v ≡ i) × (y ≡ x)) ⊎ ((i ≢ v) × (get_elem? xs v ≡ some y))
  get_elem?-set_cases [] i x v h = cc
  get_elem?-set_cases (z ∷ xs) zero x zero h = inl (refl, cc)
  get_elem?-set_cases (z ∷ xs) zero x (suc v) h = inr (λ e. cc, h)
  get_elem?-set_cases (z ∷ xs) (suc i) x zero h = inr (λ e. cc, h)
  get_elem?-set_cases (z ∷ xs) (suc i) x (suc v) h = elim (get_elem?-set_cases xs i x v h) [
    | inl same ↦ inl (ap suc same.0, same.1)
    | inr other ↦ inr (λ e. other.0 (omega (arith, e)), other.1)
  ]
