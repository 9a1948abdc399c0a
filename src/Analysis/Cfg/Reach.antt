-- ===== src/Analysis/Cfg/Reach.antt =====
-- src/analysis/cfg.c: the paths of a function's control-flow graph, and where a list has an entry.
use nybit.Base.{
  ℕ, zero, suc, ◌<◌, ◌≡◌, refl, arith, ◌⊎◌, inl, inr, some, List, [], ◌∷◌, ◌++◌, length, get_elem?,
  get_elem?-append_left, get_elem?-append_last, lt-length_of_get_elem?,
}
use nybit.Ir.Function.{Function}
use nybit.Analysis.Cfg.{cfg_get_successors}

-- `v` is the successor number `place` of `u`, and a block of the function.
pub record IsSucc (fn : Function) (u v : ℕ) : Type 0 where
  pub place : ℕ
  pub listed : get_elem? (cfg_get_successors fn u) place ≡ some v
  pub valid : v < length fn.blocks

-- the paths from `u`
pub data PathFrom (fn : Function) (u : ℕ) : ℕ → Type 0 where
  here : PathFrom fn u u
  step : {v w : ℕ} → PathFrom fn u v → IsSucc fn v w → PathFrom fn u w

pub prepend : (fn : Function) {u v w : ℕ} → IsSucc fn u v → PathFrom fn v w → PathFrom fn u w
prepend fn e here = step here e
prepend fn e (step p f) = step (prepend fn e p) f

pub record IsListed {ℓ} {A : Type ℓ} (x : A) (xs : List A) : Type ℓ where
  pub at : ℕ
  pub found : get_elem? xs at ≡ some x

pub IsListed-append {ℓ} :
    {A : Type ℓ} {x : A} (xs ys : List A) → IsListed x xs → IsListed x (xs ++ ys)
IsListed-append xs ys h = record {
  at = h.at;
  found = rw (get_elem?-append_left xs ys h.at (lt-length_of_get_elem? xs h.at h.found)) h.found;
}

pub IsListed-append_last {ℓ} : {A : Type ℓ} (xs : List A) (x : A) → IsListed x (xs ++ x ∷ [])
IsListed-append_last xs x = record { at = length xs; found = get_elem?-append_last xs x }

-- An entry of a longer list is one of the list, or the last.
pub append_last_inv {ℓ} :
    {A : Type ℓ} (xs : List A) (y : A) (i : ℕ) {x : A}
    → get_elem? (xs ++ y ∷ []) i ≡ some x
    → ((i < length xs) × (get_elem? xs i ≡ some x)) ⊎ ((i ≡ length xs) × (y ≡ x))
append_last_inv [] y zero h = inr (refl, cc)
append_last_inv [] y (suc i) h = cc
append_last_inv (z ∷ xs) y zero h = inl (omega arith, h)
append_last_inv (z ∷ xs) y (suc i) h = elim (append_last_inv xs y i h) [
  | inl old ↦ inl (omega (arith, old.0), old.1)
  | inr new ↦ inr (omega (arith, new.0), new.1)
]
