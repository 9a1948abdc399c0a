-- ===== src/Analysis/Cfg/Marks.antt =====
-- src/analysis/cfg.c: the marks of the walk before and after a write.
use nybit.Base.{
  get_elem?-set_cases, ℕ, zero, suc, ◌≡◌, refl, sym, ap, ◌∙◌, arith, inl, inr, Bool, true, false,
  Option, some, List, [], ◌∷◌, get_elem?, set, ◌==◌, Bool-cases,
}
use nybit.Ir.Function.{Function}
use nybit.Analysis.Cfg.{Edge, Frame}
use nybit.Analysis.Cfg.Trail.{is_open, unseen, Trail, Placed, on_stack}

pub unseen-set_zero :
    (ms : List ℕ) (i m : ℕ) → get_elem? ms i ≡ some 0 → suc (unseen (set ms i (suc m))) ≡ unseen ms
unseen-set_zero [] i m h = cc
unseen-set_zero (zero ∷ ms) zero m h = refl
unseen-set_zero (suc k ∷ ms) zero m h = cc
unseen-set_zero (zero ∷ ms) (suc i) m h = ap suc (unseen-set_zero ms i m h)
unseen-set_zero (suc k ∷ ms) (suc i) m h = unseen-set_zero ms i m h

pub unseen-set_marked :
    (ms : List ℕ) (i k m : ℕ)
    → get_elem? ms i ≡ some (suc k)
    → unseen (set ms i (suc m)) ≡ unseen ms
unseen-set_marked [] i k m h = refl
unseen-set_marked (zero ∷ ms) zero k m h = cc
unseen-set_marked (suc j ∷ ms) zero k m h = refl
unseen-set_marked (zero ∷ ms) (suc i) k m h = ap suc (unseen-set_marked ms i k m h)
unseen-set_marked (suc j ∷ ms) (suc i) k m h = unseen-set_marked ms i k m h

pub some_same : {o : Option ℕ} {x y : ℕ} → o ≡ some x → o ≡ some y → x ≡ y
some_same {x = x} {y = y} a b = let twice : ◌≡◌ {A = Option ℕ} (some x) (some y) = sym a ∙ b in cc

pub open_of_one :
    {stack : List Frame} {post : List ℕ} {v : ℕ} → Placed stack post v 1 → is_open v stack ≡ true
open_of_one (on_stack o) = o

-- A block on the stack has mark 1.
pub open_mark :
    (fn : Function) (visited post : List ℕ) (back : List Edge) (child : Option ℕ) (fs : List Frame)
    (v : ℕ)
    → Trail fn visited post back child fs
    → is_open v fs ≡ true
    → get_elem? visited v ≡ some 1
open_mark fn visited post back child [] v t o = cc
open_mark fn visited post back child (f ∷ fs) v t o = elim (Bool-cases (f.blk == v)) [
  | inl same ↦ let e : v ≡ f.blk = ground (arith, same) in rw e t.0.mark
  | inr other ↦ open_mark fn visited post back (some f.blk) fs v t.1 (rw other at o)
]

pub zero_not_one : {o : Option ℕ} → o ≡ some 0 → ¬ (o ≡ some 1)
zero_not_one a b = let e : ◌≡◌ {A = ℕ} 0 1 = some_same a b in omega (arith, e)

pub zero_not_two : {o : Option ℕ} → o ≡ some 0 → ¬ (o ≡ some 2)
zero_not_two a b = let e : ◌≡◌ {A = ℕ} 0 2 = some_same a b in omega (arith, e)

pub closed_ne : {b : Bool} → b ≡ false → ¬ (b ≡ true)
closed_ne a b = cc

-- A mark that was set is not taken back.
pub nonzero-set :
    (ms : List ℕ) (i m v : ℕ)
    → ¬ (get_elem? ms v ≡ some 0)
    → ¬ (get_elem? (set ms i (suc m)) v ≡ some 0)
nonzero-set ms i m v h e = elim (get_elem?-set_cases ms i (suc m) v e) [
  | inl same ↦ absurd (omega (arith, same.1))
  | inr other ↦ h other.1
]
