-- ===== src/Analysis/Cfg/Work.antt =====
-- src/analysis/cfg.c: how many rounds the walk has still to go.
use nybit.Base.{
  ℕ, zero, suc, ◌+◌, ◌-◌, ◌≡◌, refl, ap, arith, some, List, [], ◌∷◌, length, get_elem?, set,
}
use nybit.Ir.Function.{Block, Function}
use nybit.Analysis.Cfg.{Frame, cfg_get_successors}

-- The rounds that the frames on the stack still take.
abbrev pub open_work : Function → List Frame → ℕ
open_work fn [] = 0
open_work fn (f ∷ fs) = suc (length (cfg_get_successors fn f.blk) - f.succ) + open_work fn fs

-- The rounds that the blocks without a mark will take.
abbrev pub unseen_work : List Block → List ℕ → ℕ
unseen_work [] ms = 0
unseen_work (b ∷ bs) [] = 0
unseen_work (b ∷ bs) (zero ∷ ms) = suc (length b.succs) + unseen_work bs ms
unseen_work (b ∷ bs) (suc m ∷ ms) = unseen_work bs ms

pub unseen_work-set_zero :
    (bs : List Block) (ms : List ℕ) (i m : ℕ) {b : Block}
    → get_elem? bs i ≡ some b
    → get_elem? ms i ≡ some 0
    → unseen_work bs (set ms i (suc m)) + suc (length b.succs) ≡ unseen_work bs ms
unseen_work-set_zero [] ms i m e h = cc
unseen_work-set_zero (c ∷ bs) [] i m e h = cc
unseen_work-set_zero (c ∷ bs) (zero ∷ ms) zero m {b = b} e h =
    let same : c ≡ b = cc in omega (arith, ap (λ (x : Block). length x.succs) same)
unseen_work-set_zero (c ∷ bs) (suc k ∷ ms) zero m e h = cc
unseen_work-set_zero (c ∷ bs) (zero ∷ ms) (suc i) m e h =
    omega (arith, unseen_work-set_zero bs ms i m e h)
unseen_work-set_zero (c ∷ bs) (suc k ∷ ms) (suc i) m e h = unseen_work-set_zero bs ms i m e h

pub unseen_work-set_marked :
    (bs : List Block) (ms : List ℕ) (i k m : ℕ)
    → get_elem? ms i ≡ some (suc k)
    → unseen_work bs (set ms i (suc m)) ≡ unseen_work bs ms
unseen_work-set_marked [] ms i k m h = refl
unseen_work-set_marked (c ∷ bs) [] i k m h = refl
unseen_work-set_marked (c ∷ bs) (zero ∷ ms) zero k m h = cc
unseen_work-set_marked (c ∷ bs) (suc j ∷ ms) zero k m h = refl
unseen_work-set_marked (c ∷ bs) (zero ∷ ms) (suc i) k m h =
    omega (arith, unseen_work-set_marked bs ms i k m h)
unseen_work-set_marked (c ∷ bs) (suc j ∷ ms) (suc i) k m h = unseen_work-set_marked bs ms i k m h

abbrev pub work : Function → List Frame → List ℕ → ℕ
work fn stack visited = open_work fn stack + unseen_work fn.blocks visited
