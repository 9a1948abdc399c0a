-- ===== src/Analysis/Cfg/Trail.antt =====
-- src/analysis/cfg.c: what is true of the walk's arrays and its stack at every turn of the loop.
use nybit.Base.{
  ℕ, zero, suc, ◌+◌, ◌<◌, ◌≡◌, arith, ◌⊎◌, inl, inr, Bool, true, false, ◌||◌, Option, none, some,
  List, [], ◌∷◌, length, get_elem?, ◌==◌, Bool-cases,
}
use nybit.Ir.Function.{Function}
use nybit.Analysis.Cfg.{Edge, Frame, cfg_get_successors}
use nybit.Analysis.Cfg.Reach.{IsSucc, PathFrom, here, step, IsListed}

-- Whether a block is on the stack.
abbrev pub is_open : ℕ → List Frame → Bool
is_open v [] = false
is_open v (f ∷ fs) = f.blk == v || is_open v fs

-- The blocks that the walk has not come to.
abbrev pub unseen : List ℕ → ℕ
unseen [] = 0
unseen (zero ∷ ms) = suc (unseen ms)
unseen (suc m ∷ ms) = unseen ms

-- An edge that the walk has followed: back to an open block, to a finished one, or to the block
-- just above on the stack.
pub data Followed (post : List ℕ) (back : List Edge) (child : Option ℕ) (u v : ℕ) : Type 0 where
  back_edge : IsListed (record { source = u; target = v }) back → Followed post back child u v
  finished : IsListed v post → Followed post back child u v
  above : child ≡ some v → Followed post back child u v

pub data Parent (fn : Function) (v : ℕ) : List Frame → Type 0 where
  root : Parent fn v []
  below : {f : Frame} {fs : List Frame} → IsSucc fn f.blk v → Parent fn v (f ∷ fs)

-- A frame `f` of the stack, the frames below it and the block above it.
pub record Level (fn : Function) (visited post : List ℕ) (back : List Edge) (child : Option ℕ)
    (f : Frame) (fs : List Frame) : Type 0 where
  pub mark : get_elem? visited f.blk ≡ some 1
  pub fresh : is_open f.blk fs ≡ false
  pub parent : Parent fn f.blk fs
  pub followed :
      (i v : ℕ)
      → get_elem? (cfg_get_successors fn f.blk) i ≡ some v
      → v < length fn.blocks
      → i < f.succ
      → Followed post back child f.blk v

module _ (fn : Function) (visited post : List ℕ) (back : List Edge) where
  abbrev pub Trail : Option ℕ → List Frame → Type 0
  Trail child [] = Unit
  Trail child (f ∷ fs) = Level fn visited post back child f fs × Trail (some f.blk) fs

-- A block with a mark is on the stack or in the post order.
pub data Placed (stack : List Frame) (post : List ℕ) (v : ℕ) : ℕ → Type 0 where
  unmarked : Placed stack post v 0
  on_stack : is_open v stack ≡ true → Placed stack post v 1
  in_post : IsListed v post → Placed stack post v 2

-- What the post order says of an edge from its entry number `p`: it is a back edge, or its target
-- stands before.
abbrev pub Before : List ℕ → List Edge → ℕ → ℕ → ℕ → Type 0
Before post back u v p =
    IsListed (record { source = u; target = v }) back
    ⊎ ((q : ℕ) × (get_elem? post q ≡ some v) × (q < p))

pub record Inv (fn : Function) (visited : List ℕ) (stack : List Frame) (post : List ℕ)
    (back : List Edge) : Type 0 where
  pub size : length visited ≡ length fn.blocks
  pub room : length stack + unseen visited + length post ≡ length fn.blocks
  pub trail : Trail fn visited post back none stack
  pub placed : (v m : ℕ) → get_elem? visited v ≡ some m → Placed stack post v m
  pub posted : (v : ℕ) → IsListed v post → get_elem? visited v ≡ some 2
  pub unique : (p q v : ℕ) → get_elem? post p ≡ some v → get_elem? post q ≡ some v → p ≡ q
  pub ordered : (p u v : ℕ) → get_elem? post p ≡ some u → IsSucc fn u v → Before post back u v p
  pub sound : (v m : ℕ) → get_elem? visited v ≡ some (suc m) → PathFrom fn fn.entry_block v
  pub rooted : ¬ (get_elem? visited fn.entry_block ≡ some 0)
  pub returned : (e : Edge) → IsListed e back → ¬ (get_elem? visited e.target ≡ some 0)
  pub cyclic :
      (e : Edge) → IsListed e back → IsSucc fn e.source e.target × PathFrom fn e.target e.source

parent-IsSucc :
    {fn : Function} {v : ℕ} {g : Frame} {gs : List Frame} → Parent fn v (g ∷ gs) → IsSucc fn g.blk v
parent-IsSucc (below e) = e

-- A block on the stack is the top, or it leads to the parent of the top and so to the top.
pub path_to_top :
    (fn : Function) (visited post : List ℕ) (back : List Edge) (child : Option ℕ) (f : Frame)
    (fs : List Frame) (v : ℕ)
    → Trail fn visited post back child (f ∷ fs)
    → is_open v (f ∷ fs) ≡ true
    → PathFrom fn v f.blk
path_to_top fn visited post back child f [] v t o =
    let e : f.blk ≡ v = ground (arith, o) in rw e here
path_to_top fn visited post back child f (g ∷ gs) v t o = elim (Bool-cases (f.blk == v)) [
  | inl same ↦ let e : f.blk ≡ v = ground (arith, same) in rw e here
  | inr other ↦
      let lower : is_open v (g ∷ gs) ≡ true = rw other at o in
      step (path_to_top fn visited post back (some f.blk) g gs v t.1 lower)
        (parent-IsSucc t.0.parent)
]

pub followed_more :
    {post post' : List ℕ} {back back' : List Edge} {child child' : Option ℕ} {u v : ℕ}
    → (IsListed v post → IsListed v post')
    → (IsListed (record { source = u; target = v }) back
        → IsListed (record { source = u; target = v }) back')
    → (child ≡ some v → Followed post' back' child' u v)
    → Followed post back child u v
    → Followed post' back' child' u v
followed_more p b c (back_edge l) = back_edge (b l)
followed_more p b c (finished l) = finished (p l)
followed_more p b c (above e) = c e

-- The stack below a frame stays right where its marks stay and the orders grow.
pub Trail-kept :
    (fn : Function) (visited post : List ℕ) (back : List Edge) (child : Option ℕ)
    (visited' post' : List ℕ) (back' : List Edge) (fs : List Frame)
    → ((v : ℕ) → is_open v fs ≡ true → get_elem? visited' v ≡ get_elem? visited v)
    → ((v : ℕ) → IsListed v post → IsListed v post')
    → ((e : Edge) → IsListed e back → IsListed e back')
    → Trail fn visited post back child fs
    → Trail fn visited' post' back' child fs
Trail-kept fn visited post back child visited' post' back' [] same p b t = t
Trail-kept fn visited post back child visited' post' back' (f ∷ fs) same p b t =
    let top : is_open f.blk (f ∷ fs) ≡ true = ground arith in
    (
      record {
        mark = rw (same f.blk top) t.0.mark;
        fresh = t.0.fresh;
        parent = t.0.parent;
        followed = λ i v e valid lt. followed_more (p v) (b _) above (t.0.followed i v e valid lt);
      },
      Trail-kept fn visited post back (some f.blk) visited' post' back' fs
          (λ v o. same v (ground (arith, o))) p b t.1,
    )

pub Placed-more :
    {stack stack' : List Frame} {post post' : List ℕ} {v m : ℕ}
    → (is_open v stack ≡ true → is_open v stack' ≡ true)
    → (IsListed v post → IsListed v post')
    → Placed stack post v m
    → Placed stack' post' v m
Placed-more o p unmarked = unmarked
Placed-more o p (on_stack h) = on_stack (o h)
Placed-more o p (in_post l) = in_post (p l)
