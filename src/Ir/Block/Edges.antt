-- ===== src/Ir/Block/Edges.antt =====
-- Edges stay in step at their two ends.
use nybit.Base.{
  ℕ, ◌<◌, ◌≡◌, ◌≢◌, ◌∙◌, refl, sym, ap, arith, Bool, true, false, ◌||◌, ◌&&◌, Bool-cases, inl, inr,
  List, [], ◌∷◌, ◌++◌, length, get_elem?, set, get_elem?-set_self, get_elem?-set_ne,
  get_elem?-of_lt, ◌==◌, Option, some, none, Option-cases, lt-length_of_get_elem?, length-set,
}
use nybit.Ir.Function.{Block, adjust, adjust_found}
use nybit.Ir.Block.{
  contains, last_first, under_first, swap_remove, add_succ, add_pred, add_edge, remove_edge,
}

abbrev told : (Block → ℕ → Bool) → ℕ → Option Block → Bool
told holds u none = false
told holds u (some b) = holds b u

-- What the block at an index says of `u`; no block says anything out of range.
abbrev says : (Block → ℕ → Bool) → List Block → ℕ → ℕ → Bool
says holds blocks a u = told holds u (get_elem? blocks a)

abbrev succ_of : Block → ℕ → Bool
succ_of b u = contains b.succs u

abbrev pred_of : Block → ℕ → Bool
pred_of b u = contains b.preds u

-- The block `p` names `s` as a successor; the block `s` names `p` as a predecessor.
abbrev pub has_succ : List Block → ℕ → ℕ → Bool
has_succ blocks p s = says succ_of blocks p s

abbrev pub has_pred : List Block → ℕ → ℕ → Bool
has_pred blocks s p = says pred_of blocks s p

length-adjust :
    (blocks : List Block) (i : ℕ) (g : Block → Block) → length (adjust blocks i g) ≡ length blocks
length-adjust blocks i g = elim (Option-cases (get_elem? blocks i)) [
  | inl missing ↦ rw (adjust, missing) refl
  | inr found ↦ rw (adjust_found blocks i g found.1) (length-set blocks i (g found.0))
]

or_false : (b : Bool) → b ≡ (b || false)
or_false true = refl
or_false false = refl

contains-append : (xs : List ℕ) (v u : ℕ) → contains (xs ++ v ∷ []) u ≡ (contains xs u || v == u)
contains-append [] v u = ground arith
contains-append (x ∷ xs) v u = ground (arith, contains-append xs v u)

contains_known :
    (xs : List ℕ) (v u : ℕ) → contains xs v ≡ true → contains xs u ≡ (contains xs u || v == u)
contains_known xs v u known = elim (Bool-cases (v == u)) [
  | inl same ↦
      let e : v ≡ u = ground arith in
      let there : contains xs u ≡ true = rw (sym e) known in rw there refl
  | inr apart ↦ rw apart (or_false (contains xs u))
]

contains-add_succ :
    (s u : ℕ) (b : Block) → contains (add_succ s b).succs u ≡ (contains b.succs u || s == u)
contains-add_succ s u b = elim (Bool-cases (contains b.succs s)) [
  | inl known ↦ rw known (contains_known b.succs s u known)
  | inr new ↦ rw new (contains-append b.succs s u)
]

contains-add_pred :
    (p u : ℕ) (b : Block) → contains (add_pred p b).preds u ≡ (contains b.preds u || p == u)
contains-add_pred p u b = elim (Bool-cases (contains b.preds p)) [
  | inl known ↦ rw known (contains_known b.preds p u known)
  | inr new ↦ rw new (contains-append b.preds p u)
]

succs-add_pred : (p : ℕ) (b : Block) → (add_pred p b).succs ≡ b.succs
succs-add_pred p b = elim (Bool-cases (contains b.preds p)) [
  | inl known ↦ rw known refl
  | inr new ↦ rw new refl
]

preds-add_succ : (s : ℕ) (b : Block) → (add_succ s b).preds ≡ b.preds
preds-add_succ s b = elim (Bool-cases (contains b.succs s)) [
  | inl known ↦ rw known refl
  | inr new ↦ rw new refl
]

-- A change of one block adds what it adds to what this block says, and nothing else.
says-adjust :
    (holds : Block → ℕ → Bool) (g : Block → Block) (more : Bool) (blocks : List Block) (i a u : ℕ)
    → i < length blocks
    → ((b : Block) → holds (g b) u ≡ (holds b u || more))
    → says holds (adjust blocks i g) a u ≡ (says holds blocks a u || (i == a && more))
says-adjust holds g more blocks i a u below h =
    let found = get_elem?-of_lt blocks i below in
    elim (Bool-cases (i == a)) [
      | inl same ↦
          let e : i ≡ a = ground arith in
          let there : get_elem? blocks a ≡ some found.0 = rw (sym e) found.1 in
          let after : get_elem? (set blocks a (g found.0)) a ≡ some (g found.0) =
            get_elem?-set_self blocks a (g found.0) (lt-length_of_get_elem? blocks a there) in
          rw (adjust_found blocks i g found.1, same, e, after, there) (h found.0)
      | inr apart ↦
          let ne : i ≢ a = ground arith in
          rw (adjust_found blocks i g found.1, apart, get_elem?-set_ne blocks (g found.0) ne)
            (or_false (says holds blocks a u))
    ]

contains-under_first :
    (x : ℕ) (zs : List ℕ) (u : ℕ) → contains (under_first x zs) u ≡ (x == u || contains zs u)
contains-under_first x [] u = refl
contains-under_first x (z ∷ zs) u = ground arith

contains-last_first : (xs : List ℕ) (u : ℕ) → contains (last_first xs) u ≡ contains xs u
contains-last_first [] u = refl
contains-last_first (x ∷ xs) u =
    contains-under_first x (last_first xs) u ∙ ap (λ t. x == u || t) (contains-last_first xs u)

contains-swap_remove :
    (v u : ℕ) (xs : List ℕ) → v ≢ u → contains (swap_remove v xs) u ≡ contains xs u
unfolding swap_remove
contains-swap_remove v u [] h = refl
contains-swap_remove v u (x ∷ xs) h = elim (Bool-cases (x == v)) [
  | inl here ↦
      let away : (x == u) ≡ false = ground arith in
      rw (swap_remove, here, away) (contains-last_first xs u)
  | inr there ↦ rw (swap_remove, there) (ap (λ t. x == u || t) (contains-swap_remove v u xs h))
]

and_false : (x y : Bool) → (x || (y && false)) ≡ x
and_false true y = refl
and_false false true = refl
and_false false false = refl

-- A block has the successors that it had, and its end of the new edge.
pub has_succ-add_edge :
    (blocks : List Block) (p s a u : ℕ)
    → p < length blocks
    → s < length blocks
    → has_succ (add_edge blocks p s) a u ≡ (has_succ blocks a u || (p == a && s == u))
unfolding add_edge
has_succ-add_edge blocks p s a u hp hs =
    let half = adjust blocks p (add_succ s) in
    says-adjust succ_of (add_pred p) false half s a u (rw (length-adjust blocks p (add_succ s)) hs)
      (λ b. rw (succs-add_pred p b) (or_false (contains b.succs u)))
    ∙ and_false (says succ_of half a u) (s == a)
    ∙ says-adjust succ_of (add_succ s) (s == u) blocks p a u hp (contains-add_succ s u)

-- A block has the predecessors that it had, and its end of the new edge.
pub has_pred-add_edge :
    (blocks : List Block) (p s a u : ℕ)
    → p < length blocks
    → s < length blocks
    → has_pred (add_edge blocks p s) a u ≡ (has_pred blocks a u || (s == a && p == u))
unfolding add_edge
has_pred-add_edge blocks p s a u hp hs =
    let half = adjust blocks p (add_succ s) in
    says-adjust pred_of (add_pred p) (p == u) half s a u
      (rw (length-adjust blocks p (add_succ s)) hs) (contains-add_pred p u)
    ∙ ap (λ t. t || (s == a && p == u))
        (says-adjust pred_of (add_succ s) false blocks p a u hp
            (λ b. rw (preds-add_succ s b) (or_false (contains b.preds u)))
          ∙ and_false (has_pred blocks a u) (p == a))

-- The two ends of every edge agree.
abbrev pub Symmetric : List Block → Type 0
Symmetric blocks = (p s : ℕ) → has_succ blocks p s ≡ has_pred blocks s p

and_comm : (x y : Bool) → (x && y) ≡ (y && x)
and_comm true true = refl
and_comm true false = refl
and_comm false true = refl
and_comm false false = refl

-- In a list of blocks in which each edge is known at both ends, adding an edge between two of
-- the blocks keeps that.
pub add_edge-Symmetric :
    (blocks : List Block) (p s : ℕ)
    → p < length blocks
    → s < length blocks
    → Symmetric blocks
    → Symmetric (add_edge blocks p s)
add_edge-Symmetric blocks p s hp hs sides a u =
    rw
      (
        has_succ-add_edge blocks p s a u hp hs,
        has_pred-add_edge blocks p s u a hp hs,
        sides a u,
        and_comm (p == a) (s == u),
      )
      refl

-- Removing the edge between two blocks of the list keeps every successor but the one and every
-- predecessor but the other, in every block.
pub remove_edge_keeps :
    (blocks : List Block) (p s a u v : ℕ)
    → p < length blocks
    → s < length blocks
    → s ≢ u
    → p ≢ v
    → (has_succ (remove_edge blocks p s) a u ≡ has_succ blocks a u)
      × (has_pred (remove_edge blocks p s) a v ≡ has_pred blocks a v)
unfolding remove_edge
remove_edge_keeps blocks p s a u v hp hs ne_u ne_v =
    let g : Block → Block = λ b. record b { succs = swap_remove s b.succs } in
    let k : Block → Block = λ b. record b { preds = swap_remove p b.preds } in
    let half = adjust blocks p g in
    let inside : s < length half = rw (length-adjust blocks p g) hs in
    (
      says-adjust succ_of k false half s a u inside (λ b. or_false (contains b.succs u))
          ∙ and_false (says succ_of half a u) (s == a)
          ∙ says-adjust succ_of g false blocks p a u hp
              (λ b. contains-swap_remove s u b.succs ne_u ∙ or_false (contains b.succs u))
          ∙ and_false (has_succ blocks a u) (p == a),
      says-adjust pred_of k false half s a v inside
            (λ b. contains-swap_remove p v b.preds ne_v ∙ or_false (contains b.preds v))
          ∙ and_false (says pred_of half a v) (s == a)
          ∙ says-adjust pred_of g false blocks p a v hp (λ b. or_false (contains b.preds v))
          ∙ and_false (has_pred blocks a v) (p == a),
    )
