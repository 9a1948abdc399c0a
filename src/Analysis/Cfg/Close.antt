-- ===== src/Analysis/Cfg/Close.antt =====
-- src/analysis/cfg.c: the turn that takes a block without successors left from the stack.
use nybit.Base.{
  get_elem?-set_cases, ℕ, zero, suc, ◌<◌, ◌≡◌, sym, subst, ◌∙◌, arith, inl, inr, true, Option, none,
  some, List, [], ◌∷◌, ◌++◌, length, get_elem?, set, length-set, length-append,
  get_elem?-append_left, get_elem?-set_self, get_elem?-set_ne, lt-length_of_get_elem?,
}
use nybit.Ir.Function.{Function}
use nybit.Analysis.Cfg.{Edge, Frame, cfg_get_successors}
use nybit.Analysis.Cfg.Reach.{
  IsSucc, IsListed, IsListed-append, IsListed-append_last, append_last_inv,
}
use nybit.Analysis.Cfg.Trail.{
  is_open, Followed, back_edge, finished, above, Trail, Placed, Before, in_post, Inv, followed_more,
  Trail-kept, Placed-more,
}
use nybit.Analysis.Cfg.Marks.{unseen-set_marked, nonzero-set, some_same, closed_ne}

get_elem?-of_none :
    (xs : List ℕ) (i j : ℕ) {v : ℕ} → get_elem? xs i ≡ none → get_elem? xs j ≡ some v → j < i
get_elem?-of_none [] i j h e = cc
get_elem?-of_none (x ∷ xs) zero j h e = cc
get_elem?-of_none (x ∷ xs) (suc i) zero h e = omega arith
get_elem?-of_none (x ∷ xs) (suc i) (suc j) h e = omega (arith, get_elem?-of_none xs i j h e)

one_not_two : {o : Option ℕ} → o ≡ some 1 → ¬ (o ≡ some 2)
one_not_two a b = let e : ◌≡◌ {A = ℕ} 1 2 = some_same a b in omega (arith, e)

-- Where the block above the stack is in the post order, nothing is above it.
Trail-closed :
    (fn : Function) (visited post : List ℕ) (back : List Edge) (b : ℕ) (fs : List Frame)
    → IsListed b post
    → Trail fn visited post back (some b) fs
    → Trail fn visited post back none fs
Trail-closed fn visited post back b [] l t = t
Trail-closed fn visited post back b (f ∷ fs) l t = (
  record {
    mark = t.0.mark;
    fresh = t.0.fresh;
    parent = t.0.parent;
    followed = λ i v e valid lt.
        followed_more (λ p. p) (λ q. q)
          (λ (c : ◌≡◌ {A = Option ℕ} (some b) (some v)).
            let same : b ≡ v = cc in finished (subst (λ (x : ℕ). IsListed x post) same l))
          (t.0.followed i v e valid lt);
  },
  t.1,
)

-- What is followed with nothing above is a back edge or is finished.
settled :
    {post : List ℕ} {back : List Edge} {u v : ℕ}
    → Followed post back none u v
    → Before post back u v (length post)
settled (back_edge l) = inl l
settled {post = post} (finished l) = inr (l.at, l.found, lt-length_of_get_elem? post l.at l.found)
settled (above e) = absurd cc

module _ (fn : Function) (f : Frame) (rest : List Frame) (visited post : List ℕ) (back : List Edge)
    (h : Inv fn visited (f ∷ rest) post back)
    (over : get_elem? (cfg_get_successors fn f.blk) f.succ ≡ none) where
  unlisted : (p : ℕ) → ¬ (get_elem? post p ≡ some f.blk)
  unlisted p e = one_not_two h.trail.0.mark (h.posted f.blk (record { at = p; found = e }))

  unique-close :
      (p q v : ℕ)
      → get_elem? (post ++ f.blk ∷ []) p ≡ some v
      → get_elem? (post ++ f.blk ∷ []) q ≡ some v
      → p ≡ q
  unique-close p q v a b = elim (append_last_inv post f.blk p a) [
    | inl old ↦ elim (append_last_inv post f.blk q b) [
      | inl old' ↦ h.unique p q v old.1 old'.1
      | inr new ↦ absurd (unlisted p (rw new.1 old.1))
    ]
    | inr new ↦ elim (append_last_inv post f.blk q b) [
      | inl old ↦ absurd (unlisted q (rw new.1 old.1))
      | inr new' ↦ new.0 ∙ sym new'.0
    ]
  ]

  Before-more : (u v p : ℕ) → Before post back u v p → Before (post ++ f.blk ∷ []) back u v p
  Before-more u v p (inl b) = inl b
  Before-more u v p (inr (q, e, lt)) =
      inr (q, get_elem?-append_left post (f.blk ∷ []) q (lt-length_of_get_elem? post q e) ∙ e, lt)

  ordered-close :
      (p u v : ℕ)
      → get_elem? (post ++ f.blk ∷ []) p ≡ some u
      → IsSucc fn u v
      → Before (post ++ f.blk ∷ []) back u v p
  ordered-close p u v e i = elim (append_last_inv post f.blk p e) [
    | inl old ↦ Before-more u v p (h.ordered p u v old.1 i)
    | inr new ↦
        let listed : get_elem? (cfg_get_successors fn f.blk) i.place ≡ some v =
          subst (λ (x : ℕ). get_elem? (cfg_get_successors fn x) i.place ≡ some v) (sym new.1)
            i.listed in
        let lt = get_elem?-of_none (cfg_get_successors fn f.blk) f.succ i.place over listed in
        let last : Before post back f.blk v (length post) =
          settled (h.trail.0.followed i.place v listed i.valid lt) in
        subst (λ (x : ℕ). Before (post ++ f.blk ∷ []) back x v p) new.1
          (subst (λ (x : ℕ). Before (post ++ f.blk ∷ []) back f.blk v x) (sym new.0)
            (Before-more f.blk v (length post) last))
  ]

  Placed-close :
      (v m : ℕ) → get_elem? (set visited f.blk 2) v ≡ some m → Placed rest (post ++ f.blk ∷ []) v m
  Placed-close v m e = elim (get_elem?-set_cases visited f.blk 2 v e) [
    | inl same ↦
        let top : Placed rest (post ++ f.blk ∷ []) f.blk 2 =
          in_post (IsListed-append_last post f.blk) in
        rw (same.0, same.1) top
    | inr other ↦
        Placed-more (λ o. ground (arith, o, other.0)) (IsListed-append post (f.blk ∷ []))
          (h.placed v m other.1)
  ]

  posted-close :
      (v : ℕ) → IsListed v (post ++ f.blk ∷ []) → get_elem? (set visited f.blk 2) v ≡ some 2
  posted-close v l = elim (append_last_inv post f.blk l.at l.found) [
    | inl old ↦
        let two = h.posted v (record { at = l.at; found = old.1 }) in
        get_elem?-set_ne visited 2 (λ (e : f.blk ≡ v). one_not_two h.trail.0.mark (rw e two)) ∙ two
    | inr new ↦
        subst (λ (x : ℕ). get_elem? (set visited f.blk 2) x ≡ some 2) new.1
          (get_elem?-set_self visited f.blk 2 (lt-length_of_get_elem? visited f.blk h.trail.0.mark))
  ]

  -- A turn that takes a block from the stack.
  pub Inv-close : Inv fn (set visited f.blk 2) rest (post ++ f.blk ∷ []) back
  Inv-close =
      let marks : (v : ℕ)
          → is_open v rest ≡ true
          → get_elem? (set visited f.blk 2) v ≡ get_elem? visited v =
        λ v o. get_elem?-set_ne visited 2 (λ (e : f.blk ≡ v).
          closed_ne h.trail.0.fresh (subst (λ (x : ℕ). is_open x rest ≡ true) (sym e) o)) in
      record {
        size = length-set visited f.blk 2 ∙ h.size;
        room = omega (
          arith,
          h.room,
          unseen-set_marked visited f.blk 0 1 h.trail.0.mark,
          length-append post (f.blk ∷ []),
        );
        trail =
            Trail-closed fn (set visited f.blk 2) (post ++ f.blk ∷ []) back f.blk rest
              (IsListed-append_last post f.blk)
              (Trail-kept fn visited post back (some f.blk) (set visited f.blk 2)
                (post ++ f.blk ∷ []) back rest marks (λ v. IsListed-append post (f.blk ∷ []))
                (λ e l. l) h.trail.1);
        placed = Placed-close;
        posted = posted-close;
        unique = unique-close;
        ordered = ordered-close;
        sound = λ v m e. elim (get_elem?-set_cases visited f.blk 2 v e) [
          | inl same ↦ rw same.0 (h.sound f.blk 0 h.trail.0.mark)
          | inr other ↦ h.sound v m other.1
        ];
        rooted = nonzero-set visited f.blk 1 fn.entry_block h.rooted;
        returned = λ e l. nonzero-set visited f.blk 1 e.target (h.returned e l);
        cyclic = h.cyclic;
      }
