-- ===== src/Analysis/Cfg/Turn.antt =====
-- src/analysis/cfg.c: each kind of turn of the walk keeps what is true of its arrays.
use nybit.Base.{
  get_elem?-set_cases, ℕ, ◌+◌, ◌<◌, ◌≡◌, refl, sym, subst, ◌∙◌, arith, inl, inr, true, false,
  Option, none, some, List, [], ◌∷◌, ◌++◌, length, get_elem?, set, ◌==◌, Bool-cases, length-set,
  get_elem?-set_self, get_elem?-set_ne, lt-length_of_get_elem?,
}
use nybit.Ir.Function.{Function}
use nybit.Analysis.Cfg.{Edge, Frame, cfg_get_successors}
use nybit.Analysis.Cfg.Reach.{
  IsSucc, PathFrom, step, IsListed, IsListed-append, IsListed-append_last, append_last_inv,
}
use nybit.Analysis.Cfg.Trail.{
  is_open, Followed, back_edge, finished, above, below, Level, Trail, Placed, on_stack, Inv,
  path_to_top, followed_more, Trail-kept, Placed-more,
}
use nybit.Analysis.Cfg.Marks.{
  unseen-set_zero, some_same, open_of_one, open_mark, zero_not_one, zero_not_two, closed_ne,
  nonzero-set,
}

-- The frame after its next successor was taken.
abbrev pub advanced : Frame → Frame
advanced f = record f { succ = f.succ + 1 }

module _ (fn : Function) (f : Frame) (rest : List Frame) (s : ℕ) where
  -- The level of a frame that has followed its next successor, to `s`.
  Level-advanced :
      (visited post : List ℕ) (back back' : List Edge) (child : Option ℕ)
      → get_elem? (cfg_get_successors fn f.blk) f.succ ≡ some s
      → ((e : Edge) → IsListed e back → IsListed e back')
      → (s < length fn.blocks → Followed post back' child f.blk s)
      → Level fn visited post back none f rest
      → Level fn visited post back' child (advanced f) rest
  Level-advanced visited post back back' child at more new h = record {
    mark = h.mark;
    fresh = h.fresh;
    parent = h.parent;
    followed = λ i v e valid lt. elim (Bool-cases (i == f.succ)) [
      | inl last ↦
          let here : i ≡ f.succ = ground (arith, last) in
          let there : get_elem? (cfg_get_successors fn f.blk) f.succ ≡ some v = rw here at e in
          let same : s ≡ v = some_same at there in
          let valid_s : s < length fn.blocks = omega (arith, valid, same) in
          subst (λ (x : ℕ). Followed post back' child f.blk x) same (new valid_s)
      | inr other ↦
          followed_more (λ l. l) (more _) (λ c. absurd cc)
            (h.followed i v e valid (ground (arith, lt, other)))
    ];
  }

  -- The edge to the next successor.
  next_IsSucc :
      get_elem? (cfg_get_successors fn f.blk) f.succ ≡ some s
      → s < length fn.blocks
      → IsSucc fn f.blk s
  next_IsSucc at valid = record { place = f.succ; listed = at; valid = valid }

  -- A turn that only takes the next successor, which is no block or is finished.
  pub Inv-skip :
      (visited post : List ℕ) (back : List Edge)
      → get_elem? (cfg_get_successors fn f.blk) f.succ ≡ some s
      → (s < length fn.blocks → IsListed s post)
      → Inv fn visited (f ∷ rest) post back
      → Inv fn visited (advanced f ∷ rest) post back
  Inv-skip visited post back at done h = record {
    size = h.size;
    room = h.room;
    trail = (
      Level-advanced visited post back back none at (λ e l. l) (λ v. finished (done v)) h.trail.0,
      h.trail.1,
    );
    placed = λ v m e. Placed-more (λ o. o) (λ l. l) (h.placed v m e);
    posted = h.posted;
    unique = h.unique;
    ordered = h.ordered;
    sound = h.sound;
    rooted = h.rooted;
    returned = h.returned;
    cyclic = h.cyclic;
  }

  -- A turn that finds a back edge.
  pub Inv-back :
      (visited post : List ℕ) (back : List Edge)
      → get_elem? (cfg_get_successors fn f.blk) f.succ ≡ some s
      → get_elem? visited s ≡ some 1
      → Inv fn visited (f ∷ rest) post back
      → Inv fn visited (advanced f ∷ rest) post (back ++ record { source = f.blk; target = s } ∷ [])
  Inv-back visited post back at mark h =
      let edge : Edge = record { source = f.blk; target = s } in
      let more : (e : Edge) → IsListed e back → IsListed e (back ++ edge ∷ []) =
        λ e l. IsListed-append back (edge ∷ []) l in
      record {
        size = h.size;
        room = h.room;
        trail = (
          Level-advanced visited post back (back ++ edge ∷ []) none at more
              (λ v. back_edge (IsListed-append_last back edge)) h.trail.0,
          Trail-kept fn visited post back (some f.blk) visited post (back ++ edge ∷ []) rest
              (λ v o. refl) (λ v l. l) more h.trail.1,
        );
        placed = λ v m e. Placed-more (λ o. o) (λ l. l) (h.placed v m e);
        posted = h.posted;
        unique = h.unique;
        ordered =
            λ p u v e i. elim (h.ordered p u v e i) [ inl b ↦ inl (more _ b) | inr q ↦ inr q ];
        sound = h.sound;
        rooted = h.rooted;
        returned = λ e l. elim (append_last_inv back edge l.at l.found) [
          | inl old ↦ h.returned e (record { at = l.at; found = old.1 })
          | inr new ↦
              subst (λ (x : Edge). ¬ (get_elem? visited x.target ≡ some 0)) new.1
                (λ z. zero_not_one z mark)
        ];
        cyclic = λ e l. elim (append_last_inv back edge l.at l.found) [
          | inl old ↦ h.cyclic e (record { at = l.at; found = old.1 })
          | inr new ↦
              let valid : s < length fn.blocks =
                omega (arith, h.size, lt-length_of_get_elem? visited s mark) in
              let open_s = open_of_one (h.placed s 1 mark) in
              subst (λ (x : Edge). IsSucc fn x.source x.target × PathFrom fn x.target x.source)
                new.1
                (
                  next_IsSucc at valid,
                  path_to_top fn visited post back none f rest s h.trail open_s,
                )
        ];
      }

  -- A turn that comes to a new block.
  pub Inv-push :
      (visited post : List ℕ) (back : List Edge)
      → get_elem? (cfg_get_successors fn f.blk) f.succ ≡ some s
      → get_elem? visited s ≡ some 0
      → Inv fn visited (f ∷ rest) post back
      → Inv fn (set visited s 1) (record { blk = s; succ = 0 } ∷ advanced f ∷ rest) post back
  Inv-push visited post back at mark h =
      let lt = lt-length_of_get_elem? visited s mark in
      let valid : s < length fn.blocks = omega (arith, h.size, lt) in
      let closed : is_open s (f ∷ rest) ≡ false = elim (Bool-cases (is_open s (f ∷ rest))) [
        | inl o ↦
            absurd (zero_not_one mark (open_mark fn visited post back none (f ∷ rest) s h.trail o))
        | inr c ↦ c
      ] in
      let kept : Trail fn (set visited s 1) post back none (f ∷ rest) =
        Trail-kept fn visited post back none (set visited s 1) post back (f ∷ rest)
          (λ v o. get_elem?-set_ne visited 1 (λ (e : s ≡ v).
            closed_ne closed (subst (λ (x : ℕ). is_open x (f ∷ rest) ≡ true) (sym e) o)))
          (λ v l. l) (λ e l. l) h.trail in
      record {
        size = length-set visited s 1 ∙ h.size;
        room = omega (arith, h.room, unseen-set_zero visited s 0 mark);
        trail = (
          record {
            mark = get_elem?-set_self visited s 1 lt;
            fresh = closed;
            parent = below (next_IsSucc at valid);
            followed = λ i v e ok before. absurd (omega (arith, before));
          },
          (
            Level-advanced (set visited s 1) post back back (some s) at (λ e l. l) (λ v. above refl)
                kept.0,
            kept.1,
          ),
        );
        placed = λ v m e. elim (get_elem?-set_cases visited s 1 v e) [
          | inl same ↦
              let top : Placed (record { blk = s; succ = 0 } ∷ advanced f ∷ rest) post s 1 =
                on_stack (ground arith) in
              rw (same.0, same.1) top
          | inr other ↦ Placed-more (λ o. ground (arith, o)) (λ l. l) (h.placed v m other.1)
        ];
        posted = λ v l.
            let two = h.posted v l in
            get_elem?-set_ne visited 1 (λ (e : s ≡ v). zero_not_two mark (rw e two)) ∙ two;
        unique = h.unique;
        ordered = h.ordered;
        sound = λ v m e. elim (get_elem?-set_cases visited s 1 v e) [
          | inl same ↦
              let reached = step (h.sound f.blk 0 h.trail.0.mark) (next_IsSucc at valid) in
              rw same.0 reached
          | inr other ↦ h.sound v m other.1
        ];
        rooted = nonzero-set visited s 0 fn.entry_block h.rooted;
        returned = λ e l. nonzero-set visited s 0 e.target (h.returned e l);
        cyclic = h.cyclic;
      }
