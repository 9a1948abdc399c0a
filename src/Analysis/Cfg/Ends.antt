-- ===== src/Analysis/Cfg/Ends.antt =====
-- src/analysis/cfg.c: the walk ends within its rounds, without an access out of bounds.
use nybit.Base.{
  ℕ, zero, suc, ◌<◌, ◌≤◌, ◌≡◌, refl, sym, ap, subst, ◌∙◌, arith, inl, inr, true, false, Option,
  none, some, List, [], ◌∷◌, ◌++◌, length, get_elem?, set, ◌==◌, Bool-cases, Option-cases,
  List-cases, ltb, get_elem?-of_lt, lt-length_of_get_elem?,
}
use nybit.Base.Outcome.{Outcome, done}
use nybit.Ir.Function.{Block, Function}
use nybit.Analysis.Cfg.{
  Frame, Walk, cfg_get_successors, next_succ, follow_succ, finish_block, walk_step, dfs,
}
use nybit.Analysis.Cfg.Reach.{IsListed}
use nybit.Analysis.Cfg.Trail.{Placed, in_post, Inv}
use nybit.Analysis.Cfg.Turn.{advanced, Inv-skip, Inv-back, Inv-push}
use nybit.Analysis.Cfg.Marks.{unseen-set_zero}
use nybit.Analysis.Cfg.Close.{Inv-close}
use nybit.Analysis.Cfg.Work.{open_work, unseen_work-set_zero, unseen_work-set_marked, work}

next_succ_lem :
    (fn : Function) (f : Frame) → next_succ fn f ≡ get_elem? (cfg_get_successors fn f.blk) f.succ
next_succ_lem fn f = elim (Option-cases (get_elem? fn.blocks f.blk)) [
  | inl missing ↦ rw (next_succ, cfg_get_successors, missing) refl
  | inr (b, found) ↦ rw (next_succ, cfg_get_successors, found) refl
]

abbrev pub InvOf : Function → Walk → Type 0
InvOf fn w = Inv fn w.visited w.stack w.post w.back

-- A turn returns, keeps the invariant and leaves less to do.
record Turned (fn : Function) (before : ℕ) (o : Outcome Walk) : Type 0 where
  after : Walk
  returns : o ≡ done after
  kept : InvOf fn after
  less : suc (work fn after.stack after.visited) ≤ before

get_elem?-of_mark :
    (fn : Function) (visited : List ℕ) (s : ℕ) {m : ℕ}
    → length visited ≡ length fn.blocks
    → get_elem? visited s ≡ some m
    → (b : Block) × (get_elem? fn.blocks s ≡ some b)
get_elem?-of_mark fn visited s size e =
    get_elem?-of_lt fn.blocks s (omega (arith, size, lt-length_of_get_elem? visited s e))

no_mark :
    (fn : Function) (visited : List ℕ) (s : ℕ)
    → length visited ≡ length fn.blocks
    → s < length fn.blocks
    → ¬ (get_elem? visited s ≡ none)
no_mark fn visited s size lt e =
    let (m, found) = get_elem?-of_lt visited s (omega (arith, size, lt)) in
    let both : ◌≡◌ {A = Option ℕ} (some m) none = sym found ∙ e in cc

pub length-successors :
    (fn : Function) (s : ℕ) {b : Block}
    → get_elem? fn.blocks s ≡ some b
    → length (cfg_get_successors fn s) ≡ length b.succs
length-successors fn s e = rw (cfg_get_successors, e) refl

in_post_of_two :
    {stack : List Frame} {post : List ℕ} {v m : ℕ}
    → (m == 1) ≡ false
    → (m == 0) ≡ false
    → Placed stack post v m
    → IsListed v post
in_post_of_two a b (in_post l) = l
in_post_of_two a b _ = cc

module _ (fn : Function) (w : Walk) (f : Frame) (rest : List Frame) where
  finish_Turned :
      Inv fn w.visited (f ∷ rest) w.post w.back
      → get_elem? (cfg_get_successors fn f.blk) f.succ ≡ none
      → Turned fn (work fn (f ∷ rest) w.visited) (finish_block (length fn.blocks) w f rest)
  unfolding finish_block
  finish_Turned h over =
      let lt = lt-length_of_get_elem? w.visited f.blk h.trail.0.mark in
      let marked : ltb f.blk (length w.visited) ≡ true = ground (arith, lt) in
      let fits : ltb (length w.post) (length fn.blocks) ≡ true = ground (arith, h.room) in
      record {
        after = record w {
          visited = set w.visited f.blk 2;
          post = w.post ++ f.blk ∷ [];
          stack = rest;
        };
        returns = rw (finish_block, marked, fits) refl;
        kept = Inv-close fn f rest w.visited w.post w.back h over;
        less = omega (arith, unseen_work-set_marked fn.blocks w.visited f.blk 0 1 h.trail.0.mark);
      }

  push_Turned :
      (s : ℕ)
      → Inv fn w.visited (f ∷ rest) w.post w.back
      → get_elem? (cfg_get_successors fn f.blk) f.succ ≡ some s
      → get_elem? w.visited s ≡ some 0
      → Turned fn (work fn (f ∷ rest) w.visited) (follow_succ (length fn.blocks) w f rest s)
  unfolding follow_succ
  push_Turned s h at seen =
      let lt = lt-length_of_get_elem? (cfg_get_successors fn f.blk) f.succ at in
      let (b, found) = get_elem?-of_mark fn w.visited s h.size seen in
      let fits : ltb (suc (length rest)) (length fn.blocks) ≡ true =
        ground (arith, h.room, unseen-set_zero w.visited s 0 seen) in
      record {
        after = record w {
          visited = set w.visited s 1;
          stack = record { blk = s; succ = 0 } ∷ advanced f ∷ rest;
        };
        returns = rw (follow_succ, seen, fits) refl;
        kept = Inv-push fn f rest s w.visited w.post w.back at seen h;
        less = omega (
          arith,
          lt,
          unseen_work-set_zero fn.blocks w.visited s 0 found seen,
          length-successors fn s found,
        );
      }

  follow_Turned :
      (s : ℕ)
      → Inv fn w.visited (f ∷ rest) w.post w.back
      → get_elem? (cfg_get_successors fn f.blk) f.succ ≡ some s
      → Turned fn (work fn (f ∷ rest) w.visited) (follow_succ (length fn.blocks) w f rest s)
  unfolding follow_succ
  follow_Turned s h at =
      let lt = lt-length_of_get_elem? (cfg_get_successors fn f.blk) f.succ at in
      elim (Option-cases (get_elem? w.visited s)) [
        | inl out ↦ record {
          after = record w { stack = advanced f ∷ rest };
          returns = rw (follow_succ, out) refl;
          kept =
              Inv-skip fn f rest s w.visited w.post w.back at
                (λ v. absurd (no_mark fn w.visited s h.size v out)) h;
          less = omega (arith, lt);
        }
        | inr (mark, seen) ↦ elim (Bool-cases (mark == 1)) [
          | inl one ↦
              let is_one : mark ≡ 1 = ground (arith, one) in
              record {
                after = record w {
                  stack = advanced f ∷ rest;
                  back = w.back ++ record { source = f.blk; target = s } ∷ [];
                  headers = set w.headers s true;
                };
                returns = rw (follow_succ, seen, one) refl;
                kept = Inv-back fn f rest s w.visited w.post w.back at (rw is_one at seen) h;
                less = omega (arith, lt);
              }
          | inr other ↦ elim (Bool-cases (mark == 0)) [
            | inl blank ↦
                let is_zero : mark ≡ 0 = ground (arith, blank) in
                push_Turned s h at (rw is_zero at seen)
            | inr closed ↦ record {
              after = record w { stack = advanced f ∷ rest };
              returns = rw (follow_succ, seen, other, closed) refl;
              kept =
                  Inv-skip fn f rest s w.visited w.post w.back at
                    (λ v. in_post_of_two other closed (h.placed s mark seen)) h;
              less = omega (arith, lt);
            }
          ]
        ]
      ]

  step_Turned :
      Inv fn w.visited (f ∷ rest) w.post w.back
      → Turned fn (work fn (f ∷ rest) w.visited) (walk_step fn w f rest)
  unfolding walk_step
  step_Turned h = elim (Option-cases (next_succ fn f)) [
    | inl over ↦
        let e : walk_step fn w f rest ≡ finish_block (length fn.blocks) w f rest =
          rw (walk_step, over) refl in
        subst (λ (o : Outcome Walk). Turned fn (work fn (f ∷ rest) w.visited) o) (sym e)
          (finish_Turned h (sym (next_succ_lem fn f) ∙ over))
    | inr (s, at) ↦
        let e : walk_step fn w f rest ≡ follow_succ (length fn.blocks) w f rest s =
          rw (walk_step, at) refl in
        subst (λ (o : Outcome Walk). Turned fn (work fn (f ∷ rest) w.visited) o) (sym e)
          (follow_Turned s h (sym (next_succ_lem fn f) ∙ at))
  ]

pub record Walked (fn : Function) (o : Outcome (Option Walk)) : Type 0 where
  pub last : Walk
  pub returns : o ≡ done (some last)
  pub kept : Inv fn last.visited [] last.post last.back

pub dfs_ends :
    (fn : Function) (fuel : ℕ) (w : Walk)
    → InvOf fn w
    → work fn w.stack w.visited ≤ fuel
    → Walked fn (dfs fn fuel w)
unfolding dfs
dfs_ends fn zero w h le = elim (List-cases w.stack) [
  | inl empty ↦ record {
    last = w;
    returns = simp (dfs, empty) refl;
    kept = subst (λ (s : List Frame). Inv fn w.visited s w.post w.back) empty h;
  }
  | inr (f, rest, e) ↦ absurd (omega (arith, ap (λ (s : List Frame). open_work fn s) e))
]
dfs_ends fn (suc fuel) w h le = elim (List-cases w.stack) [
  | inl empty ↦ record {
    last = w;
    returns = simp (dfs, empty) refl;
    kept = subst (λ (s : List Frame). Inv fn w.visited s w.post w.back) empty h;
  }
  | inr (f, rest, e) ↦
      let turned =
        step_Turned fn w f rest
          (subst (λ (s : List Frame). Inv fn w.visited s w.post w.back) e h) in
      let ended =
        dfs_ends fn fuel turned.after turned.kept
          (omega (arith, turned.less, ap (λ (s : List Frame). open_work fn s) e)) in
      record {
        last = ended.last;
        returns = simp (dfs, e, turned.returns) ended.returns;
        kept = ended.kept;
      }
]
