-- ===== src/Analysis/Cfg/Result.antt =====
-- src/analysis/cfg.c: what `ny_cfg_info_init` returns, against the paths of the graph.
use nybit.Base.{
  ℕ, zero, suc, ◌+◌, ◌-◌, ◌%◌, ◌^◌, ◌<◌, ◌≡◌, refl, sym, ap, ◌∙◌, arith, ◌≢◌, ◌⊎◌, inl, inr, ◌↔◌,
  Bool, true, false, ◌||◌, ◌&&◌, some, List, [], ◌∷◌, length, get_elem?, ◌==◌, Bool-cases,
  Option-cases, get_elem?-of_lt, lt-length_of_get_elem?,
}
use nybit.Base.Outcome.{done}
use nybit.Ir.Function.{Function, invalid}
use nybit.Analysis.Cfg.{
  Edge, Walk, CfgInfo, filled, summary, no_info, reverse, cfg_info_init, cfg_is_reachable,
  cfg_is_back_edge, cfg_is_loop_header, flag_at, mark_reachable, cfg_rpo_index, has_edge,
}
use nybit.Analysis.Cfg.Headers.{Headed}
use nybit.Analysis.Cfg.Reach.{IsSucc, PathFrom, here, step, IsListed}
use nybit.Analysis.Cfg.Trail.{Placed, unmarked, on_stack, in_post, Inv}
use nybit.Analysis.Cfg.Start.{length-filled, get_elem?-filled, dfs-Headed_start, dfs-walk_start}
use nybit.Analysis.Cfg.Number.{
  get_elem?-reverse, get_elem?-of_reverse, reverse-IsUnique, number-at, mark_reachable-found,
  mark_reachable-listed,
}

-- What the analysis says of a function, in terms of the paths of its graph.
pub record IsCfgOf (fn : Function) (info : CfgInfo) : Type 0 where
  pub reachable : (v : ℕ) → (cfg_is_reachable info v ≡ true) ↔ PathFrom fn fn.entry_block v
  pub numbered :
      (v : ℕ) → PathFrom fn fn.entry_block v → get_elem? info.rpo (cfg_rpo_index info v) ≡ some v
  pub ordered :
      (u v : ℕ)
      → PathFrom fn fn.entry_block u
      → IsSucc fn u v
      → (cfg_is_back_edge info u v ≡ true) ⊎ (cfg_rpo_index info u < cfg_rpo_index info v)
  pub headed :
      (v : ℕ) → (cfg_is_loop_header info v ≡ true) ↔ ((u : ℕ) × (cfg_is_back_edge info u v ≡ true))
  pub cyclic : (u v : ℕ) → cfg_is_back_edge info u v ≡ true → IsSucc fn u v × PathFrom fn v u

has_edge-listed :
    (es : List Edge) (u v i : ℕ)
    → get_elem? es i ≡ some (record { source = u; target = v })
    → has_edge u v es ≡ true
has_edge-listed [] u v i h = cc
has_edge-listed (e ∷ es) u v zero h =
    let same : ◌≡◌ {A = Edge} e (record { source = u; target = v }) = cc in
    ground (arith, ap (λ (x : Edge). x.source) same, ap (λ (x : Edge). x.target) same)
has_edge-listed (e ∷ es) u v (suc i) h = ground (arith, has_edge-listed es u v i h)

has_edge-found :
    (es : List Edge) (u v : ℕ)
    → has_edge u v es ≡ true
    → IsListed {A = Edge} (record { source = u; target = v }) es
has_edge-found [] u v h = cc
has_edge-found (e ∷ es) u v h = elim (Bool-cases (e.source == u && e.target == v)) [
  | inl first ↦
      let source : e.source ≡ u = ground (arith, first) in
      let target : e.target ≡ v = ground (arith, first) in
      record { at = 0; found = rw (sym source, sym target) refl }
  | inr there ↦
      let l = has_edge-found es u v (rw there at h) in record { at = suc l.at; found = l.found }
]

flag_found : (flags : List Bool) (v : ℕ) → flag_at flags v ≡ true → get_elem? flags v ≡ some true
flag_found flags v e = elim (Option-cases (get_elem? flags v)) [
  | inl out ↦ let never : false ≡ true = rw (flag_at, out) at e in cc
  | inr (b, found) ↦ let is_set : b ≡ true = rw (flag_at, found) at e in found ∙ ap some is_set
]

flag_set : (flags : List Bool) (v : ℕ) → get_elem? flags v ≡ some true → flag_at flags v ≡ true
flag_set flags v e = rw (flag_at, e) refl

module _ (fn : Function) (w : Walk) (h : Inv fn w.visited [] w.post w.back) (headers : Headed w)
    (valid : fn.entry_block < length fn.blocks) (small : length fn.blocks < 2 ^ 31) where
  IsListed-of_Placed : {v m : ℕ} → Placed [] w.post v m → m ≢ 0 → IsListed v w.post
  IsListed-of_Placed unmarked n = absurd (n refl)
  IsListed-of_Placed (on_stack o) n = cc
  IsListed-of_Placed (in_post l) n = l

  IsListed-of_mark :
      (v : ℕ) → v < length fn.blocks → ¬ (get_elem? w.visited v ≡ some 0) → IsListed v w.post
  IsListed-of_mark v lt n =
      let (m, e) = get_elem?-of_lt w.visited v (omega (arith, h.size, lt)) in
      IsListed-of_Placed (h.placed v m e) (λ (z : m ≡ 0). n (e ∙ ap some z))

  IsListed-of_path : {v : ℕ} → PathFrom fn fn.entry_block v → IsListed v w.post
  IsListed-of_path here = IsListed-of_mark fn.entry_block valid h.rooted
  IsListed-of_path (step {v = u} {w = v} p e) =
      let l = IsListed-of_path p in
      elim (h.ordered l.at u v l.found e) [
        | inl b ↦ IsListed-of_mark v e.valid (h.returned _ b)
        | inr q ↦ record { at = q.0; found = q.1 }
      ]

  path_of_listed : {v : ℕ} → IsListed v w.post → PathFrom fn fn.entry_block v
  path_of_listed {v = v} l = h.sound v 1 (h.posted v l)

  lt_of_listed : {v : ℕ} → IsListed v w.post → v < length fn.blocks
  lt_of_listed {v = v} l = omega (arith, h.size, lt-length_of_get_elem? w.visited v (h.posted v l))

  index_of_listed :
      (v p : ℕ)
      → get_elem? w.post p ≡ some v
      → cfg_rpo_index (summary fn w) v ≡ length w.post - suc p
  index_of_listed v p e =
      let k = length w.post - suc p in
      let lt = lt_of_listed (record { at = p; found = e }) in
      let found =
        number-at (reverse w.post) 0 (filled (2 ^ 32 - 1) fn.blocks) k v
          (reverse-IsUnique w.post h.unique) (get_elem?-reverse w.post p e)
          (omega (arith, lt, length-filled {A = ℕ} (2 ^ 32 - 1) fn.blocks)) in
      let bound : (0 + k) % 2 ^ 32 ≡ k = omega (arith, h.room, small) in
      rw (cfg_rpo_index, found) bound

  summary-IsCfgOf : IsCfgOf fn (summary fn w)
  summary-IsCfgOf = record {
    reachable = λ v. (
      λ e.
          elim (mark_reachable-found (reverse w.post) (filled false fn.blocks) v
            (flag_found (mark_reachable (reverse w.post) (filled false fn.blocks)) v e)) [
              | inl old ↦
                  let never : ◌≡◌ {A = Bool} false true = get_elem?-filled false fn.blocks v old in
                  cc
              | inr l ↦
                  path_of_listed
                    (record { at = _; found = (get_elem?-of_reverse w.post l.at l.found).1 })
            ],
      λ p.
          let l = IsListed-of_path p in
          let lt : v < length (filled false fn.blocks) =
            omega (arith, lt_of_listed l, length-filled false fn.blocks) in
          flag_set (mark_reachable (reverse w.post) (filled false fn.blocks)) v (
            mark_reachable-listed (reverse w.post) (filled false fn.blocks) v _
              (get_elem?-reverse w.post l.at l.found) lt),
    );
    numbered = λ v p.
        let l = IsListed-of_path p in
        rw (index_of_listed v l.at l.found) (get_elem?-reverse w.post l.at l.found);
    ordered = λ u v p e.
        let l = IsListed-of_path p in
        elim (h.ordered l.at u v l.found e) [
          | inl b ↦ inl (has_edge-listed w.back u v b.at b.found)
          | inr (q, found, before) ↦ inr (
              omega (
                arith,
                index_of_listed u l.at l.found,
                index_of_listed v q found,
                before,
                lt-length_of_get_elem? w.post l.at l.found,
              ))
        ];
    headed = λ v. (
      λ e.
          let (u, l) = headers.only v (flag_found w.headers v e) in
          (u, has_edge-listed w.back u v l.at l.found),
      λ (u, e). flag_set w.headers v (headers.full u v (has_edge-found w.back u v e)),
    );
    cyclic = λ u v e. h.cyclic _ (has_edge-found w.back u v e);
  }

-- For every function, whatever its blocks and edges, the control-flow analysis returns within
-- as many rounds as there are blocks and edges, and no access to its stack, marks or post order
-- is out of bounds.
pub cfg_info_init_ends : (fn : Function) → (info : CfgInfo) × (cfg_info_init fn ≡ done (some info))
unfolding cfg_info_init
cfg_info_init_ends fn = elim (Bool-cases (length fn.blocks == 0 || fn.entry_block == invalid)) [
  | inl nothing ↦ (no_info, rw (cfg_info_init, nothing) refl)
  | inr some_blocks ↦
      let walked = dfs-walk_start fn in
      (summary fn walked.last, rw (cfg_info_init, some_blocks, walked.returns) refl)
]

-- For a function of less than 2^31 blocks whose entry is one of them, the control-flow analysis
-- returns, without an access out of bounds, and its answers are right: a block is reachable
-- exactly when a path leads to it from the entry; each reachable block has its number in
-- reverse post order; an edge of a reachable block is recorded as a back edge or leads to a
-- higher number; every recorded back edge is an edge that closes a cycle; and the loop headers
-- are exactly the targets of back edges.
pub cfg_info_init-IsCfgOf :
    (fn : Function)
    → fn.entry_block < length fn.blocks
    → length fn.blocks < 2 ^ 31
    → (info : CfgInfo) × (cfg_info_init fn ≡ done (some info)) × IsCfgOf fn info
unfolding cfg_info_init
cfg_info_init-IsCfgOf fn valid small =
    let some_blocks : (length fn.blocks == 0 || fn.entry_block == invalid) ≡ false =
      ground (arith, valid, small) in
    let walked = dfs-walk_start fn in
    (
      summary fn walked.last,
      rw (cfg_info_init, some_blocks, walked.returns) refl,
      summary-IsCfgOf fn walked.last walked.kept (dfs-Headed_start fn walked.returns) valid small,
    )
