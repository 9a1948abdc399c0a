-- ===== src/Analysis/Cfg/Headers.antt =====
-- src/analysis/cfg.c: the loop headers are the targets of the back edges.
use nybit.Base.{
  ℕ, zero, suc, ◌<◌, ◌≡◌, refl, sym, ap, subst, ◌∙◌, arith, inl, inr, true, ◌&&◌, Option, some,
  List, [], ◌∷◌, ◌++◌, length, get_elem?, set, ltb, ◌==◌, Bool-cases, Option-cases, List-cases,
  length-set, get_elem?-set_self, get_elem?-set_ne, get_elem?-set_cases, lt-length_of_get_elem?,
}
use nybit.Base.Outcome.{Outcome, done, faulted, ◌>>=◌, bind_inv}
use nybit.Ir.Function.{Function}
use nybit.Analysis.Cfg.{Edge, Frame, Walk, next_succ, follow_succ, finish_block, walk_step, dfs}
use nybit.Analysis.Cfg.Reach.{IsListed, IsListed-append, IsListed-append_last, append_last_inv}
use nybit.Analysis.Cfg.Turn.{advanced}

pub record Headed (w : Walk) : Type 0 where
  pub size : length w.headers ≡ length w.visited
  pub full :
      (u v : ℕ)
      → IsListed {A = Edge} (record { source = u; target = v }) w.back
      → get_elem? w.headers v ≡ some true
  pub only :
      (v : ℕ)
      → get_elem? w.headers v ≡ some true
      → (u : ℕ) × IsListed {A = Edge} (record { source = u; target = v }) w.back

ends_Headed : (a b : Walk) → Headed a → done a ≡ done b → Headed b
ends_Headed a b h e = let same : a ≡ b = cc in subst Headed same h

module _ (w : Walk) (f : Frame) (rest : List Frame) (h : Headed w) where
  -- A change of the marks, the stack and the post order alone.
  Headed-same :
      (visited : List ℕ) (stack : List Frame) (post : List ℕ)
      → length visited ≡ length w.visited
      → Headed (record w { visited = visited; stack = stack; post = post })
  Headed-same visited stack post same = record {
    size = h.size ∙ sym same;
    full = h.full;
    only = h.only;
  }

  Headed-back :
      (s : ℕ) (stack : List Frame)
      → s < length w.visited
      → Headed (record w {
        stack = stack;
        back = w.back ++ record { source = f.blk; target = s } ∷ [];
        headers = set w.headers s true;
      })
  Headed-back s stack lt =
      let edge : Edge = record { source = f.blk; target = s } in
      let inside : s < length w.headers = omega (arith, lt, h.size) in
      record {
        size = length-set w.headers s true ∙ h.size;
        full = λ u v l. elim (Bool-cases (s == v)) [
          | inl same ↦
              let e : s ≡ v = ground (arith, same) in
              subst (λ (x : ℕ). get_elem? (set w.headers s true) x ≡ some true) e
                (get_elem?-set_self w.headers s true inside)
          | inr other ↦ elim (append_last_inv w.back edge l.at l.found) [
            | inl old ↦
                get_elem?-set_ne w.headers true (λ (e : s ≡ v). absurd (ground (arith, e, other)))
                ∙ h.full u v (record { at = l.at; found = old.1 })
            | inr new ↦
                let e : s ≡ v = ap (λ (x : Edge). x.target) new.1 in
                absurd (ground (arith, e, other))
          ]
        ];
        only = λ v e. elim (get_elem?-set_cases w.headers s true v e) [
          | inl here ↦ (
            f.blk,
            subst
                (λ (x : ℕ).
                  IsListed {A = Edge} (record { source = f.blk; target = x }) (w.back ++ edge ∷ []))
                (sym here.0) (IsListed-append_last w.back edge),
          )
          | inr old ↦ let (u, l) = h.only v old.1 in (u, IsListed-append w.back (edge ∷ []) l)
        ];
      }

  follow_succ-Headed : (room s : ℕ) {w1 : Walk} → follow_succ room w f rest s ≡ done w1 → Headed w1
  unfolding follow_succ
  follow_succ-Headed room s {w1 = w1} e =
      let stack = advanced f ∷ rest in
      let moved : Headed (record w { stack = stack }) = Headed-same w.visited stack w.post refl in
      elim (Option-cases (get_elem? w.visited s)) [
        | inl out ↦ ends_Headed (record w { stack = stack }) w1 moved (rw (follow_succ, out) at e)
        | inr (mark, seen) ↦ elim (Bool-cases (mark == 1)) [
          | inl one ↦
              ends_Headed _ w1 (Headed-back s stack (lt-length_of_get_elem? w.visited s seen))
                (rw (follow_succ, seen, one) at e)
          | inr other ↦ elim (Bool-cases (mark == 0)) [
            | inl blank ↦ elim (Bool-cases (ltb (length stack) room)) [
              | inl fits ↦
                  ends_Headed _ w1
                    (Headed-same (set w.visited s 1) (record { blk = s; succ = 0 } ∷ stack) w.post
                      (length-set w.visited s 1))
                    (rw (follow_succ, seen, other, blank, fits) at e)
              | inr full ↦
                  let r : faulted ≡ done w1 = rw (follow_succ, seen, other, blank, full) at e in
                  absurd cc
            ]
            | inr closed ↦
                ends_Headed (record w { stack = stack }) w1 moved
                  (rw (follow_succ, seen, other, closed) at e)
          ]
        ]
      ]

  finish_block-Headed : (room : ℕ) {w1 : Walk} → finish_block room w f rest ≡ done w1 → Headed w1
  unfolding finish_block
  finish_block-Headed room {w1 = w1} e =
      elim (Bool-cases (ltb f.blk (length w.visited) && ltb (length w.post) room)) [
        | inl fits ↦
            ends_Headed _ w1
              (Headed-same (set w.visited f.blk 2) rest (w.post ++ f.blk ∷ [])
                (length-set w.visited f.blk 2))
              (rw (finish_block, fits) at e)
        | inr full ↦ let r : faulted ≡ done w1 = rw (finish_block, full) at e in absurd cc
      ]

  walk_step-Headed : (fn : Function) {w1 : Walk} → walk_step fn w f rest ≡ done w1 → Headed w1
  unfolding walk_step
  walk_step-Headed fn e = elim (Option-cases (next_succ fn f)) [
    | inl over ↦ finish_block-Headed (length fn.blocks) (rw (walk_step, over) at e)
    | inr (s, at) ↦ follow_succ-Headed (length fn.blocks) s (rw (walk_step, at) at e)
  ]

stay_Headed :
    (w t : Walk)
    → Headed w
    → ◌≡◌ {A = Outcome (Option Walk)} (done (some w)) (done (some t))
    → Headed t
stay_Headed w t h e = let same : w ≡ t = cc in subst Headed same h

pub dfs-Headed :
    (fn : Function) (fuel : ℕ) (w : Walk) {t : Walk}
    → Headed w
    → dfs fn fuel w ≡ done (some t)
    → Headed t
unfolding dfs
dfs-Headed fn zero w {t = t} h e = elim (List-cases w.stack) [
  | inl empty ↦ stay_Headed w t h (simp (dfs, empty) at e)
  | inr (f, rest, top) ↦ let r = rw (dfs, top) at e in absurd cc
]
dfs-Headed fn (suc fuel) w {t = t} h e = elim (List-cases w.stack) [
  | inl empty ↦ stay_Headed w t h (simp (dfs, empty) at e)
  | inr (f, rest, top) ↦
      let r : (walk_step fn w f rest >>= dfs fn fuel) ≡ done (some t) = simp (dfs, top) at e in
      let turn = bind_inv (walk_step fn w f rest) (dfs fn fuel) r in
      dfs-Headed fn fuel turn.0 (walk_step-Headed w f rest h fn turn.1) turn.2
]
