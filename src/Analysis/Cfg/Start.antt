-- ===== src/Analysis/Cfg/Start.antt =====
-- src/analysis/cfg.c: the walk starts with nothing but the first block, and comes to its end.
use nybit.Base.{
  Bool, false, sym, get_elem?-set_cases, ℕ, zero, suc, ◌<◌, ◌≡◌, refl, ap, subst, ◌∙◌, arith, inl,
  inr, true, false, Option, none, some, List, [], ◌∷◌, length, get_elem?, set, ltb, Bool-cases,
  length-set, get_elem?-set_self, get_elem?-of_lt, lt-length_of_get_elem?,
}
use nybit.Ir.Function.{Block, Function}
use nybit.Analysis.Cfg.{Walk, Frame, filled, walk_start, rounds, dfs}
use nybit.Base.Outcome.{done}
use nybit.Analysis.Cfg.Headers.{Headed, dfs-Headed}
use nybit.Analysis.Cfg.Reach.{here, IsListed}
use nybit.Analysis.Cfg.Trail.{unseen, root, Placed, unmarked, on_stack, Inv}
use nybit.Analysis.Cfg.Marks.{unseen-set_zero}
use nybit.Analysis.Cfg.Ends.{InvOf, length-successors, Walked, dfs_ends}
use nybit.Analysis.Cfg.Work.{work, unseen_work, unseen_work-set_zero}

pub length-filled {ℓ} : {A : Type ℓ} (x : A) (bs : List Block) → length (filled x bs) ≡ length bs
length-filled x [] = refl
length-filled x (b ∷ bs) = ap suc (length-filled x bs)

pub get_elem?-filled {ℓ} :
    {A : Type ℓ} (x : A) (bs : List Block) (i : ℕ) {y : A}
    → get_elem? (filled x bs) i ≡ some y
    → x ≡ y
get_elem?-filled x [] i e = cc
get_elem?-filled x (b ∷ bs) zero e = cc
get_elem?-filled x (b ∷ bs) (suc i) e = get_elem?-filled x bs i e

filled_at : (x : ℕ) (bs : List Block) (i : ℕ) → i < length bs → get_elem? (filled x bs) i ≡ some x
filled_at x [] i h = absurd (omega arith)
filled_at x (b ∷ bs) zero h = refl
filled_at x (b ∷ bs) (suc i) h = filled_at x bs i (omega arith)

unseen-filled : (bs : List Block) → unseen (filled 0 bs) ≡ length bs
unseen-filled [] = refl
unseen-filled (b ∷ bs) = ap suc (unseen-filled bs)

unseen_work-filled : (bs : List Block) → unseen_work bs (filled 0 bs) ≡ rounds bs
unseen_work-filled [] = refl
unseen_work-filled (b ∷ bs) = omega (arith, unseen_work-filled bs)

not_filled : (bs : List Block) (v m : ℕ) → ¬ (get_elem? (filled 0 bs) v ≡ some (suc m))
not_filled bs v m e = let z : ◌≡◌ {A = ℕ} 0 (suc m) = get_elem?-filled 0 bs v e in omega (arith, z)

none-IsListed {ℓ} : {A : Type ℓ} {x : A} → ¬ (IsListed x [])
none-IsListed {A = A} {x = x} l = let e : ◌≡◌ {A = Option A} none (some x) = l.found in cc

InvOf-entry :
    (fn : Function) → ltb fn.entry_block (length fn.blocks) ≡ true → InvOf fn (walk_start fn)
unfolding walk_start
InvOf-entry fn e =
    let lt : fn.entry_block < length fn.blocks = ground (arith, e) in
    let blank = filled_at 0 fn.blocks fn.entry_block lt in
    let frame : Frame = record { blk = fn.entry_block; succ = 0 } in
    let inv : Inv fn (set (filled 0 fn.blocks) fn.entry_block 1) (frame ∷ []) [] [] = record {
      size = length-set (filled 0 fn.blocks) fn.entry_block 1 ∙ length-filled {A = ℕ} 0 fn.blocks;
      room = omega (
        arith,
        unseen-filled fn.blocks,
        unseen-set_zero (filled 0 fn.blocks) fn.entry_block 0 blank,
      );
      trail = (
        record {
          mark =
              get_elem?-set_self (filled 0 fn.blocks) fn.entry_block 1
                (omega (arith, lt, length-filled {A = ℕ} 0 fn.blocks));
          fresh = refl;
          parent = root;
          followed = λ i v at valid before. absurd (omega (arith, before));
        },
        tt,
      );
      placed = λ v m at. elim (get_elem?-set_cases (filled 0 fn.blocks) fn.entry_block 1 v at) [
        | inl same ↦
            let top : Placed (frame ∷ []) [] fn.entry_block 1 = on_stack (ground arith) in
            rw (same.0, same.1) top
        | inr other ↦
            subst (λ (x : ℕ). Placed (frame ∷ []) [] v x) (get_elem?-filled 0 fn.blocks v other.1)
              unmarked
      ];
      posted = λ v l. absurd (none-IsListed l);
      unique = λ p q v a b. cc;
      ordered = λ p u v a i. cc;
      sound = λ v m at. elim (get_elem?-set_cases (filled 0 fn.blocks) fn.entry_block 1 v at) [
        | inl same ↦ rw same.0 here
        | inr other ↦ absurd (not_filled fn.blocks v m other.1)
      ];
      rooted = λ z.
          elim (get_elem?-set_cases (filled 0 fn.blocks) fn.entry_block 1 fn.entry_block z) [
            | inl same ↦ absurd (omega (arith, same.1))
            | inr other ↦ other.0 refl
          ];
      returned = λ x l. absurd (none-IsListed l);
      cyclic = λ x l. absurd (none-IsListed l);
    } in
    rw (walk_start, e) inv

-- A first block out of range leaves nothing to walk.
InvOf-out :
    (fn : Function) → ltb fn.entry_block (length fn.blocks) ≡ false → InvOf fn (walk_start fn)
unfolding walk_start
InvOf-out fn e =
    let inv : Inv fn (filled 0 fn.blocks) [] [] [] = record {
      size = length-filled {A = ℕ} 0 fn.blocks;
      room = omega (arith, unseen-filled fn.blocks);
      trail = tt;
      placed = λ v m at.
          subst (λ (x : ℕ). Placed [] [] v x) (get_elem?-filled 0 fn.blocks v at) unmarked;
      posted = λ v l. absurd (none-IsListed l);
      unique = λ p q v a b. cc;
      ordered = λ p u v a i. cc;
      sound = λ v m at. absurd (not_filled fn.blocks v m at);
      rooted = λ z.
          let lt = lt-length_of_get_elem? (filled 0 fn.blocks) fn.entry_block z in
          absurd (ground (arith, e, lt, length-filled {A = ℕ} 0 fn.blocks));
      returned = λ x l. absurd (none-IsListed l);
      cyclic = λ x l. absurd (none-IsListed l);
    } in
    rw (walk_start, e) inv

work-walk_start :
    (fn : Function) → work fn (walk_start fn).stack (walk_start fn).visited ≡ rounds fn.blocks
unfolding walk_start
work-walk_start fn = elim (Bool-cases (ltb fn.entry_block (length fn.blocks))) [
  | inl e ↦
      let lt : fn.entry_block < length fn.blocks = ground (arith, e) in
      let (b, found) = get_elem?-of_lt fn.blocks fn.entry_block lt in
      let blank = filled_at 0 fn.blocks fn.entry_block lt in
      rw (walk_start, e) omega
        (
          arith,
          unseen_work-filled fn.blocks,
          unseen_work-set_zero fn.blocks (filled 0 fn.blocks) fn.entry_block 0 found blank,
          length-successors fn fn.entry_block found,
        )
  | inr e ↦ rw (walk_start, e) (omega (arith, unseen_work-filled fn.blocks))
]

pub dfs-walk_start : (fn : Function) → Walked fn (dfs fn (rounds fn.blocks) (walk_start fn))
dfs-walk_start fn =
    dfs_ends fn (rounds fn.blocks) (walk_start fn)
      (elim (Bool-cases (ltb fn.entry_block (length fn.blocks))) [
        | inl e ↦ InvOf-entry fn e
        | inr e ↦ InvOf-out fn e
      ])
      (omega (arith, work-walk_start fn))

-- Without back edges there are no headers.
Headed-blank :
    (fn : Function) (visited : List ℕ) (stack : List Frame)
    → length visited ≡ length fn.blocks
    → Headed (record {
      visited = visited;
      stack = stack;
      post = [];
      back = [];
      headers = filled false fn.blocks;
    })
Headed-blank fn visited stack same = record {
  size = length-filled false fn.blocks ∙ sym same;
  full = λ u v l. absurd (none-IsListed l);
  only = λ v t.
      let never : ◌≡◌ {A = Bool} false true = get_elem?-filled false fn.blocks v t in absurd cc;
}

Headed-walk_start : (fn : Function) → Headed (walk_start fn)
unfolding walk_start
Headed-walk_start fn =
    let blank : length (filled 0 fn.blocks) ≡ length fn.blocks = length-filled 0 fn.blocks in
    elim (Bool-cases (ltb fn.entry_block (length fn.blocks))) [
      | inl e ↦
          rw (walk_start, e)
            (Headed-blank fn _ _ (length-set (filled 0 fn.blocks) fn.entry_block 1 ∙ blank))
      | inr e ↦ rw (walk_start, e) (Headed-blank fn _ _ blank)
    ]

pub dfs-Headed_start :
    (fn : Function) {t : Walk}
    → dfs fn (rounds fn.blocks) (walk_start fn) ≡ done (some t)
    → Headed t
dfs-Headed_start fn = dfs-Headed fn (rounds fn.blocks) (walk_start fn) (Headed-walk_start fn)
