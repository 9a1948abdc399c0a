-- ===== src/Ir/Function/Unlink/Steps.antt =====
-- The two halves of the unlinking join the lists around an instruction.
use nybit.Base.{
  ℕ, ◌≤◌, ◌≡◌, ◌≢◌, ◌∙◌, refl, sym, arith, false, some, List, [], ◌∷◌, ◌++◌, length, get_elem?, set,
  ◌==◌, get_elem?-set_self, get_elem?-set_ne, lt-length_of_get_elem?, length-set,
}
use nybit.Base.Outcome.{done}
use nybit.Ir.Function.{Instruction, Block, Function, invalid, adjust_found, write_found}
use nybit.Ir.Function.Remove.{unlink_prev, unlink_next}
use nybit.Ir.Function.Chain.{
  first_or, last_or, IsAt, Linked, Fresh, Distinct, Apart, last_or-append, IsAt-set, IsAt-set_prev,
  Linked-set, Linked-last, Linked-set_next, Apart-sym, All-last,
}

-- The two halves of a block's list around the instruction `i`, before and after the neighbours
-- have been told of each other.
pub record Around (insts : List Instruction) (b : ℕ) (xs : List ℕ) (i : ℕ) (ys : List ℕ)
    (after before : ℕ) : Type 0 where
  pub left : Linked insts b invalid xs after
  pub mid : IsAt insts b (last_or invalid xs) (first_or ys invalid) i
  pub right : Linked insts b before ys invalid

abbrev pub Small : List Instruction → Type 0
Small insts = length insts ≤ invalid

IsAt-ne_invalid :
    {insts : List Instruction} {b p n i : ℕ}
    → Small insts
    → IsAt insts b p n i
    → (i == invalid) ≡ false
IsAt-ne_invalid {insts} {b} {p} {n} {i} small here =
    let below = lt-length_of_get_elem? insts i here.found in ground arith

-- What holds between the two halves: the block starts right, and the rest before `i` is joined to
-- the rest behind it.
pub record HalfDone (fn : Function) (b : ℕ) (xs : List ℕ) (i : ℕ) (ys : List ℕ) (blk : Block)
    : Type 0 where
  pub block : get_elem? fn.blocks b ≡ some (record blk { first_inst = first_or (xs ++ ys) invalid })
  pub around : Around fn.instructions b xs i ys (first_or ys invalid) i
  pub small : Small fn.instructions

pub unlink_prev-HalfDone :
    (fn : Function) (b : ℕ) (xs : List ℕ) (i : ℕ) (ys : List ℕ) (inst : Instruction) (blk : Block)
    → Small fn.instructions
    → get_elem? fn.instructions i ≡ some inst
    → get_elem? fn.blocks b ≡ some blk
    → blk.first_inst ≡ first_or (xs ++ i ∷ ys) invalid
    → Distinct xs
    → Fresh i xs
    → Apart xs ys
    → Around fn.instructions b xs i ys i i
    → (fn1 : Function) × (unlink_prev fn inst ≡ done fn1) × HalfDone fn1 b xs i ys blk
unfolding unlink_prev
unlink_prev-HalfDone fn b [] i ys inst blk small found block first distinct fresh apart around =
    let both = sym around.mid.found ∙ found in
    let same : around.mid.inst ≡ inst = cc in
    let prev : inst.prev ≡ invalid = rw same at around.mid.prev in
    let next : inst.next ≡ first_or ys invalid = rw same at around.mid.next in
    let owner : inst.block ≡ b = rw same at around.mid.owner in
    (
      record fn { blocks = set fn.blocks b (record blk { first_inst = first_or ys invalid }) },
      rw
          (
            prev,
            owner,
            next,
            adjust_found fn.blocks b (λ c. record c { first_inst = first_or ys invalid }) block,
          )
          refl,
      record {
        block = get_elem?-set_self fn.blocks b _ (lt-length_of_get_elem? fn.blocks b block);
        around = record { left = tt; mid = around.mid; right = around.right };
        small = small;
      },
    )
unlink_prev-HalfDone fn b (x ∷ xs) i ys inst blk small found block first distinct fresh apart
      around =
    let both = sym around.mid.found ∙ found in
    let same : around.mid.inst ≡ inst = cc in
    let p = last_or x xs in
    let prev : inst.prev ≡ p = rw same at around.mid.prev in
    let next : inst.next ≡ first_or ys invalid = rw same at around.mid.next in
    let before = (Linked-last fn.instructions b invalid x xs i around.left).1 in
    let l = before.inst in
    let some_prev : (p == invalid) ≡ false = IsAt-ne_invalid small before in
    let insts = set fn.instructions p (record l { next = first_or ys invalid }) in
    (
      record fn { instructions = insts },
      rw
          (
            prev,
            some_prev,
            next,
            write_found fn.instructions p (λ q. record q { next = first_or ys invalid })
                before.found,
          )
          refl,
      record {
        block = rw (sym first) block;
        around = record {
          left =
              Linked-set_next fn.instructions b invalid x xs i (first_or ys invalid) distinct
                before.found around.left;
          mid =
              IsAt-set fn.instructions b p _ (λ e. All-last (λ j. i ≢ j) x xs fresh (sym e))
                around.mid;
          right =
              Linked-set fn.instructions b i ys invalid p _ (All-last (λ j. Fresh j ys) x xs apart)
                around.right;
        };
        small = rw (length-set fn.instructions p) small;
      },
    )

-- What holds after both halves.
pub record Unlinked (fn : Function) (b : ℕ) (xs : List ℕ) (i : ℕ) (ys : List ℕ) (blk : Block)
    : Type 0 where
  pub block :
      get_elem? fn.blocks b
      ≡ some (record blk {
        first_inst = first_or (xs ++ ys) invalid;
        last_inst = last_or invalid (xs ++ ys);
      })
  pub left : Linked fn.instructions b invalid xs (first_or ys invalid)
  pub right : Linked fn.instructions b (last_or invalid xs) ys invalid
  pub inst : Instruction
  pub found : get_elem? fn.instructions i ≡ some inst
  pub small : Small fn.instructions

pub unlink_next-Unlinked :
    (fn : Function) (b : ℕ) (xs : List ℕ) (i : ℕ) (ys : List ℕ) (blk : Block)
    → blk.last_inst ≡ last_or invalid (xs ++ i ∷ ys)
    → Distinct ys
    → Fresh i ys
    → Apart xs ys
    → HalfDone fn b xs i ys blk
    → (fn1 : Function) × (unlink_next fn i ≡ done fn1) × Unlinked fn1 b xs i ys blk
unfolding unlink_next
unlink_next-Unlinked fn b xs i [] blk last distinct fresh apart half =
    let mid = half.around.mid in
    let last_inst = last_or invalid xs in
    let blk2 = record blk { first_inst = first_or (xs ++ []) invalid; last_inst = last_inst } in
    (
      record fn { blocks = set fn.blocks b blk2 },
      rw
          (
            unlink_next,
            mid.found,
            mid.next,
            mid.owner,
            mid.prev,
            adjust_found fn.blocks b (λ c. record c { last_inst = last_inst }) half.block,
          )
          refl,
      record {
        block =
            rw (last_or-append invalid xs [])
              (get_elem?-set_self fn.blocks b _ (lt-length_of_get_elem? fn.blocks b half.block));
        left = half.around.left;
        right = tt;
        inst = mid.inst;
        found = mid.found;
        small = half.small;
      },
    )
unlink_next-Unlinked fn b xs i (y ∷ ys) blk last distinct fresh apart half =
    let mid = half.around.mid in
    let last_inst = last_or invalid xs in
    let after = half.around.right.0 in
    let some_next : (y == invalid) ≡ false = IsAt-ne_invalid half.small after in
    let l = after.inst in
    let v = record l { prev = last_inst } in
    let same : last_or invalid (xs ++ y ∷ ys) ≡ blk.last_inst =
      last_or-append invalid xs (y ∷ ys) ∙ sym (last ∙ last_or-append invalid xs (i ∷ y ∷ ys)) in
    let away = Apart-sym xs y ys apart in
    (
      record fn { instructions = set fn.instructions y v },
      rw
          (
            unlink_next,
            mid.found,
            mid.next,
            some_next,
            mid.prev,
            write_found fn.instructions y (λ q. record q { prev = last_inst }) after.found,
          )
          refl,
      record {
        block = rw same half.block;
        left = Linked-set fn.instructions b invalid xs y y v away.0 half.around.left;
        right = (
          IsAt-set_prev fn.instructions b last_inst after.found after,
          Linked-set fn.instructions b y ys invalid y v distinct.0 half.around.right.1,
        );
        inst = mid.inst;
        found = rw (get_elem?-set_ne fn.instructions v (λ e. fresh.0 (sym e))) mid.found;
        small = rw (length-set fn.instructions y) half.small;
      },
    )
