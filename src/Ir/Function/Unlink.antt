-- ===== src/Ir/Function/Unlink.antt =====
-- Removing an instruction takes exactly that one out of its block's list.
mod Steps
use nybit.Base.{
  ℕ, ◌≤◌, ◌≡◌, ◌≢◌, ◌∙◌, refl, sym, ap, arith, false, some, List, [], ◌∷◌, ◌++◌, length, get_elem?,
  set, length-append, ◌==◌, get_elem?-set_self, get_elem?-set_ne, lt-length_of_get_elem?,
  length-set,
}
use nybit.Base.Outcome.{done}
use nybit.Ir.Function.{
  Instruction, Block, Function, invalid, is_none, adjust, adjust_found, write_found,
}
use nybit.Ir.Function.Remove.{
  unlink_prev, unlink_next, retire, remove_instruction, cleared, count_down,
}
use nybit.Ir.Function.Chain.{
  first_or, last_or, IsAt, Linked, Fresh, Distinct, Apart, Holds, Linked-append_left,
  Linked-append_right, Linked-append, last_or-append, IsAt-set, IsAt-set_prev, Linked-set,
  Linked-last, Linked-set_next, Distinct-append_inv, Distinct-append, Apart-sym, All-last,
}
use Steps.{Around, HalfDone, Unlinked, unlink_prev-HalfDone, unlink_next-Unlinked}

remove_instruction_run :
    (fn : Function) (b i : ℕ) {inst : Instruction} {blk : Block} {fn1 fn2 : Function}
    → get_elem? fn.instructions i ≡ some inst
    → is_none inst.opcode ≡ false
    → inst.block ≡ b
    → get_elem? fn.blocks b ≡ some blk
    → unlink_prev fn inst ≡ done fn1
    → unlink_next fn1 i ≡ done fn2
    → remove_instruction fn i
      ≡ done (retire (record fn2 { blocks = adjust fn2.blocks b count_down }) inst i)
unfolding remove_instruction
remove_instruction_run fn b i {inst = inst} {fn2 = fn2} found live owner block prev next =
    rw (remove_instruction, found, live, owner, block, prev, next)
      (ap (λ c. done (retire (record fn2 { blocks = adjust fn2.blocks c count_down }) inst i))
        owner)

-- In a function with at most 2^32 - 1 instructions, removing an instruction of a block that
-- holds a list of instructions succeeds and leaves that block with the list without this
-- instruction, in order, with the links in both directions, the ends and the count right, and
-- the function with at most 2^32 - 1 instructions.
pub remove_instruction-Holds :
    (fn : Function) (b : ℕ) (xs : List ℕ) (i : ℕ) (ys : List ℕ)
    → length fn.instructions ≤ invalid
    → Holds fn b (xs ++ i ∷ ys)
    → (fn1 : Function) × (remove_instruction fn i ≡ done fn1)
      × Holds fn1 b (xs ++ ys)
      × (length fn1.instructions ≤ invalid)
unfolding retire
remove_instruction-Holds fn b xs i ys small held =
    let apart = Distinct-append_inv xs (i ∷ ys) held.distinct in
    let away = Apart-sym xs i ys apart.2 in
    let here = Linked-append_right fn.instructions b invalid xs (i ∷ ys) invalid held.linked in
    let around : Around fn.instructions b xs i ys i i = record {
      left = Linked-append_left fn.instructions b invalid xs (i ∷ ys) invalid held.linked;
      mid = here.0;
      right = here.1;
    } in
    let inst = here.0.inst in
    let half =
      unlink_prev-HalfDone fn b xs i ys inst held.block small here.0.found held.found held.first
        apart.0 away.0 away.1 around in
    let full =
      unlink_next-Unlinked half.0 b xs i ys held.block held.last apart.1.1 apart.1.0 away.1
        half.2 in
    let fn2 = record full.0 { blocks = adjust full.0.blocks b count_down } in
    let insts = full.0.instructions in
    let done_list = set insts i (cleared full.2.inst) in
    (
      retire fn2 inst i,
      remove_instruction_run fn b i here.0.found here.0.live here.0.owner held.found half.1 full.1,
      record {
        block = count_down (record held.block {
          first_inst = first_or (xs ++ ys) invalid;
          last_inst = last_or invalid (xs ++ ys);
        });
        found = rw (adjust_found full.0.blocks b count_down full.2.block) (
            get_elem?-set_self full.0.blocks b _
              (lt-length_of_get_elem? full.0.blocks b full.2.block));
        first = refl;
        last = refl;
        count = omega (arith, held.count, length-append xs (i ∷ ys), length-append xs ys);
        linked = rw (adjust_found insts i cleared full.2.found) (
            Linked-append done_list b invalid xs ys invalid
              (Linked-set insts b invalid xs _ i _ away.0 full.2.left)
              (Linked-set insts b _ ys invalid i _ apart.1.0 full.2.right));
        distinct = Distinct-append xs ys apart.0 apart.1.1 away.1;
      },
      rw (adjust_found insts i cleared full.2.found, length-set insts i) full.2.small,
    )
