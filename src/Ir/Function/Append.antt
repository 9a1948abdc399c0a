-- ===== src/Ir/Function/Append.antt =====
-- A new instruction hangs behind the last one of its block.
use nybit.Base.{
  ℕ, ◌+◌, ◌<◌, ◌≡◌, ◌≢◌, ◌∙◌, refl, sym, arith, false, some, List, [], ◌∷◌, ◌++◌, length, get_elem?,
  set, length-append, get_elem?-set_self, lt-length_of_get_elem?, get_elem?-append_left,
  get_elem?-append_last, ◌==◌, if◌then◌else◌, ◌%◌, ◌^◌,
}
use nybit.Base.Outcome.{done}
use nybit.Ir.Opcode.{Opcode}
use nybit.Ir.Function.{
  Operand, Instruction, Function, invalid, is_none, adjust, write_found, link_last,
  append_instruction,
}
use nybit.Ir.Function.Chain.{
  last_or, last_or-append, IsAt, Linked, Fresh, Apart, Holds, Linked-append, Linked-last,
  Linked-set_next, IsAt-set, Distinct-append, All-last,
}

module _ (insts : List Instruction) (new : Instruction) (b : ℕ) where
  IsAt-append : {p n i : ℕ} → IsAt insts b p n i → IsAt (insts ++ new ∷ []) b p n i
  IsAt-append {i = i} here = record {
    inst = here.inst;
    found =
        get_elem?-append_left insts (new ∷ []) i (lt-length_of_get_elem? insts i here.found)
        ∙ here.found;
    live = here.live;
    owner = here.owner;
    prev = here.prev;
    next = here.next;
  }

  Linked-append_new :
      (p : ℕ) (is : List ℕ) (n : ℕ) → Linked insts b p is n → Linked (insts ++ new ∷ []) b p is n
  Linked-append_new p [] n h = tt
  Linked-append_new p (i ∷ is) n h = (IsAt-append h.0, Linked-append_new i is n h.1)

  -- The id of the new instruction is none of those in use.
  Linked-Fresh : (p : ℕ) (is : List ℕ) (n : ℕ) → Linked insts b p is n → Fresh (length insts) is
  Linked-Fresh p [] n h = tt
  Linked-Fresh p (i ∷ is) n h =
      let below = lt-length_of_get_elem? insts i h.0.found in (omega arith, Linked-Fresh i is n h.1)

  Linked-Apart :
      (p : ℕ) (is : List ℕ) (n : ℕ) → Linked insts b p is n → Apart is (length insts ∷ [])
  Linked-Apart p [] n h = tt
  Linked-Apart p (i ∷ is) n h =
      let below = lt-length_of_get_elem? insts i h.0.found in
      ((omega arith, tt), Linked-Apart i is n h.1)

-- `link_last` on a function that already has the new instruction `i` at the end of its array.
module _ (fn : Function) (b : ℕ) (new : Instruction) where
  link_last-Holds :
      (ids : List ℕ) (held : Holds fn b ids)
      → length fn.instructions < invalid
      → is_none new.opcode ≡ false
      → new.block ≡ b
      → new.prev ≡ held.block.last_inst
      → new.next ≡ invalid
      → (fn1 : Function) × (link_last
            (record fn { instructions = fn.instructions ++ new ∷ [] })
            b
            held.block
            (length fn.instructions)
          ≡ done fn1)
        × Holds fn1 b (ids ++ length fn.instructions ∷ [])
  unfolding link_last
  link_last-Holds [] held small live owner prev next =
      let at : get_elem? (fn.instructions ++ new ∷ []) (length fn.instructions) ≡ some new =
        get_elem?-append_last fn.instructions new in
      let blk = record held.block {
        first_inst = length fn.instructions;
        last_inst = length fn.instructions;
        inst_count = held.block.inst_count + 1;
      } in
      (
        record fn { instructions = fn.instructions ++ new ∷ []; blocks = set fn.blocks b blk },
        rw held.first refl,
        record {
          block = blk;
          found = get_elem?-set_self fn.blocks b _ (lt-length_of_get_elem? fn.blocks b held.found);
          first = refl;
          last = refl;
          count = omega (arith, held.count);
          linked = (
            record {
              inst = new;
              found = at;
              live = live;
              owner = owner;
              prev = prev ∙ held.last;
              next = next;
            },
            tt,
          );
          distinct = (tt, tt);
        },
      )
  link_last-Holds (y ∷ ys) held small live owner prev next =
      let linked : Linked fn.instructions b invalid (y ∷ ys) invalid = held.linked in
      let i = length fn.instructions in
      let more = fn.instructions ++ new ∷ [] in
      let fresh = Linked-Fresh fn.instructions new b invalid (y ∷ ys) invalid linked in
      let kept = Linked-append_new fn.instructions new b invalid (y ∷ ys) invalid linked in
      let old = (Linked-last more b invalid y ys invalid kept).1 in
      let l = last_or y ys in
      let l_inst = old.inst in
      let below = lt-length_of_get_elem? fn.instructions y linked.0.found in
      let some_first : (y == invalid) ≡ false = ground arith in
      let insts1 = set more l (record l_inst { next = i }) in
      let blk = record held.block { last_inst = i; inst_count = held.block.inst_count + 1 } in
      let at : IsAt more b l invalid i = record {
        inst = new;
        found = get_elem?-append_last fn.instructions new;
        live = live;
        owner = owner;
        prev = prev ∙ held.last;
        next = next;
      } in
      (
        record fn { instructions = insts1; blocks = set fn.blocks b blk },
        rw
            (
              held.first,
              some_first,
              held.last,
              write_found more l (λ q. record q { next = i }) old.found,
            )
            refl,
        record {
          block = blk;
          found = get_elem?-set_self fn.blocks b _ (lt-length_of_get_elem? fn.blocks b held.found);
          first = held.first;
          last = sym (last_or-append y ys (i ∷ []));
          count = omega (arith, held.count, length-append ys (i ∷ []));
          linked =
              Linked-append insts1 b invalid (y ∷ ys) (i ∷ []) invalid
                (Linked-set_next more b invalid y ys invalid i held.distinct old.found kept)
                (IsAt-set more b l _ (λ e. All-last (λ j. i ≢ j) y ys fresh (sym e)) at, tt);
          distinct =
              Distinct-append (y ∷ ys) (i ∷ []) held.distinct (tt, tt)
                (Linked-Apart fn.instructions new b invalid (y ∷ ys) invalid linked);
        },
      )

-- In a function with less than 2^32 - 1 instructions, appending an instruction that is not
-- `none` to a block that holds a list of instructions succeeds, returns the next id, and leaves
-- the block with that id behind the list, links, ends and count right.
pub append_instruction-Holds :
    (fn : Function) (b : ℕ) (ids : List ℕ) (op : Opcode) (result : ℕ) (ops : List Operand)
    (flags : ℕ)
    → length fn.instructions < invalid
    → is_none op ≡ false
    → Holds fn b ids
    → (fn1 : Function) × (append_instruction fn b op result ops flags
        ≡ done (fn1, length fn.instructions))
      × Holds fn1 b (ids ++ length fn.instructions ∷ [])
unfolding append_instruction
append_instruction-Holds fn b ids op result ops flags small live held =
    let inst : Instruction = record {
      id = length fn.instructions;
      opcode = op;
      flags = flags;
      result = result;
      op_start = length fn.operands;
      op_count = length ops % 2 ^ 16;
      block = b;
      prev = held.block.last_inst;
      next = invalid;
    } in
    let with_parts = record fn {
      operands = fn.operands ++ ops;
      values =
          if result == invalid
          then fn.values
          else adjust fn.values result (λ v. record v { def = length fn.instructions });
    } in
    let held1 : Holds with_parts b ids = record {
      block = held.block;
      found = held.found;
      first = held.first;
      last = held.last;
      count = held.count;
      linked = held.linked;
      distinct = held.distinct;
    } in
    let linked = link_last-Holds with_parts b inst ids held1 small live refl refl refl in
    (linked.0, rw (append_instruction, held.found, linked.1) refl, linked.2)
