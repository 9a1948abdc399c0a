-- ===== src/Ir/Rewire/Merge.antt =====
-- src/ir/function.c: `ny_function_merge_blocks` and `ny_function_remove_phi_incoming`.
use nybit.Base.{
  ℕ, suc, ◌+◌, Bool, true, false, ◌||◌, not, Option, none, some, List, [], ◌∷◌, length, get_elem?,
  ltb, ◌==◌, if◌then◌else◌,
}
use nybit.Base.Outcome.{Outcome, done, faulted, ◌>>=◌}
use nybit.Ir.Opcode.{Opcode}
use nybit.Ir.Function.{Instruction, Block, Function, invalid, adjust, write}
use nybit.Ir.Function.Remove.{remove_instruction}
use nybit.Ir.Rewire.{move_all, rename_preds, succs_of}

abbrev pub is_branch : Opcode → Bool
is_branch Opcode.branch = true
is_branch _ = false

abbrev pub is_only : ℕ → List ℕ → Bool
is_only v (x ∷ []) = x == v
is_only v _ = false

-- The branch at the end of the first block goes.
unfoldable pub drop_branch : Function → Block → Outcome Function
drop_branch fn first =
    if first.last_inst == invalid
    then done fn
    else (elim (get_elem? fn.instructions first.last_inst) [
      | none ↦ done fn
      | some last ↦ if is_branch last.opcode then remove_instruction fn first.last_inst else done fn
    ])

-- The second block's list is hung behind the first one's; both blocks are read again, since the
-- removal of the branch changed the first.
unfoldable pub join_lists : Function → ℕ → Block → Block → Outcome Function
unfolding move_all
join_lists fn first_id first second =
    let linked : Outcome (List Instruction) =
      if first.first_inst == invalid
      then done fn.instructions
      else (write fn.instructions first.last_inst (λ i. record i { next = second.first_inst })
          >>= (λ insts.
              write insts second.first_inst (λ i. record i { prev = first.last_inst }))) in
    linked >>= (λ insts.
      move_all (suc (length insts)) first_id insts second.first_inst 0 >>= (λ moved.
        done (record fn {
          instructions = moved.0;
          blocks = adjust fn.blocks first_id (λ b. record b {
            first_inst = if b.first_inst == invalid then second.first_inst else b.first_inst;
            last_inst = second.last_inst;
            inst_count = b.inst_count + moved.1;
          });
        })))

-- The edges of the second block become the first one's, and the second block is left empty.
unfoldable pub take_over : List Block → ℕ → ℕ → List Block
take_over blocks first_id second_id =
    let succs = succs_of blocks second_id in
    let given = adjust blocks first_id (λ b. record b { succs = succs }) in
    adjust (rename_preds second_id first_id succs given) second_id (λ b. record b {
      preds = [];
      succs = [];
      first_inst = invalid;
      last_inst = invalid;
      inst_count = 0;
    })

-- `ny_function_merge_blocks`: `none` is `false`.
unfoldable pub merge_blocks : Function → ℕ → ℕ → Outcome (Option Function)
unfolding drop_branch join_lists take_over
merge_blocks fn first_id second_id =
    if first_id == second_id then done none else (elim (get_elem? fn.blocks first_id) [
      | none ↦ done none
      | some first ↦ elim (get_elem? fn.blocks second_id) [
        | none ↦ done none
        | some second ↦
            if not (is_only second_id first.succs) || not (is_only first_id second.preds)
            then done none
            else (drop_branch fn first >>= (λ fn1. elim (get_elem? fn1.blocks first_id) [
              | none ↦ faulted
              | some first1 ↦ elim (get_elem? fn1.blocks second_id) [
                | none ↦ faulted
                | some second1 ↦
                    (if ltb 0 second1.inst_count
                      then join_lists fn1 first_id first1 second1
                      else done fn1)
                    >>= (λ fn2.
                        done
                          (some (record fn2 { blocks = take_over fn2.blocks first_id second_id })))
              ]
            ]))
      ]
    ])
