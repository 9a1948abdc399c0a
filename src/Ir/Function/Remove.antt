-- ===== src/Ir/Function/Remove.antt =====
-- src/ir/function.c: taking an instruction out of its block, and emptying a block.
use nybit.Base.{ℕ, ◌-◌, none, some, get_elem?, ◌==◌, if◌then◌else◌}
use nybit.Base.Outcome.{Outcome, done, faulted, ◌>>=◌}
use nybit.Ir.Opcode.{Opcode}
use nybit.Ir.Function.{Instruction, Block, Function, invalid, is_none, adjust, write}

-- The first half of the unlinking: the one before points past the instruction, or the block
-- starts behind it.
unfoldable pub unlink_prev : Function → Instruction → Outcome Function
unlink_prev fn inst =
    if inst.prev == invalid
    then done (record fn {
      blocks = adjust fn.blocks inst.block (λ b. record b { first_inst = inst.next });
    })
    else (write fn.instructions inst.prev (λ p. record p { next = inst.next })
        >>= (λ insts. done (record fn { instructions = insts })))

-- The second half. The instruction is read again, since the first half writes to the array.
unfoldable pub unlink_next : Function → ℕ → Outcome Function
unlink_next fn inst_id = elim (get_elem? fn.instructions inst_id) [
  | none ↦ faulted
  | some inst ↦
      if inst.next == invalid
      then done (record fn {
        blocks = adjust fn.blocks inst.block (λ b. record b { last_inst = inst.prev });
      })
      else (write fn.instructions inst.next (λ n. record n { prev = inst.prev })
          >>= (λ insts. done (record fn { instructions = insts })))
]

abbrev pub count_down : Block → Block
count_down b = record b { inst_count = b.inst_count - 1 }

abbrev pub cleared : Instruction → Instruction
cleared inst = record inst { opcode = Opcode.none; prev = invalid; next = invalid; op_count = 0 }

-- The end of `ny_function_remove_instruction`.
unfoldable pub retire : Function → Instruction → ℕ → Function
retire fn inst inst_id = record fn {
  values =
      if inst.result == invalid
      then fn.values
      else adjust fn.values inst.result (λ v. record v { def = invalid });
  instructions = adjust fn.instructions inst_id cleared;
}

-- `ny_function_remove_instruction`
unfoldable pub remove_instruction : Function → ℕ → Outcome Function
unfolding unlink_prev unlink_next retire
remove_instruction fn inst_id = elim (get_elem? fn.instructions inst_id) [
  | none ↦ done fn
  | some inst ↦ if is_none inst.opcode then done fn else (elim (get_elem? fn.blocks inst.block) [
    | none ↦ done (retire fn inst inst_id)
    | some b ↦ unlink_prev fn inst >>= (λ fn1. unlink_next fn1 inst_id >>= (λ fn2.
        done
          (retire (record fn2 { blocks = adjust fn2.blocks inst.block count_down }) inst inst_id)))
  ])
]
