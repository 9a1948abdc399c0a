-- ===== src/Ir/Rewire.antt =====
-- src/ir/function.c: removing, splitting and merging whole blocks. A walk along `next` runs on fuel
-- and faults where that runs out.
pub mod Emptied
pub mod Merge
use nybit.Base.{
  ℕ, zero, suc, ◌+◌, ◌-◌, ◌%◌, ◌^◌, Bool, true, false, ◌&&◌, ◌||◌, not, Option, none, some, List,
  [], ◌∷◌, ◌++◌, map, length, get_elem?, set, ltb, ◌==◌, if◌then◌else◌,
}
use nybit.Base.Outcome.{Outcome, done, aborted, faulted, ◌>>=◌}
use nybit.Ir.Opcode.{Opcode}
use nybit.Ir.Function.{Operand, Instruction, Block, Function, invalid, adjust, write, create_block}
use nybit.Ir.Function.Remove.{remove_instruction}
use nybit.Ir.Block.{swap_remove, add_edge}

-- The loop of `ny_function_remove_block` over the instructions.
unfoldable pub remove_all : ℕ → Function → ℕ → Outcome Function
remove_all zero fn curr = faulted
remove_all (suc fuel) fn curr = elim (curr == invalid) [
  | true ↦ done fn
  | false ↦ elim (get_elem? fn.instructions curr) [
    | none ↦ faulted
    | some inst ↦ remove_instruction fn curr >>= (λ fn1. remove_all fuel fn1 inst.next)
  ]
]

-- Its loops over the successors and the predecessors.
abbrev pub leave_succs : ℕ → List ℕ → List Block → List Block
leave_succs id [] blocks = blocks
leave_succs id (s ∷ ss) blocks =
    leave_succs id ss (adjust blocks s (λ b. record b { preds = swap_remove id b.preds }))

abbrev pub leave_preds : ℕ → List ℕ → List Block → List Block
leave_preds id [] blocks = blocks
leave_preds id (p ∷ ps) blocks =
    leave_preds id ps (adjust blocks p (λ b. record b { succs = swap_remove id b.succs }))

abbrev pub preds_of : List Block → ℕ → List ℕ
preds_of blocks id = elim (get_elem? blocks id) [ some b ↦ b.preds | none ↦ [] ]

abbrev pub succs_of : List Block → ℕ → List ℕ
succs_of blocks id = elim (get_elem? blocks id) [ some b ↦ b.succs | none ↦ [] ]

unfoldable pub detach : List Block → ℕ → List Block
detach blocks id =
    let left =
      adjust (leave_succs id (succs_of blocks id) blocks) id (λ b. record b { succs = [] }) in
    adjust (leave_preds id (preds_of left id) left) id
      (λ b. record b { preds = []; first_inst = invalid; last_inst = invalid; inst_count = 0 })

-- `ny_function_remove_block`
unfoldable pub remove_block : Function → ℕ → Outcome Function
unfolding remove_all detach
remove_block fn id = elim (get_elem? fn.blocks id) [
  | none ↦ done fn
  | some blk ↦
      remove_all (suc (length fn.instructions)) fn blk.first_inst
      >>= (λ fn1. done (record fn1 { blocks = detach fn1.blocks id }))
]

-- The walks of `ny_function_split_block` and `ny_function_merge_blocks`: the instructions from
-- `curr` on change to another block, and are counted.
unfoldable pub move_all : ℕ → ℕ → List Instruction → ℕ → ℕ → Outcome (List Instruction × ℕ)
move_all zero block insts curr count = faulted
move_all (suc fuel) block insts curr count = elim (curr == invalid) [
  | true ↦ done (insts, count)
  | false ↦ elim (get_elem? insts curr) [
    | none ↦ faulted
    | some inst ↦
        move_all fuel block (set insts curr (record inst { block = block })) inst.next (count + 1)
  ]
]

-- The loop over a block's successors: each names `new` as its predecessor where it named `old`.
abbrev pub rename_preds : ℕ → ℕ → List ℕ → List Block → List Block
rename_preds old new [] blocks = blocks
rename_preds old new (s ∷ ss) blocks = rename_preds old new ss (
    adjust blocks s
      (λ b. record b { preds = map {A = ℕ} {B = ℕ} (λ p. if p == old then new else p) b.preds }))

-- `ny_function_split_block` behind its two checks.
unfoldable pub split_at : Function → ℕ → Block → ℕ → Outcome (Function × ℕ)
unfolding move_all
split_at fn id orig before =
    let made = create_block fn (b's' ∷ b'p' ∷ b'l' ∷ b'i' ∷ b't' ∷ []) in
    let new = made.1 in
    move_all (suc (length fn.instructions)) new fn.instructions before 0 >>= (λ moved.
      elim (get_elem? moved.0 before) [
        | none ↦ faulted
        | some split ↦
            let cut : Outcome (List Instruction) =
              if split.prev == invalid
              then done moved.0
              else write moved.0 split.prev (λ p. record p { next = invalid }) in
            cut >>= (λ insts.
              let filled = adjust made.0.blocks new (λ b. record b {
                first_inst = before;
                last_inst = orig.last_inst;
                inst_count = moved.1;
                succs = orig.succs;
              }) in
              let shortened = adjust filled id (λ b. record b {
                first_inst = if split.prev == invalid then invalid else b.first_inst;
                last_inst = split.prev;
                inst_count = (b.inst_count + (2 ^ 32 - moved.1)) % 2 ^ 32;
              }) in
              let renamed = rename_preds id new orig.succs shortened in
              let emptied = adjust renamed id (λ b. record b { succs = [] }) in
              done (
                record made.0 {
                  instructions = adjust insts before (λ i. record i { prev = invalid });
                  blocks = add_edge emptied id new;
                },
                new,
              ))
      ])

-- `ny_function_split_block`: `none` is `false`, `some` is `true` with the new block's id.
unfoldable pub split_block : Function → ℕ → ℕ → Outcome (Option (Function × ℕ))
unfolding split_at
split_block fn id before = elim (get_elem? fn.blocks id) [
  | none ↦ done none
  | some orig ↦ elim (get_elem? fn.instructions before) [
    | none ↦ done none
    | some split ↦
        if split.block == id
        then (split_at fn id orig before >>= (λ r. done (some r)))
        else done none
  ]
]
