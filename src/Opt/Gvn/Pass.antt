-- ===== src/Opt/Gvn/Pass.antt =====
-- The pass of src/opt/gvn.c over a function. The dominator tree is what the analysis manager hands
-- to the pass.
pub mod Visit
pub mod Removes
use nybit.Base.{
  ℕ, zero, suc, Bool, true, false, ◌&&◌, ◌||◌, not, Option, none, some, List, [], ◌∷◌, ◌++◌, length,
  get_elem?, ◌==◌, if◌then◌else◌, bit_and,
}
use nybit.Base.Outcome.{Outcome, done, ◌>>=◌}
use nybit.Ir.Function.{Instruction, Function, invalid, replace_all_uses}
use nybit.Ir.Function.Remove.{remove_instruction}
use nybit.Analysis.Dominator.{DominatorTree, dominates}
use nybit.Opt.Gvn.{Key, is_gvn_candidate, gvn_key_equal, make_gvn_key}

-- `Available_Expr`
pub record Available : Type 0 where
  pub key : Key
  pub val : ℕ
  pub blk_id : ℕ

-- The function, the table and `changed`.
pub record Numbering : Type 0 where
  pub fn : Function
  pub table : List Available
  pub changed : Bool

-- A call that may run out of fuel, and what follows it.
abbrev pub and_then {ℓ κ} :
    {A : Type ℓ} {B : Type κ} → Outcome (Option A) → (A → Outcome (Option B)) → Outcome (Option B)
and_then o f = o >>= (λ r. elim r [ none ↦ done none | some x ↦ f x ])

-- `can_replace`
unfoldable pub can_replace : DominatorTree → Available → ℕ → Outcome (Option Bool)
unfolding dominates
can_replace dt cand b_id =
    if cand.blk_id == b_id then done (some true) else dominates dt cand.blk_id b_id

-- The search of the table: the first entry with an equal key that reaches the block.
unfoldable pub find_match :
    DominatorTree → ℕ → Key → List Available → Outcome (Option (Option Available))
unfolding gvn_key_equal can_replace
find_match dt b_id key [] = done (some none)
find_match dt b_id key (cand ∷ table) =
    let rest = find_match dt b_id key table in
    if gvn_key_equal cand.key key
    then and_then (can_replace dt cand b_id)
        (λ reaches. if reaches then done (some (some cand)) else rest)
    else rest

-- What is done with the answer of the search.
abbrev pub use_match :
    ℕ → Instruction → Key → Numbering → Option Available → Outcome (Option Numbering)
use_match b_id inst key st none = done (
    some (record st {
      table = st.table ++ record { key = key; val = inst.result; blk_id = b_id } ∷ [];
    }))
use_match b_id inst key st (some cand) =
    remove_instruction (replace_all_uses st.fn inst.result cand.val) inst.id
    >>= (λ fn1. done (some (record { fn = fn1; table = st.table; changed = true })))

abbrev pub is_shared : Instruction → Bool
is_shared inst =
    not (inst.result == invalid) && is_gvn_candidate inst.opcode && (bit_and inst.flags 1 == 0)

-- The body of the loop over a block's instructions.
unfoldable pub visit : DominatorTree → ℕ → Instruction → Numbering → Outcome (Option Numbering)
unfolding is_gvn_candidate make_gvn_key find_match remove_instruction replace_all_uses
visit dt b_id inst st =
    if is_shared inst
    then (make_gvn_key st.fn inst
        >>= (λ key. and_then (find_match dt b_id key st.table) (use_match b_id inst key st)))
    else done (some st)

-- The loop over a block's instructions; none where the fuel runs out.
unfoldable pub walk : DominatorTree → ℕ → ℕ → Numbering → ℕ → Outcome (Option Numbering)
unfolding visit
walk dt b_id zero st curr = if curr == invalid then done (some st) else done none
walk dt b_id (suc fuel) st curr =
    if curr == invalid then done (some st) else (elim (get_elem? st.fn.instructions curr) [
      | none ↦ done (some st)
      | some inst ↦
          let next = inst.next in
          and_then (visit dt b_id inst st) (λ st1. walk dt b_id fuel st1 next)
    ])

-- The loop over `n` blocks from `b_id` on.
unfoldable pub walk_blocks : DominatorTree → ℕ → ℕ → ℕ → Numbering → Outcome (Option Numbering)
unfolding walk
walk_blocks dt fuel b_id zero st = done (some st)
walk_blocks dt fuel b_id (suc n) st = elim (get_elem? st.fn.blocks b_id) [
  | none ↦ walk_blocks dt fuel (suc b_id) n st
  | some blk ↦ and_then (walk dt b_id fuel st blk.first_inst) (walk_blocks dt fuel (suc b_id) n)
]

-- `ny_opt_pass_gvn`. The list of a block is no longer than the array of instructions.
unfoldable pub pass_gvn : DominatorTree → Function → Outcome (Option Numbering)
unfolding walk_blocks
pass_gvn dt fn =
    let st : Numbering = record { fn = fn; table = []; changed = false } in
    if length fn.blocks == 0 || fn.entry_block == invalid
    then done (some st)
    else walk_blocks dt (suc (length fn.instructions)) 0 (length fn.blocks) st
