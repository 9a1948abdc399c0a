-- ===== src/Analysis/UseDef.antt =====
-- src/analysis/use_def.c: where each value is defined, and how often and where it is used. The
-- arrays are allocated with one entry for each value; `uses` starts uninitialised.
pub mod Counts
pub mod Describes
pub mod Complete
use nybit.Base.{
  ℕ, zero, suc, ◌+◌, ◌%◌, ◌^◌, Option, none, some, List, [], ◌∷◌, length, get_elem?, set, ltb, ◌==◌,
  if◌then◌else◌,
}
use nybit.Base.Outcome.{Outcome, done, faulted, ◌>>=◌}
use nybit.Ir.Function.{Operand, Instruction, Function, invalid, is_none, adjust, write}
use nybit.Opt.CopyProp.{get_operands}

-- `Ny_Use`
pub record Use : Type 0 where
  pub inst : ℕ
  pub op_idx : ℕ

-- `Ny_Use_Def`; `none` is an entry of `uses` that was never written.
pub record UseDef : Type 0 where
  pub val_count : ℕ
  pub def_inst : List ℕ
  pub use_start : List ℕ
  pub use_count : List ℕ
  pub uses : List (Option Use)
  pub total_uses : ℕ

abbrev pub replicate {ℓ} : {A : Type ℓ} → ℕ → A → List A
replicate zero x = []
replicate (suc n) x = x ∷ replicate n x

-- The operands that a loop up to `op_count` reads; behind a null pointer even the first read is
-- a fault.
abbrev pub ops_or_fault : Instruction → Option (List Operand) → Outcome (List Operand)
ops_or_fault inst (some ops) = done ops
ops_or_fault inst none = if inst.op_count == 0 then done [] else faulted

unfoldable pub read_operands : Function → Instruction → Outcome (List Operand)
unfolding get_operands
read_operands fn inst = ops_or_fault inst (get_operands fn inst)

-- The inner loop of the first pass.
abbrev pub count_operands : ℕ → List ℕ → List Operand → List ℕ
count_operands n counts [] = counts
count_operands n counts (Operand.value v ∷ ops) =
    count_operands n (if ltb v n then adjust counts v (λ c. (c + 1) % 2 ^ 32) else counts) ops
count_operands n counts (_ ∷ ops) = count_operands n counts ops

abbrev pub note_def : ℕ → List ℕ → Instruction → List ℕ
note_def n defs inst =
    if inst.result == invalid
    then defs
    else if ltb inst.result n
    then set defs inst.result inst.id
    else defs

-- One turn of the first pass.
abbrev pub count_inst : Function → Instruction → List ℕ × List ℕ → Outcome (List ℕ × List ℕ)
count_inst fn inst st =
    let n = length fn.values in
    read_operands fn inst >>= (λ ops. done (note_def n st.0 inst, count_operands n st.1 ops))

-- The first pass over the instructions: `def_inst` and `temp_counts`.
unfoldable pub gather : Function → List Instruction → List ℕ × List ℕ → Outcome (List ℕ × List ℕ)
unfolding read_operands
gather fn [] st = done st
gather fn (inst ∷ insts) st =
    (if is_none inst.opcode then done st else count_inst fn inst st) >>= gather fn insts

-- The second loop: where the uses of each value start, and how many there are.
abbrev pub starts : ℕ → List ℕ → List ℕ
starts total [] = []
starts total (c ∷ counts) = total % 2 ^ 32 ∷ starts (total + c) counts

abbrev pub sum : List ℕ → ℕ
sum [] = 0
sum (c ∷ counts) = c + sum counts

-- One store of the second pass: the use behind the value's start and its cursor.
abbrev pub place :
    List ℕ → ℕ → Use → List ℕ × List (Option Use) → Outcome (List ℕ × List (Option Use))
place start v use_site st = elim (get_elem? start v) [
  | none ↦ faulted
  | some first ↦ elim (get_elem? st.0 v) [
    | none ↦ faulted
    | some cursor ↦
        write st.1 ((first + cursor) % 2 ^ 32) (λ old. some use_site)
        >>= (λ uses. done (set st.0 v ((cursor + 1) % 2 ^ 32), uses))
  ]
]

-- The inner loop of the second pass, from the operand `op_i` on.
unfoldable pub place_operands :
    ℕ
    → List ℕ
    → ℕ
    → ℕ
    → List Operand
    → List ℕ × List (Option Use)
    → Outcome (List ℕ × List (Option Use))
place_operands n start inst_id op_i [] st = done st
place_operands n start inst_id op_i (Operand.value v ∷ ops) st =
    (if ltb v n
      then place start v (record { inst = inst_id; op_idx = op_i % 2 ^ 16 }) st
      else done st)
    >>= place_operands n start inst_id (suc op_i) ops
place_operands n start inst_id op_i (_ ∷ ops) st = place_operands n start inst_id (suc op_i) ops st

-- The second pass over the instructions.
unfoldable pub place_all :
    Function
    → List ℕ
    → List Instruction
    → List ℕ × List (Option Use)
    → Outcome (List ℕ × List (Option Use))
unfolding read_operands place_operands
place_all fn start [] st = done st
place_all fn start (inst ∷ insts) st =
    (if is_none inst.opcode
      then done st
      else (read_operands fn inst
          >>= (λ ops. place_operands (length fn.values) start inst.id 0 ops st)))
    >>= place_all fn start insts

-- `ny_use_def_init`
unfoldable pub init : Function → Outcome UseDef
unfolding gather place_all
init fn =
    let n = length fn.values in
    gather fn fn.instructions (replicate n invalid, replicate n 0) >>= (λ st.
      let start = starts 0 st.1 in
      let total = sum st.1 in
      place_all fn start fn.instructions (replicate n 0, replicate total none) >>= (λ filled.
        done (record {
          val_count = n;
          def_inst = st.0;
          use_start = start;
          use_count = st.1;
          uses = filled.1;
          total_uses = total;
        })))

-- `ny_use_def_get_def`
abbrev pub get_def : UseDef → ℕ → ℕ
get_def ud val = elim (get_elem? ud.def_inst val) [ none ↦ invalid | some d ↦ d ]

-- `ny_use_def_use_count`
abbrev pub use_count : UseDef → ℕ → ℕ
use_count ud val = elim (get_elem? ud.use_count val) [ none ↦ 0 | some c ↦ c ]
