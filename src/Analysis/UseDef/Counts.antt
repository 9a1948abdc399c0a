-- ===== src/Analysis/UseDef/Counts.antt =====
-- How often values are used, and what counting one instruction does in src/analysis/use_def.c.
use nybit.Base.{
  ℕ, zero, suc, ◌+◌, ◌%◌, ◌^◌, ◌<◌, ◌≤◌, ◌≡◌, ◌≢◌, ◌⊎◌, inl, inr, refl, sym, ap, ◌∙◌, arith, false,
  Bool-cases, some, List, [], ◌∷◌, length, get_elem?, set, ltb, ◌==◌, if◌then◌else◌, All,
  get_elem?-set_self, get_elem?-set_ne, lt-length_of_get_elem?, length-set,
}
use nybit.Base.Outcome.{done, faulted}
use nybit.Ir.Function.{Operand, Instruction, Function, invalid, is_none, adjust, adjust_found}
use nybit.Ir.Function.Others.{Core, core}
use nybit.Opt.CopyProp.{get_operands, take, drop}
use nybit.Analysis.UseDef.{replicate, read_operands, count_operands, note_def}

-- The operands at a place of the pool, or none where the place leaves it.
abbrev pub slice : List Operand → ℕ → ℕ → List Operand
slice pool start count =
    if ltb (length pool) (start + count) then [] else take count (drop start pool)

-- How often a list of operands names the value.
abbrev pub occurs : ℕ → List Operand → ℕ
occurs v [] = 0
occurs v (Operand.value u ∷ ops) = (if u == v then 1 else 0) + occurs v ops
occurs v (_ ∷ ops) = occurs v ops

-- The operands of a live instruction.
abbrev pub operands_of : List Operand → Core → List Operand
operands_of pool c = if is_none c.opcode then [] else slice pool c.op_start c.op_count

-- How often the live instructions name the value.
abbrev pub live_uses : List Operand → List Instruction → ℕ → ℕ
live_uses pool [] v = 0
live_uses pool (inst ∷ insts) v = occurs v (operands_of pool (core inst)) + live_uses pool insts v

-- How many operands the live instructions have.
abbrev pub live_operands : List Operand → List Instruction → ℕ
live_operands pool [] = 0
live_operands pool (inst ∷ insts) = length (operands_of pool (core inst)) + live_operands pool insts

-- The instruction's id is its index.
abbrev pub IsNumbered : List Instruction → Type 0
IsNumbered insts = All (λ inst. get_elem? insts inst.id ≡ some inst) insts

pub occurs-le : (v : ℕ) (ops : List Operand) → occurs v ops ≤ length ops
occurs-le v [] = omega arith
occurs-le v (Operand.empty ∷ ops) = omega (arith, occurs-le v ops)
occurs-le v (Operand.value u ∷ ops) = ground (arith, occurs-le v ops)
occurs-le v (Operand.block u ∷ ops) = omega (arith, occurs-le v ops)
occurs-le v (Operand.imm_int u ∷ ops) = omega (arith, occurs-le v ops)
occurs-le v (Operand.imm_float u ∷ ops) = omega (arith, occurs-le v ops)
occurs-le v (Operand.function u ∷ ops) = omega (arith, occurs-le v ops)
occurs-le v (Operand.symbol u ∷ ops) = omega (arith, occurs-le v ops)
occurs-le v (Operand.global u ∷ ops) = omega (arith, occurs-le v ops)
occurs-le v (Operand.type_of u ∷ ops) = omega (arith, occurs-le v ops)

pub live_uses-le :
    (pool : List Operand) (insts : List Instruction) (v : ℕ)
    → live_uses pool insts v ≤ live_operands pool insts
live_uses-le pool [] v = omega arith
live_uses-le pool (inst ∷ insts) v =
    omega (arith, occurs-le v (operands_of pool (core inst)), live_uses-le pool insts v)

-- The array has the values of `f` below `n`.
abbrev pub Tabulates : ℕ → (ℕ → ℕ) → List ℕ → Type 0
Tabulates n f xs = (v : ℕ) → v < n → get_elem? xs v ≡ some (f v)

pub Tabulates-replicate : (n : ℕ) → Tabulates n (λ v. 0) (replicate n 0)
Tabulates-replicate zero v h = elim h [ ]
Tabulates-replicate (suc n) zero h = refl
Tabulates-replicate (suc n) (suc v) h = Tabulates-replicate n v (omega arith)

-- Counting one operand.
counted_at :
    (n : ℕ) (f : ℕ → ℕ) (counts : List ℕ) (u v : ℕ)
    → Tabulates n f counts
    → v < n
    → f u + 1 < 2 ^ 32
    → get_elem? (if ltb u n then adjust counts u (λ c. (c + 1) % 2 ^ 32) else counts) v
      ≡ some (f v + (if u == v then 1 else 0))
counted_at n f counts u v h below fits = elim (Bool-cases (ltb u n)) [
  | inl small ↦
      let at : get_elem? counts u ≡ some (f u) = h u (ground (arith, small)) in
      elim (Bool-cases (u == v)) [
        | inl same ↦
            let e : u ≡ v = ground (arith, same) in
            let new : get_elem? (set counts v ((f v + 1) % 2 ^ 32)) v ≡ some ((f v + 1) % 2 ^ 32) =
              get_elem?-set_self counts v _ (lt-length_of_get_elem? counts v (h v below)) in
            let fits_v : f v + 1 < 2 ^ 32 = rw e at fits in
            rw (small, adjust_found counts u (λ c. (c + 1) % 2 ^ 32) at, same, e, new)
              (ap some (omega arith))
        | inr differ ↦
            let ne : u ≢ v = ground (arith, differ) in
            rw
              (
                small,
                adjust_found counts u (λ c. (c + 1) % 2 ^ 32) at,
                differ,
                get_elem?-set_ne counts ((f u + 1) % 2 ^ 32) ne,
                h v below,
              )
              (ap some (omega arith))
      ]
  | inr big ↦
      let differ : (u == v) ≡ false = ground (arith, big) in
      rw (big, differ, h v below) (ap some (omega arith))
]

-- Each count stays below 2^32 while `ops` is added.
abbrev pub Fits : (ℕ → ℕ) → List Operand → Type 0
Fits f ops = (v : ℕ) → f v + occurs v ops < 2 ^ 32

pub Tabulates-count_operands :
    (n : ℕ) (f : ℕ → ℕ) (counts : List ℕ) (ops : List Operand)
    → Tabulates n f counts
    → Fits f ops
    → Tabulates n (λ v. f v + occurs v ops) (count_operands n counts ops)
Tabulates-count_operands n f counts [] h fits v below = rw (h v below) (ap some (omega arith))
Tabulates-count_operands n f counts (Operand.value u ∷ ops) h fits v below =
    let f1 = λ (w : ℕ). f w + (if u == w then 1 else 0) in
    let more : f u + 1 < 2 ^ 32 = let at_u = fits u in ground arith in
    let rest =
      Tabulates-count_operands n f1 _ ops (λ w small. counted_at n f counts u w h small more)
        (λ w. let at_w = fits w in ground arith) v below in
    rest ∙ ap some (omega arith)
Tabulates-count_operands n f counts (Operand.empty ∷ ops) h fits v below =
    Tabulates-count_operands n f counts ops h fits v below
Tabulates-count_operands n f counts (Operand.block u ∷ ops) h fits v below =
    Tabulates-count_operands n f counts ops h fits v below
Tabulates-count_operands n f counts (Operand.imm_int u ∷ ops) h fits v below =
    Tabulates-count_operands n f counts ops h fits v below
Tabulates-count_operands n f counts (Operand.imm_float u ∷ ops) h fits v below =
    Tabulates-count_operands n f counts ops h fits v below
Tabulates-count_operands n f counts (Operand.function u ∷ ops) h fits v below =
    Tabulates-count_operands n f counts ops h fits v below
Tabulates-count_operands n f counts (Operand.symbol u ∷ ops) h fits v below =
    Tabulates-count_operands n f counts ops h fits v below
Tabulates-count_operands n f counts (Operand.global u ∷ ops) h fits v below =
    Tabulates-count_operands n f counts ops h fits v below
Tabulates-count_operands n f counts (Operand.type_of u ∷ ops) h fits v below =
    Tabulates-count_operands n f counts ops h fits v below

-- What a read of the operands returns is what stands at their place.
pub read_operands-slice :
    (fn : Function) (inst : Instruction) {ops : List Operand}
    → is_none inst.opcode ≡ false
    → read_operands fn inst ≡ done ops
    → operands_of fn.operands (core inst) ≡ ops
unfolding read_operands get_operands
read_operands-slice fn inst {ops = ops} live e =
    elim (Bool-cases (ltb (length fn.operands) (inst.op_start + inst.op_count))) [
      | inl beyond ↦ elim (Bool-cases (inst.op_count == 0)) [
        | inl no_ops ↦
            let r : done [] ≡ done ops = rw (read_operands, get_operands, beyond, no_ops) at e in
            let same : [] ≡ ops = cc in rw (live, beyond) same
        | inr some_ops ↦
            let r : faulted ≡ done ops = rw (read_operands, get_operands, beyond, some_ops) at e in
            cc
      ]
      | inr inside ↦
          let here = take inst.op_count (drop inst.op_start fn.operands) in
          let r : done here ≡ done ops = rw (read_operands, get_operands, inside) at e in
          let same : here ≡ ops = cc in rw (live, inside) same
    ]

-- Each entry is absent or names an instruction that defines the value.
abbrev pub Defines : List Instruction → List ℕ → Type 0
Defines insts defs =
    (v d : ℕ)
    → get_elem? defs v ≡ some d
    → (d ≡ invalid) ⊎ ((inst : Instruction) × (get_elem? insts d ≡ some inst) × (inst.result ≡ v))

pub Defines-note_def :
    (insts : List Instruction) (n : ℕ) (defs : List ℕ) (inst : Instruction)
    → get_elem? insts inst.id ≡ some inst
    → Defines insts defs
    → Defines insts (note_def n defs inst)
Defines-note_def insts n defs inst own h v d e = elim (Bool-cases (inst.result == invalid)) [
  | inl no_result ↦ h v d (rw no_result at e)
  | inr result ↦ elim (Bool-cases (ltb inst.result n)) [
    | inr beyond ↦ h v d (rw (result, beyond) at e)
    | inl below ↦
        let e1 : get_elem? (set defs inst.result inst.id) v ≡ some d = rw (result, below) at e in
        elim (Bool-cases (inst.result == v)) [
          | inr other ↦
              let ne : inst.result ≢ v = ground (arith, other) in
              h v d (sym (get_elem?-set_ne defs inst.id ne) ∙ e1)
          | inl same ↦
              let is_v : inst.result ≡ v = ground (arith, same) in
              let e2 : get_elem? (set defs v inst.id) v ≡ some d = rw is_v at e1 in
              let small : v < length defs =
                rw (length-set defs v inst.id) at
                  (lt-length_of_get_elem? (set defs v inst.id) v e2) in
              let both = sym (get_elem?-set_self defs v inst.id small) ∙ e2 in
              let is_d : inst.id ≡ d = cc in
              inr (inst, ap (λ k. get_elem? insts k) (sym is_d) ∙ own, is_v)
        ]
  ]
]

pub replicate_only : (n x v : ℕ) {d : ℕ} → get_elem? (replicate n x) v ≡ some d → d ≡ x
replicate_only zero x v e = cc
replicate_only (suc n) x zero e = cc
replicate_only (suc n) x (suc v) e = replicate_only n x v e
