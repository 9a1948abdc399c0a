-- ===== src/Opt/CopyProp/Pass/Sources.antt =====
-- The map of src/opt/copy_prop.c has only values that copies define.
use nybit.Base.{
  get_elem?-set_cases, ℕ, zero, suc, ◌≡◌, ◌≢◌, ◌∙◌, sym, ap, subst, arith, false, Bool-cases,
  Option-cases, inl, inr, Option, none, some, List, [], ◌∷◌, get_elem?, set, ◌==◌, All,
}
use nybit.Base.Outcome.{done, faulted, ◌>>=◌, bind_inv}
use nybit.Ir.Function.{Instruction, Function, invalid, is_none, write}
use nybit.Opt.CopyProp.{get_copy_source, resolve_copy}
use nybit.Opt.CopyProp.Pass.{no_copies, note_source, find_copies, resolve_all, source_in}

-- A live instruction of the function that defines `v` and is a copy.
pub record Source (fn : Function) (v : ℕ) : Type 0 where
  pub at : ℕ
  pub def : Instruction
  pub src : ℕ
  pub found : get_elem? fn.instructions at ≡ some def
  pub live : is_none def.opcode ≡ false
  pub result : def.result ≡ v
  pub copies : get_copy_source fn def ≡ done (some src)

-- Each entry of the map that is not invalid has its copy.
abbrev pub Sourced : Function → List ℕ → Type 0
Sourced fn copy_map = (v src : ℕ) → get_elem? copy_map v ≡ some src → src ≢ invalid → Source fn v

note_source-Sourced :
    (fn : Function) (copy_map : List ℕ) (inst : Instruction) (k : ℕ) (o : Option ℕ) {map1 : List ℕ}
    → get_elem? fn.instructions k ≡ some inst
    → is_none inst.opcode ≡ false
    → get_copy_source fn inst ≡ done o
    → Sourced fn copy_map
    → note_source copy_map inst o ≡ done map1
    → Sourced fn map1
note_source-Sourced fn copy_map inst k none {map1 = map1} found live copies h e v s at valid =
    let same : copy_map ≡ map1 = cc in h v s (ap (λ (xs : List ℕ). get_elem? xs v) same ∙ at) valid
note_source-Sourced fn copy_map inst k (some src) {map1 = map1} found live copies h e v s at valid =
    elim (Option-cases (get_elem? copy_map inst.result)) [
      | inl missing ↦ let r : faulted ≡ done map1 = rw (write, missing) at e in cc
      | inr (old, there) ↦
          let r : done (set copy_map inst.result src) ≡ done map1 = rw (write, there) at e in
          let same : set copy_map inst.result src ≡ map1 = cc in
          let now : get_elem? (set copy_map inst.result src) v ≡ some s =
            ap (λ (xs : List ℕ). get_elem? xs v) same ∙ at in
          elim (get_elem?-set_cases copy_map inst.result src v now) [
            | inr other ↦ h v s other.1 valid
            | inl here ↦ record {
              at = k;
              def = inst;
              src = src;
              found = found;
              live = live;
              result = sym here.0;
              copies = copies;
            }
          ]
    ]

pub find_copies-Sourced :
    (fn : Function) (insts : List Instruction) (copy_map : List ℕ) {map1 : List ℕ}
    → All (λ (inst : Instruction). (k : ℕ) × (get_elem? fn.instructions k ≡ some inst)) insts
    → Sourced fn copy_map
    → find_copies fn insts copy_map ≡ done map1
    → Sourced fn map1
unfolding find_copies
find_copies-Sourced fn [] copy_map {map1 = map1} own h e =
    let same : copy_map ≡ map1 = cc in subst (Sourced fn) same h
find_copies-Sourced fn (inst ∷ insts) copy_map {map1 = map1} own h e =
    elim (Bool-cases (is_none inst.opcode)) [
      | inl dead ↦
          let rest : find_copies fn insts copy_map ≡ done map1 = rw dead at e in
          find_copies-Sourced fn insts copy_map own.1 h rest
      | inr live ↦
          let turn =
            bind_inv (get_copy_source fn inst >>= note_source copy_map inst) (find_copies fn insts)
              (rw live at e) in
          let read = bind_inv (get_copy_source fn inst) (note_source copy_map inst) turn.1 in
          find_copies-Sourced fn insts turn.0 own.1
            (note_source-Sourced fn copy_map inst own.0.0 read.0 own.0.1 live read.1 h read.2)
            turn.2
    ]

pub resolve_all-Sourced :
    (fn : Function) (i n : ℕ) (copy_map : List ℕ)
    → Sourced fn copy_map
    → Sourced fn (resolve_all i n copy_map)
unfolding resolve_all
resolve_all-Sourced fn i zero copy_map h = h
resolve_all-Sourced fn i (suc n) copy_map h = elim (Option-cases (get_elem? copy_map i)) [
  | inl missing ↦ rw (resolve_all, missing) (resolve_all-Sourced fn (suc i) n copy_map h)
  | inr (src, at) ↦ elim (Bool-cases (src == invalid)) [
    | inl no_copy ↦ rw (resolve_all, at, no_copy) (resolve_all-Sourced fn (suc i) n copy_map h)
    | inr copy ↦
        let next : Sourced fn (set copy_map i (resolve_copy copy_map src)) = λ v s there valid.
          elim (get_elem?-set_cases copy_map i (resolve_copy copy_map src) v there) [
            | inr other ↦ h v s other.1 valid
            | inl here ↦
                let source = h i src at (ground (arith, copy)) in
                subst (λ (x : ℕ). Source fn x) (sym here.0) source
          ] in
        rw (resolve_all, at, copy)
          (resolve_all-Sourced fn (suc i) n (set copy_map i (resolve_copy copy_map src)) next)
  ]
]

pub no_copies_only : (n v : ℕ) {s : ℕ} → get_elem? (no_copies n) v ≡ some s → s ≡ invalid
no_copies_only zero v e = cc
no_copies_only (suc n) zero e = cc
no_copies_only (suc n) (suc v) e = no_copies_only n v e

pub source_in_inv :
    (copy_map : List ℕ) (v : ℕ) {t : ℕ}
    → source_in copy_map v ≡ some t
    → (s : ℕ) × (get_elem? copy_map v ≡ some s) × (s ≢ invalid)
source_in_inv copy_map v {t = t} e = elim (Option-cases (get_elem? copy_map v)) [
  | inl missing ↦ let r : none ≡ some t = rw (source_in, missing) at e in cc
  | inr (s, at) ↦ elim (Bool-cases (s == invalid)) [
    | inl no_copy ↦ let r : none ≡ some t = rw (source_in, at, no_copy) at e in cc
    | inr copy ↦ (s, at, λ (z : s ≡ invalid). ground (arith, z, copy))
  ]
]
