-- ===== src/Analysis/UseDef/Complete.antt =====
-- src/analysis/use_def.c finds the definition of every value that has one.
use nybit.Base.{
  ℕ, zero, suc, ◌<◌, ◌≡◌, ◌≢◌, inl, inr, refl, sym, ap, ◌∙◌, arith, true, false, Bool-cases, none,
  some, List, [], ◌∷◌, length, get_elem?, ltb, ◌==◌, All, get_elem?-set_self, get_elem?-set_ne,
  length-set, subst, lt-length_of_get_elem?,
}
use nybit.Base.Outcome.{done, bind_inv}
use nybit.Ir.Function.{Instruction, Function, invalid, is_none}
use nybit.Analysis.UseDef.{
  UseDef, replicate, read_operands, count_operands, note_def, count_inst, gather, init, place_all,
  starts, sum,
}
use nybit.Analysis.UseDef.Counts.{IsNumbered}
use nybit.Analysis.UseDef.Describes.{ap_done}

-- No two live instructions have the same result.
abbrev pub IsSingleDef : List Instruction → Type 0
IsSingleDef insts =
    (i j : ℕ) (a b : Instruction)
    → get_elem? insts i ≡ some a
    → get_elem? insts j ≡ some b
    → is_none a.opcode ≡ false
    → is_none b.opcode ≡ false
    → (a.result == invalid) ≡ false
    → a.result ≡ b.result
    → i ≡ j

-- Where a live instruction of the list defines `v`, its id is `d`.
abbrev OnlyDef : ℕ → ℕ → Instruction → Type 0
OnlyDef v d inst = is_none inst.opcode ≡ false → inst.result ≡ v → inst.id ≡ d

note_def-kept :
    (n : ℕ) (defs : List ℕ) (inst : Instruction) (v d : ℕ)
    → (inst.result ≡ v → inst.id ≡ d)
    → get_elem? defs v ≡ some d
    → get_elem? (note_def n defs inst) v ≡ some d
note_def-kept n defs inst v d only at = elim (Bool-cases (inst.result == invalid)) [
  | inl no_result ↦ rw no_result at
  | inr result ↦ elim (Bool-cases (ltb inst.result n)) [
    | inr beyond ↦ rw (result, beyond) at
    | inl below ↦ elim (Bool-cases (inst.result == v)) [
      | inl same ↦
          let is_v : inst.result ≡ v = ground (arith, same) in
          let small = lt-length_of_get_elem? defs v at in
          rw (result, below, only is_v, is_v) (get_elem?-set_self defs v d small)
      | inr other ↦
          let ne : inst.result ≢ v = ground (arith, other) in
          rw (result, below) (get_elem?-set_ne defs inst.id ne ∙ at)
    ]
  ]
]

note_def-own :
    (n : ℕ) (defs : List ℕ) (inst : Instruction) (v : ℕ)
    → inst.result ≡ v
    → (v == invalid) ≡ false
    → v < n
    → length defs ≡ n
    → get_elem? (note_def n defs inst) v ≡ some inst.id
note_def-own n defs inst v is_v valid small size =
    let below : ltb v n ≡ true = ground (arith, small) in
    rw (is_v, valid, below) (get_elem?-set_self defs v inst.id (omega (arith, small, size)))

length-note_def :
    (n : ℕ) (defs : List ℕ) (inst : Instruction) → length (note_def n defs inst) ≡ length defs
length-note_def n defs inst = elim (Bool-cases (inst.result == invalid)) [
  | inl no_result ↦ rw no_result refl
  | inr result ↦ elim (Bool-cases (ltb inst.result n)) [
    | inr beyond ↦ rw (result, beyond) refl
    | inl below ↦ rw (result, below) (length-set defs inst.result inst.id)
  ]
]

-- What one turn of the first pass makes of the definitions.
count_inst-defs :
    (fn : Function) (inst : Instruction) (st : List ℕ × List ℕ) {st1 : List ℕ × List ℕ}
    → count_inst fn inst st ≡ done st1
    → st1.0 ≡ note_def (length fn.values) st.0 inst
count_inst-defs fn inst st {st1 = st1} e =
    let read = bind_inv (read_operands fn inst) _ e in
    let same : (
      note_def (length fn.values) st.0 inst,
      count_operands (length fn.values) st.1 read.0,
    )
        ≡ st1 =
      let last = read.2 in cc in
    ap (λ (p : List ℕ × List ℕ). p.0) (sym same)

gather-kept :
    (fn : Function) (insts : List Instruction) (st : List ℕ × List ℕ) (v d : ℕ)
    {st1 : List ℕ × List ℕ}
    → All (OnlyDef v d) insts
    → get_elem? st.0 v ≡ some d
    → gather fn insts st ≡ done st1
    → get_elem? st1.0 v ≡ some d
unfolding gather
gather-kept fn [] st v d {st1 = st1} only at e =
    let same : st ≡ st1 = cc in ap (λ (p : List ℕ × List ℕ). get_elem? p.0 v) (sym same) ∙ at
gather-kept fn (inst ∷ insts) st v d {st1 = st1} only at e =
    elim (Bool-cases (is_none inst.opcode)) [
      | inl dead ↦
          let e1 : gather fn insts st ≡ done st1 = rw dead at e in
          gather-kept fn insts st v d only.1 at e1
      | inr live ↦
          let turn = bind_inv (count_inst fn inst st) (gather fn insts) (rw live at e) in
          let now = count_inst-defs fn inst st turn.1 in
          let kept = note_def-kept (length fn.values) st.0 inst v d (only.0 live) at in
          gather-kept fn insts turn.0 v d only.1 (ap (λ (xs : List ℕ). get_elem? xs v) now ∙ kept)
            turn.2
    ]

gather-own :
    (fn : Function) (insts : List Instruction) (st : List ℕ × List ℕ) (v d k : ℕ)
    {st1 : List ℕ × List ℕ} {own : Instruction}
    → All (OnlyDef v d) insts
    → get_elem? insts k ≡ some own
    → is_none own.opcode ≡ false
    → own.result ≡ v
    → (v == invalid) ≡ false
    → v < length fn.values
    → length st.0 ≡ length fn.values
    → gather fn insts st ≡ done st1
    → get_elem? st1.0 v ≡ some d
unfolding gather
gather-own fn [] st v d k only at live is_v valid small size e = cc
gather-own fn (inst ∷ insts) st v d zero {own = own} only at live is_v valid small size e =
    let same : inst ≡ own = cc in
    let live1 : is_none inst.opcode ≡ false =
      ap (λ (x : Instruction). is_none x.opcode) same ∙ live in
    let is_v1 : inst.result ≡ v = ap (λ (x : Instruction). x.result) same ∙ is_v in
    let turn = bind_inv (count_inst fn inst st) (gather fn insts) (rw live1 at e) in
    let now = count_inst-defs fn inst st turn.1 in
    let noted = note_def-own (length fn.values) st.0 inst v is_v1 valid small size in
    gather-kept fn insts turn.0 v d only.1
      (ap (λ (xs : List ℕ). get_elem? xs v) now ∙ noted ∙ ap some (only.0 live1 is_v1)) turn.2
gather-own fn (inst ∷ insts) st v d (suc k) {st1 = st1} only at live is_v valid small size e =
    elim (Bool-cases (is_none inst.opcode)) [
      | inl dead ↦
          let e1 : gather fn insts st ≡ done st1 = rw dead at e in
          gather-own fn insts st v d k only.1 at live is_v valid small size e1
      | inr live1 ↦
          let turn = bind_inv (count_inst fn inst st) (gather fn insts) (rw live1 at e) in
          let now = count_inst-defs fn inst st turn.1 in
          gather-own fn insts turn.0 v d k only.1 at live is_v valid small
            (ap (λ (xs : List ℕ). length xs) now
              ∙ length-note_def (length fn.values) st.0 inst
              ∙ size)
            turn.2
    ]

pub All-of_get {ℓ κ} :
    {A : Type ℓ} {P : A → Type κ} (xs : List A)
    → ((k : ℕ) (x : A) → get_elem? xs k ≡ some x → P x)
    → All P xs
All-of_get [] h = tt
All-of_get (x ∷ xs) h = (h 0 x refl, All-of_get xs (λ k y e. h (suc k) y e))

length-replicate : (n x : ℕ) → length (replicate n x) ≡ n
length-replicate zero x = refl
length-replicate (suc n) x = ap suc (length-replicate n x)

pub All_at {ℓ κ} :
    {A : Type ℓ} (P : A → Type κ) (xs : List A) (k : ℕ) {x : A}
    → All P xs
    → get_elem? xs k ≡ some x
    → P x
All_at P [] k h e = cc
All_at P (y ∷ xs) zero {x = x} h e = let same : y ≡ x = cc in subst P same h.0
All_at P (y ∷ xs) (suc k) h e = All_at P xs k h.1 e

-- The definition of a value is the index of the live instruction that has it as its result.
pub init-def :
    (fn : Function) (j : ℕ) (inst : Instruction) {ud : UseDef}
    → IsNumbered fn.instructions
    → IsSingleDef fn.instructions
    → get_elem? fn.instructions j ≡ some inst
    → is_none inst.opcode ≡ false
    → (inst.result == invalid) ≡ false
    → inst.result < length fn.values
    → init fn ≡ done ud
    → get_elem? ud.def_inst inst.result ≡ some j
unfolding init
init-def fn j inst {ud = ud} own single at live valid small e =
    let n = length fn.values in
    let first = bind_inv (gather fn fn.instructions (replicate n invalid, replicate n 0)) _ e in
    let st = first.0 in
    let second =
      bind_inv
        (place_all fn (starts 0 st.1) fn.instructions (replicate n 0, replicate (sum st.1) none)) _
        first.2 in
    let only : All (OnlyDef inst.result j) fn.instructions =
      All-of_get fn.instructions (λ k x found live_x same.
        let there =
          All_at (λ (y : Instruction). get_elem? fn.instructions y.id ≡ some y) fn.instructions k
            own found in
        single x.id j x inst there at live_x live (rw (sym same) at valid) same) in
    let found =
      gather-own fn fn.instructions (replicate n invalid, replicate n 0) inst.result j j only at
        live refl valid small (length-replicate n invalid) first.1 in
    let defs : st.0 ≡ ud.def_inst = ap_done (λ (u : UseDef). u.def_inst) second.2 in
    ap (λ (xs : List ℕ). get_elem? xs inst.result) (sym defs) ∙ found
