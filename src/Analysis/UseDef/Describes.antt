-- ===== src/Analysis/UseDef/Describes.antt =====
-- The counts of src/analysis/use_def.c are the numbers of uses, and its definitions are the
-- instructions that define.
use nybit.Base.{
  ℕ, ◌+◌, ◌^◌, ◌<◌, ◌≡◌, inl, inr, sym, ap, ◌∙◌, arith, Bool-cases, none, some, List, [], ◌∷◌,
  length, get_elem?, All,
}
use nybit.Base.Outcome.{done, bind_inv}
use nybit.Ir.Function.{Instruction, Function, invalid, is_none}
use nybit.Analysis.UseDef.{
  UseDef, replicate, read_operands, count_operands, note_def, count_inst, gather, init, place_all,
  starts, sum,
}
use nybit.Analysis.UseDef.Counts.{
  occurs, live_uses, live_operands, IsNumbered, live_uses-le, Tabulates, Tabulates-replicate,
  Tabulates-count_operands, read_operands-slice, Defines, Defines-note_def, replicate_only,
}

-- Adding up what the live instructions of the list use.
gather-Tabulates :
    (fn : Function) (insts : List Instruction) (f : ℕ → ℕ) (st : List ℕ × List ℕ)
    {st1 : List ℕ × List ℕ}
    → All (λ inst. get_elem? fn.instructions inst.id ≡ some inst) insts
    → Tabulates (length fn.values) f st.1
    → ((v : ℕ) → f v + live_uses fn.operands insts v < 2 ^ 32)
    → Defines fn.instructions st.0
    → gather fn insts st ≡ done st1
    → Tabulates (length fn.values) (λ v. f v + live_uses fn.operands insts v) st1.1
      × Defines fn.instructions st1.0
unfolding gather
gather-Tabulates fn [] f st {st1 = st1} own h fits defs e =
    let same : st ≡ st1 = cc in rw (sym same) ((λ v below. h v below ∙ ap some (omega arith)), defs)
gather-Tabulates fn (inst ∷ insts) f st {st1 = st1} own h fits defs e =
    let n = length fn.values in
    elim (Bool-cases (is_none inst.opcode)) [
      | inl dead ↦
          let e1 : gather fn insts st ≡ done st1 = rw dead at e in
          let rest =
            gather-Tabulates fn insts f st own.1 h
              (λ v. let all = rw dead at (fits v) in omega arith) defs e1 in
          ((λ v below. rw dead (rest.0 v below ∙ ap some (omega arith))), rest.1)
      | inr live ↦
          let turn = bind_inv (count_inst fn inst st) (gather fn insts) (rw live at e) in
          let read = bind_inv (read_operands fn inst) _ turn.1 in
          let at = read_operands-slice fn inst live read.1 in
          let st2 : List ℕ × List ℕ = (note_def n st.0 inst, count_operands n st.1 read.0) in
          let same : st2 ≡ turn.0 = let last = read.2 in cc in
          let fits_at = λ (v : ℕ).
            let all = fits v in
            let now : f v + (occurs v read.0 + live_uses fn.operands insts v) < 2 ^ 32 =
              rw at at all in
            now in
          let rest =
            gather-Tabulates fn insts (λ v. f v + occurs v read.0) st2 own.1
              (Tabulates-count_operands n f st.1 read.0 h (λ v. let now = fits_at v in omega arith))
              (λ v. let now = fits_at v in omega arith)
              (Defines-note_def fn.instructions n st.0 inst own.0 defs) (rw (sym same) at turn.2) in
          ((λ v below. rw at (rest.0 v below ∙ ap some (omega arith))), rest.1)
    ]

pub ap_done {ℓ} : {A : Type ℓ} (f : UseDef → A) {x y : UseDef} → done x ≡ done y → f x ≡ f y
ap_done f e = ap f cc

-- The counts are the numbers of uses and the definitions are those of the function.
pub record Describes (fn : Function) (ud : UseDef) : Type 0 where
  pub values : ud.val_count ≡ length fn.values
  pub counts : Tabulates (length fn.values) (live_uses fn.operands fn.instructions) ud.use_count
  pub defs : Defines fn.instructions ud.def_inst

-- For a function whose instructions are numbered by their ids and whose live instructions have
-- less than 2^32 operands together, where the use-def analysis returns, the count of each value
-- is the number of operands of live instructions that name it, and each entry of the
-- definitions is invalid or names an instruction whose result is the value.
pub init-Describes :
    (fn : Function) {ud : UseDef}
    → IsNumbered fn.instructions
    → live_operands fn.operands fn.instructions < 2 ^ 32
    → init fn ≡ done ud
    → Describes fn ud
unfolding init
init-Describes fn {ud = ud} own small e =
    let n = length fn.values in
    let first = bind_inv (gather fn fn.instructions (replicate n invalid, replicate n 0)) _ e in
    let st = first.0 in
    let second =
      bind_inv
        (place_all fn (starts 0 st.1) fn.instructions (replicate n 0, replicate (sum st.1) none)) _
        first.2 in
    let table =
      gather-Tabulates fn fn.instructions (λ v. 0) (replicate n invalid, replicate n 0) own
        (Tabulates-replicate n) (λ v. omega (arith, live_uses-le fn.operands fn.instructions v))
        (λ v d at. inl (replicate_only n invalid v at)) first.1 in
    let made = second.2 in
    let values : n ≡ ud.val_count = ap_done (λ u. u.val_count) made in
    let counts : st.1 ≡ ud.use_count = ap_done (λ u. u.use_count) made in
    let defs : st.0 ≡ ud.def_inst = ap_done (λ u. u.def_inst) made in
    record {
      values = sym values;
      counts = λ v below. rw (sym counts) (table.0 v below ∙ ap some (omega arith));
      defs = rw (sym defs) table.1;
    }
