-- ===== src/Opt/Dce/Fates.antt =====
-- What a turn of the `while` loop of src/opt/dce.c does to each instruction.
use nybit.Base.{
  ℕ, zero, suc, ◌+◌, ◌≤◌, ◌≡◌, ◌≢◌, ◌∙◌, inl, inr, refl, sym, ap, arith, false, Bool-cases,
  Option-cases, some, List, [], ◌∷◌, get_elem?, ◌==◌, All,
}
use nybit.Base.Outcome.{done}
use nybit.Ir.Function.{Operand, Instruction, Function, is_none}
use nybit.Ir.Function.Remove.{cleared, remove_instruction}
use nybit.Ir.Function.Others.{Core, core, core_of, core_at, remove_instruction-core_at}
use nybit.Ir.Function.Removed.{
  cleared_core, remove_instruction-cleared, remove_instruction-operands,
}
use nybit.Analysis.UseDef.{UseDef, read_operands}
use nybit.Analysis.UseDef.Counts.{occurs, operands_of, live_uses, Defines, read_operands-slice}
use nybit.Opt.Dce.{Pass, has_side_effects, popped}
use nybit.Opt.Dce.Fuel.{Turned, skipped, dropped}
use nybit.Opt.Dce.Release.{Ready, Exact, release-Exact}

-- The function has the same instruction at `i` but for its links; or has it removed, and then it
-- had no side effects and no live instruction uses its result.
pub data Fate (old new : Function) (i : ℕ) : Type 0 where
  kept : core_at new i ≡ core_at old i → Fate old new i
  removed :
      (inst : Instruction)
      → get_elem? old.instructions i ≡ some inst
      → core_at new i ≡ some (core (cleared inst))
      → has_side_effects inst.opcode inst.flags ≡ false
      → live_uses old.operands new.instructions inst.result ≡ 0
      → Fate old new i

module _ (pool : List Operand) where
  live_uses-same :
      (xs ys : List Instruction) (v : ℕ)
      → ((j : ℕ) → core_of (get_elem? ys j) ≡ core_of (get_elem? xs j))
      → live_uses pool ys v ≡ live_uses pool xs v
  live_uses-same [] [] v h = refl
  live_uses-same [] (y ∷ ys) v h = let at = h 0 in cc
  live_uses-same (x ∷ xs) [] v h = let at = h 0 in cc
  live_uses-same (x ∷ xs) (y ∷ ys) v h =
      let at = h 0 in
      let same : core y ≡ core x = cc in
      let heads = ap (λ c. occurs v (operands_of pool c)) same in
      omega (arith, heads, live_uses-same xs ys v (λ j. h (suc j)))

  live_uses-removed :
      (xs ys : List Instruction) (i v : ℕ) {x : Instruction}
      → get_elem? xs i ≡ some x
      → core_of (get_elem? ys i) ≡ some (core (cleared x))
      → ((j : ℕ) → i ≢ j → core_of (get_elem? ys j) ≡ core_of (get_elem? xs j))
      → live_uses pool ys v + occurs v (operands_of pool (core x)) ≡ live_uses pool xs v
  live_uses-removed [] ys i v found gone h = cc
  live_uses-removed (x ∷ xs) [] i v found gone h = cc
  live_uses-removed (x ∷ xs) (y ∷ ys) zero v {x = z} found gone h =
      let same : core y ≡ core (cleared z) = cc in
      let is_z : x ≡ z = cc in
      let heads = ap (λ c. occurs v (operands_of pool c)) same in
      let own = ap (λ c. occurs v (operands_of pool (core c))) is_z in
      omega (arith, heads, own, live_uses-same xs ys v (λ j. h (suc j) (omega arith)))
  live_uses-removed (x ∷ xs) (y ∷ ys) (suc i) v found gone h =
      let at = h 0 (omega arith) in
      let same : core y ≡ core x = cc in
      let heads = ap (λ c. occurs v (operands_of pool c)) same in
      let rest =
        live_uses-removed xs ys i v found gone (λ j ne. h (suc j) (λ e. ne (omega arith))) in
      omega (arith, heads, rest)

module _ (old : Function) where
  -- The uses of a value by the live instructions of a later state of the function.
  abbrev pub uses_in : Function → ℕ → ℕ
  uses_in fn = live_uses old.operands fn.instructions

  pub record Invariant (n : ℕ) (p : Pass) : Type 0 where
    pub pool : p.fn.operands ≡ old.operands
    pub exact : Exact old.instructions n (uses_in p.fn) [] p.work
    pub fates : (i : ℕ) → Fate old p.fn i

  Ready-fewer :
      (f g : ℕ → ℕ) (ds : List ℕ)
      → ((v : ℕ) → g v ≤ f v)
      → All (Ready old.instructions f) ds
      → All (Ready old.instructions g) ds
  Ready-fewer f g [] le h = tt
  Ready-fewer f g (d ∷ ds) le h =
      let fewer = le h.0.0.result in
      let none_left = h.0.2 in ((h.0.0, h.0.1, omega arith), Ready-fewer f g ds le h.1)

  -- A live instruction of the later state is the old one but for its links.
  pub same_core :
      (fn : Function) (i : ℕ) {inst : Instruction}
      → Fate old fn i
      → get_elem? fn.instructions i ≡ some inst
      → is_none inst.opcode ≡ false
      → (was : Instruction) × (get_elem? old.instructions i ≡ some was) × (core inst ≡ core was)
  same_core fn i {inst = inst} (kept e) found live =
      let at : some (core inst) ≡ core_at old i = sym (ap core_of found) ∙ e in
      elim (Option-cases (get_elem? old.instructions i)) [
        | inl missing ↦ let r = rw missing at at in cc
        | inr there ↦ let r = rw there.1 at at in (there.0, there.1, cc)
      ]
  same_core fn i {inst = inst} (removed was at gone plain unused) found live =
      let both : some (core inst) ≡ some (core (cleared was)) = sym (ap core_of found) ∙ gone in
      let same : core inst ≡ core (cleared was) = cc in
      let dead = ap (λ c. is_none c.opcode) same in absurd (let differ = sym live ∙ dead in cc)

  dropped-Fate :
      (fn1 : Function) (i : ℕ) (inst was : Instruction)
      → get_elem? old.instructions i ≡ some was
      → core inst ≡ core was
      → core_at fn1 i ≡ some (core (cleared inst))
      → has_side_effects inst.opcode inst.flags ≡ false
      → uses_in fn1 inst.result ≡ 0
      → Fate old fn1 i
  dropped-Fate fn1 i inst was at same gone plain unused =
      removed was at (gone ∙ ap (λ (c : Core). some (cleared_core c)) same)
        (ap (λ (c : Core). has_side_effects c.opcode c.flags) (sym same) ∙ plain)
        (ap (λ (c : Core). uses_in fn1 c.result) (sym same) ∙ unused)

  Fate-later :
      (fn fn1 : Function) (j : ℕ)
      → core_at fn1 j ≡ core_at fn j
      → ((v : ℕ) → uses_in fn1 v ≤ uses_in fn v)
      → Fate old fn j
      → Fate old fn1 j
  Fate-later fn fn1 j same fewer (kept e) = kept (same ∙ e)
  Fate-later fn fn1 j same fewer (removed was at gone plain unused) =
      removed was at (same ∙ gone) plain (let few = fewer was.result in omega arith)

  -- What dropping one instruction does to the uses.
  pub dropped-split :
      (p : Pass) (n i : ℕ) (inst : Instruction) (ops : List Operand) (v : ℕ) {fn1 : Function}
      → Invariant n p
      → get_elem? p.fn.instructions i ≡ some inst
      → is_none inst.opcode ≡ false
      → read_operands p.fn inst ≡ done ops
      → remove_instruction p.fn i ≡ done fn1
      → uses_in fn1 v + occurs v ops ≡ uses_in p.fn v
  dropped-split p n i inst ops v {fn1 = fn1} h found live read gone =
      let slice = read_operands-slice p.fn inst live read in
      let at : operands_of old.operands (core inst) ≡ ops = rw h.pool at slice in
      let cleared_i = remove_instruction-cleared p.fn i inst found live gone in
      let others = λ (j : ℕ) (ne : i ≢ j). remove_instruction-core_at p.fn i j ne gone in
      let all =
        live_uses-removed old.operands p.fn.instructions fn1.instructions i v found cleared_i
          others in
      rw at at all

  -- The counts before the operands of the dropped instruction are taken from them.
  pub dropped-Exact :
      (p : Pass) (n i : ℕ) (rest : List ℕ) (inst : Instruction) (ops : List Operand)
      {fn1 : Function}
      → p.work.dead ≡ i ∷ rest
      → Invariant n p
      → get_elem? p.fn.instructions i ≡ some inst
      → is_none inst.opcode ≡ false
      → read_operands p.fn inst ≡ done ops
      → remove_instruction p.fn i ≡ done fn1
      → Exact old.instructions n (uses_in fn1) ops (popped p rest).work
  dropped-Exact p n i rest inst ops {fn1 = fn1} top h found live read gone =
      let ready = rw top at h.exact.ready in
      let split = λ (v : ℕ). dropped-split p n i inst ops v h found live read gone in
      record {
        counts = λ v below. let now = split v in h.exact.counts v below ∙ ap some (omega arith);
        ready =
            Ready-fewer (uses_in p.fn) (uses_in fn1) rest
              (λ v. let now = split v in omega (arith, now)) ready.1;
      }

  pub turn-Invariant :
      (n : ℕ) (ud : UseDef) (i : ℕ) (rest : List ℕ) (p q : Pass)
      → Defines old.instructions ud.def_inst
      → p.work.dead ≡ i ∷ rest
      → Invariant n p
      → Turned ud n i (popped p rest) q
      → Invariant n q
  turn-Invariant n ud i rest p q defs top h (skipped _ e) =
      let ready = rw top at h.exact.ready in
      rw (sym e) (record {
        pool = h.pool;
        exact = record { counts = h.exact.counts; ready = ready.1 };
        fates = h.fates;
      })
  turn-Invariant n ud i rest p q defs top h (dropped inst ops fn1 found live plain read gone e) =
      let ready = rw top at h.exact.ready in
      let cleared_i = remove_instruction-cleared p.fn i inst found live gone in
      let others = λ (j : ℕ) (ne : i ≢ j). remove_instruction-core_at p.fn i j ne gone in
      let split = λ (v : ℕ). dropped-split p n i inst ops v h found live read gone in
      let fewer = λ (v : ℕ).
        let now = split v in let le : uses_in fn1 v ≤ uses_in p.fn v = omega arith in le in
      let own = same_core p.fn i (h.fates i) found live in
      rw e (record {
        pool = remove_instruction-operands p.fn i gone ∙ h.pool;
        exact =
            release-Exact old.instructions n (uses_in fn1) ud p.fn ops (popped p rest).work defs
              (dropped-Exact p n i rest inst ops top h found live read gone);
        fates = λ j. elim (Bool-cases (i == j)) [
          | inl here ↦
              let is_i : i ≡ j = ground (arith, here) in
              rw (sym is_i) (
                dropped-Fate fn1 i inst own.0 own.1 own.2 cleared_i plain (
                  let few = fewer inst.result in
                  let by = ready.0 in
                  let both = sym by.1 ∙ own.1 in
                  let one : by.0 ≡ own.0 = cc in
                  let results = ap (λ c. c.result) own.2 in
                  let at_by = ap (λ k. uses_in p.fn k.result) one in
                  let at_own = ap (λ r. uses_in p.fn r) results in
                  let none_left = by.2 in omega arith))
          | inr there ↦
              let ne : i ≢ j = ground (arith, there) in
              Fate-later p.fn fn1 j (others j ne) fewer (h.fates j)
        ];
      })
