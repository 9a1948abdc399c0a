-- ===== src/Opt/Gvn/Pass/Visit.antt =====
-- What a visit of src/opt/gvn.c does to the function.
use nybit.Base.{
  ℕ, ◌≡◌, ◌⊎◌, inl, inr, refl, sym, ap, subst, ◌∙◌, arith, Bool, true, false, Bool-cases,
  Option-cases, Option, none, some, List, [], ◌∷◌, ◌++◌, ◌==◌, if◌then◌else◌,
}
use nybit.Base.Outcome.{Outcome, done, aborted, faulted, bind_inv}
use nybit.Ir.Function.{Instruction, replace_all_uses}
use nybit.Ir.Function.Remove.{remove_instruction}
use nybit.Analysis.Dominator.{DominatorTree, dominates}
use nybit.Opt.Gvn.{Key, gvn_key_equal, make_gvn_key}
use nybit.Opt.Gvn.Pass.{
  Available, Numbering, and_then, can_replace, find_match, use_match, is_shared, visit,
}

pub and_then_inv {ℓ κ} :
    {A : Type ℓ} {B : Type κ} (o : Outcome (Option A)) (f : A → Outcome (Option B)) {y : B}
    → and_then o f ≡ done (some y)
    → (x : A) × (o ≡ done (some x)) × (f x ≡ done (some y))
and_then_inv (done (some x)) f e = (x, refl, e)
and_then_inv (done none) f e = cc
and_then_inv aborted f e = cc
and_then_inv faulted f e = cc

-- The entry's value is known in the block.
abbrev pub Reaches : DominatorTree → Available → ℕ → Type 0
Reaches dt cand b_id = (cand.blk_id ≡ b_id) ⊎ (dominates dt cand.blk_id b_id ≡ done (some true))

-- The entry is one of the table.
pub data InTable (cand : Available) : List Available → Type 0 where
  here : {c : Available} {table : List Available} → cand ≡ c → InTable cand (c ∷ table)
  there : {c : Available} {table : List Available} → InTable cand table → InTable cand (c ∷ table)

-- A match is an entry of the table with an equal key that is known in the block.
pub record IsMatch (dt : DominatorTree) (b_id : ℕ) (key : Key) (table : List Available)
    (cand : Available) : Type 0 where
  pub listed : InTable cand table
  pub equal : gvn_key_equal cand.key key ≡ true
  pub reaches : Reaches dt cand b_id

abbrev later :
    {dt : DominatorTree} {b_id : ℕ} {key : Key} {c : Available} {table : List Available}
    {cand : Available}
    → IsMatch dt b_id key table cand
    → IsMatch dt b_id key (c ∷ table) cand
later h = record { listed = there h.listed; equal = h.equal; reaches = h.reaches }

-- By the branch that an `if` took.
else_inv {ℓ κ} :
    {A : Type ℓ} {B : Type κ} (b : Bool) (x y : A) {z : A}
    → (if b then x else y) ≡ z
    → (b ≡ true → B)
    → (y ≡ z → B)
    → B
else_inv true x y e yes_case no_case = yes_case refl
else_inv false x y e yes_case no_case = no_case e

can_replace-Reaches :
    (dt : DominatorTree) (cand : Available) (b_id : ℕ)
    → can_replace dt cand b_id ≡ done (some true)
    → Reaches dt cand b_id
unfolding can_replace
can_replace-Reaches dt cand b_id e =
    else_inv (cand.blk_id == b_id) (done (some true)) (dominates dt cand.blk_id b_id) e
      (λ own. inl (ground (arith, own))) inr

find_match-IsMatch :
    (dt : DominatorTree) (b_id : ℕ) (key : Key) (table : List Available) {cand : Available}
    → find_match dt b_id key table ≡ done (some (some cand))
    → IsMatch dt b_id key table cand
unfolding find_match
find_match-IsMatch dt b_id key [] e = cc
find_match-IsMatch dt b_id key (c ∷ table) {cand = cand} e =
    elim (Bool-cases (gvn_key_equal c.key key)) [
      | inr differ ↦
          let e1 : find_match dt b_id key table ≡ done (some (some cand)) = rw differ at e in
          later (find_match-IsMatch dt b_id key table e1)
      | inl equal ↦
          let two = and_then_inv (can_replace dt c b_id) _ (rw equal at e) in
          elim (Bool-cases two.0) [
            | inl yes_reaches ↦
                let r : ◌≡◌ {A = Outcome (Option (Option Available))} (done (some (some c)))
                    (done (some (some cand))) =
                  rw yes_reaches at two.2 in
                let same : c ≡ cand = cc in
                subst (IsMatch dt b_id key (c ∷ table)) same (record {
                  listed = here refl;
                  equal = equal;
                  reaches =
                      can_replace-Reaches dt c b_id
                        (two.1 ∙ ap (λ (y : Bool). done (some y)) yes_reaches);
                })
            | inr not_reached ↦
                let e1 : find_match dt b_id key table ≡ done (some (some cand)) =
                  rw not_reached at two.2 in
                later (find_match-IsMatch dt b_id key table e1)
          ]
    ]

-- A visit leaves everything, notes the value under its key, or replaces its result by a match
-- and removes it.
pub data Visited (dt : DominatorTree) (b_id : ℕ) (inst : Instruction) (st st1 : Numbering)
    : Type 0 where
  skipped : is_shared inst ≡ false → st1 ≡ st → Visited dt b_id inst st st1
  noted :
      (key : Key)
      → is_shared inst ≡ true
      → make_gvn_key st.fn inst ≡ done key
      → st1 ≡ record st {
        table = st.table ++ record { key = key; val = inst.result; blk_id = b_id } ∷ [];
      }
      → Visited dt b_id inst st st1
  replaced :
      (key : Key) (cand : Available)
      → is_shared inst ≡ true
      → make_gvn_key st.fn inst ≡ done key
      → IsMatch dt b_id key st.table cand
      → remove_instruction (replace_all_uses st.fn inst.result cand.val) inst.id ≡ done st1.fn
      → st1.table ≡ st.table
      → Visited dt b_id inst st st1

of_state {ℓ} :
    {A : Type ℓ} (f : Numbering → A) {x y : Numbering} → done (some x) ≡ done (some y) → f x ≡ f y
of_state f e = ap f cc

-- A visit of value numbering that returns does one of three things: it leaves the state as it
-- is for an instruction that is not shared; it notes the result under its key; or it replaces
-- the result by an entry of the table with an equal key that lies in the same block or in one
-- that dominates it, removes the instruction, and keeps the table.
pub visit-Visited :
    (dt : DominatorTree) (b_id : ℕ) (inst : Instruction) (st : Numbering) {st1 : Numbering}
    → visit dt b_id inst st ≡ done (some st1)
    → Visited dt b_id inst st st1
unfolding visit
visit-Visited dt b_id inst st {st1 = st1} e = elim (Bool-cases (is_shared inst)) [
  | inr plain ↦
      let r : ◌≡◌ {A = Outcome (Option Numbering)} (done (some st)) (done (some st1)) =
        rw (visit, plain) at e in
      skipped plain cc
  | inl shared ↦
      let first = bind_inv (make_gvn_key st.fn inst) _ (rw (visit, shared) at e) in
      let key = first.0 in
      let found = and_then_inv (find_match dt b_id key st.table) _ first.2 in
      elim (Option-cases found.0) [
        | inl missing ↦
            let r : use_match b_id inst key st none ≡ done (some st1) = rw missing at found.2 in
            noted key shared first.1 cc
        | inr match ↦
            let cand = match.0 in
            let r : use_match b_id inst key st (some cand) ≡ done (some st1) =
              rw match.1 at found.2 in
            let gone =
              bind_inv (remove_instruction (replace_all_uses st.fn inst.result cand.val) inst.id) _
                r in
            let made = gone.2 in
            let fns : gone.0 ≡ st1.fn = of_state (λ s. s.fn) made in
            let tables : st.table ≡ st1.table = of_state (λ s. s.table) made in
            replaced key cand shared first.1
              (find_match-IsMatch dt b_id key st.table (rw match.1 at found.1))
              (gone.1 ∙ ap done fns) (sym tables)
      ]
]
