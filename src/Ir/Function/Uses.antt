-- ===== src/Ir/Function/Uses.antt =====
-- Replacing a value renames the operands of live instructions and no others.
use nybit.Base.{
  ℕ, zero, suc, ◌+◌, ◌≡◌, ◌≢◌, ◌∙◌, refl, sym, ap, arith, Bool, true, false, Option, none, some,
  Option-cases, Bool-cases, inl, inr, List, [], ◌∷◌, get_elem?, set, ltb, leb, ◌==◌, ◌&&◌, ◌||◌,
  not, if◌then◌else◌, get_elem?-set_self, get_elem?-set_ne, lt-length_of_get_elem?,
}
use nybit.Ir.Function.{
  Operand, Instruction, Function, is_none, adjust, adjust_found, renamed, rename_range, rename_all,
  replace_all_uses,
}

-- The operand at `j` stands in the range of a live instruction.
abbrev pub is_used : List Instruction → ℕ → Bool
is_used [] j = false
is_used (inst ∷ insts) j =
    not (is_none inst.opcode) && (leb inst.op_start j && ltb j (inst.op_start + inst.op_count))
    || is_used insts j

-- The operand at `j`, renamed where the test holds.
abbrev pub renamed_if : Bool → ℕ → ℕ → Option Operand → Option Operand
renamed_if false o n op = op
renamed_if true o n none = none
renamed_if true o n (some op) = some (renamed o n op)

module _ (o n : ℕ) where
  renamed_idem : o ≢ n → (op : Operand) → renamed o n (renamed o n op) ≡ renamed o n op
  renamed_idem h (Operand.value v) = ap Operand.value (ground arith)
  renamed_idem h _ = refl

  renamed_if_or :
      o ≢ n
      → (p q : Bool) (op : Option Operand)
      → renamed_if q o n (renamed_if p o n op) ≡ renamed_if (p || q) o n op
  renamed_if_or h false q op = refl
  renamed_if_or h true false op = refl
  renamed_if_or h true true none = refl
  renamed_if_or h true true (some op) = ap some (renamed_idem h op)

  get_elem?-adjust :
      (ops : List Operand) (i j : ℕ)
      → get_elem? (adjust ops i (renamed o n)) j ≡ renamed_if (i == j) o n (get_elem? ops j)
  get_elem?-adjust ops i j = elim (Bool-cases (i == j)) [
    | inl here ↦
        let same : i ≡ j = ground arith in
        elim (Option-cases (get_elem? ops i)) [
          | inl missing ↦
              let there : get_elem? ops j ≡ none = rw (sym same) missing in
              rw (adjust, missing, here, there) refl
          | inr found ↦
              let there : get_elem? ops j ≡ some found.0 = rw (sym same) found.1 in
              let after : get_elem? (set ops j (renamed o n found.0)) j
                  ≡ some (renamed o n found.0) =
                get_elem?-set_self ops j _ (lt-length_of_get_elem? ops j there) in
              rw (adjust_found ops i (renamed o n) found.1, here, there, same) after
        ]
    | inr apart ↦
        let ne : i ≢ j = ground arith in
        elim (Option-cases (get_elem? ops i)) [
          | inl missing ↦ rw (adjust, missing, apart) refl
          | inr found ↦
              rw (adjust_found ops i (renamed o n) found.1, apart) (get_elem?-set_ne ops _ ne)
        ]
  ]

  get_elem?-rename_range :
      o ≢ n
      → (ops : List Operand) (start c j : ℕ)
      → get_elem? (rename_range o n ops start c) j
        ≡ renamed_if (leb start j && ltb j (start + c)) o n (get_elem? ops j)
  get_elem?-rename_range h ops start zero j =
      let outside : (leb start j && ltb j (start + 0)) ≡ false = ground arith in rw outside refl
  get_elem?-rename_range h ops start (suc c) j =
      let covers : ((start == j) || (leb (suc start) j && ltb j (suc start + c)))
          ≡ (leb start j && ltb j (start + suc c)) =
        ground arith in
      get_elem?-rename_range h (adjust ops start (renamed o n)) (suc start) c j
      ∙ rw (get_elem?-adjust ops start j, sym covers)
          (renamed_if_or h (start == j) _ (get_elem? ops j))

  get_elem?-rename_all :
      o ≢ n
      → (insts : List Instruction) (ops : List Operand) (j : ℕ)
      → get_elem? (rename_all o n insts ops) j ≡ renamed_if (is_used insts j) o n (get_elem? ops j)
  get_elem?-rename_all h [] ops j = refl
  get_elem?-rename_all h (inst ∷ insts) ops j = elim (Bool-cases (is_none inst.opcode)) [
    | inl dead ↦ rw dead (get_elem?-rename_all h insts ops j)
    | inr live ↦ rw live (
        get_elem?-rename_all h insts (rename_range o n ops inst.op_start inst.op_count) j
        ∙ rw (get_elem?-rename_range h ops inst.op_start inst.op_count j)
            (renamed_if_or h _ (is_used insts j) (get_elem? ops j)))
  ]

renamed_if_self : (v : ℕ) (p : Bool) (op : Option Operand) → renamed_if p v v op ≡ op
renamed_if_self v false op = refl
renamed_if_self v true none = refl
renamed_if_self v true (some (Operand.value u)) = ap (λ t. some (Operand.value t)) (ground arith)
renamed_if_self v true (some _) = refl

renamed-ne : (o n : ℕ) (op : Operand) → o ≢ n → renamed o n op ≢ Operand.value o
renamed-ne o n (Operand.value v) h e =
    let e' : (if v == o then n else v) ≡ o = cc in absurd (ground arith)
renamed-ne o n _ h e = cc

-- After `replace_all_uses` an operand in the range of a live instruction is the old one renamed
-- from the old value to the new one, and every other operand is what it was.
pub get_elem?-replace_all_uses :
    (fn : Function) (old_val new_val j : ℕ)
    → get_elem? (replace_all_uses fn old_val new_val).operands j
      ≡ renamed_if (is_used fn.instructions j) old_val new_val (get_elem? fn.operands j)
unfolding replace_all_uses
get_elem?-replace_all_uses fn old_val new_val j = elim (Bool-cases (old_val == new_val)) [
  | inl same ↦
      let eq : new_val ≡ old_val = ground arith in
      let test : (old_val == old_val) ≡ true = ground arith in
      rw (eq, test)
        (sym (renamed_if_self old_val (is_used fn.instructions j) (get_elem? fn.operands j)))
  | inr apart ↦
      rw apart (get_elem?-rename_all old_val new_val (ground arith) fn.instructions fn.operands j)
]

-- After `replace_all_uses` of a value by a different one, no operand in the range of a live
-- instruction is the old value.
pub replace_all_uses_gone :
    (fn : Function) (old_val new_val j : ℕ)
    → old_val ≢ new_val
    → is_used fn.instructions j ≡ true
    → get_elem? (replace_all_uses fn old_val new_val).operands j ≢ some (Operand.value old_val)
replace_all_uses_gone fn old_val new_val j ne used e =
    let e' = rw (get_elem?-replace_all_uses fn old_val new_val j, used) at e in
    elim (Option-cases (get_elem? fn.operands j)) [
      | inl missing ↦ let e'' = rw missing at e' in cc
      | inr found ↦ let e'' = rw found.1 at e' in renamed-ne old_val new_val found.0 ne cc
    ]
