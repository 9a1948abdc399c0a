-- ===== src/Opt/Gvn/Keys.antt =====
-- What equal keys of src/opt/gvn.c say of the two instructions.
use nybit.Base.{
  ℕ, ◌≤◌, ◌≡◌, ◌⊎◌, inl, inr, ◌∙◌, refl, sym, ap, subst, arith, Bool, true, false, ◌&&◌, ◌||◌, not,
  Bool-cases, List, [], ◌∷◌, length, ltb, ◌==◌, if◌then◌else◌,
}
use nybit.Ir.Opcode.{Opcode}
use nybit.Ir.Opcode.Code.{code, code_injective}
use nybit.Ir.Function.{Operand}
use nybit.Opt.Common.{is_commutative}
use nybit.Opt.Gvn.{Key, float_equal, operand_equal, gvn_key_equal, swaps, key_of}

-- The same operand, or two floating constants that compare equal.
pub data Alike (a b : Operand) : Type 0 where
  same : a ≡ b → Alike a b
  same_float :
      (x y : ℕ)
      → a ≡ Operand.imm_float x
      → b ≡ Operand.imm_float y
      → float_equal x y ≡ true
      → Alike a b

abbrev pub AllAlike : List Operand → List Operand → Type 0
AllAlike [] [] = Unit {0}
AllAlike [] (b ∷ ys) = ⊥
AllAlike (a ∷ xs) [] = ⊥
AllAlike (a ∷ xs) (b ∷ ys) = Alike a b × AllAlike xs ys

abbrev pub swap : List Operand → List Operand
swap (a ∷ b ∷ []) = b ∷ a ∷ []
swap ops = ops

number_same : (f : ℕ → Operand) (a b : ℕ) → (a == b) ≡ true → Alike (f a) (f b)
number_same f a b h = let e : a ≡ b = ground (arith, h) in same (ap f e)

operand_equal-Alike : (a b : Operand) → operand_equal a b ≡ true → Alike a b
unfolding operand_equal
operand_equal-Alike Operand.empty Operand.empty h = same refl
operand_equal-Alike (Operand.value a) (Operand.value b) h = number_same Operand.value a b h
operand_equal-Alike (Operand.block a) (Operand.block b) h = number_same Operand.block a b h
operand_equal-Alike (Operand.imm_int a) (Operand.imm_int b) h = number_same Operand.imm_int a b h
operand_equal-Alike (Operand.imm_float a) (Operand.imm_float b) h = same_float a b refl refl h
operand_equal-Alike (Operand.function a) (Operand.function b) h = number_same Operand.function a b h
operand_equal-Alike (Operand.symbol a) (Operand.symbol b) h = number_same Operand.symbol a b h
operand_equal-Alike (Operand.type_of a) (Operand.type_of b) h = number_same Operand.type_of a b h
operand_equal-Alike _ _ h = cc

-- What the comparison of two keys has tested.
record Agree (a b : Key) : Type 0 where
  opcode : a.opcode ≡ b.opcode
  type : a.type ≡ b.type
  op_count : a.op_count ≡ b.op_count
  first : ltb 0 a.op_count ≡ true → Alike a.op0 b.op0
  second : ltb 1 a.op_count ≡ true → Alike a.op1 b.op1
  third : ltb 2 a.op_count ≡ true → Alike a.op2 b.op2

-- The chain of tests, from the last one up.
guard_inv :
    (c o rest : Bool)
    → (if c && not o then false else rest) ≡ true
    → (c ≡ true → o ≡ true) × (rest ≡ true)
guard_inv c o rest h = ((λ more. ground (arith, h, more)), ground (arith, h))

heads_inv :
    (e1 e2 e3 rest : Bool)
    → (if not e1 || not e2 || not e3 then false else rest) ≡ true
    → (e1 ≡ true) × (e2 ≡ true) × (e3 ≡ true) × (rest ≡ true)
heads_inv e1 e2 e3 rest h =
    (ground (arith, h), ground (arith, h), ground (arith, h), ground (arith, h))

gvn_key_equal-Agree : (a b : Key) → gvn_key_equal a b ≡ true → Agree a b
unfolding gvn_key_equal
gvn_key_equal-Agree a b h =
    let heads =
      heads_inv (code a.opcode == code b.opcode) (a.type == b.type) (a.op_count == b.op_count) _
        h in
    let one = guard_inv (ltb 0 a.op_count) (operand_equal a.op0 b.op0) _ heads.3 in
    let two = guard_inv (ltb 1 a.op_count) (operand_equal a.op1 b.op1) _ one.1 in
    let three = guard_inv (ltb 2 a.op_count) (operand_equal a.op2 b.op2) _ two.1 in
    let types = heads.1 in
    let counts = heads.2 in
    record {
      opcode = code_injective a.opcode b.opcode heads.0;
      type = ground (arith, types);
      op_count = ground (arith, counts);
      first = λ more. operand_equal-Alike a.op0 b.op0 (one.0 more);
      second = λ more. operand_equal-Alike a.op1 b.op1 (two.0 more);
      third = λ more. operand_equal-Alike a.op2 b.op2 (three.0 more);
    }

-- The operands are alike in this order; or the opcode is commutative and they are alike once the
-- two operands of the one have changed places.
abbrev pub SameOperands : Opcode → List Operand → List Operand → Type 0
SameOperands opcode xs ys =
    AllAlike xs ys ⊎ ((is_commutative opcode ≡ true) × AllAlike (swap xs) ys)

free-SameOperands :
    (opcode : Opcode) (x0 x1 y0 y1 : Operand) (s1 s2 : Bool)
    → is_commutative opcode ≡ true
    → Alike (if s1 then x1 else x0) (if s2 then y1 else y0)
    → Alike (if s1 then x0 else x1) (if s2 then y0 else y1)
    → SameOperands opcode (x0 ∷ x1 ∷ []) (y0 ∷ y1 ∷ [])
free-SameOperands opcode x0 x1 y0 y1 true true free a0 a1 = inl (a1, (a0, tt))
free-SameOperands opcode x0 x1 y0 y1 true false free a0 a1 = inr (free, (a0, (a1, tt)))
free-SameOperands opcode x0 x1 y0 y1 false true free a0 a1 = inr (free, (a1, (a0, tt)))
free-SameOperands opcode x0 x1 y0 y1 false false free a0 a1 = inl (a0, (a1, tt))

pair-SameOperands :
    (opcode : Opcode) (s1 s2 : Bool) (x0 x1 y0 y1 : Operand)
    → Alike
        (if is_commutative opcode && s1 then x1 else x0)
        (if is_commutative opcode && s2 then y1 else y0)
    → Alike
        (if is_commutative opcode && s1 then x0 else x1)
        (if is_commutative opcode && s2 then y0 else y1)
    → SameOperands opcode (x0 ∷ x1 ∷ []) (y0 ∷ y1 ∷ [])
pair-SameOperands opcode s1 s2 x0 x1 y0 y1 h0 h1 = elim (Bool-cases (is_commutative opcode)) [
  | inr fixed ↦ inl (rw fixed at h0, (rw fixed at h1, tt))
  | inl free ↦ free-SameOperands opcode x0 x1 y0 y1 s1 s2 free (rw free at h0) (rw free at h1)
]

-- A list is not longer than three.
abbrev IsShort : List Operand → Type 0
IsShort ops = length ops ≤ 3

and_false : (b : Bool) → (b && false) ≡ false
and_false true = refl
and_false false = refl

Agree-SameOperands :
    (opcode : Opcode) (t1 t2 : ℕ) (xs ys : List Operand)
    → IsShort xs
    → IsShort ys
    → Agree (key_of opcode t1 xs) (key_of opcode t2 ys)
    → SameOperands opcode xs ys
unfolding key_of
Agree-SameOperands opcode t1 t2 [] [] hx hy h = inl tt
Agree-SameOperands opcode t1 t2 (x ∷ []) (y ∷ []) hx hy h =
    inl (rw (and_false (is_commutative opcode)) at (h.first refl), tt)
Agree-SameOperands opcode t1 t2 (x0 ∷ x1 ∷ []) (y0 ∷ y1 ∷ []) hx hy h =
    pair-SameOperands opcode (swaps x0 x1) (swaps y0 y1) x0 x1 y0 y1 (h.first refl) (h.second refl)
Agree-SameOperands opcode t1 t2 (x0 ∷ x1 ∷ x2 ∷ []) (y0 ∷ y1 ∷ y2 ∷ []) hx hy h =
    let fixed = and_false (is_commutative opcode) in
    inl (rw fixed at (h.first refl), (rw fixed at (h.second refl), (h.third refl, tt)))
Agree-SameOperands opcode t1 t2 xs ys hx hy h = absurd (let counts = h.op_count in omega arith)

-- For operand lists of at most three operands, equal keys mean the same opcode, the same result
-- type, and pairwise the same operands or floating constants that compare equal, either in the
-- same order or, for a commutative opcode, after the two operands of the first have changed
-- places.
pub gvn_key_equal-key_of :
    (op1 op2 : Opcode) (t1 t2 : ℕ) (xs ys : List Operand)
    → length xs ≤ 3
    → length ys ≤ 3
    → gvn_key_equal (key_of op1 t1 xs) (key_of op2 t2 ys) ≡ true
    → (op1 ≡ op2) × (t1 ≡ t2) × SameOperands op1 xs ys
unfolding key_of
gvn_key_equal-key_of op1 op2 t1 t2 xs ys hx hy h =
    let agree = gvn_key_equal-Agree (key_of op1 t1 xs) (key_of op2 t2 ys) h in
    let opcode : op1 ≡ op2 = agree.opcode in
    let type : t1 ≡ t2 = agree.type in
    (
      opcode,
      type,
      Agree-SameOperands op1 t1 t2 xs ys hx hy
          (subst (λ k. Agree (key_of op1 t1 xs) (key_of k t2 ys)) (sym opcode) agree),
    )

abbrev pub is_value : Operand → Bool
is_value (Operand.value v) = true
is_value _ = false

values_comm :
    (opcode : Opcode) (type a b : ℕ)
    → is_commutative opcode ≡ true
    → key_of opcode type (Operand.value a ∷ Operand.value b ∷ [])
      ≡ key_of opcode type (Operand.value b ∷ Operand.value a ∷ [])
unfolding key_of
values_comm opcode type a b free = elim (Bool-cases (ltb b a)) [
  | inl more ↦ let less : ltb a b ≡ false = ground (arith, more) in rw (free, more, less) refl
  | inr low ↦ elim (Bool-cases (ltb a b)) [
    | inl less ↦ rw (free, low, less) refl
    | inr low2 ↦
        let e : a ≡ b = ground (arith, low, low2) in
        ap (λ c. key_of opcode type (Operand.value c ∷ Operand.value b ∷ [])) e
        ∙ ap (λ c. key_of opcode type (Operand.value b ∷ Operand.value c ∷ [])) (sym e)
  ]
]

-- For a commutative opcode with two operands of which at least one is a value, the key is the
-- same for both orders of the operands.
pub key_of_comm :
    (opcode : Opcode) (type : ℕ) (x y : Operand)
    → is_commutative opcode ≡ true
    → (is_value x || is_value y) ≡ true
    → key_of opcode type (x ∷ y ∷ []) ≡ key_of opcode type (y ∷ x ∷ [])
unfolding key_of
key_of_comm opcode type (Operand.value a) (Operand.value b) free one =
    values_comm opcode type a b free
key_of_comm opcode type (Operand.value a) y free one = rw free refl
key_of_comm opcode type x (Operand.value b) free one = rw free refl
key_of_comm opcode type x y free one = cc
