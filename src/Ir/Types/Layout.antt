-- ===== src/Ir/Types/Layout.antt =====
-- The layout of a struct: fields stand in order, aligned, apart, and inside the struct.
use nybit.Base.{
  ℕ, ◌+◌, ◌-◌, ◌%◌, ◌^◌, ◌≤◌, ◌<◌, ◌≡◌, arith, refl, List, [], ◌∷◌, ◌*◌, ◌/◌, ltb, lt→ltb, inl, inr,
  Bool-cases, ◌==◌, if◌then◌else◌, All,
}
use nybit.Base.Bits.{quot_rem}
use native.Mathlib.Nat.{mod-lt, mod-eq_of_lt, div-add-mod}
use nybit.Ir.Types.{TypeTable, type_size}
use nybit.Ir.Types.Struct.{align_up, field_align, place_fields, struct_entry}

-- The fields stand at the offsets, one after the other from `start` to `end`: each at a multiple
-- of its alignment, behind the one before, with less than its alignment of padding.
abbrev pub Placed : TypeTable → ℕ → List ℕ → List ℕ → ℕ → Type 0
Placed table start [] [] end = start ≡ end
Placed table start [] (o ∷ os) end = ⊥
Placed table start (f ∷ fs) [] end = ⊥
Placed table start (f ∷ fs) (o ∷ os) end =
    (o % field_align table f ≡ 0)
    × (start ≤ o)
    × (o < start + field_align table f)
    × Placed table (o + type_size table f) fs os end

-- A bound for the space that the fields take, padding included.
abbrev pub room : TypeTable → List ℕ → ℕ
room table [] = 0
room table (f ∷ fs) = type_size table f + field_align table f + room table fs

field_align_pos : (table : TypeTable) (f : ℕ) → 1 ≤ field_align table f
field_align_pos table f = ground arith

pub align_up_mod : (x a : ℕ) → 1 ≤ a → (x + (a - x % a)) % a ≡ 0
align_up_mod x a h =
    let below : x % a < a = mod-lt x h in
    let whole : x + (a - x % a) ≡ (x / a + 1) * a + 0 = ground (arith, div-add-mod x a) in
    (quot_rem {q = x / a + 1} {r = 0} {m = a} whole h).1

align_up_lem :
    (x a : ℕ)
    → 1 ≤ a
    → x + a < 2 ^ 32
    → (align_up x a % a ≡ 0) × (x ≤ align_up x a) × (align_up x a < x + a)
align_up_lem x a h fits = elim (Bool-cases (x % a == 0)) [
  | inl whole ↦ rw whole (ground arith)
  | inr part ↦
      let below : x % a < a = mod-lt x h in
      let same : (x + (a - x % a)) % 2 ^ 32 ≡ x + (a - x % a) = mod-eq_of_lt (ground arith) in
      rw (part, same) (align_up_mod x a h, omega arith, ground arith)
]

module _ (table : TypeTable) where
  pub place_fields-Placed :
      (fields : List ℕ) (start m : ℕ)
      → start + room table fields < 2 ^ 32
      → Placed table start fields
          (place_fields table fields start m).offsets
          (place_fields table fields start m).current_offset
  unfolding place_fields
  place_fields-Placed [] start m h = refl
  place_fields-Placed (f ∷ fs) start m h =
      let a = field_align table f in
      let up = align_up_lem start a (field_align_pos table f) (ground arith) in
      let next = align_up start a + type_size table f in
      let within : next + room table fs < 2 ^ 32 = ground arith in
      let same : next % 2 ^ 32 ≡ next = mod-eq_of_lt (omega arith) in
      (up.0, up.1, up.2, rw same (place_fields-Placed fs next (if ltb m a then a else m) within))

  -- The alignment that the loop returns is at least the one it starts with and that of each field.
  place_fields-max_align :
      (fields : List ℕ) (start m : ℕ)
      → (m ≤ (place_fields table fields start m).max_align)
        × All (λ f. field_align table f ≤ (place_fields table fields start m).max_align) fields
  unfolding place_fields
  place_fields-max_align [] start m = (omega arith, tt)
  place_fields-max_align (f ∷ fs) start m =
      let a = field_align table f in
      let rest =
        place_fields-max_align fs ((align_up start a + type_size table f) % 2 ^ 32)
          (if ltb m a then a else m) in
      (ground arith, (ground arith, rest.1))

-- Fields that stand in order end within their room.
Placed-end :
    (table : TypeTable) (fields os : List ℕ) {start end : ℕ}
    → Placed table start fields os end
    → (start ≤ end) × (end ≤ start + room table fields)
Placed-end table [] [] h = ground arith
Placed-end table [] (o ∷ os) h = absurd h
Placed-end table (f ∷ fs) [] h = absurd h
Placed-end table (f ∷ fs) (o ∷ os) {start = start} h =
    let rest = Placed-end table fs os h.3 in
    let above : start ≤ o = h.1 in let below : o < start + field_align table f = h.2 in omega arith

-- A struct of the fields that is laid out as it should be, at the offsets and with `end` behind
-- the last field.
pub record IsLaidOut (table : TypeTable) (fields offsets : List ℕ) (end size align : ℕ)
    : Type 0 where
  pub placed : Placed table 0 fields offsets end
  pub aligned : All (λ f. field_align table f ≤ align) fields
  pub whole : size % align ≡ 0
  pub holds_fields : end ≤ size
  pub tight : size < end + align

-- Where the fields with their padding and the alignment fit in 32 bits, a struct's fields stand
-- in order, each at a multiple of its alignment, behind the one before and with less than its
-- alignment of padding; the alignment is at least that of each field; and the size is the
-- multiple of the alignment that holds the fields with less than one alignment to spare.
pub struct_entry-IsLaidOut :
    (table : TypeTable) (name fields : List ℕ)
    → room table fields + (struct_entry table name fields).align < 2 ^ 32
    → (end : ℕ) × IsLaidOut table fields
        (struct_entry table name fields).field_offsets
        end
        (struct_entry table name fields).size
        (struct_entry table name fields).align
unfolding struct_entry
struct_entry-IsLaidOut table name fields h =
    let p = place_fields table fields 0 1 in
    let widest = place_fields-max_align table fields 0 1 in
    let placed = place_fields-Placed table fields 0 1 (omega arith) in
    let within = Placed-end table fields p.offsets placed in
    let some_align : 1 ≤ p.max_align = widest.0 in
    let up = align_up_lem p.current_offset p.max_align some_align (omega arith) in
    (
      p.current_offset,
      rw (lt→ltb 0 p.max_align some_align) (record {
        placed = placed;
        aligned = widest.1;
        whole = up.0;
        holds_fields = up.1;
        tight = up.2;
      }),
    )
