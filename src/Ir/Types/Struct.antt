-- ===== src/Ir/Types/Struct.antt =====
-- src/ir/types.c: struct types and their layout, in the arithmetic of `uint32_t`.
use nybit.Base.{
  ℕ, ◌+◌, ◌-◌, ◌%◌, ◌^◌, ◌&&◌, Option, none, some, List, [], ◌∷◌, ◌++◌, length, get_elem?,
  find_index, set, bytes_eq, ltb, ◌==◌, if◌then◌else◌,
}
use nybit.Ir.Types.{
  Kind, IrType, TypeTable, is_struct_kind, zeroed, push, type_get, type_size, type_align,
  invalid_type,
}

pub record Placement : Type 0 where
  pub offsets : List ℕ
  pub current_offset : ℕ
  pub max_align : ℕ

-- The next multiple of the alignment.
abbrev pub align_up : ℕ → ℕ → ℕ
align_up offset align =
    if offset % align == 0 then offset else (offset + (align - offset % align)) % 2 ^ 32

-- `if (f_align == 0) f_align = 1;`
abbrev pub field_align : TypeTable → ℕ → ℕ
field_align tt f = let a = type_align tt f in if a == 0 then 1 else a

-- The loop over the fields of `ny_type_table_add_struct`.
unfoldable pub place_fields : TypeTable → List ℕ → ℕ → ℕ → Placement
place_fields tt [] current_offset max_align = record {
  offsets = [];
  current_offset = current_offset;
  max_align = max_align;
}
place_fields tt (f ∷ fields) current_offset max_align =
    let a = field_align tt f in
    let offset = align_up current_offset a in
    let rest =
      place_fields tt fields ((offset + type_size tt f) % 2 ^ 32)
        (if ltb max_align a then a else max_align) in
    record rest { offsets = offset ∷ rest.offsets }

-- The entry that `ny_type_table_add_struct` leaves for the table `tt` in which its own, still
-- blank entry stands last.
unfoldable pub struct_entry : TypeTable → List ℕ → List ℕ → IrType
unfolding place_fields
struct_entry tt name fields =
    let p = place_fields tt fields 0 1 in
    record zeroed {
      kind = Kind.struct;
      size = if ltb 0 p.max_align then align_up p.current_offset p.max_align else p.current_offset;
      align = p.max_align;
      field_types = fields;
      field_offsets = p.offsets;
      name = name;
    }

abbrev pub blank_struct : IrType
blank_struct = record zeroed { kind = Kind.struct }

abbrev pub find_struct : TypeTable → Option (List ℕ) → Option ℕ
find_struct tt none = none
find_struct tt (some name) =
    find_index (λ t. is_struct_kind t.kind && bytes_eq t.name name) tt.types 0

-- `struct_%u`
abbrev struct_prefix : List ℕ
struct_prefix = b's' ∷ b't' ∷ b'r' ∷ b'u' ∷ b'c' ∷ b't' ∷ b'_' ∷ []

abbrev pub struct_text : (ℕ → List ℕ) → ℕ → Option (List ℕ) → List ℕ
struct_text print_u32 id (some name) = name
struct_text print_u32 id none = struct_prefix ++ print_u32 id

-- `ny_type_table_add_struct`; `print_u32` is what `snprintf` writes for `%u`.
unfoldable pub add_struct : (ℕ → List ℕ) → TypeTable → Option (List ℕ) → List ℕ → TypeTable × ℕ
unfolding struct_entry
add_struct print_u32 tt name fields = elim (find_struct tt name) [
  | some i ↦ (tt, i)
  | none ↦
      let id = length tt.types in
      let blank = push tt blank_struct in
      (
        record blank {
          types = set blank.types id (struct_entry blank (struct_text print_u32 id name) fields);
        },
        id,
      )
]

-- `ny_type_struct_field_offset`, 0 where there is no such field
unfoldable pub struct_field_offset : TypeTable → ℕ → ℕ → ℕ
unfolding type_get
struct_field_offset tt id field_idx = elim (type_get tt id) [
  | none ↦ 0
  | some t ↦
      if is_struct_kind t.kind
      then (elim (get_elem? t.field_offsets field_idx) [ some o ↦ o | none ↦ 0 ])
      else 0
]

-- `ny_type_struct_field_type`
unfoldable pub struct_field_type : TypeTable → ℕ → ℕ → ℕ
unfolding type_get
struct_field_type tt id field_idx = elim (type_get tt id) [
  | none ↦ invalid_type
  | some t ↦
      if is_struct_kind t.kind
      then (elim (get_elem? t.field_types field_idx) [ some f ↦ f | none ↦ invalid_type ])
      else invalid_type
]
