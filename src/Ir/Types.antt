-- ===== src/Ir/Types.antt =====
-- src/ir/types.c: the table of types. `capacity` is the room of the C array `types`, so that a
-- pointer into the array that outlives a `realloc` shows. Names are lists of bytes.
pub mod Struct
pub mod Layout
pub mod Intern
pub mod Share
use nybit.Base.{
  ℕ, suc, ◌+◌, ◌-◌, ◌*◌, ◌%◌, ◌^◌, Bool, true, false, ◌&&◌, ◌||◌, not, Option, none, some, List, [],
  ◌∷◌, ◌++◌, length, get_elem?, find_index, bytes_eq, ltb, leb, ◌==◌, if◌then◌else◌,
}
use nybit.Base.Outcome.{Outcome, done, aborted, faulted, ◌>>=◌}
use nybit.Ir.TypeId

-- `Ny_Type_Kind`
pub data Kind : Type 0 where
  primitive pointer vector array struct : Kind

abbrev pub is_vector_kind : Kind → Bool
is_vector_kind Kind.vector = true
is_vector_kind _ = false

abbrev pub is_array_kind : Kind → Bool
is_array_kind Kind.array = true
is_array_kind _ = false

abbrev pub is_struct_kind : Kind → Bool
is_struct_kind Kind.struct = true
is_struct_kind _ = false

-- `Ny_Type`. The two field arrays have one length, `field_count`.
pub record IrType : Type 0 where
  pub kind : Kind
  pub size : ℕ
  pub align : ℕ
  pub elem_type : ℕ
  pub vector_lanes : ℕ
  pub array_count : ℕ
  pub field_types : List ℕ
  pub field_offsets : List ℕ
  pub name : List ℕ

pub record TypeTable : Type 0 where
  pub types : List IrType
  pub capacity : ℕ

abbrev pub invalid_type : ℕ
invalid_type = 2 ^ 32 - 1

-- The entry after `memset(t, 0, sizeof(Ny_Type))`.
abbrev pub zeroed : IrType
zeroed = record {
  kind = Kind.primitive;
  size = 0;
  align = 0;
  elem_type = 0;
  vector_lanes = 0;
  array_count = 0;
  field_types = [];
  field_offsets = [];
  name = [];
}

-- `ny_type_get`
unfoldable pub type_get : TypeTable → ℕ → Option IrType
type_get tt id = get_elem? tt.types id

-- `ny_type_size`
unfoldable pub type_size : TypeTable → ℕ → ℕ
unfolding type_get
type_size tt id = elim (type_get tt id) [ some t ↦ t.size | none ↦ 0 ]

-- `ny_type_align`
unfoldable pub type_align : TypeTable → ℕ → ℕ
unfolding type_get
type_align tt id = elim (type_get tt id) [ some t ↦ t.align | none ↦ 1 ]

-- `ny_type_is_integer`, `ny_type_is_float`
unfoldable pub type_is_integer : ℕ → Bool
type_is_integer id = leb TypeId.i8 id && leb id TypeId.i128

unfoldable pub type_is_float : ℕ → Bool
type_is_float id = leb TypeId.f16 id && leb id TypeId.f64

-- `ny_type_is_vector`, `ny_type_is_aggregate`
unfoldable pub type_is_vector : TypeTable → ℕ → Bool
unfolding type_get
type_is_vector tt id = elim (type_get tt id) [ some t ↦ is_vector_kind t.kind | none ↦ false ]

unfoldable pub type_is_aggregate : TypeTable → ℕ → Bool
unfolding type_get
type_is_aggregate tt id = elim (type_get tt id) [
  | some t ↦ is_struct_kind t.kind || is_array_kind t.kind
  | none ↦ false
]

-- `ny_buf_grow` on the array of types: the capacity is doubled where the array is full, which
-- moves the array.
abbrev pub is_full : TypeTable → Bool
is_full tt = leb tt.capacity (length tt.types)

abbrev pub push : TypeTable → IrType → TypeTable
push tt t = record {
  types = tt.types ++ t ∷ [];
  capacity = if is_full tt then 2 * tt.capacity else tt.capacity;
}

-- `ny_type_table_add_pointer`
unfoldable pub add_pointer : TypeTable → ℕ → ℕ
add_pointer tt pointee = TypeId.ptr

-- The end of `ny_type_table_add_vector` and `ny_type_table_add_array`. They read the element type
-- through a pointer that was taken before the array grows, and copy a name out of a buffer of 64
-- bytes by the length that `snprintf` wants.
abbrev pub add_element_type : TypeTable → IrType → Outcome (TypeTable × ℕ)
add_element_type tt t =
    if is_full tt || leb 64 (length t.name) then faulted else done (push tt t, length tt.types)

abbrev pub is_vector_of : ℕ → ℕ → IrType → Bool
is_vector_of elem lanes t =
    is_vector_kind t.kind && (t.elem_type == elem && t.vector_lanes == lanes)

abbrev pub is_array_of : ℕ → ℕ → IrType → Bool
is_array_of elem count t = is_array_kind t.kind && (t.elem_type == elem && t.array_count == count)

-- `print_u32` is what `snprintf` writes for `%u`.
module _ (print_u32 : ℕ → List ℕ) where
  abbrev pub vector_entry : IrType → ℕ → ℕ → IrType
  vector_entry elem_t elem lanes = record zeroed {
    kind = Kind.vector;
    elem_type = elem;
    vector_lanes = lanes;
    size = elem_t.size * lanes % 2 ^ 32;
    align = elem_t.align;
    name = b'v' ∷ (print_u32 lanes ++ elem_t.name);
  }

  abbrev pub array_entry : IrType → ℕ → ℕ → IrType
  array_entry elem_t elem count = record zeroed {
    kind = Kind.array;
    elem_type = elem;
    array_count = count;
    size = elem_t.size * count % 2 ^ 32;
    align = elem_t.align;
    name = b'[' ∷ (print_u32 count ++ b']' ∷ elem_t.name);
  }

  -- `ny_type_table_add_vector`
  unfoldable pub add_vector : TypeTable → ℕ → ℕ → Outcome (TypeTable × ℕ)
  add_vector tt elem lanes = elim (find_index (is_vector_of elem lanes) tt.types 0) [
    | some i ↦ done (tt, i)
    | none ↦ elim (get_elem? tt.types elem) [
      | none ↦ aborted
      | some elem_t ↦ add_element_type tt (vector_entry elem_t elem lanes)
    ]
  ]

  -- `ny_type_table_add_array`
  unfoldable pub add_array : TypeTable → ℕ → ℕ → Outcome (TypeTable × ℕ)
  add_array tt elem count = elim (find_index (is_array_of elem count) tt.types 0) [
    | some i ↦ done (tt, i)
    | none ↦ elim (get_elem? tt.types elem) [
      | none ↦ aborted
      | some elem_t ↦ add_element_type tt (array_entry elem_t elem count)
    ]
  ]
