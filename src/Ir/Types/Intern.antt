-- ===== src/Ir/Types/Intern.antt =====
-- Types with the same shape or the same name share one entry of the table.
use nybit.Base.{
  ℕ, ◌<◌, ◌≡◌, ◌∙◌, arith, refl, ap, List, [], ◌∷◌, ◌++◌, length, Option, none, some, true,
  Option-cases, inl, inr, ◌&&◌, set-append_last, find_index-append_last, find_index_found, ◌-◌,
  bytes_eq_refl, bytes_eq, get_elem?-append_left, get_elem?-append_last,
}
use nybit.Ir.Types.{IrType, TypeTable, push, is_struct_kind, type_get}
use nybit.Ir.Types.Struct.{add_struct, struct_entry, find_struct, blank_struct, struct_text}

-- The table has a struct of the name at `id`.
abbrev pub IsNamed : TypeTable → List ℕ → ℕ → Type 0
IsNamed table name id =
    (t : IrType) × (type_get table id ≡ some t)
    × ((is_struct_kind t.kind && bytes_eq t.name name) ≡ true)

module _ (print_u32 : ℕ → List ℕ) (table : TypeTable) where
  abbrev new_entry : Option (List ℕ) → List ℕ → IrType
  new_entry name fields =
      struct_entry (push table blank_struct) (struct_text print_u32 (length table.types) name)
        fields

  -- The table with the new entry.
  abbrev grown : Option (List ℕ) → List ℕ → TypeTable
  grown name fields = record (push table blank_struct) {
    types = table.types ++ new_entry name fields ∷ [];
  }

  add_struct_found :
      (name : Option (List ℕ)) (fields : List ℕ) {i : ℕ}
      → find_struct table name ≡ some i
      → add_struct print_u32 table name fields ≡ (table, i)
  unfolding add_struct
  add_struct_found name fields h = rw (add_struct, h) refl

  add_struct_missing :
      (name : Option (List ℕ)) (fields : List ℕ)
      → find_struct table name ≡ none
      → add_struct print_u32 table name fields ≡ (grown name fields, length table.types)
  unfolding add_struct
  add_struct_missing name fields h = rw (add_struct, h, set-append_last) refl

  named_text :
      (name fields : List ℕ)
      → (is_struct_kind (new_entry (some name) fields).kind
          && bytes_eq (new_entry (some name) fields).name name)
        ≡ true
  unfolding struct_entry
  named_text name fields = bytes_eq_refl name

  -- `add_struct` leaves every type that the table has as it is.
  pub add_struct-type_get :
      (name : Option (List ℕ)) (fields : List ℕ) (id : ℕ)
      → id < length table.types
      → type_get (add_struct print_u32 table name fields).0 id ≡ type_get table id
  unfolding type_get
  add_struct-type_get name fields id h = elim (Option-cases (find_struct table name)) [
    | inl missing ↦
        rw (add_struct_missing name fields missing) (get_elem?-append_left table.types _ id h)
    | inr found ↦ rw (add_struct_found name fields found.1) refl
  ]

  -- The id that `add_struct` returns for a name is that of a struct of this name in the table
  -- it leaves.
  pub add_struct-IsNamed :
      (name : List ℕ) (fields : List ℕ)
      → IsNamed
          (add_struct print_u32 table (some name) fields).0
          name
          (add_struct print_u32 table (some name) fields).1
  unfolding type_get
  add_struct-IsNamed name fields = elim (Option-cases (find_struct table (some name))) [
    | inl missing ↦
        rw (add_struct_missing (some name) fields missing)
          (_, get_elem?-append_last table.types _, named_text name fields)
    | inr found ↦ rw (add_struct_found (some name) fields found.1) (
        let known =
          find_index_found (λ t. is_struct_kind t.kind && bytes_eq t.name name) table.types 0
            found.1 in
        let same : found.0 - 0 ≡ found.0 = omega arith in (known.1, rw same at known.2, known.3))
  ]

-- A second `add_struct` with the same name, whatever its fields, returns the same id and leaves
-- the table as it is.
pub add_struct_idem :
    (print_u32 : ℕ → List ℕ) (table : TypeTable) (name fields again : List ℕ)
    → add_struct print_u32 (add_struct print_u32 table (some name) fields).0 (some name) again
      ≡ add_struct print_u32 table (some name) fields
add_struct_idem print_u32 table name fields again =
    elim (Option-cases (find_struct table (some name))) [
      | inl missing ↦ rw (add_struct_missing print_u32 table (some name) fields missing) (
          add_struct_found print_u32 (grown print_u32 table (some name) fields) (some name) again (
            find_index-append_last _ table.types _ 0 missing
              (named_text print_u32 table name fields)
            ∙ ap some (omega arith)))
      | inr found ↦
          rw (add_struct_found print_u32 table (some name) fields found.1)
            (add_struct_found print_u32 table (some name) again found.1)
    ]
