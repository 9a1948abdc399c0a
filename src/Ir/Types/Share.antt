-- ===== src/Ir/Types/Share.antt =====
-- Vector and array types of one shape share one entry of the table.
use nybit.Base.{
  ℕ, ◌≡◌, ◌∙◌, arith, refl, sym, ap, List, length, leb, none, some, Bool, true, Bool-cases,
  Option-cases, inl, inr, ◌||◌, get_elem?, find_index, find_index-append_last,
}
use nybit.Base.Outcome.{done}
use nybit.Ir.Types.{
  IrType, TypeTable, is_full, add_vector, add_array, push, is_vector_of, is_array_of, vector_entry,
  array_entry, add_element_type,
}

-- What a call leaves behind that found nothing and added an entry.
add_element_type_found :
    (p : IrType → Bool) (table next : TypeTable) (t : IrType) {id : ℕ}
    → find_index p table.types 0 ≡ none
    → p t ≡ true
    → add_element_type table t ≡ done (next, id)
    → find_index p next.types 0 ≡ some id
add_element_type_found p table next t {id = id} missing h e =
    elim (Bool-cases (is_full table || leb 64 (length t.name))) [
      | inl stuck ↦ absurd (let e' = rw stuck at e in cc)
      | inr room ↦
          let e' = rw room at e in
          let grown : push table t ≡ next = cc in
          let at : length table.types ≡ id = cc in
          rw (sym grown)
            (find_index-append_last p table.types t 0 missing h ∙ ap some (omega (arith, at)))
    ]

-- A shape is found where it was asked for before.
module _ (print_u32 : ℕ → List ℕ) (table next : TypeTable) (elem n : ℕ) {id : ℕ} where
  vector_known :
      find_index (is_vector_of elem n) table.types 0 ≡ some id
      → add_vector print_u32 table elem n ≡ done (table, id)
  unfolding add_vector
  vector_known h = rw (add_vector, h) refl

  add_vector-find_index :
      add_vector print_u32 table elem n ≡ done (next, id)
      → find_index (is_vector_of elem n) next.types 0 ≡ some id
  unfolding add_vector
  add_vector-find_index h = elim (Option-cases (find_index (is_vector_of elem n) table.types 0)) [
    | inl missing ↦
        let h' = rw (add_vector, missing) at h in
        elim (Option-cases (get_elem? table.types elem)) [
          | inl invalid ↦ absurd (let h'' = rw invalid at h' in cc)
          | inr valid ↦
              let t = vector_entry print_u32 valid.0 elem n in
              add_element_type_found (is_vector_of elem n) table next t missing (ground arith)
                (rw valid.1 at h')
        ]
    | inr found ↦
        let h' = rw (add_vector, found.1) at h in
        let same : table ≡ next = cc in rw (sym same) (found.1 ∙ ap some cc)
  ]

  array_known :
      find_index (is_array_of elem n) table.types 0 ≡ some id
      → add_array print_u32 table elem n ≡ done (table, id)
  unfolding add_array
  array_known h = rw (add_array, h) refl

  add_array-find_index :
      add_array print_u32 table elem n ≡ done (next, id)
      → find_index (is_array_of elem n) next.types 0 ≡ some id
  unfolding add_array
  add_array-find_index h = elim (Option-cases (find_index (is_array_of elem n) table.types 0)) [
    | inl missing ↦
        let h' = rw (add_array, missing) at h in
        elim (Option-cases (get_elem? table.types elem)) [
          | inl invalid ↦ absurd (let h'' = rw invalid at h' in cc)
          | inr valid ↦
              let t = array_entry print_u32 valid.0 elem n in
              add_element_type_found (is_array_of elem n) table next t missing (ground arith)
                (rw valid.1 at h')
        ]
    | inr found ↦
        let h' = rw (add_array, found.1) at h in
        let same : table ≡ next = cc in rw (sym same) (found.1 ∙ ap some cc)
  ]

module _ (print_u32 : ℕ → List ℕ) (table next : TypeTable) (elem n : ℕ) {id : ℕ} where
  -- Where `add_vector` succeeds, asking again for the same element type and number of lanes
  -- returns the same id and leaves the table as it is.
  pub add_vector_idem :
      add_vector print_u32 table elem n ≡ done (next, id)
      → add_vector print_u32 next elem n ≡ done (next, id)
  add_vector_idem h =
      vector_known print_u32 next next elem n (add_vector-find_index print_u32 table next elem n h)

  -- Where `add_array` succeeds, asking again for the same element type and count returns the
  -- same id and leaves the table as it is.
  pub add_array_idem :
      add_array print_u32 table elem n ≡ done (next, id)
      → add_array print_u32 next elem n ≡ done (next, id)
  add_array_idem h =
      array_known print_u32 next next elem n (add_array-find_index print_u32 table next elem n h)
