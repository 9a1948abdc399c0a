-- ===== src/Examples/Types.antt =====
-- src/ir/types.c at concrete inputs.
use nybit.Base.{ℕ, ◌≡◌, refl, arith, List, [], ◌∷◌, some}
use nybit.Base.Outcome.{done, faulted}
use nybit.Ir.Types.{Kind, IrType, TypeTable, zeroed, type_get, add_vector, add_array}
use nybit.Ir.Types.Struct.{struct_entry, add_struct}
use nybit.Ir.Types.Layout.{IsLaidOut, struct_entry-IsLaidOut}
use nybit.Ir.Types.Intern.{IsNamed, add_struct-type_get, add_struct-IsNamed, add_struct_idem}

-- A table of a byte, a 32-bit word and a 64-bit word.
abbrev word_type : ℕ → IrType
word_type bytes = record zeroed { size = bytes; align = bytes }

abbrev table : TypeTable
table = record { types = word_type 1 ∷ word_type 4 ∷ word_type 8 ∷ []; capacity = 32 }

-- What `snprintf` writes for a number of one digit.
abbrev digit : ℕ → List ℕ
digit n = n ∷ []

abbrev pair_name : List ℕ
pair_name = b'p' ∷ []

struct_entry-IsLaidOut_example :
    (end : ℕ) × IsLaidOut table
      (0 ∷ 2 ∷ 1 ∷ [])
      (struct_entry table pair_name (0 ∷ 2 ∷ 1 ∷ [])).field_offsets
      end
      (struct_entry table pair_name (0 ∷ 2 ∷ 1 ∷ [])).size
      (struct_entry table pair_name (0 ∷ 2 ∷ 1 ∷ [])).align
unfolding struct_entry nybit.Ir.Types.type_size nybit.Ir.Types.type_align
struct_entry-IsLaidOut_example =
    struct_entry-IsLaidOut table pair_name (0 ∷ 2 ∷ 1 ∷ []) (omega arith)

add_struct-type_get_example :
    type_get (add_struct digit table (some pair_name) (0 ∷ 2 ∷ [])).0 1 ≡ type_get table 1
add_struct-type_get_example =
    add_struct-type_get digit table (some pair_name) (0 ∷ 2 ∷ []) 1 (omega arith)

add_struct-IsNamed_example :
    IsNamed
      (add_struct digit table (some pair_name) (0 ∷ 2 ∷ [])).0
      pair_name
      (add_struct digit table (some pair_name) (0 ∷ 2 ∷ [])).1
add_struct-IsNamed_example = add_struct-IsNamed digit table pair_name (0 ∷ 2 ∷ [])

add_struct_idem_example :
    add_struct digit (add_struct digit table (some pair_name) (0 ∷ [])).0 (some pair_name) []
    ≡ add_struct digit table (some pair_name) (0 ∷ [])
add_struct_idem_example = add_struct_idem digit table pair_name (0 ∷ []) []

-- Four lanes of the 32-bit word.
abbrev with_vector : TypeTable
with_vector = record table {
  types =
      word_type 1
      ∷ word_type 4
      ∷ word_type 8
      ∷ record zeroed {
        kind = Kind.vector;
        elem_type = 1;
        vector_lanes = 4;
        size = 16;
        align = 4;
        name = b'v' ∷ 4 ∷ [];
      }
      ∷ [];
}

vector_added : add_vector digit table 1 4 ≡ done (with_vector, 3)
unfolding add_vector
vector_added = refl

abbrev with_array : TypeTable
with_array = record table {
  types =
      word_type 1
      ∷ word_type 4
      ∷ word_type 8
      ∷ record zeroed {
        kind = Kind.array;
        elem_type = 2;
        array_count = 5;
        size = 40;
        align = 8;
        name = b'[' ∷ 5 ∷ b']' ∷ [];
      }
      ∷ [];
}

array_added : add_array digit table 2 5 ≡ done (with_array, 3)
unfolding add_array
array_added = refl

-- In a full table the element type is read through a stale pointer.
full_table : add_vector digit (record table { capacity = 3 }) 1 4 ≡ faulted
unfolding add_vector
full_table = refl
