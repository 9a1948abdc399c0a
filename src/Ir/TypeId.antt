-- ===== src/Ir/TypeId.antt =====
-- include/nybit/ir.h: the ids of the primitive types.
use nybit.Base.{ℕ}

abbrev pub void : ℕ
void = 0

abbrev pub i8 : ℕ
i8 = 1

abbrev pub i16 : ℕ
i16 = 2

abbrev pub i32 : ℕ
i32 = 3

abbrev pub i64 : ℕ
i64 = 4

abbrev pub i128 : ℕ
i128 = 5

abbrev pub f16 : ℕ
f16 = 6

abbrev pub f32 : ℕ
f32 = 7

abbrev pub f64 : ℕ
f64 = 8

abbrev pub ptr : ℕ
ptr = 9

abbrev pub primitive_type_count : ℕ
primitive_type_count = 10
