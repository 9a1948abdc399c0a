-- ===== src/Opt/Fold/Bitwise.antt =====
-- `&`, `|` and `^` keep extended patterns extended: their sign bits are all alike.
use nybit.Base.{ℕ, ◌-◌, ◌/◌, ◌^◌, ◌≡◌, ◌⊎◌, inl, inr, refl, arith, bit_and, bit_or, bit_xor}
use nybit.Base.Bits.{and_split, or_split, xor_split}
use nybit.Opt.Widths.{IsWidth, w8, w16, w32, w64, IsExtended}

-- The bits from the sign bit on are all clear, or all set.
abbrev Alike : ℕ → ℕ → Type 0
Alike m p = (p ≡ 0) ⊎ (p ≡ m)

-- What `op` does to such bits.
record KeepsAlike (op : ℕ → ℕ → ℕ) (m : ℕ) : Type 0 where
  clear_clear : Alike m (op 0 0)
  clear_set : Alike m (op 0 m)
  set_clear : Alike m (op m 0)
  set_set : Alike m (op m m)

Alike-op :
    (op : ℕ → ℕ → ℕ) {m : ℕ}
    → KeepsAlike op m
    → {p q : ℕ} → Alike m p
    → Alike m q
    → Alike m (op p q)
Alike-op op k (inl e) (inl e') = rw (e, e') k.clear_clear
Alike-op op k (inl e) (inr e') = rw (e, e') k.clear_set
Alike-op op k (inr e) (inl e') = rw (e, e') k.set_clear
Alike-op op k (inr e) (inr e') = rw (e, e') k.set_set

module _ (op : ℕ → ℕ → ℕ) (split : (k x y : ℕ) → op x y / 2 ^ k ≡ op (x / 2 ^ k) (y / 2 ^ k))
    (at8 : KeepsAlike op (2 ^ 57 - 1)) (at16 : KeepsAlike op (2 ^ 49 - 1))
    (at32 : KeepsAlike op (2 ^ 33 - 1)) (at64 : KeepsAlike op 1) where
  op-IsExtended :
      {w : ℕ} → IsWidth w → {a b : ℕ} → IsExtended w a → IsExtended w b → IsExtended w (op a b)
  op-IsExtended {w} hw {a} {b} ha hb = elim hw [
    | w8 e ↦
        let ha' : IsExtended 8 a = rw e at ha in
        let hb' : IsExtended 8 b = rw e at hb in
        let alike : Alike (2 ^ 57 - 1) (op (a / 2 ^ 7) (b / 2 ^ 7)) =
          Alike-op op at8 (omega arith) (omega arith) in
        rw e (ground (arith, split 7 a b, alike))
    | w16 e ↦
        let ha' : IsExtended 16 a = rw e at ha in
        let hb' : IsExtended 16 b = rw e at hb in
        let alike : Alike (2 ^ 49 - 1) (op (a / 2 ^ 15) (b / 2 ^ 15)) =
          Alike-op op at16 (omega arith) (omega arith) in
        rw e (ground (arith, split 15 a b, alike))
    | w32 e ↦
        let ha' : IsExtended 32 a = rw e at ha in
        let hb' : IsExtended 32 b = rw e at hb in
        let alike : Alike (2 ^ 33 - 1) (op (a / 2 ^ 31) (b / 2 ^ 31)) =
          Alike-op op at32 (omega arith) (omega arith) in
        rw e (ground (arith, split 31 a b, alike))
    | w64 e ↦
        let ha' : IsExtended 64 a = rw e at ha in
        let hb' : IsExtended 64 b = rw e at hb in
        let alike : Alike 1 (op (a / 2 ^ 63) (b / 2 ^ 63)) =
          Alike-op op at64 (omega arith) (omega arith) in
        rw e (ground (arith, split 63 a b, alike))
  ]

keeps-and : (m : ℕ) → bit_and m m ≡ m → bit_and m 0 ≡ 0 → bit_and 0 m ≡ 0 → KeepsAlike bit_and m
keeps-and m s z z' = record {
  clear_clear = inl refl;
  clear_set = inl z';
  set_clear = inl z;
  set_set = inr s;
}

pub bit_and-IsExtended :
    {w : ℕ} → IsWidth w → {a b : ℕ} → IsExtended w a → IsExtended w b → IsExtended w (bit_and a b)
bit_and-IsExtended =
    op-IsExtended bit_and (λ k x y. (and_split k x y).0) (keeps-and (2 ^ 57 - 1) refl refl refl)
      (keeps-and (2 ^ 49 - 1) refl refl refl) (keeps-and (2 ^ 33 - 1) refl refl refl)
      (keeps-and 1 refl refl refl)

keeps-or : (m : ℕ) → bit_or m m ≡ m → bit_or m 0 ≡ m → bit_or 0 m ≡ m → KeepsAlike bit_or m
keeps-or m s z z' = record {
  clear_clear = inl refl;
  clear_set = inr z';
  set_clear = inr z;
  set_set = inr s;
}

pub bit_or-IsExtended :
    {w : ℕ} → IsWidth w → {a b : ℕ} → IsExtended w a → IsExtended w b → IsExtended w (bit_or a b)
bit_or-IsExtended =
    op-IsExtended bit_or (λ k x y. (or_split k x y).0) (keeps-or (2 ^ 57 - 1) refl refl refl)
      (keeps-or (2 ^ 49 - 1) refl refl refl) (keeps-or (2 ^ 33 - 1) refl refl refl)
      (keeps-or 1 refl refl refl)

keeps-xor : (m : ℕ) → bit_xor m m ≡ 0 → bit_xor m 0 ≡ m → bit_xor 0 m ≡ m → KeepsAlike bit_xor m
keeps-xor m s z z' = record {
  clear_clear = inl refl;
  clear_set = inr z';
  set_clear = inr z;
  set_set = inl s;
}

pub bit_xor-IsExtended :
    {w : ℕ} → IsWidth w → {a b : ℕ} → IsExtended w a → IsExtended w b → IsExtended w (bit_xor a b)
bit_xor-IsExtended =
    op-IsExtended bit_xor (λ k x y. (xor_split k x y).0) (keeps-xor (2 ^ 57 - 1) refl refl refl)
      (keeps-xor (2 ^ 49 - 1) refl refl refl) (keeps-xor (2 ^ 33 - 1) refl refl refl)
      (keeps-xor 1 refl refl refl)
