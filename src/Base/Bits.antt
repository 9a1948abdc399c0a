-- ===== src/Base/Bits.antt =====
-- `&` with a low mask and `|` of disjoint fields as arithmetic, at every width.
use Prim.Native.Nat.{ℕ, zero, suc, ◌+◌, ◌-◌, ◌*◌, ◌/◌, ◌%◌, ◌^◌, ◌≤◌, ◌<◌, min, max}
use Prim.Native.Nat.{bit_and, bit_or, bit_xor, digits, differ}
use Prim.Native.Nat.{bit_and-bitwise, bit_or-bitwise, bit_xor-bitwise}
use mathlib.Core.Path.{◌≡◌, refl, ap, ◌∙◌}
use native.Mathlib.Nat.{
  zero-mul, zero-add, add-zero, le_refl, pow-suc, one-le-pow, add_comm, mul_comm, div-add-mod,
}
use native.Mathlib.Nat.{
  div-lt_iff_lt-mul, add-mul-div_right, add-mul-mod_self_right, div-eq_of_lt, mod-eq_of_lt,
}
use native.Mathlib.Omega.{arith}

-- The digit recursion of a native bit operation does not depend on its fuel.
fuel_irrelevant :
    (z : ℕ → ℕ) (f : ℕ → ℕ → ℕ) (k l : ℕ) {x : ℕ} (y : ℕ)
    → x ≤ k
    → x ≤ l
    → digits z f k x y ≡ digits z f l x y
fuel_irrelevant z f zero zero y hk hl = refl
fuel_irrelevant z f zero (suc l) {x = zero} y hk hl = refl
fuel_irrelevant z f (suc k) zero {x = zero} y hk hl = refl
fuel_irrelevant z f zero (suc l) {x = suc x} y hk hl = absurd (omega arith)
fuel_irrelevant z f (suc k) zero {x = suc x} y hk hl = absurd (omega arith)
fuel_irrelevant z f (suc k) (suc l) {x = zero} y hk hl = refl
fuel_irrelevant z f (suc k) (suc l) {x = suc x} y hk hl =
    ap (λ (t : ℕ). t * 2 + f (suc x % 2) (y % 2))
      (fuel_irrelevant z f k l {x = suc x / 2} (y / 2) (omega arith) (omega arith))

-- One digit of `&` and of `|`.
and_digit : (x y : ℕ) → bit_and x y ≡ bit_and (x / 2) (y / 2) * 2 + min (x % 2) (y % 2)
and_digit zero y = omega (arith, bit_and-bitwise 0 y, bit_and-bitwise 0 (y / 2))
and_digit (suc x) y = omega (
  arith,
  bit_and-bitwise (suc x) y,
  bit_and-bitwise (suc x / 2) (y / 2),
  fuel_irrelevant (λ _. 0) min x (suc x / 2) {x = suc x / 2} (y / 2) (omega arith) (omega arith),
)

or_digit : (x y : ℕ) → bit_or x y ≡ bit_or (x / 2) (y / 2) * 2 + max (x % 2) (y % 2)
or_digit zero y = omega (arith, bit_or-bitwise 0 y, bit_or-bitwise 0 (y / 2))
or_digit (suc x) y = omega (
  arith,
  bit_or-bitwise (suc x) y,
  bit_or-bitwise (suc x / 2) (y / 2),
  fuel_irrelevant (λ t. t) max x (suc x / 2) {x = suc x / 2} (y / 2) (omega arith) (omega arith),
)

xor_digit : (x y : ℕ) → bit_xor x y ≡ bit_xor (x / 2) (y / 2) * 2 + differ (x % 2) (y % 2)
xor_digit zero y = omega (arith, bit_xor-bitwise 0 y, bit_xor-bitwise 0 (y / 2))
xor_digit (suc x) y = omega (
  arith,
  bit_xor-bitwise (suc x) y,
  bit_xor-bitwise (suc x / 2) (y / 2),
  fuel_irrelevant (λ t. t) differ x (suc x / 2) {x = suc x / 2} (y / 2) (omega arith) (omega arith),
)

-- Halving is a recursion of its own: `n` bounds the number of digits that are left.
and_zero : (n : ℕ) {x : ℕ} → x ≤ n → bit_and x 0 ≡ 0
and_zero zero {x = zero} h = refl
and_zero zero {x = suc x} h = absurd (omega arith)
and_zero (suc n) {x = zero} h = refl
and_zero (suc n) {x = suc x} h =
    omega (arith, and_digit (suc x) 0, and_zero n {x = suc x / 2} (omega arith))

or_zero : (n : ℕ) {x : ℕ} → x ≤ n → bit_or x 0 ≡ x
or_zero zero {x = zero} h = refl
or_zero zero {x = suc x} h = absurd (omega arith)
or_zero (suc n) {x = zero} h = refl
or_zero (suc n) {x = suc x} h =
    omega (arith, or_digit (suc x) 0, or_zero n {x = suc x / 2} (omega arith))

two_pow_suc : (k : ℕ) → 2 ^ suc k ≡ 2 * 2 ^ k
two_pow_suc k = omega (arith, pow-suc 2 k)

scaled_pow_suc : (q k : ℕ) → q * 2 ^ suc k ≡ 2 * (q * 2 ^ k)
scaled_pow_suc q k = omega (arith, ap (λ (t : ℕ). q * t) (two_pow_suc k))

pub two_pow_pos : (k : ℕ) → 1 ≤ 2 ^ k
two_pow_pos k = one-le-pow k 2 (omega arith)

-- A field above bit `k` joined by `|` with one below it is their sum.
pub or_fields :
    (k : ℕ) (high : ℕ) {low : ℕ} → low < 2 ^ k → bit_or (high * 2 ^ k) low ≡ high * 2 ^ k + low
or_fields zero high h = ground (arith, or_zero high {x = high} (omega arith))
or_fields (suc k) high {low} h = ground (
  arith,
  or_digit (high * 2 ^ suc k) low,
  scaled_pow_suc high k,
  two_pow_suc k,
  or_fields k high {low = low / 2} (omega (arith, two_pow_suc k)),
)

and_fields :
    (k : ℕ) (high : ℕ) {low : ℕ} → low < 2 ^ k → bit_and (high * 2 ^ k + low) (2 ^ k - 1) ≡ low
and_fields zero high {low} h = ground (arith, and_zero (high + low) {x = high + low} (omega arith))
and_fields (suc k) high {low} h = ground (
  arith,
  and_digit (high * 2 ^ suc k + low) (2 ^ suc k - 1),
  scaled_pow_suc high k,
  two_pow_suc k,
  two_pow_pos k,
  and_fields k high {low = low / 2} (omega (arith, two_pow_suc k)),
)

-- The mask of the `k` lowest bits takes the remainder.
pub and_mask : (k x : ℕ) → bit_and x (2 ^ k - 1) ≡ x % 2 ^ k
and_mask k x = ground (
  arith,
  two_pow_pos k,
  and_fields k (x / 2 ^ k) {low = x % 2 ^ k} (omega (arith, two_pow_pos k)),
)

-- A sum of a multiple of `m` and a smaller rest, taken apart.
pub quot_rem : {a q r m : ℕ} → a ≡ q * m + r → r < m → (a / m ≡ q) × (a % m ≡ r)
quot_rem {a} {q} {r} {m} e h = rw e (
  rw add_comm (add-mul-div_right r q {z = m} (omega arith) ∙ omega (arith, div-eq_of_lt h)),
  rw add_comm (add-mul-mod_self_right r q m ∙ mod-eq_of_lt h),
)

-- A bit operation acts on the fields above and below bit `k` apart.
module _ (op f : ℕ → ℕ → ℕ)
    (digit : (x y : ℕ) → op x y ≡ op (x / 2) (y / 2) * 2 + f (x % 2) (y % 2))
    (bit : (x y : ℕ) → x < 2 → y < 2 → f x y < 2) (nothing : op 0 0 ≡ 0) where
  op_fields :
      (k h l h' l' : ℕ)
      → l < 2 ^ k
      → l' < 2 ^ k
      → (op (h * 2 ^ k + l) (h' * 2 ^ k + l') ≡ op h h' * 2 ^ k + op l l') × (op l l' < 2 ^ k)
  op_fields zero h zero h' zero hl hl' = ground (arith, nothing)
  op_fields zero h l h' l' hl hl' = absurd (omega arith)
  op_fields (suc k) h l h' l' hl hl' =
      let ih =
        op_fields k h (l / 2) h' (l' / 2) (omega (arith, two_pow_suc k))
          (omega (arith, two_pow_suc k)) in
      let low : ((h * 2 ^ suc k + l) / 2 ≡ h * 2 ^ k + l / 2) × ((h * 2 ^ suc k + l) % 2 ≡ l % 2) =
        omega (arith, scaled_pow_suc h k) in
      let low' : ((h' * 2 ^ suc k + l') / 2 ≡ h' * 2 ^ k + l' / 2)
          × ((h' * 2 ^ suc k + l') % 2 ≡ l' % 2) =
        omega (arith, scaled_pow_suc h' k) in
      ground (
        arith,
        digit (h * 2 ^ suc k + l) (h' * 2 ^ suc k + l'),
        digit l l',
        bit (l % 2) (l' % 2) (omega arith) (omega arith),
        scaled_pow_suc (op h h') k,
        two_pow_suc k,
        ih.0,
        ih.1,
        low,
        low',
      )

  op_split :
      (k x y : ℕ)
      → (op x y / 2 ^ k ≡ op (x / 2 ^ k) (y / 2 ^ k))
        × (op x y % 2 ^ k ≡ op (x % 2 ^ k) (y % 2 ^ k))
  op_split k x y =
      let some_bits = two_pow_pos k in
      let (e, small) =
        op_fields k (x / 2 ^ k) (x % 2 ^ k) (y / 2 ^ k) (y % 2 ^ k) (omega arith) (omega arith) in
      let joined = λ (t : ℕ). mul_comm (t / 2 ^ k) (2 ^ k) in
      let whole : op x y ≡ op (x / 2 ^ k) (y / 2 ^ k) * 2 ^ k + op (x % 2 ^ k) (y % 2 ^ k) =
        rw (joined x, joined y, div-add-mod x (2 ^ k), div-add-mod y (2 ^ k)) at e in
      quot_rem {m = 2 ^ k} whole small

-- The field above bit `k` may also stand on the right of `|`.
pub or_fields_swapped :
    (k : ℕ) {low : ℕ} (high : ℕ) → low < 2 ^ k → bit_or low (high * 2 ^ k) ≡ low + high * 2 ^ k
or_fields_swapped k {low} high h =
    let (e, _) =
      op_fields bit_or max or_digit (λ x y p q. omega arith) refl k 0 low high 0 h
        (two_pow_pos k) in
    let e' : bit_or low (high * 2 ^ k) ≡ bit_or 0 high * 2 ^ k + bit_or low 0 =
      rw (zero-mul, zero-add, add-zero) at e in
    rw (e', bit_or-bitwise 0 high, or_zero low (le_refl low)) (add_comm (high * 2 ^ k) low)

pub two_pow_add : (j k : ℕ) → 2 ^ (j + k) ≡ 2 ^ j * 2 ^ k
two_pow_add zero k = rw zero-add (omega arith)
two_pow_add (suc j) k =
    let e : suc j + k ≡ suc (j + k) = omega arith in
    rw e (
      omega
        (arith, two_pow_suc (j + k), two_pow_add j k, ap (λ (t : ℕ). t * 2 ^ k) (two_pow_suc j)))

mul-mod-mul : (x n m : ℕ) → 1 ≤ n → 1 ≤ m → x * m % (n * m) ≡ x % n * m
mul-mod-mul x n m hn hm =
    (quot_rem {q = x / n} {m = n * m} (omega (arith, ap (λ (t : ℕ). t * m) (div-add-mod x n)))
      (below (x % n) (omega arith))).1
  where
    below : (r : ℕ) → r < n → r * m < n * m
    below r h = grind arith

-- `x` turned left by `k` of its `w` places: the two parts do not overlap.
module _ (w k x : ℕ) (hk : k ≤ w) (hx : x < 2 ^ w) where
  parts : 2 ^ w ≡ 2 ^ (w - k) * 2 ^ k
  parts = let e : w ≡ w - k + k = omega arith in ap (λ (t : ℕ). 2 ^ t) e ∙ two_pow_add (w - k) k

  pub fallen : x / 2 ^ (w - k) < 2 ^ k
  fallen =
      (div-lt_iff_lt-mul {k = 2 ^ (w - k)} {x = x} {y = 2 ^ k} (two_pow_pos (w - k))).1
        (omega (arith, parts, mul_comm (2 ^ (w - k)) (2 ^ k)))

  pub risen : x * 2 ^ k % 2 ^ w ≡ x % 2 ^ (w - k) * 2 ^ k
  risen = rw parts (mul-mod-mul x (2 ^ (w - k)) (2 ^ k) (two_pow_pos (w - k)) (two_pow_pos k))

  pub or_rotl : bit_or (x * 2 ^ k % 2 ^ w) (x / 2 ^ (w - k)) ≡ x * 2 ^ k % 2 ^ w + x / 2 ^ (w - k)
  or_rotl = rw risen (or_fields k (x % 2 ^ (w - k)) fallen)

  pub or_rotr : bit_or (x / 2 ^ (w - k)) (x * 2 ^ k % 2 ^ w) ≡ x / 2 ^ (w - k) + x * 2 ^ k % 2 ^ w
  or_rotr = rw risen (or_fields_swapped k (x % 2 ^ (w - k)) fallen)

-- The three operations of a field.
pub and_split :
    (k x y : ℕ)
    → (bit_and x y / 2 ^ k ≡ bit_and (x / 2 ^ k) (y / 2 ^ k))
      × (bit_and x y % 2 ^ k ≡ bit_and (x % 2 ^ k) (y % 2 ^ k))
and_split = op_split bit_and min and_digit (λ x y p q. omega arith) refl

pub or_split :
    (k x y : ℕ)
    → (bit_or x y / 2 ^ k ≡ bit_or (x / 2 ^ k) (y / 2 ^ k))
      × (bit_or x y % 2 ^ k ≡ bit_or (x % 2 ^ k) (y % 2 ^ k))
or_split = op_split bit_or max or_digit (λ x y p q. omega arith) refl

differ_bit : (x y : ℕ) → x < 2 → y < 2 → differ x y < 2
differ_bit zero y p q = q
differ_bit (suc x) zero p q = p
differ_bit (suc zero) (suc zero) p q = omega arith
differ_bit (suc zero) (suc (suc y)) p q = absurd (omega arith)
differ_bit (suc (suc x)) (suc y) p q = absurd (omega arith)

pub xor_split :
    (k x y : ℕ)
    → (bit_xor x y / 2 ^ k ≡ bit_xor (x / 2 ^ k) (y / 2 ^ k))
      × (bit_xor x y % 2 ^ k ≡ bit_xor (x % 2 ^ k) (y % 2 ^ k))
xor_split = op_split bit_xor differ xor_digit differ_bit refl

-- Zero in an operation.
pub bit_and_zero : (x : ℕ) → bit_and x 0 ≡ 0
bit_and_zero x = and_zero x {x = x} (omega arith)

pub bit_or_zero : (x : ℕ) → bit_or x 0 ≡ x
bit_or_zero x = or_zero x {x = x} (omega arith)

pub zero_bit_or : (x : ℕ) → bit_or 0 x ≡ x
zero_bit_or x = bit_or-bitwise 0 x

-- Where the parts of two numbers above and below bit `k` are joined to known ones.
pub or_parts :
    (k x y q r : ℕ)
    → bit_or (x / 2 ^ k) (y / 2 ^ k) ≡ q
    → bit_or (x % 2 ^ k) (y % 2 ^ k) ≡ r
    → (bit_or x y / 2 ^ k ≡ q) × (bit_or x y % 2 ^ k ≡ r)
or_parts k x y q r high low = ((or_split k x y).0 ∙ high, (or_split k x y).1 ∙ low)
