-- ===== src/Base/Outcome.antt =====
-- What a call of C code can come to: a value, a failed `assert` or an `abort`, or a fault, that is,
-- behaviour which C leaves undefined.
use mathlib.Core.Path.{◌≡◌, refl}

pub data Outcome {ℓ} (A : Type ℓ) : Type ℓ where
  done : A → Outcome A
  aborted faulted : Outcome A

infixl 5 ◌>>=◌
abbrev pub ◌>>=◌ {ℓ κ} : {A : Type ℓ} {B : Type κ} → Outcome A → (A → Outcome B) → Outcome B
done a >>= f = f a
aborted >>= f = aborted
faulted >>= f = faulted

-- Where a sequence returns, its first part returned.
pub bind_inv {ℓ κ} :
    {A : Type ℓ} {B : Type κ} (o : Outcome A) (f : A → Outcome B) {y : B}
    → (o >>= f) ≡ done y
    → (x : A) × (o ≡ done x) × (f x ≡ done y)
bind_inv (done a) f e = (a, refl, e)
bind_inv aborted f e = cc
bind_inv faulted f e = cc
