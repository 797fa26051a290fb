-- ===== src/Prelude/Partial.antt =====
-- Code that may panic: `none` is a panic, such as an index out of range.
use mathlib.Core.Option.{Option, none, some}
use mathlib.Core.Path.{◌≡◌, refl}

infixl 5 ◌>>=◌
abbrev pub ◌>>=◌ {ℓ κ} : {A : Type ℓ} {B : Type κ} → Option A → (A → Option B) → Option B
none >>= f = none
some a >>= f = f a

-- Code that does not panic has a first part that does not.
pub >>=-eq-some {ℓ κ} :
    {A : Type ℓ} {B : Type κ} (o : Option A) (k : A → Option B) {y : B}
    → (o >>= k) ≡ some y
    → (x : A) × (o ≡ some x) × (k x ≡ some y)
>>=-eq-some none k p = cc
>>=-eq-some (some x) k p = (x, refl, p)
