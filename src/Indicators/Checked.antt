-- ===== src/Indicators/Checked.antt =====
-- Steps of the decimal arithmetic of the indicators (bin/longtrader-worker/src/indicators/): a chain of
-- operators stops at the first that panics.
use longtrader.Prelude.{◌≡◌, refl, Option, none, some, List, [], ◌∷◌, if◌then◌else◌}
use longtrader.Numbers.{Numbers}

infixl 5 ◌>>=◌
abbrev pub ◌>>=◌ {ℓ κ} : {A : Type ℓ} {B : Type κ} → Option A → (A → Option B) → Option B
none >>= f = none
some a >>= f = f a

-- A chain that ends went through its first step.
pub bind-some {ℓ κ} :
    {A : Type ℓ} {B : Type κ} (o : Option A) (f : A → Option B) (b : B)
    → (o >>= f) ≡ some b
    → (a : A) × (o ≡ some a) × (f a ≡ some b)
bind-some none f b made = absurd cc
bind-some (some a) f b made = (a, refl, made)

module _ (N : Numbers) where
  -- `a.max(b)` and `a.abs()`
  unfoldable pub greater : N.Decimal → N.Decimal → N.Decimal
  greater a b = if N.less a b then b else a

  unfoldable pub absolute : N.Decimal → N.Decimal
  absolute a = if N.is_sign_negative a then N.negate a else a

  -- A sum from the left, onto a first value.
  unfoldable pub total_from : N.Decimal → List N.Decimal → Option N.Decimal
  total_from acc [] = some acc
  total_from acc (x ∷ xs) = do next ← N.plus acc x; total_from next xs

  -- The squares of the distances to a mean, added up from the left.
  unfoldable pub squares_from : N.Decimal → N.Decimal → List N.Decimal → Option N.Decimal
  squares_from mean acc [] = some acc
  squares_from mean acc (x ∷ xs) = do
    deviation ← N.minus x mean
    square ← N.times deviation deviation
    next ← N.plus acc square
    squares_from mean next xs
