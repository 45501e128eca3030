-- ===== src/Indicators/ZScore.antt =====
-- The Z-score of the last sample in its window (bin/longtrader-worker/src/indicators/zscore.rs). The inner
-- `none` of the value is the code's None and the outer one a panic of the decimal arithmetic.
use longtrader.Prelude.{
  ℕ, true, false, Option, none, some, List, [], ◌∷◌, ◌++◌, length, drop, ltb, if◌then◌else◌,
}
use longtrader.Numbers.{Numbers, zero_decimal}
use longtrader.Indicators.Checked.{◌>>=◌, total_from, squares_from}
use longtrader.Indicators.Sqrt.{decimal_sqrt}

module _ (N : Numbers) (tolerance : N.Decimal) where
  pub record ZScore : Type 0 where
    pub window : ℕ
    pub buf : List N.Decimal

  abbrev pub new_zscore : ℕ → ZScore
  new_zscore window = record { window = window; buf = [] }

  unfoldable pub push : ZScore → N.Decimal → ZScore
  push z value =
      let longer = z.buf ++ value ∷ [] in
      record z { buf = if ltb z.window (length longer) then drop 1 longer else longer }

  unfoldable pub back : List N.Decimal → Option N.Decimal
  back [] = none
  back (x ∷ xs) = let rest = back xs in elim rest [ none ↦ some x | some y ↦ some y ]

  unfoldable pub variance_of : List N.Decimal → N.Decimal → Option N.Decimal
  unfolding squares_from
  variance_of buf mean = do
    squared ← squares_from N mean (zero_decimal N) buf
    N.divide squared (N.of_nat (length buf))

  unfoldable pub deviations : List N.Decimal → N.Decimal → N.Decimal → Option N.Decimal
  unfolding back
  deviations buf mean std = do last ← back buf; distance ← N.minus last mean; N.divide distance std

  unfoldable pub score : List N.Decimal → N.Decimal → Option (Option N.Decimal)
  unfolding variance_of decimal_sqrt deviations
  score buf mean = elim (variance_of buf mean) [
    | none ↦ some none
    | some variance ↦ do
      std ← decimal_sqrt N tolerance variance
      if N.is_zero std then some none else some (deviations buf mean std)
  ]

  unfoldable pub value : ZScore → Option (Option N.Decimal)
  unfolding total_from score
  value z = elim (ltb (length z.buf) 2) [
    | true ↦ some none
    | false ↦ do
      sum ← total_from N (zero_decimal N) z.buf
      mean ← N.divide sum (N.of_nat (length z.buf))
      score z.buf mean
  ]
