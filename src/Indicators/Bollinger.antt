-- ===== src/Indicators/Bollinger.antt =====
-- Bollinger bands (bin/longtrader-worker/src/indicators/bollinger.rs) over a
-- window of closes. Where the result is an option in an option, the inner `none` is the code's None and
-- the outer one a panic.
use longtrader.Prelude.{
  ℕ, true, false, ◌||◌, Option, none, some, List, [], ◌∷◌, ◌++◌, length, drop, ltb, if◌then◌else◌,
}
use longtrader.Numbers.{Numbers, zero_decimal}
use longtrader.Indicators.Checked.{◌>>=◌, total_from, squares_from}
use longtrader.Indicators.Sqrt.{decimal_sqrt}

module _ (N : Numbers) (tolerance : N.Decimal) where
  pub record Bands : Type 0 where
    pub middle : N.Decimal
    pub upper : N.Decimal
    pub lower : N.Decimal

  pub record BollingerBands : Type 0 where
    pub window : ℕ
    pub mult : N.Decimal
    pub buf : List N.Decimal

  abbrev pub new_bollinger : ℕ → N.Decimal → BollingerBands
  new_bollinger window mult = record { window = window; mult = mult; buf = [] }

  unfoldable pub push : BollingerBands → N.Decimal → BollingerBands
  push b close =
      let longer = b.buf ++ close ∷ [] in
      record b { buf = if ltb b.window (length longer) then drop 1 longer else longer }

  -- The mean and the variance.
  unfoldable pub moments : List N.Decimal → Option (N.Decimal × N.Decimal)
  unfolding total_from squares_from
  moments closes = do
    sum ← total_from N (zero_decimal N) closes
    mean ← N.divide sum (N.of_nat (length closes))
    squared ← squares_from N mean (zero_decimal N) closes
    variance ← N.divide squared (N.of_nat (length closes))
    some (mean, variance)

  unfoldable pub around : N.Decimal → N.Decimal → N.Decimal → Option Bands
  around mult mean root = do
    spread ← N.times root mult
    upper ← N.plus mean spread
    lower ← N.minus mean spread
    some (record { middle = mean; upper = upper; lower = lower })

  unfoldable pub compute : List N.Decimal → N.Decimal → Option (Option Bands)
  unfolding moments around decimal_sqrt
  compute closes mult = elim (ltb (length closes) 2) [
    | true ↦ some none
    | false ↦ elim (moments closes) [
      | none ↦ some none
      | some (mean, variance) ↦ do
        root ← decimal_sqrt N tolerance variance
        some (around mult mean root)
    ]
  ]

  unfoldable pub bands : BollingerBands → Option (Option Bands)
  unfolding compute
  bands b =
      if ltb (length b.buf) b.window || ltb b.window 2 then some none else compute b.buf b.mult
