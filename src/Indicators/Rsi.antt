-- ===== src/Indicators/Rsi.antt =====
-- The relative strength index with Wilder's smoothing (bin/longtrader-worker/src/indicators/rsi.rs).
-- `none` is a panic of the decimal arithmetic.
use longtrader.Prelude.{ℕ, suc, max, true, false, Option, none, some, ◌==◌}
use longtrader.Numbers.{Numbers, zero_decimal}
use longtrader.Indicators.Checked.{◌>>=◌, greater}
use longtrader.Indicators.Atr.{wilder}

module _ (N : Numbers) where
  pub record Rsi : Type 0 where
    pub period : ℕ
    pub avg_gain : Option N.Decimal
    pub avg_loss : Option N.Decimal
    pub prev : Option N.Decimal
    pub samples : ℕ

  abbrev pub new_rsi : ℕ → Rsi
  new_rsi period = record {
    period = max period 1;
    avg_gain = none;
    avg_loss = none;
    prev = none;
    samples = 0;
  }

  -- `self.avg_gain.unwrap_or_default() + gain`
  unfoldable pub seeded : Option N.Decimal → N.Decimal → Option N.Decimal
  seeded none part = N.plus (zero_decimal N) part
  seeded (some sum) part = N.plus sum part

  -- The two averages after a gain and a loss.
  unfoldable pub averages : Rsi → N.Decimal → N.Decimal → Option (N.Decimal × N.Decimal)
  unfolding seeded wilder
  averages r gain loss = elim r.avg_gain [
    | none ↦ do g ← seeded none gain; l ← seeded r.avg_loss loss; some (g, l)
    | some prev_gain ↦ elim r.avg_loss [
      | none ↦ do g ← seeded (some prev_gain) gain; l ← seeded none loss; some (g, l)
      | some prev_loss ↦ do
        g ← wilder N r.period prev_gain gain
        l ← wilder N r.period prev_loss loss
        some (g, l)
    ]
  ]

  unfoldable pub push_change : Rsi → N.Decimal → Option Rsi
  unfolding averages greater
  push_change r change =
      let gain = greater N change (zero_decimal N) in
      let loss = greater N (N.negate change) (zero_decimal N) in
      averages r gain loss >>= λ both. elim (suc r.samples == r.period) [
        | false ↦ some (record r {
          avg_gain = some (both.0);
          avg_loss = some (both.1);
          samples = suc r.samples;
        })
        | true ↦ do
          g ← N.divide (both.0) (N.of_nat r.period)
          l ← N.divide (both.1) (N.of_nat r.period)
          some (record r { avg_gain = some g; avg_loss = some l; samples = suc r.samples })
      ]

  unfoldable pub push : Rsi → N.Decimal → Option Rsi
  unfolding push_change
  push r close = elim r.prev [
    | none ↦ some (record r { prev = some close })
    | some prev ↦ do
      change ← N.minus close prev
      push_change (record r { prev = some close }) change
  ]

  -- `100 - 100 / (1 + gain / loss)`
  unfoldable pub strength : N.Decimal → N.Decimal → Option N.Decimal
  strength gain loss = do
    rs ← N.divide gain loss
    ratio ← N.plus (N.of_nat 1) rs
    part ← N.divide (N.of_nat 100) ratio
    N.minus (N.of_nat 100) part

  -- The inner `none` is an index that is not there yet.
  unfoldable pub value : Rsi → Option (Option N.Decimal)
  unfolding strength
  value r = elim r.avg_gain [
    | none ↦ some none
    | some gain ↦ elim r.avg_loss [
      | none ↦ some none
      | some loss ↦ elim (N.is_zero loss) [
        | true ↦ some (some (N.of_nat 100))
        | false ↦ do v ← strength gain loss; some (some v)
      ]
    ]
  ]
