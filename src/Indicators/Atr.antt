-- ===== src/Indicators/Atr.antt =====
-- The average true range with Wilder's smoothing (bin/longtrader-worker/src/indicators/atr.rs) and the
-- Keltner channel around an average (keltner.rs). `none` is a panic of the decimal arithmetic.
use longtrader.Prelude.{ℕ, suc, max, true, false, Option, none, some, leb}
use longtrader.Numbers.{Numbers, zero_decimal}
use longtrader.Indicators.Checked.{◌>>=◌, greater, absolute}
use longtrader.Indicators.Ema

module _ (N : Numbers) where
  pub record Atr : Type 0 where
    pub rma_value : Option N.Decimal
    pub prev_close : Option N.Decimal
    pub period : ℕ
    pub samples : ℕ
    pub sum : N.Decimal

  abbrev pub new_atr : ℕ → Atr
  new_atr period = record {
    rma_value = none;
    prev_close = none;
    period = max period 1;
    samples = 0;
    sum = zero_decimal N;
  }

  unfoldable pub true_range : Option N.Decimal → N.Decimal → N.Decimal → Option N.Decimal
  unfolding greater absolute
  true_range none high low = do range ← N.minus high low; some (greater N range (zero_decimal N))
  true_range (some prev) high low = do
    range ← N.minus high low
    above ← N.minus high prev
    below ← N.minus low prev
    some (greater N (greater N range (absolute N above)) (absolute N below))

  -- `(prev * (n - 1) + value) / n`
  unfoldable pub wilder : ℕ → N.Decimal → N.Decimal → Option N.Decimal
  wilder period prev value = do
    weight ← N.minus (N.of_nat period) (N.of_nat 1)
    kept ← N.times prev weight
    sum ← N.plus kept value
    N.divide sum (N.of_nat period)

  unfoldable pub push_range : Atr → N.Decimal → Option Atr
  unfolding wilder
  push_range a tr = elim a.rma_value [
    | some prev ↦ do next ← wilder a.period prev tr; some (record a { rma_value = some next })
    | none ↦ do
      sum ← N.plus a.sum tr
      elim (leb a.period (suc a.samples)) [
        | false ↦ some (record a { sum = sum; samples = suc a.samples })
        | true ↦ do
          mean ← N.divide sum (N.of_nat a.period)
          some (record a { sum = sum; samples = suc a.samples; rma_value = some mean })
      ]
  ]

  unfoldable pub push : Atr → N.Decimal → N.Decimal → N.Decimal → Option Atr
  unfolding true_range push_range
  push a high low close = do
    tr ← true_range a.prev_close high low
    push_range (record a { prev_close = some close }) tr

  pub record KeltnerChannel : Type 0 where
    pub mid : Ema.EmaState N
    pub atr : Atr
    pub multiplier : N.Decimal

  unfoldable pub new_keltner : ℕ → ℕ → N.Decimal → Option KeltnerChannel
  unfolding Ema.new_ema
  new_keltner ema_window atr_period multiplier = do
    mid ← Ema.new_ema N ema_window
    some (record { mid = mid; atr = new_atr atr_period; multiplier = multiplier })

  unfoldable pub push_keltner :
      KeltnerChannel → N.Decimal → N.Decimal → N.Decimal → Option KeltnerChannel
  unfolding push Ema.push
  push_keltner c high low close = do
    mid ← Ema.push N c.mid close
    atr ← push c.atr high low close
    some (record c { mid = mid; atr = atr })

  -- The inner `none` is a channel that is not there yet.
  unfoldable pub keltner_edge :
      (N.Decimal → N.Decimal → Option N.Decimal) → KeltnerChannel → Option (Option N.Decimal)
  keltner_edge move c = elim c.mid.value [
    | none ↦ some none
    | some mid ↦ elim c.atr.rma_value [
      | none ↦ some none
      | some atr ↦ do width ← N.times atr c.multiplier; edge ← move mid width; some (some edge)
    ]
  ]

  unfoldable pub keltner_upper : KeltnerChannel → Option (Option N.Decimal)
  unfolding keltner_edge
  keltner_upper c = keltner_edge N.plus c

  unfoldable pub keltner_lower : KeltnerChannel → Option (Option N.Decimal)
  unfolding keltner_edge
  keltner_lower c = keltner_edge N.minus c
