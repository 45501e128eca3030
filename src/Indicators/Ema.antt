-- ===== src/Indicators/Ema.antt =====
-- The exponential moving average and the double one (bin/longtrader-worker/src/indicators/ema.rs, dema.rs).
-- `none` is a panic of the decimal arithmetic; a window is below 2 ^ 64 - 1.
pub mod Seeded
use longtrader.Prelude.{
  ℕ, ◌+◌, Bool, true, false, Option, none, some, List, [], ◌∷◌, ◌++◌, length, leb, ltb, ◌&&◌,
  if◌then◌else◌,
}
use longtrader.Numbers.{Numbers, zero_decimal}

module _ (N : Numbers) where
  pub record EmaState : Type 0 where
    pub window : ℕ
    pub k : N.Decimal
    pub value : Option N.Decimal
    pub seed : List N.Decimal
    pub seed_sum : N.Decimal

  unfoldable pub new_ema : ℕ → Option EmaState
  new_ema window = elim (N.divide (N.of_nat 2) (N.of_nat (window + 1))) [
    | none ↦ none
    | some k ↦
        some (record { window = window; k = k; value = none; seed = []; seed_sum = zero_decimal N })
  ]

  -- `(value - prev) * k + prev`
  unfoldable pub smoothed : N.Decimal → N.Decimal → N.Decimal → Option N.Decimal
  smoothed k prev value = elim (N.minus value prev) [
    | none ↦ none
    | some change ↦ elim (N.times change k) [ none ↦ none | some part ↦ N.plus part prev ]
  ]

  unfoldable pub push_seed : EmaState → N.Decimal → Option EmaState
  push_seed e value =
      let seed = e.seed ++ value ∷ [] in
      elim (N.plus e.seed_sum value) [
        | none ↦ none
        | some sum ↦ elim (leb e.window (length seed) && ltb 0 e.window) [
          | false ↦ some (record e { seed = seed; seed_sum = sum })
          | true ↦ elim (N.divide sum (N.of_nat (length seed))) [
            | none ↦ none
            | some average ↦
                some (record e { value = some average; seed = []; seed_sum = zero_decimal N })
          ]
        ]
      ]

  unfoldable pub push : EmaState → N.Decimal → Option EmaState
  unfolding push_seed smoothed
  push e value = elim e.value [
    | none ↦ push_seed e value
    | some prev ↦ elim (smoothed e.k prev value) [
      | none ↦ none
      | some next ↦ some (record e { value = some next })
    ]
  ]

  unfoldable pub push_all : EmaState → List N.Decimal → Option EmaState
  unfolding push
  push_all e [] = some e
  push_all e (x ∷ xs) = elim (push e x) [ none ↦ none | some next ↦ push_all next xs ]

  pub record Dema : Type 0 where
    pub ema1 : EmaState
    pub ema2 : EmaState

  unfoldable pub push_dema : Dema → N.Decimal → Option Dema
  unfolding push
  push_dema d value = elim (push d.ema1 value) [
    | none ↦ none
    | some first ↦ elim first.value [
      | none ↦ some (record d { ema1 = first })
      | some v ↦ elim (push d.ema2 v) [
        | none ↦ none
        | some second ↦ some (record { ema1 = first; ema2 = second })
      ]
    ]
  ]

  -- The inner `none` is an average that is not there yet.
  unfoldable pub dema_value : Dema → Option (Option N.Decimal)
  dema_value d = elim d.ema1.value [
    | none ↦ some none
    | some v1 ↦ elim d.ema2.value [
      | none ↦ some none
      | some v2 ↦ elim (N.times v1 (N.of_nat 2)) [
        | none ↦ none
        | some double ↦ elim (N.minus double v2) [ none ↦ none | some v ↦ some (some v) ]
      ]
    ]
  ]
