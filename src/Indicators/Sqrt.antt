-- ===== src/Indicators/Sqrt.antt =====
-- The square root on decimals (bin/longtrader-worker/src/indicators/sqrt.rs). `none` is a panic: the one
-- subtraction of the loop is not checked. The tolerance, 1e-8, is a parameter.
pub mod Positive
use longtrader.Prelude.{ℕ, zero, suc, Bool, true, false, Option, none, some, if◌then◌else◌}
use longtrader.Numbers.{Numbers, zero_decimal, at_most}

module _ (N : Numbers) (tolerance : N.Decimal) where
  -- `(next - x).abs() < tolerance`
  unfoldable pub is_close : N.Decimal → N.Decimal → Option Bool
  is_close next x = elim (N.minus next x) [
    | none ↦ none
    | some d ↦ some (N.less (if N.is_sign_negative d then N.negate d else d) tolerance)
  ]

  -- `(x + value / x) / 2`, if every step of it is representable.
  unfoldable pub newton_step : N.Decimal → N.Decimal → Option N.Decimal
  newton_step value x = elim (N.divide value x) [
    | none ↦ none
    | some quotient ↦ elim (N.plus x quotient) [
      | none ↦ none
      | some sum ↦ N.divide sum (N.of_nat 2)
    ]
  ]

  unfoldable pub iterate : ℕ → N.Decimal → N.Decimal → Option N.Decimal
  unfolding newton_step is_close
  iterate zero value x = some x
  iterate (suc turns) value x = elim (newton_step value x) [
    | none ↦ some x
    | some next ↦ elim (at_most N next (zero_decimal N)) [
      | true ↦ some x
      | false ↦ elim (is_close next x) [
        | none ↦ none
        | some true ↦ some next
        | some false ↦ iterate turns value next
      ]
    ]
  ]

  -- Half of the value, or the value where that is not representable; one below one.
  unfoldable pub first_guess : N.Decimal → N.Decimal
  first_guess value = elim (at_most N (N.of_nat 1) value) [
    | false ↦ N.of_nat 1
    | true ↦ elim (N.divide value (N.of_nat 2)) [ none ↦ value | some half ↦ half ]
  ]

  unfoldable pub decimal_sqrt : N.Decimal → Option N.Decimal
  unfolding iterate first_guess
  decimal_sqrt value = elim (at_most N value (zero_decimal N)) [
    | true ↦ some (zero_decimal N)
    | false ↦ iterate 64 value (first_guess value)
  ]
