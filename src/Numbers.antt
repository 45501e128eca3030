-- ===== src/Numbers.antt =====
-- What the strategies, the indicators and the mock wallet ask of the decimal crate, which is third-party
-- code. The four operations give nothing where the crate's checked forms do and its operators panic.
use longtrader.Prelude.{ℕ, Bool, Option, not, ◌||◌}

pub record Numbers : Type 1 where
  pub Decimal : Type 0
  pub of_nat : ℕ → Decimal
  pub plus : Decimal → Decimal → Option Decimal
  pub minus : Decimal → Decimal → Option Decimal
  pub times : Decimal → Decimal → Option Decimal
  pub divide : Decimal → Decimal → Option Decimal
  pub negate : Decimal → Decimal
  pub less : Decimal → Decimal → Bool
  pub is_zero : Decimal → Bool
  pub is_sign_negative : Decimal → Bool

module _ (N : Numbers) where
  abbrev pub zero_decimal : N.Decimal
  zero_decimal = N.of_nat 0

  -- `a <= b` in a total order.
  abbrev pub at_most : N.Decimal → N.Decimal → Bool
  at_most a b = not (N.less b a)

  -- `amount.is_sign_negative() || amount.is_zero()`
  abbrev pub is_unpayable : N.Decimal → Bool
  is_unpayable amount = N.is_sign_negative amount || N.is_zero amount
