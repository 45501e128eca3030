-- ===== src/Risk/Limits.antt =====
-- The data of the risk gate (bin/longtrader-worker/src/risk.rs): order intents, resting orders,
-- limits and refusals. The decimal type is that of a third-party crate, a parameter.
use longtrader.Prelude.{ℕ, Bool, true, false, ◌||◌, Option, none, some, String, if◌then◌else◌}

-- What the gate asks of the decimal crate. Multiplication and addition panic on overflow: `none`.
pub record Decimals : Type 1 where
  pub Decimal : Type 0
  pub zero_decimal : Decimal
  pub negate : Decimal → Decimal
  pub abs : Decimal → Decimal
  pub times : Decimal → Decimal → Option Decimal
  pub plus : Decimal → Decimal → Option Decimal
  pub exceeds : Decimal → Decimal → Bool

pub record OrderIntent (A : Type 0) : Type 0 where
  pub symbol : String
  pub is_buy : Bool
  pub qty : A
  pub price : Option A

pub record RestingOrder (A : Type 0) : Type 0 where
  pub symbol : String
  pub is_buy : Bool
  pub qty : A

pub record RiskLimits (A : Type 0) : Type 0 where
  pub max_order_qty : Option A
  pub max_order_notional : Option A
  pub max_orders_per_minute : Option ℕ
  pub max_open_orders : Option ℕ
  pub max_net_qty_per_symbol : Option A

pub data RiskViolation (A : Type 0) : Type 0 where
  book_unavailable : RiskViolation A
  order_qty : String → A → A → RiskViolation A
  order_notional : String → A → A → RiskViolation A
  rate : ℕ → RiskViolation A
  open_orders : ℕ → ℕ → RiskViolation A
  net_qty : String → A → A → RiskViolation A

abbrev pub is_some {ℓ} : {A : Type ℓ} → Option A → Bool
is_some none = false
is_some (some a) = true

unfoldable pub is_enabled : {A : Type 0} → RiskLimits A → Bool
is_enabled limits =
    is_some limits.max_order_qty
    || is_some limits.max_order_notional
    || is_some limits.max_orders_per_minute
    || is_some limits.max_open_orders
    || is_some limits.max_net_qty_per_symbol

unfoldable pub needs_book : {A : Type 0} → RiskLimits A → Bool
needs_book limits = is_some limits.max_open_orders || is_some limits.max_net_qty_per_symbol

module _ (D : Decimals) where
  -- `signed_qty` of an intent and of a resting order.
  unfoldable pub signed_qty : Bool → D.Decimal → D.Decimal
  signed_qty is_buy qty = if is_buy then qty else D.negate qty

  -- `none` is a panic; `some none` an order without a price.
  unfoldable pub notional : OrderIntent D.Decimal → Option (Option D.Decimal)
  notional intent = elim intent.price [
    | none ↦ some none
    | some price ↦ elim (D.times price intent.qty) [ none ↦ none | some value ↦ some (some value) ]
  ]
