-- ===== src/Session/Proxy/Unified.antt =====
-- The conversions between the ports' records and the wire messages
-- (bin/longtrader-worker/src/session/proxy.rs). How a decimal is printed and parsed is the decimal
-- crate's.
use longtrader.Prelude.{
  ℕ, Bool, true, false, Option, none, some, String, Result, ok, err, ltb, if◌then◌else◌,
}
use longtrader.Ports.{page_limit_or_default, u32_mod}
use longtrader.Numbers.{Numbers}
use longtrader.Clock.{Timestamp, timestamp_from_ms}
use longtrader.Contract.Decimal.{common_to_decimal}
use longtrader.Session.Policy.{EnumValue, known, unknown}
use longtrader.Risk.Gateway.{OrderSide, buy, sell, side_unspecified}
use longtrader.Adapters.Orders.{OrderType, market}
use longtrader.Adapters.Wallet.{LedgerEntry}
use longtrader.Adapters.Triggers.{TriggerOrderRequest, TriggerOrder, TriggerOrderStatus}
use longtrader.Session.Proxy.Errors.{ConnectError, refuse, code_invalid_argument}

-- A page limit is an absent or 64-bit field; what does not fit 32 bits becomes their greatest value.
unfoldable pub pagination_limit : Option ℕ → ℕ
unfolding page_limit_or_default
pagination_limit none = page_limit_or_default 0
pagination_limit (some limit) =
    page_limit_or_default (if ltb limit u32_mod then limit else 4294967295)

-- `account.v1.LedgerEntry`
pub record UnifiedLedgerEntry : Type 0 where
  pub id : String
  pub currency : String
  pub direction : String
  pub entry_type : String
  pub amount : String
  pub timestamp : Timestamp
  pub status : String

-- `trading.v1.TriggerOrderRequest`
pub record UnifiedTriggerRequest : Type 0 where
  pub client_order_id : String
  pub symbol : String
  pub side : EnumValue OrderSide
  pub trigger_price : Option String
  pub qty : Option String
  pub reduce_only : Bool

-- `trading.v1.TriggerOrder`; the trigger type is always the last price, the order type market, and there
-- is no order price.
pub record UnifiedTriggerOrder : Type 0 where
  pub id : String
  pub client_order_id : String
  pub symbol : String
  pub side : EnumValue OrderSide
  pub trigger_price : String
  pub qty : String
  pub order_type : EnumValue OrderType
  pub reduce_only : Bool
  pub status : TriggerOrderStatus
  pub created_at : Timestamp
  pub order_id : Option String
  pub triggered_at : Option Timestamp

module _ (N : Numbers) (print : N.Decimal → String) (parse : String → Option N.Decimal) where
  unfoldable pub ledger_entry_to_unified : LedgerEntry N.Decimal → UnifiedLedgerEntry
  unfolding timestamp_from_ms
  ledger_entry_to_unified entry = record {
    id = entry.id;
    currency = entry.currency;
    direction = if N.is_sign_negative entry.amount then "out" else "in";
    entry_type = entry.entry_type;
    amount = print entry.amount;
    timestamp = timestamp_from_ms entry.time_ms;
    status = if entry.completed then "completed" else "pending";
  }

  -- A decimal that a message needs; the text of a decimal's error is left out.
  unfoldable pub required_decimal : String → Option String → Result ConnectError N.Decimal
  unfolding common_to_decimal
  required_decimal missing none = err (refuse code_invalid_argument missing)
  required_decimal missing (some written) = elim (common_to_decimal parse written) [
    | err e ↦ err (record { code = code_invalid_argument; message = none })
    | ok d ↦ ok d
  ]

  -- The rendered value at the end of a message is left out.
  unfoldable pub required_side : EnumValue OrderSide → Result ConnectError Bool
  required_side (known buy) = ok true
  required_side (known sell) = ok false
  required_side (known side_unspecified) =
      err (record { code = code_invalid_argument; message = none })
  required_side (unknown v) = err (record { code = code_invalid_argument; message = none })

  unfoldable pub trigger_request_from_unified :
      Option UnifiedTriggerRequest → Result ConnectError (TriggerOrderRequest N.Decimal)
  unfolding required_decimal required_side
  trigger_request_from_unified none = err (refuse code_invalid_argument "order is required")
  trigger_request_from_unified (some req) =
      elim (required_decimal "trigger_price is required" req.trigger_price) [
        | err e ↦ err e
        | ok trigger_price ↦ elim (required_decimal "qty is required" req.qty) [
          | err e ↦ err e
          | ok qty ↦ elim (required_side req.side) [
            | err e ↦ err e
            | ok is_buy ↦ ok (record {
              client_order_id = req.client_order_id;
              symbol = req.symbol;
              is_buy = is_buy;
              trigger_price = trigger_price;
              qty = qty;
              reduce_only = req.reduce_only;
            })
          ]
        ]
      ]

  unfoldable pub trigger_order_to_unified : TriggerOrder N.Decimal → UnifiedTriggerOrder
  unfolding timestamp_from_ms
  trigger_order_to_unified order = record {
    id = order.id;
    client_order_id = order.client_order_id;
    symbol = order.symbol;
    side = known (if order.is_buy then buy else sell);
    trigger_price = print order.trigger_price;
    qty = print order.qty;
    order_type = known market;
    reduce_only = order.reduce_only;
    status = order.status;
    created_at = timestamp_from_ms order.created_at_ms;
    order_id = order.order_id;
    triggered_at = elim order.triggered_at_ms [
      | none ↦ none
      | some ms ↦ some (timestamp_from_ms ms)
    ];
  }
