-- ===== src/Adapters/Orders.antt =====
-- The messages that cross the trading port (proto/longtrader/trading/v1/trading.proto) and the part of
-- the port (bin/longtrader-worker/src/ports.rs, `TradingGateway`) that the strategies call. A decimal is
-- its text; timestamps, fees and free-form parameters are left out.
use longtrader.Prelude.{Bool, true, false, Option, String, List, Result}
use longtrader.Ports.{ExchangeId, PortError}
use longtrader.Session.Policy.{EnumValue, known, unknown}
use longtrader.Risk.Gateway.{OrderSide}

pub data OrderStatus : Type 0 where
  status_unspecified status_open status_filled status_canceled status_rejected : OrderStatus

pub data OrderType : Type 0 where
  type_unspecified market limit stop stop_limit : OrderType

pub data TimeInForce : Type 0 where
  time_unspecified gtc ioc fok gtd : TimeInForce

-- `OrderRequest`
pub record OrderTicket : Type 0 where
  pub client_order_id : String
  pub symbol : String
  pub order_type : EnumValue OrderType
  pub side : EnumValue OrderSide
  pub amount : Option String
  pub price : Option String
  pub time_in_force : EnumValue TimeInForce
  pub post_only : Bool
  pub reduce_only : Bool

pub record PlacedOrder : Type 0 where
  pub id : String
  pub client_order_id : String
  pub symbol : String
  pub order_type : EnumValue OrderType
  pub side : EnumValue OrderSide
  pub status : EnumValue OrderStatus
  pub amount : Option String
  pub price : Option String
  pub filled : Option String
  pub remaining : Option String
  pub cost : Option String
  pub average : Option String
  pub time_in_force : EnumValue TimeInForce
  pub post_only : Bool
  pub reduce_only : Bool

-- `CancelOrderRequest` and `CancelAllOrdersRequest` as far as a venue reads them.
pub record CancelTicket : Type 0 where
  pub exchange_id : Option ExchangeId
  pub order_id : String

pub record CancelAllTicket : Type 0 where
  pub exchange_id : Option ExchangeId
  pub symbol : String

-- `status == EnumValue::Known(OrderStatus::Open)`
abbrev pub is_open : EnumValue OrderStatus → Bool
is_open (unknown v) = false
is_open (known status_open) = true
is_open (known status_unspecified) = false
is_open (known status_filled) = false
is_open (known status_canceled) = false
is_open (known status_rejected) = false

-- A venue as its callers see it: each call may change its state.
pub record TradingGateway (S : Type 0) : Type 0 where
  pub create_order : S → ExchangeId → OrderTicket → S × Result PortError PlacedOrder
  pub cancel_order : S → CancelTicket → S × Result PortError PlacedOrder
  pub cancel_all_orders : S → CancelAllTicket → S × Result PortError (List PlacedOrder)
  pub fetch_open_orders : S → String → S × Result PortError (List PlacedOrder)
