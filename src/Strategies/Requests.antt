-- ===== src/Strategies/Requests.antt =====
-- The order requests that the strategies share (bin/longtrader-worker/src/strategies/mod.rs).
use longtrader.Prelude.{Bool, true, false, Option, none, some, String, if◌then◌else◌}
use longtrader.Ports.{ExchangeId}
use longtrader.Session.Policy.{known}
use longtrader.Risk.Gateway.{buy, sell}
use longtrader.Adapters.Orders.{OrderTicket, market, limit, gtc}

-- The venue of an order, and the order.
pub record OrderSubmission : Type 0 where
  pub exchange_id : ExchangeId
  pub ticket : OrderTicket

module _ {A : Type 0} (print : A → String) where
  unfoldable pub order_request :
      ExchangeId → String → String → Bool → Option A → A → Bool → OrderSubmission
  order_request exchange_id symbol client_order_id is_buy price qty is_market = record {
    exchange_id = exchange_id;
    ticket = record {
      client_order_id = client_order_id;
      symbol = symbol;
      order_type = known (if is_market then market else limit);
      side = known (if is_buy then buy else sell);
      amount = some (print qty);
      price = elim price [ none ↦ none | some p ↦ some (print p) ];
      time_in_force = known gtc;
      post_only = false;
      reduce_only = false;
    };
  }

  unfoldable pub limit_order : ExchangeId → String → String → Bool → A → A → OrderSubmission
  unfolding order_request
  limit_order exchange_id symbol client_order_id is_buy price qty =
      order_request exchange_id symbol client_order_id is_buy (some price) qty false

  unfoldable pub market_order : ExchangeId → String → String → Bool → A → OrderSubmission
  unfolding order_request
  market_order exchange_id symbol client_order_id is_buy qty =
      order_request exchange_id symbol client_order_id is_buy none qty true
