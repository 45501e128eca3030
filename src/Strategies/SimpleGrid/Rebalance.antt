-- ===== src/Strategies/SimpleGrid/Rebalance.antt =====
-- A cycle of the grid strategy (bin/longtrader-worker/src/strategies/simple_grid/mod.rs) over a venue, a
-- state store and a ticker. The venue and the store are whatever implements their ports. `none` is a panic
-- of the decimal arithmetic.
use longtrader.Prelude.{
  ℕ, ◌+◌, ◌%◌, Bool, true, false, ◌&&◌, ◌||◌, Option, none, some, String, List, [], ◌∷◌, map,
  str_eq, Result, ok, err, if◌then◌else◌,
}
use longtrader.Prelude.Dict.{contains}
use longtrader.Ports.{PortError}
use longtrader.Contract.Decimal.{common_to_decimal}
use longtrader.Numbers.{Numbers, zero_decimal, at_most}
use longtrader.Session.Policy.{known}
use longtrader.Risk.Gateway.{OrderSide, buy, sell, side_unspecified}
use longtrader.Adapters.Orders.{OrderTicket, PlacedOrder, limit, gtc, TradingGateway}
use longtrader.Ports.{u32_mod}
use longtrader.Strategies.SimpleGrid.{SimpleGridConfig, GridLevel, in_band}
use longtrader.Strategies.SimpleGrid.Saved.{Document}

-- The prices of `market.v1.Ticker` that the strategy reads.
pub record Ticker : Type 0 where
  pub last : Option String
  pub close : Option String
  pub bid : Option String
  pub ask : Option String

-- `StateStore`: a failed save is only logged.
pub record StateStore (F : Type 0) : Type 0 where
  pub load : F → Result String (Option Document)
  pub save : F → Document → F

pub data GridError : Type 0 where
  port_error : PortError → GridError
  message : String → GridError

-- The strategy's state, with the venue and the file that it works on.
pub record Grid (A S F : Type 0) : Type 0 where
  pub levels : List (GridLevel A)
  pub drawn : ℕ
  pub venue : S
  pub file : F

abbrev pub max_consecutive_errors : ℕ
max_consecutive_errors = 5

-- Levels that were placed or flipped: the venue after it, the levels, and the failures.
pub record Placed (A S : Type 0) : Type 0 where
  pub venue : S
  pub levels : List (GridLevel A)
  pub drawn : ℕ
  pub errors : ℕ

abbrev pub count_error : {E A : Type 0} → Result E A → ℕ → ℕ
count_error (ok a) errors = errors
count_error (err e) errors = (errors + 1) % u32_mod

abbrev pub opposite_side : OrderSide → OrderSide
opposite_side sell = buy
opposite_side buy = sell
opposite_side side_unspecified = sell

module _ (N : Numbers) (print : N.Decimal → String) (parse : String → Option N.Decimal) where
  unfoldable pub usable_price : Option String → Option N.Decimal
  unfolding common_to_decimal
  usable_price none = none
  usable_price (some written) = elim (common_to_decimal parse written) [
    | err e ↦ none
    | ok price ↦ if N.less (zero_decimal N) price then some price else none
  ]

  unfoldable pub mid_price : N.Decimal → N.Decimal → Option N.Decimal
  mid_price bid ask = elim (N.plus bid ask) [ none ↦ none | some sum ↦ N.divide sum (N.of_nat 2) ]

  -- The first usable of the last price, the close and the middle of the book.
  unfoldable pub current_price : Result PortError Ticker → Option (Result GridError N.Decimal)
  unfolding usable_price mid_price
  current_price (err e) = some (err (port_error e))
  current_price (ok ticker) = elim (usable_price ticker.last) [
    | some price ↦ some (ok price)
    | none ↦ elim (usable_price ticker.close) [
      | some price ↦ some (ok price)
      | none ↦ elim (usable_price ticker.bid) [
        | none ↦ some (err (message "no usable price in ticker"))
        | some bid ↦ elim (usable_price ticker.ask) [
          | none ↦ some (err (message "no usable price in ticker"))
          | some ask ↦ elim (mid_price bid ask) [ none ↦ none | some mid ↦ some (ok mid) ]
        ]
      ]
    ]
  ]

  unfoldable pub level_ticket : SimpleGridConfig N.Decimal → GridLevel N.Decimal → OrderTicket
  level_ticket config level = record {
    client_order_id = level.client_order_id;
    symbol = config.symbol;
    order_type = known limit;
    side = known level.side;
    amount = some (print config.qty_per_level);
    price = some (print level.price);
    time_in_force = known gtc;
    post_only = false;
    reduce_only = false;
  }

  -- The ids and the prices that rest at the venue.
  unfoldable pub live_prices : List PlacedOrder → List N.Decimal
  unfolding common_to_decimal
  live_prices [] = []
  live_prices (o ∷ os) =
      let rest = live_prices os in
      elim o.price [
        | none ↦ rest
        | some written ↦ elim (common_to_decimal parse written) [ err e ↦ rest | ok p ↦ p ∷ rest ]
      ]

  abbrev pub has_price : N.Decimal → List N.Decimal → Bool
  has_price p [] = false
  has_price p (q ∷ qs) = (at_most N p q && at_most N q p) || has_price p qs

  unfoldable pub is_alive : List PlacedOrder → GridLevel N.Decimal → Bool
  unfolding live_prices
  is_alive live level =
      contains level.client_order_id (map (λ (o : PlacedOrder). o.client_order_id) live)
      || has_price level.price (live_prices live)

  unfoldable pub opposite_price : N.Decimal → GridLevel N.Decimal → Option N.Decimal
  opposite_price step level = elim level.side [
    | sell ↦ N.minus level.price step
    | buy ↦ N.plus level.price step
    | side_unspecified ↦ N.plus level.price step
  ]

module _ (N : Numbers) (print : N.Decimal → String) (parse : String → Option N.Decimal)
    (coid : ℕ → String) {S F : Type 0} (gateway : TradingGateway S) (store : StateStore F)
    (config : SimpleGridConfig N.Decimal) (step : N.Decimal) where
  -- The level keeps what it had if the venue refuses the order.
  unfoldable pub place_level_order :
      S → GridLevel N.Decimal → S × GridLevel N.Decimal × Result PortError PlacedOrder
  unfolding level_ticket
  place_level_order venue level =
      let r =
        gateway.create_order venue config.exchange_id (level_ticket N print parse config level) in
      (r.0, elim r.1 [ err e ↦ level | ok order ↦ record level { order_id = order.id } ], r.1)

  unfoldable pub place_levels : S → List (GridLevel N.Decimal) → ℕ → ℕ → Placed N.Decimal S
  unfolding place_level_order
  place_levels venue [] drawn errors = record {
    venue = venue;
    levels = [];
    drawn = drawn;
    errors = errors;
  }
  place_levels venue (level ∷ levels) drawn errors =
      let one = place_level_order venue level in
      let rest = place_levels one.0 levels drawn (count_error one.2 errors) in
      record rest { levels = one.1 ∷ rest.levels }

  -- A level without a venue order id is skipped; a refused cancel is only logged.
  unfoldable pub cancel_tracked_orders : S → List (GridLevel N.Decimal) → S
  cancel_tracked_orders venue [] = venue
  cancel_tracked_orders venue (level ∷ levels) =
      if str_eq level.order_id ""
      then cancel_tracked_orders venue levels
      else cancel_tracked_orders
          (gateway.cancel_order venue
            (record { exchange_id = some config.exchange_id; order_id = level.order_id })).0
          levels

  -- A level that is gone from the venue quotes the opposite side one step away, if that is in the band.
  unfoldable pub flip_levels :
      List PlacedOrder → S → List (GridLevel N.Decimal) → ℕ → ℕ → Option (Placed N.Decimal S)
  unfolding is_alive opposite_price place_level_order in_band
  flip_levels live venue [] drawn errors =
      some (record { venue = venue; levels = []; drawn = drawn; errors = errors })
  flip_levels live venue (level ∷ levels) drawn errors = elim (is_alive N print parse live level) [
    | true ↦ elim (flip_levels live venue levels drawn errors) [
      | none ↦ none
      | some rest ↦ some (record rest { levels = level ∷ rest.levels })
    ]
    | false ↦ elim (opposite_price N print parse step level) [
      | none ↦ none
      | some price ↦ elim (in_band N config price) [
        | false ↦ elim (flip_levels live venue levels drawn errors) [
          | none ↦ none
          | some rest ↦ some (record rest { levels = level ∷ rest.levels })
        ]
        | true ↦
            let flipped = place_level_order venue (record {
              price = price;
              side = opposite_side level.side;
              client_order_id = coid drawn;
              order_id = "";
            }) in
            elim (flip_levels live flipped.0 levels (drawn + 1) (count_error flipped.2 errors)) [
              | none ↦ none
              | some rest ↦ some (record rest { levels = flipped.1 ∷ rest.levels })
            ]
      ]
    ]
  ]
