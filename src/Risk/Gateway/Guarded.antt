-- ===== src/Risk/Gateway/Guarded.antt =====
-- What reaches the venue through the risk gateway (bin/longtrader-worker/src/risk.rs).
use longtrader.Prelude.{Bool, true, false, Option, String, List, [], ◌∷◌, Result, ok, ◌≡◌}
use longtrader.Ports.{PortError}
use longtrader.Risk.Limits.{Decimals, OrderIntent, RestingOrder, RiskLimits}
use longtrader.Risk.Gate.Respected.{OrdersWithin, BookWithin}
use longtrader.Risk.Gateway.Reading.{AllRestingAs}
use longtrader.Risk.Gateway.{
  VenueOrder, GatewayCall, fetch_open_orders, create_order, batch_create_orders,
}

abbrev pub submits : List GatewayCall → Bool
submits [] = false
submits (fetch_open_orders e ∷ calls) = submits calls
submits (create_order r ∷ calls) = true
submits (batch_create_orders r ∷ calls) = true

module _ (D : Decimals) (parse : String → Option D.Decimal) where
  -- The resting orders are those that the venue answered with, all of them.
  abbrev pub HeldAs : Result PortError (List VenueOrder) → List (RestingOrder D.Decimal) → Type 0
  HeldAs fetched resting =
      (orders : List VenueOrder) × (fetched ≡ ok orders) × AllRestingAs D parse orders resting

  -- What holds of a batch that reached the venue.
  abbrev pub Guarded :
      RiskLimits D.Decimal
      → Result PortError (List VenueOrder)
      → List (OrderIntent D.Decimal)
      → Type 0
  Guarded limits fetched intents =
      OrdersWithin D limits intents × BookWithin D (HeldAs fetched) limits intents
