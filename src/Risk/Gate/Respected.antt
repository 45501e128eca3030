-- ===== src/Risk/Gate/Respected.antt =====
-- What an accepted submission respects (bin/longtrader-worker/src/risk.rs, `RiskGate::admit`).
use longtrader.Prelude.{
  ℕ, ◌+◌, ◌≤◌, length, ◌≡◌, ◌≢◌, Bool, true, false, none, some, String, List, [], ◌∷◌,
}
use longtrader.Prelude.Dict.{find}
use longtrader.Risk.Limits.{Decimals, OrderIntent, RestingOrder, RiskLimits}
use longtrader.Risk.Gate.Net.{running}

module _ (D : Decimals) where
  -- The limits of one order, and of the price times its quantity if it has a price.
  abbrev pub OrderWithin : RiskLimits D.Decimal → OrderIntent D.Decimal → Type 0
  OrderWithin limits intent =
      ((limit : D.Decimal) → limits.max_order_qty ≡ some limit → D.exceeds intent.qty limit ≡ false)
      × ((limit price value : D.Decimal)
          → limits.max_order_notional ≡ some limit
          → intent.price ≡ some price
          → D.times price intent.qty ≡ some value
          → D.exceeds value limit ≡ false)

  abbrev pub OrdersWithin : RiskLimits D.Decimal → List (OrderIntent D.Decimal) → Type 0
  OrdersWithin limits [] = Unit
  OrdersWithin limits (i ∷ is) = OrderWithin limits i × OrdersWithin limits is

  -- What an order adds to the net quantity of its symbol: its quantity, or the negated one of a sell.
  abbrev pub exposure : Bool → D.Decimal → D.Decimal
  exposure true qty = qty
  exposure false qty = D.negate qty

  abbrev pub exposures :
      List (RestingOrder D.Decimal) → List (OrderIntent D.Decimal) → List (String × D.Decimal)
  exposures [] [] = []
  exposures [] (i ∷ is) = (i.symbol, exposure i.is_buy i.qty) ∷ exposures [] is
  exposures (r ∷ rs) is = (r.symbol, exposure r.is_buy r.qty) ∷ exposures rs is

  -- The limits that need the venue's orders, over orders of which `Held` holds: their number with that
  -- of the intents, and the net quantity of each symbol that a resting order or an intent names.
  abbrev pub BookWithin :
      (List (RestingOrder D.Decimal) → Type 0)
      → RiskLimits D.Decimal
      → List (OrderIntent D.Decimal)
      → Type 0
  BookWithin Held limits intents =
      ((limit : ℕ)
        → limits.max_open_orders ≡ some limit
        → (resting : List (RestingOrder D.Decimal)) × Held resting
          × (length resting + length intents ≤ limit))
      × ((limit : D.Decimal) (s : String)
          → limits.max_net_qty_per_symbol ≡ some limit
          → (resting : List (RestingOrder D.Decimal)) × Held resting
            × (find s (exposures resting intents) ≢ none
                → (net : D.Decimal) × (running D s (exposures resting intents) D.zero_decimal
                    ≡ some net)
                  × (D.exceeds (D.abs net) limit ≡ false)))
