-- ===== src/Strategies/SimpleGrid/Cycle.antt =====
-- One whole cycle of the grid strategy (bin/longtrader-worker/src/strategies/simple_grid/mod.rs,
-- `rebalance`): an empty ladder is restored or seeded, any other is compared with the venue's open orders.
use longtrader.Prelude.{
  ℕ, ◌+◌, Bool, Option, none, some, String, List, [], ◌∷◌, leb, length, Result, ok, err,
  if◌then◌else◌,
}
use longtrader.Ports.{PortError}
use longtrader.Numbers.{Numbers}
use longtrader.Adapters.Orders.{TradingGateway}
use longtrader.Strategies.SimpleGrid.{
  SimpleGridConfig, GridLevel, exhausted, panicked, complete, calculate_levels,
}
use longtrader.Strategies.SimpleGrid.Saved.{persist_levels, restore_levels}
use longtrader.Strategies.SimpleGrid.Rebalance.{
  Ticker, StateStore, GridError, port_error, message, Grid, Placed, max_consecutive_errors,
  current_price, place_levels, cancel_tracked_orders, flip_levels,
}

module _ (N : Numbers) (print : N.Decimal → String) (parse : String → Option N.Decimal)
    (coid : ℕ → String) {S F : Type 0} (gateway : TradingGateway S) (store : StateStore F)
    (config : SimpleGridConfig N.Decimal) (step : N.Decimal) where
  abbrev pub State : Type 0
  State = Grid N.Decimal S F

  -- What a cycle leaves, and its answer.
  abbrev pub CycleOutcome : Type 0
  CycleOutcome = State × Result GridError (Unit {0})

  unfoldable pub save_levels : F → List (GridLevel N.Decimal) → F
  unfolding persist_levels
  save_levels file levels =
      if config.has_state_file
      then store.save file (persist_levels N print parse coid levels)
      else file

  -- Too many failures cancel what the levels track and forget them.
  unfoldable pub trip : Placed N.Decimal S → Placed N.Decimal S
  unfolding cancel_tracked_orders
  trip placed = record placed {
    venue =
        cancel_tracked_orders N print parse coid gateway store config step placed.venue
          placed.levels;
    levels = [];
  }

  -- The failures trip the kill switch.
  abbrev pub too_many : Placed N.Decimal S → Bool
  too_many placed = leb max_consecutive_errors placed.errors

  unfoldable pub seed_ladder : State → N.Decimal → Option CycleOutcome
  unfolding place_levels trip save_levels
  seed_ladder g current = elim (calculate_levels N coid config step current g.drawn) [
    | exhausted ↦ none
    | panicked ↦ none
    | complete fresh ↦
        let placed =
          place_levels N print parse coid gateway store config step g.venue fresh
            (g.drawn + length fresh) 0 in
        let settled = if too_many placed then trip placed else placed in
        some (
          record {
            levels = settled.levels;
            drawn = settled.drawn;
            venue = settled.venue;
            file = save_levels g.file settled.levels;
          },
          ok tt,
        )
  ]

  unfoldable pub start_ladder : State → N.Decimal → Option CycleOutcome
  unfolding restore_levels seed_ladder
  start_ladder g current =
      elim (restore_levels N print parse coid config (store.load g.file) g.drawn) [
        | err e ↦ some (g, err (message e))
        | ok ([], drawn) ↦ seed_ladder (record g { drawn = drawn }) current
        | ok (level ∷ levels, drawn) ↦
            some (record g { levels = level ∷ levels; drawn = drawn }, ok tt)
      ]

  unfoldable pub poll_ladder : State → Option CycleOutcome
  unfolding flip_levels trip save_levels
  poll_ladder g =
      let r = gateway.fetch_open_orders g.venue config.symbol in
      elim r.1 [
        | err e ↦ some (record g { venue = r.0 }, err (port_error e))
        | ok live ↦
            elim (flip_levels N print parse coid gateway store config step live r.0 g.levels g.drawn
              0) [
                | none ↦ none
                | some flipped ↦
                    let settled = if too_many flipped then trip flipped else flipped in
                    some (
                      record {
                        levels = settled.levels;
                        drawn = settled.drawn;
                        venue = settled.venue;
                        file =
                            if too_many flipped then save_levels g.file settled.levels else g.file;
                      },
                      ok tt,
                    )
              ]
      ]

  unfoldable pub rebalance : State → Result PortError Ticker → Option CycleOutcome
  unfolding current_price start_ladder poll_ladder
  rebalance g ticker = elim (current_price N print parse ticker) [
    | none ↦ none
    | some (err e) ↦ some (g, err e)
    | some (ok current) ↦ elim g.levels [
      | [] ↦ start_ladder g current
      | level ∷ levels ↦ poll_ladder g
    ]
  ]
