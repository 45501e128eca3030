-- ===== src/Tests/Strategies.antt =====
-- Examples of the theorems about the strategies.
use longtrader.Prelude.{
  ◌≡◌, refl, true, Option, none, some, List, [], ◌∷◌, ◌++◌, Result, ok, err, arith,
}
use longtrader.Prelude.Int.{ℤ, pos, ◌+ℤ◌}
use longtrader.Ports.{PortError, transport}
use longtrader.Risk.Gateway.{buy, sell}
use longtrader.Adapters.Mock.{MockState, initial, mock_gateway}
use longtrader.Strategies.Sentinel.{watch, healthy}
use longtrader.Strategies.Sentinel.Outage.{outage, due, one_cancel_per_outage}
use longtrader.Strategies.SimpleGrid.{
  SimpleGridConfig, GridLevel, calculate_levels, climb, side_for,
}
use longtrader.Strategies.SimpleGrid.OnMock.{stamped, orders_for, seed-Healthy}
use longtrader.Strategies.SimpleGrid.Ladder.{Settled, calculate_levels_ends}
use longtrader.Strategies.SimpleGrid.Saved.{Document, persist_levels, restore_levels}
use longtrader.Strategies.SimpleGrid.Restored.{kept, restore-persist}
use longtrader.Strategies.SimpleGrid.Rebalance.{Ticker, StateStore, Grid}
use longtrader.Strategies.SimpleGrid.Cycle.{rebalance, seed_ladder}
use longtrader.Strategies.SimpleGrid.Bounded.{OutcomeInBand, rebalance-InBand}
use longtrader.Strategies.Twap.{TwapConfig, new_executor, run_ticks}
use longtrader.Strategies.Twap.Schedule.{RunScheduled, executor-Scheduled}
use longtrader.Tests.Integers.{integers, tally, print, parse, parse-print, integers-OrderLaws}
use longtrader.Tests.{venue}

abbrev refusals : List (Result PortError (Unit {0}))
refusals = ok tt ∷ ok tt ∷ err (transport "refused") ∷ ok tt ∷ ok tt ∷ []

one_cancel_per_outage_example :
    (watch 3 healthy (outage (transport "down") refusals)).1 ≡ due 2 refusals
one_cancel_per_outage_example = one_cancel_per_outage 3 (transport "down") refusals (omega arith)

abbrev grid_config : SimpleGridConfig ℤ
grid_config = record {
  exchange_id = venue;
  symbol = "BTC/USDT";
  lower_price = pos 2;
  upper_price = pos 6;
  num_levels = 2;
  qty_per_level = pos 1;
  has_state_file = true;
}

calculate_levels_ends_example :
    Settled 3 (calculate_levels integers tally grid_config (pos 2) (pos 5) 0)
calculate_levels_ends_example = calculate_levels_ends integers tally grid_config (pos 2) (pos 5) 0

abbrev ladder : List (GridLevel ℤ)
ladder =
    record { price = pos 4; side = buy; client_order_id = "a"; order_id = "7" }
    ∷ record { price = pos 9; side = sell; client_order_id = "b"; order_id = "" }
    ∷ []

restore-persist_example :
    restore_levels integers print parse tally grid_config
      (ok (some (persist_levels integers print parse tally ladder)))
      4
    ≡ ok (kept integers print parse tally grid_config ladder, 4)
restore-persist_example =
    restore-persist integers print parse tally grid_config ladder 4 parse-print refl
      ((refl, tt), ((refl, tt), tt))

abbrev kept_file : StateStore (Option Document)
kept_file = record { load = λ f. ok f; save = λ f d. some d }

abbrev fresh_grid : Grid ℤ MockState (Option Document)
fresh_grid = record { levels = []; drawn = 0; venue = initial; file = none }

abbrev quote : Ticker
quote = record { last = some "5"; close = none; bid = none; ask = none }

rebalance-InBand_example :
    OutcomeInBand integers print parse tally (mock_gateway tally) kept_file grid_config (pos 2) (
      rebalance integers print parse tally
        (mock_gateway tally)
        kept_file
        grid_config
        (pos 2)
        fresh_grid
        (ok quote))
rebalance-InBand_example =
    rebalance-InBand integers print parse tally (mock_gateway tally) kept_file grid_config (pos 2)
      integers-OrderLaws fresh_grid (ok quote) tt

abbrev twap_config : TwapConfig ℤ
twap_config = record {
  exchange_id = venue;
  symbol = "BTC/USDT";
  total_amount = pos 10;
  duration_secs = 20;
  num_orders = 2;
  is_buy = true;
  is_maker = true;
  limit_buffer = pos 0;
}

executor-Scheduled_example : RunScheduled integers print parse tally twap_config 0 0 (
    run_ticks integers print parse tally twap_config new_executor
      ((100, ok quote) ∷ (105, ok quote) ∷ (111, ok quote) ∷ (130, ok quote) ∷ []))
executor-Scheduled_example =
    executor-Scheduled integers print parse tally twap_config
      ((100, ok quote) ∷ (105, ok quote) ∷ (111, ok quote) ∷ (130, ok quote) ∷ [])

-- The rungs at 2, 4 and 6.
abbrev rungs : List (GridLevel ℤ)
rungs =
    record { price = pos 2; side = buy; client_order_id = tally 0; order_id = "" }
    ∷ record { price = pos 4; side = buy; client_order_id = tally 1; order_id = "" }
    ∷ record { price = pos 6; side = sell; client_order_id = tally 2; order_id = "" }
    ∷ []

seed-Healthy_example :
    (g' : Grid ℤ MockState (Option Document)) × (seed_ladder integers print parse tally
        (mock_gateway tally)
        kept_file
        grid_config
        (pos 2)
        fresh_grid
        (pos 5)
      ≡ some (g', ok tt))
    × (g'.levels ≡ stamped integers print parse tally tally kept_file grid_config (pos 2) 1 rungs)
    × (g'.venue.orders
        ≡ initial.orders
          ++ orders_for integers print parse tally tally kept_file grid_config (pos 2) 1 rungs)
unfolding calculate_levels climb side_for ◌+ℤ◌
seed-Healthy_example =
    seed-Healthy integers print parse tally tally kept_file grid_config (pos 2) fresh_grid (pos 5)
      rungs refl (refl, refl)
