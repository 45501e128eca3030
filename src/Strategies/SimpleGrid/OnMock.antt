-- ===== src/Strategies/SimpleGrid/OnMock.antt =====
-- The grid strategy over the mock venue (bin/longtrader-worker/src/strategies/simple_grid/mod.rs over
-- bin/longtrader-worker/src/adapters/mock.rs): what a fresh ladder leaves on the venue.
use longtrader.Prelude.{
  ◌≡◌, refl, ap, sym, ◌∙◌, ℕ, ◌+◌, ◌%◌, false, Option, none, some, String, List, [], ◌∷◌, ◌++◌,
  length, Result, ok,
}
use mathlib.Core.List.{append_assoc, append-nil}
use longtrader.Ports.{PortError, u64_mod}
use longtrader.Numbers.{Numbers}
use longtrader.Session.Policy.{known}
use longtrader.Adapters.Orders.{PlacedOrder, limit, gtc, status_open}
use longtrader.Adapters.Mock.{MockState, mock_gateway, create_order, accept, opened}
use longtrader.Strategies.SimpleGrid.{SimpleGridConfig, GridLevel, complete, calculate_levels}
use longtrader.Strategies.SimpleGrid.Rebalance.{
  StateStore, Grid, Placed, level_ticket, place_level_order, place_levels, count_error,
}
use longtrader.Strategies.SimpleGrid.Cycle.{seed_ladder, save_levels}

module _ (N : Numbers) (print : N.Decimal → String) (parse : String → Option N.Decimal)
    (coid order_name : ℕ → String) {F : Type 0} (store : StateStore F)
    (config : SimpleGridConfig N.Decimal) (step : N.Decimal) where
  -- The levels with the ids that the venue gives from number `n` on, and the orders that it opens.
  abbrev pub stamped : ℕ → List (GridLevel N.Decimal) → List (GridLevel N.Decimal)
  stamped n [] = []
  stamped n (level ∷ levels) =
      record level { order_id = order_name n } ∷ stamped ((n + 1) % u64_mod) levels

  -- The open order that a level is to have: a limit order at its price, on its side, for the quantity of
  -- a level, that nothing has filled.
  abbrev pub level_order : String → GridLevel N.Decimal → PlacedOrder
  level_order id level = record {
    id = id;
    client_order_id = level.client_order_id;
    symbol = config.symbol;
    order_type = known limit;
    side = known level.side;
    status = known status_open;
    amount = some (print config.qty_per_level);
    price = some (print level.price);
    filled = some "0";
    remaining = some (print config.qty_per_level);
    cost = some "0";
    average = none;
    time_in_force = known gtc;
    post_only = false;
    reduce_only = false;
  }

  abbrev pub orders_for : ℕ → List (GridLevel N.Decimal) → List PlacedOrder
  orders_for n [] = []
  orders_for n (level ∷ levels) =
      level_order (order_name n) level ∷ orders_for ((n + 1) % u64_mod) levels

  opened-level_ticket :
      (id : String) (level : GridLevel N.Decimal)
      → opened id (level_ticket N print parse config level) ≡ level_order id level
  unfolding opened level_ticket
  opened-level_ticket id level = refl

  -- No failure is scripted.
  abbrev pub Healthy : MockState → Type 0
  Healthy s = (s.fail_next_creates ≡ 0) × (s.fail_creates_from ≡ none)

  create_order-Healthy :
      (s : MockState) (level : GridLevel N.Decimal)
      → Healthy s
      → let ticket = level_ticket N print parse config level in
        let r = create_order order_name s (some ticket) in
        (r.1 ≡ ok (opened (order_name s.next_id) ticket))
        × (r.0.orders ≡ s.orders ++ opened (order_name s.next_id) ticket ∷ [])
        × (r.0.next_id ≡ (s.next_id + 1) % u64_mod)
        × Healthy r.0
  unfolding create_order accept
  create_order-Healthy s level (calm, open_end) = (
    rw (calm, create_order, open_end) refl,
    rw (calm, create_order, open_end) refl,
    rw (calm, create_order, open_end) refl,
    rw (calm, create_order, open_end) (calm, refl),
  )

  place_level_order-Healthy :
      (s : MockState) (level : GridLevel N.Decimal)
      → Healthy s
      → let ticket = level_ticket N print parse config level in
        place_level_order N print parse coid (mock_gateway order_name) store config step s level ≡ (
          (create_order order_name s (some ticket)).0,
          record level { order_id = order_name s.next_id },
          ok (opened (order_name s.next_id) ticket),
        )
  unfolding place_level_order opened
  place_level_order-Healthy s level h = rw (create_order-Healthy s level h).0 refl

  -- One level placed, and the rest after it.
  abbrev pub first_placed :
      MockState × GridLevel N.Decimal × Result PortError PlacedOrder
      → List (GridLevel N.Decimal)
      → ℕ
      → ℕ
      → Placed N.Decimal MockState
  first_placed one levels drawn errors =
      let rest =
        place_levels N print parse coid (mock_gateway order_name) store config step one.0 levels
          drawn (count_error one.2 errors) in
      record rest { levels = one.1 ∷ rest.levels }

  place_levels-cons :
      (level : GridLevel N.Decimal) (levels : List (GridLevel N.Decimal)) (s : MockState)
      (drawn errors : ℕ)
      → Healthy s
      → let ticket = level_ticket N print parse config level in
        place_levels N print parse coid
          (mock_gateway order_name)
          store
          config
          step
          s
          (level ∷ levels)
          drawn
          errors
        ≡ first_placed
            (
              (create_order order_name s (some ticket)).0,
              record level { order_id = order_name s.next_id },
              ok (opened (order_name s.next_id) ticket),
            )
            levels
            drawn
            errors
  unfolding place_levels
  place_levels-cons level levels s drawn errors h =
      ap (λ one. first_placed one levels drawn errors) (place_level_order-Healthy s level h)

  place_levels-Healthy :
      (levels : List (GridLevel N.Decimal)) (s : MockState) (drawn errors : ℕ)
      → Healthy s
      → let r =
          place_levels N print parse coid
            (mock_gateway order_name)
            store
            config
            step
            s
            levels
            drawn
            errors in
        (r.levels ≡ stamped s.next_id levels)
        × (r.venue.orders ≡ s.orders ++ orders_for s.next_id levels)
        × (r.errors ≡ errors)
        × (r.drawn ≡ drawn)
  unfolding place_levels
  place_levels-Healthy [] s drawn errors h = (refl, sym (append-nil s.orders), refl, refl)
  place_levels-Healthy (level ∷ levels) s drawn errors h =
      let (answer, book, number, calm) = create_order-Healthy s level h in
      let step_eq = place_levels-cons level levels s drawn errors h in
      let ticket = level_ticket N print parse config level in
      let s' = (create_order order_name s (some ticket)).0 in
      let (rungs, orders, failures, ids) = place_levels-Healthy levels s' drawn errors calm in
      (
        ap (λ (p : Placed N.Decimal MockState). p.levels) step_eq
            ∙ ap (λ l. record level { order_id = order_name s.next_id } ∷ l) rungs
            ∙ ap (λ n. record level { order_id = order_name s.next_id } ∷ stamped n levels) number,
        ap (λ (p : Placed N.Decimal MockState). p.venue.orders) step_eq
            ∙ orders
            ∙ ap (λ l. l ++ orders_for s'.next_id levels) book
            ∙ ap (λ o. (s.orders ++ o ∷ []) ++ orders_for s'.next_id levels)
                (opened-level_ticket (order_name s.next_id) level)
            ∙ ap
                (λ n.
                  (s.orders ++ level_order (order_name s.next_id) level ∷ [])
                  ++ orders_for n levels)
                number
            ∙ append_assoc s.orders (level_order (order_name s.next_id) level ∷ [])
                (orders_for ((s.next_id + 1) % u64_mod) levels),
        ap (λ (p : Placed N.Decimal MockState). p.errors) step_eq ∙ failures,
        ap (λ (p : Placed N.Decimal MockState). p.drawn) step_eq ∙ ids,
      )

  -- On a mock venue that is not scripted to fail, a fresh ladder is placed whole: the grid tracks every
  -- level under the id that the venue gave it, in order, and the venue has one more open order for each
  -- level, a limit order at its price, on its side and for the configured quantity, under that id, after
  -- the orders that it had.
  pub seed-Healthy :
      (g : Grid N.Decimal MockState F) (current : N.Decimal) (fresh : List (GridLevel N.Decimal))
      → calculate_levels N coid config step current g.drawn ≡ complete fresh
      → Healthy g.venue
      → (g' : Grid N.Decimal MockState F) × (seed_ladder N print parse coid
            (mock_gateway order_name)
            store
            config
            step
            g
            current
          ≡ some (g', ok tt))
        × (g'.levels ≡ stamped g.venue.next_id fresh)
        × (g'.venue.orders ≡ g.venue.orders ++ orders_for g.venue.next_id fresh)
  unfolding seed_ladder
  seed-Healthy g current fresh ladder h =
      let (rungs, orders, failures, ids) =
        place_levels-Healthy fresh g.venue (g.drawn + length fresh) 0 h in
      let placed =
        place_levels N print parse coid (mock_gateway order_name) store config step g.venue fresh
          (g.drawn + length fresh) 0 in
      let g' : Grid N.Decimal MockState F = record {
        levels = placed.levels;
        drawn = placed.drawn;
        venue = placed.venue;
        file =
            save_levels N print parse coid (mock_gateway order_name) store config step g.file
              placed.levels;
      } in
      (g', rw (ladder, seed_ladder, failures) refl, rungs, orders)
