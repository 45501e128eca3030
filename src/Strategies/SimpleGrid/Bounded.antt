-- ===== src/Strategies/SimpleGrid/Bounded.antt =====
-- Every cycle of the grid strategy keeps its ladder inside the band
-- (bin/longtrader-worker/src/strategies/simple_grid/mod.rs).
use longtrader.Prelude.{
  ◌≡◌, refl, ℕ, ◌+◌, true, Bool-cases, Option-cases, Result-cases, inl, inr, Option, none, some,
  String, List, [], ◌∷◌, length, Result, ok, err, if◌then◌else◌,
}
use longtrader.Ports.{PortError}
use longtrader.Numbers.{Numbers}
use longtrader.Adapters.Orders.{PlacedOrder, TradingGateway}
use longtrader.Strategies.SimpleGrid.{
  SimpleGridConfig, GridLevel, Climb, exhausted, panicked, complete, calculate_levels, in_band,
}
use longtrader.Strategies.SimpleGrid.Saved.{restore_levels}
use longtrader.Strategies.SimpleGrid.Rebalance.{
  Ticker, StateStore, GridError, Grid, Placed, current_price, is_alive, opposite_price,
  place_level_order, place_levels, flip_levels, level_ticket,
}
use longtrader.Strategies.SimpleGrid.Cycle.{
  trip, too_many, seed_ladder, start_ladder, poll_ladder, rebalance,
}
use longtrader.Strategies.SimpleGrid.Band.{
  OrderLaws, AllInBand, ClimbInBand, Restored, calculate_levels-InBand, restore_levels-InBand,
}

module _ (N : Numbers) (print : N.Decimal → String) (parse : String → Option N.Decimal)
    (coid : ℕ → String) {S F : Type 0} (gateway : TradingGateway S) (store : StateStore F)
    (config : SimpleGridConfig N.Decimal) (step : N.Decimal) where
  abbrev pub PlacedInBand : Option (Placed N.Decimal S) → Type 0
  PlacedInBand none = Unit
  PlacedInBand (some placed) = AllInBand N config placed.levels

  place_level_order-price :
      (venue : S) (level : GridLevel N.Decimal)
      → (place_level_order N print parse coid gateway store config step venue level).1.price
        ≡ level.price
  unfolding place_level_order
  place_level_order-price venue level =
      elim (Result-cases
        (gateway.create_order venue config.exchange_id
          (level_ticket N print parse config level)).1) [
            | inl (order, placed) ↦ rw placed refl
            | inr (e, refused) ↦ rw refused refl
          ]

  place_levels-InBand :
      (levels : List (GridLevel N.Decimal)) (venue : S) (drawn errors : ℕ)
      → AllInBand N config levels
      → AllInBand N config
          (place_levels N print parse coid gateway store config step venue levels drawn
            errors).levels
  unfolding place_levels
  place_levels-InBand [] venue drawn errors h = tt
  place_levels-InBand (level ∷ levels) venue drawn errors h =
      (rw (place_level_order-price venue level) h.0, place_levels-InBand levels _ drawn _ h.1)

  -- Some level before what a flip gives.
  abbrev pub before :
      GridLevel N.Decimal → Option (Placed N.Decimal S) → Option (Placed N.Decimal S)
  before level none = none
  before level (some rest) = some (record rest { levels = level ∷ rest.levels })

  before-InBand :
      (level : GridLevel N.Decimal) (rest : Option (Placed N.Decimal S))
      → in_band N config level.price ≡ true
      → PlacedInBand rest
      → PlacedInBand (before level rest)
  before-InBand level none h k = tt
  before-InBand level (some rest) h k = (h, k)

  flip_levels-InBand :
      (live : List PlacedOrder) (levels : List (GridLevel N.Decimal)) (venue : S) (drawn errors : ℕ)
      → AllInBand N config levels
      → PlacedInBand
          (flip_levels N print parse coid gateway store config step live venue levels drawn errors)
  unfolding flip_levels
  flip_levels-InBand live [] venue drawn errors h = tt
  flip_levels-InBand live (level ∷ levels) venue drawn errors h =
      let kept =
        before-InBand level _ h.0 (flip_levels-InBand live levels venue drawn errors h.1) in
      elim (Bool-cases (is_alive N print parse live level)) [
        | inl alive ↦ rw (alive, PlacedInBand) kept
        | inr gone ↦ elim (Option-cases (opposite_price N print parse step level)) [
          | inl overflow ↦ rw (gone, overflow, PlacedInBand) tt
          | inr (price, e) ↦ elim (Bool-cases (in_band N config price)) [
            | inr outside ↦ rw (gone, e, outside, PlacedInBand) kept
            | inl inside ↦
                rw (gone, e, inside, PlacedInBand)
                  (before-InBand _ _ (rw (place_level_order-price venue _) inside)
                    (flip_levels-InBand live levels _ (drawn + 1) _ h.1))
          ]
        ]
      ]

  trip-InBand :
      (placed : Placed N.Decimal S)
      → AllInBand N config placed.levels
      → AllInBand N config
          (if too_many N print parse coid gateway store config step placed
            then trip N print parse coid gateway store config step placed
            else placed).levels
  unfolding trip
  trip-InBand placed h =
      elim (Bool-cases (too_many N print parse coid gateway store config step placed)) [
        | inl tripped ↦ rw tripped tt
        | inr fine ↦ rw fine h
      ]

  abbrev pub OutcomeInBand : Option (Grid N.Decimal S F × Result GridError (Unit {0})) → Type 0
  OutcomeInBand none = Unit
  OutcomeInBand (some r) = AllInBand N config r.0.levels

  poll-InBand :
      (g : Grid N.Decimal S F)
      → AllInBand N config g.levels
      → OutcomeInBand (poll_ladder N print parse coid gateway store config step g)
  unfolding poll_ladder
  poll-InBand g h = elim (Result-cases (gateway.fetch_open_orders g.venue config.symbol).1) [
    | inr (e, failed) ↦ rw (failed, OutcomeInBand) h
    | inl (live, listed) ↦
        let venue = (gateway.fetch_open_orders g.venue config.symbol).0 in
        let flips = flip_levels-InBand live g.levels venue g.drawn 0 h in
        elim (Option-cases (
          flip_levels N print parse coid gateway store config step live venue g.levels g.drawn 0)) [
            | inl overflow ↦ rw (listed, overflow, OutcomeInBand) tt
            | inr (flipped, e) ↦
                rw (listed, e, OutcomeInBand) (trip-InBand flipped (rw (e, PlacedInBand) at flips))
          ]
  ]

  module _ (laws : OrderLaws N) where
    seed-InBand :
        (g : Grid N.Decimal S F) (current : N.Decimal)
        → OutcomeInBand (seed_ladder N print parse coid gateway store config step g current)
    unfolding seed_ladder
    seed-InBand g current =
        with_climb (calculate_levels N coid config step current g.drawn) refl
          (calculate_levels-InBand N laws coid config step current g.drawn)
      where
        with_climb :
            (c : Climb N.Decimal)
            → calculate_levels N coid config step current g.drawn ≡ c
            → ClimbInBand N config c
            → OutcomeInBand (seed_ladder N print parse coid gateway store config step g current)
        with_climb exhausted e h = rw (e, OutcomeInBand) tt
        with_climb panicked e h = rw (e, OutcomeInBand) tt
        with_climb (complete fresh) e h =
            rw (e, OutcomeInBand)
              (trip-InBand _ (place_levels-InBand fresh g.venue (g.drawn + length fresh) 0 h))

    start-InBand :
        (g : Grid N.Decimal S F) (current : N.Decimal)
        → AllInBand N config g.levels
        → OutcomeInBand (start_ladder N print parse coid gateway store config step g current)
    unfolding start_ladder
    start-InBand g current h =
        with_restored (restore_levels N print parse coid config (store.load g.file) g.drawn) refl
          (restore_levels-InBand N print parse coid config (store.load g.file) g.drawn)
      where
        with_restored :
            (r : Result String (List (GridLevel N.Decimal) × ℕ))
            → restore_levels N print parse coid config (store.load g.file) g.drawn ≡ r
            → Restored N print parse coid config r
            → OutcomeInBand (start_ladder N print parse coid gateway store config step g current)
        with_restored (err m) e k = rw (e, OutcomeInBand) h
        with_restored (ok ([], drawn)) e k =
            rw (e, OutcomeInBand) (seed-InBand (record g { drawn = drawn }) current)
        with_restored (ok (level ∷ levels, drawn)) e k = rw (e, OutcomeInBand) k

    -- A cycle that begins with every level inside the configured band, and that does not panic, ends with
    -- every level inside it: whatever the ticker, the venue and the state file answer, and whether the
    -- ladder was seeded, restored, flipped or cleared.
    pub rebalance-InBand :
        (g : Grid N.Decimal S F) (ticker : Result PortError Ticker)
        → AllInBand N config g.levels
        → OutcomeInBand (rebalance N print parse coid gateway store config step g ticker)
    unfolding rebalance
    rebalance-InBand g ticker h = with_price (current_price N print parse ticker) refl g.levels refl
      where
        with_price :
            (p : Option (Result GridError N.Decimal))
            → current_price N print parse ticker ≡ p
            → (levels : List (GridLevel N.Decimal)) → g.levels ≡ levels
            → OutcomeInBand (rebalance N print parse coid gateway store config step g ticker)
        with_price none e levels l = rw (e, OutcomeInBand) tt
        with_price (some (err m)) e levels l = rw (e, OutcomeInBand) h
        with_price (some (ok current)) e [] l = rw (e, l, OutcomeInBand) (start-InBand g current h)
        with_price (some (ok current)) e (level ∷ levels) l =
            rw (e, l, OutcomeInBand) (poll-InBand g h)
