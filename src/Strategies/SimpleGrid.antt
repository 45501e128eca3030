-- ===== src/Strategies/SimpleGrid.antt =====
-- The grid strategy's ladder (bin/longtrader-worker/src/strategies/simple_grid/grid.rs, and the types of
-- simple_grid/mod.rs). Client order ids come from a generator of the `ulid` crate, here a function of
-- how many were drawn.
pub mod Ladder
pub mod Saved
pub mod Restored
pub mod Rebalance
pub mod Cycle
pub mod Band
pub mod Bounded
pub mod OnMock
use longtrader.Prelude.{
  ℕ, zero, suc, ◌+◌, Bool, true, false, not, ◌&&◌, ◌||◌, Option, none, some, String, List, [], ◌∷◌,
  leb, ◌==◌, if◌then◌else◌,
}
use longtrader.Ports.{ExchangeId}
use longtrader.Numbers.{Numbers, zero_decimal, at_most}
use longtrader.Risk.Gateway.{OrderSide, buy, sell}

pub record SimpleGridConfig (A : Type 0) : Type 0 where
  pub exchange_id : ExchangeId
  pub symbol : String
  pub lower_price : A
  pub upper_price : A
  pub num_levels : ℕ
  pub qty_per_level : A
  pub has_state_file : Bool

pub record GridLevel (A : Type 0) : Type 0 where
  pub price : A
  pub side : OrderSide
  pub client_order_id : String
  pub order_id : String

-- A climb runs out of turns, panics in an addition, or gives the ladder.
pub data Climb (A : Type 0) : Type 0 where
  exhausted panicked : Climb A
  complete : List (GridLevel A) → Climb A

abbrev pub above : {A : Type 0} → GridLevel A → Climb A → Climb A
above level exhausted = exhausted
above level panicked = panicked
above level (complete levels) = complete (level ∷ levels)

module _ (N : Numbers) where
  -- `level.price < config.lower_price || level.price > config.upper_price`, negated.
  unfoldable pub in_band : SimpleGridConfig N.Decimal → N.Decimal → Bool
  in_band config price = at_most N config.lower_price price && at_most N price config.upper_price

module _ (N : Numbers) (coid : ℕ → String) where
  -- `none` is a panic of the arithmetic.
  unfoldable pub grid_step : SimpleGridConfig N.Decimal → Option N.Decimal
  grid_step config =
      if config.num_levels == 0
      then some (zero_decimal N)
      else elim (N.minus config.upper_price config.lower_price) [
        | none ↦ none
        | some span ↦ N.divide span (N.of_nat config.num_levels)
      ]

  unfoldable pub side_for : N.Decimal → N.Decimal → OrderSide
  side_for price current = if N.less price current then buy else sell

  -- `price <= config.upper_price && levels.len() <= max_levels`
  abbrev pub climbing : SimpleGridConfig N.Decimal → N.Decimal → ℕ → Bool
  climbing config price count = at_most N price config.upper_price && leb count config.num_levels

  -- The loop, with at most `turns` tests of its condition; `count` rungs stand already, and `drawn` ids
  -- were drawn.
  unfoldable pub climb :
      ℕ → SimpleGridConfig N.Decimal → N.Decimal → N.Decimal → N.Decimal → ℕ → ℕ → Climb N.Decimal
  unfolding side_for
  climb zero config step current price count drawn = exhausted
  climb (suc turns) config step current price count drawn = elim (climbing config price count) [
    | false ↦ complete []
    | true ↦ elim (N.plus price step) [
      | none ↦ panicked
      | some next ↦
          above
            (record {
              price = price;
              side = side_for price current;
              client_order_id = coid drawn;
              order_id = "";
            })
            (climb turns config step current next (count + 1) (drawn + 1))
    ]
  ]

  -- The bound is as good as none: the loop tests its condition at most `num_levels + 2` times.
  unfoldable pub calculate_levels :
      SimpleGridConfig N.Decimal → N.Decimal → N.Decimal → ℕ → Climb N.Decimal
  unfolding climb
  calculate_levels config step current drawn =
      if at_most N step (zero_decimal N)
      then complete []
      else climb (config.num_levels + 2) config step current config.lower_price 0 drawn
