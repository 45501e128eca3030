-- ===== src/Indicators/Supertrend.antt =====
-- The Supertrend stop-and-reverse line (bin/longtrader-worker/src/indicators/supertrend.rs).
-- `none` is a panic of the decimal arithmetic.
pub mod Directed
use longtrader.Prelude.{ℕ, not, ◌||◌, Option, none, some, if◌then◌else◌}
use longtrader.Numbers.{Numbers}
use longtrader.Indicators.Checked.{◌>>=◌}
use longtrader.Indicators.Atr

pub data Direction : Type 0 where
  up : Direction
  down : Direction
  flat : Direction

module _ (N : Numbers) where
  pub record Supertrend : Type 0 where
    pub atr : Atr.Atr N
    pub multiplier : N.Decimal
    pub prev_close : Option N.Decimal
    pub prev_upper : Option N.Decimal
    pub prev_lower : Option N.Decimal
    pub direction : Direction
    pub value : Option N.Decimal

  abbrev pub new_supertrend : ℕ → N.Decimal → Supertrend
  new_supertrend period multiplier = record {
    atr = Atr.new_atr N period;
    multiplier = multiplier;
    prev_close = none;
    prev_upper = none;
    prev_lower = none;
    direction = flat;
    value = none;
  }

  -- The upper band stays where it was unless it or the close was crossed; so does the lower one.
  unfoldable pub final_upper :
      Option N.Decimal → Option N.Decimal → N.Decimal → N.Decimal → N.Decimal
  final_upper none prev_close close basic = basic
  final_upper (some pu) none close basic = basic
  final_upper (some pu) (some pc) close basic =
      if not (N.less pu pc || N.less close pu) then pu else basic

  unfoldable pub final_lower :
      Option N.Decimal → Option N.Decimal → N.Decimal → N.Decimal → N.Decimal
  final_lower none prev_close close basic = basic
  final_lower (some pl) none close basic = basic
  final_lower (some pl) (some pc) close basic =
      if not (N.less pc pl || N.less pl close) then pl else basic

  unfoldable pub turn : Direction → N.Decimal → N.Decimal → N.Decimal → Direction
  turn down fu fl close = if N.less fu close then up else down
  turn up fu fl close = if N.less close fl then down else up
  turn flat fu fl close = if N.less close fl then down else up

  unfoldable pub next_direction :
      Option N.Decimal → Option N.Decimal → Direction → N.Decimal → Direction
  unfolding turn
  next_direction none lower direction close = up
  next_direction (some fu) none direction close = up
  next_direction (some fu) (some fl) direction close = turn direction fu fl close

  unfoldable pub line : Direction → N.Decimal → N.Decimal → N.Decimal
  line down upper lower = upper
  line up upper lower = lower
  line flat upper lower = lower

  unfoldable pub settle : Supertrend → N.Decimal → N.Decimal → N.Decimal → Supertrend
  unfolding final_upper final_lower next_direction line
  settle s close basic_upper basic_lower =
      let upper = final_upper s.prev_upper s.prev_close close basic_upper in
      let lower = final_lower s.prev_lower s.prev_close close basic_lower in
      let direction = next_direction s.prev_upper s.prev_lower s.direction close in
      record s {
        direction = direction;
        value = some (line direction upper lower);
        prev_upper = some upper;
        prev_lower = some lower;
        prev_close = some close;
      }

  unfoldable pub push_ready :
      Supertrend → N.Decimal → N.Decimal → N.Decimal → N.Decimal → Option Supertrend
  unfolding settle
  push_ready s atr high low close = do
    sum ← N.plus high low
    hl2 ← N.divide sum (N.of_nat 2)
    width ← N.times atr s.multiplier
    basic_upper ← N.plus hl2 width
    basic_lower ← N.minus hl2 width
    some (settle s close basic_upper basic_lower)

  unfoldable pub push : Supertrend → N.Decimal → N.Decimal → N.Decimal → Option Supertrend
  unfolding Atr.push push_ready
  push s high low close = do
    atr ← Atr.push N s.atr high low close
    elim atr.rma_value [
      | none ↦ some (record s { atr = atr; prev_close = some close })
      | some range ↦ push_ready (record s { atr = atr }) range high low close
    ]
