-- ===== src/Indicators/Supertrend/Directed.antt =====
-- A Supertrend line has a direction as soon as it has a value
-- (bin/longtrader-worker/src/indicators/supertrend.rs).
use longtrader.Prelude.{
  ◌≡◌, refl, Bool, true, false, Option, none, some, Option-cases, Bool-cases, inl, inr,
}
use mathlib.Core.Path.{subst}
use mathlib.Core.Option.{some-injective}
use longtrader.Numbers.{Numbers}
use longtrader.Indicators.Atr
use longtrader.Indicators.Checked.{bind-some}
use longtrader.Indicators.Supertrend.{
  Direction, up, down, flat, Supertrend, turn, next_direction, settle, push_ready, push,
}

abbrev pub is_flat : Direction → Bool
is_flat up = false
is_flat down = false
is_flat flat = true

module _ (N : Numbers) where
  abbrev IsDirected : Supertrend N → Type 0
  IsDirected s = (v : N.Decimal) → s.value ≡ some v → is_flat s.direction ≡ false

  turn-is_flat : (d : Direction) (fu fl close : N.Decimal) → is_flat (turn N d fu fl close) ≡ false
  unfolding turn
  turn-is_flat down fu fl close = elim (Bool-cases (N.less fu close)) [
    | inl t ↦ rw t refl
    | inr f ↦ rw f refl
  ]
  turn-is_flat up fu fl close = elim (Bool-cases (N.less close fl)) [
    | inl t ↦ rw t refl
    | inr f ↦ rw f refl
  ]
  turn-is_flat flat fu fl close = elim (Bool-cases (N.less close fl)) [
    | inl t ↦ rw t refl
    | inr f ↦ rw f refl
  ]

  next_direction-is_flat :
      (upper lower : Option N.Decimal) (d : Direction) (close : N.Decimal)
      → is_flat (next_direction N upper lower d close) ≡ false
  unfolding next_direction
  next_direction-is_flat none lower d close = refl
  next_direction-is_flat (some fu) none d close = refl
  next_direction-is_flat (some fu) (some fl) d close = turn-is_flat d fu fl close

  settle-IsDirected :
      (s : Supertrend N) (close upper lower : N.Decimal) → IsDirected (settle N s close upper lower)
  unfolding settle
  settle-IsDirected s close upper lower v known =
      next_direction-is_flat s.prev_upper s.prev_lower s.direction close

  push_ready-IsDirected :
      (s s' : Supertrend N) (atr high low close : N.Decimal)
      → push_ready N s atr high low close ≡ some s'
      → IsDirected s'
  unfolding push_ready
  push_ready-IsDirected s s' atr high low close made =
      let (sum, p, rest1) = bind-some (N.plus high low) _ s' made in
      let (hl2, q, rest2) = bind-some (N.divide sum (N.of_nat 2)) _ s' rest1 in
      let (width, r, rest3) = bind-some (N.times atr s.multiplier) _ s' rest2 in
      let (basic_upper, u, rest4) = bind-some (N.plus hl2 width) _ s' rest3 in
      let (basic_lower, l, rest5) = bind-some (N.minus hl2 width) _ s' rest4 in
      subst IsDirected (some-injective _ s' rest5)
        (settle-IsDirected s close basic_upper basic_lower)

  -- A line that has a direction where it has a value keeps that over every bar that is taken.
  push-IsDirected :
      (s s' : Supertrend N) (high low close : N.Decimal)
      → IsDirected s
      → push N s high low close ≡ some s'
      → IsDirected s'
  unfolding push
  push-IsDirected s s' high low close was made =
      let (atr, p, rest) = bind-some (Atr.push N s.atr high low close) _ s' made in
      elim (Option-cases atr.rma_value) [
        | inl young ↦ subst IsDirected (some-injective _ s' (rw young at rest)) was
        | inr (range, known) ↦
            push_ready-IsDirected (record s { atr = atr }) s' range high low close
              (rw known at rest)
      ]
