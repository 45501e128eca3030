-- ===== src/Indicators/Donchian.antt =====
-- The Donchian channel (bin/longtrader-worker/src/indicators/donchian.rs): the highest high and the lowest
-- low over a window of samples.
pub mod Window
use longtrader.Prelude.{
  ℕ, Bool, Option, none, some, List, [], ◌∷◌, ◌++◌, map, length, drop, ltb, if◌then◌else◌,
}
use longtrader.Numbers.{Numbers}

module _ (N : Numbers) where
  pub record DonchianChannel : Type 0 where
    pub window : ℕ
    pub buf : List (N.Decimal × N.Decimal)

  abbrev pub new_channel : ℕ → DonchianChannel
  new_channel window = record { window = window; buf = [] }

  unfoldable pub push : DonchianChannel → N.Decimal → N.Decimal → DonchianChannel
  push c high low =
      let longer = c.buf ++ (high, low) ∷ [] in
      record c { buf = if ltb c.window (length longer) then drop 1 longer else longer }

  -- The greatest and the least of a list; among equal values `max` keeps the last and `min` the first.
  unfoldable pub greatest : List N.Decimal → Option N.Decimal
  greatest [] = none
  greatest (x ∷ xs) =
      let rest = greatest xs in
      elim rest [ none ↦ some x | some best ↦ if N.less best x then some x else some best ]

  unfoldable pub least : List N.Decimal → Option N.Decimal
  least [] = none
  least (x ∷ xs) =
      let rest = least xs in
      elim rest [ none ↦ some x | some best ↦ if N.less best x then some best else some x ]

  unfoldable pub upper : DonchianChannel → Option N.Decimal
  unfolding greatest
  upper c = greatest (map (λ (s : N.Decimal × N.Decimal). s.0) c.buf)

  unfoldable pub lower : DonchianChannel → Option N.Decimal
  unfolding least
  lower c = least (map (λ (s : N.Decimal × N.Decimal). s.1) c.buf)

  -- The inner `none` is an empty channel, the outer one a panic.
  unfoldable pub middle : DonchianChannel → Option (Option N.Decimal)
  unfolding upper lower
  middle c = elim (upper c) [
    | none ↦ some none
    | some u ↦ elim (lower c) [
      | none ↦ some none
      | some l ↦ elim (N.plus u l) [
        | none ↦ none
        | some sum ↦ elim (N.divide sum (N.of_nat 2)) [ none ↦ none | some m ↦ some (some m) ]
      ]
    ]
  ]

  -- The samples of a run, one after the other.
  abbrev pub push_all : DonchianChannel → List (N.Decimal × N.Decimal) → DonchianChannel
  push_all c [] = c
  push_all c (s ∷ samples) = push_all (push c s.0 s.1) samples
