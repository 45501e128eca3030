-- ===== src/Strategies/SimpleGrid/Ladder.antt =====
-- The ladder loop of the grid ends, and what it builds
-- (bin/longtrader-worker/src/strategies/simple_grid/grid.rs).
use longtrader.Prelude.{
  ◌≡◌, refl, ℕ, zero, suc, ◌+◌, ◌≤◌, ◌<◌, Bool, true, false, ◌&&◌, Bool-cases, Option-cases, inl,
  inr, String, leb, length, arith,
}
use longtrader.Numbers.{Numbers, zero_decimal, at_most}
use longtrader.Strategies.SimpleGrid.{
  SimpleGridConfig, GridLevel, Climb, exhausted, panicked, complete, above, climbing, climb,
  calculate_levels,
}

and_false : (b : Bool) → (b && false) ≡ false
and_false true = refl
and_false false = refl

-- The climb panicked, or it gave at most `room` rungs.
abbrev pub Settled : {A : Type 0} → ℕ → Climb A → Type 0
Settled room exhausted = ⊥
Settled room panicked = Unit
Settled room (complete levels) = length levels ≤ room

above-Settled :
    {A : Type 0} (room : ℕ) (level : GridLevel A) (c : Climb A)
    → Settled room c
    → Settled (suc room) (above level c)
above-Settled room level exhausted h = elim h [ ]
above-Settled room level panicked h = tt
above-Settled room level (complete levels) h = omega arith

module _ (N : Numbers) (coid : ℕ → String) where
  climb-Settled :
      (turns room : ℕ) (config : SimpleGridConfig N.Decimal) (step current price : N.Decimal)
      (count drawn : ℕ)
      → config.num_levels + 1 ≡ count + room
      → room < turns
      → Settled room (climb N coid turns config step current price count drawn)
  unfolding climb
  climb-Settled zero room config step current price count drawn full enough = absurd (omega arith)
  climb-Settled (suc turns) zero config step current price count drawn full enough =
      let over : leb count config.num_levels ≡ false = ground (arith, full) in
      let out : climbing N coid config price count ≡ false = rw over (and_false _) in
      rw (out, Settled) (omega arith)
  climb-Settled (suc turns) (suc room) config step current price count drawn full enough =
      elim (Bool-cases (climbing N coid config price count)) [
        | inr done ↦ rw (done, Settled) (omega arith)
        | inl more ↦ elim (Option-cases (N.plus price step)) [
          | inl overflow ↦ rw (more, overflow, Settled) tt
          | inr (next, e) ↦
              rw (more, e, Settled)
                (above-Settled room _
                  (climb N coid turns config step current next (count + 1) (drawn + 1))
                  (climb-Settled turns room config step current next (count + 1) (drawn + 1)
                    (omega arith) (omega arith)))
        ]
      ]

  -- The loop that builds the ladder ends after at most `num_levels + 2` tests of its condition: it
  -- panics in an addition, or gives at most `num_levels + 1` rungs.
  pub calculate_levels_ends :
      (config : SimpleGridConfig N.Decimal) (step current : N.Decimal) (drawn : ℕ)
      → Settled (config.num_levels + 1) (calculate_levels N coid config step current drawn)
  unfolding calculate_levels
  calculate_levels_ends config step current drawn =
      elim (Bool-cases (at_most N step (zero_decimal N))) [
        | inl flat ↦ rw flat (omega arith)
        | inr steep ↦ rw steep (
            climb-Settled (config.num_levels + 2) (config.num_levels + 1) config step current
              config.lower_price 0 drawn (omega arith) (omega arith))
      ]
