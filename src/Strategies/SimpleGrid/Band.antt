-- ===== src/Strategies/SimpleGrid/Band.antt =====
-- The grid quotes inside its band (bin/longtrader-worker/src/strategies/simple_grid/).
use longtrader.Prelude.{
  ◌≡◌, refl, ℕ, zero, suc, ◌+◌, Bool, true, false, ◌&&◌, Bool-cases, Option-cases, Result-cases,
  inl, inr, Option, none, some, String, List, [], ◌∷◌, Result, ok, err,
}
use longtrader.Numbers.{Numbers, zero_decimal, at_most}
use longtrader.Strategies.SimpleGrid.{
  SimpleGridConfig, GridLevel, Climb, exhausted, panicked, complete, above, climbing, climb,
  calculate_levels, in_band,
}
use longtrader.Strategies.SimpleGrid.Saved.{
  LevelRow, Document, level_rows, other_document, level_from_json, restore_rows, restore_levels,
}

and_true : (a b : Bool) → (a && b) ≡ true → b ≡ true → a ≡ true
and_true true b h k = refl
and_true false b h k = h

and_left : (a b : Bool) → (a && b) ≡ true → a ≡ true
and_left true b h = refl
and_left false b h = h

and_both : (a b : Bool) → a ≡ true → b ≡ true → (a && b) ≡ true
and_both a b h k = rw (h, k) refl

-- What the bounds need of the order of decimals: adding a positive step does not lead below a bound.
pub record OrderLaws (N : Numbers) : Type 0 where
  pub at_most_refl : (a : N.Decimal) → at_most N a a ≡ true
  pub at_most-plus :
      (bound price step next : N.Decimal)
      → at_most N step (zero_decimal N) ≡ false
      → N.plus price step ≡ some next
      → at_most N bound price ≡ true
      → at_most N bound next ≡ true

module _ (N : Numbers) (config : SimpleGridConfig N.Decimal) where
  abbrev pub AllInBand : List (GridLevel N.Decimal) → Type 0
  AllInBand [] = Unit
  AllInBand (level ∷ levels) = (in_band N config level.price ≡ true) × AllInBand levels

  abbrev pub ClimbInBand : Climb N.Decimal → Type 0
  ClimbInBand exhausted = Unit
  ClimbInBand panicked = Unit
  ClimbInBand (complete levels) = AllInBand levels

  above-ClimbInBand :
      (level : GridLevel N.Decimal) (c : Climb N.Decimal)
      → in_band N config level.price ≡ true
      → ClimbInBand c
      → ClimbInBand (above level c)
  above-ClimbInBand level exhausted h k = tt
  above-ClimbInBand level panicked h k = tt
  above-ClimbInBand level (complete levels) h k = (h, k)

module _ (N : Numbers) (laws : OrderLaws N) (coid : ℕ → String)
    (config : SimpleGridConfig N.Decimal) where
  climb-InBand :
      (turns : ℕ) (step current price : N.Decimal) (count drawn : ℕ)
      → at_most N step (zero_decimal N) ≡ false
      → at_most N config.lower_price price ≡ true
      → ClimbInBand N config (climb N coid turns config step current price count drawn)
  unfolding climb in_band
  climb-InBand zero step current price count drawn steep from = tt
  climb-InBand (suc turns) step current price count drawn steep from =
      elim (Bool-cases (climbing N coid config price count)) [
        | inr done ↦ rw (done, ClimbInBand) tt
        | inl more ↦ elim (Option-cases (N.plus price step)) [
          | inl overflow ↦ rw (more, overflow, ClimbInBand) tt
          | inr (next, e) ↦
              rw (more, e, ClimbInBand)
                (above-ClimbInBand N config _ _ (and_both _ _ from (and_left _ _ more)) (
                  climb-InBand turns step current next (count + 1) (drawn + 1) steep
                    (laws.at_most-plus config.lower_price price step next steep e from)))
        ]
      ]

  pub calculate_levels-InBand :
      (step current : N.Decimal) (drawn : ℕ)
      → ClimbInBand N config (calculate_levels N coid config step current drawn)
  unfolding calculate_levels
  calculate_levels-InBand step current drawn = elim (Bool-cases (at_most N step (zero_decimal N))) [
    | inl flat ↦ rw flat tt
    | inr steep ↦ rw steep (
        climb-InBand (config.num_levels + 2) step current config.lower_price 0 drawn steep
          (laws.at_most_refl config.lower_price))
  ]

module _ (N : Numbers) (print : N.Decimal → String) (parse : String → Option N.Decimal)
    (coid : ℕ → String) (config : SimpleGridConfig N.Decimal) where
  abbrev pub Restored : Result String (List (GridLevel N.Decimal) × ℕ) → Type 0
  Restored (err e) = Unit
  Restored (ok r) = AllInBand N config r.0

  restore_rows-InBand :
      (rows : List LevelRow) (drawn : ℕ)
      → Restored (restore_rows N print parse coid config rows drawn)
  unfolding restore_rows
  restore_rows-InBand [] drawn = tt
  restore_rows-InBand (row ∷ rows) drawn =
      elim (Result-cases (level_from_json N print parse coid row drawn)) [
        | inr (e, bad) ↦ rw (bad, Restored) tt
        | inl (read, good) ↦
            elim (Result-cases (restore_rows N print parse coid config rows read.1)) [
              | inr (e, bad) ↦ rw (good, bad, Restored) tt
              | inl (rest, fine) ↦
                  let ih = restore_rows-InBand rows read.1 in
                  let kept : AllInBand N config rest.0 = rw fine at ih in
                  elim (Bool-cases (in_band N config read.0.price)) [
                    | inl inside ↦ rw (good, fine, inside, Restored) (inside, kept)
                    | inr outside ↦ rw (good, fine, outside, Restored) kept
                  ]
            ]
      ]

  pub restore_levels-InBand :
      (loaded : Result String (Option Document)) (drawn : ℕ)
      → Restored (restore_levels N print parse coid config loaded drawn)
  unfolding restore_levels
  restore_levels-InBand loaded drawn = elim (Bool-cases config.has_state_file) [
    | inr no_file ↦ rw no_file tt
    | inl file ↦ rw file (elim loaded as (λ l. Restored (from_document l)) [
      | err e ↦ tt
      | ok none ↦ tt
      | ok (some other_document) ↦ tt
      | ok (some (level_rows rows)) ↦ restore_rows-InBand rows drawn
    ])
  ]
    where
      from_document :
          Result String (Option Document) → Result String (List (GridLevel N.Decimal) × ℕ)
      from_document (err e) = err e
      from_document (ok none) = ok ([], drawn)
      from_document (ok (some other_document)) = err "grid state is not a list of levels"
      from_document (ok (some (level_rows rows))) =
          restore_rows N print parse coid config rows drawn
