-- ===== src/Strategies/SimpleGrid/Restored.antt =====
-- A ladder that is written to the state file comes back
-- (bin/longtrader-worker/src/strategies/simple_grid/persistence.rs).
use longtrader.Prelude.{
  ◌≡◌, refl, ℕ, true, false, Option, some, String, List, [], ◌∷◌, map, str_eq, ok, if◌then◌else◌,
}
use longtrader.Numbers.{Numbers}
use longtrader.Risk.Gateway.{OrderSide, side_unspecified, buy, sell}
use longtrader.Strategies.SimpleGrid.{SimpleGridConfig, GridLevel, in_band}
use longtrader.Strategies.SimpleGrid.Saved.{
  side_text, parse_side, row_of_level, persist_levels, restored_coid, level_from_json, restore_rows,
  restore_levels,
}

abbrev pub Sided : OrderSide → Type 0
Sided buy = Unit
Sided sell = Unit
Sided side_unspecified = ⊥

parse_side-side_text :
    (side : OrderSide) → Sided side → parse_side (some (side_text side)) ≡ some side
unfolding parse_side
parse_side-side_text buy h = refl
parse_side-side_text sell h = refl
parse_side-side_text side_unspecified h = absurd h

-- A level that the strategy writes: its side is one of the two, and it has a client order id.
abbrev pub Writable : {A : Type 0} → GridLevel A → Type 0
Writable level = (str_eq level.client_order_id "" ≡ false) × Sided level.side

abbrev pub AllWritable : {A : Type 0} → List (GridLevel A) → Type 0
AllWritable [] = Unit
AllWritable (level ∷ levels) = Writable level × AllWritable levels

module _ (N : Numbers) (print : N.Decimal → String) (parse : String → Option N.Decimal)
    (coid : ℕ → String) where
  abbrev pub kept :
      SimpleGridConfig N.Decimal → List (GridLevel N.Decimal) → List (GridLevel N.Decimal)
  kept config [] = []
  kept config (level ∷ levels) =
      if in_band N config level.price then level ∷ kept config levels else kept config levels

  level_from_json-row_of_level :
      (level : GridLevel N.Decimal) (drawn : ℕ)
      → ((d : N.Decimal) → parse (print d) ≡ some d)
      → Writable level
      → level_from_json N print parse coid (row_of_level N print parse coid level) drawn
        ≡ ok (level, drawn)
  unfolding level_from_json row_of_level
  level_from_json-row_of_level level drawn faithful (named, sided) =
      rw (faithful level.price, parse_side-side_text level.side sided, opened named) refl
    where
      opened :
          str_eq level.client_order_id "" ≡ false
          → restored_coid N print parse coid level.client_order_id drawn
            ≡ (level.client_order_id, drawn)
      opened h = rw (restored_coid, h) refl

  restore-persist_rows :
      (config : SimpleGridConfig N.Decimal) (levels : List (GridLevel N.Decimal)) (drawn : ℕ)
      → ((d : N.Decimal) → parse (print d) ≡ some d)
      → AllWritable levels
      → restore_rows N print parse coid config (map (row_of_level N print parse coid) levels) drawn
        ≡ ok (kept config levels, drawn)
  unfolding restore_rows row_of_level
  restore-persist_rows config [] drawn faithful h = refl
  restore-persist_rows config (level ∷ levels) drawn faithful h =
      rw
        (
          level_from_json-row_of_level level drawn faithful h.0,
          restore-persist_rows config levels drawn faithful h.1,
        )
        refl

  -- If the crate reads back what it prints, a ladder whose levels have a side and a client order id comes
  -- back from the state file with every field as it was, less the levels outside the configured band,
  -- and no id is drawn.
  pub restore-persist :
      (config : SimpleGridConfig N.Decimal) (levels : List (GridLevel N.Decimal)) (drawn : ℕ)
      → ((d : N.Decimal) → parse (print d) ≡ some d)
      → config.has_state_file ≡ true
      → AllWritable levels
      → restore_levels N print parse coid config
          (ok (some (persist_levels N print parse coid levels)))
          drawn
        ≡ ok (kept config levels, drawn)
  unfolding restore_levels persist_levels
  restore-persist config levels drawn faithful file h =
      rw file (restore-persist_rows config levels drawn faithful h)
