-- ===== src/Strategies/SimpleGrid/Saved.antt =====
-- The grid's state file (bin/longtrader-worker/src/strategies/simple_grid/persistence.rs). The file and
-- its JSON document belong to other code: a document is a list of rows, or something else. How a decimal
-- is printed and parsed is the decimal crate's.
use longtrader.Prelude.{
  ℕ, ◌+◌, not, Option, none, some, String, List, [], ◌∷◌, map, str_eq, Result, ok, err,
  if◌then◌else◌,
}
use longtrader.Numbers.{Numbers}
use longtrader.Risk.Gateway.{OrderSide, side_unspecified, buy, sell}
use longtrader.Strategies.SimpleGrid.{SimpleGridConfig, GridLevel, in_band}

-- A row of the document, by the fields that are read: a field is absent where it is no text.
pub record LevelRow : Type 0 where
  pub price : Option String
  pub side : Option String
  pub client_order_id : Option String
  pub order_id : Option String

pub data Document : Type 0 where
  level_rows : List LevelRow → Document
  other_document : Document

-- `row.get(key).and_then(as_str).unwrap_or_default()`
abbrev pub text : Option String → String
text none = ""
text (some t) = t

abbrev pub side_text : OrderSide → String
side_text buy = "buy"
side_text sell = "sell"
side_text side_unspecified = "sell"

unfoldable pub parse_side : Option String → Option OrderSide
parse_side none = none
parse_side (some t) =
    if str_eq t "buy" then some buy else if str_eq t "sell" then some sell else none

module _ (N : Numbers) (print : N.Decimal → String) (parse : String → Option N.Decimal)
    (coid : ℕ → String) where
  unfoldable pub row_of_level : GridLevel N.Decimal → LevelRow
  row_of_level level = record {
    price = some (print level.price);
    side = some (side_text level.side);
    client_order_id = some level.client_order_id;
    order_id = some level.order_id;
  }

  unfoldable pub persist_levels : List (GridLevel N.Decimal) → Document
  unfolding row_of_level
  persist_levels levels = level_rows (map row_of_level levels)

  -- The stored client order id, or a fresh one; with the count of ids drawn after it.
  unfoldable pub restored_coid : String → ℕ → String × ℕ
  restored_coid stored drawn = if str_eq stored "" then (coid drawn, drawn + 1) else (stored, drawn)

  unfoldable pub level_from_json : LevelRow → ℕ → Result String (GridLevel N.Decimal × ℕ)
  unfolding parse_side restored_coid
  level_from_json row drawn = elim row.price [
    | none ↦ err "grid level row has no price"
    | some written ↦ elim (parse written) [
      | none ↦ err "grid level price is not a decimal"
      | some price ↦ elim (parse_side row.side) [
        | none ↦ err "grid level side is not buy/sell"
        | some side ↦
            let id = restored_coid (text row.client_order_id) drawn in
            ok (
              record {
                price = price;
                side = side;
                client_order_id = id.0;
                order_id = text row.order_id;
              },
              id.1,
            )
      ]
    ]
  ]

  unfoldable pub restore_rows :
      SimpleGridConfig N.Decimal
      → List LevelRow
      → ℕ
      → Result String (List (GridLevel N.Decimal) × ℕ)
  unfolding level_from_json in_band
  restore_rows config [] drawn = ok ([], drawn)
  restore_rows config (row ∷ rows) drawn = elim (level_from_json row drawn) [
    | err e ↦ err e
    | ok read ↦ elim (restore_rows config rows read.1) [
      | err e ↦ err e
      | ok rest ↦ ok (if in_band N config read.0.price then read.0 ∷ rest.0 else rest.0, rest.1)
    ]
  ]

  -- `loaded` is what the state store answers, if a file is configured: an error, no document, or one.
  unfoldable pub restore_levels :
      SimpleGridConfig N.Decimal
      → Result String (Option Document)
      → ℕ
      → Result String (List (GridLevel N.Decimal) × ℕ)
  unfolding restore_rows
  restore_levels config loaded drawn =
      if not config.has_state_file then ok ([], drawn) else elim loaded [
        | err e ↦ err e
        | ok none ↦ ok ([], drawn)
        | ok (some other_document) ↦ err "grid state is not a list of levels"
        | ok (some (level_rows rows)) ↦ restore_rows config rows drawn
      ]
