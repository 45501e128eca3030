-- ===== src/Adapters/Triggers.antt =====
-- The mock venue's conditional orders (bin/longtrader-worker/src/adapters/mock.rs,
-- `TriggerOrderGateway`; the messages of bin/longtrader-worker/src/ports.rs). The clock and the text of an
-- order's number are parameters.
pub mod Lifecycle
use longtrader.Prelude.{
  ℕ, ◌+◌, ◌%◌, Bool, true, false, ◌||◌, Option, none, some, String, List, [], ◌∷◌, ◌++◌, map,
  str_eq, Result, ok, err, if◌then◌else◌,
}
use longtrader.Prelude.Int.{ℤ}
use longtrader.Prelude.Dict.{contains}
use longtrader.Ports.{PortError, missing_field, invalid_argument, not_found}
use longtrader.Numbers.{Numbers, is_unpayable}
use longtrader.Contract.Decimal.{is_blank, codes}
use longtrader.Ports.{u64_mod}
use Prim.Native.String.{◌++◌ as str_append}

pub data TriggerOrderStatus : Type 0 where
  resting triggered canceled rejected : TriggerOrderStatus

unfoldable pub as_str : TriggerOrderStatus → String
as_str resting = "open"
as_str triggered = "triggered"
as_str canceled = "canceled"
as_str rejected = "rejected"

abbrev pub is_resting : TriggerOrderStatus → Bool
is_resting resting = true
is_resting triggered = false
is_resting canceled = false
is_resting rejected = false

pub record TriggerOrderRequest (A : Type 0) : Type 0 where
  pub client_order_id : String
  pub symbol : String
  pub is_buy : Bool
  pub trigger_price : A
  pub qty : A
  pub reduce_only : Bool

pub record TriggerOrder (A : Type 0) : Type 0 where
  pub id : String
  pub client_order_id : String
  pub symbol : String
  pub is_buy : Bool
  pub trigger_price : A
  pub qty : A
  pub reduce_only : Bool
  pub status : TriggerOrderStatus
  pub created_at_ms : ℤ
  pub order_id : Option String
  pub triggered_at_ms : Option ℤ

-- A row of `State::trigger_orders`.
pub record TriggerRow (A : Type 0) : Type 0 where
  pub id : String
  pub request : TriggerOrderRequest A
  pub status : TriggerOrderStatus
  pub created_at_ms : ℤ

-- The rows, and the counter of ids.
pub record TriggerBook (A : Type 0) : Type 0 where
  pub rows : List (TriggerRow A)
  pub next_id : ℕ

-- The message names the order and its status.
unfoldable pub not_cancellable : String → TriggerOrderStatus → PortError
unfolding as_str
not_cancellable id status = invalid_argument (
    str_append "trigger order " (
      str_append id
        (str_append " is " (str_append (as_str status) " and can no longer be cancelled"))))

-- `symbols.is_empty() || symbols.contains(&symbol)`
abbrev pub names_symbol : List String → String → Bool
names_symbol [] symbol = true
names_symbol (s ∷ ss) symbol = contains symbol (s ∷ ss)

module _ {A : Type 0} where
  unfoldable pub trigger_order : TriggerRow A → TriggerOrder A
  trigger_order row = record {
    id = row.id;
    client_order_id = row.request.client_order_id;
    symbol = row.request.symbol;
    is_buy = row.request.is_buy;
    trigger_price = row.request.trigger_price;
    qty = row.request.qty;
    reduce_only = row.request.reduce_only;
    status = row.status;
    created_at_ms = row.created_at_ms;
    order_id = none;
    triggered_at_ms = none;
  }

  abbrev pub cancel_row : TriggerRow A → TriggerRow A
  cancel_row row = record row { status = canceled }

  -- The first row with the id, if it still rests.
  unfoldable pub cancel_rows :
      String → List (TriggerRow A) → List (TriggerRow A) × Result PortError (TriggerOrder A)
  unfolding trigger_order not_cancellable
  cancel_rows id [] = ([], err (not_found (str_append "trigger order " id)))
  cancel_rows id (row ∷ rows) =
      let rest = cancel_rows id rows in
      if str_eq row.id id
      then if is_resting row.status
        then (cancel_row row ∷ rows, ok (trigger_order (cancel_row row)))
        else (row ∷ rows, err (not_cancellable id row.status))
      else (row ∷ rest.0, rest.1)

  unfoldable pub cancel_trigger_order :
      TriggerBook A → String → TriggerBook A × Result PortError (TriggerOrder A)
  unfolding cancel_rows
  cancel_trigger_order b id = let r = cancel_rows id b.rows in (record b { rows = r.0 }, r.1)

  unfoldable pub listed : List String → List (TriggerRow A) → List (TriggerOrder A)
  unfolding trigger_order
  listed symbols [] = []
  listed symbols (row ∷ rows) =
      let rest = listed symbols rows in
      if names_symbol symbols row.request.symbol then trigger_order row ∷ rest else rest

  unfoldable pub list_trigger_orders : TriggerBook A → List String → List (TriggerOrder A)
  unfolding listed
  list_trigger_orders b symbols = listed symbols b.rows

  -- The rows that still rest.
  unfoldable pub resting_rows : List (TriggerRow A) → List (TriggerRow A)
  resting_rows [] = []
  resting_rows (row ∷ rows) =
      let rest = resting_rows rows in if is_resting row.status then row ∷ rest else rest

module _ (N : Numbers) where
  -- The refused quantity or price at the end of a message is left out.
  unfoldable pub validate_trigger_request : TriggerOrderRequest N.Decimal → Option PortError
  unfolding is_blank codes
  validate_trigger_request req =
      if is_blank (codes req.symbol)
      then some (missing_field "symbol")
      else if is_unpayable N req.qty
      then some (invalid_argument "trigger order qty must be positive")
      else if is_unpayable N req.trigger_price
      then some (invalid_argument "trigger order trigger_price must be positive")
      else none

  unfoldable pub create_trigger_order :
      (ℕ → String)
      → TriggerBook N.Decimal
      → ℤ
      → TriggerOrderRequest N.Decimal
      → TriggerBook N.Decimal × Result PortError (TriggerOrder N.Decimal)
  unfolding validate_trigger_request trigger_order
  create_trigger_order trigger_name b now req = elim (validate_trigger_request req) [
    | some e ↦ (b, err e)
    | none ↦
        let row : TriggerRow N.Decimal = record {
          id = trigger_name b.next_id;
          request = req;
          status = resting;
          created_at_ms = now;
        } in
        (
          record { rows = b.rows ++ row ∷ []; next_id = (b.next_id + 1) % u64_mod },
          ok (trigger_order row),
        )
  ]
