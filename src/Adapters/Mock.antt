-- ===== src/Adapters/Mock.antt =====
-- The mock venue (bin/longtrader-worker/src/adapters/mock.rs): its order book, the failures that a test
-- scripts, and the calls of the trading port. The text of an order's number is a parameter; a call is
-- one step, since it holds the lock of the state from its start to its end.
pub mod Book
pub mod Venue
pub mod Refinement
use longtrader.Prelude.{
  ℕ, zero, suc, ◌+◌, ◌-◌, ◌%◌, Bool, true, false, ◌&&◌, ◌||◌, Option, none, some, String, List, [],
  ◌∷◌, ◌++◌, map, leb, ◌==◌, str_eq, Result, ok, err, if◌then◌else◌,
}
use Prim.Native.String.{◌++◌ as str_append}
use longtrader.Ports.{
  u32_mod, u64_mod, ExchangeId, PortError, rpc, missing_field, transport, invalid_argument,
}
use longtrader.Session.Policy.{EnumValue, known, unknown}
use longtrader.Risk.Gateway.{exchange_or_default}
use longtrader.Adapters.Orders.{
  OrderTicket, PlacedOrder, status_open, status_canceled, is_open, CancelTicket, CancelAllTicket,
  TradingGateway,
}

-- The part of `State` that the trading calls read or write, with the adapter's counter of ids.
pub record MockState : Type 0 where
  pub orders : List PlacedOrder
  pub fail_next_creates : ℕ
  pub fail_next_cancels : ℕ
  pub creates_seen : ℕ
  pub fail_creates_from : Option ℕ
  pub cancel_all_seen : List (String × String)
  pub cancel_seen : List (String × String)
  pub next_id : ℕ

abbrev pub initial : MockState
initial = record {
  orders = [];
  fail_next_creates = 0;
  fail_next_cancels = 0;
  creates_seen = 0;
  fail_creates_from = none;
  cancel_all_seen = [];
  cancel_seen = [];
  next_id = 1;
}

unfoldable pub fail_next_creates : ℕ → MockState → MockState
fail_next_creates n s = record s { fail_next_creates = n; fail_creates_from = none }

unfoldable pub fail_next_cancels : ℕ → MockState → MockState
fail_next_cancels n s = record s { fail_next_cancels = n }

unfoldable pub fail_creates_from : ℕ → MockState → MockState
fail_creates_from index s = record s { fail_next_creates = 0; fail_creates_from = some index }

unfoldable pub heal_creates : MockState → MockState
heal_creates s = record s { fail_next_creates = 0; fail_creates_from = none }

-- The order that the venue answers with.
unfoldable pub opened : String → OrderTicket → PlacedOrder
opened id ticket = record {
  id = id;
  client_order_id = ticket.client_order_id;
  symbol = ticket.symbol;
  order_type = ticket.order_type;
  side = ticket.side;
  status = known status_open;
  amount = ticket.amount;
  price = ticket.price;
  filled = some "0";
  remaining = ticket.amount;
  cost = some "0";
  average = none;
  time_in_force = ticket.time_in_force;
  post_only = ticket.post_only;
  reduce_only = ticket.reduce_only;
}

abbrev pub closed_order : PlacedOrder → PlacedOrder
closed_order o = record o { status = known status_canceled }

-- `find(|o| o.id == id)` with the status written through the reference it gives.
unfoldable pub cancel_in : String → List PlacedOrder → List PlacedOrder × Option PlacedOrder
cancel_in id [] = ([], none)
cancel_in id (o ∷ os) =
    let rest = cancel_in id os in
    if str_eq o.id id then (closed_order o ∷ os, some (closed_order o)) else (o ∷ rest.0, rest.1)

-- `symbol.is_empty() || o.symbol == symbol`
abbrev pub wanted : String → PlacedOrder → Bool
wanted symbol o = str_eq symbol "" || str_eq o.symbol symbol

-- The book after the loop, and what it canceled.
unfoldable pub cancel_matching : String → List PlacedOrder → List PlacedOrder × List PlacedOrder
cancel_matching symbol [] = ([], [])
cancel_matching symbol (o ∷ os) =
    let rest = cancel_matching symbol os in
    if is_open o.status && wanted symbol o
    then (closed_order o ∷ rest.0, closed_order o ∷ rest.1)
    else (o ∷ rest.0, rest.1)

unfoldable pub open_orders : String → List PlacedOrder → List PlacedOrder
open_orders symbol [] = []
open_orders symbol (o ∷ os) =
    let rest = open_orders symbol os in
    if is_open o.status && wanted symbol o then o ∷ rest else rest

-- `fail_creates_from.is_some_and(|from| seen >= from)`
abbrev pub scripted : Option ℕ → ℕ → Bool
scripted none seen = false
scripted (some from) seen = leb from seen

unfoldable pub cancel_order : MockState → CancelTicket → MockState × Result PortError PlacedOrder
unfolding cancel_in
cancel_order s req =
    let logged = s.cancel_seen ++ ((exchange_or_default req.exchange_id).id, req.order_id) ∷ [] in
    elim s.fail_next_cancels [
      | suc n ↦ (
        record s { cancel_seen = logged; fail_next_cancels = n },
        err (transport "venue refused cancel"),
      )
      | zero ↦
          let found = cancel_in req.order_id s.orders in
          (
            record s { cancel_seen = logged; orders = found.0 },
            elim found.1 [
              | none ↦ err (invalid_argument (str_append "unknown order " req.order_id))
              | some o ↦ ok o
            ],
          )
    ]

unfoldable pub cancel_all_orders :
    MockState → CancelAllTicket → MockState × Result PortError (List PlacedOrder)
unfolding cancel_matching
cancel_all_orders s req =
    let result = cancel_matching req.symbol s.orders in
    (
      record s {
        cancel_all_seen =
            s.cancel_all_seen ++ ((exchange_or_default req.exchange_id).id, req.symbol) ∷ [];
        orders = result.0;
      },
      ok result.1,
    )

unfoldable pub fetch_open_orders :
    MockState → String → MockState × Result PortError (List PlacedOrder)
unfolding open_orders
fetch_open_orders s symbol = (s, ok (open_orders symbol s.orders))

module _ (order_name : ℕ → String) where
  -- A submission that the script lets through; `ids` is a 64-bit counter.
  unfoldable pub accept : MockState → OrderTicket → MockState × Result PortError PlacedOrder
  unfolding opened
  accept s ticket =
      let order = opened (order_name s.next_id) ticket in
      (record s { orders = s.orders ++ order ∷ []; next_id = (s.next_id + 1) % u64_mod }, ok order)

  unfoldable pub create_order :
      MockState → Option OrderTicket → MockState × Result PortError PlacedOrder
  unfolding accept
  create_order s req =
      let seen = s.creates_seen in
      let counted = record s { creates_seen = (seen + 1) % u32_mod } in
      elim s.fail_next_creates [
        | suc n ↦ (record counted { fail_next_creates = n }, err (rpc 500 "scripted failure"))
        | zero ↦
            if scripted s.fail_creates_from seen
            then (counted, err (rpc 500 "scripted failure"))
            else elim req [
              | none ↦ (counted, err (missing_field "order"))
              | some ticket ↦ accept counted ticket
            ]
      ]

  -- A batch stops at its first failure; what was placed before it stays placed.
  unfoldable pub batch_create_orders :
      MockState → List OrderTicket → MockState × Result PortError (List PlacedOrder)
  unfolding create_order
  batch_create_orders s [] = (s, ok [])
  batch_create_orders s (ticket ∷ tickets) =
      let one = create_order s (some ticket) in
      let rest = batch_create_orders one.0 tickets in
      elim one.1 [
        | err e ↦ (one.0, err e)
        | ok o ↦ elim rest.1 [ err e ↦ (rest.0, err e) | ok os ↦ (rest.0, ok (o ∷ os)) ]
      ]

  abbrev pub mock_gateway : TradingGateway MockState
  mock_gateway = record {
    create_order = λ s e ticket. create_order s (some ticket);
    cancel_order = cancel_order;
    cancel_all_orders = cancel_all_orders;
    fetch_open_orders = fetch_open_orders;
  }
