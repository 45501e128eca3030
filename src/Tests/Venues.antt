-- ===== src/Tests/Venues.antt =====
-- Examples of the theorems about the mock venue and its conditional orders.
use longtrader.Prelude.{◌≡◌, refl, true, false, none, some, List, [], ◌∷◌, err, arith}
use longtrader.Prelude.Int.{pos}
use longtrader.Session.Policy.{known}
use longtrader.Risk.Gateway.{buy}
use longtrader.Adapters.Orders.{OrderTicket, limit, gtc}
use longtrader.Adapters.Mock.{initial}
use longtrader.Adapters.Mock.Book.{book}
use longtrader.Adapters.Mock.Venue.{
  VenueCall, place_order, cancel, list_open, Dialogue, Sound, serve_all,
}
use longtrader.Adapters.Mock.Refinement.{mock_refines_book}
use longtrader.Adapters.Triggers.{
  TriggerOrderRequest, TriggerBook, resting, canceled, cancel_trigger_order, cancel_rows,
  trigger_order, not_cancellable,
}
use longtrader.Adapters.Triggers.Lifecycle.{place, withdraw, after, cancel_trigger_once}
use longtrader.Tests.Integers.{integers, tally, tally-injective}
use longtrader.Tests.{venue}

abbrev ticket : OrderTicket
ticket = record {
  client_order_id = "c1";
  symbol = "BTC/USDT";
  order_type = known limit;
  side = known buy;
  amount = some "1";
  price = some "90";
  time_in_force = known gtc;
  post_only = false;
  reduce_only = false;
}

abbrev asked : List VenueCall
asked =
    place_order (some ticket)
    ∷ place_order none
    ∷ cancel (record { exchange_id = some venue; order_id = "1" })
    ∷ list_open ""
    ∷ []

mock_refines_book_example :
    let r = serve_all tally initial asked in
    Dialogue (book initial.orders) r.1 (book r.0.orders) × Sound tally r.0
mock_refines_book_example =
    mock_refines_book tally tally-injective initial asked (omega arith) (tt, tt)

abbrev backstop : TriggerOrderRequest integers.Decimal
backstop = record {
  client_order_id = "t1";
  symbol = "BTC/USDT";
  is_buy = false;
  trigger_price = pos 80;
  qty = pos 1;
  reduce_only = true;
}

abbrev armed : TriggerBook integers.Decimal
armed = record {
  rows = record { id = "1"; request = backstop; status = resting; created_at_ms = pos 5 } ∷ [];
  next_id = 2;
}

cancel_trigger_once_example :
    let b' =
      after integers tally
        (cancel_trigger_order armed "1").0
        (withdraw "1" ∷ place (pos 9) backstop ∷ []) in
    cancel_trigger_order b' "1" ≡ (b', err (not_cancellable "1" canceled))
unfolding cancel_trigger_order cancel_rows
cancel_trigger_once_example =
    cancel_trigger_once integers tally armed "1"
      (trigger_order
        (record { id = "1"; request = backstop; status = canceled; created_at_ms = pos 5 }))
      (withdraw "1" ∷ place (pos 9) backstop ∷ []) refl
