-- ===== src/Session/Proxy.antt =====
-- The order-submitting handlers of the trading proxy (bin/longtrader-worker/src/session/proxy.rs).
-- The wrapped gateway's answers are parameters, and `meanwhile` is what other tasks do until the
-- venue has answered: to the registry, and to the handle that the gate answered with, which lives on
-- if the registry drops it.
pub mod Attributed
pub mod Errors
pub mod Unified
pub mod Handlers
pub mod Retried
use longtrader.Prelude.{
  ℕ, Bool, true, false, not, ◌&&◌, ◌||◌, Option, none, some, String, List, [], ◌∷◌, ◌++◌, map,
  Result, ok, err, if◌then◌else◌,
}
use longtrader.Prelude.Dict.{find, put, contains}
use longtrader.Ports.{ExchangeId, PortError}
use longtrader.Session.Errors.{ManagerError, port}
use longtrader.Session.Handle.{SessionHandle, is_empty}
use longtrader.Session.Venue.{VenueRequest, Cancels}
use longtrader.Session.Gate.{Order, record_submitted_orders, unwind_late_submissions}
use longtrader.Session.Manager.{SessionManager, authorize_order_submission}

-- The fields of `trading.v1.CreateOrdersRequest` that the handler reads; the legs by their client
-- order ids.
pub record BatchRequest : Type 0 where
  pub session_id : String
  pub exchange : Option ExchangeId
  pub client_order_ids : List String

pub data ProxyCall : Type 0 where
  batch_create_orders : ExchangeId → List String → ProxyCall
  fetch_open_orders : ExchangeId → ProxyCall
  unwind : VenueRequest → ProxyCall

unfoldable pub gate_submission :
    Option SessionManager → String → Result ManagerError (Option SessionHandle)
gate_submission none session_id = ok none
gate_submission (some m) session_id = authorize_order_submission m session_id

abbrev pub resolved_exchange : Option ExchangeId → ExchangeId → ExchangeId
resolved_exchange none default_exchange = default_exchange
resolved_exchange (some e) default_exchange = e

-- A handle that the registry has dropped changes, but nobody finds it there.
abbrev pub put_back : SessionHandle → Option SessionHandle → SessionManager → SessionManager
put_back h none m = m
put_back h (some old) m = record m { sessions = put h.id h m.sessions }

-- `attribute`: the orders are recorded on the handle, and then unwound if its session has ended.
unfoldable pub attribute :
    Cancels → SessionManager → Option SessionHandle → List Order → SessionManager × List ProxyCall
unfolding record_submitted_orders unwind_late_submissions
attribute answers m none orders = (m, [])
attribute answers m (some h) orders =
    let h' : SessionHandle = record_submitted_orders orders h in
    (
      put_back h' (find h.id m.sessions) m,
      map unwind (unwind_late_submissions m.default_exchange answers h' orders),
    )

-- `filter(|o| wanted.contains(o.client_order_id))`, where an empty id is never wanted.
unfoldable pub wanted_orders : List String → List Order → List Order
wanted_orders requested [] = []
wanted_orders requested (o ∷ os) =
    let rest = wanted_orders requested os in
    if not (is_empty o.client_order_id) && contains o.client_order_id requested
    then o ∷ rest
    else rest

unfoldable pub accepted_batch_orders : List String → Result PortError (List Order) → List Order
unfolding wanted_orders
accepted_batch_orders requested (ok orders) = wanted_orders requested orders
accepted_batch_orders requested (err e) = []

abbrev pub Meanwhile : Type 0
Meanwhile = SessionManager → Option SessionHandle → SessionManager × Option SessionHandle

-- What a batch leaves: the registry, the calls to the venue in their order, and the reply.
pub record Batch : Type 0 where
  pub manager : SessionManager
  pub calls : List ProxyCall
  pub reply : Result ManagerError (List Order)

-- The handler after the gate: `created` is the venue's answer to the batch, and `listed` its answer
-- to the recovery query, which is asked only for a session whose batch failed.
unfoldable pub settle_batch :
    Cancels
    → ExchangeId
    → List String
    → Result PortError (List Order)
    → Result PortError (List Order)
    → SessionManager × Option SessionHandle
    → Batch
unfolding attribute accepted_batch_orders
settle_batch answers exchange requested (ok orders) listed (m, session) =
    let out = attribute answers m session orders in
    record {
      manager = out.0;
      calls = batch_create_orders exchange requested ∷ out.1;
      reply = ok orders;
    }
settle_batch answers exchange requested (err e) listed (m, none) = record {
  manager = m;
  calls = batch_create_orders exchange requested ∷ [];
  reply = err (port e);
}
settle_batch answers exchange requested (err e) listed (m, some h) =
    let out = attribute answers m (some h) (accepted_batch_orders requested listed) in
    record {
      manager = out.0;
      calls = batch_create_orders exchange requested ∷ fetch_open_orders exchange ∷ out.1;
      reply = err (port e);
    }

unfoldable pub create_orders :
    Cancels
    → Meanwhile
    → Result PortError (List Order)
    → Result PortError (List Order)
    → BatchRequest
    → SessionManager
    → Batch
unfolding settle_batch gate_submission
create_orders answers meanwhile created listed req m =
    elim (gate_submission (some m) req.session_id) [
      | err e ↦ record { manager = m; calls = []; reply = err e }
      | ok session ↦
          settle_batch answers (resolved_exchange req.exchange m.default_exchange)
            req.client_order_ids created listed (meanwhile m session)
    ]
