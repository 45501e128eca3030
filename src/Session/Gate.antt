-- ===== src/Session/Gate.antt =====
-- The submission gate and order attribution (bin/longtrader-worker/src/session/gate.rs).

pub mod Tracking
pub mod Rounds
use longtrader.Prelude.{
  ℕ, ◌+◌, ◌%◌, ◌&&◌, not, Bool, true, false, Option, none, some, String, List, [], ◌∷◌, Result, ok,
  err, if◌then◌else◌, map,
}
use longtrader.Prelude.Dict.{insert}
use longtrader.Ports.{ExchangeId, u64_mod}
use longtrader.Session.State.{SessionState, active, is_terminal}
use longtrader.Session.Errors.{ManagerError, CancelFailure, sync_in_progress}
use longtrader.Session.Handle.{SessionHandle, current_state, is_empty}
use longtrader.Session.Venue.{
  VenueRequest, CancelAnswer, Cancels, cancel_order, acknowledged, refused, timed_out,
}

-- The part of `trading.v1.Order` that the session control plane reads.
pub record Order : Type 0 where
  pub id : String
  pub client_order_id : String

abbrev pub is_active : Option SessionState → Bool
is_active none = false
is_active (some SessionState.active) = true
is_active (some SessionState.attached) = false
is_active (some SessionState.syncing) = false
is_active (some SessionState.kill_switch_tripped) = false
is_active (some SessionState.graceful_shutdown) = false

-- The check of `authorize_order_submission` on the handle that it found.
unfoldable pub authorize : SessionHandle → Result ManagerError (Unit {0})
authorize h =
    if is_active (current_state h) then ok tt else err (sync_in_progress h.id (current_state h))

-- The loop of `record_submitted_orders`: the tracked ids and the number of orders attributed.
unfoldable pub track_orders : List Order → List String × ℕ → List String × ℕ
track_orders [] (tracked, attributed) = (tracked, attributed)
track_orders (order ∷ orders) (tracked, attributed) = track_orders orders (
    if is_empty order.id
    then (tracked, attributed)
    else (insert order.id tracked, (attributed + 1) % u64_mod))

unfoldable pub record_submitted_orders : List Order → SessionHandle → SessionHandle
unfolding track_orders
record_submitted_orders orders h =
    let (tracked, attributed) = track_orders orders (h.tracked_coids, 0) in
    record h {
      tracked_coids = tracked;
      orders_submitted = (h.orders_submitted + attributed) % u64_mod;
    }

abbrev pub failure_of : String → CancelAnswer → List CancelFailure → List CancelFailure
failure_of coid acknowledged failures = failures
failure_of coid (refused error) failures = record { coid = coid; reason = some error } ∷ failures
failure_of coid timed_out failures = record { coid = coid; reason = none } ∷ failures

-- The requests that are sent, and the failures in the order of the ids.
unfoldable pub cancel_coids :
    ExchangeId → Cancels → List String → List VenueRequest × List CancelFailure
cancel_coids exchange answers [] = ([], [])
cancel_coids exchange answers (coid ∷ coids) =
    let (requests, failures) = cancel_coids exchange answers coids in
    (cancel_order exchange coid ∷ requests, failure_of coid (answers coid) failures)

unfoldable pub cancel_session_orders :
    ExchangeId → Cancels → SessionHandle → List VenueRequest × List CancelFailure
cancel_session_orders exchange answers h = cancel_coids exchange answers h.tracked_coids

abbrev pub terminal_state : Option SessionState → Bool
terminal_state none = false
terminal_state (some s) = is_terminal s

-- `orders.iter().map(|o| o.id.clone()).filter(|id| !id.is_empty())`
unfoldable pub order_ids : List Order → List String
order_ids [] = []
order_ids (order ∷ orders) =
    let rest = order_ids orders in if is_empty order.id then rest else order.id ∷ rest

-- The early return for an empty list of orders sends nothing, as the loop over it does.
unfoldable pub unwind_late_submissions :
    ExchangeId → Cancels → SessionHandle → List Order → List VenueRequest
unfolding order_ids
unwind_late_submissions exchange answers h [] = []
unwind_late_submissions exchange answers h (order ∷ orders) =
    if terminal_state (current_state h)
    then (cancel_coids exchange answers (order_ids (order ∷ orders))).0
    else []
