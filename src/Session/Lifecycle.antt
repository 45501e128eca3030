-- ===== src/Session/Lifecycle.antt =====
-- The lifecycle operations of one session (bin/longtrader-worker/src/session/lifecycle.rs, and the
-- kill switch of session/health.rs). The source loads the state and then changes it by a
-- compare-and-exchange; `env` is what other tasks do to the session in that gap, and in the gap
-- while cancels are awaited.
pub mod Edges
pub mod Ended
pub mod Guarantee
pub mod Announce
pub mod Stop
pub mod Expiry
use longtrader.Prelude.{
  ℕ, max, ltb, Bool, true, false, ◌&&◌, Option, none, some, String, List, [], ◌∷◌, ◌++◌, Result, ok,
  err, if◌then◌else◌,
}
use longtrader.Ports.{ExchangeId}
use longtrader.Session.State.{
  SessionState, attached, syncing, active, kill_switch_tripped, graceful_shutdown, is_terminal,
}
use longtrader.Session.Errors.{
  ManagerError, CancelFailure, invalid_argument, cannot_begin, cannot_complete,
  session_has_invalid_state, cancels_failed,
}
use longtrader.Session.Policy.{Scope, unspecified, session_orders, all_orders, scope_none}
use longtrader.Session.Handle.{
  SessionHandle, current_state, transition, last_seen_elapsed_ms, mark_terminal,
  publish_state_change,
}
use longtrader.Session.Venue.{VenueRequest, Cancels, cancel_all_orders}
use longtrader.Session.Gate.{cancel_session_orders, is_active, terminal_state}

abbrev pub Interference : Type 0
Interference = SessionHandle → SessionHandle

abbrev pub Outcome : Type 0 → Type 0
Outcome A = SessionHandle × Result ManagerError A

-- The state change is published only if the exchange succeeded.
unfoldable pub publish_if_moved :
    SessionState → String → SessionHandle × Option SessionState → SessionHandle
publish_if_moved next reason (h, none) = h
publish_if_moved next reason (h, some prev) = publish_state_change prev next reason h

-- The `match handle.state()` of `begin_reconcile`.
unfoldable pub begin_from : Option SessionState → Interference → SessionHandle → Outcome (Unit {0})
unfolding publish_if_moved
begin_from (some SessionState.attached) env h =
    (publish_if_moved syncing "reconcile started" (transition (env h) attached syncing), ok tt)
begin_from (some SessionState.syncing) env h = (h, ok tt)
begin_from (some SessionState.active) env h = (h, ok tt)
begin_from (some SessionState.kill_switch_tripped) env h =
    (h, err (invalid_argument (cannot_begin h.id kill_switch_tripped)))
begin_from (some SessionState.graceful_shutdown) env h =
    (h, err (invalid_argument (cannot_begin h.id graceful_shutdown)))
begin_from none env h = (h, err (invalid_argument (session_has_invalid_state h.id)))

unfoldable pub begin_reconcile : Interference → SessionHandle → Outcome (Unit {0})
unfolding begin_from
begin_reconcile env h = begin_from (current_state h) env h

-- The `match handle.state()` of `complete_reconcile`.
unfoldable pub complete_from :
    Option SessionState → Interference → SessionHandle → Outcome (Unit {0})
unfolding publish_if_moved
complete_from (some SessionState.syncing) env h =
    (publish_if_moved active "reconcile complete" (transition (env h) syncing active), ok tt)
complete_from (some SessionState.active) env h = (h, ok tt)
complete_from (some SessionState.attached) env h =
    (h, err (invalid_argument (cannot_complete h.id attached)))
complete_from (some SessionState.kill_switch_tripped) env h =
    (h, err (invalid_argument (cannot_complete h.id kill_switch_tripped)))
complete_from (some SessionState.graceful_shutdown) env h =
    (h, err (invalid_argument (cannot_complete h.id graceful_shutdown)))
complete_from none env h = (h, err (invalid_argument (session_has_invalid_state h.id)))

-- `snapshot_seq.fetch_max(snapshot_sequence)`
unfoldable pub raise_watermark : ℕ → SessionHandle → SessionHandle
raise_watermark snapshot_sequence h = record h {
  snapshot_seq = max h.snapshot_seq snapshot_sequence;
}

unfoldable pub complete_reconcile : ℕ → Interference → SessionHandle → Outcome (Unit {0})
unfolding complete_from raise_watermark
complete_reconcile snapshot_sequence env h =
    let h' = raise_watermark snapshot_sequence h in complete_from (current_state h') env h'

abbrev pub failed_or :
    SessionHandle → List CancelFailure → Result ManagerError (Option SessionState)
failed_or h [] = ok (current_state h)
failed_or h (f ∷ fs) = err (cancels_failed h.id (current_state h) (f ∷ fs))

-- `stop_session` from the exchange on: `now` stamps the end of the session.
unfoldable pub settle_stop :
    ℕ → List CancelFailure → SessionHandle × Option SessionState → Outcome (Option SessionState)
settle_stop now failures (h, none) = (h, failed_or h failures)
settle_stop now failures (h, some prev) =
    let h' = publish_state_change prev graceful_shutdown "stop requested" (mark_terminal now h) in
    (h', failed_or h' failures)

-- `stop_session` from its second look at the state on.
unfoldable pub stop_from :
    Option SessionState
    → ℕ
    → List CancelFailure
    → Interference
    → SessionHandle
    → Outcome (Option SessionState)
unfolding settle_stop
stop_from none now failures env h = (h, err (invalid_argument (session_has_invalid_state h.id)))
stop_from (some prev) now failures env h =
    if is_terminal prev
    then (h, ok (some prev))
    else settle_stop now failures (transition (env h) prev graceful_shutdown)

abbrev pub requested_cancels :
    ExchangeId → Cancels → Bool → SessionHandle → List VenueRequest × List CancelFailure
requested_cancels exchange answers true h = cancel_session_orders exchange answers h
requested_cancels exchange answers false h = ([], [])

-- `env` acts while the cancels are awaited, and `env'` between the second load and the exchange.
unfoldable pub stop_session :
    ExchangeId
    → Cancels
    → ℕ
    → Bool
    → Interference
    → Interference
    → SessionHandle
    → Outcome (Option SessionState) × List VenueRequest
unfolding stop_from
stop_session exchange answers now cancel_open_orders env env' h =
    if terminal_state (current_state h)
    then ((h, ok (current_state h)), [])
    else let (requests, failures) = requested_cancels exchange answers cancel_open_orders h in
      let h' = env h in (stop_from (current_state h') now failures env' h', requests)

-- The scope routing of the kill switch; the venue's answers are only logged.
unfoldable pub route_scope : Scope → ExchangeId → Cancels → SessionHandle → List VenueRequest
route_scope session_orders exchange answers h = (cancel_session_orders exchange answers h).0
route_scope all_orders exchange answers h = cancel_all_orders exchange ∷ []
route_scope scope_none exchange answers h = []
route_scope unspecified exchange answers h = []

-- `env` acts between the exchange and the look at the policy.
unfoldable pub settle_trip :
    ExchangeId
    → Cancels
    → ℕ
    → Interference
    → SessionHandle × Option SessionState
    → SessionHandle × List VenueRequest
unfolding route_scope
settle_trip exchange answers now env (h, none) = (h, [])
settle_trip exchange answers now env (h, some prev) =
    let h' =
      env (publish_state_change prev kill_switch_tripped "lease expired" (mark_terminal now h)) in
    (h', route_scope h'.policy.scope exchange answers h')

unfoldable pub trip_kill_switch :
    ExchangeId
    → Cancels
    → ℕ
    → Interference
    → Interference
    → SessionHandle
    → SessionHandle × List VenueRequest
unfolding settle_trip
trip_kill_switch exchange answers now env env' h =
    if is_active (current_state h)
    then settle_trip exchange answers now env' (transition (env h) active kill_switch_tripped)
    else (h, [])

-- The expiry test of `check_lease_expiry`; the lease is in milliseconds.
unfoldable pub is_expired : ℕ → SessionHandle → Bool
is_expired now h =
    is_active (current_state h) && ltb h.policy.lease_timeout (last_seen_elapsed_ms now h)

unfoldable pub check_lease_expiry :
    ExchangeId
    → Cancels
    → ℕ
    → Interference
    → Interference
    → SessionHandle
    → (SessionHandle × List VenueRequest) × Bool
unfolding is_expired
check_lease_expiry exchange answers now env env' h =
    if is_expired now h
    then (trip_kill_switch exchange answers now env env' h, true)
    else ((h, []), false)
