-- ===== src/Session/Service.antt =====
-- The RPC handlers of the worker session service
-- (bin/longtrader-worker/src/session/service.rs), on top of the registry. Replies are the fields that
-- the handlers fill in; the connect framing is not modelled.
pub mod Reconcile
use longtrader.Prelude.{
  ℕ, zero, suc, ◌+◌, ◌%◌, Bool, true, false, Option, none, some, String, List, [], ◌∷◌, Result, ok,
  err, ◌>>=◌, ◌>>◌,
}
use longtrader.Prelude.Int.{ℤ}
use longtrader.Ports.{PortError, u64_mod}
use longtrader.Session.State.{SessionState, WireState, to_proto}
use longtrader.Session.Errors.{
  ManagerError, not_found, unauthenticated, invalid_argument, sync_in_progress, cancels_failed,
  port,
}
use longtrader.Session.Policy.{KillSwitchPolicy, apply_policy}
use longtrader.Session.Handle.{
  SessionHandle, ClientIdentity, StrategyInfo, LogLevel, current_state, touch, update_policy,
  strategy_info, set_strategy, report_log,
}
use longtrader.Session.Venue.{VenueRequest, Cancels, sync_state}
use longtrader.Session.Lifecycle.{Interference, begin_reconcile, complete_reconcile, stop_session}
use longtrader.Session.Manager.{SessionManager, Call, get, on_session}

-- `keep_alive`: the reply's heartbeat interval.
unfoldable pub keep_alive : SessionManager → ℕ → String → Call ℕ
keep_alive m now session_id =
    on_session m session_id (λ h. (touch now h, ok h.heartbeat_interval_ms))

-- `reconcile_state`: `snapshot` is the venue's answer to `sync_state`, by its watermark. The venue is
-- asked only if the session may begin; `meanwhile` is what other tasks do until it answers.
unfoldable pub reconcile_state :
    (SessionManager → SessionManager)
    → SessionManager
    → Result PortError ℕ
    → String
    → Call ℕ × List VenueRequest
reconcile_state meanwhile m snapshot session_id =
    let (m', begun) = on_session m session_id (begin_reconcile (λ k. k)) in
    elim begun [
      | err e ↦ ((m', err e), [])
      | ok _ ↦ elim snapshot [
        | err e ↦ ((meanwhile m', err (port e)), sync_state m.default_exchange ∷ [])
        | ok sequence ↦
            let (m'', completed) =
              on_session (meanwhile m') session_id (complete_reconcile sequence (λ k. k)) in
            elim completed [
              | err e ↦ ((m'', err e), sync_state m.default_exchange ∷ [])
              | ok _ ↦ ((m'', ok sequence), sync_state m.default_exchange ∷ [])
            ]
      ]
    ]

unfoldable pub set_kill_switch_policy :
    SessionManager → Option KillSwitchPolicy → String → Call (Unit {0})
set_kill_switch_policy m none session_id = on_session m session_id (λ h. (h, ok tt))
set_kill_switch_policy m (some policy) session_id =
    on_session m session_id (λ h. update_policy h (λ current. apply_policy current policy))

-- `strategy_id` is the generated id, and `started_at_ms` the wall clock.
unfoldable pub register_strategy : SessionManager → String → ℤ → String → String → Call String
register_strategy m strategy_id started_at_ms name session_id = on_session m session_id (λ h. (
  set_strategy
      (record {
        id = strategy_id;
        name = name;
        started_at_ms = started_at_ms;
        orders_submitted = 0;
        log_events = 0;
      })
      h,
  ok strategy_id,
))

pub record StrategyStatus : Type 0 where
  pub state : WireState
  pub strategy_id : String
  pub name : String
  pub started_at_ms : Option ℤ
  pub orders_submitted : ℕ
  pub log_events : ℕ

abbrev pub wire_or : WireState → Option SessionState → WireState
wire_or other none = other
wire_or other (some s) = to_proto s

-- A session without a strategy reports empty texts and no log events.
unfoldable pub status_of : SessionHandle → StrategyStatus
unfolding strategy_info
status_of h = elim (strategy_info h) [
  | none ↦ record {
    state = wire_or WireState.attached (current_state h);
    strategy_id = "";
    name = "";
    started_at_ms = none;
    orders_submitted = h.orders_submitted;
    log_events = 0;
  }
  | some registered ↦ record {
    state = wire_or WireState.attached (current_state h);
    strategy_id = registered.id;
    name = registered.name;
    started_at_ms = some registered.started_at_ms;
    orders_submitted = h.orders_submitted;
    log_events = registered.log_events;
  }
]

unfoldable pub strategy_status : SessionManager → String → Result ManagerError StrategyStatus
unfolding status_of
strategy_status m session_id = elim (get m session_id) [ err e ↦ err e | ok h ↦ ok (status_of h) ]

-- One event of the inbound stream of `report_log`.
pub record LogReport : Type 0 where
  pub session_id : String
  pub level : LogLevel
  pub message : String
  pub fields : List (String × String)
  pub now_ms : ℤ

-- The loop of `report_log`: it stops at the first unknown session.
unfoldable pub report_logs : SessionManager → ℕ → List LogReport → Call ℕ
report_logs m accepted [] = (m, ok accepted)
report_logs m accepted (r ∷ rs) =
    let out =
      on_session {A = Unit {0}} m r.session_id
        (λ h. (report_log r.now_ms r.level r.message r.fields h, ok tt)) in
    let rest = report_logs out.0 ((accepted + 1) % u64_mod) rs in
    elim out.1 [ err e ↦ (out.0, err e) | ok _ ↦ rest ]

-- The codes that the handlers' errors become (`From<ManagerError> for ConnectError`).
pub data Code : Type 0 where
  code_not_found code_unauthenticated code_invalid_argument code_failed_precondition code_internal :
      Code

-- The code, and whether the typed reason SYNC_IN_PROGRESS rides along.
unfoldable pub connect_error : ManagerError → Code × Bool
connect_error (not_found id) = (code_not_found, false)
connect_error unauthenticated = (code_unauthenticated, false)
connect_error (invalid_argument c) = (code_invalid_argument, false)
connect_error (sync_in_progress id s) = (code_failed_precondition, true)
connect_error (cancels_failed id s fs) = (code_internal, false)
connect_error (port e) = (code_internal, false)
