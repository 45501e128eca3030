-- ===== src/Session/Manager.antt =====
-- The registry of sessions (`SessionManager` in bin/longtrader-worker/src/session/mod.rs, with
-- session/lifecycle.rs). The map from ids to shared handles is an association list; a call that found
-- its session writes the new handle back under the id.
pub mod Attach
pub mod Registry
use longtrader.Prelude.{
  ℕ, ◌+◌, ◌-◌, ◌<◌, ltb, min, Bool, true, false, not, ◌&&◌, Option, none, some, String, List, [],
  ◌∷◌, ◌++◌, map, Result, ok, err, ◌>>=◌, ◌>>◌, str_eq, ◌==◌, if◌then◌else◌,
}
use longtrader.Prelude.Int.{ℤ}
use longtrader.Prelude.Dict.{find, put}
use longtrader.Ports.{ExchangeId}
use longtrader.Session.State.{SessionState, attached, to_u8}
use longtrader.Session.Errors.{
  ManagerError, not_found, unauthenticated, invalid_argument, session_is_terminal,
  session_has_invalid_state,
}
use longtrader.Session.Policy.{
  SessionPolicy, KillSwitchPolicy, default_policy, default_heartbeat_ms, apply_policy,
}
use longtrader.Session.Handle.{
  SessionHandle, ClientIdentity, LogLevel, current_state, touch, update_policy,
  assert_reconnect_client, is_empty, try_terminal_age, report_log,
}
use longtrader.Session.Venue.{VenueRequest, Cancels}
use longtrader.Session.Gate.{Order, authorize, is_active}
use longtrader.Session.Lifecycle.{
  Interference, begin_reconcile, complete_reconcile, stop_session, check_lease_expiry,
}

-- `self_installed` says that `install_self` has run, and `cod` whether the venue supports
-- cancel-on-disconnect, if it has a provider.
pub record SessionManager : Type 0 where
  pub expected_token : Option String
  pub default_exchange : ExchangeId
  pub sessions : List (String × SessionHandle)
  pub watchdog_started : Bool
  pub health_failures : ℕ
  pub self_installed : Bool
  pub cod : Option Bool

abbrev pub Call : Type 0 → Type 0
Call A = SessionManager × Result ManagerError A

unfoldable pub get : SessionManager → String → Result ManagerError SessionHandle
get m session_id = elim (find session_id m.sessions) [
  | none ↦ err (not_found session_id)
  | some h ↦ ok h
]

-- Look the session up, work on its handle, and answer.
unfoldable pub on_session :
    {A : Type 0}
    → SessionManager
    → String
    → (SessionHandle → SessionHandle × Result ManagerError A)
    → Call A
unfolding get
on_session m session_id work = elim (get m session_id) [
  | err e ↦ (m, err e)
  | ok h ↦
      let (h', outcome) = work h in (record m { sessions = put session_id h' m.sessions }, outcome)
]

-- The token check of `attach_with_reconnect`.
unfoldable pub token_ok : Option String → String → Bool
token_ok none token = true
token_ok (some expected) token = not (is_empty expected) && str_eq expected token

abbrev pub apply_optional :
    Option KillSwitchPolicy → SessionPolicy → SessionPolicy × Result ManagerError (Unit {0})
apply_optional none current = (current, ok tt)
apply_optional (some policy) current = apply_policy current policy

abbrev pub then_answer {ℓ} :
    {A B : Type ℓ}
    → B
    → SessionHandle × Result ManagerError A
    → SessionHandle × Result ManagerError B
then_answer b (h, ok a) = (h, ok b)
then_answer b (h, err e) = (h, err e)

-- The reuse branch of `attach_with_reconnect`, on the handle that it found: identity first, then the
-- lease, then the policy.
unfoldable pub reconnect :
    ℕ
    → Option KillSwitchPolicy
    → ClientIdentity
    → SessionHandle
    → SessionHandle × Result ManagerError (String × ℕ)
reconnect now policy client h = elim (assert_reconnect_client h client) [
  | err e ↦ (h, err e)
  | ok _ ↦
      then_answer (h.id, h.heartbeat_interval_ms)
        (update_policy (touch now h) (apply_optional policy))
]

-- The `match handle.state()` of `attach_with_reconnect`.
unfoldable pub reconnect_from :
    Option SessionState
    → ℕ
    → Option KillSwitchPolicy
    → ClientIdentity
    → SessionHandle
    → SessionHandle × Result ManagerError (String × ℕ)
unfolding reconnect
reconnect_from none now policy client h =
    (h, err (invalid_argument (session_has_invalid_state h.id)))
reconnect_from (some SessionState.kill_switch_tripped) now policy client h =
    (h, err (invalid_argument (session_is_terminal h.id)))
reconnect_from (some SessionState.graceful_shutdown) now policy client h =
    (h, err (invalid_argument (session_is_terminal h.id)))
reconnect_from (some SessionState.attached) now policy client h = reconnect now policy client h
reconnect_from (some SessionState.syncing) now policy client h = reconnect now policy client h
reconnect_from (some SessionState.active) now policy client h = reconnect now policy client h

unfoldable pub ensure_watchdog : SessionManager → SessionManager
ensure_watchdog m = record m {
  watchdog_started = if m.watchdog_started then true else m.self_installed;
}

-- The handle of a session that attaches under a fresh id.
unfoldable pub fresh_handle : String → ℕ → SessionPolicy → ClientIdentity → SessionHandle
fresh_handle id now policy client = record {
  id = id;
  state = to_u8 attached;
  policy = policy;
  last_seen = now;
  heartbeat_interval_ms = default_heartbeat_ms;
  client = client;
  sent = [];
  ring = [];
  tracked_coids = [];
  strategy = none;
  orders_submitted = 0;
  log_events = 0;
  seq = 0;
  snapshot_seq = 0;
  terminal_at = none;
}

-- The branch of `attach_with_reconnect` that creates a session.
unfoldable pub attach_fresh :
    SessionManager → String → ℕ → Option KillSwitchPolicy → ClientIdentity → Call (String × ℕ)
unfolding fresh_handle ensure_watchdog
attach_fresh m id now policy client =
    let (session_policy, outcome) = apply_optional policy default_policy in
    elim outcome [
      | err e ↦ (m, err e)
      | ok _ ↦ (
        ensure_watchdog
            (record m { sessions = put id (fresh_handle id now session_policy client) m.sessions }),
        ok (id, default_heartbeat_ms),
      )
    ]

-- `fresh_id` is the generated id. A reconnect to an id that is not in the registry attaches afresh.
unfoldable pub attach_with_reconnect :
    SessionManager
    → String
    → ℕ
    → String
    → Option KillSwitchPolicy
    → String
    → ClientIdentity
    → Call (String × ℕ)
unfolding attach_fresh reconnect_from
attach_with_reconnect m fresh_id now token policy reconnect_id client =
    if not (token_ok m.expected_token token)
    then (m, err unauthenticated)
    else if is_empty reconnect_id
    then attach_fresh m fresh_id now policy client
    else elim (find reconnect_id m.sessions) [
      | none ↦ attach_fresh m fresh_id now policy client
      | some h ↦
          let (h', outcome) = reconnect_from (current_state h) now policy client h in
          (record m { sessions = put reconnect_id h' m.sessions }, outcome)
    ]

unfoldable pub attach :
    SessionManager
    → String
    → ℕ
    → String
    → Option KillSwitchPolicy
    → ClientIdentity
    → Call (String × ℕ)
unfolding attach_with_reconnect
attach m fresh_id now token policy client =
    attach_with_reconnect m fresh_id now token policy "" client

-- An empty id is an unscoped action: nothing is gated.
unfoldable pub authorize_order_submission :
    SessionManager → String → Result ManagerError (Option SessionHandle)
unfolding get
authorize_order_submission m session_id =
    if is_empty session_id then ok none else elim (get m session_id) [
      | err e ↦ err e
      | ok h ↦ elim (authorize h) [ err e ↦ err e | ok _ ↦ ok (some h) ]
    ]

abbrev pub young : ℕ → Option ℕ → Bool
young retention none = true
young retention (some age) = ltb age retention

-- `sessions.retain(..)` of `retire_terminal_sessions`; durations are nanoseconds.
unfoldable pub retain_young : ℕ → ℕ → List (String × SessionHandle) → List (String × SessionHandle)
retain_young retention now [] = []
retain_young retention now ((id, h) ∷ sessions) =
    let rest = retain_young retention now sessions in
    if young retention (try_terminal_age now h) then (id, h) ∷ rest else rest

unfoldable pub retire_terminal_sessions : ℕ → ℕ → SessionManager → SessionManager
unfolding retain_young
retire_terminal_sessions retention now m = record m {
  sessions = retain_young retention now m.sessions;
}
