-- ===== src/Session/Watchdog.antt =====
-- One pass of the watchdog (`watchdog_loop` and the health probe in
-- bin/longtrader-worker/src/session/health.rs). The checks of different sessions run in parallel in
-- the source and touch one session each, so the pass makes them in turn; what other tasks do at its awaits
-- is a parameter. `answers` are the venue's
-- answers to cancels, `now` is the instant of the pass.
pub mod Probes
pub mod Passes
use longtrader.Prelude.{
  ℕ, ◌+◌, min, leb, Bool, true, false, ◌&&◌, Option, none, some, String, List, [], ◌∷◌, ◌++◌, ◌==◌,
  if◌then◌else◌,
}
use longtrader.Ports.{ExchangeId}
use longtrader.Session.State.{SessionState}
use longtrader.Session.Handle.{SessionHandle, current_state}
use longtrader.Session.Venue.{VenueRequest, Cancels}
use longtrader.Session.Gate.{is_active}
use longtrader.Session.Lifecycle.{Interference, trip_kill_switch, check_lease_expiry}
use longtrader.Session.Manager.{SessionManager, retire_terminal_sessions}

abbrev pub u32_max : ℕ
u32_max = 4294967295

-- The new counter, and the number of consecutive misses that is reported.
unfoldable pub note_health_probe : Bool → ℕ → ℕ × ℕ
note_health_probe true failures = (0, 0)
note_health_probe false failures =
    if failures == u32_max then (u32_max, u32_max) else (failures + 1, min u32_max (failures + 1))

abbrev pub health_probe_failure_threshold : ℕ
health_probe_failure_threshold = 2

-- 300 seconds, in nanoseconds.
abbrev pub terminal_session_retention : ℕ
terminal_session_retention = 300000000000

unfoldable pub should_renew_cod : Option SessionState → Option Bool → Bool
should_renew_cod state none = false
should_renew_cod state (some supports) = is_active state && supports

abbrev pub Sessions : Type 0
Sessions = List (String × SessionHandle)

-- What other tasks do to the sessions at the awaits of a pass: to each handle between the snapshot and
-- the start of its check, between the renewal and the check, and in the two gaps of the check; to the
-- whole registry until the active sessions are listed; to each handle between that and its own trip, and
-- in the two gaps of the trip.
pub record Gaps : Type 0 where
  pub started : Interference
  pub renewed : Interference
  pub checked : Interference
  pub checked_after : Interference
  pub probed : Sessions → Sessions
  pub listed : Interference
  pub tripped : Interference
  pub tripped_after : Interference

abbrev pub each : Interference → Sessions → Sessions
each act [] = []
each act ((id, h) ∷ sessions) = (id, act h) ∷ each act sessions

-- The first tier: every session's lease.
unfoldable pub check_all : ExchangeId → Cancels → ℕ → Gaps → Sessions → Sessions × List VenueRequest
check_all exchange answers now gaps [] = ([], [])
check_all exchange answers now gaps ((id, h) ∷ sessions) =
    let rest = check_all exchange answers now gaps sessions in
    let out = check_lease_expiry exchange answers now gaps.checked gaps.checked_after h in
    ((id, out.0.0) ∷ rest.0, out.0.1 ++ rest.1)

-- The second tier: the sessions that are active when they are listed are tripped, each by its own task;
-- the others are only met by other tasks.
unfoldable pub trip_all : ExchangeId → Cancels → ℕ → Gaps → Sessions → Sessions × List VenueRequest
trip_all exchange answers now gaps [] = ([], [])
trip_all exchange answers now gaps ((id, h) ∷ sessions) =
    let rest = trip_all exchange answers now gaps sessions in
    if is_active (current_state h)
    then (let out =
          trip_kill_switch exchange answers now gaps.tripped gaps.tripped_after (gaps.listed h) in
        ((id, out.0) ∷ rest.0, out.1 ++ rest.1))
    else ((id, gaps.listed h) ∷ rest.0, rest.1)

-- The ids whose cancel-on-disconnect countdown is renewed.
unfoldable pub renewals : Option Bool → Sessions → List String
unfolding should_renew_cod
renewals cod [] = []
renewals cod ((id, h) ∷ sessions) =
    let rest = renewals cod sessions in
    if should_renew_cod (current_state h) cod then h.id ∷ rest else rest

unfoldable pub trip_on_miss :
    Bool → ExchangeId → Cancels → ℕ → Gaps → Sessions → Sessions × List VenueRequest
trip_on_miss false exchange answers now gaps sessions = (sessions, [])
trip_on_miss true exchange answers now gaps sessions = trip_all exchange answers now gaps sessions

-- A pass up to the listing of the active sessions: the registry, the cancels and the renewals.
unfoldable pub first_tier :
    Cancels → ℕ → Gaps → SessionManager → Sessions × List VenueRequest × List String
unfolding check_all renewals
first_tier answers now gaps m =
    let kept = retire_terminal_sessions terminal_session_retention now m in
    let started = each gaps.started kept.sessions in
    let checked = check_all m.default_exchange answers now gaps (each gaps.renewed started) in
    (gaps.probed checked.0, checked.1, renewals m.cod started)

-- `probe` says whether the health probe succeeded.
unfoldable pub watchdog_pass :
    Cancels → ℕ → Gaps → Bool → SessionManager → SessionManager × List VenueRequest × List String
unfolding first_tier trip_on_miss note_health_probe
watchdog_pass answers now gaps probe m =
    let (listed, requests, renewed) = first_tier answers now gaps m in
    let (failures, misses) = note_health_probe probe m.health_failures in
    let (sessions, more) =
      trip_on_miss (leb health_probe_failure_threshold misses) m.default_exchange answers now gaps
        listed in
    (record m { sessions = sessions; health_failures = failures }, requests ++ more, renewed)
