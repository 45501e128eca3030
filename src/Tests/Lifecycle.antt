-- ===== src/Tests/Lifecycle.antt =====
-- Examples of the lifecycle theorems.
use longtrader.Prelude.{◌<◌, ◌≤◌, ◌≡◌, refl, true, false, some, [], ◌∷◌, ◌++◌, map, ok, err, ◌⊎◌}
use longtrader.Prelude.Dict.{contains}
use longtrader.Session.State.{
  SessionState, active, kill_switch_tripped, graceful_shutdown, is_terminal, to_u8, from_u8,
}
use longtrader.Session.Errors.{ManagerError}
use longtrader.Session.Handle.{SessionHandle, current_state, transition, last_seen_elapsed_ms}
use longtrader.Session.Handle.Evolution.{Evolves, Evolves-refl}
use longtrader.Session.Venue.{cancel_order}
use longtrader.Session.Gate.{
  authorize, record_submitted_orders, unwind_late_submissions, cancel_session_orders, cancel_coids,
  order_ids, terminal_state,
}
use longtrader.Session.Gate.Rounds.{AllAcknowledged, asks_cancel}
use longtrader.Session.Lifecycle.{
  route_scope, begin_reconcile, complete_reconcile, stop_session, check_lease_expiry,
}
use longtrader.Session.Lifecycle.Guarantee.{lifecycle-Evolves}
use longtrader.Session.Lifecycle.Announce.{IsSettled, lifecycle-IsSettled}
use longtrader.Session.Lifecycle.Stop.{stop_session_honest, stop_session_misses_order}
use longtrader.Session.Lifecycle.Expiry.{check_lease_expiry_lem, Tripped}
use longtrader.Session.Race.{
  World, placed, recorded, checked, armed, tripped, unwound, records, checks, trips, cancels, Reach,
  here, next, unwinds, race_no_orphan,
}
use longtrader.Tests.{venue, willing, active_session, late_order}

lifecycle-Evolves_example :
    (Evolves active_session (begin_reconcile (λ k. k) active_session).0
      × Evolves active_session (complete_reconcile 9 (λ k. k) active_session).0
      × Evolves active_session
          (stop_session venue willing 3 true (λ k. k) (λ k. k) active_session).0.0
      × Evolves active_session
          (check_lease_expiry venue willing 3 (λ k. k) (λ k. k) active_session).0.0)
    × (current_state (begin_reconcile (λ k. k) active_session).0 ≡ some active)
    × (current_state (complete_reconcile 9 (λ k. k) active_session).0 ≡ some active)
    × (current_state (stop_session venue willing 3 true (λ k. k) (λ k. k) active_session).0.0
        ≡ some graceful_shutdown)
    × ((current_state (check_lease_expiry venue willing 3 (λ k. k) (λ k. k) active_session).0.0
          ≡ some active)
        ⊎ ((some SessionState.active ≡ some SessionState.active)
            × (current_state
                  (check_lease_expiry venue willing 3 (λ k. k) (λ k. k) active_session).0.0
                ≡ some kill_switch_tripped)))
unfolding current_state from_u8
lifecycle-Evolves_example =
    lifecycle-Evolves venue willing 3 (λ k. k) (λ k. k) Evolves-refl Evolves-refl 9 true
      active_session

-- Another task that ends the session.
abbrev ends : SessionHandle → SessionHandle
ends k = record k { state = 5 }

active-IsSettled : IsSettled active_session
unfolding current_state from_u8 is_terminal
active-IsSettled = record { announced = refl; stamped = refl }

lifecycle-IsSettled_example :
    IsSettled (begin_reconcile (λ k. k) active_session).0
    × IsSettled (complete_reconcile 9 (λ k. k) active_session).0
    × IsSettled (stop_session venue willing 3 true (λ k. k) (λ k. k) active_session).0.0
    × IsSettled (check_lease_expiry venue willing 3 (λ k. k) (λ k. k) active_session).0.0
lifecycle-IsSettled_example =
    lifecycle-IsSettled venue willing 3 (λ k. k) (λ k. k) (λ k v. v) (λ k v. v) 9 true
      active_session active-IsSettled

stop_session_honest_example :
    ((stop_session venue willing 3 true (λ k. k) (λ k. k) active_session).1
      ≡ map (cancel_order venue) ("a" ∷ "b" ∷ []))
    × (AllAcknowledged willing ("a" ∷ "b" ∷ [])
        ⊎ (((e : ManagerError) × ((stop_session venue willing 3 true
                  (λ k. k)
                  (λ k. k)
                  active_session).0.1
                ≡ err e))
            ⊎ (terminal_state (current_state active_session) ≡ true)))
unfolding current_state from_u8 is_terminal
stop_session_honest_example =
    stop_session_honest venue willing 3 (λ k. k) (λ k. k) active_session refl

stop_session_misses_order_example :
    let out =
      stop_session venue willing 3 true
        (record_submitted_orders (late_order ∷ []))
        (λ k. k)
        active_session in
    (authorize active_session ≡ ok tt)
    × (unwind_late_submissions venue willing
          (record_submitted_orders (late_order ∷ []) active_session)
          (late_order ∷ [])
        ≡ [])
    × (out.0.1 ≡ ok (some graceful_shutdown))
    × (contains "c" out.0.0.tracked_coids ≡ true)
    × (asks_cancel "c" out.1 ≡ false)
unfolding to_u8 cancel_session_orders cancel_coids contains order_ids
stop_session_misses_order_example =
    stop_session_misses_order venue willing willing 3 active_session (late_order ∷ []) "c" refl refl
      refl refl

check_lease_expiry_lem_example :
    let out = check_lease_expiry venue willing 6000000000 (λ k. k) (λ k. k) active_session in
    ((current_state active_session ≡ some active)
      → 5000 < last_seen_elapsed_ms 6000000000 active_session
      → (out.1 ≡ true) × Tripped venue 6000000000 active_session out.0.0 out.0.1)
    × (((current_state active_session ≡ some active)
          → last_seen_elapsed_ms 6000000000 active_session ≤ 5000)
        → out ≡ ((active_session, []), false))
check_lease_expiry_lem_example = check_lease_expiry_lem venue willing 6000000000 active_session

-- The kill switch moves first, and the submission records its order after it.
abbrev start : World
start = record { handle = active_session; requests = []; submission = placed; switch = armed }

abbrev after_trip : World
after_trip = record start {
  handle = (transition active_session active kill_switch_tripped).0;
  switch = tripped;
}

abbrev after_cancels : World
after_cancels = record after_trip {
  requests = [] ++ (cancel_session_orders venue willing after_trip.handle).0;
  switch = unwound;
}

abbrev after_record : World
after_record = record after_cancels {
  handle = record_submitted_orders (late_order ∷ []) after_cancels.handle;
  submission = recorded;
}

abbrev after_check : World
after_check = record after_record {
  requests =
      after_record.requests
      ++ unwind_late_submissions venue willing after_record.handle (late_order ∷ []);
  submission = checked;
}

trip_first : Reach venue (late_order ∷ []) start after_check
unfolding to_u8 route_scope cancel_session_orders transition cancel_coids
trip_first =
    next
      (next (next (next here (trips refl refl refl)) (cancels willing refl refl))
        (records refl refl))
      (checks willing refl refl)

race_no_orphan_example : unwinds "c" after_check.requests ≡ true
unfolding contains order_ids
race_no_orphan_example =
    race_no_orphan venue (late_order ∷ []) "c" refl {w = start} {u = after_check} refl refl refl
      trip_first refl refl
