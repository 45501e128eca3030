-- ===== src/Session/Lifecycle/Guarantee.antt =====
-- How the lifecycle operations move a session under interference by other tasks
-- (session/lifecycle.rs, session/health.rs).
use longtrader.Prelude.{
  ℕ, ◌≡◌, refl, Bool, Option, none, some, String, List, arith, ◌⊎◌, inl, inr, Bool-cases,
}
use mathlib.Core.Option
use longtrader.Ports.{ExchangeId}
use longtrader.Session.State.{
  SessionState, syncing, active, kill_switch_tripped, graceful_shutdown, is_terminal,
}
use longtrader.Session.Errors.{CancelFailure}
use longtrader.Session.Handle.{
  SessionHandle, current_state, transition, publish_state_change, mark_terminal,
}
use longtrader.Session.Handle.Evolution.{
  ◌⟶◌, reconcile_started, reconcile_completed, lease_expired, stop_requested, Evolves, Evolves-refl,
  Evolves-trans, Evolves-quiet, publish-Evolves, mark_terminal-Evolves, transition-Evolves,
}
use longtrader.Session.Venue.{Cancels}
use longtrader.Session.Gate.{is_active, terminal_state}
use longtrader.Session.Lifecycle.Edges.{
  begins, completes, stops, begin_reconcile_edge, complete_reconcile_edge, stop_session_edge,
  check_lease_expiry_edge,
}
use longtrader.Session.Lifecycle.{
  Interference, publish_if_moved, begin_from, begin_reconcile, complete_from, raise_watermark,
  complete_reconcile, settle_stop, stop_from, stop_session, is_expired, requested_cancels,
  settle_trip, trip_kill_switch, check_lease_expiry,
}

-- What an operation asks of the other tasks.
abbrev pub Respects : Interference → Type 0
Respects env = (k : SessionHandle) → Evolves k (env k)

publish_state_change-Evolves :
    (from to : SessionState) (reason : String) (h : SessionHandle)
    → Evolves h (publish_state_change from to reason h)
unfolding publish_state_change
publish_state_change-Evolves from to reason h = publish-Evolves _ h

publish_if_moved-Evolves :
    (h : SessionHandle) (next : SessionState) (reason : String)
    (x : SessionHandle × Option SessionState)
    → Evolves h x.0
    → Evolves h (publish_if_moved next reason x)
unfolding publish_if_moved
publish_if_moved-Evolves h next reason (k, none) v = v
publish_if_moved-Evolves h next reason (k, some prev) v =
    Evolves-trans v (publish_state_change-Evolves prev next reason k)

module _ (env : Interference) (rely : Respects env) where
  moved-Evolves :
      (h : SessionHandle) {s t : SessionState} → s ⟶ t → Evolves h (transition (env h) s t).0
  moved-Evolves h edge = Evolves-trans (rely h) (transition-Evolves (env h) edge)

  begin_from-Evolves :
      (o : Option SessionState) (h : SessionHandle) → Evolves h (begin_from o env h).0
  unfolding begin_from
  begin_from-Evolves (some SessionState.attached) h =
      publish_if_moved-Evolves h syncing "reconcile started" _ (moved-Evolves h reconcile_started)
  begin_from-Evolves _ h = Evolves-refl h

  complete_from-Evolves :
      (o : Option SessionState) (h : SessionHandle) → Evolves h (complete_from o env h).0
  unfolding complete_from
  complete_from-Evolves (some SessionState.syncing) h =
      publish_if_moved-Evolves h active "reconcile complete" _ (moved-Evolves h reconcile_completed)
  complete_from-Evolves _ h = Evolves-refl h

  pub begin_reconcile-Evolves : (h : SessionHandle) → Evolves h (begin_reconcile env h).0
  unfolding begin_reconcile
  begin_reconcile-Evolves h = begin_from-Evolves (current_state h) h

  raise_watermark-Evolves : (n : ℕ) (h : SessionHandle) → Evolves h (raise_watermark n h)
  unfolding raise_watermark
  raise_watermark-Evolves n h =
      Evolves-quiet h (raise_watermark n h) refl refl refl refl refl (omega arith)

  pub complete_reconcile-Evolves :
      (n : ℕ) (h : SessionHandle) → Evolves h (complete_reconcile n env h).0
  unfolding complete_reconcile
  complete_reconcile-Evolves n h =
      Evolves-trans (raise_watermark-Evolves n h)
        (complete_from-Evolves (current_state (raise_watermark n h)) (raise_watermark n h))

  settle_stop-Evolves :
      (h : SessionHandle) (now : ℕ) (failures : List CancelFailure)
      (x : SessionHandle × Option SessionState)
      → Evolves h x.0
      → Evolves h (settle_stop now failures x).0
  unfolding settle_stop
  settle_stop-Evolves h now failures (k, none) v = v
  settle_stop-Evolves h now failures (k, some prev) v = Evolves-trans v (
      Evolves-trans (mark_terminal-Evolves now k) (
        publish_state_change-Evolves prev graceful_shutdown "stop requested" (mark_terminal now k)))

  stop_from-Evolves :
      (o : Option SessionState) (now : ℕ) (failures : List CancelFailure) (h : SessionHandle)
      → Evolves h (stop_from o now failures env h).0
  unfolding stop_from
  stop_from-Evolves none now failures h = Evolves-refl h
  stop_from-Evolves (some prev) now failures h = elim (Bool-cases (is_terminal prev)) [
    | inl over ↦ rw over (Evolves-refl h)
    | inr live ↦
        rw live (settle_stop-Evolves h now failures _ (moved-Evolves h (stop_requested live)))
  ]

  settle_trip-Evolves :
      (exchange : ExchangeId) (answers : Cancels) (now : ℕ) (h : SessionHandle)
      (x : SessionHandle × Option SessionState)
      → Evolves h x.0
      → Evolves h (settle_trip exchange answers now env x).0
  unfolding settle_trip
  settle_trip-Evolves exchange answers now h (k, none) v = v
  settle_trip-Evolves exchange answers now h (k, some prev) v = Evolves-trans v (
      Evolves-trans (mark_terminal-Evolves now k) (
        Evolves-trans
          (publish_state_change-Evolves prev kill_switch_tripped "lease expired"
            (mark_terminal now k))
          (rely _)))

module _ (exchange : ExchangeId) (answers : Cancels) (now : ℕ) (env env' : Interference)
    (rely : Respects env) (rely' : Respects env') where
  stop_session-Evolves :
      (cancel_open_orders : Bool) (h : SessionHandle)
      → Evolves h (stop_session exchange answers now cancel_open_orders env env' h).0.0
  unfolding stop_session
  stop_session-Evolves cancel_open_orders h = elim (Bool-cases (terminal_state (current_state h))) [
    | inl over ↦ rw over (Evolves-refl h)
    | inr live ↦ rw live (
        Evolves-trans (rely h) (
          stop_from-Evolves env' rely' (current_state (env h)) now
            (requested_cancels exchange answers cancel_open_orders h).1 (env h)))
  ]

  pub trip_kill_switch-Evolves :
      (h : SessionHandle) → Evolves h (trip_kill_switch exchange answers now env env' h).0
  unfolding trip_kill_switch
  trip_kill_switch-Evolves h = elim (Bool-cases (is_active (current_state h))) [
    | inl live ↦ rw live (
        settle_trip-Evolves env' rely' exchange answers now h _
          (moved-Evolves env rely h lease_expired))
    | inr other ↦ rw other (Evolves-refl h)
  ]

  check_lease_expiry-Evolves :
      (h : SessionHandle) → Evolves h (check_lease_expiry exchange answers now env env' h).0.0
  unfolding check_lease_expiry
  check_lease_expiry-Evolves h = elim (Bool-cases (is_expired now h)) [
    | inl late ↦ rw late (trip_kill_switch-Evolves h)
    | inr fresh ↦ rw fresh (Evolves-refl h)
  ]

  -- Whatever other tasks do in the gaps, as long as they themselves only evolve the session, each of
  -- the four lifecycle operations only evolves it: it keeps the identity, follows the lifecycle
  -- diagram, only appends events, keeps a terminal stamp and never lowers the snapshot watermark. And on
  -- a session that no other task touches meanwhile, each goes its own edge of the diagram and no
  -- further: a reconciliation begins only from attached, to syncing; it completes only from syncing, to
  -- active; a stop ends what has not ended; and the lease check ends nothing but an active session.
  pub lifecycle-Evolves :
      (n : ℕ) (cancel_open_orders : Bool) (h : SessionHandle)
      → (Evolves h (begin_reconcile env h).0
          × Evolves h (complete_reconcile n env h).0
          × Evolves h (stop_session exchange answers now cancel_open_orders env env' h).0.0
          × Evolves h (check_lease_expiry exchange answers now env env' h).0.0)
        × (current_state (begin_reconcile (λ k. k) h).0 ≡ Option.map begins (current_state h))
        × (current_state (complete_reconcile n (λ k. k) h).0
            ≡ Option.map completes (current_state h))
        × (current_state
              (stop_session exchange answers now cancel_open_orders (λ k. k) (λ k. k) h).0.0
            ≡ Option.map stops (current_state h))
        × ((current_state (check_lease_expiry exchange answers now (λ k. k) (λ k. k) h).0.0
              ≡ current_state h)
            ⊎ ((current_state h ≡ some active)
                × (current_state (check_lease_expiry exchange answers now (λ k. k) (λ k. k) h).0.0
                    ≡ some kill_switch_tripped)))
  lifecycle-Evolves n cancel_open_orders h = (
    (
      begin_reconcile-Evolves env rely h,
      complete_reconcile-Evolves env rely n h,
      stop_session-Evolves cancel_open_orders h,
      check_lease_expiry-Evolves h,
    ),
    begin_reconcile_edge h,
    complete_reconcile_edge n h,
    stop_session_edge exchange answers now cancel_open_orders h,
    check_lease_expiry_edge exchange answers now h,
  )
