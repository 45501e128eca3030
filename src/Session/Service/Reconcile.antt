-- ===== src/Session/Service/Reconcile.antt =====
-- What a reconciliation achieves, and what it takes to trade (session/service.rs, session/gate.rs).
use longtrader.Prelude.{
  ℕ, max, ◌≡◌, refl, sym, ap, ◌∙◌, true, false, none, some, String, [], ◌∷◌, Result, ok, err, inl,
  inr, ◌⊎◌, Option-cases, Bool-cases,
}
use longtrader.Prelude.Dict.{find, put}
use longtrader.Ports.{PortError}
use longtrader.Session.State.{
  SessionState, attached, syncing, active, is_terminal, from_u8-to_u8, from_u8_iff,
}
use longtrader.Session.Errors.{
  ManagerError, not_found, invalid_argument, cannot_begin, sync_in_progress, port,
}
use longtrader.Session.Handle.{
  SessionHandle, StrategyInfo, current_state, transition, publish, publish_state_change,
  set_strategy, is_empty,
}
use longtrader.Session.Handle.Evolution.{transition-cases}
use longtrader.Session.Venue.{sync_state}
use longtrader.Session.Gate.{authorize, is_active}
use longtrader.Session.Lifecycle.{
  publish_if_moved, begin_from, begin_reconcile, complete_from, raise_watermark, complete_reconcile,
}
use longtrader.Session.Lifecycle.Expiry.{active_state}
use longtrader.Session.Manager.{SessionManager, get, on_session, authorize_order_submission}
use longtrader.Session.Manager.Registry.{on_session_found, find-put_self}
use longtrader.Session.Service.{reconcile_state, status_of}

-- The published form of an undisturbed compare-and-exchange.
moved_state :
    (h : SessionHandle) (s t : SessionState) (reason : String)
    → current_state h ≡ some s
    → (current_state (publish_if_moved t reason (transition h s t)) ≡ some t)
      × ((publish_if_moved t reason (transition h s t)).snapshot_seq ≡ h.snapshot_seq)
unfolding publish_if_moved publish_state_change publish current_state
moved_state h s t reason at = elim (transition-cases h s t) [
  | inl (_, moved) ↦ rw moved (from_u8-to_u8 t, refl)
  | inr (other, _) ↦ absurd (other (sym ((from_u8_iff h.state s).0 at)))
]

-- Where a begun reconciliation stands.
begun_from :
    (h : SessionHandle) (s : SessionState)
    → current_state h ≡ some s
    → is_terminal s ≡ false
    → let out = begin_from (some s) (λ k. k) h in
      (out.1 ≡ ok tt)
      × ((current_state out.0 ≡ some syncing) ⊎ (current_state out.0 ≡ some active))
      × (out.0.snapshot_seq ≡ h.snapshot_seq)
unfolding begin_from is_terminal
begun_from h SessionState.attached at live =
    let moved = moved_state h attached syncing "reconcile started" at in
    (refl, inl moved.0, moved.1)
begun_from h SessionState.syncing at live = (refl, inl at, refl)
begun_from h SessionState.active at live = (refl, inr at, refl)
begun_from h SessionState.kill_switch_tripped at live = absurd cc
begun_from h SessionState.graceful_shutdown at live = absurd cc

begun :
    (h : SessionHandle) (s : SessionState)
    → current_state h ≡ some s
    → is_terminal s ≡ false
    → let out = begin_reconcile (λ k. k) h in
      (out.1 ≡ ok tt)
      × ((current_state out.0 ≡ some syncing) ⊎ (current_state out.0 ≡ some active))
      × (out.0.snapshot_seq ≡ h.snapshot_seq)
unfolding begin_reconcile
begun h s at live = rw at (begun_from h s at live)

completed :
    (h : SessionHandle) (n : ℕ)
    → (current_state h ≡ some syncing) ⊎ (current_state h ≡ some active)
    → let out = complete_reconcile n (λ k. k) h in
      (out.1 ≡ ok tt)
      × (current_state out.0 ≡ some active)
      × (out.0.snapshot_seq ≡ max h.snapshot_seq n)
unfolding complete_reconcile raise_watermark complete_from current_state
completed h n (inl at) =
    let moved = moved_state (raise_watermark n h) syncing active "reconcile complete" at in
    rw at (refl, moved.0, moved.1)
completed h n (inr at) = rw at (refl, at, refl)

begun_over :
    (h : SessionHandle) (s : SessionState)
    → is_terminal s ≡ true
    → begin_from (some s) (λ k. k) h ≡ (h, err (invalid_argument (cannot_begin h.id s)))
unfolding begin_from is_terminal
begun_over h SessionState.attached over = absurd cc
begun_over h SessionState.syncing over = absurd cc
begun_over h SessionState.active over = absurd cc
begun_over h SessionState.kill_switch_tripped over = refl
begun_over h SessionState.graceful_shutdown over = refl

gate_missing :
    (m : SessionManager) (id : String)
    → is_empty id ≡ false
    → find id m.sessions ≡ none
    → authorize_order_submission m id ≡ err (not_found id)
unfolding authorize_order_submission get
gate_missing m id named missing = rw (named, missing) refl

module _ (m : SessionManager) (id : String) (h : SessionHandle) (named : is_empty id ≡ false) where
  gate_open :
      find id m.sessions ≡ some h
      → current_state h ≡ some active
      → authorize_order_submission m id ≡ ok (some h)
  unfolding authorize_order_submission authorize get
  gate_open found at = rw (named, found, at) refl

  gate_shut :
      find id m.sessions ≡ some h
      → is_active (current_state h) ≡ false
      → authorize_order_submission m id ≡ err (sync_in_progress h.id (current_state h))
  unfolding authorize_order_submission authorize get
  gate_shut found shut = rw (named, found, shut) refl

module _ (meanwhile : SessionManager → SessionManager) (m m' m'' : SessionManager)
    (id : String) where
  reconcile_refused :
      (snapshot : Result PortError ℕ) (e : ManagerError)
      → on_session m id (begin_reconcile (λ k. k)) ≡ (m', err e)
      → reconcile_state meanwhile m snapshot id ≡ ((m', err e), [])
  unfolding reconcile_state
  reconcile_refused snapshot e began =
      rw (reconcile_state, ap (λ r. r.1) began, ap (λ r. r.0) began) refl

  reconcile_failed :
      (e : PortError)
      → on_session m id (begin_reconcile (λ k. k)) ≡ (m', ok tt)
      → reconcile_state meanwhile m (err e) id
        ≡ ((meanwhile m', err (port e)), sync_state m.default_exchange ∷ [])
  unfolding reconcile_state
  reconcile_failed e began = rw (reconcile_state, ap (λ r. r.1) began, ap (λ r. r.0) began) refl

  reconcile_done :
      (n : ℕ)
      → on_session m id (begin_reconcile (λ k. k)) ≡ (m', ok tt)
      → on_session (meanwhile m') id (complete_reconcile n (λ k. k)) ≡ (m'', ok tt)
      → reconcile_state meanwhile m (ok n) id ≡ ((m'', ok n), sync_state m.default_exchange ∷ [])
  unfolding reconcile_state
  reconcile_done n began completes =
      rw
        (
          reconcile_state,
          ap (λ r. r.1) began,
          ap (λ r. r.0) began,
          ap (λ r. r.1) completes,
          ap (λ r. r.0) began,
          ap (λ r. r.0) completes,
        )
        refl

-- A reconciliation of a session that has not ended, with a venue that answers and no other task that
-- touches the registry meanwhile, ends with the session active, its watermark raised to the snapshot's,
-- and the gate open for its orders.
pub reconcile_activates :
    (m : SessionManager) (n : ℕ) (id : String) (h : SessionHandle) (s : SessionState)
    → is_empty id ≡ false
    → find id m.sessions ≡ some h
    → current_state h ≡ some s
    → is_terminal s ≡ false
    → let out = reconcile_state (λ k. k) m (ok n) id in
      (out.0.1 ≡ ok n)
      × (out.1 ≡ sync_state m.default_exchange ∷ [])
      × ((h' : SessionHandle) × (find id out.0.0.sessions ≡ some h')
          × (current_state h' ≡ some active)
          × (h'.snapshot_seq ≡ max h.snapshot_seq n)
          × (authorize_order_submission out.0.0 id ≡ ok (some h')))
reconcile_activates m n id h s named found at live =
    let b = begun h s at live in
    let h1 : SessionHandle = (begin_reconcile (λ k. k) h).0 in
    let c = completed h1 n b.1 in
    let h2 : SessionHandle = (complete_reconcile n (λ k. k) h1).0 in
    let m1 : SessionManager = record m { sessions = put id h1 m.sessions } in
    let m2 : SessionManager = record m1 { sessions = put id h2 m1.sessions } in
    let f1 : find id m1.sessions ≡ some h1 = find-put_self id h1 m.sessions in
    let f2 : find id m2.sessions ≡ some h2 = find-put_self id h2 m1.sessions in
    let began = on_session_found m id (begin_reconcile (λ k. k)) h found ∙ ap (λ r. (m1, r)) b.0 in
    let completes =
      on_session_found m1 id (complete_reconcile n (λ k. k)) h1 f1 ∙ ap (λ r. (m2, r)) c.0 in
    rw (reconcile_done (λ k. k) m m1 m2 id n began completes)
      (refl, refl, (h2, f2, c.1, (c.2 ∙ ap (λ w. max w n) b.2), gate_open m2 id h2 named f2 c.1))

-- If the venue does not answer, the reconciliation fails with its error, and a session that had not
-- reconciled before may still not trade.
pub reconcile_venue_fails :
    (m : SessionManager) (e : PortError) (id : String) (h : SessionHandle)
    → is_empty id ≡ false
    → find id m.sessions ≡ some h
    → current_state h ≡ some attached
    → let out = reconcile_state (λ k. k) m (err e) id in
      (out.0.1 ≡ err (port e))
      × ((h' : SessionHandle) × (find id out.0.0.sessions ≡ some h')
          × (current_state h' ≡ some syncing)
          × (authorize_order_submission out.0.0 id ≡ err (sync_in_progress h'.id (some syncing))))
unfolding begin_reconcile begin_from
reconcile_venue_fails m e id h named found at =
    let b = moved_state h attached syncing "reconcile started" at in
    let h1 : SessionHandle =
      publish_if_moved syncing "reconcile started" (transition h attached syncing) in
    let m1 : SessionManager = record m { sessions = put id h1 m.sessions } in
    let f1 : find id m1.sessions ≡ some h1 = find-put_self id h1 m.sessions in
    let began : on_session m id (begin_reconcile (λ k. k)) ≡ (m1, ok tt) =
      on_session_found m id (begin_reconcile (λ k. k)) h found
      ∙ ap
          (λ o. (
            record m { sessions = put id (begin_from o (λ k. k) h).0 m.sessions },
            (begin_from o (λ k. k) h).1,
          ))
          at in
    rw (reconcile_failed (λ k. k) m m1 m1 id e began) (refl, (h1, f1, b.0, shut_at h1 m1 f1 b.0))
  where
    shut_at :
        (k : SessionHandle) (m1 : SessionManager)
        → find id m1.sessions ≡ some k
        → current_state k ≡ some syncing
        → authorize_order_submission m1 id ≡ err (sync_in_progress k.id (some syncing))
    shut_at k m1 found at = gate_shut m1 id k named found (rw at refl) ∙ rw at refl

-- A session that has ended is not reconciled: the call is refused, nothing changes, and the venue is
-- not asked.
pub reconcile_terminal :
    (meanwhile : SessionManager → SessionManager) (m : SessionManager)
    (snapshot : Result PortError ℕ) (id : String) (h : SessionHandle) (s : SessionState)
    → find id m.sessions ≡ some h
    → current_state h ≡ some s
    → is_terminal s ≡ true
    → let out = reconcile_state meanwhile m snapshot id in
      (out.0.1 ≡ err (invalid_argument (cannot_begin h.id s)))
      × (find id out.0.0.sessions ≡ some h)
      × (out.1 ≡ [])
unfolding begin_reconcile
reconcile_terminal meanwhile m snapshot id h s found at over =
    let refuses : begin_reconcile (λ k. k) h ≡ (h, err (invalid_argument (cannot_begin h.id s))) =
      rw at (begun_over h s over) in
    let began : on_session m id (begin_reconcile (λ k. k)) ≡ (
      record m { sessions = put id h m.sessions },
      err (invalid_argument (cannot_begin h.id s)),
    ) =
      on_session_found m id (begin_reconcile (λ k. k)) h found
      ∙ ap (λ o. (record m { sessions = put id o.0 m.sessions }, o.1)) refuses in
    rw
      (reconcile_refused meanwhile m (record m { sessions = put id h m.sessions }) m id snapshot
        (invalid_argument (cannot_begin h.id s)) began)
      (refl, find-put_self id h m.sessions, refl)

-- The gate answers with a session's handle exactly if the session is registered and active.
pub authorize_iff :
    (m : SessionManager) (id : String) (h : SessionHandle)
    → is_empty id ≡ false
    → ((authorize_order_submission m id ≡ ok (some h))
        → (find id m.sessions ≡ some h) × (current_state h ≡ some active))
      × ((find id m.sessions ≡ some h)
          → (current_state h ≡ some active)
          → authorize_order_submission m id ≡ ok (some h))
authorize_iff m id h named = (λ e. opened e, gate_open m id h named)
  where
    opened :
        authorize_order_submission m id ≡ ok (some h)
        → (find id m.sessions ≡ some h) × (current_state h ≡ some active)
    opened e = elim (Option-cases (find id m.sessions)) [
      | inl missing ↦ let shut = gate_missing m id named missing in absurd cc
      | inr (k, found) ↦ elim (Bool-cases (is_active (current_state k))) [
        | inl live ↦
            let at = active_state live in
            let opens = gate_open m id k named found at in
            let same : k ≡ h = cc in rw (sym same) (found, at)
        | inr other ↦ let shut = gate_shut m id k named found other in absurd cc
      ]
    ]

-- Orders and logs that came before the registration of a strategy are counted in its status.
pub status_counts_all :
    (registered : StrategyInfo) (h : SessionHandle)
    → ((status_of (set_strategy registered h)).orders_submitted ≡ h.orders_submitted)
      × ((status_of (set_strategy registered h)).log_events ≡ h.log_events)
unfolding status_of set_strategy
status_counts_all registered h = (refl, refl)
