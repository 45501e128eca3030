-- ===== src/Session/Lifecycle/Edges.antt =====
-- Where each lifecycle operation takes a session that no other task touches (session/lifecycle.rs,
-- session/health.rs): one edge of the diagram at most.
use longtrader.Prelude.{
  ℕ, ◌≡◌, refl, sym, ◌∙◌, Bool, false, Option, none, some, String, List, ◌⊎◌, inl, inr, Bool-cases,
}
use mathlib.Core.Option
use longtrader.Ports.{ExchangeId}
use longtrader.Session.State.{
  SessionState, attached, syncing, active, kill_switch_tripped, graceful_shutdown, is_terminal,
  to_u8, from_u8-to_u8, from_u8_iff,
}
use longtrader.Session.Errors.{CancelFailure}
use longtrader.Session.Handle.{
  SessionHandle, current_state, transition, mark_terminal, publish, publish_state_change,
}
use longtrader.Session.Handle.Evolution.{transition-cases, mark_terminal_fields}
use longtrader.Session.Venue.{Cancels}
use longtrader.Session.Gate.{is_active}
use longtrader.Session.Lifecycle.Expiry.{active_state}
use longtrader.Session.Lifecycle.{
  publish_if_moved, begin_from, begin_reconcile, raise_watermark, complete_from, complete_reconcile,
  settle_stop, stop_from, stop_session, requested_cancels, settle_trip, trip_kill_switch,
  is_expired, check_lease_expiry,
}

-- The state that each operation leaves of one.
abbrev pub begins : SessionState → SessionState
begins SessionState.attached = syncing
begins SessionState.syncing = syncing
begins SessionState.active = active
begins SessionState.kill_switch_tripped = kill_switch_tripped
begins SessionState.graceful_shutdown = graceful_shutdown

abbrev pub completes : SessionState → SessionState
completes SessionState.attached = attached
completes SessionState.syncing = active
completes SessionState.active = active
completes SessionState.kill_switch_tripped = kill_switch_tripped
completes SessionState.graceful_shutdown = graceful_shutdown

abbrev pub stops : SessionState → SessionState
stops SessionState.attached = graceful_shutdown
stops SessionState.syncing = graceful_shutdown
stops SessionState.active = graceful_shutdown
stops SessionState.kill_switch_tripped = kill_switch_tripped
stops SessionState.graceful_shutdown = graceful_shutdown

pub byte_of : (h : SessionHandle) (s : SessionState) → current_state h ≡ some s → h.state ≡ to_u8 s
unfolding current_state
byte_of h s at = sym ((from_u8_iff h.state s).0 at)

pub published_state :
    (s t : SessionState) (reason : String) (h : SessionHandle)
    → current_state (publish_state_change s t reason h) ≡ current_state h
unfolding publish_state_change publish current_state
published_state s t reason h = refl

pub marked_state :
    (now : ℕ) (h : SessionHandle) → current_state (mark_terminal now h) ≡ current_state h
unfolding current_state
marked_state now h = let (i, c, s, l, w) = mark_terminal_fields now h in rw s refl

pub exchanged :
    (h : SessionHandle) (s t : SessionState)
    → current_state h ≡ some s
    → (transition h s t ≡ (record h { state = to_u8 t }, some s))
      × (current_state (record h { state = to_u8 t }) ≡ some t)
unfolding current_state
exchanged h s t at = elim (transition-cases h s t) [
  | inl (_, moved) ↦ (moved, from_u8-to_u8 t)
  | inr (other, _) ↦ absurd (other (byte_of h s at))
]

moved_edge :
    (h : SessionHandle) (s t : SessionState) (reason : String)
    → current_state h ≡ some s
    → current_state (publish_if_moved t reason (transition h s t)) ≡ some t
unfolding publish_if_moved
moved_edge h s t reason at =
    let (moved, there) = exchanged h s t at in
    rw moved (published_state s t reason (record h { state = to_u8 t }) ∙ there)

begin_edge :
    (o : Option SessionState) (h : SessionHandle)
    → current_state h ≡ o
    → current_state (begin_from o (λ k. k) h).0 ≡ Option.map begins o
unfolding begin_from
begin_edge none h at = at
begin_edge (some SessionState.attached) h at = moved_edge h attached syncing "reconcile started" at
begin_edge (some SessionState.syncing) h at = at
begin_edge (some SessionState.active) h at = at
begin_edge (some SessionState.kill_switch_tripped) h at = at
begin_edge (some SessionState.graceful_shutdown) h at = at

complete_edge :
    (o : Option SessionState) (h : SessionHandle)
    → current_state h ≡ o
    → current_state (complete_from o (λ k. k) h).0 ≡ Option.map completes o
unfolding complete_from
complete_edge none h at = at
complete_edge (some SessionState.attached) h at = at
complete_edge (some SessionState.syncing) h at = moved_edge h syncing active "reconcile complete" at
complete_edge (some SessionState.active) h at = at
complete_edge (some SessionState.kill_switch_tripped) h at = at
complete_edge (some SessionState.graceful_shutdown) h at = at

stop_edge :
    (s : SessionState) (now : ℕ) (failures : List CancelFailure) (h : SessionHandle)
    → current_state h ≡ some s
    → current_state (settle_stop now failures (transition h s graceful_shutdown)).0
      ≡ some graceful_shutdown
unfolding settle_stop
stop_edge s now failures h at =
    let (moved, there) = exchanged h s graceful_shutdown at in
    let k : SessionHandle = record h { state = to_u8 graceful_shutdown } in
    rw moved (
      published_state s graceful_shutdown "stop requested" (mark_terminal now k)
      ∙ (marked_state now k ∙ there))

pub begin_reconcile_edge :
    (h : SessionHandle)
    → current_state (begin_reconcile (λ k. k) h).0 ≡ Option.map begins (current_state h)
unfolding begin_reconcile
begin_reconcile_edge h = begin_edge (current_state h) h refl

pub complete_reconcile_edge :
    (n : ℕ) (h : SessionHandle)
    → current_state (complete_reconcile n (λ k. k) h).0 ≡ Option.map completes (current_state h)
unfolding complete_reconcile raise_watermark current_state
complete_reconcile_edge n h =
    complete_edge (current_state (raise_watermark n h)) (raise_watermark n h) refl

module _ (exchange : ExchangeId) (answers : Cancels) (now : ℕ) where
  stop_live :
      (cancel_open_orders : Bool) (h : SessionHandle) (s : SessionState)
      → current_state h ≡ some s
      → is_terminal s ≡ false
      → current_state (stop_session exchange answers now cancel_open_orders (λ k. k) (λ k. k) h).0.0
        ≡ some graceful_shutdown
  unfolding stop_session stop_from
  stop_live cancel_open_orders h s at live =
      rw (at, live)
        (stop_edge s now (requested_cancels exchange answers cancel_open_orders h).1 h at)

  stopped_edge :
      (o : Option SessionState) (cancel_open_orders : Bool) (h : SessionHandle)
      → current_state h ≡ o
      → current_state (stop_session exchange answers now cancel_open_orders (λ k. k) (λ k. k) h).0.0
        ≡ Option.map stops o
  unfolding stop_session stop_from is_terminal
  stopped_edge none cancel_open_orders h at = rw at at
  stopped_edge (some SessionState.attached) cancel_open_orders h at =
      stop_live cancel_open_orders h attached at refl
  stopped_edge (some SessionState.syncing) cancel_open_orders h at =
      stop_live cancel_open_orders h syncing at refl
  stopped_edge (some SessionState.active) cancel_open_orders h at =
      stop_live cancel_open_orders h active at refl
  stopped_edge (some SessionState.kill_switch_tripped) cancel_open_orders h at = rw at at
  stopped_edge (some SessionState.graceful_shutdown) cancel_open_orders h at = rw at at

  pub stop_session_edge :
      (cancel_open_orders : Bool) (h : SessionHandle)
      → current_state (stop_session exchange answers now cancel_open_orders (λ k. k) (λ k. k) h).0.0
        ≡ Option.map stops (current_state h)
  stop_session_edge cancel_open_orders h = stopped_edge (current_state h) cancel_open_orders h refl

  trip_edge :
      (h : SessionHandle)
      → current_state h ≡ some active
      → current_state (trip_kill_switch exchange answers now (λ k. k) (λ k. k) h).0
        ≡ some kill_switch_tripped
  unfolding trip_kill_switch settle_trip
  trip_edge h at =
      let (moved, there) = exchanged h active kill_switch_tripped at in
      let k : SessionHandle = record h { state = to_u8 kill_switch_tripped } in
      rw (at, moved)
        (published_state active kill_switch_tripped "lease expired" (mark_terminal now k)
          ∙ (marked_state now k ∙ there))

  trip_idle :
      (h : SessionHandle)
      → is_active (current_state h) ≡ false
      → current_state (trip_kill_switch exchange answers now (λ k. k) (λ k. k) h).0
        ≡ current_state h
  unfolding trip_kill_switch
  trip_idle h idle = rw idle refl

  -- An expired active session is tripped, and any other is left as it is.
  pub check_lease_expiry_edge :
      (h : SessionHandle)
      → let out = check_lease_expiry exchange answers now (λ k. k) (λ k. k) h in
        (current_state out.0.0 ≡ current_state h)
        ⊎ ((current_state h ≡ some active) × (current_state out.0.0 ≡ some kill_switch_tripped))
  unfolding check_lease_expiry
  check_lease_expiry_edge h = elim (Bool-cases (is_expired now h)) [
    | inr fresh ↦ rw fresh (inl refl)
    | inl late ↦ elim (Bool-cases (is_active (current_state h))) [
      | inl live ↦ rw late (inr (active_state live, trip_edge h (active_state live)))
      | inr idle ↦ rw late (inl (trip_idle h idle))
    ]
  ]
