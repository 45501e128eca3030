-- ===== src/Session/Lifecycle/Announce.antt =====
-- The announcement and the stamp of a session's end (session/lifecycle.rs, session/health.rs).
use longtrader.Prelude.{
  ℕ, ◌+◌, ◌≡◌, refl, sym, ap, ◌∙◌, Bool, true, false, Option, none, some, String, List, [], ◌∷◌,
  ◌++◌, arith, inl, inr, Bool-cases,
}
use longtrader.Ports.{ExchangeId}
use longtrader.Session.State.{
  SessionState, WireState, attached, syncing, active, kill_switch_tripped, graceful_shutdown,
  is_terminal, to_u8, from_u8, to_proto, from_u8-to_u8,
}
use longtrader.Session.Errors.{CancelFailure}
use longtrader.Session.Handle.{
  SessionHandle, StrategyEvent, EventBody, log, state_change, current_state, transition, publish,
  publish_state_change, mark_terminal,
}
use longtrader.Session.Handle.Evolution.{transition-cases, mark_terminal_fields}
use longtrader.Session.Venue.{Cancels}
use longtrader.Session.Gate.{is_active, terminal_state}
use longtrader.Session.Lifecycle.{
  Interference, publish_if_moved, begin_from, begin_reconcile, complete_from, raise_watermark,
  complete_reconcile, settle_stop, stop_from, stop_session, settle_trip, trip_kill_switch,
  check_lease_expiry, is_expired, requested_cancels,
}

abbrev pub ends : EventBody → ℕ
ends (state_change from WireState.kill_switch_tripped reason) = 1
ends (state_change from WireState.graceful_shutdown reason) = 1
ends (state_change from WireState.unspecified reason) = 0
ends (state_change from WireState.attached reason) = 0
ends (state_change from WireState.syncing reason) = 0
ends (state_change from WireState.active reason) = 0
ends (log session level message at fields) = 0

-- How many of the events announce the end of the session.
abbrev pub terminal_changes : List StrategyEvent → ℕ
terminal_changes [] = 0
terminal_changes (e ∷ es) = ends e.body + terminal_changes es

abbrev pub is_some {ℓ} : {A : Type ℓ} → Option A → Bool
is_some none = false
is_some (some a) = true

abbrev pub count_of : Bool → ℕ
count_of true = 1
count_of false = 0

-- The end of a session has been announced once if it is terminal, and never if it is live; and the
-- session is stamped exactly if it is terminal.
pub record IsSettled (h : SessionHandle) : Type 0 where
  pub announced : terminal_changes h.sent ≡ count_of (terminal_state (current_state h))
  pub stamped : is_some h.terminal_at ≡ terminal_state (current_state h)

abbrev pub KeepsSettled : Interference → Type 0
KeepsSettled env = (k : SessionHandle) → IsSettled k → IsSettled (env k)

terminal_changes-append :
    (xs : List StrategyEvent) (e : StrategyEvent)
    → terminal_changes (xs ++ (e ∷ [])) ≡ terminal_changes xs + ends e.body
terminal_changes-append [] e = omega arith
terminal_changes-append (x ∷ xs) e = omega (arith, terminal_changes-append xs e)

ends_of_state :
    (s t : SessionState) (reason : String)
    → ends (state_change (to_proto s) (to_proto t) reason) ≡ count_of (is_terminal t)
unfolding to_proto is_terminal
ends_of_state s t reason = ground arith

-- What a published state change adds.
published_changes :
    (s t : SessionState) (reason : String) (h : SessionHandle)
    → (terminal_changes (publish_state_change s t reason h).sent
        ≡ terminal_changes h.sent + count_of (is_terminal t))
      × (current_state (publish_state_change s t reason h) ≡ current_state h)
      × ((publish_state_change s t reason h).terminal_at ≡ h.terminal_at)
unfolding publish_state_change publish current_state
published_changes s t reason h = (
  terminal_changes-append h.sent _
      ∙ ap (λ n. terminal_changes h.sent + n) (ends_of_state s t reason),
  refl,
  refl,
)

change-IsSettled :
    (s t : SessionState) (reason : String) (k : SessionHandle)
    → terminal_changes k.sent ≡ 0
    → current_state k ≡ some t
    → is_some k.terminal_at ≡ is_terminal t
    → IsSettled (publish_state_change s t reason k)
change-IsSettled s t reason k none_yet cur stamp =
    let (a, c, d) = published_changes s t reason k in
    record { announced = rw (c, cur) (omega (arith, a, none_yet)); stamped = rw (c, cur, d) stamp }

live_facts :
    (h : SessionHandle) (s : SessionState)
    → h.state ≡ to_u8 s
    → is_terminal s ≡ false
    → IsSettled h
    → (terminal_changes h.sent ≡ 0) × (is_some h.terminal_at ≡ false)
unfolding current_state
live_facts h s at_s live v =
    let was : terminal_state (from_u8 h.state) ≡ false = rw (at_s, from_u8-to_u8 s) live in
    (v.announced ∙ ap count_of was, v.stamped ∙ was)

move-IsSettled :
    (h : SessionHandle) (s t : SessionState) (reason : String)
    → h.state ≡ to_u8 s
    → is_terminal s ≡ false
    → is_terminal t ≡ false
    → IsSettled h
    → IsSettled (publish_state_change s t reason (record h { state = to_u8 t }))
unfolding current_state
move-IsSettled h s t reason at_s live live' v =
    let (none_yet, no_stamp) = live_facts h s at_s live v in
    change-IsSettled s t reason (record h { state = to_u8 t }) none_yet (from_u8-to_u8 t)
      (no_stamp ∙ sym live')

fresh_stamp :
    (now : ℕ) (k : SessionHandle)
    → is_some k.terminal_at ≡ false
    → is_some (mark_terminal now k).terminal_at ≡ true
unfolding mark_terminal
fresh_stamp now k e = ground arith

end-IsSettled :
    (h : SessionHandle) (s t : SessionState) (reason : String) (now : ℕ)
    → h.state ≡ to_u8 s
    → is_terminal s ≡ false
    → is_terminal t ≡ true
    → IsSettled h
    → IsSettled (publish_state_change s t reason (mark_terminal now (record h { state = to_u8 t })))
unfolding current_state
end-IsSettled h s t reason now at_s live over v =
    let (none_yet, no_stamp) = live_facts h s at_s live v in
    let moved : SessionHandle = record h { state = to_u8 t } in
    let (_, _, same_state, same_sent, _) = mark_terminal_fields now moved in
    change-IsSettled s t reason (mark_terminal now moved) (ap terminal_changes same_sent ∙ none_yet)
      (ap from_u8 same_state ∙ from_u8-to_u8 t) (fresh_stamp now moved no_stamp ∙ sym over)

-- A compare-and-exchange to a live state, with its publication.
moved-IsSettled :
    (h : SessionHandle) (s t : SessionState) (reason : String)
    → is_terminal s ≡ false
    → is_terminal t ≡ false
    → IsSettled h
    → IsSettled (publish_if_moved t reason (transition h s t))
unfolding publish_if_moved
moved-IsSettled h s t reason live live' v = elim (transition-cases h s t) [
  | inl (at_s, moved) ↦ rw moved (move-IsSettled h s t reason at_s live live' v)
  | inr (_, kept) ↦ rw kept v
]

module _ (env : Interference) (rely : KeepsSettled env) where
  begin_from-IsSettled :
      (o : Option SessionState) (h : SessionHandle) → IsSettled h → IsSettled (begin_from o env h).0
  unfolding begin_from is_terminal
  begin_from-IsSettled (some SessionState.attached) h v =
      moved-IsSettled (env h) attached syncing "reconcile started" refl refl (rely h v)
  begin_from-IsSettled _ h v = v

  complete_from-IsSettled :
      (o : Option SessionState) (h : SessionHandle)
      → IsSettled h
      → IsSettled (complete_from o env h).0
  unfolding complete_from is_terminal
  complete_from-IsSettled (some SessionState.syncing) h v =
      moved-IsSettled (env h) syncing active "reconcile complete" refl refl (rely h v)
  complete_from-IsSettled _ h v = v

  complete_reconcile-IsSettled :
      (n : ℕ) (h : SessionHandle) → IsSettled h → IsSettled (complete_reconcile n env h).0
  unfolding complete_reconcile raise_watermark current_state
  complete_reconcile-IsSettled n h v =
      complete_from-IsSettled (current_state h) (raise_watermark n h)
        (record { announced = v.announced; stamped = v.stamped })

  stop_from-IsSettled :
      (o : Option SessionState) (now : ℕ) (failures : List CancelFailure) (h : SessionHandle)
      → IsSettled h
      → IsSettled (stop_from o now failures env h).0
  unfolding stop_from settle_stop
  stop_from-IsSettled none now failures h v = v
  stop_from-IsSettled (some prev) now failures h v = elim (Bool-cases (is_terminal prev)) [
    | inl over ↦ rw over v
    | inr live ↦ elim (transition-cases (env h) prev graceful_shutdown) [
      | inl (at_s, moved) ↦
          rw (live, moved)
            (end-IsSettled (env h) prev graceful_shutdown "stop requested" now at_s live
              (unfold is_terminal in refl) (rely h v))
      | inr (_, kept) ↦ rw (live, kept) (rely h v)
    ]
  ]

module _ (exchange : ExchangeId) (answers : Cancels) (now : ℕ) (env env' : Interference)
    (rely : KeepsSettled env) (rely' : KeepsSettled env') where
  stop_session-IsSettled :
      (cancel_open_orders : Bool) (h : SessionHandle)
      → IsSettled h
      → IsSettled (stop_session exchange answers now cancel_open_orders env env' h).0.0
  unfolding stop_session
  stop_session-IsSettled cancel_open_orders h v =
      elim (Bool-cases (terminal_state (current_state h))) [
        | inl over ↦ rw over v
        | inr live ↦ rw live (
            stop_from-IsSettled env' rely' (current_state (env h)) now
              (requested_cancels exchange answers cancel_open_orders h).1 (env h) (rely h v))
      ]

  trip_kill_switch-IsSettled :
      (h : SessionHandle)
      → IsSettled h
      → IsSettled (trip_kill_switch exchange answers now env env' h).0
  unfolding trip_kill_switch settle_trip is_terminal
  trip_kill_switch-IsSettled h v = elim (Bool-cases (is_active (current_state h))) [
    | inl live ↦ elim (transition-cases (env h) active kill_switch_tripped) [
      | inl (at_s, moved) ↦
          rw (live, moved)
            (rely' _ (
              end-IsSettled (env h) active kill_switch_tripped "lease expired" now at_s refl refl
                (rely h v)))
      | inr (_, kept) ↦ rw (live, kept) (rely h v)
    ]
    | inr other ↦ rw other v
  ]

  check_lease_expiry-IsSettled :
      (h : SessionHandle)
      → IsSettled h
      → IsSettled (check_lease_expiry exchange answers now env env' h).0.0
  unfolding check_lease_expiry
  check_lease_expiry-IsSettled h v = elim (Bool-cases (is_expired now h)) [
    | inl late ↦ rw late (trip_kill_switch-IsSettled h v)
    | inr fresh ↦ rw fresh v
  ]

  -- Under any interference that keeps it so, each lifecycle operation keeps the session settled: its
  -- end is announced exactly once, when it becomes terminal, and it carries a terminal stamp exactly
  -- while it is terminal.
  pub lifecycle-IsSettled :
      (n : ℕ) (cancel_open_orders : Bool) (h : SessionHandle)
      → IsSettled h
      → IsSettled (begin_reconcile env h).0
        × IsSettled (complete_reconcile n env h).0
        × IsSettled (stop_session exchange answers now cancel_open_orders env env' h).0.0
        × IsSettled (check_lease_expiry exchange answers now env env' h).0.0
  unfolding begin_reconcile
  lifecycle-IsSettled n cancel_open_orders h v = (
    begin_from-IsSettled env rely (current_state h) h v,
    complete_reconcile-IsSettled env rely n h v,
    stop_session-IsSettled cancel_open_orders h v,
    check_lease_expiry-IsSettled h v,
  )
