-- ===== src/Session/Lifecycle/Stop.antt =====
-- What the answer of `stop_session` tells about the session's orders (session/lifecycle.rs).
use longtrader.Prelude.{
  ℕ, ◌≡◌, refl, ap, ◌∙◌, true, false, Option, none, some, String, List, [], ◌∷◌, map, arith, ok,
  err, inl, inr, ◌⊎◌, Bool-cases, Result-cases,
}
use longtrader.Prelude.Dict.{contains}
use longtrader.Ports.{ExchangeId}
use longtrader.Session.State.{
  SessionState, active, graceful_shutdown, is_terminal, to_u8, from_u8-to_u8,
}
use longtrader.Session.Errors.{ManagerError, CancelFailure}
use longtrader.Session.Handle.{
  SessionHandle, current_state, transition, mark_terminal, publish, publish_state_change,
}
use longtrader.Session.Handle.Evolution.{transition-cases}
use longtrader.Session.Venue.{Cancels, cancel_order}
use longtrader.Session.Gate.{
  Order, authorize, record_submitted_orders, unwind_late_submissions, cancel_session_orders,
  order_ids, terminal_state,
}
use longtrader.Session.Gate.Rounds.{
  cancel_coids_requests, cancel_coids_clean, AllAcknowledged, asks_cancel, asks_cancel-cancel_coids,
}
use longtrader.Session.Gate.Tracking.{record-contains}
use longtrader.Session.Lifecycle.{Interference, settle_stop, stop_from, stop_session}

module _ (exchange : ExchangeId) (answers : Cancels) (now : ℕ) (env env' : Interference) where
  settle_clean :
      (failures : List CancelFailure) (x : SessionHandle × Option SessionState)
      {r : Option SessionState}
      → (settle_stop now failures x).1 ≡ ok r
      → failures ≡ []
  unfolding settle_stop
  settle_clean [] x e = refl
  settle_clean (f ∷ fs) (k, none) e = cc
  settle_clean (f ∷ fs) (k, some prev) e = cc

  stop_from_clean :
      (o : Option SessionState) (failures : List CancelFailure) (h : SessionHandle)
      {r : Option SessionState}
      → terminal_state o ≡ false
      → (stop_from o now failures env' h).1 ≡ ok r
      → failures ≡ []
  unfolding stop_from
  stop_from_clean none failures h live e = cc
  stop_from_clean (some prev) failures h live e =
      settle_clean failures (transition (env' h) prev graceful_shutdown) (rw live at e)

  -- A stop that is asked to cancel the orders of a live session asks one cancel for each tracked order,
  -- in their order, whatever the venue answers and whatever other tasks do meanwhile. Its answer is
  -- honest about them: the venue has acknowledged every one, or the stop answers with an error, or the
  -- session was ended by another task while the cancels were awaited.
  pub stop_session_honest :
      (h : SessionHandle)
      → terminal_state (current_state h) ≡ false
      → let out = stop_session exchange answers now true env env' h in
        (out.1 ≡ map (cancel_order exchange) h.tracked_coids)
        × (AllAcknowledged answers h.tracked_coids
            ⊎ (((e : ManagerError) × (out.0.1 ≡ err e))
                ⊎ (terminal_state (current_state (env h)) ≡ true)))
  unfolding stop_session cancel_session_orders
  stop_session_honest h live = (
    rw live (cancel_coids_requests exchange answers h.tracked_coids),
    elim (Bool-cases (terminal_state (current_state (env h)))) [
      | inl ended ↦ inr (inr ended)
      | inr still ↦ elim (Result-cases (stop_session exchange answers now true env env' h).0.1) [
        | inr failed ↦ inr (inl failed)
        | inl (r, e) ↦ inl (
            cancel_coids_clean exchange answers h.tracked_coids
              (stop_from_clean (current_state (env h)) _ (env h) still (rw live at e)))
      ]
    ],
  )

end_facts :
    (now : ℕ) (s t : SessionState) (reason : String) (k : SessionHandle)
    → let k' = publish_state_change s t reason (mark_terminal now k) in
      (current_state k' ≡ current_state k) × (k'.tracked_coids ≡ k.tracked_coids)
unfolding publish_state_change publish mark_terminal current_state
end_facts now s t reason k = (ground arith, ground arith)

-- The state after a stop whose exchange succeeds and whose cancels were all acknowledged.
stopped :
    (now : ℕ) (h : SessionHandle) (s : SessionState)
    → h.state ≡ to_u8 s
    → is_terminal s ≡ false
    → let out = stop_from (some s) now [] (λ k. k) h in
      (out.1 ≡ ok (some graceful_shutdown)) × (out.0.tracked_coids ≡ h.tracked_coids)
unfolding stop_from settle_stop current_state
stopped now h s at_s live = elim (transition-cases h s graceful_shutdown) [
  | inl (_, moved) ↦
      let (state, tracked) =
        end_facts now s graceful_shutdown "stop requested"
          (record h { state = to_u8 graceful_shutdown }) in
      rw (live, moved) (ap (λ o. ok o) (state ∙ from_u8-to_u8 graceful_shutdown), tracked)
  | inr (other, _) ↦ absurd (other at_s)
]

live_at_active : (h : SessionHandle) → h.state ≡ to_u8 active → current_state h ≡ some active
unfolding current_state
live_at_active h at_active = rw at_active (from_u8-to_u8 active)

record_state :
    (orders : List Order) (h : SessionHandle) → (record_submitted_orders orders h).state ≡ h.state
unfolding record_submitted_orders
record_state orders h = refl

-- At an active session the gate opens and the late check asks for nothing.
active_submission :
    (exchange : ExchangeId) (late : Cancels) (h : SessionHandle) (orders : List Order)
    → current_state h ≡ some active
    → (authorize h ≡ ok tt) × (unwind_late_submissions exchange late h orders ≡ [])
unfolding authorize unwind_late_submissions is_terminal
active_submission exchange late h [] e = (rw e refl, refl)
active_submission exchange late h (o ∷ orders) e = (rw e refl, rw e refl)

-- A stop cancels what is tracked when it starts and ends the session only afterwards. An order that
-- passes the gate and is recorded while the cancels are awaited is tracked when the stop answers with
-- success, and yet neither the stop nor the late check of the submission asks for its cancel.
pub stop_session_misses_order :
    (exchange : ExchangeId) (answers late : Cancels) (now : ℕ) (h : SessionHandle)
    (orders : List Order) (c : String)
    → h.state ≡ to_u8 active
    → (cancel_session_orders exchange answers h).1 ≡ []
    → contains c h.tracked_coids ≡ false
    → contains c (order_ids orders) ≡ true
    → let meanwhile = record_submitted_orders orders in
      let out = stop_session exchange answers now true meanwhile (λ k. k) h in
      (authorize h ≡ ok tt)
      × (unwind_late_submissions exchange late (meanwhile h) orders ≡ [])
      × (out.0.1 ≡ ok (some graceful_shutdown))
      × (contains c out.0.0.tracked_coids ≡ true)
      × (asks_cancel c out.1 ≡ false)
unfolding stop_session cancel_session_orders
stop_session_misses_order exchange answers late now h orders c at clean fresh named =
    let h' : SessionHandle = record_submitted_orders orders h in
    let here : current_state h ≡ some active = live_at_active h at in
    let there : current_state h' ≡ some active = live_at_active h' (record_state orders h ∙ at) in
    let (answer, tracked) =
      stopped now h' active (record_state orders h ∙ at) (unfold is_terminal in refl) in
    let live : terminal_state (some active) ≡ false = unfold is_terminal in refl in
    (
      (active_submission exchange late h orders here).0,
      (active_submission exchange late h' orders there).1,
      rw (here, live, there, clean) answer,
      rw (here, live, there, clean, tracked, record-contains c orders h, named) refl,
      rw (here, live, asks_cancel-cancel_coids exchange answers c h.tracked_coids) fresh,
    )
