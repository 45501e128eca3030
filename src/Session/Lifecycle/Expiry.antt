-- ===== src/Session/Lifecycle/Expiry.antt =====
-- When a lease expires and what the kill switch then does (session/health.rs).
use longtrader.Prelude.{
  ℕ, ◌+◌, ◌*◌, ◌%◌, ◌≤◌, ◌<◌, ◌≡◌, refl, sym, ap, ◌∙◌, true, false, Option, none, some, String,
  List, [], ◌∷◌, ◌++◌, map, arith, inl, inr, Bool-cases,
}
use mathlib.Core.Path.{subst}
use longtrader.Ports.{ExchangeId, u64_mod}
use longtrader.Session.State.{
  SessionState, active, kill_switch_tripped, to_u8, from_u8_iff, from_u8-to_u8, to_proto,
}
use longtrader.Session.Policy.{
  Scope, SessionPolicy, unspecified, session_orders, all_orders, scope_none,
}
use longtrader.Session.Handle.{
  SessionHandle, StrategyEvent, state_change, current_state, mark_terminal, publish,
  publish_state_change, touch, last_seen_elapsed_ms,
}
use longtrader.Session.Handle.Evolution.{transition-cases, mark_terminal_fields}
use longtrader.Session.Venue.{VenueRequest, Cancels, cancel_order, cancel_all_orders}
use longtrader.Session.Gate.{is_active, cancel_session_orders}
use longtrader.Session.Gate.Rounds.{cancel_coids_requests}
use longtrader.Session.Lifecycle.{
  is_expired, route_scope, settle_trip, trip_kill_switch, check_lease_expiry,
}

-- The cancels that each scope of the kill-switch policy promises.
pub data Unwinds (exchange : ExchangeId) (coids : List String)
    : Scope → List VenueRequest → Type 0 where
  own_orders :
      {rs : List VenueRequest}
      → rs ≡ map (cancel_order exchange) coids
      → Unwinds exchange coids session_orders rs
  every_order : Unwinds exchange coids all_orders (cancel_all_orders exchange ∷ [])
  log_only : Unwinds exchange coids scope_none []
  unset : Unwinds exchange coids unspecified []

route_scope-Unwinds :
    (scope : Scope) (exchange : ExchangeId) (answers : Cancels) (h : SessionHandle)
    → Unwinds exchange h.tracked_coids scope (route_scope scope exchange answers h)
unfolding route_scope cancel_session_orders
route_scope-Unwinds session_orders exchange answers h =
    own_orders (cancel_coids_requests exchange answers h.tracked_coids)
route_scope-Unwinds all_orders exchange answers h = every_order
route_scope-Unwinds scope_none exchange answers h = log_only
route_scope-Unwinds unspecified exchange answers h = unset

same-Unwinds :
    (exchange : ExchangeId) (answers : Cancels) (k : SessionHandle) (coids : List String)
    (policy : SessionPolicy)
    → k.tracked_coids ≡ coids
    → k.policy ≡ policy
    → Unwinds exchange coids policy.scope (route_scope k.policy.scope exchange answers k)
same-Unwinds exchange answers k coids policy same_coids same_policy =
    let requests : List VenueRequest = route_scope k.policy.scope exchange answers k in
    subst (λ cs. Unwinds exchange cs policy.scope requests) same_coids
      (subst (λ q. Unwinds exchange k.tracked_coids q.scope requests) same_policy
        (route_scope-Unwinds k.policy.scope exchange answers k))

-- What a tripped session looks like beside the session before.
pub record Tripped (exchange : ExchangeId) (now : ℕ) (h h' : SessionHandle)
    (requests : List VenueRequest) : Type 0 where
  pub ended : current_state h' ≡ some kill_switch_tripped
  pub stamp : h.terminal_at ≡ none → h'.terminal_at ≡ some now
  pub announced :
      (e : StrategyEvent) × (h'.sent ≡ h.sent ++ (e ∷ []))
      × (e.body ≡ state_change (to_proto active) (to_proto kill_switch_tripped) "lease expired")
  pub unwound : Unwinds exchange h.tracked_coids h.policy.scope requests

pub active_state : {o : Option SessionState} → is_active o ≡ true → o ≡ some active
active_state {o} e = ground arith

byte_of : (h : SessionHandle) → current_state h ≡ some active → h.state ≡ to_u8 active
unfolding current_state
byte_of h e = sym ((from_u8_iff h.state active).0 e)

expired :
    (now : ℕ) (h : SessionHandle)
    → current_state h ≡ some active
    → h.policy.lease_timeout < last_seen_elapsed_ms now h
    → is_expired now h ≡ true
unfolding is_expired
expired now h at late = rw at (ground arith)

not_expired :
    (now : ℕ) (h : SessionHandle)
    → ((current_state h ≡ some active) → last_seen_elapsed_ms now h ≤ h.policy.lease_timeout)
    → is_expired now h ≡ false
unfolding is_expired
not_expired now h alive = elim (Bool-cases (is_active (current_state h))) [
  | inl live ↦ let fresh = alive (active_state live) in rw live (ground arith)
  | inr other ↦ rw other
]

elapsed_le :
    (now at : ℕ) (h : SessionHandle)
    → now ≤ at + h.policy.lease_timeout * 1000000 + 999999
    → last_seen_elapsed_ms now (touch at h) ≤ h.policy.lease_timeout
unfolding touch last_seen_elapsed_ms
elapsed_le now at h near = omega arith

-- What publishing the end does to the fields that the switch reads.
trip_fields :
    (now : ℕ) (k : SessionHandle)
    → let k' =
        publish_state_change active kill_switch_tripped "lease expired" (mark_terminal now k) in
      (current_state k' ≡ current_state k)
      × (k'.tracked_coids ≡ k.tracked_coids)
      × (k'.policy ≡ k.policy)
      × (k.terminal_at ≡ none → k'.terminal_at ≡ some now)
unfolding publish_state_change publish mark_terminal current_state
trip_fields now k = (ground arith, ground arith, ground arith, λ e. ground arith)

trip_announced :
    (now : ℕ) (k : SessionHandle)
    → let k' =
        publish_state_change active kill_switch_tripped "lease expired" (mark_terminal now k) in
      (e : StrategyEvent) × (k'.sent ≡ k.sent ++ (e ∷ []))
      × (e.body ≡ state_change (to_proto active) (to_proto kill_switch_tripped) "lease expired")
unfolding publish_state_change publish
trip_announced now k =
    let seq : ℕ = ((mark_terminal now k).seq + 1) % u64_mod in
    let event : StrategyEvent = record {
      sequence = seq;
      resume_token = seq;
      body = state_change (to_proto active) (to_proto kill_switch_tripped) "lease expired";
    } in
    (event, ap (λ l. l ++ (event ∷ [])) (mark_terminal_fields now k).3, refl)

module _ (exchange : ExchangeId) (answers : Cancels) (now : ℕ) (h : SessionHandle) where
  trip_end :
      let k =
        publish_state_change active kill_switch_tripped "lease expired"
          (mark_terminal now (record h { state = to_u8 kill_switch_tripped })) in
      Tripped exchange now h k (route_scope k.policy.scope exchange answers k)
  unfolding current_state
  trip_end =
      let moved : SessionHandle = record h { state = to_u8 kill_switch_tripped } in
      let (state, coids, policy, stamp) = trip_fields now moved in
      record {
        ended = state ∙ from_u8-to_u8 kill_switch_tripped;
        stamp = stamp;
        announced = trip_announced now moved;
        unwound = same-Unwinds exchange answers _ h.tracked_coids h.policy coids policy;
      }

  pub trip_active :
      current_state h ≡ some active
      → let out = trip_kill_switch exchange answers now (λ k. k) (λ k. k) h in
        Tripped exchange now h out.0 out.1
  unfolding trip_kill_switch settle_trip
  trip_active at = elim (transition-cases h active kill_switch_tripped) [
    | inl (_, moved) ↦ rw (at, moved) trip_end
    | inr (other, _) ↦ absurd (other (byte_of h at))
  ]

  -- A lease check of an undisturbed session: an active session that has been silent for longer than
  -- its lease is tripped, stamped and announced once, and its orders are unwound as its policy says.
  -- In every other case the check reports no expiry, changes nothing and asks nothing of the venue.
  pub check_lease_expiry_lem :
      let out = check_lease_expiry exchange answers now (λ k. k) (λ k. k) h in
      ((current_state h ≡ some active)
        → h.policy.lease_timeout < last_seen_elapsed_ms now h
        → (out.1 ≡ true) × Tripped exchange now h out.0.0 out.0.1)
      × (((current_state h ≡ some active) → last_seen_elapsed_ms now h ≤ h.policy.lease_timeout)
          → out ≡ ((h, []), false))
  unfolding check_lease_expiry
  check_lease_expiry_lem = (
    λ at late.
        let e : is_expired now h ≡ true = expired now h at late in rw e (refl, trip_active at),
    λ alive. let e : is_expired now h ≡ false = not_expired now h alive in rw e refl,
  )

-- A session whose last heartbeat is at most a lease old is not tripped.
pub touch_alive :
    (exchange : ExchangeId) (answers : Cancels) (at now : ℕ) (h : SessionHandle)
    → now ≤ at + h.policy.lease_timeout * 1000000 + 999999
    → check_lease_expiry exchange answers now (λ k. k) (λ k. k) (touch at h)
      ≡ ((touch at h, []), false)
unfolding touch
touch_alive exchange answers at now h near =
    (check_lease_expiry_lem exchange answers now (touch at h)).1 (λ _. elapsed_le now at h near)
