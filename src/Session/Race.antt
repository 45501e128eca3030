-- ===== src/Session/Race.antt =====
-- The race between an order submission and the kill switch (session/gate.rs, session/health.rs, and
-- `attribute` of session/proxy.rs). The venue has accepted the orders of a submission that passed the
-- gate; the submission still has to record them and to check for a late end of the session. The kill
-- switch still has to exchange the state and to cancel what the policy's scope says. Their steps, and
-- those of any other tasks, interleave freely.
use longtrader.Prelude.{
  ◌≡◌, ◌≢◌, refl, Bool, true, false, ◌||◌, String, List, [], ◌∷◌, ◌++◌, inl, inr, Option-cases,
  arith,
}
use longtrader.Prelude.Dict.{contains}
use longtrader.Ports.{ExchangeId}
use longtrader.Session.State.{active, kill_switch_tripped, is_terminal, to_u8, from_u8-to_u8}
use longtrader.Session.Handle.{SessionHandle, current_state, transition}
use longtrader.Session.Handle.Evolution.{Evolves, terminal_path, transition-cases}
use longtrader.Session.Policy.{Scope, session_orders, all_orders, scope_none}
use longtrader.Session.Venue.{VenueRequest, Cancels, cancel_order, cancel_all_orders, sync_state}
use longtrader.Session.Lifecycle.{route_scope}
use longtrader.Session.Gate.{
  Order, record_submitted_orders, unwind_late_submissions, cancel_session_orders, order_ids,
  terminal_state,
}
use longtrader.Session.Gate.Rounds.{asks_cancel, asks_cancel-cancel_coids, asks_cancel-append}
use longtrader.Session.Gate.Tracking.{record-contains}

pub data Submission : Type 0 where
  placed recorded checked : Submission

pub data Switch : Type 0 where
  armed tripped unwound : Switch

pub record World : Type 0 where
  pub handle : SessionHandle
  pub requests : List VenueRequest
  pub submission : Submission
  pub switch : Switch

-- The kill-switch scopes that cancel a session's orders, alone or with all others.
abbrev pub covers : Scope → Bool
covers session_orders = true
covers all_orders = true
covers scope_none = false
covers Scope.unspecified = false

-- Whether some request cancels an order: by its id, or with all orders of the account.
abbrev pub is_mass_cancel : VenueRequest → Bool
is_mass_cancel (cancel_order e c) = false
is_mass_cancel (cancel_all_orders e) = true
is_mass_cancel (sync_state e) = false

abbrev pub asks_mass_cancel : List VenueRequest → Bool
asks_mass_cancel [] = false
asks_mass_cancel (r ∷ rs) = is_mass_cancel r || asks_mass_cancel rs

abbrev pub unwinds : String → List VenueRequest → Bool
unwinds c requests = asks_cancel c requests || asks_mass_cancel requests

asks_mass_cancel-append :
    (xs ys : List VenueRequest)
    → asks_mass_cancel (xs ++ ys) ≡ (asks_mass_cancel xs || asks_mass_cancel ys)
asks_mass_cancel-append [] ys = refl
asks_mass_cancel-append (x ∷ xs) ys = ground (arith, asks_mass_cancel-append xs ys)

-- What unwinds an order in a later part of the requests unwinds it in all.
unwinds-append :
    (c : String) (xs ys : List VenueRequest) → unwinds c ys ≡ true → unwinds c (xs ++ ys) ≡ true
unwinds-append c xs ys e = ground (arith, asks_cancel-append c xs ys, asks_mass_cancel-append xs ys)

-- What the steps of other tasks keep: no tracked order is forgotten, and the policy still covers the
-- session's orders if it did.
abbrev pub KeepsTracked : SessionHandle → SessionHandle → Type 0
KeepsTracked h h' =
    ((c : String) → contains c h.tracked_coids ≡ true → contains c h'.tracked_coids ≡ true)
    × (covers h.policy.scope ≡ true → covers h'.policy.scope ≡ true)

-- The requests of the kill switch, under a scope that covers the session's orders.
route_unwinds :
    (scope : Scope) (exchange : ExchangeId) (answers : Cancels) (h : SessionHandle) (c : String)
    → covers scope ≡ true
    → contains c h.tracked_coids ≡ true
    → unwinds c (route_scope scope exchange answers h) ≡ true
unfolding route_scope cancel_session_orders
route_unwinds session_orders exchange answers h c covering tracked =
    rw (asks_cancel-cancel_coids exchange answers c h.tracked_coids, tracked) refl
route_unwinds all_orders exchange answers h c covering tracked = refl
route_unwinds scope_none exchange answers h c covering tracked = absurd cc
route_unwinds Scope.unspecified exchange answers h c covering tracked = absurd cc

module _ (exchange : ExchangeId) (orders : List Order) where
  pub data Step (w u : World) : Type 0 where
    records :
        w.submission ≡ placed
        → u ≡ record w { handle = record_submitted_orders orders w.handle; submission = recorded }
        → Step w u
    checks :
        (late : Cancels)
        → w.submission ≡ recorded
        → u ≡ record w {
          requests = w.requests ++ unwind_late_submissions exchange late w.handle orders;
          submission = checked;
        }
        → Step w u
    trips :
        w.switch ≡ armed
        → w.handle.state ≡ to_u8 active
        → u ≡ record w {
          handle = (transition w.handle active kill_switch_tripped).0;
          switch = tripped;
        }
        → Step w u
    cancels :
        (answers : Cancels)
        → w.switch ≡ tripped
        → u ≡ record w {
          requests = w.requests ++ route_scope w.handle.policy.scope exchange answers w.handle;
          switch = unwound;
        }
        → Step w u
    others :
        (h : SessionHandle)
        → Evolves w.handle h
        → KeepsTracked w.handle h
        → u ≡ record w { handle = h }
        → Step w u

  pub data Reach (w : World) : World → Type 0 where
    here : Reach w w
    next : {u v : World} → Reach w u → Step u v → Reach w v

  record Inv (c : String) (w : World) : Type 0 where
    tracked : w.submission ≢ placed → contains c w.handle.tracked_coids ≡ true
    ended : w.switch ≢ armed → terminal_state (current_state w.handle) ≡ true
    covered : covers w.handle.policy.scope ≡ true
    asked : w.submission ≡ checked → w.switch ≡ unwound → unwinds c w.requests ≡ true

  terminal-Evolves :
      {h h' : SessionHandle}
      → Evolves h h'
      → terminal_state (current_state h) ≡ true
      → terminal_state (current_state h') ≡ true
  terminal-Evolves {h} {h'} v e = elim (Option-cases (current_state h)) [
    | inl corrupt ↦ cc
    | inr (s, at_s) ↦
        let over : is_terminal s ≡ true = rw at_s at e in
        rw (terminal_path s v.lifecycle at_s over) over
  ]

  recorded_state :
      (h : SessionHandle) → current_state (record_submitted_orders orders h) ≡ current_state h
  unfolding record_submitted_orders current_state
  recorded_state h = refl

  tripped_state :
      (h : SessionHandle)
      → h.state ≡ to_u8 active
      → terminal_state (current_state (transition h active kill_switch_tripped).0) ≡ true
  unfolding current_state
  tripped_state h at = elim (transition-cases h active kill_switch_tripped) [
    | inl (_, moved) ↦ rw (moved, from_u8-to_u8 kill_switch_tripped) (unfold is_terminal in refl)
    | inr (other, _) ↦ absurd (other at)
  ]

  recorded_policy : (h : SessionHandle) → (record_submitted_orders orders h).policy ≡ h.policy
  unfolding record_submitted_orders
  recorded_policy h = refl

  tripped_policy :
      (h : SessionHandle) → (transition h active kill_switch_tripped).0.policy ≡ h.policy
  tripped_policy h = elim (transition-cases h active kill_switch_tripped) [
    | inl (_, moved) ↦ rw moved
    | inr (_, kept) ↦ rw kept
  ]

  tripped_coids :
      (h : SessionHandle)
      → (transition h active kill_switch_tripped).0.tracked_coids ≡ h.tracked_coids
  tripped_coids h = elim (transition-cases h active kill_switch_tripped) [
    | inl (_, moved) ↦ rw moved
    | inr (_, kept) ↦ rw kept
  ]

  late_requests :
      (late : Cancels) (h : SessionHandle) (c : String)
      → terminal_state (current_state h) ≡ true
      → contains c (order_ids orders) ≡ true
      → asks_cancel c (unwind_late_submissions exchange late h orders) ≡ true
  unfolding unwind_late_submissions contains order_ids
  late_requests late h c over named = late_of orders named
    where
      late_of :
          (os : List Order)
          → contains c (order_ids os) ≡ true
          → asks_cancel c (unwind_late_submissions exchange late h os) ≡ true
      late_of [] e = cc
      late_of (o ∷ os) e =
          rw (over, asks_cancel-cancel_coids exchange late c (order_ids (o ∷ os))) e

  module _ (c : String) (named : contains c (order_ids orders) ≡ true) where
    Step-Inv : {w u : World} → Step w u → Inv c w → Inv c u
    Step-Inv {w} (records p e) v = rw e (record {
      tracked = λ _. rw (record-contains c orders w.handle, named) refl;
      ended = λ n. rw (recorded_state w.handle) (v.ended n);
      covered = rw (recorded_policy w.handle) v.covered;
      asked = λ d. cc;
    })
    Step-Inv {w} (checks late p e) v = rw e (record {
      tracked = λ _. v.tracked (λ q. cc);
      ended = v.ended;
      covered = v.covered;
      asked = λ _ over.
          unwinds-append c w.requests (unwind_late_submissions exchange late w.handle orders)
            (rw (late_requests late w.handle c (v.ended (λ q. cc)) named) refl);
    })
    Step-Inv {w} (trips p at e) v = rw e (record {
      tracked = λ n. rw (tripped_coids w.handle) (v.tracked n);
      ended = λ _. tripped_state w.handle at;
      covered = rw (tripped_policy w.handle) v.covered;
      asked = λ _ q. cc;
    })
    Step-Inv {w} (cancels answers p e) v = rw e (record {
      tracked = v.tracked;
      ended = λ _. v.ended (λ q. cc);
      covered = v.covered;
      asked = λ done _.
          unwinds-append c w.requests (route_scope w.handle.policy.scope exchange answers w.handle)
            (route_unwinds w.handle.policy.scope exchange answers w.handle c v.covered
              (v.tracked (λ q. cc)));
    })
    Step-Inv {w} (others h ev keep e) v = rw e (record {
      tracked = λ n. keep.0 c (v.tracked n);
      ended = λ n. terminal-Evolves ev (v.ended n);
      covered = keep.1 v.covered;
      asked = v.asked;
    })

    Reach-Inv : {w u : World} → Inv c w → Reach w u → Inv c u
    Reach-Inv v here = v
    Reach-Inv v (next r s) = Step-Inv s (Reach-Inv v r)

    -- Under a kill-switch policy that covers the session's orders (SESSION_ORDERS or ALL_ORDERS), and as
    -- long as other tasks forget no tracked order and keep it covering: whatever the interleaving, once
    -- the submission and the kill switch are both done, the venue was asked to cancel every accepted
    -- order with an id, by that id or with all orders.
    pub race_no_orphan :
        {w u : World}
        → w.submission ≡ placed
        → w.switch ≡ armed
        → covers w.handle.policy.scope ≡ true
        → Reach w u
        → u.submission ≡ checked
        → u.switch ≡ unwound
        → unwinds c u.requests ≡ true
    race_no_orphan p a covering r done over =
        (Reach-Inv
            (record {
              tracked = λ n. absurd (n p);
              ended = λ n. absurd (n a);
              covered = covering;
              asked = λ d. cc;
            })
            r).asked
          done over
