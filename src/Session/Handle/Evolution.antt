-- ===== src/Session/Handle/Evolution.antt =====
-- How a session may evolve: the lifecycle diagram of session/state.rs, and what every atomic action
-- on a handle keeps.
use longtrader.Prelude.{
  ℕ, ◌≤◌, ◌≡◌, refl, sym, ap, ◌∙◌, true, false, Option, none, some, List, [], ◌++◌, arith, inl, inr,
  ◌⊎◌, Bool-cases, ◌==◌, ◌≢◌,
}
use mathlib.Core.List.{append-nil, append_assoc}
use longtrader.Session.State.{
  SessionState, attached, syncing, active, kill_switch_tripped, graceful_shutdown, is_terminal,
  from_u8, to_u8, from_u8-to_u8,
}
use longtrader.Session.Handle.{
  SessionHandle, StrategyEvent, EventBody, current_state, transition, publish, mark_terminal,
}

-- The lifecycle diagram. A stop is possible from every state that is not terminal.
infix 40 ◌⟶◌ ◌⟶*◌
pub data ◌⟶◌ : SessionState → SessionState → Type 0 where
  reconcile_started : attached ⟶ syncing
  reconcile_completed : syncing ⟶ active
  lease_expired : active ⟶ kill_switch_tripped
  stop_requested : {s : SessionState} → is_terminal s ≡ false → s ⟶ graceful_shutdown

-- Paths of the diagram. A byte that is no state stays as it is.
pub data ◌⟶*◌ : Option SessionState → Option SessionState → Type 0 where
  here : {o : Option SessionState} → o ⟶* o
  then : {s t : SessionState} {o : Option SessionState} → s ⟶ t → some t ⟶* o → some s ⟶* o

pub ⟶*-trans : {a b c : Option SessionState} → a ⟶* b → b ⟶* c → a ⟶* c
⟶*-trans here q = q
⟶*-trans (then e p) q = then e (⟶*-trans p q)

-- No edge leaves a terminal state.
terminal_edge : {s t : SessionState} → s ⟶ t → is_terminal s ≡ true → ⊥
unfolding is_terminal
terminal_edge reconcile_started h = cc
terminal_edge reconcile_completed h = cc
terminal_edge lease_expired h = cc
terminal_edge (stop_requested live) h = cc

pub terminal_path :
    {a b : Option SessionState} (s : SessionState)
    → a ⟶* b
    → a ≡ some s
    → is_terminal s ≡ true
    → b ≡ some s
terminal_path s here e h = e
terminal_path s (then {s = r} edge p) e h =
    let same : r ≡ s = cc in absurd (terminal_edge edge (rw same h))

pub record Evolves (h h' : SessionHandle) : Type 0 where
  pub same_id : h'.id ≡ h.id
  pub same_client : h'.client ≡ h.client
  pub lifecycle : current_state h ⟶* current_state h'
  pub published : List StrategyEvent
  pub appended : h'.sent ≡ h.sent ++ published
  pub stamp_kept : (at : ℕ) → h.terminal_at ≡ some at → h'.terminal_at ≡ some at
  pub watermark : h.snapshot_seq ≤ h'.snapshot_seq

pub Evolves-refl : (h : SessionHandle) → Evolves h h
Evolves-refl h = record {
  same_id = refl;
  same_client = refl;
  lifecycle = here;
  published = [];
  appended = sym (append-nil h.sent);
  stamp_kept = λ at e. e;
  watermark = omega arith;
}

pub Evolves-trans : {h i j : SessionHandle} → Evolves h i → Evolves i j → Evolves h j
Evolves-trans {h} {i} {j} v w = record {
  same_id = w.same_id ∙ v.same_id;
  same_client = w.same_client ∙ v.same_client;
  lifecycle = ⟶*-trans v.lifecycle w.lifecycle;
  published = v.published ++ w.published;
  appended =
      w.appended
      ∙ (ap (λ l. l ++ w.published) v.appended ∙ append_assoc h.sent v.published w.published);
  stamp_kept = λ at e. w.stamp_kept at (v.stamp_kept at e);
  watermark = omega (arith, v.watermark, w.watermark);
}

-- An action that leaves alone all that `Evolves` speaks of.
pub Evolves-quiet :
    (h h' : SessionHandle)
    → h'.id ≡ h.id
    → h'.client ≡ h.client
    → h'.state ≡ h.state
    → h'.sent ≡ h.sent
    → h'.terminal_at ≡ h.terminal_at
    → h.snapshot_seq ≤ h'.snapshot_seq
    → Evolves h h'
unfolding current_state
Evolves-quiet h h' i c s l t w = record {
  same_id = i;
  same_client = c;
  lifecycle = rw s here;
  published = [];
  appended = l ∙ sym (append-nil h.sent);
  stamp_kept = λ at e. t ∙ e;
  watermark = w;
}

pub publish-Evolves : (body : EventBody) (h : SessionHandle) → Evolves h (publish body h)
unfolding publish current_state
publish-Evolves body h = record {
  same_id = refl;
  same_client = refl;
  lifecycle = here;
  published = _;
  appended = refl;
  stamp_kept = λ at e. e;
  watermark = omega arith;
}

pub mark_terminal_fields :
    (now : ℕ) (h : SessionHandle)
    → ((mark_terminal now h).id ≡ h.id)
      × ((mark_terminal now h).client ≡ h.client)
      × ((mark_terminal now h).state ≡ h.state)
      × ((mark_terminal now h).sent ≡ h.sent)
      × ((mark_terminal now h).snapshot_seq ≡ h.snapshot_seq)
unfolding mark_terminal
mark_terminal_fields now h = (ground arith, ground arith, ground arith, ground arith, ground arith)

-- The first stamp stands.
mark_terminal_stamp :
    (now at : ℕ) (h : SessionHandle)
    → h.terminal_at ≡ some at
    → (mark_terminal now h).terminal_at ≡ some at
unfolding mark_terminal
mark_terminal_stamp now at h e = ground arith

pub mark_terminal-Evolves : (now : ℕ) (h : SessionHandle) → Evolves h (mark_terminal now h)
unfolding current_state
mark_terminal-Evolves now h =
    let (i, c, s, l, w) = mark_terminal_fields now h in
    record {
      same_id = i;
      same_client = c;
      lifecycle = rw s here;
      published = [];
      appended = l ∙ sym (append-nil h.sent);
      stamp_kept = λ at e. mark_terminal_stamp now at h e;
      watermark = omega (arith, w);
    }

-- A compare-and-exchange either finds the expected state and reports it, or changes nothing.
pub transition-cases :
    (h : SessionHandle) (s t : SessionState)
    → ((h.state ≡ to_u8 s) × (transition h s t ≡ (record h { state = to_u8 t }, some s)))
      ⊎ ((h.state ≢ to_u8 s) × (transition h s t ≡ (h, none)))
unfolding transition
transition-cases h s t = elim (Bool-cases (h.state == to_u8 s)) [
  | inl same ↦
      let e : h.state ≡ to_u8 s = ground arith in
      inl (e, ground (arith, from_u8-to_u8 s, ap from_u8 e))
  | inr other ↦ inr (ground arith, ground arith)
]

exchanged-Evolves :
    (h : SessionHandle) {s t : SessionState}
    → s ⟶ t
    → h.state ≡ to_u8 s
    → Evolves h (record h { state = to_u8 t })
unfolding current_state
exchanged-Evolves h {s} {t} edge e = record {
  same_id = refl;
  same_client = refl;
  lifecycle = rw (e, from_u8-to_u8 s, from_u8-to_u8 t) (then edge here);
  published = [];
  appended = sym (append-nil h.sent);
  stamp_kept = λ at k. k;
  watermark = omega arith;
}

-- A compare-and-exchange along an edge of the diagram.
pub transition-Evolves :
    (h : SessionHandle) {s t : SessionState} → s ⟶ t → Evolves h (transition h s t).0
transition-Evolves h {s} {t} edge = elim (transition-cases h s t) [
  | inl (e, moved) ↦ rw moved (exchanged-Evolves h edge e)
  | inr (_, kept) ↦ rw kept (Evolves-refl h)
]
