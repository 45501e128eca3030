-- ===== src/Session/Manager/Registry.antt =====
-- The registry as a whole: what a call on one session leaves alone, and what the sweep of terminal
-- sessions keeps (session/mod.rs).
use longtrader.Prelude.{
  ℕ, ◌-◌, ◌≤◌, ◌<◌, ◌≡◌, ◌≢◌, refl, Option, none, some, String, List, [], ◌∷◌, Result, err, arith,
  str_eq, eq_iff, if◌then◌else◌, inl, inr, Bool-cases, Option-cases,
}
use longtrader.Prelude.Dict.{find, put, find-put, Distinct}
use longtrader.Session.Errors.{ManagerError, not_found}
use longtrader.Session.Handle.{SessionHandle, try_terminal_age}
use longtrader.Session.Manager.{
  SessionManager, on_session, young, retain_young, retire_terminal_sessions,
}

find-put_ne :
    (id other : String) (h : SessionHandle) (sessions : List (String × SessionHandle))
    → other ≢ id
    → find other (put id h sessions) ≡ find other sessions
find-put_ne id other h sessions ne = ground (arith, find-put id other h sessions, eq_iff id other)

pub find-put_self :
    (id : String) (h : SessionHandle) (sessions : List (String × SessionHandle))
    → find id (put id h sessions) ≡ some h
find-put_self id h sessions = ground (arith, find-put id id h sessions, eq_iff id id)

module _ {A : Type 0} (m : SessionManager) (id : String)
    (work : SessionHandle → SessionHandle × Result ManagerError A) where
  pub on_session_missing :
      find id m.sessions ≡ none → on_session m id work ≡ (m, err (not_found id))
  unfolding on_session
  on_session_missing e = rw (e, on_session) refl

  pub on_session_found :
      (h : SessionHandle)
      → find id m.sessions ≡ some h
      → on_session m id work ≡ (record m { sessions = put id (work h).0 m.sessions }, (work h).1)
  unfolding on_session
  on_session_found h e = rw (e, on_session) refl

-- A call on a session changes that session alone; on an unknown id it changes nothing and says so.
pub on_session_frame :
    {A : Type 0} (m : SessionManager) (id other : String)
    (work : SessionHandle → SessionHandle × Result ManagerError A)
    → other ≢ id
    → (find other (on_session m id work).0.sessions ≡ find other m.sessions)
      × ((find id m.sessions ≡ none) → on_session m id work ≡ (m, err (not_found id)))
      × ((h : SessionHandle)
          → find id m.sessions ≡ some h
          → (find id (on_session m id work).0.sessions ≡ some (work h).0)
            × ((on_session m id work).1 ≡ (work h).1))
on_session_frame m id other work ne = elim (Option-cases (find id m.sessions)) [
  | inl missing ↦
      (rw (on_session_missing m id work missing) refl, on_session_missing m id work, λ h e. cc)
  | inr (h, found) ↦ (
    rw (on_session_found m id work h found) (find-put_ne id other (work h).0 m.sessions ne),
    λ e. cc,
    λ k e. (
      rw (on_session_found m id work k e) (find-put_self id (work k).0 m.sessions),
      rw (on_session_found m id work k e) refl,
    ),
  )
]

-- The sweep, by the id of a session.
abbrev swept : ℕ → ℕ → Option SessionHandle → Option SessionHandle
swept retention now none = none
swept retention now (some h) = if young retention (try_terminal_age now h) then some h else none

find-retain_young :
    (retention now : ℕ) (id : String) (sessions : List (String × SessionHandle))
    → Distinct sessions
    → find id (retain_young retention now sessions) ≡ swept retention now (find id sessions)
unfolding find retain_young
find-retain_young retention now id [] d = refl
find-retain_young retention now id ((k, h) ∷ sessions) d = elim (Bool-cases (str_eq k id)) [
  | inl same ↦
      let e : k ≡ id = (eq_iff k id).0 same in
      let gone : find id sessions ≡ none = rw e at d.0 in
      let rest = find-retain_young retention now id sessions d.1 in ground (arith, rest, gone)
  | inr other ↦ let rest = find-retain_young retention now id sessions d.1 in ground (arith, rest)
]

-- The sweep drops exactly the sessions whose terminal stamp is at least the retention old; every live
-- session stays as it is.
pub retire_exact :
    (retention now : ℕ) (id : String) (m : SessionManager) (h : SessionHandle)
    → Distinct m.sessions
    → find id m.sessions ≡ some h
    → ((h.terminal_at ≡ none)
        → find id (retire_terminal_sessions retention now m).sessions ≡ some h)
      × ((at : ℕ)
          → h.terminal_at ≡ some at
          → now - at < retention
          → find id (retire_terminal_sessions retention now m).sessions ≡ some h)
      × ((at : ℕ)
          → h.terminal_at ≡ some at
          → retention ≤ now - at
          → find id (retire_terminal_sessions retention now m).sessions ≡ none)
unfolding retire_terminal_sessions try_terminal_age
retire_exact retention now id m h d e =
    let swept_e = find-retain_young retention now id m.sessions d in
    (λ t. ground arith, λ at t lt. ground arith, λ at t le. ground arith)
