-- ===== src/Session/State.antt =====
-- The lifecycle states of a session (bin/longtrader-worker/src/session/state.rs).
-- The `worker.v1.SessionState` enum of the contract is `WireState`, with its wire numbers.
use longtrader.Prelude.{
  ℕ, ◌≡◌, refl, Bool, true, false, Option, none, some, arith, ◌==◌, if◌then◌else◌,
}

pub data SessionState : Type 0 where
  attached syncing active kill_switch_tripped graceful_shutdown : SessionState

-- `self as u8`, by `#[repr(u8)]` and the discriminants.
unfoldable pub to_u8 : SessionState → ℕ
to_u8 attached = 1
to_u8 syncing = 2
to_u8 active = 3
to_u8 kill_switch_tripped = 4
to_u8 graceful_shutdown = 5

unfoldable pub from_u8 : ℕ → Option SessionState
from_u8 v =
    if v == 1
    then some attached
    else if v == 2
    then some syncing
    else if v == 3
    then some active
    else if v == 4
    then some kill_switch_tripped
    else if v == 5
    then some graceful_shutdown
    else none

pub data WireState : Type 0 where
  unspecified attached syncing active kill_switch_tripped graceful_shutdown : WireState

abbrev pub wire_number : WireState → ℕ
wire_number WireState.unspecified = 0
wire_number WireState.attached = 1
wire_number WireState.syncing = 2
wire_number WireState.active = 3
wire_number WireState.kill_switch_tripped = 4
wire_number WireState.graceful_shutdown = 5

unfoldable pub to_proto : SessionState → WireState
to_proto SessionState.attached = WireState.attached
to_proto SessionState.syncing = WireState.syncing
to_proto SessionState.active = WireState.active
to_proto SessionState.kill_switch_tripped = WireState.kill_switch_tripped
to_proto SessionState.graceful_shutdown = WireState.graceful_shutdown

unfoldable pub is_terminal : SessionState → Bool
is_terminal SessionState.kill_switch_tripped = true
is_terminal SessionState.graceful_shutdown = true
is_terminal SessionState.attached = false
is_terminal SessionState.syncing = false
is_terminal SessionState.active = false

pub from_u8-to_u8 : (s : SessionState) → from_u8 (to_u8 s) ≡ some s
unfolding from_u8 to_u8
from_u8-to_u8 SessionState.attached = refl
from_u8-to_u8 _ = refl

-- A byte decodes to a state exactly when it is the state's discriminant, and the discriminant is
-- also the number under which the state goes on the wire.
pub from_u8_iff :
    (v : ℕ) (s : SessionState)
    → ((from_u8 v ≡ some s) → (to_u8 s ≡ v))
      × ((to_u8 s ≡ v) → (from_u8 v ≡ some s))
      × (wire_number (to_proto s) ≡ to_u8 s)
unfolding from_u8 to_u8 to_proto
from_u8_iff v s = (ground arith, ground arith, ground arith)
