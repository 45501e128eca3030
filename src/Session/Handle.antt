-- ===== src/Session/Handle.antt =====
-- One live session (`SessionHandle` in bin/longtrader-worker/src/session/mod.rs, and the event
-- bus of session/events.rs). The atomics and the locked fields of the source are fields of one
-- record, and a method returns the new record. `sent` is the history of the events handed to the
-- broadcast channel, oldest first. Instants are nanoseconds on the monotonic clock.
pub mod History
pub mod Evolution
use longtrader.Prelude.{
  ℕ, suc, ◌+◌, ◌-◌, ◌/◌, ◌%◌, min, Bool, true, false, not, ◌&&◌, ◌||◌, Option, none, some, String,
  List, [], ◌∷◌, ◌++◌, Result, ok, err, ◌>>=◌, ◌>>◌, str_eq, length, ltb, leb, ◌==◌, if◌then◌else◌,
}
use longtrader.Prelude.Int.{ℤ}
use longtrader.Ports.{u64_mod}
use longtrader.Session.State.{SessionState, WireState, to_u8, from_u8, to_proto}
use longtrader.Session.Errors.{ManagerError, invalid_argument, attached_by_other}
use longtrader.Session.Policy.{SessionPolicy}

pub record ClientIdentity : Type 0 where
  pub name : String
  pub version : String

pub record StrategyInfo : Type 0 where
  pub id : String
  pub name : String
  pub started_at_ms : ℤ
  pub orders_submitted : ℕ
  pub log_events : ℕ

-- `worker.v1.LogLevel`
pub data LogLevel : Type 0 where
  level_unspecified debug info warn error : LogLevel

-- The two kinds of `worker.v1.StrategyEvent` that the session control plane publishes.
pub data EventBody : Type 0 where
  log : String → LogLevel → String → ℤ → List (String × String) → EventBody
  state_change : WireState → WireState → String → EventBody

-- `resume_token` is the number whose decimal text the source writes.
pub record StrategyEvent : Type 0 where
  pub sequence : ℕ
  pub resume_token : ℕ
  pub body : EventBody

pub record SessionHandle : Type 0 where
  pub id : String
  pub state : ℕ
  pub policy : SessionPolicy
  pub last_seen : ℕ
  pub heartbeat_interval_ms : ℕ
  pub client : ClientIdentity
  pub sent : List StrategyEvent
  pub ring : List StrategyEvent
  pub tracked_coids : List String
  pub strategy : Option StrategyInfo
  pub orders_submitted : ℕ
  pub log_events : ℕ
  pub seq : ℕ
  pub snapshot_seq : ℕ
  pub terminal_at : Option ℕ

abbrev pub event_ring_capacity : ℕ
event_ring_capacity = 1024

-- `SessionHandle::state`
unfoldable pub current_state : SessionHandle → Option SessionState
current_state h = from_u8 h.state

unfoldable pub transition :
    SessionHandle → SessionState → SessionState → SessionHandle × Option SessionState
transition h expected next =
    if h.state == to_u8 expected
    then (record h { state = to_u8 next }, from_u8 h.state)
    else (h, none)

unfoldable pub touch : ℕ → SessionHandle → SessionHandle
touch now h = record h { last_seen = now }

unfoldable pub last_seen_elapsed_ms : ℕ → SessionHandle → ℕ
last_seen_elapsed_ms now h = min ((now - h.last_seen) / 1000000) (u64_mod - 1)

-- The closure works on the locked policy itself, so what it wrote stays when it fails.
unfoldable pub update_policy :
    SessionHandle
    → (SessionPolicy → SessionPolicy × Result ManagerError (Unit {0}))
    → SessionHandle × Result ManagerError (Unit {0})
update_policy h f = let (policy', outcome) = f h.policy in (record h { policy = policy' }, outcome)

abbrev pub is_empty : String → Bool
is_empty s = str_eq s ""

-- One round of the loop over the two halves of the identity.
unfoldable pub assert_half : String → String → String → String → Result ManagerError (Unit {0})
assert_half id recorded offered field =
    if not (is_empty recorded) && not (is_empty offered) && not (str_eq recorded offered)
    then err (invalid_argument (attached_by_other id field recorded offered))
    else ok tt

unfoldable pub assert_reconnect_client :
    SessionHandle → ClientIdentity → Result ManagerError (Unit {0})
unfolding assert_half
assert_reconnect_client h client = do
  assert_half h.id h.client.name client.name "client_name"
  assert_half h.id h.client.version client.version "client_version"

unfoldable pub strategy_info : SessionHandle → Option StrategyInfo
strategy_info h = elim h.strategy [
  | none ↦ none
  | some registered ↦
      some (record registered { orders_submitted = h.orders_submitted; log_events = h.log_events })
]

unfoldable pub set_strategy : StrategyInfo → SessionHandle → SessionHandle
set_strategy registered h = record h { strategy = some registered }

abbrev pub drop_front {ℓ} : {A : Type ℓ} → List A → List A
drop_front [] = []
drop_front (x ∷ xs) = xs

-- `if ring.len() >= EVENT_RING_CAPACITY { ring.pop_front(); } ring.push_back(event)`
unfoldable pub push_ring {ℓ} : {A : Type ℓ} → ℕ → List A → A → List A
push_ring capacity ring event =
    (if leb capacity (length ring) then drop_front ring else ring) ++ (event ∷ [])

unfoldable pub publish : EventBody → SessionHandle → SessionHandle
publish body h =
    let seq : ℕ = (h.seq + 1) % u64_mod in
    let event : StrategyEvent = record { sequence = seq; resume_token = seq; body = body } in
    record h {
      seq = seq;
      ring = push_ring event_ring_capacity h.ring event;
      sent = h.sent ++ (event ∷ []);
    }

unfoldable pub events_after : ℕ → List StrategyEvent → List StrategyEvent
events_after after_seq [] = []
events_after after_seq (e ∷ es) =
    let rest = events_after after_seq es in if ltb after_seq e.sequence then e ∷ rest else rest

unfoldable pub replay_after : SessionHandle → ℕ → List StrategyEvent
unfolding events_after
replay_after h after_seq = events_after after_seq h.ring

unfoldable pub current_seq : SessionHandle → ℕ
current_seq h = h.seq

unfoldable pub mark_terminal : ℕ → SessionHandle → SessionHandle
mark_terminal now h = elim h.terminal_at [
  | none ↦ record h { terminal_at = some now }
  | some at ↦ h
]

-- The age in nanoseconds; the lock is taken to be free.
unfoldable pub try_terminal_age : ℕ → SessionHandle → Option ℕ
try_terminal_age now h = elim h.terminal_at [ none ↦ none | some at ↦ some (now - at) ]

unfoldable pub publish_state_change :
    SessionState → SessionState → String → SessionHandle → SessionHandle
publish_state_change from to reason = publish (state_change (to_proto from) (to_proto to) reason)

-- `report_log` on the session's handle; `now_ms` is the wall clock.
unfoldable pub report_log :
    ℤ → LogLevel → String → List (String × String) → SessionHandle → SessionHandle
report_log now_ms level message fields h =
    publish (log h.id level message now_ms fields)
      (record h { log_events = (h.log_events + 1) % u64_mod })
