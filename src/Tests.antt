-- ===== src/Tests.antt =====
-- Sample data for the examples, and their modules.
mod Lifecycle
mod Sessions
mod Registry
mod Gating
mod Pipes
mod Submissions
mod Decimals
mod Integers
mod Venues
mod Wallets
mod Strategies
mod Indicators
use longtrader.Prelude.{ℕ, Bool, true, false, Option, none, some, String, List, [], ◌∷◌}
use longtrader.Ports.{ExchangeId}
use longtrader.Session.Policy.{SessionPolicy, session_orders}
use longtrader.Session.Handle.{SessionHandle, ClientIdentity, StrategyEvent, log, info}
use longtrader.Session.Venue.{CancelAnswer, Cancels, acknowledged, timed_out}
use longtrader.Session.Manager.{SessionManager}
use longtrader.Session.Gate.{Order}

abbrev pub venue : ExchangeId
venue = record { id = "paper"; label = "main" }

-- Every cancel is acknowledged, or none is.
abbrev pub willing : Cancels
willing c = acknowledged

abbrev pub silent : Cancels
silent c = timed_out

abbrev pub bot : ClientIdentity
bot = record { name = "bot"; version = "1" }

abbrev pub short_lease : SessionPolicy
short_lease = record { lease_timeout = 5000; scope = session_orders }

-- A session at a state's byte, that tracks two orders and was heard of at the clock's start.
abbrev pub session_at : ℕ → SessionHandle
session_at state = record {
  id = "s1";
  state = state;
  policy = short_lease;
  last_seen = 0;
  heartbeat_interval_ms = 10000;
  client = bot;
  sent = [];
  ring = [];
  tracked_coids = "a" ∷ "b" ∷ [];
  strategy = none;
  orders_submitted = 2;
  log_events = 0;
  seq = 0;
  snapshot_seq = 7;
  terminal_at = none;
}

abbrev pub active_session : SessionHandle
active_session = session_at 3

abbrev pub attached_session : SessionHandle
attached_session = session_at 1

abbrev pub stopped_session : SessionHandle
stopped_session = record (session_at 5) { terminal_at = some 0 }

abbrev pub registry_of : SessionHandle → SessionManager
registry_of h = record {
  expected_token = some "secret";
  default_exchange = venue;
  sessions = ("s1", h) ∷ [];
  watchdog_started = false;
  health_failures = 1;
  self_installed = true;
  cod = none;
}

abbrev pub late_order : Order
late_order = record { id = "c"; client_order_id = "" }
