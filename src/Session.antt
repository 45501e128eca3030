-- ===== src/Session.antt =====
-- The session control plane of the worker (bin/longtrader-worker/src/session/).
pub mod State
pub mod Lease
pub mod Errors
pub mod Policy
pub mod Handle
pub mod Venue
pub mod Gate
pub mod Lifecycle
pub mod Race
pub mod Manager
pub mod Stream
pub mod Watchdog
pub mod Service
pub mod Proxy
