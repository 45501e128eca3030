-- ===== src/Adapters.antt =====
-- The venue side of the ports (bin/longtrader-worker/src/adapters/): what crosses them, and the mock
-- venue.
pub mod Orders
pub mod Mock
pub mod Wallet
pub mod Triggers
