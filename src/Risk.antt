-- ===== src/Risk.antt =====
-- The pre-trade risk gate (bin/longtrader-worker/src/risk.rs).
pub mod Limits
pub mod Bucket
pub mod Gate
pub mod Gateway
