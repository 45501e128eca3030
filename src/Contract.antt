-- ===== src/Contract.antt =====
-- The contract crate (crates/longtrader-contract/src/).
pub mod Decimal
pub mod Envelope
