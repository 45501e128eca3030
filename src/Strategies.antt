-- ===== src/Strategies.antt =====
-- The trading strategies (bin/longtrader-worker/src/strategies/) that are modelled, each over the
-- answers of a venue.
pub mod Requests
pub mod Sentinel
pub mod SimpleGrid
pub mod Twap
