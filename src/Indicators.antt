-- ===== src/Indicators.antt =====
-- The incremental indicators (bin/longtrader-worker/src/indicators/).
mod Checked
pub mod Adx
pub mod Atr
pub mod Bollinger
pub mod Donchian
pub mod Ema
pub mod Rsi
pub mod Sqrt
pub mod Supertrend
pub mod ZScore
