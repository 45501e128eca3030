-- ===== src/Risk/Bucket.antt =====
-- The token bucket of the risk gate (bin/longtrader-worker/src/risk.rs, `Bucket`, `RiskGate::new` and
-- `RiskGate::consume`). Instants are nanoseconds of the monotonic clock.
pub mod Rate
use longtrader.Prelude.{
  ℕ, ◌+◌, ◌-◌, ◌*◌, ◌/◌, ◌%◌, min, ltb, leb, Option, none, some, Result, ok, err, if◌then◌else◌,
}
use longtrader.Risk.Limits.{RiskViolation, rate}

abbrev pub tokens_per_order : ℕ
tokens_per_order = 60000

abbrev pub u128_max : ℕ
u128_max = 340282366920938463463374607431768211455

pub record Bucket : Type 0 where
  pub tokens : ℕ
  pub last : ℕ

-- `unwrap_or(0) * TOKENS_PER_ORDER`; a limit is below 2^32, so nothing overflows.
abbrev pub capacity : Option ℕ → ℕ
capacity none = 0
capacity (some limit) = limit * tokens_per_order

unfoldable pub new_bucket : Option ℕ → ℕ → Bucket
new_bucket limit now = record { tokens = capacity limit; last = now }

-- The refill, taken only if the clock did not go back (`checked_duration_since`): whole elapsed
-- milliseconds times the limit, added with saturation and capped.
unfoldable pub refill : ℕ → ℕ → Bucket → Bucket
refill limit now bucket =
    if leb bucket.last now
    then record {
      tokens =
          min
            (min (bucket.tokens + ((now - bucket.last) / 1000000) * limit % (u128_max + 1))
              u128_max)
            (limit * tokens_per_order);
      last = now;
    }
    else bucket

-- `saturating_mul`
abbrev pub cost_of : ℕ → ℕ
cost_of orders = min (orders * tokens_per_order) u128_max

unfoldable pub spend : {A : Type 0} → ℕ → ℕ → Bucket → Bucket × Result (RiskViolation A) (Unit {0})
spend limit orders bucket =
    if ltb bucket.tokens (cost_of orders)
    then (bucket, err (rate limit))
    else (record bucket { tokens = bucket.tokens - cost_of orders }, ok tt)

unfoldable pub consume :
    {A : Type 0} → Option ℕ → ℕ → ℕ → Bucket → Bucket × Result (RiskViolation A) (Unit {0})
unfolding refill spend
consume none orders now bucket = (bucket, ok tt)
consume (some limit) orders now bucket = spend limit orders (refill limit now bucket)
