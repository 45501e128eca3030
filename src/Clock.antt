-- ===== src/Clock.antt =====
-- The wall clock of the control plane (bin/longtrader-worker/src/session/time.rs). What the system clock
-- reads is an input: nothing if it stands before the epoch.
pub mod Exact
use longtrader.Prelude.{ℕ, ◌-◌, ◌*◌, ◌/◌, ◌%◌, min, Option, none, some, ltb, if◌then◌else◌}
use longtrader.Prelude.Int.{ℤ, pos, negsuc}

abbrev pub i64_max : ℕ
i64_max = 9223372036854775807

abbrev pub i32_mod_half : ℕ
i32_mod_half = 2147483648

-- `google.protobuf.Timestamp`
pub record Timestamp : Type 0 where
  pub seconds : ℤ
  pub nanos : ℕ

-- Milliseconds since the epoch.
unfoldable pub now_ms : Option ℕ → ℤ
now_ms none = pos 0
now_ms (some elapsed) = pos (min elapsed i64_max)

-- Nanoseconds since the epoch.
unfoldable pub now_ns : Option ℕ → ℤ
now_ns none = pos 0
now_ns (some elapsed) = pos (min elapsed i64_max)

-- `ms.div_euclid(1000)`, rounding down: -(n + 1) becomes -(n / 1000 + 1).
unfoldable pub div_euclid : ℤ → ℤ
div_euclid (pos n) = pos (n / 1000)
div_euclid (negsuc n) = negsuc (n / 1000)

-- `ms.rem_euclid(1000)`
unfoldable pub rem_euclid : ℤ → ℕ
rem_euclid (pos n) = n % 1000
rem_euclid (negsuc n) = 999 - n % 1000

unfoldable pub timestamp_from_ms : ℤ → Timestamp
unfolding div_euclid rem_euclid
timestamp_from_ms ms =
    let nanos = rem_euclid ms * 1000000 in
    record { seconds = div_euclid ms; nanos = if ltb nanos i32_mod_half then nanos else 0 }

unfoldable pub now_ts : Option ℕ → Timestamp
unfolding now_ms timestamp_from_ms
now_ts elapsed = timestamp_from_ms (now_ms elapsed)
