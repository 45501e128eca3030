-- ===== src/Clock/Exact.antt =====
-- A timestamp describes the instant it was built from (bin/longtrader-worker/src/session/time.rs).
use longtrader.Prelude.{◌≡◌, ◌*◌, ◌/◌, ◌%◌, ◌<◌, ltb, lt→ltb, true, arith}
use longtrader.Prelude.Int.{ℤ, pos, negsuc, ◌+ℤ◌, ◌*ℤ◌}
use longtrader.Clock.{Timestamp, timestamp_from_ms, div_euclid, rem_euclid, i32_mod_half}

rem_euclid_small : (ms : ℤ) → rem_euclid ms < 1000
unfolding rem_euclid
rem_euclid_small (pos n) = omega arith
rem_euclid_small (negsuc n) = omega arith

-- The milliseconds that a timestamp stands for.
abbrev pub millis : Timestamp → ℤ
millis t = t.seconds *ℤ pos 1000 +ℤ pos (t.nanos / 1000000)

split_exact : (ms : ℤ) → div_euclid ms *ℤ pos 1000 +ℤ pos (rem_euclid ms) ≡ ms
unfolding div_euclid rem_euclid ◌+ℤ◌ ◌*ℤ◌
split_exact (pos n) = ground arith
split_exact (negsuc n) = ground arith

-- For every count of milliseconds, also before the epoch, the timestamp's seconds and nanoseconds add up
-- to it, and its nanoseconds are whole milliseconds below one second.
pub timestamp_exact :
    (ms : ℤ)
    → (millis (timestamp_from_ms ms) ≡ ms)
      × ((timestamp_from_ms ms).nanos < 1000000000)
      × ((timestamp_from_ms ms).nanos % 1000000 ≡ 0)
unfolding timestamp_from_ms
timestamp_exact ms =
    let small = rem_euclid_small ms in
    let fits : ltb (rem_euclid ms * 1000000) i32_mod_half ≡ true = lt→ltb _ _ (omega arith) in
    let back : rem_euclid ms * 1000000 / 1000000 ≡ rem_euclid ms = omega arith in
    (rw (fits, back) (split_exact ms), rw fits (omega arith), rw fits (omega arith))
