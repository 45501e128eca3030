-- ===== src/Session/Lease.antt =====
-- Lease durations (bin/longtrader-worker/src/session/lease.rs). A lease is a number of milliseconds.
-- `i64` values are integers; the checked operations of the source answer `none` outside the range.
pub mod Bounds
use longtrader.Prelude.{
  ℕ, suc, ◌+◌, ◌-◌, ◌*◌, ◌/◌, ◌^◌, ◌≤◌, ◌<◌, min, max, ◌≡◌, refl, Bool, true, false, Option, none,
  some, arith, ltb, leb, if◌then◌else◌, Result, ok, err, ◌||◌,
}
use longtrader.Prelude.Int.{ℤ, pos, negsuc, sub_ℕ, ◌+ℤ◌, ◌*ℤ◌}

-- `google.protobuf.Duration`: `seconds` is an i64, `nanos` an i32.
pub record ProtoDuration : Type 0 where
  pub seconds : ℤ
  pub nanos : ℤ

pub data LeaseError : Type 0 where
  overflow : ProtoDuration → LeaseError
  negative : ℤ → LeaseError
  out_of_bounds : ℕ → LeaseError

abbrev pub min_lease : ℕ
min_lease = 500

abbrev pub max_lease : ℕ
max_lease = 3600000

abbrev pub i64_limit : ℕ
i64_limit = 9223372036854775808

-- The result of a checked `i64` operation.
abbrev pub checked_i64 : ℤ → Option ℤ
checked_i64 (pos n) = if ltb n i64_limit then some (pos n) else none
checked_i64 (negsuc n) = if ltb n i64_limit then some (negsuc n) else none

-- `/` of i64 by a positive number: it truncates toward zero.
abbrev pub div_trunc : ℤ → ℕ → ℤ
div_trunc (pos n) d = pos (n / d)
div_trunc (negsuc n) d = sub_ℕ 0 (suc n / d)

-- `seconds.checked_mul(1000).and_then(|s| s.checked_add(nanos / 1_000_000))`
unfoldable pub lease_millis : ProtoDuration → Option ℤ
lease_millis t = elim (checked_i64 (t.seconds *ℤ pos 1000)) [
  | none ↦ none
  | some s ↦ checked_i64 (s +ℤ div_trunc t.nanos 1000000)
]

unfoldable pub bounded_lease : ℕ → Result LeaseError ℕ
bounded_lease dur =
    if ltb dur min_lease || ltb max_lease dur then err (out_of_bounds dur) else ok dur

unfoldable pub non_negative : ℤ → Result LeaseError ℕ
unfolding bounded_lease
non_negative (pos n) = bounded_lease n
non_negative (negsuc n) = err (negative (negsuc n))

unfoldable pub lease_timeout_from_proto : ProtoDuration → Result LeaseError ℕ
unfolding lease_millis non_negative
lease_timeout_from_proto t = elim (lease_millis t) [
  | none ↦ err (overflow t)
  | some millis ↦ non_negative millis
]

abbrev pub u64_max : ℕ
u64_max = 18446744073709551615

-- `Duration::from_millis(heartbeat_ms.saturating_mul(3)).clamp(MIN_LEASE, MAX_LEASE)`
unfoldable pub default_lease : ℕ → ℕ
default_lease heartbeat_ms = min max_lease (max min_lease (min u64_max (heartbeat_ms * 3)))
