-- ===== src/Session/Lease/Bounds.antt =====
-- What the lease parser and the default lease promise
-- (bin/longtrader-worker/src/session/lease.rs).
use longtrader.Prelude.{ℕ, ◌≤◌, ◌<◌, ◌≡◌, arith, ok}
use longtrader.Prelude.Int.{ℤ, pos, pos_part, neg_part, ◌+ℤ◌, ◌*ℤ◌}
use longtrader.Session.Lease.{
  ProtoDuration, min_lease, max_lease, div_trunc, lease_timeout_from_proto, default_lease,
}

-- The duration in whole milliseconds, over all integers.
abbrev pub exact_millis : ProtoDuration → ℤ
exact_millis t = t.seconds *ℤ pos 1000 +ℤ div_trunc t.nanos 1000000

abbrev pub IsI32 : ℤ → Type 0
IsI32 n = (pos_part n < 2147483648) × (neg_part n ≤ 2147483648)

abbrev pub InBounds : ℕ → Type 0
InBounds d = (min_lease ≤ d) × (d ≤ max_lease)

-- A lease that is accepted is the exact length of the duration in milliseconds, and is in bounds.
pub lease_accepted :
    (t : ProtoDuration) (d : ℕ)
    → lease_timeout_from_proto t ≡ ok d
    → (exact_millis t ≡ pos d) × InBounds d
unfolding lease_timeout_from_proto ◌*ℤ◌ ◌+ℤ◌
lease_accepted t d h = ground arith

-- Every duration whose nanoseconds fit an i32 and whose exact length is in bounds is accepted.
pub lease_complete :
    (t : ProtoDuration) (d : ℕ)
    → IsI32 t.nanos
    → exact_millis t ≡ pos d
    → InBounds d
    → lease_timeout_from_proto t ≡ ok d
unfolding lease_timeout_from_proto ◌*ℤ◌ ◌+ℤ◌
lease_complete t d i e b = ground arith

pub default_lease_bounds :
    (a b : ℕ) → a ≤ b → InBounds (default_lease a) × (default_lease a ≤ default_lease b)
unfolding default_lease
default_lease_bounds a b h = omega arith
