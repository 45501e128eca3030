-- ===== src/Session/Policy.antt =====
-- Kill-switch policies (`SessionPolicy` and `apply_policy` in
-- bin/longtrader-worker/src/session/mod.rs).
pub mod Applied
use longtrader.Prelude.{ℕ, Option, none, some, Result, ok, err}
use longtrader.Prelude.Int.{ℤ}
use longtrader.Session.Lease.{ProtoDuration, lease_timeout_from_proto, default_lease}
use longtrader.Session.Errors.{ManagerError, invalid_argument, bad_lease, unknown_scope}

-- `worker.v1.KillSwitchPolicy.Scope`
pub data Scope : Type 0 where
  unspecified session_orders all_orders scope_none : Scope

-- An open proto enum: a value that the build does not know arrives as its number.
pub data EnumValue (A : Type 0) : Type 0 where
  known : A → EnumValue A
  unknown : ℤ → EnumValue A

pub record SessionPolicy : Type 0 where
  pub lease_timeout : ℕ
  pub scope : Scope

-- `worker.v1.KillSwitchPolicy`
pub record KillSwitchPolicy : Type 0 where
  pub lease_timeout : Option ProtoDuration
  pub scope : EnumValue Scope

abbrev pub default_heartbeat_ms : ℕ
default_heartbeat_ms = 10000

unfoldable pub default_policy : SessionPolicy
default_policy = record {
  lease_timeout = default_lease default_heartbeat_ms;
  scope = session_orders;
}

-- The `match policy.scope` of `apply_policy`.
unfoldable pub apply_scope :
    SessionPolicy → EnumValue Scope → SessionPolicy × Result ManagerError (Unit {0})
apply_scope current (known unspecified) = (current, ok tt)
apply_scope current (known session_orders) = (record current { scope = session_orders }, ok tt)
apply_scope current (known all_orders) = (record current { scope = all_orders }, ok tt)
apply_scope current (known scope_none) = (record current { scope = scope_none }, ok tt)
apply_scope current (unknown v) = (current, err (invalid_argument (unknown_scope v)))

-- The source writes through `&mut SessionPolicy`, so the policy as it stands when the function
-- returns is a part of the result, on the error paths too.
unfoldable pub apply_policy :
    SessionPolicy → KillSwitchPolicy → SessionPolicy × Result ManagerError (Unit {0})
unfolding apply_scope
apply_policy current policy = elim policy.lease_timeout [
  | none ↦ apply_scope current policy.scope
  | some timeout ↦ elim (lease_timeout_from_proto timeout) [
    | ok lease ↦ apply_scope (record current { lease_timeout = lease }) policy.scope
    | err e ↦ (current, err (invalid_argument (bad_lease e)))
  ]
]
