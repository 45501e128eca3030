-- ===== src/Session/Policy/Applied.antt =====
-- What applying a policy does on each of its branches.
use longtrader.Prelude.{ℕ, inl, inr, Option-cases, Result-cases, ◌≡◌, none, some, ok, err, arith}
use longtrader.Session.Lease.{ProtoDuration, LeaseError, lease_timeout_from_proto}
use longtrader.Session.Lease.Bounds.{InBounds, lease_accepted}
use longtrader.Session.Errors.{invalid_argument, bad_lease}
use longtrader.Session.Policy.{
  SessionPolicy, KillSwitchPolicy, Scope, unknown, known, unspecified, apply_policy,
}

-- The lease that a request asks for, where it names a valid one, and otherwise the current one.
abbrev pub requested_lease : SessionPolicy → KillSwitchPolicy → ℕ
requested_lease current policy = elim policy.lease_timeout [
  | none ↦ current.lease_timeout
  | some t ↦ elim (lease_timeout_from_proto t) [ ok d ↦ d | err e ↦ current.lease_timeout ]
]

abbrev pub requested_scope : SessionPolicy → KillSwitchPolicy → Scope
requested_scope current policy = elim policy.scope [
  | known s ↦ elim s [ unspecified ↦ current.scope | other ↦ other ]
  | unknown v ↦ current.scope
]

-- Whatever the request and the outcome, a lease in bounds stays in bounds.
pub apply_policy-InBounds :
    (current : SessionPolicy) (policy : KillSwitchPolicy)
    → InBounds current.lease_timeout
    → InBounds (apply_policy current policy).0.lease_timeout
unfolding apply_policy
apply_policy-InBounds current policy h = elim (Option-cases policy.lease_timeout) [
  | inl none_given ↦ ground arith
  | inr (t, given) ↦ elim (Result-cases (lease_timeout_from_proto t)) [
    | inl (d, e) ↦ let bounds = (lease_accepted t d e).1 in ground arith
    | inr (x, e) ↦ ground arith
  ]
]

-- An accepted request is applied whole: the lease and the scope are the requested ones, and the
-- session keeps what the request leaves out.
pub apply_policy_accepted :
    (current : SessionPolicy) (policy : KillSwitchPolicy)
    → (apply_policy current policy).1 ≡ ok tt
    → ((apply_policy current policy).0.lease_timeout ≡ requested_lease current policy)
      × ((apply_policy current policy).0.scope ≡ requested_scope current policy)
unfolding apply_policy
apply_policy_accepted current policy h = (ground arith, ground arith)

-- A request with an unacceptable lease changes nothing.
pub apply_policy_bad_lease :
    (current : SessionPolicy) (policy : KillSwitchPolicy) (t : ProtoDuration) (e : LeaseError)
    → policy.lease_timeout ≡ some t
    → lease_timeout_from_proto t ≡ err e
    → apply_policy current policy ≡ (current, err (invalid_argument (bad_lease e)))
unfolding apply_policy
apply_policy_bad_lease current policy t e h r = ground arith
