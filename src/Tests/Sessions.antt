-- ===== src/Tests/Sessions.antt =====
-- Examples of the theorems about handles, policies, leases and streams.
use longtrader.Prelude.{ℕ, ◌≡◌, refl, some, [], ◌∷◌, ◌++◌, drop, err, arith}
use longtrader.Prelude.Int.{pos, negsuc, ◌*ℤ◌, ◌+ℤ◌}
use longtrader.Session.Lease.{ProtoDuration, negative, lease_timeout_from_proto}
use longtrader.Session.Lease.Bounds.{InBounds}
use longtrader.Session.Errors.{invalid_argument, bad_lease}
use longtrader.Session.Policy.{KillSwitchPolicy, known, all_orders, apply_policy}
use longtrader.Session.Policy.Applied.{apply_policy-InBounds, apply_policy_bad_lease}
use longtrader.Session.Handle.{
  SessionHandle, EventBody, log, info, publish, push_ring, replay_after,
}
use longtrader.Session.Handle.History.{
  IsLogged, newest, push_ring-newest, publish-IsLogged, replay_complete,
}
use longtrader.Tests.{active_session, short_lease}

note : EventBody
note = log "st" info "hello" (pos 0) []

abbrev noted : SessionHandle
noted = publish note active_session

active-IsLogged : IsLogged active_session
active-IsLogged = record { counted = refl; numbered = tt; retained = refl }

noted-IsLogged : IsLogged noted
unfolding publish
noted-IsLogged = publish-IsLogged note active_session (omega arith) active-IsLogged

publish-IsLogged_example : IsLogged (publish note active_session)
publish-IsLogged_example = publish-IsLogged note active_session (omega arith) active-IsLogged

push_ring-newest_example :
    push_ring {A = ℕ} 2 (newest 2 (1 ∷ 2 ∷ 3 ∷ [])) 4 ≡ newest 2 ((1 ∷ 2 ∷ 3 ∷ []) ++ (4 ∷ []))
push_ring-newest_example = push_ring-newest 2 (1 ∷ 2 ∷ 3 ∷ []) 4 (omega arith)

replay_complete_example : replay_after noted 0 ≡ drop 0 noted.sent
unfolding publish
replay_complete_example = replay_complete noted 0 noted-IsLogged (omega arith) (omega arith)

abbrev two_seconds : ProtoDuration
two_seconds = record { seconds = pos 2; nanos = pos 0 }

abbrev backwards : ProtoDuration
backwards = record { seconds = negsuc 0; nanos = pos 0 }

abbrev wider : KillSwitchPolicy
wider = record { lease_timeout = some two_seconds; scope = known all_orders }

apply_policy-InBounds_example : InBounds (apply_policy short_lease wider).0.lease_timeout
apply_policy-InBounds_example = apply_policy-InBounds short_lease wider (omega arith, omega arith)

apply_policy_bad_lease_example :
    apply_policy short_lease (record wider { lease_timeout = some backwards })
    ≡ (short_lease, err (invalid_argument (bad_lease (negative (negsuc 999)))))
unfolding lease_timeout_from_proto ◌*ℤ◌ ◌+ℤ◌
apply_policy_bad_lease_example =
    apply_policy_bad_lease short_lease (record wider { lease_timeout = some backwards }) backwards
      (negative (negsuc 999)) refl refl
