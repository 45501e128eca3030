-- ===== src/Tests/Registry.antt =====
-- Examples of the theorems about the registry, the watchdog and the handlers.
use longtrader.Prelude.{ℕ, ◌-◌, ◌<◌, ◌≤◌, max, ◌≡◌, refl, true, false, none, some, [], ◌∷◌, ok}
use longtrader.Prelude.Int.{pos, negsuc}
use longtrader.Prelude.Dict.{find}
use longtrader.Session.State.{attached, active, is_terminal, from_u8}
use longtrader.Session.Policy.{KillSwitchPolicy, known, all_orders}
use longtrader.Session.Handle.{SessionHandle, current_state}
use longtrader.Session.Venue.{sync_state}
use longtrader.Session.Watchdog.{Gaps}
use longtrader.Session.Manager.{retire_terminal_sessions, authorize_order_submission}
use longtrader.Session.Manager.Registry.{retire_exact}
use longtrader.Session.Service.{reconcile_state}
use longtrader.Session.Service.Reconcile.{reconcile_activates}
use longtrader.Tests.{venue, attached_session, stopped_session, registry_of}

-- No other task does anything at the awaits of a pass.
abbrev calm : Gaps
calm = record {
  started = λ k. k;
  renewed = λ k. k;
  checked = λ k. k;
  checked_after = λ k. k;
  probed = λ sessions. sessions;
  listed = λ k. k;
  tripped = λ k. k;
  tripped_after = λ k. k;
}

never : false ≡ true → ⊥
never e = absurd cc

retire_exact_example :
    ((stopped_session.terminal_at ≡ none)
      → find "s1" (retire_terminal_sessions 10 20 (registry_of stopped_session)).sessions
        ≡ some stopped_session)
    × ((at : ℕ)
        → stopped_session.terminal_at ≡ some at
        → 20 - at < 10
        → find "s1" (retire_terminal_sessions 10 20 (registry_of stopped_session)).sessions
          ≡ some stopped_session)
    × ((at : ℕ)
        → stopped_session.terminal_at ≡ some at
        → 10 ≤ 20 - at
        → find "s1" (retire_terminal_sessions 10 20 (registry_of stopped_session)).sessions ≡ none)
unfolding find
retire_exact_example =
    retire_exact 10 20 "s1" (registry_of stopped_session) stopped_session (refl, tt) refl

abbrev refused_policy : KillSwitchPolicy
refused_policy = record {
  lease_timeout = some (record { seconds = negsuc 0; nanos = pos 0 });
  scope = known all_orders;
}

reconcile_activates_example :
    let out = reconcile_state (λ k. k) (registry_of attached_session) (ok 9) "s1" in
    (out.0.1 ≡ ok 9)
    × (out.1 ≡ sync_state venue ∷ [])
    × ((h' : SessionHandle) × (find "s1" out.0.0.sessions ≡ some h')
        × (current_state h' ≡ some active)
        × (h'.snapshot_seq ≡ max 7 9)
        × (authorize_order_submission out.0.0 "s1" ≡ ok (some h')))
unfolding find current_state from_u8 is_terminal
reconcile_activates_example =
    reconcile_activates (registry_of attached_session) 9 "s1" attached_session attached refl refl
      refl refl
