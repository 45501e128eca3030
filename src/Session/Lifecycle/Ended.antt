-- ===== src/Session/Lifecycle/Ended.antt =====
-- What a lifecycle operation does to a session that another task ends under its feet
-- (session/lifecycle.rs, session/health.rs).
use longtrader.Prelude.{◌≡◌, some, ◌⊎◌}
use longtrader.Session.State.{SessionState}
use longtrader.Session.Handle.{SessionHandle, current_state}

-- A session in state `s` at the end, or one whose state the operation has left as it found it.
abbrev pub LeftEnded : SessionState → SessionHandle → SessionHandle → Type 0
LeftEnded s h k = (current_state k ≡ current_state h) ⊎ (current_state k ≡ some s)
