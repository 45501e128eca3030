-- ===== src/Session/Manager/Attach.antt =====
-- Who may attach, and what a reconnect keeps (session/lifecycle.rs).
use longtrader.Prelude.{ℕ, ◌≡◌, refl, true, false, Option, none, some, String, err, ◌⊎◌}
use longtrader.Session.Errors.{unauthenticated}
use longtrader.Session.Policy.{KillSwitchPolicy}
use longtrader.Session.Handle.{SessionHandle, ClientIdentity, is_empty}
use longtrader.Session.Manager.{SessionManager, token_ok, attach_with_reconnect}

-- The token that is expected, if any is: it is not empty, and it is the one presented.
abbrev pub Presents : Option String → String → Type 0
Presents none token = Unit
Presents (some expected) token = (is_empty expected ≡ false) × (expected ≡ token)

-- Two halves of an identity agree unless both are given and differ.
abbrev pub Agree : String → String → Type 0
Agree recorded offered =
    (is_empty recorded ≡ true) ⊎ ((is_empty offered ≡ true) ⊎ (recorded ≡ offered))

-- The session after a reconnect that passed the identity check, whatever became of the policy.
abbrev SameSession : ℕ → SessionHandle → SessionHandle → Type 0
SameSession now h h' =
    (h'.last_seen ≡ now)
    × (h'.state ≡ h.state)
    × (h'.tracked_coids ≡ h.tracked_coids)
    × (h'.sent ≡ h.sent)

-- A refused token changes nothing, whatever else the request holds.
pub attach_unauthenticated :
    (m : SessionManager) (fresh_id : String) (now : ℕ) (token : String)
    (policy : Option KillSwitchPolicy) (id : String) (client : ClientIdentity)
    → token_ok m.expected_token token ≡ false
    → attach_with_reconnect m fresh_id now token policy id client ≡ (m, err unauthenticated)
unfolding attach_with_reconnect
attach_unauthenticated m fresh_id now token policy id client e = rw e refl
