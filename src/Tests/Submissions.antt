-- ===== src/Tests/Submissions.antt =====
-- An example of the theorem about batches.
use longtrader.Prelude.{true, none, some, [], ◌∷◌, ok, err, ◌≡◌, refl}
use longtrader.Prelude.Dict.{find, contains}
use longtrader.Ports.{PortError, transport}
use longtrader.Session.State.{from_u8}
use longtrader.Session.Errors.{port}
use longtrader.Session.Handle.{current_state}
use longtrader.Session.Gate.{Order, authorize}
use longtrader.Session.Manager.{get, authorize_order_submission}
use longtrader.Session.Proxy.{BatchRequest, Meanwhile, gate_submission, create_orders}
use longtrader.Session.Proxy.Attributed.{tracks, create_orders-tracks}
use longtrader.Tests.{willing, active_session, registry_of}

abbrev leg : Order
leg = record { id = "c"; client_order_id = "x" }

abbrev no_answer : PortError
no_answer = transport "no answer"

abbrev asked : BatchRequest
asked = record { session_id = "s1"; exchange = none; client_order_ids = "x" ∷ "y" ∷ [] }

abbrev quiet : Meanwhile
quiet m h = (m, h)

create_orders-tracks_example :
    let taken =
      create_orders willing quiet (ok (leg ∷ [])) (ok []) asked (registry_of active_session) in
    let failed =
      create_orders willing quiet
        (err no_answer)
        (ok (leg ∷ []))
        asked
        (registry_of active_session) in
    (tracks "c" (find "s1" taken.manager.sessions) ≡ true)
    × (taken.reply ≡ ok (leg ∷ []))
    × (tracks "c" (find "s1" failed.manager.sessions) ≡ true)
    × (failed.reply ≡ err (port no_answer))
unfolding gate_submission authorize_order_submission authorize get find current_state from_u8
    contains
create_orders-tracks_example =
    create_orders-tracks willing quiet (ok []) no_answer asked (registry_of active_session)
      (registry_of active_session) (some active_session) active_session active_session [] [] leg []
      [] leg refl refl refl refl refl refl refl
