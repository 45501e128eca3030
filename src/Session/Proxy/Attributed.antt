-- ===== src/Session/Proxy/Attributed.antt =====
-- What a batch leaves tracked (bin/longtrader-worker/src/session/proxy.rs).
use longtrader.Prelude.{
  Bool, true, false, not, ◌&&◌, ◌||◌, Option, none, some, String, List, [], ◌∷◌, ◌++◌, Result, ok,
  err, ◌≡◌, refl, ap, ◌∙◌, Bool-cases, inl, inr, arith, str_eq, eq_iff,
}
use longtrader.Prelude.Dict.{find, contains}
use longtrader.Ports.{PortError}
use longtrader.Session.Errors.{port}
use longtrader.Session.Handle.{SessionHandle, is_empty}
use longtrader.Session.Venue.{Cancels}
use longtrader.Session.Gate.{Order, record_submitted_orders, order_ids}
use longtrader.Session.Gate.Tracking.{record-contains}
use longtrader.Session.Manager.{SessionManager}
use longtrader.Session.Manager.Registry.{find-put_self}
use longtrader.Session.Proxy.{
  BatchRequest, gate_submission, resolved_exchange, attribute, put_back, wanted_orders,
  accepted_batch_orders, Meanwhile, settle_batch, create_orders,
}

-- Recording keeps the id, so the handle goes back to its own place.
record-id : (orders : List Order) (h : SessionHandle) → (record_submitted_orders orders h).id ≡ h.id
unfolding record_submitted_orders
record-id orders h = refl

-- What is tracked for a session.
abbrev pub tracks : String → Option SessionHandle → Bool
tracks c none = false
tracks c (some h) = contains c h.tracked_coids

attribute-tracks :
    (answers : Cancels) (m : SessionManager) (h old : SessionHandle) (orders : List Order)
    (c : String)
    → find h.id m.sessions ≡ some old
    → contains c (order_ids orders) ≡ true
    → tracks c (find h.id (attribute answers m (some h) orders).0.sessions) ≡ true
unfolding attribute
attribute-tracks answers m h old orders c there named =
    rw (there, put_back)
      (rw (find-put_self h.id (record_submitted_orders orders h) m.sessions)
        (rw (record-contains c orders h, named) refl))

passed_batch :
    (answers : Cancels) (meanwhile : Meanwhile) (created listed : Result PortError (List Order))
    (req : BatchRequest) (m m' : SessionManager) (session : Option SessionHandle)
    (h : SessionHandle)
    → gate_submission (some m) req.session_id ≡ ok session
    → meanwhile m session ≡ (m', some h)
    → create_orders answers meanwhile created listed req m
      ≡ settle_batch answers
          (resolved_exchange req.exchange m.default_exchange)
          req.client_order_ids
          created
          listed
          (m', some h)
unfolding create_orders
passed_batch answers meanwhile created listed req m m' session h passed left =
    let settle =
      settle_batch answers (resolved_exchange req.exchange m.default_exchange) req.client_order_ids
        created listed in
    rw (passed, create_orders) (ap settle left)

-- The id of an order of a list is among the ids of the list, unless it is empty.
order_ids-contains :
    (before after : List Order) (o : Order)
    → is_empty o.id ≡ false
    → contains o.id (order_ids (before ++ o ∷ after)) ≡ true
unfolding contains order_ids
order_ids-contains [] after o named = rw named (ground (arith, eq_iff o.id o.id))
order_ids-contains (b ∷ before) after o named = elim (Bool-cases (is_empty b.id)) [
  | inl bare ↦ rw bare (order_ids-contains before after o named)
  | inr full ↦ rw (full, order_ids-contains before after o named) (or_true (str_eq b.id o.id))
]
  where
    or_true : (x : Bool) → (x || true) ≡ true
    or_true true = refl
    or_true false = refl

-- An open order of the batch stays where it is among the wanted ones.
wanted_orders-split :
    (requested : List String) (before after : List Order) (o : Order)
    → is_empty o.client_order_id ≡ false
    → contains o.client_order_id requested ≡ true
    → wanted_orders requested (before ++ o ∷ after)
      ≡ wanted_orders requested before ++ o ∷ wanted_orders requested after
unfolding wanted_orders
wanted_orders-split requested [] after o named asked = rw (named, asked) refl
wanted_orders-split requested (b ∷ before) after o named asked =
    let rest = wanted_orders-split requested before after o named asked in
    elim (Bool-cases (not (is_empty b.client_order_id) && contains b.client_order_id requested)) [
      | inl hit ↦ rw (rest, hit) refl
      | inr miss ↦ rw (rest, miss) refl
    ]

wanted_orders-contains :
    (requested : List String) (before after : List Order) (o : Order)
    → is_empty o.id ≡ false
    → is_empty o.client_order_id ≡ false
    → contains o.client_order_id requested ≡ true
    → contains o.id (order_ids (wanted_orders requested (before ++ o ∷ after))) ≡ true
wanted_orders-contains requested before after o full named asked =
    ap (λ l. contains o.id (order_ids l)) (wanted_orders-split requested before after o named asked)
    ∙ order_ids-contains (wanted_orders requested before) (wanted_orders requested after) o full

-- Whatever happened until the venue answered, as long as the session is still registered then: each
-- order `o` with an id that the venue accepted is tracked afterwards, and the venue's answer is the
-- reply. If the venue failed the batch and its open orders could be read, each open order `p` with an
-- id that carries one of the batch's own client order ids, not empty, is tracked, and the failure is
-- the reply.
pub create_orders-tracks :
    (answers : Cancels) (meanwhile : Meanwhile) (listing : Result PortError (List Order))
    (e : PortError) (req : BatchRequest) (m m' : SessionManager) (session : Option SessionHandle)
    (h old : SessionHandle) (before after : List Order) (o : Order) (earlier later : List Order)
    (p : Order)
    → gate_submission (some m) req.session_id ≡ ok session
    → meanwhile m session ≡ (m', some h)
    → find h.id m'.sessions ≡ some old
    → is_empty o.id ≡ false
    → is_empty p.id ≡ false
    → is_empty p.client_order_id ≡ false
    → contains p.client_order_id req.client_order_ids ≡ true
    → let accepted = before ++ o ∷ after in
      let taken = create_orders answers meanwhile (ok accepted) listing req m in
      let failed = create_orders answers meanwhile (err e) (ok (earlier ++ p ∷ later)) req m in
      (tracks o.id (find h.id taken.manager.sessions) ≡ true)
      × (taken.reply ≡ ok accepted)
      × (tracks p.id (find h.id failed.manager.sessions) ≡ true)
      × (failed.reply ≡ err (port e))
unfolding settle_batch accepted_batch_orders
create_orders-tracks answers meanwhile listing e req m m' session h old before after o earlier later
      p passed left there o_full p_full named asked =
    let accepted = before ++ o ∷ after in
    let listed = earlier ++ p ∷ later in
    let taken =
      passed_batch answers meanwhile (ok accepted) listing req m m' session h passed left in
    let failed =
      passed_batch answers meanwhile (err e) (ok listed) req m m' session h passed left in
    (
      ap (λ b. tracks o.id (find h.id b.manager.sessions)) taken
          ∙ attribute-tracks answers m' h old accepted o.id there
              (order_ids-contains before after o o_full),
      ap (λ b. b.reply) taken,
      ap (λ b. tracks p.id (find h.id b.manager.sessions)) failed
          ∙ attribute-tracks answers m' h old (wanted_orders req.client_order_ids listed) p.id there
              (wanted_orders-contains req.client_order_ids earlier later p p_full named asked),
      ap (λ b. b.reply) failed,
    )
