-- ===== src/Session/Gate/Tracking.antt =====
-- Which orders a session tracks after recording what the venue accepted (session/gate.rs).
use longtrader.Prelude.{
  ℕ, ◌+◌, ◌%◌, ◌≡◌, refl, ◌||◌, true, false, String, List, [], ◌∷◌, arith, Bool-cases, inl, inr,
}
use longtrader.Prelude.Dict.{contains, insert, contains-insert}
use longtrader.Ports.{u64_mod}
use longtrader.Session.Handle.{SessionHandle, is_empty}
use longtrader.Session.Gate.{Order, track_orders, record_submitted_orders, order_ids}

-- `order_ids` are the ids that a session can be credited with: `contains` over them.
track_orders-contains :
    (c : String) (orders : List Order) (tracked : List String) (n : ℕ)
    → contains c (track_orders orders (tracked, n)).0
      ≡ (contains c (order_ids orders) || contains c tracked)
unfolding track_orders order_ids contains
track_orders-contains c [] tracked n = refl
track_orders-contains c (o ∷ orders) tracked n = elim (Bool-cases (is_empty o.id)) [
  | inl blank ↦ rw (blank, track_orders) (track_orders-contains c orders tracked n)
  | inr named ↦
      rw (named, track_orders)
        (ground (
          arith,
          track_orders-contains c orders (insert o.id tracked) ((n + 1) % u64_mod),
          contains-insert o.id c tracked,
        ))
]

-- Recording adds exactly the non-empty ids of the accepted orders, and forgets none.
pub record-contains :
    (c : String) (orders : List Order) (h : SessionHandle)
    → contains c (record_submitted_orders orders h).tracked_coids
      ≡ (contains c (order_ids orders) || contains c h.tracked_coids)
unfolding record_submitted_orders
record-contains c orders h = track_orders-contains c orders h.tracked_coids 0

-- An empty id is never tracked.
no_empty_ids : (orders : List Order) → contains "" (order_ids orders) ≡ false
unfolding order_ids contains
no_empty_ids [] = refl
no_empty_ids (o ∷ orders) = ground (arith, no_empty_ids orders)

-- Recording never tracks an empty id, if none was tracked before.
pub record_no_empty :
    (orders : List Order) (h : SessionHandle)
    → contains "" h.tracked_coids ≡ false
    → contains "" (record_submitted_orders orders h).tracked_coids ≡ false
record_no_empty orders h e = rw (record-contains "" orders h, no_empty_ids orders, e)

insert_known : (c : String) (s : List String) → contains c s ≡ true → insert c s ≡ s
unfolding contains insert
insert_known c [] e = cc
insert_known c (k ∷ s) e = ground (arith, insert_known c s)

-- An order whose id is tracked already is counted again, although the session tracks no more than
-- before.
pub record_again :
    (o : Order) (h : SessionHandle)
    → is_empty o.id ≡ false
    → contains o.id h.tracked_coids ≡ true
    → ((record_submitted_orders (o ∷ []) h).tracked_coids ≡ h.tracked_coids)
      × ((record_submitted_orders (o ∷ []) h).orders_submitted ≡ (h.orders_submitted + 1) % u64_mod)
unfolding record_submitted_orders track_orders
record_again o h named known = (rw named (insert_known o.id h.tracked_coids known), rw named refl)
