-- ===== src/Adapters/Mock/Refinement.antt =====
-- The mock venue does what the abstract one permits (bin/longtrader-worker/src/adapters/mock.rs).
use longtrader.Prelude.{
  ◌≡◌, ◌≢◌, refl, sym, ◌∙◌, ℕ, ◌+◌, ◌%◌, ◌<◌, ◌≤◌, Bool-cases, ℕ-cases, inl, inr, Option, none,
  some, String, List, [], ◌∷◌, ◌++◌, length, arith,
}
use longtrader.Ports.{u64_mod}
use longtrader.Adapters.Orders.{OrderTicket, PlacedOrder, is_open, CancelTicket, CancelAllTicket}
use longtrader.Adapters.Mock.{
  MockState, opened, accept, create_order, cancel_order, cancel_all_orders, fetch_open_orders,
  scripted,
}
use longtrader.Adapters.Mock.Book.{
  only-append, book, names, Absent, AllDifferent, names-cancel_in, names-cancel_matching,
  open_orders_lem, cancel_matching-book, cancel_in-book,
}
use longtrader.Adapters.Mock.Venue.{
  VenueCall, place_order, cancel, cancel_all, list_open, Answer, answer_one, Permits, fails, places,
  cancels, cancels_again, cancels_all, lists, Dialogue, over, next, serve, serve_all, Issued, Sound,
}

Absent-append :
    (id : String) (os : List PlacedOrder) (p : PlacedOrder)
    → Absent id (names os)
    → p.id ≢ id
    → Absent id (names (os ++ p ∷ []))
Absent-append id [] p h n = (n, tt)
Absent-append id (o ∷ os) p h n = (h.0, Absent-append id os p h.1 n)

different-append :
    (os : List PlacedOrder) (p : PlacedOrder)
    → AllDifferent (names os)
    → Absent p.id (names os)
    → AllDifferent (names (os ++ p ∷ []))
different-append [] p d h = (tt, tt)
different-append (o ∷ os) p d h =
    (Absent-append o.id os p d.0 (λ same. h.0 (sym same)), different-append os p d.1 h.1)

module _ (order_name : ℕ → String) where
  -- A step of the mock venue is one of the abstract venue, and leaves a sound state.
  abbrev pub Refines : MockState → VenueCall → MockState × Answer → Type 0
  Refines s c r = Permits (book s.orders) c r.1 (book r.0.orders) × Sound order_name r.0

  Issued-more :
      (n m : ℕ) (ids : List String) → n ≤ m → Issued order_name n ids → Issued order_name m ids
  Issued-more n m [] le h = tt
  Issued-more n m (id ∷ ids) le ((k, below, e), h) = ((k, omega arith, e), Issued-more n m ids le h)

  Issued-append :
      (n : ℕ) (os ps : List PlacedOrder)
      → Issued order_name n (names os)
      → Issued order_name n (names ps)
      → Issued order_name n (names (os ++ ps))
  Issued-append n [] ps h k = k
  Issued-append n (o ∷ os) ps h k = (h.0, Issued-append n os ps h.1 k)

  cancel_all-Refines :
      (s : MockState) (t : CancelAllTicket)
      → Sound order_name s
      → Refines s (cancel_all t) (serve order_name s (cancel_all t))
  unfolding serve cancel_all_orders
  cancel_all-Refines s t sound =
      let b = cancel_matching-book t.symbol s.orders in
      (
        rw (b.0, b.1) (cancels_all (book s.orders) t),
        rw (names-cancel_matching t.symbol s.orders) sound,
      )

  list-Refines :
      (s : MockState) (symbol : String)
      → Sound order_name s
      → Refines s (list_open symbol) (serve order_name s (list_open symbol))
  unfolding serve fetch_open_orders
  list-Refines s symbol sound =
      (rw (open_orders_lem symbol s.orders) (lists (book s.orders) symbol), sound)

  cancel-Refines :
      (s : MockState) (t : CancelTicket)
      → Sound order_name s
      → Refines s (cancel t) (serve order_name s (cancel t))
  unfolding serve cancel_order
  cancel-Refines s t sound = elim (ℕ-cases s.fail_next_cancels) [
    | inr (n, some_left) ↦ rw some_left (fails (book s.orders) (cancel t) _, sound)
    | inl no_left ↦
        let same = names-cancel_in t.order_id s.orders in
        elim (cancel_in-book t.order_id s.orders sound.0) [
          | inl missing ↦
              rw (no_left, cancel_order, missing.0, missing.1, same)
                (fails (book s.orders) (cancel t) _, sound)
          | inr (o, found, e, inl (live, gone)) ↦
              rw (no_left, cancel_order, found, gone, same)
                (cancels (book s.orders) t o live, sound)
          | inr (o, found, e, inr (closed, kept)) ↦
              rw (no_left, cancel_order, found, kept, same)
                (cancels_again (book s.orders) t o closed e, sound)
        ]
  ]

  module _ (injective : (i j : ℕ) → order_name i ≡ order_name j → i ≡ j) where
    Absent-fresh :
        (n : ℕ) (os : List PlacedOrder)
        → Issued order_name n (names os)
        → Absent (order_name n) (names os)
    Absent-fresh n [] h = tt
    Absent-fresh n (o ∷ os) ((k, below, e), h) = (
      λ same. absurd (let q : k ≡ n = injective k n (sym e ∙ same) in omega arith),
      Absent-fresh n os h,
    )

    Absent-book :
        (id : String) (os : List PlacedOrder) → Absent id (names os) → Absent id (names (book os))
    Absent-book id [] h = tt
    Absent-book id (o ∷ os) h = elim (Bool-cases (is_open o.status)) [
      | inl t ↦ rw t (h.0, Absent-book id os h.1)
      | inr f ↦ rw f (Absent-book id os h.1)
    ]

    accept-Refines :
        (s : MockState) (t : OrderTicket)
        → s.next_id + 1 < u64_mod
        → Sound order_name s
        → let r = accept order_name s t in Refines s (place_order (some t)) (r.0, answer_one r.1)
    unfolding accept
    accept-Refines s t small sound =
        let fresh = Absent-fresh s.next_id s.orders sound.1 in
        let order = opened (order_name s.next_id) t in
        let next : (s.next_id + 1) % u64_mod ≡ s.next_id + 1 = omega arith in
        rw (only-append (λ o. is_open o.status) s.orders (order ∷ []), next)
          (
            places (book s.orders) t (order_name s.next_id)
                (Absent-book (order_name s.next_id) s.orders fresh),
            (
              different-append s.orders order sound.0 fresh,
              Issued-append (s.next_id + 1) s.orders (order ∷ [])
                  (Issued-more s.next_id (s.next_id + 1) (names s.orders) (omega arith) sound.1)
                  ((s.next_id, omega arith, refl), tt),
            ),
          )

    submit-Refines :
        (s : MockState) (t : Option OrderTicket)
        → s.next_id + 1 < u64_mod
        → Sound order_name s
        → Refines s (place_order t) (serve order_name s (place_order t))
    unfolding serve create_order
    submit-Refines s t small sound = elim (ℕ-cases s.fail_next_creates) [
      | inr (n, some_left) ↦ rw some_left (fails (book s.orders) (place_order t) _, sound)
      | inl no_left ↦ elim (Bool-cases (scripted s.fail_creates_from s.creates_seen)) [
        | inl refused ↦ rw (no_left, refused) (fails (book s.orders) (place_order t) _, sound)
        | inr let_through ↦
            elim t as (λ t. Refines s (place_order t) (serve order_name s (place_order t))) [
              | none ↦ rw (no_left, let_through) (fails (book s.orders) (place_order none) _, sound)
              | some ticket ↦ rw (no_left, let_through) (accept-Refines s ticket small sound)
            ]
      ]
    ]

    serve-Refines :
        (s : MockState) (c : VenueCall)
        → s.next_id + 1 < u64_mod
        → Sound order_name s
        → Refines s c (serve order_name s c)
    serve-Refines s (place_order t) small sound = submit-Refines s t small sound
    serve-Refines s (cancel t) small sound = cancel-Refines s t sound
    serve-Refines s (cancel_all t) small sound = cancel_all-Refines s t sound
    serve-Refines s (list_open symbol) small sound = list-Refines s symbol sound

    create_order-next :
        (s : MockState) (t : Option OrderTicket)
        → s.next_id + 1 < u64_mod
        → (create_order order_name s t).0.next_id ≤ s.next_id + 1
    unfolding create_order accept
    create_order-next s t small = elim (ℕ-cases s.fail_next_creates) [
      | inr (n, some_left) ↦ rw some_left (omega arith)
      | inl no_left ↦ elim (Bool-cases (scripted s.fail_creates_from s.creates_seen)) [
        | inl refused ↦ rw (no_left, create_order, refused) (omega arith)
        | inr let_through ↦
            elim t as (λ t. (create_order order_name s t).0.next_id ≤ s.next_id + 1) [
              | none ↦ rw (no_left, create_order, let_through) (omega arith)
              | some ticket ↦ rw (no_left, create_order, let_through) (omega arith)
            ]
      ]
    ]

    cancel_order-next :
        (s : MockState) (t : CancelTicket) → (cancel_order s t).0.next_id ≡ s.next_id
    unfolding cancel_order
    cancel_order-next s t = elim (ℕ-cases s.fail_next_cancels) [
      | inr (n, some_left) ↦ rw (some_left, cancel_order) refl
      | inl no_left ↦ rw (no_left, cancel_order) refl
    ]

    serve-next :
        (s : MockState) (c : VenueCall)
        → s.next_id + 1 < u64_mod
        → (serve order_name s c).0.next_id ≤ s.next_id + 1
    unfolding serve cancel_all_orders fetch_open_orders
    serve-next s (place_order t) small = create_order-next s t small
    serve-next s (cancel t) small = let e = cancel_order-next s t in omega arith
    serve-next s (cancel_all t) small = omega arith
    serve-next s (list_open symbol) small = omega arith

    -- Whatever a client asks of the mock venue, its answers and its open orders are those of the
    -- abstract venue, if order numbers have different names and the counter of ids does not wrap.
    pub mock_refines_book :
        (s : MockState) (calls : List VenueCall)
        → s.next_id + length calls < u64_mod
        → Sound order_name s
        → let r = serve_all order_name s calls in
          Dialogue (book s.orders) r.1 (book r.0.orders) × Sound order_name r.0
    unfolding serve_all
    mock_refines_book s [] small sound = (over (book s.orders), sound)
    mock_refines_book s (c ∷ cs) small sound =
        let one_step = serve-Refines s c (omega arith) sound in
        let grown = serve-next s c (omega arith) in
        let rest = mock_refines_book (serve order_name s c).0 cs (omega arith) one_step.1 in
        (next _ _ _ c _ _ one_step.0 rest.0, rest.1)
