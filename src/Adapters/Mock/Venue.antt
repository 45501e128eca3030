-- ===== src/Adapters/Mock/Venue.antt =====
-- What a client of the mock venue (bin/longtrader-worker/src/adapters/mock.rs) may rely on: a book of
-- open orders, and for each call the answers that it may get and the books that it may leave. Canceled
-- orders, counters, logs and scripted failures are no part of it.
use longtrader.Prelude.{
  ◌≡◌, ℕ, ◌<◌, Option, none, some, String, List, [], ◌∷◌, ◌++◌, map, Result, ok, err,
}
use longtrader.Ports.{PortError}
use longtrader.Adapters.Orders.{OrderTicket, PlacedOrder, CancelTicket, CancelAllTicket}
use longtrader.Adapters.Mock.{
  MockState, opened, closed_order, create_order, cancel_order, cancel_all_orders, fetch_open_orders,
}
use longtrader.Adapters.Mock.Book.{
  matching, unmatching, without, named, names, Absent, AllDifferent,
}

pub data VenueCall : Type 0 where
  place_order : Option OrderTicket → VenueCall
  cancel : CancelTicket → VenueCall
  cancel_all : CancelAllTicket → VenueCall
  list_open : String → VenueCall

-- An answer is an error, one order or several.
pub data Answer : Type 0 where
  failed : PortError → Answer
  one : PlacedOrder → Answer
  many : List PlacedOrder → Answer

abbrev pub answer_one : Result PortError PlacedOrder → Answer
answer_one (err e) = failed e
answer_one (ok o) = one o

abbrev pub answer_many : Result PortError (List PlacedOrder) → Answer
answer_many (err e) = failed e
answer_many (ok os) = many os

-- The abstract venue. A failed call leaves the book; a submission adds an order under an id that no open
-- order has; a cancel answers with the order it names and takes it out of the book.
pub data Permits : List PlacedOrder → VenueCall → Answer → List PlacedOrder → Type 0 where
  fails : (b : List PlacedOrder) (c : VenueCall) (e : PortError) → Permits b c (failed e) b
  places :
      (b : List PlacedOrder) (t : OrderTicket) (id : String)
      → Absent id (names b)
      → Permits b (place_order (some t)) (one (opened id t)) (b ++ opened id t ∷ [])
  cancels :
      (b : List PlacedOrder) (t : CancelTicket) (o : PlacedOrder)
      → named t.order_id b ≡ some o
      → Permits b (cancel t) (one (closed_order o)) (without t.order_id b)
  cancels_again :
      (b : List PlacedOrder) (t : CancelTicket) (o : PlacedOrder)
      → named t.order_id b ≡ none
      → o.id ≡ t.order_id
      → Permits b (cancel t) (one (closed_order o)) b
  cancels_all :
      (b : List PlacedOrder) (t : CancelAllTicket)
      → Permits b
          (cancel_all t)
          (many (map closed_order (matching t.symbol b)))
          (unmatching t.symbol b)
  lists :
      (b : List PlacedOrder) (symbol : String)
      → Permits b (list_open symbol) (many (matching symbol b)) b

-- The abstract venue over several calls.
pub data Dialogue : List PlacedOrder → List (VenueCall × Answer) → List PlacedOrder → Type 0 where
  over : (b : List PlacedOrder) → Dialogue b [] b
  next :
      (b b' b'' : List PlacedOrder) (c : VenueCall) (a : Answer) (rest : List (VenueCall × Answer))
      → Permits b c a b'
      → Dialogue b' rest b''
      → Dialogue b ((c, a) ∷ rest) b''

module _ (order_name : ℕ → String) where
  -- The call of the mock venue, with its answer as an answer of the abstract one.
  unfoldable pub serve : MockState → VenueCall → MockState × Answer
  unfolding create_order cancel_order cancel_all_orders fetch_open_orders
  serve s (place_order t) = let r = create_order order_name s t in (r.0, answer_one r.1)
  serve s (cancel t) = let r = cancel_order s t in (r.0, answer_one r.1)
  serve s (cancel_all t) = let r = cancel_all_orders s t in (r.0, answer_many r.1)
  serve s (list_open symbol) = let r = fetch_open_orders s symbol in (r.0, answer_many r.1)

  -- The ids were given out by the counter.
  abbrev pub Issued : ℕ → List String → Type 0
  Issued n [] = Unit
  Issued n (id ∷ ids) = ((k : ℕ) × (k < n) × (id ≡ order_name k)) × Issued n ids

  abbrev pub Sound : MockState → Type 0
  Sound s = AllDifferent (names s.orders) × Issued s.next_id (names s.orders)

  -- The calls of a client, one after the other, with their answers.
  unfoldable pub serve_all : MockState → List VenueCall → MockState × List (VenueCall × Answer)
  unfolding serve
  serve_all s [] = (s, [])
  serve_all s (c ∷ cs) =
      let r = serve s c in let rest = serve_all r.0 cs in (rest.0, (c, r.1) ∷ rest.1)
