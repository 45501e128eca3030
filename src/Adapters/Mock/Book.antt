-- ===== src/Adapters/Mock/Book.antt =====
-- The open orders of the mock venue as a book (bin/longtrader-worker/src/adapters/mock.rs): what a
-- client sees of the list of all orders, and how the loops over that list change it.
use longtrader.Prelude.{
  ◌≡◌, ◌≢◌, refl, ap, sym, Bool, false, ◌&&◌, not, Bool-cases, inl, inr, ◌⊎◌, Option, none, some,
  String, List, [], ◌∷◌, ◌++◌, map, str_eq, eq_iff, if◌then◌else◌,
}
use longtrader.Adapters.Orders.{PlacedOrder, is_open}
use longtrader.Adapters.Mock.{cancel_in, cancel_matching, open_orders, wanted, closed_order}

-- The orders that pass a test, in their order.
abbrev pub only : (PlacedOrder → Bool) → List PlacedOrder → List PlacedOrder
only test [] = []
only test (o ∷ os) = if test o then o ∷ only test os else only test os

abbrev pub book : List PlacedOrder → List PlacedOrder
book os = only (λ o. is_open o.status) os

abbrev pub matching : String → List PlacedOrder → List PlacedOrder
matching symbol os = only (wanted symbol) os

abbrev pub unmatching : String → List PlacedOrder → List PlacedOrder
unmatching symbol os = only (λ o. not (wanted symbol o)) os

abbrev pub without : String → List PlacedOrder → List PlacedOrder
without id os = only (λ o. not (str_eq o.id id)) os

-- The first order with that id.
abbrev pub named : String → List PlacedOrder → Option PlacedOrder
named id [] = none
named id (o ∷ os) = if str_eq o.id id then some o else named id os

abbrev pub names : List PlacedOrder → List String
names os = map (λ (o : PlacedOrder). o.id) os

abbrev pub Absent : String → List String → Type 0
Absent id [] = Unit
Absent id (n ∷ ns) = (n ≢ id) × Absent id ns

abbrev pub AllDifferent : List String → Type 0
AllDifferent [] = Unit
AllDifferent (n ∷ ns) = Absent n ns × AllDifferent ns

pub only-append :
    (test : PlacedOrder → Bool) (os ps : List PlacedOrder)
    → only test (os ++ ps) ≡ only test os ++ only test ps
only-append test [] ps = refl
only-append test (o ∷ os) ps = elim (Bool-cases (test o)) [
  | inl t ↦ rw t (ap (λ l. o ∷ l) (only-append test os ps))
  | inr f ↦ rw f (only-append test os ps)
]

pub names-cancel_in : (id : String) (os : List PlacedOrder) → names (cancel_in id os).0 ≡ names os
unfolding cancel_in
names-cancel_in id [] = refl
names-cancel_in id (o ∷ os) = elim (Bool-cases (str_eq o.id id)) [
  | inl t ↦ rw t refl
  | inr f ↦ rw f (ap (λ l. o.id ∷ l) (names-cancel_in id os))
]

pub names-cancel_matching :
    (symbol : String) (os : List PlacedOrder) → names (cancel_matching symbol os).0 ≡ names os
unfolding cancel_matching
names-cancel_matching symbol [] = refl
names-cancel_matching symbol (o ∷ os) = elim (Bool-cases (is_open o.status && wanted symbol o)) [
  | inl t ↦ rw t (ap (λ l. o.id ∷ l) (names-cancel_matching symbol os))
  | inr f ↦ rw f (ap (λ l. o.id ∷ l) (names-cancel_matching symbol os))
]

-- A book without an order of that id is the same without it.
pub without-Absent :
    (id : String) (os : List PlacedOrder) → Absent id (names os) → without id (book os) ≡ book os
without-Absent id [] h = refl
without-Absent id (o ∷ os) h = elim (Bool-cases (is_open o.status)) [
  | inl t ↦ elim (Bool-cases (str_eq o.id id)) [
    | inl same ↦ absurd (h.0 ((eq_iff o.id id).0 same))
    | inr other ↦ rw (t, other) (ap (λ l. o ∷ l) (without-Absent id os h.1))
  ]
  | inr f ↦ rw f (without-Absent id os h.1)
]

pub open_orders_lem :
    (symbol : String) (os : List PlacedOrder) → open_orders symbol os ≡ matching symbol (book os)
unfolding open_orders
open_orders_lem symbol [] = refl
open_orders_lem symbol (o ∷ os) = elim (Bool-cases (is_open o.status)) [
  | inl t ↦ elim (Bool-cases (wanted symbol o)) [
    | inl w ↦ rw (t, w) (ap (λ l. o ∷ l) (open_orders_lem symbol os))
    | inr u ↦ rw (t, u) (open_orders_lem symbol os)
  ]
  | inr f ↦ rw f (open_orders_lem symbol os)
]

pub cancel_matching-book :
    (symbol : String) (os : List PlacedOrder)
    → (book (cancel_matching symbol os).0 ≡ unmatching symbol (book os))
      × ((cancel_matching symbol os).1 ≡ map closed_order (matching symbol (book os)))
unfolding cancel_matching
cancel_matching-book symbol [] = (refl, refl)
cancel_matching-book symbol (o ∷ os) =
    let rest = cancel_matching-book symbol os in
    elim (Bool-cases (is_open o.status)) [
      | inl t ↦ elim (Bool-cases (wanted symbol o)) [
        | inl w ↦ rw (t, w) (rest.0, ap (λ l. closed_order o ∷ l) rest.1)
        | inr u ↦ rw (t, u, t) (ap (λ l. o ∷ l) rest.0, rest.1)
      ]
      | inr f ↦ rw (f, f) (rest.0, rest.1)
    ]

pub named-Absent :
    (id : String) (os : List PlacedOrder) → Absent id (names os) → named id (book os) ≡ none
named-Absent id [] h = refl
named-Absent id (o ∷ os) h = elim (Bool-cases (is_open o.status)) [
  | inl t ↦ elim (Bool-cases (str_eq o.id id)) [
    | inl same ↦ absurd (h.0 ((eq_iff o.id id).0 same))
    | inr other ↦ rw (t, other) (named-Absent id os h.1)
  ]
  | inr f ↦ rw f (named-Absent id os h.1)
]

-- What a cancel that finds the order `o` does to the book `after` that it leaves.
abbrev pub Closed : String → PlacedOrder → List PlacedOrder → List PlacedOrder → Type 0
Closed id o before after =
    ((named id before ≡ some o) × (after ≡ without id before))
    ⊎ ((named id before ≡ none) × (after ≡ before))

Closed-skip :
    (id : String) (o p : PlacedOrder) (before after : List PlacedOrder)
    → str_eq p.id id ≡ false
    → Closed id o before after
    → Closed id o (p ∷ before) (p ∷ after)
Closed-skip id o p before after other (inl (n, w)) = inl (rw other n, rw other (ap (λ l. p ∷ l) w))
Closed-skip id o p before after other (inr (n, w)) = inr (rw other n, ap (λ l. p ∷ l) w)

-- A cancel finds no order, or closes the open one, or finds one that is not open.
pub cancel_in-book :
    (id : String) (os : List PlacedOrder)
    → AllDifferent (names os)
    → (((cancel_in id os).1 ≡ none) × (book (cancel_in id os).0 ≡ book os))
      ⊎ ((o : PlacedOrder) × ((cancel_in id os).1 ≡ some (closed_order o))
          × (o.id ≡ id)
          × Closed id o (book os) (book (cancel_in id os).0))
unfolding cancel_in
cancel_in-book id [] d = inl (refl, refl)
cancel_in-book id (o ∷ os) d = elim (Bool-cases (str_eq o.id id)) [
  | inl same ↦
      let e : o.id ≡ id = (eq_iff o.id id).0 same in
      let absent : Absent id (names os) = rw (← e) d.0 in
      inr (
        o,
        rw same refl,
        e,
        elim (Bool-cases (is_open o.status)) [
          | inl t ↦ inl (rw (t, same) refl, rw (same, t, same) (sym (without-Absent id os absent)))
          | inr f ↦ inr (rw f (named-Absent id os absent), rw (same, f) refl)
        ],
      )
  | inr other ↦ elim (cancel_in-book id os d.1) [
    | inl missing ↦ inl (
      rw other missing.0,
      elim (Bool-cases (is_open o.status)) [
        | inl t ↦ rw (other, t) (ap (λ l. o ∷ l) missing.1)
        | inr f ↦ rw (other, f) missing.1
      ],
    )
    | inr (p, q, e, c) ↦ inr (
      p,
      rw other q,
      e,
      elim (Bool-cases (is_open o.status)) [
        | inl t ↦ rw (other, t) (Closed-skip id p o (book os) (book (cancel_in id os).0) other c)
        | inr f ↦ rw (other, f) c
      ],
    )
  ]
]
