-- ===== src/Adapters/Triggers/Lifecycle.antt =====
-- The life of a conditional order at the mock venue (bin/longtrader-worker/src/adapters/mock.rs).
use longtrader.Prelude.{
  ◌≡◌, refl, ℕ, Bool-cases, Option-cases, inl, inr, Option, none, some, String, List, [], ◌∷◌, ◌++◌,
  str_eq, ok, err, if◌then◌else◌, arith,
}
use longtrader.Prelude.Int.{ℤ}
use longtrader.Numbers.{Numbers}
use longtrader.Adapters.Triggers.{
  TriggerOrderStatus, canceled, is_resting, TriggerOrderRequest, TriggerOrder, TriggerRow,
  TriggerBook, cancel_rows, cancel_trigger_order, create_trigger_order, validate_trigger_request,
  not_cancellable,
}

-- What a client may ask for between two cancels.
pub data TriggerCall (A : Type 0) : Type 0 where
  place : ℤ → TriggerOrderRequest A → TriggerCall A
  withdraw : String → TriggerCall A

module _ {A : Type 0} where
  -- The status of the order that an id names.
  abbrev pub status_named : String → List (TriggerRow A) → Option TriggerOrderStatus
  status_named id [] = none
  status_named id (row ∷ rows) = if str_eq row.id id then some row.status else status_named id rows

  status_named-append :
      (id : String) (rows more : List (TriggerRow A))
      → status_named id rows ≡ some canceled
      → status_named id (rows ++ more) ≡ some canceled
  status_named-append id [] more h = absurd (ground (arith, h))
  status_named-append id (row ∷ rows) more h = elim (Bool-cases (str_eq row.id id)) [
    | inl same ↦ rw same (rw same at h)
    | inr other ↦ rw other (status_named-append id rows more (rw other at h))
  ]

  status_named-cancel :
      (id other_id : String) (rows : List (TriggerRow A))
      → status_named id rows ≡ some canceled
      → status_named id (cancel_rows other_id rows).0 ≡ some canceled
  unfolding cancel_rows
  status_named-cancel id other_id [] h = h
  status_named-cancel id other_id (row ∷ rows) h = elim (Bool-cases (str_eq row.id other_id)) [
    | inl hit ↦ elim (Bool-cases (is_resting row.status)) [
      | inl live ↦
          rw (hit, live)
            (elim (Bool-cases (str_eq row.id id)) [
              | inl same ↦ rw same refl
              | inr other ↦ rw other (rw other at h)
            ])
      | inr gone ↦ rw (hit, gone) h
    ]
    | inr miss ↦ rw miss (elim (Bool-cases (str_eq row.id id)) [
      | inl same ↦ rw same (rw same at h)
      | inr other ↦ rw other (status_named-cancel id other_id rows (rw other at h))
    ])
  ]

  -- A cancel that succeeds leaves the order it names canceled.
  cancel_marks :
      (id : String) (rows : List (TriggerRow A)) (o : TriggerOrder A)
      → (cancel_rows id rows).1 ≡ ok o
      → status_named id (cancel_rows id rows).0 ≡ some canceled
  unfolding cancel_rows
  cancel_marks id [] o h = absurd (ground (arith, h))
  cancel_marks id (row ∷ rows) o h = elim (Bool-cases (str_eq row.id id)) [
    | inl same ↦ elim (Bool-cases (is_resting row.status)) [
      | inl live ↦ rw (same, live, same) refl
      | inr gone ↦ absurd (ground (arith, rw (same, gone) at h))
    ]
    | inr other ↦ rw (other, other) (cancel_marks id rows o (rw other at h))
  ]

  cancel_refused :
      (id : String) (rows : List (TriggerRow A))
      → status_named id rows ≡ some canceled
      → cancel_rows id rows ≡ (rows, err (not_cancellable id canceled))
  unfolding cancel_rows
  cancel_refused id [] h = absurd (ground (arith, h))
  cancel_refused id (row ∷ rows) h = elim (Bool-cases (str_eq row.id id)) [
    | inl same ↦ let e : row.status ≡ canceled = ground (arith, rw same at h) in rw (same, e) refl
    | inr other ↦ rw (other, cancel_refused id rows (rw other at h)) refl
  ]

module _ (N : Numbers) (trigger_name : ℕ → String) where
  abbrev pub after : TriggerBook N.Decimal → List (TriggerCall N.Decimal) → TriggerBook N.Decimal
  after b [] = b
  after b (place now req ∷ cs) = after (create_trigger_order N trigger_name b now req).0 cs
  after b (withdraw id ∷ cs) = after (cancel_trigger_order b id).0 cs

  place_keeps :
      (b : TriggerBook N.Decimal) (now : ℤ) (req : TriggerOrderRequest N.Decimal) (id : String)
      → status_named id b.rows ≡ some canceled
      → status_named id (create_trigger_order N trigger_name b now req).0.rows ≡ some canceled
  unfolding create_trigger_order
  place_keeps b now req id h = elim (Option-cases (validate_trigger_request N req)) [
    | inr (e, bad) ↦ rw (bad, create_trigger_order) h
    | inl good ↦ rw (good, create_trigger_order) (status_named-append id b.rows _ h)
  ]

  after_keeps :
      (b : TriggerBook N.Decimal) (cs : List (TriggerCall N.Decimal)) (id : String)
      → status_named id b.rows ≡ some canceled
      → status_named id (after b cs).rows ≡ some canceled
  unfolding cancel_trigger_order
  after_keeps b [] id h = h
  after_keeps b (place now req ∷ cs) id h =
      after_keeps (create_trigger_order N trigger_name b now req).0 cs id
        (place_keeps b now req id h)
  after_keeps b (withdraw other ∷ cs) id h =
      after_keeps (cancel_trigger_order b other).0 cs id (status_named-cancel id other b.rows h)

  -- Once a cancel of a conditional order succeeds, then whatever is placed and cancelled after it, a
  -- second cancel of the same id is refused as no longer cancellable and changes nothing.
  pub cancel_trigger_once :
      (b : TriggerBook N.Decimal) (id : String) (o : TriggerOrder N.Decimal)
      (cs : List (TriggerCall N.Decimal))
      → (cancel_trigger_order b id).1 ≡ ok o
      → let b' = after (cancel_trigger_order b id).0 cs in
        cancel_trigger_order b' id ≡ (b', err (not_cancellable id canceled))
  unfolding cancel_trigger_order
  cancel_trigger_once b id o cs done =
      let b' = after (cancel_trigger_order b id).0 cs in
      let kept = after_keeps (cancel_trigger_order b id).0 cs id (cancel_marks id b.rows o done) in
      rw (cancel_refused id b'.rows kept) refl
