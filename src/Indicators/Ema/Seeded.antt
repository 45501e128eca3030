-- ===== src/Indicators/Ema/Seeded.antt =====
-- The exponential moving average against its definition
-- (bin/longtrader-worker/src/indicators/ema.rs).
use longtrader.Prelude.{
  ◌≡◌, refl, ℕ, suc, ◌+◌, true, false, ◌&&◌, Option-cases, inl, inr, Option, none, some, List, [],
  ◌∷◌, ◌++◌, length, length-append, leb, ltb, arith,
}
use longtrader.Numbers.{Numbers, zero_decimal}
use longtrader.Indicators.Ema.{EmaState, new_ema, smoothed, push_seed, push, push_all}

module _ (N : Numbers) where
  -- The sum of some samples onto another, from the left; the average smoothed over some samples.
  abbrev pub sum_from : N.Decimal → List N.Decimal → Option N.Decimal
  sum_from acc [] = some acc
  sum_from acc (x ∷ xs) = elim (N.plus acc x) [ none ↦ none | some next ↦ sum_from next xs ]

  abbrev pub smooth_over : N.Decimal → N.Decimal → List N.Decimal → Option N.Decimal
  smooth_over k prev [] = some prev
  smooth_over k prev (x ∷ xs) = elim (N.minus x prev) [
    | none ↦ none
    | some change ↦ elim (N.times change k) [
      | none ↦ none
      | some part ↦ elim (N.plus part prev) [ none ↦ none | some next ↦ smooth_over k next xs ]
    ]
  ]

  -- The average that a run gives: of no panic, what it stands at.
  abbrev pub value_of : Option (EmaState N) → Option (Option N.Decimal)
  value_of none = none
  value_of (some e) = some e.value

  abbrev pub wrapped : Option N.Decimal → Option (Option N.Decimal)
  wrapped none = none
  wrapped (some v) = some (some v)

  smooth-push_all :
      (e : EmaState N) (prev : N.Decimal) (xs : List N.Decimal)
      → value_of (push_all N (record e { value = some prev }) xs)
        ≡ wrapped (smooth_over e.k prev xs)
  unfolding push_all push smoothed
  smooth-push_all e prev [] = refl
  smooth-push_all e prev (x ∷ xs) = elim (Option-cases (N.minus x prev)) [
    | inl overflow ↦ rw (smoothed, overflow, value_of, wrapped) refl
    | inr (change, c) ↦ elim (Option-cases (N.times change e.k)) [
      | inl overflow ↦ rw (smoothed, c, overflow, value_of, wrapped) refl
      | inr (part, t) ↦ elim (Option-cases (N.plus part prev)) [
        | inl overflow ↦ rw (smoothed, c, t, overflow, value_of, wrapped) refl
        | inr (next, p) ↦ rw (smoothed, c, t, p, value_of, wrapped) (smooth-push_all e next xs)
      ]
    ]
  ]

  -- From a partial sum: the average of the window, smoothed over what follows it.
  abbrev pub seeded_from :
      ℕ → N.Decimal → N.Decimal → List N.Decimal → List N.Decimal → Option (Option N.Decimal)
  seeded_from w k acc xs ys = elim (sum_from acc xs) [
    | none ↦ none
    | some sum ↦ elim (N.divide sum (N.of_nat w)) [
      | none ↦ none
      | some average ↦ wrapped (smooth_over k average ys)
    ]
  ]

  seed-push_all :
      (w : ℕ) (k acc x : N.Decimal) (s xs ys : List N.Decimal)
      → length s + suc (length xs) ≡ w
      → value_of (
          push_all N
            (record { window = w; k = k; value = none; seed = s; seed_sum = acc })
            (x ∷ xs ++ ys))
        ≡ seeded_from w k acc (x ∷ xs) ys
  unfolding push_all push push_seed
  seed-push_all w k acc x s [] ys full =
      let all : length (s ++ x ∷ []) ≡ w = omega (arith, length-append s (x ∷ [])) in
      let reached : (leb w (length (s ++ x ∷ [])) && ltb 0 w) ≡ true = ground (arith, all, full) in
      elim (Option-cases (N.plus acc x)) [
        | inl overflow ↦ rw (overflow, value_of, seeded_from) refl
        | inr (sum, p) ↦ elim (Option-cases (N.divide sum (N.of_nat w))) [
          | inl overflow ↦
              let same : N.divide sum (N.of_nat (length (s ++ x ∷ []))) ≡ none = rw all overflow in
              rw (p, reached, same, overflow, value_of, seeded_from) refl
          | inr (average, q) ↦
              let same : N.divide sum (N.of_nat (length (s ++ x ∷ []))) ≡ some average = rw all q in
              rw (p, reached, same, q, value_of, seeded_from)
                (smooth-push_all
                  (record { window = w; k = k; value = none; seed = []; seed_sum = zero_decimal N })
                  average ys)
        ]
      ]
  seed-push_all w k acc x s (y ∷ xs) ys full =
      let some_left : (leb w (length (s ++ x ∷ [])) && ltb 0 w) ≡ false =
        ground (arith, length-append s (x ∷ [])) in
      elim (Option-cases (N.plus acc x)) [
        | inl overflow ↦ rw (overflow, value_of, seeded_from) refl
        | inr (sum, p) ↦
            rw (p, some_left, value_of, seeded_from)
              (seed-push_all w k sum y (s ++ x ∷ []) xs ys
                (omega (arith, length-append s (x ∷ []))))
      ]

  -- The smoothing factor, 2 over the window and one more.
  abbrev pub factor : ℕ → Option N.Decimal
  factor w = N.divide (N.of_nat 2) (N.of_nat (w + 1))

  -- A new average of window `w` that is fed a full window, not empty, and then any samples, stands at the
  -- sum of the window over its length, from which each later sample `x` leads to `(x - prev) * k + prev`,
  -- where `k` is 2 over `w + 1`; and it panics where a step of that computation does.
  pub ema_value :
      (w : ℕ) (k x : N.Decimal) (xs ys : List N.Decimal)
      → suc (length xs) ≡ w
      → factor w ≡ some k
      → (e : EmaState N) × (new_ema N w ≡ some e)
        × (value_of (push_all N e (x ∷ xs ++ ys)) ≡ seeded_from w k (zero_decimal N) (x ∷ xs) ys)
  unfolding new_ema
  ema_value w k x xs ys full is_factor = (
    record { window = w; k = k; value = none; seed = []; seed_sum = zero_decimal N },
    rw (new_ema, is_factor) refl,
    seed-push_all w k (zero_decimal N) x [] xs ys (omega arith),
  )
