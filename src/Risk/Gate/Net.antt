-- ===== src/Risk/Gate/Net.antt =====
-- The net quantities of the risk gate against running totals (bin/longtrader-worker/src/risk.rs,
-- `RiskGate::admit`).
use longtrader.Prelude.{
  ◌≡◌, ◌≢◌, refl, ap, ◌∙◌, false, Option, none, some, String, List, [], ◌∷◌, ◌++◌, ok,
  if◌then◌else◌, arith, Bool-cases, Option-cases, inl, inr, ◌⊎◌, str_eq, eq_iff,
}
use longtrader.Prelude.Dict.{find, put, find-put}
use Prim.Native.String.{compare}
use Prim.Native.Nat.{Ordering}
use longtrader.Risk.Limits.{Decimals, OrderIntent, RestingOrder}
use longtrader.Risk.Gate.{
  or_zero, bump, resting_legs, intent_legs, net_legs, insert_by_key, placed_by, by_key, check_net,
  check_exposure,
}

module _ (D : Decimals) where
  -- The net quantity of one symbol: its legs added up, in their order. `none` is a panic.
  abbrev pub running : String → List (String × D.Decimal) → D.Decimal → Option D.Decimal
  running s [] total = some total
  running s ((k, q) ∷ legs) total =
      if str_eq k s
      then elim (D.plus total q) [ none ↦ none | some total' ↦ running s legs total' ]
      else running s legs total

  running-append :
      (s : String) (a b : List (String × D.Decimal)) (x y : D.Decimal)
      → running s a x ≡ some y
      → running s (a ++ b) x ≡ running s b y
  running-append s [] b x y e = let same : x ≡ y = ground arith in ap (running s b) same
  running-append s ((k, q) ∷ a) b x y e = elim (Bool-cases (str_eq k s)) [
    | inl same ↦ elim (Option-cases (D.plus x q)) [
      | inl panics ↦ absurd (ground arith)
      | inr (z, sum) ↦ let rest = running-append s a b z y in ground arith
    ]
    | inr other ↦ let rest = running-append s a b x y in ground arith
  ]

  net_legs_step :
      (k : String) (q : D.Decimal) (legs net net' : List (String × D.Decimal))
      → net_legs D ((k, q) ∷ legs) net ≡ some net'
      → (v : D.Decimal) × (D.plus (or_zero D (find k net)) q ≡ some v)
        × (net_legs D legs (put k v net) ≡ some net')
  unfolding net_legs bump
  net_legs_step k q legs net net' e = elim (Option-cases (D.plus (or_zero D (find k net)) q)) [
    | inl panics ↦ absurd (ground arith)
    | inr (v, sum) ↦ (v, sum, ground arith)
  ]

  -- The map holds each symbol's running total.
  running-net_legs :
      (s : String) (legs : List (String × D.Decimal)) (net net' : List (String × D.Decimal))
      → net_legs D legs net ≡ some net'
      → running s legs (or_zero D (find s net)) ≡ some (or_zero D (find s net'))
  unfolding net_legs bump
  running-net_legs s [] net net' e = ground arith
  running-net_legs s ((k, q) ∷ legs) net net' e =
      let (v, sum, next) = net_legs_step k q legs net net' e in
      let rest = running-net_legs s legs (put k v net) net' next in
      ground (arith, find-put k s v net, eq_iff k s)

  -- A symbol of the legs, or of the map before, is in the map after.
  net_legs_keeps :
      (s : String) (legs net net' : List (String × D.Decimal))
      → net_legs D legs net ≡ some net'
      → find s net ≢ none
      → find s net' ≢ none
  unfolding net_legs
  net_legs_keeps s [] net net' e has = ground arith
  net_legs_keeps s ((k, q) ∷ legs) net net' e has =
      let (v, sum, next) = net_legs_step k q legs net net' e in
      net_legs_keeps s legs (put k v net) net' next (kept v)
    where
      kept : (v : D.Decimal) → find s (put k v net) ≢ none
      kept v gone = ground (arith, find-put k s v net)

  net_legs_present :
      (s : String) (legs net net' : List (String × D.Decimal))
      → net_legs D legs net ≡ some net'
      → find s legs ≢ none
      → find s net' ≢ none
  unfolding net_legs find
  net_legs_present s [] net net' e has = absurd (has refl)
  net_legs_present s ((k, q) ∷ legs) net net' e has =
      let (v, sum, next) = net_legs_step k q legs net net' e in
      elim (Bool-cases (str_eq k s)) [
        | inl same ↦
            net_legs_keeps s legs (put k v net) net' next
              (λ gone. ground (arith, find-put k s v net))
        | inr other ↦ net_legs_present s legs (put k v net) net' next (λ gone. has (ground arith))
      ]

  abbrev AllWithin : D.Decimal → List (String × D.Decimal) → Type 0
  AllWithin limit [] = Unit
  AllWithin limit ((s, net) ∷ rest) = (D.exceeds (D.abs net) limit ≡ false) × AllWithin limit rest

  check_net_ok :
      (limit : D.Decimal) (xs : List (String × D.Decimal))
      → check_net D limit xs ≡ some (ok tt)
      → AllWithin limit xs
  unfolding check_net
  check_net_ok limit [] e = tt
  check_net_ok limit ((s, net) ∷ rest) e = elim (Bool-cases (D.exceeds (D.abs net) limit)) [
    | inl over ↦ absurd (ground arith)
    | inr within ↦ (within, check_net_ok limit rest (ground arith))
  ]

  placed_within :
      (limit : D.Decimal) (x y : String × D.Decimal) (ys deeper : List (String × D.Decimal))
      → (AllWithin limit deeper → (D.exceeds (D.abs x.1) limit ≡ false) × AllWithin limit ys)
      → (c : Ordering) → AllWithin limit (placed_by D c x y ys deeper)
      → (D.exceeds (D.abs x.1) limit ≡ false) × AllWithin limit (y ∷ ys)
  placed_within limit x y ys deeper below Ordering.lt w = w
  placed_within limit x y ys deeper below Ordering.eq w = let r = below w.1 in (r.0, (w.0, r.1))
  placed_within limit x y ys deeper below Ordering.gt w = let r = below w.1 in (r.0, (w.0, r.1))

  insert_within :
      (limit : D.Decimal) (x : String × D.Decimal) (xs : List (String × D.Decimal))
      → AllWithin limit (insert_by_key D x xs)
      → (D.exceeds (D.abs x.1) limit ≡ false) × AllWithin limit xs
  unfolding insert_by_key
  insert_within limit x [] w = w
  insert_within limit x (y ∷ ys) w =
      placed_within limit x y ys (insert_by_key D x ys) (insert_within limit x ys) (compare x.0 y.0)
        w

  by_key_within :
      (limit : D.Decimal) (xs : List (String × D.Decimal))
      → AllWithin limit (by_key D xs)
      → AllWithin limit xs
  unfolding by_key
  by_key_within limit [] w = tt
  by_key_within limit (x ∷ xs) w =
      let split = insert_within limit x (by_key D xs) w in (split.0, by_key_within limit xs split.1)

  find_within :
      (limit net : D.Decimal) (s : String) (xs : List (String × D.Decimal))
      → AllWithin limit xs
      → find s xs ≡ some net
      → D.exceeds (D.abs net) limit ≡ false
  unfolding find
  find_within limit net s [] w e = absurd cc
  find_within limit net s ((k, v) ∷ xs) w e = elim (Bool-cases (str_eq k s)) [
    | inl same ↦ let at : v ≡ net = ground arith in rw (← at) w.0
    | inr other ↦ find_within limit net s xs w.1 (ground arith)
  ]

  find-append :
      (s : String) (a b : List (String × D.Decimal)) → find s a ≡ none → find s (a ++ b) ≡ find s b
  unfolding find
  find-append s [] b e = refl
  find-append s ((k, v) ∷ a) b e = let rest = find-append s a b in ground arith

  pub check_exposure_ok :
      (limit : D.Decimal) (resting : List (RestingOrder D.Decimal))
      (intents : List (OrderIntent D.Decimal)) (s : String)
      → check_exposure D (some limit) resting intents ≡ some (ok tt)
      → find s (resting_legs D resting ++ intent_legs D intents) ≢ none
      → (net : D.Decimal) × (running s
            (resting_legs D resting ++ intent_legs D intents)
            D.zero_decimal
          ≡ some net)
        × (D.exceeds (D.abs net) limit ≡ false)
  unfolding check_exposure find
  check_exposure_ok limit resting intents s e named =
      elim (Option-cases (net_legs D (resting_legs D resting) [])) [
        | inl panics ↦ absurd (ground arith)
        | inr (held, held_e) ↦ elim (Option-cases (net_legs D (intent_legs D intents) held)) [
          | inl panics ↦ absurd (ground arith)
          | inr (total, total_e) ↦
              let within =
                by_key_within limit total (check_net_ok limit (by_key D total) (ground arith)) in
              totalled held total held_e total_e within (Option-cases (find s total))
        ]
      ]
    where
      totalled :
          (held total : List (String × D.Decimal))
          → net_legs D (resting_legs D resting) [] ≡ some held
          → net_legs D (intent_legs D intents) held ≡ some total
          → AllWithin limit total
          → (find s total ≡ none) ⊎ ((net : D.Decimal) × (find s total ≡ some net))
          → (net : D.Decimal) × (running s
                (resting_legs D resting ++ intent_legs D intents)
                D.zero_decimal
              ≡ some net)
            × (D.exceeds (D.abs net) limit ≡ false)
      totalled held total held_e total_e within (inl gone) =
          elim (Option-cases (find s (resting_legs D resting))) [
            | inl absent ↦
                let later = find-append s (resting_legs D resting) (intent_legs D intents) absent in
                absurd (
                  net_legs_present s (intent_legs D intents) held total total_e
                    (λ no. named (later ∙ no)) gone)
            | inr (q, present) ↦
                let held_has =
                  net_legs_present s (resting_legs D resting) [] held held_e (λ no. ground arith) in
                absurd (net_legs_keeps s (intent_legs D intents) held total total_e held_has gone)
          ]
      totalled held total held_e total_e within (inr (net, at)) =
          let first = running-net_legs s (resting_legs D resting) [] held held_e in
          let second = running-net_legs s (intent_legs D intents) held total total_e in
          let joined =
            running-append s (resting_legs D resting) (intent_legs D intents) D.zero_decimal
              (or_zero D (find s held)) first in
          (
            net,
            joined ∙ second ∙ ap (λ o. some (or_zero D o)) at,
            find_within limit net s total within at,
          )
