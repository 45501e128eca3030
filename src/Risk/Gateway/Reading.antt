-- ===== src/Risk/Gateway/Reading.antt =====
-- What the gateway reads of the orders of a submission and of the venue's open orders
-- (bin/longtrader-worker/src/risk.rs), order by order.
use longtrader.Prelude.{
  Bool, true, ◌⊎◌, inl, inr, Option, none, some, String, List, [], ◌∷◌, ok, ◌≡◌, refl, Option-cases,
  Result-cases,
}
use longtrader.Contract.Decimal.{common_to_decimal}
use longtrader.Session.Policy.{EnumValue, known, unknown}
use longtrader.Risk.Limits.{Decimals, OrderIntent, RestingOrder}
use longtrader.Risk.Gateway.{
  OrderSide, side_unspecified, buy, sell, OrderRequest, VenueOrder, is_buy_side, decimal_of,
  price_of, intent_of, intents_of, open_quantity, resting_of, resting_orders,
}

-- A buy is an order whose side is known to be that.
abbrev pub SideAs : EnumValue OrderSide → Bool → Type 0
SideAs side is_buy = (is_buy ≡ true → side ≡ known buy) × (side ≡ known buy → is_buy ≡ true)

is_buy_side-SideAs : (side : EnumValue OrderSide) → SideAs side (is_buy_side side)
is_buy_side-SideAs (known buy) = (λ e. refl, λ e. refl)
is_buy_side-SideAs (known sell) = (λ e. cc, λ e. cc)
is_buy_side-SideAs (known side_unspecified) = (λ e. cc, λ e. cc)
is_buy_side-SideAs (unknown v) = (λ e. cc, λ e. cc)

module _ (D : Decimals) (parse : String → Option D.Decimal) where
  abbrev pub Reads : String → D.Decimal → Type 0
  Reads text value = common_to_decimal parse text ≡ ok value

  abbrev pub PriceAs : Option String → Option D.Decimal → Type 0
  PriceAs none price = price ≡ none
  PriceAs (some text) price = (value : D.Decimal) × (price ≡ some value) × Reads text value

  abbrev pub IntentAs : OrderRequest → OrderIntent D.Decimal → Type 0
  IntentAs order intent =
      (intent.symbol ≡ order.symbol)
      × SideAs order.side intent.is_buy
      × ((text : String) × (order.amount ≡ some text) × Reads text intent.qty)
      × PriceAs order.price intent.price

  abbrev pub IntentsAs : List OrderRequest → List (OrderIntent D.Decimal) → Type 0
  IntentsAs [] [] = Unit
  IntentsAs [] (i ∷ is) = ⊥
  IntentsAs (o ∷ os) [] = ⊥
  IntentsAs (o ∷ os) (i ∷ is) = IntentAs o i × IntentsAs os is

  -- The open quantity of an order is what remains, or its amount if the venue does not say.
  abbrev pub RestingAs : VenueOrder → RestingOrder D.Decimal → Type 0
  RestingAs order resting =
      (resting.symbol ≡ order.symbol)
      × SideAs order.side resting.is_buy
      × ((text : String) × ((order.remaining ≡ some text)
            ⊎ ((order.remaining ≡ none) × (order.amount ≡ some text)))
          × Reads text resting.qty)

  abbrev pub AllRestingAs : List VenueOrder → List (RestingOrder D.Decimal) → Type 0
  AllRestingAs [] [] = Unit
  AllRestingAs [] (r ∷ rs) = ⊥
  AllRestingAs (o ∷ os) [] = ⊥
  AllRestingAs (o ∷ os) (r ∷ rs) = RestingAs o r × AllRestingAs os rs

  decimal_of-Reads :
      (text : String) (value : D.Decimal) → decimal_of D parse text ≡ ok value → Reads text value
  unfolding decimal_of
  decimal_of-Reads text value e = elim (Result-cases (common_to_decimal parse text)) [
    | inl (d, read) ↦ let same = rw (decimal_of, read) at e in cc
    | inr (x, bad) ↦ let same = rw (decimal_of, bad) at e in cc
  ]

  price_of-PriceAs :
      (price : Option String) (value : Option D.Decimal)
      → price_of D parse price ≡ ok value
      → PriceAs price value
  price_of-PriceAs none value e = cc
  price_of-PriceAs (some text) value e = elim (Result-cases (decimal_of D parse text)) [
    | inl (d, read) ↦ let same = rw (price_of, read) at e in (d, cc, decimal_of-Reads text d read)
    | inr (x, bad) ↦ let same = rw (price_of, bad) at e in cc
  ]

  pub intent_of-IntentAs :
      (order : OrderRequest) (intent : OrderIntent D.Decimal)
      → intent_of D parse order ≡ ok intent
      → IntentAs order intent
  unfolding intent_of
  intent_of-IntentAs order intent e = elim (Option-cases order.amount) [
    | inl missing ↦ let same = rw (intent_of, missing) at e in cc
    | inr (text, amount) ↦ elim (Result-cases (decimal_of D parse text)) [
      | inr (x, bad) ↦ let same = rw (intent_of, amount, bad) at e in cc
      | inl (qty, read) ↦ elim (Result-cases (price_of D parse order.price)) [
        | inr (x, bad) ↦ let same = rw (intent_of, amount, read, bad) at e in cc
        | inl (price, priced) ↦
            let made = rw (intent_of, amount, read, priced) at e in
            let same : record {
              symbol = order.symbol;
              is_buy = is_buy_side order.side;
              qty = qty;
              price = price;
            }
                ≡ intent =
              cc in
            rw (← same) (
              refl,
              is_buy_side-SideAs order.side,
              (text, amount, decimal_of-Reads text qty read),
              price_of-PriceAs order.price price priced,
            )
      ]
    ]
  ]

  pub intents_of-IntentsAs :
      (orders : List OrderRequest) (intents : List (OrderIntent D.Decimal))
      → intents_of D parse orders ≡ ok intents
      → IntentsAs orders intents
  unfolding intents_of
  intents_of-IntentsAs [] [] e = tt
  intents_of-IntentsAs [] (i ∷ is) e = absurd cc
  intents_of-IntentsAs (o ∷ os) intents e = elim (Result-cases (intent_of D parse o)) [
    | inr (x, bad) ↦ let same = rw (intents_of, bad) at e in absurd cc
    | inl (i, read) ↦ elim (Result-cases (intents_of D parse os)) [
      | inr (x, bad) ↦ let same = rw (intents_of, read, bad) at e in absurd cc
      | inl (is, rest) ↦
          let made = rw (intents_of, read, rest) at e in
          let same : (i ∷ is) ≡ intents = cc in
          rw (← same) (intent_of-IntentAs o i read, intents_of-IntentsAs os is rest)
    ]
  ]

  open_quantity-cases :
      (order : VenueOrder) (text : String)
      → open_quantity D parse order ≡ some text
      → (order.remaining ≡ some text) ⊎ ((order.remaining ≡ none) × (order.amount ≡ some text))
  open_quantity-cases order text e = elim (Option-cases order.remaining) [
    | inl missing ↦ inr (missing, rw (open_quantity, missing) at e)
    | inr (q, there) ↦ let same = rw (open_quantity, there) at e in inl (rw there same)
  ]

  resting_of-RestingAs :
      (order : VenueOrder) (resting : RestingOrder D.Decimal)
      → resting_of D parse order ≡ ok resting
      → RestingAs order resting
  unfolding resting_of
  resting_of-RestingAs order resting e = elim (Option-cases (open_quantity D parse order)) [
    | inl missing ↦ let same = rw (resting_of, missing) at e in cc
    | inr (text, shown) ↦ elim (Result-cases (decimal_of D parse text)) [
      | inr (x, bad) ↦ let same = rw (resting_of, shown, bad) at e in cc
      | inl (qty, read) ↦
          let made = rw (resting_of, shown, read) at e in
          let same : record { symbol = order.symbol; is_buy = is_buy_side order.side; qty = qty }
              ≡ resting =
            cc in
          rw (← same) (
            refl,
            is_buy_side-SideAs order.side,
            (text, open_quantity-cases order text shown, decimal_of-Reads text qty read),
          )
    ]
  ]

  pub resting_orders-AllRestingAs :
      (orders : List VenueOrder) (resting : List (RestingOrder D.Decimal))
      → resting_orders D parse orders ≡ ok resting
      → AllRestingAs orders resting
  unfolding resting_orders
  resting_orders-AllRestingAs [] [] e = tt
  resting_orders-AllRestingAs [] (r ∷ rs) e = absurd cc
  resting_orders-AllRestingAs (o ∷ os) resting e = elim (Result-cases (resting_of D parse o)) [
    | inr (x, bad) ↦ let same = rw (resting_orders, bad) at e in absurd cc
    | inl (r, read) ↦ elim (Result-cases (resting_orders D parse os)) [
      | inr (x, bad) ↦ let same = rw (resting_orders, read, bad) at e in absurd cc
      | inl (rs, rest) ↦
          let made = rw (resting_orders, read, rest) at e in
          let same : (r ∷ rs) ≡ resting = cc in
          rw (← same) (resting_of-RestingAs o r read, resting_orders-AllRestingAs os rs rest)
    ]
  ]
