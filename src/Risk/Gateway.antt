-- ===== src/Risk/Gateway.antt =====
-- The gateway that puts the gate in front of a venue (bin/longtrader-worker/src/risk.rs,
-- `RiskGateway`). The wrapped gateway's answers are a parameter. Calls that change no exposure upward
-- are handed on as they are.
pub mod Guarded
pub mod Reading
use longtrader.Prelude.{
  Bool, true, false, ℕ, Option, none, some, String, List, [], ◌∷◌, ◌++◌, Result, ok, err,
  if◌then◌else◌,
}
use longtrader.Ports.{ExchangeId, exchange_id, PortError, missing_field, decimal}
use longtrader.Contract.Decimal.{common_to_decimal}
use longtrader.Session.Policy.{EnumValue, known, unknown}
use longtrader.Risk.Limits.{
  Decimals, OrderIntent, RestingOrder, RiskLimits, RiskViolation, needs_book,
}
use longtrader.Risk.Gate.{RiskGate, Verdict, admit}

-- `trading.v1.OrderSide`
pub data OrderSide : Type 0 where
  side_unspecified buy sell : OrderSide

-- The fields of `trading.v1.OrderRequest` and of `trading.v1.Order` that the gate reads; a decimal is
-- its text.
pub record OrderRequest : Type 0 where
  pub symbol : String
  pub side : EnumValue OrderSide
  pub amount : Option String
  pub price : Option String

pub record VenueOrder : Type 0 where
  pub symbol : String
  pub side : EnumValue OrderSide
  pub amount : Option String
  pub remaining : Option String

pub record CreateOrderRequest : Type 0 where
  pub exchange_id : Option ExchangeId
  pub order : Option OrderRequest

pub record CreateOrdersRequest : Type 0 where
  pub exchange_id : Option ExchangeId
  pub orders : List OrderRequest

-- The default message of an absent exchange id.
abbrev pub exchange_or_default : Option ExchangeId → ExchangeId
exchange_or_default none = exchange_id "" ""
exchange_or_default (some e) = e

-- `matches!(side, EnumValue::Known(OrderSide::Buy))`
abbrev pub is_buy_side : EnumValue OrderSide → Bool
is_buy_side (known buy) = true
is_buy_side (known sell) = false
is_buy_side (known side_unspecified) = false
is_buy_side (unknown v) = false

-- The calls that reach the wrapped gateway.
pub data GatewayCall : Type 0 where
  fetch_open_orders : ExchangeId → GatewayCall
  create_order : CreateOrderRequest → GatewayCall
  batch_create_orders : CreateOrdersRequest → GatewayCall

-- A refusal stands for `InvalidArgument` with the violation's text.
pub data GatewayError (A : Type 0) : Type 0 where
  port_error : PortError → GatewayError A
  refused : RiskViolation A → GatewayError A

-- What a call leaves: the gate, the calls made, and the answer, of which `none` is a panic.
pub record Served (A : Type 0) (R : Type 0) : Type 0 where
  pub gate : RiskGate A
  pub calls : List GatewayCall
  pub answer : Option (Result (GatewayError A) R)

module _ (D : Decimals) (parse : String → Option D.Decimal) where
  -- `common_to_decimal(value)?`
  abbrev pub decimal_of : String → Result PortError D.Decimal
  unfolding common_to_decimal
  decimal_of value = elim (common_to_decimal parse value) [ err e ↦ err (decimal e) | ok d ↦ ok d ]

  abbrev pub price_of : Option String → Result PortError (Option D.Decimal)
  price_of none = ok none
  price_of (some value) = elim (decimal_of value) [ err e ↦ err e | ok d ↦ ok (some d) ]

  unfoldable pub intent_of : OrderRequest → Result PortError (OrderIntent D.Decimal)
  intent_of order = elim order.amount [
    | none ↦ err (missing_field "order.amount")
    | some amount ↦ elim (decimal_of amount) [
      | err e ↦ err e
      | ok qty ↦ elim (price_of order.price) [
        | err e ↦ err e
        | ok price ↦ ok (record {
          symbol = order.symbol;
          is_buy = is_buy_side order.side;
          qty = qty;
          price = price;
        })
      ]
    ]
  ]

  unfoldable pub intents_of : List OrderRequest → Result PortError (List (OrderIntent D.Decimal))
  unfolding intent_of
  intents_of [] = ok []
  intents_of (order ∷ orders) = elim (intent_of order) [
    | err e ↦ err e
    | ok intent ↦ elim (intents_of orders) [ err e ↦ err e | ok intents ↦ ok (intent ∷ intents) ]
  ]

  -- `order.remaining.or(order.amount)`
  abbrev pub open_quantity : VenueOrder → Option String
  open_quantity order = elim order.remaining [ none ↦ order.amount | some q ↦ some q ]

  unfoldable pub resting_of : VenueOrder → Result PortError (RestingOrder D.Decimal)
  resting_of order = elim (open_quantity order) [
    | none ↦ err (missing_field "order.remaining")
    | some value ↦ elim (decimal_of value) [
      | err e ↦ err e
      | ok qty ↦ ok (record { symbol = order.symbol; is_buy = is_buy_side order.side; qty = qty })
    ]
  ]

  unfoldable pub resting_orders : List VenueOrder → Result PortError (List (RestingOrder D.Decimal))
  unfolding resting_of
  resting_orders [] = ok []
  resting_orders (order ∷ orders) = elim (resting_of order) [
    | err e ↦ err e
    | ok r ↦ elim (resting_orders orders) [ err e ↦ err e | ok rs ↦ ok (r ∷ rs) ]
  ]

  -- The book that `admit` reads: `none` if no limit needs it.
  unfoldable pub read_book :
      RiskLimits D.Decimal
      → Result PortError (List VenueOrder)
      → Result PortError (Option (List (RestingOrder D.Decimal)))
  unfolding resting_orders needs_book
  read_book limits fetched =
      if needs_book limits
      then elim fetched [
        | err e ↦ err e
        | ok orders ↦ elim (resting_orders orders) [ err e ↦ err e | ok rs ↦ ok (some rs) ]
      ]
      else ok none

  unfoldable pub reads : RiskLimits D.Decimal → ExchangeId → List GatewayCall
  unfolding needs_book
  reads limits exchange = if needs_book limits then fetch_open_orders exchange ∷ [] else []

  -- `RiskGateway::admit`: `fetched` is the venue's answer to the read, `now` the instant after it.
  unfoldable pub admit_call :
      RiskGate D.Decimal
      → Result PortError (List VenueOrder)
      → ℕ
      → ExchangeId
      → List (OrderIntent D.Decimal)
      → Served D.Decimal (Unit {0})
  unfolding read_book reads admit
  admit_call gate fetched now exchange intents = elim (read_book gate.limits fetched) [
    | err e ↦ record {
      gate = gate;
      calls = reads gate.limits exchange;
      answer = some (err (port_error e));
    }
    | ok book ↦
        let out = admit D gate intents book now in
        record {
          gate = out.0;
          calls = reads gate.limits exchange;
          answer = elim out.1 [
            | none ↦ none
            | some (err v) ↦ some (err (refused v))
            | some (ok _) ↦ some (ok tt)
          ];
        }
  ]

  -- `self.admit(...).await?` and then the wrapped gateway's own call.
  unfoldable pub submit :
      {R : Type 0}
      → GatewayCall
      → Result PortError R
      → Served D.Decimal (Unit {0})
      → Served D.Decimal R
  submit call answer admitted = elim admitted.answer [
    | none ↦ record { gate = admitted.gate; calls = admitted.calls; answer = none }
    | some (err e) ↦ record { gate = admitted.gate; calls = admitted.calls; answer = some (err e) }
    | some (ok _) ↦ record {
      gate = admitted.gate;
      calls = admitted.calls ++ (call ∷ []);
      answer = some (elim answer [ ok r ↦ ok r | err e ↦ err (port_error e) ]);
    }
  ]

  -- A request that is refused before the gate is asked.
  abbrev pub turned_away : {R : Type 0} → RiskGate D.Decimal → PortError → Served D.Decimal R
  turned_away gate e = record { gate = gate; calls = []; answer = some (err (port_error e)) }

  -- `answer` is what the wrapped gateway answers to the submission.
  unfoldable pub gateway_create_order :
      {R : Type 0}
      → RiskGate D.Decimal
      → Result PortError (List VenueOrder)
      → ℕ
      → Result PortError R
      → CreateOrderRequest
      → Served D.Decimal R
  unfolding submit admit_call intent_of
  gateway_create_order gate fetched now answer req = elim req.order [
    | none ↦ turned_away gate (missing_field "order")
    | some order ↦ elim (intent_of order) [
      | err e ↦ turned_away gate e
      | ok intent ↦
          submit (create_order req) answer
            (admit_call gate fetched now (exchange_or_default req.exchange_id) (intent ∷ []))
    ]
  ]

  unfoldable pub gateway_batch_create_orders :
      {R : Type 0}
      → RiskGate D.Decimal
      → Result PortError (List VenueOrder)
      → ℕ
      → Result PortError R
      → CreateOrdersRequest
      → Served D.Decimal R
  unfolding submit admit_call intents_of
  gateway_batch_create_orders gate fetched now answer req = elim (intents_of req.orders) [
    | err e ↦ turned_away gate e
    | ok intents ↦
        submit (batch_create_orders req) answer
          (admit_call gate fetched now (exchange_or_default req.exchange_id) intents)
  ]
