-- ===== src/Strategies/Twap.antt =====
-- The TWAP executor (bin/longtrader-worker/src/strategies/twap_executor/mod.rs): it splits an amount into
-- orders at regular times. The clock, the ticker and the text of a client order id are inputs; what the
-- venue answers to an order is only logged. `none` is a panic of the decimal arithmetic.
pub mod Schedule
use longtrader.Prelude.{
  ℕ, zero, suc, ◌+◌, ◌/◌, ◌%◌, Bool, true, false, not, ◌||◌, Option, none, some, String, List, [],
  ◌∷◌, leb, ltb, ◌==◌, Result, ok, err, if◌then◌else◌,
}
use longtrader.Ports.{ExchangeId, PortError, decimal}
use longtrader.Contract.Decimal.{common_to_decimal}
use longtrader.Numbers.{Numbers, zero_decimal, at_most}
use longtrader.Ports.{u64_mod}
use longtrader.Strategies.Requests.{OrderSubmission, limit_order}
use longtrader.Strategies.SimpleGrid.Rebalance.{Ticker, GridError, port_error, message}

pub record TwapConfig (A : Type 0) : Type 0 where
  pub exchange_id : ExchangeId
  pub symbol : String
  pub total_amount : A
  pub duration_secs : ℕ
  pub num_orders : ℕ
  pub is_buy : Bool
  pub is_maker : Bool
  pub limit_buffer : A

-- One step of a plan.
pub record TwapStep (A : Type 0) : Type 0 where
  pub index : ℕ
  pub amount : A
  pub interval_secs : A

pub data TwapState : Type 0 where
  active complete : TwapState

pub record TwapExecutor : Type 0 where
  pub state : TwapState
  pub next_index : ℕ
  pub next_time : ℕ

abbrev pub new_executor : TwapExecutor
new_executor = record { state = active; next_index = 0; next_time = 0 }

-- What a tick leaves: the executor, the order it sends with its index and its time, and its answer.
pub record TwapTick : Type 0 where
  pub executor : TwapExecutor
  pub sent : Option (ℕ × ℕ × OrderSubmission)
  pub answer : Result GridError (Unit {0})

module _ (N : Numbers) where
  unfoldable pub plan_steps : ℕ → ℕ → N.Decimal → N.Decimal → List (TwapStep N.Decimal)
  plan_steps zero index amount interval = []
  plan_steps (suc left) index amount interval =
      record { index = index; amount = amount; interval_secs = interval }
      ∷ plan_steps left (index + 1) amount interval

  -- The inner `none` is the source's; the outer one is a panic.
  unfoldable pub plan_twap : N.Decimal → ℕ → ℕ → Option (Option (List (TwapStep N.Decimal)))
  unfolding plan_steps
  plan_twap total_amount num_orders duration_secs =
      if at_most N total_amount (zero_decimal N) || (num_orders == 0) || (duration_secs == 0)
      then some none
      else elim (N.divide total_amount (N.of_nat num_orders)) [
        | none ↦ none
        | some amount ↦ elim (N.divide (N.of_nat duration_secs) (N.of_nat num_orders)) [
          | none ↦ none
          | some interval ↦ some (some (plan_steps num_orders 0 amount interval))
        ]
      ]

module _ (N : Numbers) (print : N.Decimal → String) (parse : String → Option N.Decimal)
    (twap_coid : ℕ → String) where
  unfoldable pub current_mid : Result PortError Ticker → Result GridError N.Decimal
  unfolding common_to_decimal
  current_mid (err e) = err (port_error e)
  current_mid (ok ticker) = elim ticker.last [
    | none ↦ err (message "no usable mid")
    | some written ↦ elim (common_to_decimal parse written) [
      | err e ↦ err (port_error (decimal e))
      | ok p ↦ if N.less (zero_decimal N) p then ok p else err (message "no usable mid")
    ]
  ]

  -- `mid * (1 + part)`, or `mid * (1 - part)`.
  abbrev pub shifted : Bool → N.Decimal → N.Decimal → Option N.Decimal
  shifted up mid part = elim (if up then N.plus (N.of_nat 1) part else N.minus (N.of_nat 1) part) [
    | none ↦ none
    | some factor ↦ N.times mid factor
  ]

  -- A maker quotes behind the middle by its buffer, a taker through it by 5 percent.
  unfoldable pub child_price : TwapConfig N.Decimal → N.Decimal → Option N.Decimal
  child_price config mid = elim config.is_maker [
    | true ↦ shifted (not config.is_buy) mid config.limit_buffer
    | false ↦ elim (N.divide (N.of_nat 5) (N.of_nat 100)) [
      | none ↦ none
      | some part ↦ shifted config.is_buy mid part
    ]
  ]

  -- A due order: the division and the price may panic, and an unusable ticker fails the tick.
  unfoldable pub send_child :
      TwapConfig N.Decimal → TwapExecutor → ℕ → Result PortError Ticker → Option TwapTick
  unfolding current_mid child_price limit_order
  send_child config x now ticker =
      elim (N.divide config.total_amount (N.of_nat config.num_orders)) [
        | none ↦ none
        | some amount ↦ elim (current_mid ticker) [
          | err e ↦ some (record { executor = x; sent = none; answer = err e })
          | ok mid ↦ elim (child_price config mid) [
            | none ↦ none
            | some price ↦
                let order =
                  limit_order print config.exchange_id config.symbol (twap_coid x.next_index)
                    config.is_buy price amount in
                some (record {
                  executor = record x {
                    next_index = x.next_index + 1;
                    next_time = (now + config.duration_secs / config.num_orders) % u64_mod;
                  };
                  sent = some (x.next_index, now, order);
                  answer = ok tt;
                })
          ]
        ]
      ]

  abbrev pub idle : TwapExecutor → Option TwapTick
  idle x = some (record { executor = x; sent = none; answer = ok tt })

  unfoldable pub tick :
      TwapConfig N.Decimal → TwapExecutor → ℕ → Result PortError Ticker → Option TwapTick
  unfolding send_child
  tick config x now ticker = elim x.state [
    | complete ↦ idle x
    | active ↦ elim (leb config.num_orders x.next_index) [
      | true ↦ idle (record x { state = complete })
      | false ↦ if ltb now x.next_time then idle x else send_child config x now ticker
    ]
  ]

  -- The ticks of a run_ticks at their times, with the orders sent; a panic ends it.
  unfoldable pub run_ticks :
      TwapConfig N.Decimal
      → TwapExecutor
      → List (ℕ × Result PortError Ticker)
      → Option (TwapExecutor × List (ℕ × ℕ × OrderSubmission))
  unfolding tick
  run_ticks config x [] = some (x, [])
  run_ticks config x ((now, ticker) ∷ later) = elim (tick config x now ticker) [
    | none ↦ none
    | some t ↦ elim (run_ticks config t.executor later) [
      | none ↦ none
      | some rest ↦ some (rest.0, elim t.sent [ none ↦ rest.1 | some s ↦ s ∷ rest.1 ])
    ]
  ]
