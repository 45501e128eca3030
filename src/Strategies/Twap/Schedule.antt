-- ===== src/Strategies/Twap/Schedule.antt =====
-- When the TWAP executor sends which order
-- (bin/longtrader-worker/src/strategies/twap_executor/mod.rs).
use longtrader.Prelude.{
  ◌≡◌, refl, ℕ, ◌+◌, ◌/◌, ◌%◌, ◌<◌, ◌≤◌, Bool-cases, Option-cases, Result-cases, inl, inr, ◌⊎◌,
  Option, none, some, String, List, [], ◌∷◌, leb, ltb, arith, Result,
}
use longtrader.Ports.{PortError}
use longtrader.Numbers.{Numbers}
use longtrader.Ports.{u64_mod}
use longtrader.Strategies.Requests.{OrderSubmission}
use longtrader.Strategies.SimpleGrid.Rebalance.{Ticker}
use longtrader.Strategies.Twap.{
  TwapConfig, TwapExecutor, TwapState, active, complete, TwapTick, new_executor, current_mid,
  child_price, send_child, tick, run_ticks,
}

abbrev pub Sent : Type 0
Sent = ℕ × ℕ × OrderSubmission

-- From index `i` and time `due`: the orders are numbered one after the other below `n`, and each is sent
-- `interval` seconds after the one before it, or later.
abbrev pub Scheduled : ℕ → ℕ → ℕ → ℕ → List Sent → Type 0
Scheduled n interval i due [] = Unit
Scheduled n interval i due ((index, now, order) ∷ rest) =
    (index ≡ i)
    × (i < n)
    × (due ≤ now)
    × Scheduled n interval (i + 1) ((now + interval) % u64_mod) rest

module _ (N : Numbers) (print : N.Decimal → String) (parse : String → Option N.Decimal)
    (twap_coid : ℕ → String) (config : TwapConfig N.Decimal) where
  abbrev pub interval : ℕ
  interval = config.duration_secs / config.num_orders

  -- A tick sends nothing and keeps the schedule, or sends the next order when it is due.
  abbrev pub Kept : TwapExecutor → TwapTick → Type 0
  Kept x t =
      (t.sent ≡ none)
      × (t.executor.next_index ≡ x.next_index)
      × (t.executor.next_time ≡ x.next_time)

  abbrev pub Advanced : TwapExecutor → ℕ → TwapTick → Type 0
  Advanced x now t =
      (order : OrderSubmission) × (t.sent ≡ some (x.next_index, now, order))
      × (x.next_index < config.num_orders)
      × (x.next_time ≤ now)
      × (t.executor.next_index ≡ x.next_index + 1)
      × (t.executor.next_time ≡ (now + interval) % u64_mod)

  abbrev pub FitsTick : TwapExecutor → ℕ → Option TwapTick → Type 0
  FitsTick x now none = Unit
  FitsTick x now (some t) = Kept x t ⊎ Advanced x now t

  send_child-FitsTick :
      (x : TwapExecutor) (now : ℕ) (ticker : Result PortError Ticker)
      → x.next_index < config.num_orders
      → x.next_time ≤ now
      → FitsTick x now (send_child N print parse twap_coid config x now ticker)
  unfolding send_child
  send_child-FitsTick x now ticker below due =
      elim (Option-cases (N.divide config.total_amount (N.of_nat config.num_orders))) [
        | inl overflow ↦ rw (overflow, FitsTick) tt
        | inr (amount, a) ↦ elim (Result-cases (current_mid N print parse twap_coid ticker)) [
          | inr (e, failed) ↦ rw (a, failed, FitsTick) (inl (refl, refl, refl))
          | inl (mid, m) ↦ elim (Option-cases (child_price N print parse twap_coid config mid)) [
            | inl overflow ↦ rw (a, m, overflow, FitsTick) tt
            | inr (price, p) ↦ rw (a, m, p, FitsTick) (inr (_, refl, below, due, refl, refl))
          ]
        ]
      ]

  tick-FitsTick :
      (x : TwapExecutor) (now : ℕ) (ticker : Result PortError Ticker)
      → FitsTick x now (tick N print parse twap_coid config x now ticker)
  unfolding tick
  tick-FitsTick x now ticker = with_state x.state refl
    where
      with_state :
          (s : TwapState)
          → x.state ≡ s
          → FitsTick x now (tick N print parse twap_coid config x now ticker)
      with_state complete e = rw (e, FitsTick) (inl (refl, refl, refl))
      with_state active e = elim (Bool-cases (leb config.num_orders x.next_index)) [
        | inl over ↦ rw (e, over, FitsTick) (inl (refl, refl, refl))
        | inr more ↦ elim (Bool-cases (ltb now x.next_time)) [
          | inl early ↦ rw (e, more, early, FitsTick) (inl (refl, refl, refl))
          | inr due ↦
              rw (e, more, due, FitsTick)
                (send_child-FitsTick x now ticker (ground (arith, more)) (ground (arith, due)))
        ]
      ]

  abbrev pub RunScheduled : ℕ → ℕ → Option (TwapExecutor × List Sent) → Type 0
  RunScheduled i due none = Unit
  RunScheduled i due (some r) = Scheduled config.num_orders interval i due r.1

  abbrev pub joined :
      TwapTick → Option (TwapExecutor × List Sent) → Option (TwapExecutor × List Sent)
  joined t none = none
  joined t (some rest) = some (rest.0, elim t.sent [ none ↦ rest.1 | some s ↦ s ∷ rest.1 ])

  joined-Scheduled :
      (x : TwapExecutor) (now : ℕ) (t : TwapTick) (rest : Option (TwapExecutor × List Sent))
      → Kept x t ⊎ Advanced x now t
      → RunScheduled t.executor.next_index t.executor.next_time rest
      → RunScheduled x.next_index x.next_time (joined t rest)
  joined-Scheduled x now t none step h = tt
  joined-Scheduled x now t (some rest) (inl (quiet, i, due)) h = rw (quiet, ← i, ← due) h
  joined-Scheduled x now t (some rest) (inr (order, sent, below, due, i, next)) h =
      rw sent (refl, below, due, rw (← i, ← next) h)

  run_ticks-Scheduled :
      (x : TwapExecutor) (moments : List (ℕ × Result PortError Ticker))
      → RunScheduled x.next_index x.next_time (run_ticks N print parse twap_coid config x moments)
  unfolding run_ticks
  run_ticks-Scheduled x [] = tt
  run_ticks-Scheduled x ((now, ticker) ∷ later) =
      let fact = tick-FitsTick x now ticker in
      elim (Option-cases (tick N print parse twap_coid config x now ticker)) [
        | inl overflow ↦ rw (overflow, RunScheduled) tt
        | inr (t, e) ↦
            rw (e, RunScheduled)
              (joined-Scheduled x now t _ (rw (e, FitsTick) at fact)
                (run_ticks-Scheduled t.executor later))
      ]

  -- However often and whenever a new executor is ticked, and whatever the ticker answers: unless the
  -- decimal arithmetic panics, the orders that it sends are numbered 0, 1, 2 and so on, every number is
  -- below the configured count, and after the first each is sent at least the interval, rounded down to
  -- whole seconds, after the one before it (the sum of time and interval taken modulo 2 ^ 64).
  pub executor-Scheduled :
      (moments : List (ℕ × Result PortError Ticker))
      → RunScheduled 0 0 (run_ticks N print parse twap_coid config new_executor moments)
  executor-Scheduled moments = run_ticks-Scheduled new_executor moments
