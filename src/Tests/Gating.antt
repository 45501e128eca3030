-- ===== src/Tests/Gating.antt =====
-- Examples of the theorems about the risk gate, with natural numbers for decimals.
use longtrader.Prelude.{ℕ, ◌+◌, ◌*◌, ◌≤◌, ltb, true, some, [], ◌∷◌, arith}
use longtrader.Risk.Limits.{Decimals, OrderIntent, RestingOrder, RiskLimits}
use longtrader.Risk.Bucket.{Bucket}
use longtrader.Risk.Bucket.Rate.{submissions, IsCapped, rate_bound, trickle_starves}

abbrev pub full : Bucket
full = record { tokens = 120000; last = 0 }

rate_bound_example :
    let out = submissions 2 ((1, 5) ∷ (2, 30000000000) ∷ []) full in
    (out.1 * 60000 * 1000000 + out.0.tokens * 1000000 + 0 * 2 ≤ 120000 * 1000000 + out.0.last * 2)
    × IsCapped (some 2) out.0
rate_bound_example = rate_bound 2 ((1, 5) ∷ (2, 30000000000) ∷ []) full (omega arith) (omega arith)

trickle_starves_example :
    let out = submissions 2 ((1, 999999) ∷ (1, 1999998) ∷ []) full in
    out.0.tokens + out.1 * 60000 ≤ 120000
trickle_starves_example =
    trickle_starves 2 ((1, 999999) ∷ (1, 1999998) ∷ []) full (omega arith) (omega arith)
      (omega arith, omega arith, (omega arith, omega arith, tt))

abbrev pub counts : Decimals
counts = record {
  Decimal = ℕ;
  zero_decimal = 0;
  negate = λ n. 0;
  abs = λ n. n;
  times = λ a b. some (a * b);
  plus = λ a b. some (a + b);
  exceeds = λ a b. ltb b a;
}

abbrev pub strict : RiskLimits ℕ
strict = record {
  max_order_qty = some 5;
  max_order_notional = some 100;
  max_orders_per_minute = some 2;
  max_open_orders = some 3;
  max_net_qty_per_symbol = some 9;
}

abbrev three : OrderIntent ℕ
three = record { symbol = "BTC"; is_buy = true; qty = 3; price = some 10 }

abbrev held : RestingOrder ℕ
held = record { symbol = "BTC"; is_buy = true; qty = 4 }
