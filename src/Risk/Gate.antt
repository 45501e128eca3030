-- ===== src/Risk/Gate.antt =====
-- The decision of the risk gate (bin/longtrader-worker/src/risk.rs, `RiskGate::admit`). A panic of
-- the decimal crate is `none`. The ordered map of net quantities is an association list that is read
-- in the order of its keys.
pub mod Net
pub mod Respected
use longtrader.Prelude.{
  ℕ, ◌+◌, ltb, length, Bool, true, false, ◌&&◌, Option, none, some, String, List, [], ◌∷◌, Result,
  ok, err, if◌then◌else◌,
}
use longtrader.Prelude.Dict.{find, put}
use Prim.Native.String.{compare}
use Prim.Native.Nat.{Ordering}
use longtrader.Risk.Limits.{
  Decimals, OrderIntent, RestingOrder, RiskLimits, RiskViolation, book_unavailable, order_qty,
  order_notional, open_orders, net_qty, needs_book, signed_qty, notional,
}
use longtrader.Risk.Bucket.{Bucket, new_bucket, consume}

pub record RiskGate (A : Type 0) : Type 0 where
  pub limits : RiskLimits A
  pub bucket : Bucket

unfoldable pub new_gate : {A : Type 0} → RiskLimits A → ℕ → RiskGate A
new_gate limits now = record {
  limits = limits;
  bucket = new_bucket limits.max_orders_per_minute now;
}

-- A verdict, or a panic.
abbrev pub Verdict : Type 0 → Type 0
Verdict A = Option (Result (RiskViolation A) (Unit {0}))

-- `then` after a passed check.
abbrev pub and_then : {A : Type 0} → Verdict A → Verdict A → Verdict A
and_then none next = none
and_then (some (err v)) next = some (err v)
and_then (some (ok _)) next = next

module _ (D : Decimals) where
  abbrev pub check_qty : Option D.Decimal → OrderIntent D.Decimal → Verdict D.Decimal
  check_qty none intent = some (ok tt)
  check_qty (some limit) intent =
      if D.exceeds intent.qty limit
      then some (err (order_qty intent.symbol intent.qty limit))
      else some (ok tt)

  -- The notional is computed whether or not a limit is set on it.
  abbrev pub check_notional :
      Option D.Decimal → String → Option (Option D.Decimal) → Verdict D.Decimal
  check_notional limit symbol none = none
  check_notional none symbol (some value) = some (ok tt)
  check_notional (some limit) symbol (some none) = some (ok tt)
  check_notional (some limit) symbol (some (some value)) =
      if D.exceeds value limit then some (err (order_notional symbol value limit)) else some (ok tt)

  -- The first loop of `admit`.
  unfoldable pub check_orders :
      RiskLimits D.Decimal → List (OrderIntent D.Decimal) → Verdict D.Decimal
  unfolding notional
  check_orders limits [] = some (ok tt)
  check_orders limits (intent ∷ intents) = and_then (check_qty limits.max_order_qty intent) (
      and_then (check_notional limits.max_order_notional intent.symbol (notional D intent))
        (check_orders limits intents))

  abbrev pub check_open : Option ℕ → ℕ → Verdict D.Decimal
  check_open none total = some (ok tt)
  check_open (some limit) total =
      if ltb limit total then some (err (open_orders total limit)) else some (ok tt)

  -- `*net.entry(symbol).or_insert(Decimal::ZERO) += qty`
  abbrev pub or_zero : Option D.Decimal → D.Decimal
  or_zero none = D.zero_decimal
  or_zero (some value) = value

  unfoldable pub bump :
      String → D.Decimal → List (String × D.Decimal) → Option (List (String × D.Decimal))
  bump symbol qty net = elim (D.plus (or_zero (find symbol net)) qty) [
    | none ↦ none
    | some value ↦ some (put symbol value net)
  ]

  -- The signed quantities of the resting orders and then of the intents.
  abbrev pub resting_legs : List (RestingOrder D.Decimal) → List (String × D.Decimal)
  unfolding signed_qty
  resting_legs [] = []
  resting_legs (r ∷ rs) = (r.symbol, signed_qty D r.is_buy r.qty) ∷ resting_legs rs

  abbrev pub intent_legs : List (OrderIntent D.Decimal) → List (String × D.Decimal)
  unfolding signed_qty
  intent_legs [] = []
  intent_legs (i ∷ is) = (i.symbol, signed_qty D i.is_buy i.qty) ∷ intent_legs is

  unfoldable pub net_legs :
      List (String × D.Decimal) → List (String × D.Decimal) → Option (List (String × D.Decimal))
  unfolding bump
  net_legs [] net = some net
  net_legs ((symbol, qty) ∷ legs) net = elim (bump symbol qty net) [
    | none ↦ none
    | some net' ↦ net_legs legs net'
  ]

  -- The order of the keys of the map.
  abbrev pub placed_by :
      Ordering
      → String × D.Decimal
      → String × D.Decimal
      → List (String × D.Decimal)
      → List (String × D.Decimal)
      → List (String × D.Decimal)
  placed_by Ordering.lt entry first rest deeper = entry ∷ first ∷ rest
  placed_by Ordering.eq entry first rest deeper = first ∷ deeper
  placed_by Ordering.gt entry first rest deeper = first ∷ deeper

  unfoldable pub insert_by_key :
      String × D.Decimal → List (String × D.Decimal) → List (String × D.Decimal)
  insert_by_key entry [] = entry ∷ []
  insert_by_key entry (first ∷ rest) =
      placed_by (compare entry.0 first.0) entry first rest (insert_by_key entry rest)

  unfoldable pub by_key : List (String × D.Decimal) → List (String × D.Decimal)
  unfolding insert_by_key
  by_key [] = []
  by_key (entry ∷ rest) = insert_by_key entry (by_key rest)

  unfoldable pub check_net : D.Decimal → List (String × D.Decimal) → Verdict D.Decimal
  check_net limit [] = some (ok tt)
  check_net limit ((symbol, net) ∷ rest) =
      if D.exceeds (D.abs net) limit
      then some (err (net_qty symbol net limit))
      else check_net limit rest

  unfoldable pub check_exposure :
      Option D.Decimal
      → List (RestingOrder D.Decimal)
      → List (OrderIntent D.Decimal)
      → Verdict D.Decimal
  unfolding net_legs by_key check_net
  check_exposure none resting intents = some (ok tt)
  check_exposure (some limit) resting intents = elim (net_legs (resting_legs resting) []) [
    | none ↦ none
    | some net ↦ elim (net_legs (intent_legs intents) net) [
      | none ↦ none
      | some total ↦ check_net limit (by_key total)
    ]
  ]

  -- The venue-backed limits.
  abbrev pub check_book :
      RiskLimits D.Decimal
      → Option (List (RestingOrder D.Decimal))
      → List (OrderIntent D.Decimal)
      → Verdict D.Decimal
  check_book limits none intents = some (err book_unavailable)
  check_book limits (some resting) intents =
      and_then (check_open limits.max_open_orders (length resting + length intents))
        (check_exposure limits.max_net_qty_per_symbol resting intents)

  unfoldable pub checks :
      RiskLimits D.Decimal
      → Option (List (RestingOrder D.Decimal))
      → List (OrderIntent D.Decimal)
      → Verdict D.Decimal
  unfolding check_orders check_exposure needs_book
  checks limits resting intents =
      and_then (check_orders limits intents)
        (if needs_book limits then check_book limits resting intents else some (ok tt))

  unfoldable pub admit :
      RiskGate D.Decimal
      → List (OrderIntent D.Decimal)
      → Option (List (RestingOrder D.Decimal))
      → ℕ
      → RiskGate D.Decimal × Verdict D.Decimal
  unfolding checks consume
  admit gate intents resting now = elim (checks gate.limits resting intents) [
    | none ↦ (gate, none)
    | some (err v) ↦ (gate, some (err v))
    | some (ok _) ↦
        let out = consume gate.limits.max_orders_per_minute (length intents) now gate.bucket in
        (record gate { bucket = out.0 }, some out.1)
  ]
