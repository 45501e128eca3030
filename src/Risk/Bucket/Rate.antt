-- ===== src/Risk/Bucket/Rate.antt =====
-- What the token bucket promises over any sequence of submissions, and what it does not.
use longtrader.Prelude.{
  ℕ, zero, suc, ◌+◌, ◌-◌, ◌*◌, ◌/◌, ◌%◌, ◌^◌, ◌≤◌, ◌<◌, ltb, leb, ◌≡◌, refl, ap, false, Option,
  some, List, [], ◌∷◌, ok, err, arith, Bool-cases, inl, inr, ◌⊎◌,
}
use longtrader.Risk.Limits.{rate}
use longtrader.Risk.Bucket.{Bucket, u128_max, capacity, refill, cost_of, spend, consume}

-- No more than a minute's budget is ever held.
abbrev pub IsCapped : Option ℕ → Bucket → Type 0
IsCapped limit b = b.tokens ≤ capacity limit

-- The calls of `consume`, one after the other: the number of orders accepted in all.
unfoldable pub submissions : ℕ → List (ℕ × ℕ) → Bucket → Bucket × ℕ
unfolding consume
submissions limit [] b = (b, 0)
submissions limit ((orders, now) ∷ calls) b =
    let out = consume {A = Unit {0}} (some limit) orders now b in
    let rest = submissions limit calls out.0 in
    (rest.0, elim out.1 [ ok _ ↦ orders + rest.1 | err _ ↦ rest.1 ])

mod_le : (x : ℕ) → x % (u128_max + 1) ≤ x
mod_le x = omega arith

times_mono : (a b l : ℕ) → a ≤ b → a * l ≤ b * l
times_mono a b zero h = omega arith
times_mono a b (suc l) h = let rest = times_mono a b l h in omega (arith, rest)

-- Whole milliseconds of a span, times the limit.
whole_ms : (span l : ℕ) → (span / 1000000) * l * 1000000 ≤ span * l
whole_ms span zero = omega arith
whole_ms span (suc l) = let rest = whole_ms span l in omega (arith, rest)

refill_le :
    (limit now : ℕ) (b : Bucket)
    → (refill limit now b).tokens ≤ b.tokens + ((now - b.last) / 1000000) * limit
unfolding refill
refill_le limit now b = ground (arith, mod_le (((now - b.last) / 1000000) * limit))

refill_last : (limit now : ℕ) (b : Bucket) → b.last ≤ (refill limit now b).last
unfolding refill
refill_last limit now b = ground arith

refill-IsCapped :
    (limit now : ℕ) (b : Bucket)
    → IsCapped (some limit) b
    → IsCapped (some limit) (refill limit now b)
unfolding refill
refill-IsCapped limit now b h = ground arith

times_back : (a b l : ℕ) → a ≤ b → (b - a) * l + a * l ≡ b * l
times_back a b zero h = omega arith
times_back a b (suc l) h = let rest = times_back a b l h in omega (arith, rest)

-- What a refill adds is paid for by the clock.
refill_paid :
    (limit now : ℕ) (b : Bucket)
    → (refill limit now b).tokens * 1000000 + b.last * limit
      ≤ b.tokens * 1000000 + (refill limit now b).last * limit
unfolding refill
refill_paid limit now b = elim (Bool-cases (leb b.last now)) [
  | inl forward ↦
      let le : b.last ≤ now = ground arith in
      let bound = mod_le (((now - b.last) / 1000000) * limit) in
      let paid = whole_ms (now - b.last) limit in
      let split : (now - b.last) * limit + b.last * limit ≡ now * limit =
        times_back b.last now limit le in
      rw (forward, refill) (omega arith)
  | inr back ↦ rw (back, refill) (omega arith)
]

-- The source's `u32`.
abbrev pub IsU32 : ℕ → Type 0
IsU32 limit = limit < 4294967296

-- A spending either takes the price of all the orders or nothing.
spend_paid :
    (A : Type 0) (limit orders : ℕ) (b : Bucket)
    → IsU32 limit
    → IsCapped (some limit) b
    → let out = spend {A = A} limit orders b in
      (out.0.last ≡ b.last)
      × (((out.1 ≡ ok tt) × (out.0.tokens + orders * 60000 ≡ b.tokens))
          ⊎ ((out.1 ≡ err (rate limit)) × (out.0 ≡ b)))
unfolding spend
spend_paid A limit orders b small capped = elim (Bool-cases (ltb b.tokens (cost_of orders))) [
  | inl short ↦ rw (short, spend) (refl, inr (refl, refl))
  | inr enough ↦
      let exact : b.tokens - cost_of orders + orders * 60000 ≡ b.tokens = ground arith in
      rw (enough, spend) (refl, inl (refl, exact))
]

-- One call, in budget and clock.
consume_step :
    (A : Type 0) (limit orders now : ℕ) (b : Bucket)
    → IsU32 limit
    → IsCapped (some limit) b
    → let out = consume {A = A} (some limit) orders now b in
      IsCapped (some limit) out.0
      × (((out.1 ≡ ok tt)
            × ((out.0.tokens + orders * 60000) * 1000000 + b.last * limit
                ≤ b.tokens * 1000000 + out.0.last * limit))
          ⊎ ((out.1 ≡ err (rate limit)) × (out.0 ≡ refill limit now b)))
unfolding consume
consume_step A limit orders now b small capped =
    let paid = refill_paid limit now b in
    let capped' = refill-IsCapped limit now b capped in
    let spent = spend_paid A limit orders (refill limit now b) small capped' in
    elim spent.1 [
      | inl (took, exact) ↦
          let same_last = ap (λ l. l * limit) spent.0 in
          (omega arith, inl (took, rw spent.0 (omega arith)))
      | inr (refused, kept) ↦ (rw kept capped', inr (refused, kept))
    ]

-- The submission rate is bounded over every sequence of calls, whatever their instants (also if the
-- clock steps back): the orders accepted cost no more than the budget at the start and what the
-- elapsed time pays at the limit per minute, and the budget held never exceeds one minute's.
pub rate_bound :
    (limit : ℕ) (calls : List (ℕ × ℕ)) (b : Bucket)
    → IsU32 limit
    → IsCapped (some limit) b
    → let out = submissions limit calls b in
      (out.1 * 60000 * 1000000 + out.0.tokens * 1000000 + b.last * limit
        ≤ b.tokens * 1000000 + out.0.last * limit)
      × IsCapped (some limit) out.0
unfolding submissions
rate_bound limit [] b small capped = (omega arith, capped)
rate_bound limit ((orders, now) ∷ calls) b small capped =
    let step = consume_step Unit limit orders now b small capped in
    let rest =
      rate_bound limit calls (consume {A = Unit {0}} (some limit) orders now b).0 small step.0 in
    elim step.1 [
      | inl (took, paid) ↦ rw (took, submissions) (omega arith, rest.1)
      | inr (refused, kept) ↦
          let paid = refill_paid limit now b in
          let same : (consume {A = Unit {0}} (some limit) orders now b).0 ≡ refill limit now b =
            kept in
          let tokens_e = ap (λ x. x.tokens) same in
          let last_e = ap (λ x. x.last * limit) same in
          rw (refused, submissions) (omega arith, rest.1)
    ]

refill_full :
    (limit now : ℕ) (b : Bucket)
    → IsU32 limit
    → b.last + 60000 * 1000000 ≤ now
    → now < b.last + 2 ^ 90
    → (refill limit now b).tokens ≡ limit * 60000
unfolding refill
refill_full limit now b small waited sane =
    let ms : ℕ = (now - b.last) / 1000000 in
    let long : 60000 ≤ (now - b.last) / 1000000 = omega arith in
    let bounded : (now - b.last) / 1000000 < 2 ^ 90 = omega arith in
    let pays : 60000 * limit ≤ ((now - b.last) / 1000000) * limit =
      times_mono 60000 ((now - b.last) / 1000000) limit long in
    let fits : ((now - b.last) / 1000000) * limit ≤ (2 ^ 90) * limit =
      times_mono ((now - b.last) / 1000000) (2 ^ 90) limit (omega arith) in
    ground arith

-- A minute after the last call the whole budget is back: any batch of up to the limit is accepted.
pub minute_refills :
    (A : Type 0) (limit orders now : ℕ) (b : Bucket)
    → IsU32 limit
    → IsCapped (some limit) b
    → orders ≤ limit
    → b.last + 60000 * 1000000 ≤ now
    → now < b.last + 2 ^ 90
    → (consume {A = A} (some limit) orders now b).1 ≡ ok tt
unfolding consume spend
minute_refills A limit orders now b small capped few waited sane =
    let full = refill_full limit now b small waited sane in
    let enough : ltb (refill limit now b).tokens (cost_of orders) ≡ false = ground arith in
    rw (enough, spend) refl

-- Calls that are each less than a millisecond after the one before.
abbrev pub IsTrickle : ℕ → List (ℕ × ℕ) → Type 0
IsTrickle last [] = Unit
IsTrickle last ((orders, now) ∷ calls) = (last ≤ now) × (now < last + 1000000) × IsTrickle now calls

trickle_refill :
    (limit now : ℕ) (b : Bucket)
    → b.last ≤ now
    → now < b.last + 1000000
    → (refill limit now b).tokens ≤ b.tokens
trickle_refill limit now b le lt =
    let nothing : (now - b.last) / 1000000 ≡ 0 = omega arith in
    let gained = ap (λ q. q * limit) nothing in let bound = refill_le limit now b in omega arith

consume_last :
    (limit orders now : ℕ) (b : Bucket)
    → b.last ≤ now
    → (consume {A = Unit {0}} (some limit) orders now b).0.last ≡ now
unfolding consume refill spend
consume_last limit orders now b le = ground arith

-- Calls that come less than a millisecond apart refill nothing, however long they go on: each call
-- drops the fraction of a millisecond that it measured, and starts the measure again.
pub trickle_starves :
    (limit : ℕ) (calls : List (ℕ × ℕ)) (b : Bucket)
    → IsU32 limit
    → IsCapped (some limit) b
    → IsTrickle b.last calls
    → let out = submissions limit calls b in out.0.tokens + out.1 * 60000 ≤ b.tokens
unfolding submissions
trickle_starves limit [] b small capped trickle = omega arith
trickle_starves limit ((orders, now) ∷ calls) b small capped trickle =
    let step = consume_step Unit limit orders now b small capped in
    let out : Bucket = (consume {A = Unit {0}} (some limit) orders now b).0 in
    let at_now = consume_last limit orders now b trickle.0 in
    let rest = trickle_starves limit calls out small step.0 (rw at_now trickle.2) in
    let none_back = trickle_refill limit now b trickle.0 trickle.1 in
    let spent =
      spend_paid Unit limit orders (refill limit now b) small
        (refill-IsCapped limit now b capped) in
    elim spent.1 [
      | inl (took, exact) ↦ rw (took, submissions) (omega arith)
      | inr (refused, kept) ↦
          let same = ap (λ x. x.tokens) kept in rw (refused, submissions) (omega arith)
    ]
