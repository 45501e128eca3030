-- ===== src/Strategies/Sentinel/Outage.antt =====
-- What the sentinel does in an outage (bin/longtrader-worker/src/strategies/sentinel/mod.rs).
use longtrader.Prelude.{
  ◌≡◌, refl, ap, ℕ, zero, suc, ◌+◌, ◌-◌, ◌<◌, ◌%◌, Bool, Bool-cases, inl, inr, leb→le, true, false,
  List, [], ◌∷◌, leb, arith, Result, ok, err, length, replicate,
}
use longtrader.Ports.{PortError, u32_mod}
use longtrader.Strategies.Sentinel.{healthy, Cycle, tick, tick_failed, should_fire, watch, u32_mod}

-- The cycles of an outage, given by the answers to the cancels that the cycles might send.
abbrev pub outage : PortError → List (Result PortError (Unit {0})) → List Cycle
outage e [] = []
outage e (c ∷ cs) = record { probe = err e; cancel = c } ∷ outage e cs

-- The cancels that an outage calls for: none while `left` failures are tolerated, then one in each
-- cycle until the venue accepts one, then none.
abbrev pub due : ℕ → List (Result PortError (Unit {0})) → List Bool
due left [] = []
due (suc left) (c ∷ cs) = false ∷ due left cs
due zero (err e ∷ cs) = true ∷ due 0 cs
due zero (ok done ∷ cs) = true ∷ replicate (length cs) false

-- Once a cancel is accepted the outage sends no other.
watch-armed :
    (max f : ℕ) (e : PortError) (cs : List (Result PortError (Unit {0})))
    → (watch max (record { failures = f; armed = true }) (outage e cs)).1
      ≡ replicate (length cs) false
unfolding watch tick tick_failed should_fire
watch-armed max f e [] = refl
watch-armed max f e (c ∷ cs) = elim (Bool-cases (leb max ((f + 1) % u32_mod))) [
  | inl reached ↦ rw reached (ap (λ l. false ∷ l) (watch-armed max ((f + 1) % u32_mod) e cs))
  | inr short ↦ rw short (ap (λ l. false ∷ l) (watch-armed max ((f + 1) % u32_mod) e cs))
]

watch-unarmed :
    (max f : ℕ) (e : PortError) (cs : List (Result PortError (Unit {0})))
    → f + length cs < u32_mod
    → (watch max (record { failures = f; armed = false }) (outage e cs)).1 ≡ due (max - (f + 1)) cs
unfolding watch tick tick_failed should_fire
watch-unarmed max f e [] h = elim (max - (f + 1)) [ zero ↦ refl | suc k ↦ refl ]
watch-unarmed max f e (ok done ∷ cs) h =
    let m : (f + 1) % u32_mod ≡ f + 1 = omega arith in
    elim (Bool-cases (leb max (f + 1))) [
      | inl reached ↦
          let z : max - (f + 1) ≡ 0 = ground (arith, leb→le max (f + 1)) in
          rw (m, reached, z) (ap (λ l. true ∷ l) (watch-armed max (f + 1) e cs))
      | inr short ↦
          let z : max - (f + 1) ≡ suc (max - (f + 1 + 1)) = ground arith in
          rw (m, short, z) (ap (λ l. false ∷ l) (watch-unarmed max (f + 1) e cs (omega arith)))
    ]
watch-unarmed max f e (err x ∷ cs) h =
    let m : (f + 1) % u32_mod ≡ f + 1 = omega arith in
    let rest = watch-unarmed max (f + 1) e cs (omega arith) in
    elim (Bool-cases (leb max (f + 1))) [
      | inl reached ↦
          let z : max - (f + 1) ≡ 0 = ground (arith, leb→le max (f + 1)) in
          let z' : max - (f + 1 + 1) ≡ 0 = ground (arith, leb→le max (f + 1)) in
          rw (m, reached, z) (ap (λ l. true ∷ l) (rw (← z') rest))
      | inr short ↦
          let z : max - (f + 1) ≡ suc (max - (f + 1 + 1)) = ground arith in
          rw (m, short, z) (ap (λ l. false ∷ l) rest)
    ]

-- In an outage that begins on a healthy link, of fewer than 2 ^ 32 cycles, the sentinel sends its
-- first cancel in the cycle whose failure reaches the tolerance, sends one in each cycle until the
-- venue accepts one, and sends none after that.
pub one_cancel_per_outage :
    (max : ℕ) (e : PortError) (cancels : List (Result PortError (Unit {0})))
    → length cancels < u32_mod
    → (watch max healthy (outage e cancels)).1 ≡ due (max - 1) cancels
one_cancel_per_outage max e cancels h = watch-unarmed max 0 e cancels (omega arith)
