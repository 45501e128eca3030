-- ===== src/Strategies/Sentinel.antt =====
-- The connectivity sentinel (bin/longtrader-worker/src/strategies/sentinel/mod.rs): it probes the venue
-- and cancels everything once when the link stays down. What the venue answers to the probe and to the
-- cancel are inputs of a cycle; a cycle runs alone, as the loop that calls it does.
pub mod Outage
use longtrader.Prelude.{
  ◌≡◌, ℕ, ◌+◌, ◌%◌, Bool, true, false, not, ◌&&◌, List, [], ◌∷◌, leb, ◌==◌, Result, ok, err,
  if◌then◌else◌, String,
}
use longtrader.Ports.{u32_mod, PortError}

-- `armed` is set once the cancel of the outage is on its way.
pub record Health : Type 0 where
  pub failures : ℕ
  pub armed : Bool

abbrev pub healthy : Health
healthy = record { failures = 0; armed = false }

-- What a cycle meets: the answer to the probe, and the answer to a cancel if one is sent.
pub record Cycle : Type 0 where
  pub probe : Result PortError (Unit {0})
  pub cancel : Result PortError (Unit {0})

-- What a cycle leaves: the health, whether a cancel was sent, and the cycle's answer.
pub record Ticked : Type 0 where
  pub health : Health
  pub sent : Bool
  pub answer : Result PortError Bool

-- The configuration file refuses a tolerance of zero.
unfoldable pub check_tolerance : ℕ → Result String ℕ
check_tolerance max = if max == 0 then err "max_consecutive_failures must be at least 1" else ok max

-- `n >= self.config.max_consecutive_failures && !health.armed`
unfoldable pub should_fire : ℕ → Health → Bool
should_fire max health = leb max ((health.failures + 1) % u32_mod) && not health.armed

-- The counter of failures wraps at 2 ^ 32.
unfoldable pub tick_failed : ℕ → Health → Result PortError (Unit {0}) → Ticked
unfolding should_fire
tick_failed max health cancel =
    let n = (health.failures + 1) % u32_mod in
    if should_fire max health
    then elim cancel [
      | err e ↦ record {
        health = record { failures = n; armed = false };
        sent = true;
        answer = err e;
      }
      | ok done ↦ record {
        health = record { failures = n; armed = true };
        sent = true;
        answer = ok false;
      }
    ]
    else record {
      health = record { failures = n; armed = health.armed };
      sent = false;
      answer = ok false;
    }

unfoldable pub tick : ℕ → Health → Cycle → Ticked
unfolding tick_failed
tick max health cycle = elim cycle.probe [
  | ok u ↦ record { health = healthy; sent = false; answer = ok true }
  | err e ↦ tick_failed max health cycle.cancel
]

-- The cycles of a run, one after the other: the health at the end, and which cycles sent a cancel.
unfoldable pub watch : ℕ → Health → List Cycle → Health × List Bool
unfolding tick
watch max health [] = (health, [])
watch max health (c ∷ cs) =
    let t = tick max health c in let rest = watch max t.health cs in (rest.0, t.sent ∷ rest.1)
