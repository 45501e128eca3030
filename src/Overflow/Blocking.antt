-- ===== src/Overflow/Blocking.antt =====
-- What a run of sends under the blocking policy hands over (bin/longtrader-worker/src/overflow.rs).
use longtrader.Prelude.{ℕ, ◌≤◌, length, ◌≡◌, Bool, true, false, List, [], ◌++◌, Option, none, some}
use longtrader.Ports.{block}
use longtrader.Overflow.{Pipe}

module _ {K T : Type 0} (takes : Pipe K T → ℕ) where
  -- A pipe that takes items straight through its channel, which is within its bound.
  pub record IsDirect (p : Pipe K T) : Type 0 where
    pub blocking : p.policy ≡ block
    pub open_end : p.receiver_gone ≡ false
    pub bare : p.buf ≡ []
    pub wide : 1 ≤ p.cap
    pub within : length p.queued ≤ p.cap

  abbrev accepted : Option (Pipe K T) → Option (Pipe K T × Bool)
  accepted o = elim o [ none ↦ none | some q ↦ some (q, true) ]

  -- All that went into the channel, in order.
  abbrev pub passed : Pipe K T → List T
  passed p = p.received ++ p.queued
