-- ===== src/Session/Watchdog/Probes.antt =====
-- The counter of consecutive failed probes (session/health.rs).
use longtrader.Prelude.{
  ℕ, zero, suc, ◌+◌, ◌≤◌, ◌≡◌, refl, ◌∙◌, min, Bool, true, false, List, [], ◌∷◌, ◌++◌, arith,
  replicate,
}
use longtrader.Session.Watchdog.{u32_max, note_health_probe}

-- The counter after a history of probes, oldest first.
abbrev pub failures_after : ℕ → List Bool → ℕ
failures_after n [] = n
failures_after n (p ∷ ps) = failures_after (note_health_probe p n).0 ps

misses_from : (n k : ℕ) → n ≤ u32_max → failures_after n (replicate k false) ≡ min u32_max (n + k)
unfolding note_health_probe
misses_from n zero h = omega arith
misses_from n (suc k) h = ground (arith, misses_from (note_health_probe false n).0 k)

failures_after-append :
    (n : ℕ) (ps qs : List Bool)
    → failures_after n (ps ++ qs) ≡ failures_after (failures_after n ps) qs
failures_after-append n [] qs = refl
failures_after-append n (p ∷ ps) qs = failures_after-append (note_health_probe p n).0 ps qs

reported : (p : Bool) (n : ℕ) → n ≤ u32_max → (note_health_probe p n).1 ≡ (note_health_probe p n).0
unfolding note_health_probe
reported true n h = refl
reported false n h = ground arith

-- The counter is the number of failures since the last success, and saturates at the largest u32;
-- what a probe reports is the counter it leaves.
pub failures_exact :
    (ps : List Bool) (n k : ℕ) (p : Bool)
    → (failures_after n (ps ++ (true ∷ replicate k false)) ≡ min u32_max k)
      × (n ≤ u32_max → (note_health_probe p n).1 ≡ (note_health_probe p n).0)
unfolding note_health_probe
failures_exact ps n k p = (
  failures_after-append n ps (true ∷ replicate k false)
      ∙ (misses_from 0 k (omega arith) ∙ omega arith),
  λ h. reported p n h,
)
