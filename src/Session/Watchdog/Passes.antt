-- ===== src/Session/Watchdog/Passes.antt =====
-- What one pass of the watchdog guarantees (session/health.rs).
use longtrader.Prelude.{◌≡◌, false, ◌&&◌, [], ◌∷◌}
use longtrader.Session.Handle.{current_state}
use longtrader.Session.Gate.{is_active}
use longtrader.Session.Watchdog.{Sessions}

-- The sessions one by one, before and after: none is active after that was active before.
abbrev pub AllTripped : Sessions → Sessions → Type 0
AllTripped [] [] = Unit
AllTripped [] (y ∷ ys) = ⊥
AllTripped (x ∷ xs) [] = ⊥
AllTripped ((id, h) ∷ xs) ((id', h') ∷ ys) =
    (id ≡ id')
    × ((is_active (current_state h) && is_active (current_state h')) ≡ false)
    × AllTripped xs ys
