-- ===== src/Indicators/Donchian/Window.antt =====
-- The incremental channel against its definition over a window
-- (bin/longtrader-worker/src/indicators/donchian.rs).
use longtrader.Prelude.{
  ◌≡◌, refl, ap, sym, ◌∙◌, ℕ, ◌+◌, ◌-◌, Bool-cases, inl, inr, List, [], ◌∷◌, ◌++◌, map, length,
  length-append, length-drop, drop, drop-append_le, drop-drop, drop-nil, ltb, arith,
}
use mathlib.Core.List.{append_assoc, append-nil}
use longtrader.Numbers.{Numbers}
use longtrader.Indicators.Donchian.{new_channel, push, push_all, greatest, least, upper, lower}

-- The last `w` elements.
abbrev pub last : {A : Type 0} → ℕ → List A → List A
last w xs = drop (length xs - w) xs

module _ (N : Numbers) where
  abbrev Sample : Type 0
  Sample = N.Decimal × N.Decimal

  push-last :
      (w : ℕ) (seen : List Sample) (s : Sample)
      → push N (record { window = w; buf = last w seen }) s.0 s.1
        ≡ record { window = w; buf = last w (seen ++ s ∷ []) }
  unfolding push
  push-last w seen s =
      let cut = drop-append_le (length seen - w) seen (s ∷ []) (omega arith) in
      let kept = length-drop (length seen - w) seen in
      let joined = length-append (last w seen) (s ∷ []) in
      let all = length-append seen (s ∷ []) in
      elim (Bool-cases (ltb w (length (last w seen ++ s ∷ [])))) [
        | inl full ↦
            let same : length seen - w + 1 ≡ length (seen ++ s ∷ []) - w =
              ground (arith, full, kept, joined, all) in
            rw full (
              ap (λ b. record { window = w; buf = b })
                (ap (drop 1) (sym cut)
                  ∙ drop-drop 1 (length seen - w) (seen ++ s ∷ [])
                  ∙ ap (λ n. drop n (seen ++ s ∷ [])) same))
        | inr room ↦
            let same : length seen - w ≡ length (seen ++ s ∷ []) - w =
              ground (arith, room, kept, joined, all) in
            rw room (
              ap (λ b. record { window = w; buf = b })
                (sym cut ∙ ap (λ n. drop n (seen ++ s ∷ [])) same))
      ]

  push_all-last :
      (w : ℕ) (seen samples : List Sample)
      → push_all N (record { window = w; buf = last w seen }) samples
        ≡ record { window = w; buf = last w (seen ++ samples) }
  push_all-last w seen [] = ap (λ l. record { window = w; buf = last w l }) (sym (append-nil seen))
  push_all-last w seen (s ∷ samples) =
      ap (λ c. push_all N c samples) (push-last w seen s)
      ∙ push_all-last w (seen ++ s ∷ []) samples
      ∙ ap (λ l. record { window = w; buf = last w l }) (append_assoc seen (s ∷ []) samples)

  -- After any samples the channel's upper bound is the greatest high, and its lower bound the least low,
  -- of the last `w` samples, or of all of them while there are fewer.
  pub channel-last :
      (w : ℕ) (samples : List Sample)
      → (upper N (push_all N (new_channel N w) samples)
          ≡ greatest N (map (λ (s : Sample). s.0) (last w samples)))
        × (lower N (push_all N (new_channel N w) samples)
            ≡ least N (map (λ (s : Sample). s.1) (last w samples)))
  unfolding upper lower
  channel-last w samples =
      let start = drop-nil {A = Sample} (0 - w) in
      let e : push_all N (new_channel N w) samples ≡ record { window = w; buf = last w samples } =
        ap (λ b. push_all N (record { window = w; buf = b }) samples) (sym start)
        ∙ push_all-last w [] samples in
      (rw e refl, rw e refl)
