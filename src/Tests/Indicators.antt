-- ===== src/Tests/Indicators.antt =====
-- Examples of the theorems about the indicators.
use longtrader.Prelude.{◌≡◌, refl, some, List, [], ◌∷◌, map}
use longtrader.Prelude.Int.{ℤ, pos}
use longtrader.Numbers.{zero_decimal, at_most}
use longtrader.Indicators.Donchian.{new_channel, push_all, greatest, least, upper, lower}
use longtrader.Indicators.Donchian.Window.{last, channel-last}
use longtrader.Indicators.Ema
use longtrader.Indicators.Ema.Seeded.{value_of, seeded_from, ema_value}
use longtrader.Indicators.Sqrt.{decimal_sqrt}
use longtrader.Indicators.Sqrt.Positive.{RootOf, decimal_sqrt-Positive}
use longtrader.Tests.Integers.{integers, hundredths, hundredths-PositiveLaws}

abbrev bars : List (ℤ × ℤ)
bars = (pos 9, pos 1) ∷ (pos 7, pos 4) ∷ (pos 8, pos 3) ∷ []

channel-last_example :
    (upper integers (push_all integers (new_channel integers 2) bars)
      ≡ greatest integers (map (λ (s : ℤ × ℤ). s.0) (last 2 bars)))
    × (lower integers (push_all integers (new_channel integers 2) bars)
        ≡ least integers (map (λ (s : ℤ × ℤ). s.1) (last 2 bars)))
channel-last_example = channel-last integers 2 bars

ema_value_example :
    (e : Ema.EmaState integers) × (Ema.new_ema integers 1 ≡ some e)
    × (value_of integers (Ema.push_all integers e (pos 4 ∷ pos 7 ∷ []))
        ≡ seeded_from integers 1 (pos 1) (zero_decimal integers) (pos 4 ∷ []) (pos 7 ∷ []))
ema_value_example = ema_value integers 1 (pos 1) (pos 4) [] (pos 7 ∷ []) refl refl

decimal_sqrt-Positive_example :
    RootOf hundredths hundredths-PositiveLaws
      (pos 1)
      (at_most hundredths (pos 400) (zero_decimal hundredths))
      (decimal_sqrt hundredths (pos 1) (pos 400))
decimal_sqrt-Positive_example =
    decimal_sqrt-Positive hundredths hundredths-PositiveLaws (pos 1) (pos 400)
