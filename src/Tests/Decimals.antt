-- ===== src/Tests/Decimals.antt =====
-- An example of the theorem about the grammar of decimals.
use longtrader.Prelude.{ℕ, Option, none, List, [], ◌∷◌, ◌++◌, ◌≡◌, ◌⊎◌}
use longtrader.Contract.Decimal.{grammar_violation}
use longtrader.Contract.Decimal.Grammar.{Digits, Fraction, pointed, grammar_exact}

-- The text -1.5.
abbrev payload : List ℕ
payload = 45 ∷ 49 ∷ 46 ∷ 53 ∷ []

grammar_exact_example :
    (grammar_violation payload ≡ none
      → (whole : List ℕ) × (fraction : Option (List ℕ)) × Digits whole
        × Fraction fraction
        × ((payload ≡ whole ++ pointed fraction) ⊎ (payload ≡ 45 ∷ (whole ++ pointed fraction))))
    × ((whole : List ℕ) (fraction : Option (List ℕ))
        → Digits whole
        → Fraction fraction
        → (payload ≡ whole ++ pointed fraction) ⊎ (payload ≡ 45 ∷ (whole ++ pointed fraction))
        → grammar_violation payload ≡ none)
grammar_exact_example = grammar_exact payload
