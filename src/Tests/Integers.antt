-- ===== src/Tests/Integers.antt =====
-- The integers as the decimals of the examples, written as tallies.
use longtrader.Prelude.{
  ◌≡◌, refl, ap, sym, ◌∙◌, ℕ, zero, suc, ◌+◌, ◌*◌, ◌/◌, Bool, true, false, Option, none, some,
  String, ◌==◌, arith, if◌then◌else◌,
}
use Prim.Native.String.{◌∷◌, count, [] as no_text}
use Prim.Native.Char.{code}
use text.Mathlib.TextLemmas.{length-cons}
use longtrader.Prelude.Int.{ℤ, pos, negsuc, pos_part, neg_part, ◌+ℤ◌, ◌-ℤ◌, ◌*ℤ◌, ltb_ℤ, +ℤ_parts}
use longtrader.Numbers.{Numbers, at_most}
use longtrader.Strategies.SimpleGrid.Band.{OrderLaws}
use longtrader.Indicators.Sqrt.Positive.{PositiveLaws, Positive}

abbrev pub negated : ℤ → ℤ
negated (pos zero) = pos zero
negated (pos (suc n)) = negsuc n
negated (negsuc n) = pos (suc n)

abbrev pub divided : ℤ → ℤ → Option ℤ
divided a (pos zero) = none
divided (pos a) (pos (suc b)) = some (pos (a / suc b))
divided (negsuc a) (pos (suc b)) = some (negated (pos (suc a / suc b)))
divided (pos a) (negsuc b) = some (negated (pos (a / suc b)))
divided (negsuc a) (negsuc b) = some (pos (suc a / suc b))

abbrev pub is_negative : ℤ → Bool
is_negative (pos n) = false
is_negative (negsuc n) = true

abbrev pub integers : Numbers
integers = record {
  Decimal = ℤ;
  of_nat = pos;
  plus = λ a b. some (a +ℤ b);
  minus = λ a b. some (a -ℤ b);
  times = λ a b. some (a *ℤ b);
  divide = divided;
  negate = negated;
  less = ltb_ℤ;
  is_zero = λ a. pos_part a + neg_part a == 0;
  is_sign_negative = is_negative;
}

-- The tally of a number has as many strokes; different numbers have different tallies.
abbrev pub tally : ℕ → String
tally zero = ""
tally (suc n) = "1" ∷ tally n

pub count-tally : (n : ℕ) → count (tally n) ≡ n
count-tally zero = refl
count-tally (suc n) = length-cons "1" (tally n) ∙ ap suc (count-tally n)

pub tally-injective : (i j : ℕ) → tally i ≡ tally j → i ≡ j
tally-injective i j e = sym (count-tally i) ∙ ap count e ∙ count-tally j

abbrev pub print : ℤ → String
print (pos n) = tally n
print (negsuc n) = "-" ∷ tally n

abbrev pub parse : String → Option ℤ
parse no_text = some (pos 0)
parse (c ∷ s) = if code c == 45 then some (negsuc (count s)) else some (pos (suc (count s)))

pub parse-print : (d : ℤ) → parse (print d) ≡ some d
parse-print (pos zero) = refl
parse-print (pos (suc n)) = ap (λ k. some (pos (suc k))) (count-tally n)
parse-print (negsuc n) = ap (λ k. some (negsuc k)) (count-tally n)

pub integers-OrderLaws : OrderLaws integers
integers-OrderLaws = record { at_most_refl = refl_law; at_most-plus = plus_law }
  where
    refl_law : (a : ℤ) → at_most integers a a ≡ true
    refl_law a = ground arith

    plus_law :
        (bound price step next : ℤ)
        → at_most integers step (pos 0) ≡ false
        → some (price +ℤ step) ≡ some next
        → at_most integers bound price ≡ true
        → at_most integers bound next ≡ true
    plus_law bound price step next up e from =
        let same : price +ℤ step ≡ next =
          ap (λ (o : Option ℤ). elim o [ none ↦ next | some x ↦ x ]) e in
        let parts = +ℤ_parts price step in
        let raised : at_most integers bound (price +ℤ step) ≡ true =
          ground (arith, up, from, parts) in
        rw (← same) raised

-- Decimals of two digits, as their number of hundredths.
abbrev pub scaled : ℤ → ℤ
scaled (pos n) = pos (n * 100)
scaled (negsuc n) = negsuc (n * 100 + 99)

abbrev pub hundredths : Numbers
hundredths = record integers {
  of_nat = λ n. pos (n * 100);
  times = λ a b. divided (a *ℤ b) (pos 100);
  divide = λ a b. divided (scaled a) b;
}

pub hundredths-PositiveLaws : PositiveLaws hundredths
hundredths-PositiveLaws = record {
  minus-Positive = λ a b p q. (a -ℤ b, refl);
  one-Positive = refl;
  half-Positive = half_law;
}
  where
    half_law :
        (a h : ℤ)
        → at_most hundredths (pos 100) a ≡ true
        → divided (scaled a) (pos 200) ≡ some h
        → Positive hundredths h
    half_law (pos n) h large e =
        let same : pos (n * 100 / 200) ≡ h =
          ap (λ (o : Option ℤ). elim o [ none ↦ h | some x ↦ x ]) e in
        let half : Positive hundredths (pos (n * 100 / 200)) = ground (arith, large) in
        rw (← same) half
    half_law (negsuc n) h large e = absurd (ground (arith, large))
