-- ===== src/Contract/Decimal.antt =====
-- The conversion of contract decimals (crates/longtrader-contract/src/ext.rs). The parser of the
-- decimal crate is a parameter; the grammar in front of it is the source's. Characters are their
-- code points.
pub mod Grammar
use longtrader.Prelude.{
  ℕ, ltb, leb, length, Bool, true, false, not, ◌&&◌, ◌||◌, Option, none, some, String, List, [],
  ◌∷◌, Result, ok, err, ◌==◌, if◌then◌else◌,
}
use Prim.Native.Char.{code}
use Prim.Native.String.{[] as no_text, ◌∷◌ as ◌∷ᵗ◌}
use longtrader.Ports.{DecimalConvertError, empty, not_base10, out_of_range}

unfoldable pub codes : String → List ℕ
codes no_text = []
codes (c ∷ᵗ s) = code c ∷ codes s

-- `char::is_whitespace`
abbrev pub is_whitespace : ℕ → Bool
is_whitespace c =
    (leb 9 c && leb c 13)
    || c == 32
    || c == 133
    || c == 160
    || c == 5760
    || (leb 8192 c && leb c 8202)
    || c == 8232
    || c == 8233
    || c == 8239
    || c == 8287
    || c == 12288

-- `s.trim().is_empty()`
unfoldable pub is_blank : List ℕ → Bool
is_blank [] = true
is_blank (c ∷ s) = is_whitespace c && is_blank s

-- `s.contains(c)`
unfoldable pub has_char : ℕ → List ℕ → Bool
has_char c [] = false
has_char c (d ∷ s) = d == c || has_char c s

abbrev pub is_digit : ℕ → Bool
is_digit c = leb 48 c && leb c 57

unfoldable pub all_digits : List ℕ → Bool
all_digits [] = true
all_digits (c ∷ s) = is_digit c && all_digits s

abbrev pub none_left : List ℕ → Bool
none_left [] = true
none_left (c ∷ s) = false

unfoldable pub is_digits : List ℕ → Bool
unfolding all_digits
is_digits s = not (none_left s) && all_digits s

abbrev pub starts_with : ℕ → List ℕ → Bool
starts_with c [] = false
starts_with c (d ∷ s) = d == c

-- `s.strip_prefix('-').unwrap_or(s)`
abbrev pub strip_minus : List ℕ → List ℕ
strip_minus [] = []
strip_minus (c ∷ s) = if c == 45 then s else c ∷ s

-- `body.split_once('.')`: what is before the first point, and what is after it, if there is one.
unfoldable pub split_point : List ℕ → List ℕ × Option (List ℕ)
split_point [] = ([], none)
split_point (c ∷ s) =
    let rest = split_point s in if c == 46 then ([], some s) else (c ∷ rest.0, rest.1)

abbrev pub max_scale : ℕ
max_scale = 28

unfoldable pub fraction_violation : Option (List ℕ) → Option String
unfolding is_digits
fraction_violation none = none
fraction_violation (some fraction) =
    if none_left fraction
    then some "expected at least one digit after the decimal point"
    else if not (is_digits fraction)
    then some "expected only digits after the decimal point"
    else if ltb max_scale (length fraction)
    then some "more fractional digits than a decimal can hold"
    else none

unfoldable pub grammar_violation : List ℕ → Option String
unfolding fraction_violation split_point has_char
grammar_violation s =
    if has_char 95 s
    then some "digit separators are not accepted"
    else if has_char 101 s || has_char 69 s
    then some "exponents are not accepted"
    else if starts_with 43 s
    then some "a leading `+` is not accepted"
    else let (whole, fraction) = split_point (strip_minus s) in
      if none_left whole
      then some "expected at least one digit before the decimal point"
      else if not (is_digits whole)
      then some "expected only digits before the decimal point"
      else fraction_violation fraction

-- `parse` is the parser of the decimal crate, without its errors' detail.
unfoldable pub common_to_decimal :
    {A : Type 0} → (String → Option A) → String → Result DecimalConvertError A
unfolding grammar_violation is_blank codes
common_to_decimal parse value =
    if is_blank (codes value) then err empty else elim (grammar_violation (codes value)) [
      | some reason ↦ err (not_base10 value reason)
      | none ↦ elim (parse value) [ none ↦ err (out_of_range value) | some d ↦ ok d ]
    ]
