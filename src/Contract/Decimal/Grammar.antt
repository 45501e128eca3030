-- ===== src/Contract/Decimal/Grammar.antt =====
-- The grammar of contract decimals (crates/longtrader-contract/src/ext.rs).
use longtrader.Prelude.{
  ℕ, ◌≤◌, ◌<◌, length, true, false, ◌||◌, Option, none, some, List, [], ◌∷◌, ◌++◌, ◌≡◌, ◌≢◌, refl,
  ap, ◌∙◌, ◌==◌, arith, inl, inr, ◌⊎◌, Bool-cases,
}
use longtrader.Contract.Decimal.{
  all_digits, none_left, is_digits, starts_with, strip_minus, split_point, max_scale, has_char,
  fraction_violation, grammar_violation,
}

-- Digits only.
abbrev pub AllDigits : List ℕ → Type 0
AllDigits [] = Unit
AllDigits (c ∷ s) = (48 ≤ c) × (c ≤ 57) × AllDigits s

-- At least one digit, and digits only.
abbrev pub Digits : List ℕ → Type 0
Digits s = (s ≢ []) × AllDigits s

-- A fraction with its point, if there is one: at most 28 digits.
abbrev pub Fraction : Option (List ℕ) → Type 0
Fraction none = Unit
Fraction (some f) = Digits f × (length f ≤ max_scale)

abbrev pub pointed : Option (List ℕ) → List ℕ
pointed none = []
pointed (some f) = 46 ∷ f

all_digits_ok : (s : List ℕ) → all_digits s ≡ true → AllDigits s
unfolding all_digits
all_digits_ok [] e = tt
all_digits_ok (c ∷ s) e = (ground arith, ground arith, all_digits_ok s (ground arith))

is_digits_ok : (s : List ℕ) → is_digits s ≡ true → Digits s
unfolding is_digits
is_digits_ok [] e = absurd cc
is_digits_ok (c ∷ s) e = ((λ bare. absurd cc), all_digits_ok (c ∷ s) (ground arith))

split_whole : (s : List ℕ) → s ≡ (split_point s).0 ++ pointed (split_point s).1
unfolding split_point
split_whole [] = refl
split_whole (c ∷ s) = elim (Bool-cases (c == 46)) [
  | inl point ↦ let e : c ≡ 46 = ground arith in ground arith
  | inr other ↦ let rest = split_whole s in rw (other, split_point) (ap (λ r. c ∷ r) rest)
]

accepted-Fraction : (f : Option (List ℕ)) → fraction_violation f ≡ none → Fraction f
unfolding fraction_violation
accepted-Fraction none e = tt
accepted-Fraction (some f) e = (is_digits_ok f (ground arith), ground arith)

minus_or_not : (s : List ℕ) → (s ≡ strip_minus s) ⊎ (s ≡ 45 ∷ strip_minus s)
minus_or_not [] = inl refl
minus_or_not (c ∷ s) = elim (Bool-cases (c == 45)) [
  | inl minus ↦ let e : c ≡ 45 = ground arith in rw minus (inr (ap (λ d. d ∷ s) e))
  | inr other ↦ rw other (inl refl)
]

digits_all : (s : List ℕ) → AllDigits s → all_digits s ≡ true
unfolding all_digits
digits_all [] d = refl
digits_all (c ∷ s) d = let rest = digits_all s d.2 in let lo = d.0 in let hi = d.1 in ground arith

Digits-is_digits : (s : List ℕ) → Digits s → (none_left s ≡ false) × (is_digits s ≡ true)
unfolding is_digits
Digits-is_digits [] d = absurd (d.0 refl)
Digits-is_digits (c ∷ s) d = let all = digits_all (c ∷ s) d.1 in (refl, ground arith)

digits_lack : (x : ℕ) (s : List ℕ) → AllDigits s → (x < 48) ⊎ (57 < x) → has_char x s ≡ false
unfolding has_char
digits_lack x [] d far = refl
digits_lack x (c ∷ s) d far =
    let rest = digits_lack x s d.2 far in let lo = d.0 in let hi = d.1 in ground (arith, far)

has_char-append : (x : ℕ) (s t : List ℕ) → has_char x (s ++ t) ≡ (has_char x s || has_char x t)
unfolding has_char
has_char-append x [] t = refl
has_char-append x (c ∷ s) t = let rest = has_char-append x s t in ground (arith, rest)

pointed_lacks :
    (x : ℕ) (f : Option (List ℕ))
    → Fraction f
    → (x < 46) ⊎ (57 < x)
    → has_char x (pointed f) ≡ false
unfolding has_char
pointed_lacks x none d far = refl
pointed_lacks x (some f) d (inl low) =
    let rest = digits_lack x f d.0.1 (inl (omega arith)) in ground (arith, rest)
pointed_lacks x (some f) d (inr high) =
    let rest = digits_lack x f d.0.1 (inr high) in ground (arith, rest)

split_digits :
    (w : List ℕ) (f : Option (List ℕ)) → AllDigits w → split_point (w ++ pointed f) ≡ (w, f)
unfolding split_point
split_digits [] none d = refl
split_digits [] (some f) d = refl
split_digits (c ∷ w) f d =
    let rest = split_digits w f d.2 in
    let lo = d.0 in let other : (c == 46) ≡ false = ground arith in rw (other, rest) refl

Fraction-accepted : (f : Option (List ℕ)) → Fraction f → fraction_violation f ≡ none
unfolding fraction_violation
Fraction-accepted none d = refl
Fraction-accepted (some f) d = let ok_f = Digits-is_digits f d.0 in let short = d.1 in ground arith

grammar_accepted :
    (s : List ℕ)
    → grammar_violation s ≡ none
    → (whole : List ℕ) × (fraction : Option (List ℕ)) × Digits whole
      × Fraction fraction
      × ((s ≡ whole ++ pointed fraction) ⊎ (s ≡ 45 ∷ (whole ++ pointed fraction)))
unfolding grammar_violation
grammar_accepted s e =
    let body : List ℕ = strip_minus s in
    let whole_ok : is_digits (split_point (strip_minus s)).0 ≡ true = ground arith in
    let rest_ok : fraction_violation (split_point (strip_minus s)).1 ≡ none = ground arith in
    let shape = split_whole (strip_minus s) in
    (
      (split_point (strip_minus s)).0,
      (split_point (strip_minus s)).1,
      is_digits_ok _ whole_ok,
      accepted-Fraction _ rest_ok,
      elim (minus_or_not s) [
        | inl plain ↦ inl (plain ∙ shape)
        | inr minus ↦ inr (minus ∙ ap (λ r. 45 ∷ r) shape)
      ],
    )

body_lacks :
    (x : ℕ) (w : List ℕ) (f : Option (List ℕ))
    → Digits w
    → Fraction f
    → 57 < x
    → has_char x (w ++ pointed f) ≡ false
body_lacks x w f d e high =
    let here = digits_lack x w d.1 (inr high) in
    let there = pointed_lacks x f e (inr high) in
    has_char-append x w (pointed f) ∙ rw (here, there) refl

signed_lacks : (x : ℕ) (b : List ℕ) → 57 < x → has_char x b ≡ false → has_char x (45 ∷ b) ≡ false
unfolding has_char
signed_lacks x b high lacks = ground arith

-- The checks on the whole and the fraction, for a body that starts with a digit.
unsigned_body :
    (w : List ℕ) (f : Option (List ℕ))
    → Digits w
    → Fraction f
    → (starts_with 43 (w ++ pointed f) ≡ false) × (strip_minus (w ++ pointed f) ≡ w ++ pointed f)
unsigned_body [] f d e = absurd (d.0 refl)
unsigned_body (c ∷ w) f d e =
    let lo = d.1.0 in let other : (c == 45) ≡ false = ground arith in (ground arith, rw other refl)

body_passes :
    (s w : List ℕ) (f : Option (List ℕ))
    → Digits w
    → Fraction f
    → strip_minus s ≡ w ++ pointed f
    → starts_with 43 s ≡ false
    → ((x : ℕ) → 57 < x → has_char x s ≡ false)
    → grammar_violation s ≡ none
unfolding grammar_violation
body_passes s w f d e body plus lacks =
    let a = lacks 95 (omega arith) in
    let b = lacks 101 (omega arith) in
    let c = lacks 69 (omega arith) in
    let cut = split_digits w f d.1 in
    let whole = Digits-is_digits w d in
    let part = Fraction-accepted f e in
    rw (a, b, c, plus, body, cut, whole.0, digits_all w d.1) part

-- The grammar accepts a payload exactly if it is an optional minus, at least one digit, and an optional
-- point with between one and 28 digits after it.
pub grammar_exact :
    (s : List ℕ)
    → (grammar_violation s ≡ none
        → (whole : List ℕ) × (fraction : Option (List ℕ)) × Digits whole
          × Fraction fraction
          × ((s ≡ whole ++ pointed fraction) ⊎ (s ≡ 45 ∷ (whole ++ pointed fraction))))
      × ((whole : List ℕ) (fraction : Option (List ℕ))
          → Digits whole
          → Fraction fraction
          → (s ≡ whole ++ pointed fraction) ⊎ (s ≡ 45 ∷ (whole ++ pointed fraction))
          → grammar_violation s ≡ none)
grammar_exact s = (grammar_accepted s, λ w f d e shape. accepts w f d e shape)
  where
    accepts :
        (w : List ℕ) (f : Option (List ℕ))
        → Digits w
        → Fraction f
        → (s ≡ w ++ pointed f) ⊎ (s ≡ 45 ∷ (w ++ pointed f))
        → grammar_violation s ≡ none
    accepts w f d e (inl plain) =
        let (plus, minus) = unsigned_body w f d e in
        rw plain
          (body_passes (w ++ pointed f) w f d e minus plus (λ x high. body_lacks x w f d e high))
    accepts w f d e (inr signed) = rw signed (
        body_passes (45 ∷ (w ++ pointed f)) w f d e refl refl
          (λ x high. signed_lacks x (w ++ pointed f) high (body_lacks x w f d e high)))
