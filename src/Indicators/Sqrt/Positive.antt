-- ===== src/Indicators/Sqrt/Positive.antt =====
-- The square root does not panic, and what sign its answer has
-- (bin/longtrader-worker/src/indicators/sqrt.rs).
use longtrader.Prelude.{
  ◌≡◌, refl, ℕ, zero, suc, Bool, true, false, Bool-cases, Option-cases, inl, inr, Option, none,
  some, if◌then◌else◌,
}
use longtrader.Numbers.{Numbers, zero_decimal, at_most}
use longtrader.Indicators.Sqrt.{is_close, newton_step, iterate, first_guess, decimal_sqrt}

abbrev pub Positive : (N : Numbers) → N.Decimal → Type 0
Positive N a = at_most N a (zero_decimal N) ≡ false

-- What the crate's arithmetic does with positive decimals: their difference is representable, one is
-- positive, and so is the half of a value from one on.
pub record PositiveLaws (N : Numbers) : Type 0 where
  pub minus-Positive :
      (a b : N.Decimal) → Positive N a → Positive N b → (d : N.Decimal) × (N.minus a b ≡ some d)
  pub one-Positive : Positive N (N.of_nat 1)
  pub half-Positive :
      (a h : N.Decimal)
      → at_most N (N.of_nat 1) a ≡ true
      → N.divide a (N.of_nat 2) ≡ some h
      → Positive N h

module _ (N : Numbers) (laws : PositiveLaws N) (tolerance : N.Decimal) where
  -- The computation gives a positive decimal.
  abbrev pub GivesPositive : Option N.Decimal → Type 0
  GivesPositive none = ⊥
  GivesPositive (some r) = Positive N r

  is_close-Positive :
      (a b : N.Decimal)
      → Positive N a
      → Positive N b
      → (c : Bool) × (is_close N tolerance a b ≡ some c)
  unfolding is_close
  is_close-Positive a b p q =
      let (d, e) = laws.minus-Positive a b p q in
      (N.less (if N.is_sign_negative d then N.negate d else d) tolerance, rw (e, is_close) refl)

  iterate-Positive :
      (turns : ℕ) (value x : N.Decimal)
      → Positive N x
      → GivesPositive (iterate N tolerance turns value x)
  unfolding iterate
  iterate-Positive zero value x p = p
  iterate-Positive (suc turns) value x p = elim (Option-cases (newton_step N tolerance value x)) [
    | inl off ↦ rw (off, GivesPositive) p
    | inr (next, e) ↦ elim (Bool-cases (at_most N next (zero_decimal N))) [
      | inl collapsed ↦ rw (e, collapsed, GivesPositive) p
      | inr q ↦
          let (c, near) = is_close-Positive next x q p in
          elim (Bool-cases c) [
            | inl stop ↦ rw (e, q, near, stop, GivesPositive) q
            | inr far ↦ rw (e, q, near, far, GivesPositive) (iterate-Positive turns value next q)
          ]
    ]
  ]

  first_guess-Positive :
      (value : N.Decimal) → Positive N value → Positive N (first_guess N tolerance value)
  unfolding first_guess
  first_guess-Positive value p = elim (Bool-cases (at_most N (N.of_nat 1) value)) [
    | inr small ↦ rw (small, first_guess) laws.one-Positive
    | inl large ↦ elim (Option-cases (N.divide value (N.of_nat 2))) [
      | inl overflow ↦ rw (large, first_guess, overflow) p
      | inr (half, h) ↦ rw (large, first_guess, h) (laws.half-Positive value half large h)
    ]
  ]

  -- What a root is to be: zero of what is not positive, else positive.
  abbrev pub RootOf : Bool → Option N.Decimal → Type 0
  RootOf true root = root ≡ some (zero_decimal N)
  RootOf false root = GivesPositive root

  -- The square root of a positive decimal is computed without a panic and is positive, though every
  -- division and addition on the way may leave the representable range; that of any other decimal is
  -- zero.
  pub decimal_sqrt-Positive :
      (value : N.Decimal)
      → RootOf (at_most N value (zero_decimal N)) (decimal_sqrt N tolerance value)
  unfolding decimal_sqrt
  decimal_sqrt-Positive value = elim (Bool-cases (at_most N value (zero_decimal N))) [
    | inl flat ↦ rw (flat, RootOf, decimal_sqrt) refl
    | inr p ↦
        rw (p, RootOf, decimal_sqrt)
          (iterate-Positive 64 value (first_guess N tolerance value) (first_guess-Positive value p))
  ]
