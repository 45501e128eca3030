-- ===== src/Indicators/Adx.antt =====
-- The average directional index (bin/longtrader-worker/src/indicators/adx.rs). `none` is a panic; where the
-- result is an option in an option, the inner `none` is an index that is not there yet.
use longtrader.Prelude.{ℕ, suc, max, true, false, ◌&&◌, Option, none, some, leb, if◌then◌else◌}
use longtrader.Numbers.{Numbers, zero_decimal}
use longtrader.Indicators.Checked.{◌>>=◌, greater, absolute}

module _ (N : Numbers) where
  pub record Adx : Type 0 where
    pub period : ℕ
    pub prev_high : Option N.Decimal
    pub prev_low : Option N.Decimal
    pub prev_close : Option N.Decimal
    pub smooth_plus_dm : Option N.Decimal
    pub smooth_minus_dm : Option N.Decimal
    pub smooth_tr : Option N.Decimal
    pub samples : ℕ
    pub sum_plus_dm : N.Decimal
    pub sum_minus_dm : N.Decimal
    pub sum_tr : N.Decimal

  abbrev pub new_adx : ℕ → Adx
  new_adx period = record {
    period = max period 1;
    prev_high = none;
    prev_low = none;
    prev_close = none;
    smooth_plus_dm = none;
    smooth_minus_dm = none;
    smooth_tr = none;
    samples = 0;
    sum_plus_dm = zero_decimal N;
    sum_minus_dm = zero_decimal N;
    sum_tr = zero_decimal N;
  }

  -- A movement counts where it is positive and the greater of the two.
  unfoldable pub movement : N.Decimal → N.Decimal → N.Decimal
  movement up down = if N.less down up && N.less (zero_decimal N) up then up else zero_decimal N

  unfoldable pub widest : Option N.Decimal → N.Decimal → N.Decimal → Option N.Decimal
  unfolding greater absolute
  widest none high low = none
  widest (some prev) high low = do
    range ← N.minus high low
    above ← N.minus high prev
    below ← N.minus low prev
    some (greater N (greater N range (absolute N above)) (absolute N below))

  -- `smooth - smooth / n + part`
  unfoldable pub decayed : ℕ → N.Decimal → N.Decimal → Option N.Decimal
  decayed period smooth part = do
    share ← N.divide smooth (N.of_nat period)
    kept ← N.minus smooth share
    N.plus kept part

  unfoldable pub accumulate : Adx → N.Decimal → N.Decimal → N.Decimal → Option Adx
  accumulate a plus_dm minus_dm tr = do
    sum_plus ← N.plus a.sum_plus_dm plus_dm
    sum_minus ← N.plus a.sum_minus_dm minus_dm
    sum_tr ← N.plus a.sum_tr tr
    let summed = record a {
      sum_plus_dm = sum_plus;
      sum_minus_dm = sum_minus;
      sum_tr = sum_tr;
      samples = suc a.samples;
    } in
        elim (leb a.period (suc a.samples)) [
          | false ↦ some summed
          | true ↦ do
            plus ← N.divide sum_plus (N.of_nat a.period)
            minus ← N.divide sum_minus (N.of_nat a.period)
            range ← N.divide sum_tr (N.of_nat a.period)
            some (record summed {
              smooth_plus_dm = some plus;
              smooth_minus_dm = some minus;
              smooth_tr = some range;
            })
        ]

  unfoldable pub smooth : Adx → N.Decimal → N.Decimal → N.Decimal → Option Adx
  unfolding decayed accumulate
  smooth a plus_dm minus_dm tr = elim a.smooth_plus_dm [
    | none ↦ accumulate a plus_dm minus_dm tr
    | some sp ↦ elim a.smooth_minus_dm [
      | none ↦ accumulate a plus_dm minus_dm tr
      | some sm ↦ elim a.smooth_tr [
        | none ↦ accumulate a plus_dm minus_dm tr
        | some st ↦ do
          plus ← decayed a.period sp plus_dm
          minus ← decayed a.period sm minus_dm
          range ← decayed a.period st tr
          some (record a {
            smooth_plus_dm = some plus;
            smooth_minus_dm = some minus;
            smooth_tr = some range;
          })
      ]
    ]
  ]

  unfoldable pub push_bar :
      Adx → N.Decimal → N.Decimal → N.Decimal → N.Decimal → N.Decimal → Option Adx
  unfolding movement widest smooth
  push_bar a prev_high prev_low high low close = do
    up ← N.minus high prev_high
    down ← N.minus prev_low low
    tr ← widest a.prev_close high low
    next ← smooth a (movement up down) (movement down up) tr
    some (record next { prev_high = some high; prev_low = some low; prev_close = some close })

  unfoldable pub push : Adx → N.Decimal → N.Decimal → N.Decimal → Option Adx
  unfolding push_bar
  push a high low close = elim a.prev_high [
    | none ↦ some (record a { prev_high = some high; prev_low = some low; prev_close = some close })
    | some ph ↦ elim a.prev_low [
      | none ↦
          some (record a { prev_high = some high; prev_low = some low; prev_close = some close })
      | some pl ↦ push_bar a ph pl high low close
    ]
  ]

  -- `dm / tr * 100`
  unfoldable pub share_of : N.Decimal → N.Decimal → Option N.Decimal
  share_of dm tr = do part ← N.divide dm tr; N.times part (N.of_nat 100)

  unfoldable pub directional : Option N.Decimal → Option N.Decimal → Option (Option N.Decimal)
  unfolding share_of
  directional dm none = some none
  directional dm (some tr) = elim (N.is_zero tr) [
    | true ↦ some (some (zero_decimal N))
    | false ↦ elim dm [
      | none ↦ some none
      | some moved ↦ do share ← share_of moved tr; some (some share)
    ]
  ]

  unfoldable pub plus_di : Adx → Option (Option N.Decimal)
  unfolding directional
  plus_di a = directional a.smooth_plus_dm a.smooth_tr

  unfoldable pub minus_di : Adx → Option (Option N.Decimal)
  unfolding directional
  minus_di a = directional a.smooth_minus_dm a.smooth_tr

  -- `(plus - minus).abs() / (plus + minus) * 100`
  unfoldable pub spread_of : N.Decimal → N.Decimal → Option N.Decimal
  unfolding absolute share_of
  spread_of plus minus = do
    denom ← N.plus plus minus
    elim (N.is_zero denom) [
      | true ↦ some (zero_decimal N)
      | false ↦ do apart ← N.minus plus minus; share_of (absolute N apart) denom
    ]

  unfoldable pub value : Adx → Option (Option N.Decimal)
  unfolding share_of spread_of
  value a = elim a.smooth_tr [
    | none ↦ some none
    | some tr ↦ elim (N.is_zero tr) [
      | true ↦ some (some (zero_decimal N))
      | false ↦ elim a.smooth_plus_dm [
        | none ↦ some none
        | some dm_plus ↦ do
          plus ← share_of dm_plus tr
          elim a.smooth_minus_dm [
            | none ↦ some none
            | some dm_minus ↦ do
              minus ← share_of dm_minus tr
              index ← spread_of plus minus
              some (some index)
          ]
      ]
    ]
  ]
