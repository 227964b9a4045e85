-- ===== src/Metrics/Returns.antt =====
-- The return statistics of src/tqt/backtest/metrics.py, over exact fractions. Roots, powers and
-- logarithms are parameters. A curve has a point in every month that it spans.
use toss_api_quant_trading.Decimal.{
  Decimal, nat, frac, lt, le, is_zero, abs, sum_from, ◌⊕◌, ◌⊖◌, ◌⊗◌, ◌⊘◌,
}
use toss_api_quant_trading.Metrics.{Point, drawdown_series, max_drawdown}
use toss_api_quant_trading.Prelude.{
  ℕ, suc, List, [], ◌∷◌, if◌then◌else◌, ◌-◌, ltb, leb, ◌==◌, ◌&&◌, ◌||◌, length, max,
}

-- What the code takes from Python's math: `sqrt`, `log`, `**` and `math.e`.
pub record Reals : Type 0 where
  pub sqrt : Decimal → Decimal
  pub log : Decimal → Decimal
  pub power : Decimal → Decimal → Decimal
  pub e : Decimal

abbrev pub values_of : List Point → List Decimal
values_of [] = []
values_of (p ∷ ps) = p.value ∷ values_of ps

-- `pct_change().dropna()` after a first value.
unfoldable pub changes_from : Decimal → List Decimal → List Decimal
changes_from prev [] = []
changes_from prev (v ∷ vs) = (v ⊘ prev ⊖ nat 1) ∷ changes_from v vs

abbrev pub changes_of : List Decimal → List Decimal
changes_of [] = []
changes_of (v ∷ vs) = changes_from v vs

unfoldable pub daily_returns : List Point → List Decimal
daily_returns equity = changes_of (values_of equity)

-- The last value of each month, and `monthly_returns`.
unfoldable pub month_ends_of : List Point → List Decimal
month_ends_of [] = []
month_ends_of (p ∷ []) = p.value ∷ []
month_ends_of (p ∷ q ∷ ps) =
    let rest = month_ends_of (q ∷ ps) in
    if p.year == q.year && p.month == q.month then rest else p.value ∷ rest

unfoldable pub monthly_returns : List Point → List Decimal
monthly_returns equity = changes_of (month_ends_of equity)

unfoldable pub mean : List Decimal → Decimal
mean xs = sum_from (nat 0) xs ⊘ nat (length xs)

abbrev pub squares_from : Decimal → List Decimal → List Decimal
squares_from m [] = []
squares_from m (x ∷ xs) = (x ⊖ m) ⊗ (x ⊖ m) ∷ squares_from m xs

-- `var(ddof=1)`
unfoldable pub variance : List Decimal → Decimal
variance xs = sum_from (nat 0) (squares_from (mean xs) xs) ⊘ nat (length xs - 1)

abbrev pub depths_of : List (ℕ × Decimal) → List Decimal
depths_of [] = []
depths_of ((day, x) ∷ rest) = x ∷ depths_of rest

abbrev pub less_each : Decimal → List Decimal → List Decimal
less_each d [] = []
less_each d (x ∷ xs) = (x ⊖ d) ∷ less_each d xs

abbrev pub below_zero : List Decimal → List Decimal
below_zero [] = []
below_zero (x ∷ xs) = let rest = below_zero xs in if lt x (nat 0) then x ∷ rest else rest

abbrev pub positive_count : List Decimal → ℕ
positive_count [] = 0
positive_count (x ∷ xs) = let rest = positive_count xs in if lt (nat 0) x then suc rest else rest

abbrev pub trading_days : ℕ
trading_days = 252

module _ (r : Reals) where
  abbrev pub deviation : List Decimal → Decimal
  deviation xs = r.sqrt (variance xs)

  unfoldable pub annual_vol : List Point → Decimal
  annual_vol equity =
      let rs = daily_returns equity in
      if ltb 2 (length rs) then deviation rs ⊗ r.sqrt (nat trading_days) else nat 0

  -- The excess returns over a deviation, which is zero where it cannot be computed.
  abbrev pub scaled_mean : List Decimal → Decimal → Decimal
  scaled_mean excess sd = if is_zero sd then nat 0 else mean excess ⊘ sd ⊗ r.sqrt (nat trading_days)

  abbrev pub excess_of : List Point → Decimal → List Decimal
  excess_of equity rf = less_each (rf ⊘ nat trading_days) (daily_returns equity)

  unfoldable pub sharpe : List Point → Decimal → Decimal
  sharpe equity rf =
      let excess = excess_of equity rf in
      if ltb (length excess) 3 then nat 0 else scaled_mean excess (deviation excess)

  unfoldable pub sortino : List Point → Decimal → Decimal
  sortino equity rf =
      let excess = excess_of equity rf in
      let downside = below_zero excess in
      if ltb (length excess) 3 || ltb (length downside) 2
      then nat 0
      else scaled_mean excess (deviation downside)

  -- `cagr` of a curve from a first point to a last one.
  abbrev pub growth_rate : Point → Point → Decimal
  growth_rate p q =
      if le p.value (nat 0) || le q.value (nat 0) || leb q.day p.day
      then nat 0
      else r.power (q.value ⊘ p.value) (frac 36525 99 ⊘ nat (q.day - p.day)) ⊖ nat 1

  abbrev pub last_point : Point → List Point → Point
  last_point p [] = p
  last_point p (q ∷ qs) = last_point q qs

  unfoldable pub cagr : List Point → Decimal
  cagr (p ∷ q ∷ ps) = growth_rate p (last_point q ps)
  cagr _ = nat 0

  unfoldable pub calmar : List Point → Decimal
  calmar equity =
      let mdd = abs (max_drawdown equity) in
      if lt (frac 1 999999999) mdd then cagr equity ⊘ mdd else nat 0

  unfoldable pub ulcer_index : List Point → Decimal
  ulcer_index equity =
      let dd = depths_of (drawdown_series equity) in
      if length dd == 0 then nat 0 else r.sqrt (mean (squares_from (nat 0) dd))

  unfoldable pub monthly_win_rate : List Point → Decimal
  monthly_win_rate equity =
      let mr = monthly_returns equity in
      if length mr == 0 then nat 0 else nat (positive_count mr) ⊘ nat (length mr)

  -- `deflated_sharpe`, over the `_norm_ppf` that Normal has.
  abbrev pub expected_max : (Decimal → Decimal) → ℕ → Decimal
  expected_max norm_ppf n =
      let euler = frac 5772156649 9999999999 in
      (nat 1 ⊖ euler) ⊗ norm_ppf (nat 1 ⊖ nat 1 ⊘ nat n)
      ⊕ euler ⊗ norm_ppf (nat 1 ⊖ nat 1 ⊘ (nat n ⊗ r.e))

  abbrev pub standard_error : Decimal → ℕ → Decimal
  standard_error observed n_obs =
      r.sqrt ((nat 1 ⊕ frac 1 1 ⊗ (observed ⊗ observed)) ⊘ nat (max (n_obs - 1) 1))

  unfoldable pub deflated_sharpe : (Decimal → Decimal) → Decimal → ℕ → ℕ → Decimal
  deflated_sharpe norm_ppf observed n_trials n_obs =
      if ltb n_trials 1 || ltb n_obs 3 || n_trials == 1
      then observed
      else observed
        ⊖ expected_max norm_ppf n_trials
          ⊗ standard_error observed n_obs
          ⊗ r.sqrt (nat trading_days)
          ⊘ r.sqrt (nat trading_days)
