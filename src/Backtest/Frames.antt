-- ===== src/Backtest/Frames.antt =====
-- The dates on which a strategy rebalances (src/tqt/strategy/base.py and momentum.py), and
-- `Backtester.run` on the rows of the two frames. A row carries its calendar year, month and ISO week
-- as running numbers, so that equal numbers mean equal periods.
use toss_api_quant_trading.Prelude.{ℕ, Bool, List, [], ◌∷◌, false, ◌||◌, ◌==◌, if◌then◌else◌}
use toss_api_quant_trading.Prelude.Dict.{Dict}
use toss_api_quant_trading.Decimal.{Decimal}
use toss_api_quant_trading.Backtest.Config.{BacktestConfig}
use toss_api_quant_trading.Backtest.Run.{Bar, BarRow, Decision, run_backtest}

pub record Row : Type 0 where
  pub date : ℕ
  pub year : ℕ
  pub month : ℕ
  pub week : ℕ
  pub opens : Dict Decimal
  pub closes : Dict Decimal

-- The default cadence, that of `week_end_dates`, and that of the yearly benchmark.
pub data Period : Type 0 where
  by_month by_week by_year : Period

abbrev pub key_of : Period → Row → ℕ
key_of by_month r = r.month
key_of by_week r = r.week
key_of by_year r = r.year

abbrev pub in_period : Period → ℕ → List Row → Bool
in_period period k [] = false
in_period period k (r ∷ rs) = k == key_of period r || in_period period k rs

-- `s.groupby(…).last()`: the last date of each group.
unfoldable pub period_ends : Period → List Row → List ℕ
period_ends period [] = []
period_ends period (r ∷ rs) =
    let rest = period_ends period rs in
    if in_period period (key_of period r) rs then rest else r.date ∷ rest

-- `ts in rebal_dates`
abbrev pub on_dates : ℕ → List ℕ → Bool
on_dates d [] = false
on_dates d (e ∷ es) = d == e || on_dates d es

abbrev pub bar_of : Row → Bool → Bar
bar_of r due = record { date = r.date; opens = r.opens; closes = r.closes; rebalances = due }

unfoldable pub bars_on : List ℕ → List Row → List Bar
bars_on dates [] = []
bars_on dates (r ∷ rs) = bar_of r (on_dates r.date dates) ∷ bars_on dates rs

-- `Backtester.run`, with the dates of the strategy for the index of these frames.
unfoldable pub run_frames : BacktestConfig → Decision → ℕ → Period → List Row → List BarRow
run_frames cfg strategy warmup period rows =
    run_backtest cfg strategy warmup (bars_on (period_ends period rows) rows)
