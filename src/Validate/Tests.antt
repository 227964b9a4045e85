-- ===== src/Validate/Tests.antt =====
-- Walks over hundreds of days of one instrument.
use toss_api_quant_trading.Prelude.{
  ℕ, zero, suc, ◌+◌, ◌≡◌, List, [], ◌∷◌, some, none, arith, refl, length, ◌++◌, All,
}
use toss_api_quant_trading.Decimal.{nat, frac}
use toss_api_quant_trading.Costs.{default_model}
use toss_api_quant_trading.Universe.{kr}
use toss_api_quant_trading.Backtest.Config.{BacktestConfig}
use toss_api_quant_trading.Backtest.Frames.{Row, by_month}
use toss_api_quant_trading.Backtest.Blind.{IsIndex}
use toss_api_quant_trading.Validate.{
  Setup, Fold, walk_forward, walk_folds, endless, rows_to, stitched, all_returns, one_fold,
}
use toss_api_quant_trading.Validate.Ends.{walk_forward_stuck}
use toss_api_quant_trading.Validate.Stitched.{Rises, StartsLate}
use toss_api_quant_trading.Validate.Folds.{stitched-Rises}

abbrev kr_config : BacktestConfig
kr_config = record {
  initial_cash = nat 1000000;
  country = kr;
  etf_symbols = "069500" ∷ [];
  allow_fractional = none;
  rebalance_band = frac 1 99;
  min_order_value = none;
  cost_model = default_model;
}

abbrev setup : ℕ → Setup
setup test_days = record {
  config = kr_config;
  strategy = λ history. some (("069500", nat 1) ∷ []);
  warmup = 0;
  period = by_month;
  train_days = 64;
  test_days = test_days;
}

abbrev row : ℕ → Row
row d = record {
  date = d;
  year = 2024;
  month = 1;
  week = 1;
  opens = ("069500", nat 35000) ∷ [];
  closes = ("069500", nat 35000) ∷ [];
}

-- A number of days in a row, from a day on.
abbrev days : ℕ → ℕ → List Row
days zero d = []
days (suc n) d = row d ∷ days n (d + 1)

rows_seen : length (rows_to 65 (row 1 ∷ days 69 2)) ≡ 65
unfolding rows_to
rows_seen = refl

walk_forward_stuck_example : walk_forward 1000 (setup 0) (row 1 ∷ days 69 2) ≡ endless
walk_forward_stuck_example =
    walk_forward_stuck (setup 0) (row 1) (days 69 2) 1000 refl (omega arith)
      (omega (arith, rows_seen))

abbrev sample : List Row
sample = row 1 ∷ days 75 2

abbrev two_folds : List Fold
two_folds = one_fold (setup 8) 65 73 sample ++ (one_fold (setup 8) 73 76 sample ++ [])

sample-IsIndex : IsIndex by_month sample
sample-IsIndex = omega arith

walked_sample : walk_folds (setup 8) 76 sample 4 65 ≡ some two_folds
unfolding walk_folds rows_to
walked_sample = refl

stitched-Rises_example :
    (stitched two_folds ≡ all_returns two_folds)
    × Rises 65 (stitched two_folds)
    × All StartsLate two_folds
stitched-Rises_example =
    stitched-Rises (setup 8) 76 sample 4 65 two_folds sample-IsIndex walked_sample
