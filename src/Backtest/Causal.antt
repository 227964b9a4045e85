-- ===== src/Backtest/Causal.antt =====
-- The rows of a backtest, and the bars that come after them.
use toss_api_quant_trading.Prelude.{
  ℕ, Bool, List, take, length, ◌≡◌, ◌++◌, ◌∷◌, ap, false, true, [], refl,
}
use toss_api_quant_trading.Backtest.Run.{
  Decision, run_backtest, bar_step, run_bars, Bar, RunState, first_state, is_more,
}
use toss_api_quant_trading.Backtest.Config.{BacktestConfig}

module _ (cfg : BacktestConfig) (strategy : Decision) (warmup : ℕ) where
  bar_step-row :
      (b c : Bool) (bar : Bar) (st : RunState)
      → (bar_step cfg strategy warmup b bar st).0 ≡ (bar_step cfg strategy warmup c bar st).0
  unfolding bar_step
  bar_step-row b c bar st = refl

  run_bars-prefix :
      (xs ys : List Bar) (st : RunState)
      → take (length xs) (run_bars cfg strategy warmup (xs ++ ys) st)
        ≡ run_bars cfg strategy warmup xs st
  unfolding run_bars
  run_bars-prefix [] ys st = refl
  run_bars-prefix (x ∷ []) ys st = ap (λ r. r ∷ []) (bar_step-row (is_more ys) false x st)
  run_bars-prefix (x ∷ y ∷ xs) ys st =
      let (row, st') = bar_step cfg strategy warmup true x st in
      ap (λ rows. row ∷ rows) (run_bars-prefix (y ∷ xs) ys st')

  -- A backtest on longer data reports, for the bars of the shorter data, exactly the same equity,
  -- turnover, weights and fills: no row depends on a bar that comes after it.
  pub run_backtest-prefix :
      (bars later : List Bar)
      → take (length bars) (run_backtest cfg strategy warmup (bars ++ later))
        ≡ run_backtest cfg strategy warmup bars
  unfolding run_backtest
  run_backtest-prefix bars later = run_bars-prefix bars later (first_state cfg)
