-- ===== src/Backtest/Run.antt =====
-- `Backtester.run` of src/tqt/backtest/engine.py, over a list of bars: the rows that both frames
-- have, oldest first. The strategy is a parameter that sees the closes so far, newest first; `none`
-- is an exception.
use toss_api_quant_trading.Costs.{TradeCost}
use toss_api_quant_trading.Backtest.{Book, book_equity, open_book, rebalance_book}
use toss_api_quant_trading.Decimal.{Decimal, nat, lt, ◌⊗◌, ◌⊘◌}
use toss_api_quant_trading.Backtest.Config.{BacktestConfig, Fill}
use toss_api_quant_trading.Prelude.Dict.{Dict, lookup}
use toss_api_quant_trading.Prelude.{
  Option, ℕ, List, Bool, [], some, if◌then◌else◌, ◌∷◌, ◌++◌, false, none, not, ◌||◌, true, ◌+◌, ltb,
}

pub record Bar : Type 0 where
  pub date : ℕ
  pub opens : Dict Decimal
  pub closes : Dict Decimal
  -- `ts in rebal_dates`
  pub rebalances : Bool

abbrev pub Decision : Type 0
Decision = List (Dict Decimal) → Option (Dict Decimal)

-- What a bar adds to the result: its equity, turnover, weights and fills.
pub record BarRow : Type 0 where
  pub date : ℕ
  pub equity : Decimal
  pub turnover : Decimal
  pub weights : Dict Decimal
  pub batch : List Fill
  pub batch_cost : TradeCost

-- The variables of the loop, and the number of bars seen.
pub record RunState : Type 0 where
  pub cash : Decimal
  pub positions : Dict Decimal
  pub pending : Option (Dict Decimal)
  pub history : List (Dict Decimal)
  pub seen_bars : ℕ

abbrev pub first_state : BacktestConfig → RunState
first_state cfg = record {
  cash = cfg.initial_cash;
  positions = [];
  pending = none;
  history = [];
  seen_bars = 0;
}

-- Yesterday's decision, filled at today's open.
abbrev pub at_open :
    BacktestConfig → ℕ → Dict Decimal → Decimal → Dict Decimal → Option (Dict Decimal) → Book
at_open cfg date opens cash positions none = open_book cash positions
at_open cfg date opens cash positions (some targets) =
    rebalance_book cfg date targets opens (book_equity opens positions cash) cash positions

abbrev pub ratio : Decimal → Decimal → Decimal
ratio x equity = if lt (nat 0) equity then x ⊘ equity else nat 0

abbrev pub price_or_zero : Option Decimal → Decimal
price_or_zero none = nat 0
price_or_zero (some px) = px

unfoldable pub book_weights : Dict Decimal → Decimal → Dict Decimal → Dict Decimal
book_weights closes equity [] = []
book_weights closes equity ((sym, qty) ∷ rest) =
    (sym, price_or_zero (lookup sym closes) ⊗ qty ⊘ equity) ∷ book_weights closes equity rest

abbrev pub weight_row : Dict Decimal → Decimal → Dict Decimal → Dict Decimal
weight_row closes equity positions =
    if lt (nat 0) equity then book_weights closes equity positions else []

-- `if targets:`, on what the strategy answered.
abbrev pub decided : Option (Dict Decimal) → Option (Dict Decimal)
decided (some (t ∷ ts)) = some (t ∷ ts)
decided _ = none

-- The decision of a bar. The last bar decides nothing, since no bar is left to fill at.
unfoldable pub decide : Decision → ℕ → Bool → Bool → ℕ → List (Dict Decimal) → Option (Dict Decimal)
decide strategy warmup has_next due i history =
    if not has_next || ltb i warmup || not due then none else decided (strategy history)

-- The body of the loop: the row of the bar, and the variables after it.
unfoldable pub bar_step : BacktestConfig → Decision → ℕ → Bool → Bar → RunState → BarRow × RunState
bar_step cfg strategy warmup has_next bar st =
    let b = at_open cfg bar.date bar.opens st.cash st.positions st.pending in
    let equity = book_equity bar.closes b.holdings b.cash in
    let history = bar.closes ∷ st.history in
    (
      record {
        date = bar.date;
        equity = equity;
        turnover = ratio b.traded equity;
        weights = weight_row bar.closes equity b.holdings;
        batch = b.fills;
        batch_cost = b.batch_cost;
      },
      record {
        cash = b.cash;
        positions = b.holdings;
        pending = decide strategy warmup has_next bar.rebalances st.seen_bars history;
        history = history;
        seen_bars = st.seen_bars + 1;
      },
    )

abbrev pub is_more {ℓ} : {A : Type ℓ} → List A → Bool
is_more [] = false
is_more (x ∷ xs) = true

unfoldable pub run_bars : BacktestConfig → Decision → ℕ → List Bar → RunState → List BarRow
run_bars cfg strategy warmup [] st = []
run_bars cfg strategy warmup (bar ∷ rest) st =
    let (row, st') = bar_step cfg strategy warmup (is_more rest) bar st in
    row ∷ run_bars cfg strategy warmup rest st'

-- `Backtester.run`
unfoldable pub run_backtest : BacktestConfig → Decision → ℕ → List Bar → List BarRow
run_backtest cfg strategy warmup bars = run_bars cfg strategy warmup bars (first_state cfg)

-- The totals of the result, over its rows.
unfoldable pub all_fills : List BarRow → List Fill
all_fills [] = []
all_fills (r ∷ rest) = r.batch ++ all_fills rest
