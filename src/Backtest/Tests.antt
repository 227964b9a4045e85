-- ===== src/Backtest/Tests.antt =====
-- Backtests of two Korean instruments with the default rates.
use toss_api_quant_trading.Backtest.Cash.{abs_is, zeros}
use toss_api_quant_trading.Backtest.Frames.{Row, by_month, run_frames, period_ends}
use toss_api_quant_trading.Backtest.Blind.{run_frames-prefix}
use toss_api_quant_trading.Decimal.Order.{≤ᵈ_trans}
use toss_api_quant_trading.Backtest.{rebalance_book}
use toss_api_quant_trading.Decimal.Field.{⊗_comm, ⊗_distrib, ⊗_mono, ⊗_nonneg, ⊕_zero}
use toss_api_quant_trading.Backtest.Solvent.{IsFair, rebalance_book-solvent}
use toss_api_quant_trading.Universe.{kr, sell}
use toss_api_quant_trading.Prelude.Dict.{Dict}
use toss_api_quant_trading.Backtest.Config.{BacktestConfig}
use toss_api_quant_trading.Prelude.{
  take, Bool, true, ◌∷◌, length, some, false, if◌then◌else◌, arith, [], none, member, ◌++◌, ◌≡◌,
  Bool-cases, inl, inr, ℕ, List, refl,
}
use toss_api_quant_trading.Decimal.{◌⊗◌, ◌⊕◌, Decimal, nat, frac, ◌≤ᵈ◌, is_zero}
use toss_api_quant_trading.Costs.{
  slippage_rate, total, cost_of, tax_of, regulatory_of, fx_of, default_model, commission_rate,
  sell_tax_rate,
}
use toss_api_quant_trading.Backtest.Run.{Decision}

abbrev kr_config : BacktestConfig
kr_config = record {
  initial_cash = nat 1000000;
  country = kr;
  etf_symbols = "069500" ∷ [];
  allow_fractional = none;
  rebalance_band = frac 1 99;
  min_order_value = none;
  cost_model = default_model;
}

once : (n : Decimal) → nat 1 ⊗ n ≤ᵈ n
unfolding ◌⊗◌
once n = omega arith

-- What a fraction of the notional and another one take.
two_rates : (n c t : Decimal) → nat 0 ≤ᵈ n → c ⊕ t ≤ᵈ nat 1 → n ⊗ c ⊕ n ⊗ t ≤ᵈ n
two_rates n c t h k =
    rw (⊗_comm n c, ⊗_comm n t)
      (≤ᵈ_trans (c ⊗ n ⊕ t ⊗ n) ((c ⊕ t) ⊗ n) n (⊗_distrib c t n).1
        (≤ᵈ_trans ((c ⊕ t) ⊗ n) (nat 1 ⊗ n) n (⊗_mono (c ⊕ t) (nat 1) n h k) (once n)))

rates_fit : (is_etf : Bool) → frac 15 99999 ⊕ (if is_etf then nat 0 else frac 15 9999) ≤ᵈ nat 1
unfolding ◌⊕◌
rates_fit true = omega arith
rates_fit false = omega arith

default_sale :
    (px qty : Decimal) (is_etf : Bool)
    → nat 0 ≤ᵈ px
    → nat 0 ≤ᵈ qty
    → total (cost_of default_model sell kr px qty is_etf false) ≤ᵈ px ⊗ qty
unfolding total cost_of tax_of regulatory_of fx_of commission_rate sell_tax_rate
default_sale px qty is_etf h k =
    let n = px ⊗ qty in
    let pos : nat 0 ≤ᵈ n = ⊗_nonneg px qty h k in
    let rate = if is_etf then nat 0 else frac 15 9999 in
    elim (Bool-cases (is_zero n)) [
      | inl z ↦ rw (abs_is n pos, z, zeros) pos
      | inr z ↦
          rw
            (
              abs_is n pos,
              z,
              ⊕_zero (n ⊗ frac 15 99999 ⊕ n ⊗ rate),
              ⊕_zero (n ⊗ frac 15 99999 ⊕ n ⊗ rate),
              ⊕_zero (n ⊗ frac 15 99999 ⊕ n ⊗ rate),
            )
            (two_rates n (frac 15 99999) rate pos (rates_fit is_etf))
    ]

kr_config-IsFair : IsFair kr_config
unfolding slippage_rate ◌⊗◌
kr_config-IsFair = record {
  rates = record {
    kr_commission = omega arith;
    us_commission = omega arith;
    kr_stock_tax = omega arith;
    kr_etf_tax = omega arith;
    sec_fee = omega arith;
    taf = omega arith;
    fx_spread = omega arith;
    slippage_kr = omega arith;
    slippage_us = omega arith;
  };
  slip = omega arith;
  sale = λ px qty sym h k. default_sale px qty (member sym kr_config.etf_symbols) h k;
}

abbrev prices : Dict Decimal
prices = ("005930", nat 71000) ∷ ("069500", nat 35000) ∷ []

abbrev halves : Dict Decimal
halves = ("005930", frac 1 1) ∷ ("069500", frac 1 1) ∷ []

rebalance_book-solvent_example :
    nat 0 ≤ᵈ (rebalance_book kr_config 1 halves prices (nat 1000000) (nat 1000000) []).cash
rebalance_book-solvent_example =
    rebalance_book-solvent kr_config 1 halves prices (nat 1000000) (nat 1000000) [] kr_config-IsFair
      (omega arith)

abbrev row_on : ℕ → ℕ → Row
row_on day month = record {
  date = day;
  year = 2024;
  month = month;
  week = 1;
  opens = prices;
  closes = prices;
}

abbrev january : List Row
january = row_on 30 1 ∷ row_on 31 1 ∷ []

abbrev february : List Row
february = row_on 32 2 ∷ []

abbrev hold_halves : Decision
hold_halves = λ history. some halves

run_frames-prefix_example :
    take (length january) (run_frames kr_config hold_halves 0 by_month (january ++ february))
    ≡ run_frames kr_config hold_halves 0 by_month january
run_frames-prefix_example =
    run_frames-prefix kr_config hold_halves 0 by_month january february (omega arith)

-- The month's last date is known once the next month has begun, and the data's last date always is.
test_month_ends :
    (period_ends by_month january ≡ 31 ∷ [])
    × (period_ends by_month (january ++ february) ≡ 31 ∷ 32 ∷ [])
unfolding period_ends
test_month_ends = (refl, refl)
