-- ===== src/Backtest/Config.antt =====
-- src/tqt/backtest/engine.py: the configuration of the backtester, and a fill.
use toss_api_quant_trading.Costs.{CostModel, TradeCost, default_model}
use toss_api_quant_trading.Decimal.{Decimal, nat, frac}
use toss_api_quant_trading.Prelude.{
  Bool, Option, ℕ, List, true, ◌&&◌, some, String, false, none, ◌∷◌, if◌then◌else◌, [],
}
use toss_api_quant_trading.Universe.{Country, Side, kr, us, Asset, Sleeve, all_assets}

pub record BacktestConfig : Type 0 where
  pub initial_cash : Decimal
  pub country : Country
  pub etf_symbols : List String
  pub allow_fractional : Option Bool
  pub rebalance_band : Decimal
  pub min_order_value : Option Decimal
  pub cost_model : CostModel

abbrev pub default_dust : Country → Decimal
default_dust kr = nat 5000
default_dust us = nat 5

abbrev pub given_or : Option Decimal → Decimal → Decimal
given_or none d = d
given_or (some x) d = x

unfoldable pub dust_threshold : BacktestConfig → Decimal
dust_threshold cfg = given_or cfg.min_order_value (default_dust cfg.country)

abbrev pub is_us : Country → Bool
is_us us = true
is_us kr = false

abbrev pub flag_or : Option Bool → Bool → Bool
flag_or none d = d
flag_or (some b) d = b

unfoldable pub fractional : BacktestConfig → Bool
fractional cfg = flag_or cfg.allow_fractional (is_us cfg.country)

unfoldable pub charges_fx : BacktestConfig → Bool
charges_fx cfg = is_us cfg.country && cfg.cost_model.charge_fx_on_us_trades

pub record Fill : Type 0 where
  pub date : ℕ
  pub symbol : String
  pub side : Side
  pub quantity : Decimal
  pub price : Decimal
  pub cost : TradeCost

-- The defaults of the fields, for a country, its ETFs and a cost model.
abbrev pub default_config : Country → List String → CostModel → BacktestConfig
default_config country etfs cost_model = record {
  initial_cash = nat 1000000;
  country = country;
  etf_symbols = etfs;
  allow_fractional = none;
  rebalance_band = frac 1 99;
  min_order_value = none;
  cost_model = cost_model;
}

etfs_of : List Asset → List String
etfs_of [] = []
etfs_of (a ∷ rest) = let later = etfs_of rest in if a.is_etf then a.symbol ∷ later else later

-- `make_config` with no further overrides.
unfoldable pub make_config : Sleeve → Option CostModel → BacktestConfig
unfolding etfs_of
make_config sleeve cost_model =
    default_config sleeve.country (etfs_of (all_assets sleeve)) (model_or cost_model)
  where
    model_or : Option CostModel → CostModel
    model_or none = default_model
    model_or (some m) = m
