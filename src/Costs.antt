-- ===== src/Costs.antt =====
-- src/tqt/backtest/costs.py: the cost of one fill. Rates and money are exact decimals, in the
-- instrument's own currency.
pub mod Laws
use toss_api_quant_trading.Prelude.{
  Bool, true, false, not, ◌&&◌, ◌||◌, Option, none, some, List, [], ◌∷◌, String, str_eq,
  if◌then◌else◌,
}
use toss_api_quant_trading.Decimal.{Decimal, nat, frac, ◌⊕◌, ◌⊗◌, ◌⊘◌, lt, abs, is_zero, dmin}
use toss_api_quant_trading.Universe.{Country, kr, us, Side, buy, sell}

pub record TradeCost : Type 0 where
  pub commission : Decimal
  pub tax : Decimal
  pub regulatory : Decimal
  pub slippage : Decimal
  pub fx : Decimal

-- `TradeCost()`
abbrev pub no_cost : TradeCost
no_cost = record {
  commission = nat 0;
  tax = nat 0;
  regulatory = nat 0;
  slippage = nat 0;
  fx = nat 0;
}

unfoldable pub total : TradeCost → Decimal
total c = c.commission ⊕ c.tax ⊕ c.regulatory ⊕ c.slippage ⊕ c.fx

-- `TradeCost.explicit`
unfoldable pub explicit : TradeCost → Decimal
explicit c = c.commission ⊕ c.tax ⊕ c.regulatory ⊕ c.fx

-- `TradeCost.__add__`
unfoldable pub add_cost : TradeCost → TradeCost → TradeCost
add_cost a b = record {
  commission = a.commission ⊕ b.commission;
  tax = a.tax ⊕ b.tax;
  regulatory = a.regulatory ⊕ b.regulatory;
  slippage = a.slippage ⊕ b.slippage;
  fx = a.fx ⊕ b.fx;
}

pub record CostModel : Type 0 where
  pub kr_commission_rate : Decimal
  pub us_commission_rate : Decimal
  pub kr_stock_sell_tax : Decimal
  pub kr_etf_sell_tax : Decimal
  pub us_sec_fee_rate : Decimal
  pub us_taf_per_share : Decimal
  pub fx_spread_rate : Decimal
  pub charge_fx_on_us_trades : Bool
  pub slippage_bps_kr : Decimal
  pub slippage_bps_us : Decimal

abbrev pub bps : Decimal
bps = frac 1 9999

abbrev pub us_taf_cap : Decimal
us_taf_cap = frac 830 99

-- The defaults of the fields.
abbrev pub default_model : CostModel
default_model = record {
  kr_commission_rate = frac 15 99999;
  us_commission_rate = frac 1 999;
  kr_stock_sell_tax = frac 15 9999;
  kr_etf_sell_tax = nat 0;
  us_sec_fee_rate = frac 278 9999999;
  us_taf_per_share = frac 166 999999;
  fx_spread_rate = frac 1 999;
  charge_fx_on_us_trades = true;
  slippage_bps_kr = nat 10;
  slippage_bps_us = nat 5;
}

abbrev is_negative : Decimal → Bool
is_negative a = lt a (nat 0)

-- `CostModel.__post_init__`: `none` is its ValueError.
unfoldable pub post_init : CostModel → Option CostModel
post_init m =
    if is_negative m.kr_commission_rate
      || is_negative m.us_commission_rate
      || is_negative m.fx_spread_rate
      || is_negative m.slippage_bps_kr
      || is_negative m.slippage_bps_us
    then none
    else some m

-- One entry of the commissions API; the market country is a text of the server.
abbrev pub Commission : Type 0
Commission = String × Decimal

-- The loop of `CostModel.from_api`: the last entry of a country counts, other countries are skipped.
calibrate : List Commission → CostModel → CostModel
calibrate [] m = m
calibrate ((country, rate) ∷ cs) m = calibrate cs (
    if str_eq country "KR"
    then record m { kr_commission_rate = rate }
    else if str_eq country "US"
    then record m { us_commission_rate = rate }
    else m)

-- `CostModel.from_api(client)` with no overrides.
unfoldable pub from_api : List Commission → Option CostModel
unfolding calibrate
from_api commissions = post_init (calibrate commissions default_model)

unfoldable pub commission_rate : CostModel → Country → Decimal
commission_rate m kr = m.kr_commission_rate
commission_rate m us = m.us_commission_rate

unfoldable pub slippage_rate : CostModel → Country → Decimal
slippage_rate m kr = m.slippage_bps_kr ⊗ bps
slippage_rate m us = m.slippage_bps_us ⊗ bps

unfoldable pub sell_tax_rate : CostModel → Country → Bool → Decimal
sell_tax_rate m us is_etf = nat 0
sell_tax_rate m kr is_etf = if is_etf then m.kr_etf_sell_tax else m.kr_stock_sell_tax

-- The tax of a fill.
unfoldable pub tax_of : CostModel → Side → Country → Decimal → Bool → Decimal
tax_of m buy country notional is_etf = nat 0
tax_of m sell country notional is_etf = notional ⊗ sell_tax_rate m country is_etf

-- The SEC fee and the capped trading activity fee of a US sell.
unfoldable pub regulatory_of : CostModel → Side → Country → Decimal → Decimal → Decimal
regulatory_of m buy country notional quantity = nat 0
regulatory_of m sell kr notional quantity = nat 0
regulatory_of m sell us notional quantity =
    notional ⊗ m.us_sec_fee_rate ⊕ dmin (abs quantity ⊗ m.us_taf_per_share) us_taf_cap

unfoldable pub fx_of : CostModel → Country → Decimal → Decimal
fx_of m kr notional = nat 0
fx_of m us notional = if m.charge_fx_on_us_trades then notional ⊗ m.fx_spread_rate else nat 0

unfoldable pub cost_of : CostModel → Side → Country → Decimal → Decimal → Bool → Bool → TradeCost
cost_of m side country price quantity is_etf include_slippage =
    let notional = abs (price ⊗ quantity) in
    if is_zero notional then no_cost else record {
      commission = notional ⊗ commission_rate m country;
      tax = tax_of m side country notional is_etf;
      regulatory = regulatory_of m side country notional quantity;
      slippage = if include_slippage then notional ⊗ slippage_rate m country else nat 0;
      fx = fx_of m country notional;
    }

unfoldable pub round_trip_bps : CostModel → Country → Bool → Decimal
round_trip_bps m country is_etf =
    let price = nat 10000 in
    let qty = nat 100 in
    let bought = cost_of m buy country price qty is_etf true in
    let sold = cost_of m sell country price qty is_etf true in
    (total bought ⊕ total sold) ⊘ (price ⊗ qty) ⊘ bps
