-- ===== src/Costs/Laws.antt =====
-- What a fill costs, on every branch.
use toss_api_quant_trading.Prelude.{Bool, true, false, ◌≡◌, refl, arith, if◌then◌else◌}
use toss_api_quant_trading.Decimal.{Decimal, nat, ◌⊕◌, ◌⊗◌, ◌≤ᵈ◌, abs, neg, is_zero, dmin}
use toss_api_quant_trading.Decimal.Field.{⊕_nonneg, ⊗_nonneg}
use toss_api_quant_trading.Universe.{Country, kr, us, Side, buy, sell}
use toss_api_quant_trading.Costs.{
  TradeCost, CostModel, no_cost, total, add_cost, commission_rate, slippage_rate, sell_tax_rate,
  tax_of, regulatory_of, fx_of, cost_of, bps,
}

-- No rate is negative.
pub record HasRates (m : CostModel) : Type 0 where
  pub kr_commission : nat 0 ≤ᵈ m.kr_commission_rate
  pub us_commission : nat 0 ≤ᵈ m.us_commission_rate
  pub kr_stock_tax : nat 0 ≤ᵈ m.kr_stock_sell_tax
  pub kr_etf_tax : nat 0 ≤ᵈ m.kr_etf_sell_tax
  pub sec_fee : nat 0 ≤ᵈ m.us_sec_fee_rate
  pub taf : nat 0 ≤ᵈ m.us_taf_per_share
  pub fx_spread : nat 0 ≤ᵈ m.fx_spread_rate
  pub slippage_kr : nat 0 ≤ᵈ m.slippage_bps_kr
  pub slippage_us : nat 0 ≤ᵈ m.slippage_bps_us

-- No part of a cost is negative.
pub record IsCharge (c : TradeCost) : Type 0 where
  pub commission : nat 0 ≤ᵈ c.commission
  pub tax : nat 0 ≤ᵈ c.tax
  pub regulatory : nat 0 ≤ᵈ c.regulatory
  pub slippage : nat 0 ≤ᵈ c.slippage
  pub fx : nat 0 ≤ᵈ c.fx

pub commission_rate_nonneg :
    (m : CostModel) (c : Country) → HasRates m → nat 0 ≤ᵈ commission_rate m c
unfolding commission_rate
commission_rate_nonneg m kr r = r.kr_commission
commission_rate_nonneg m us r = r.us_commission

pub slippage_rate_nonneg : (m : CostModel) (c : Country) → HasRates m → nat 0 ≤ᵈ slippage_rate m c
unfolding slippage_rate
slippage_rate_nonneg m kr r = ⊗_nonneg m.slippage_bps_kr bps r.slippage_kr (omega arith)
slippage_rate_nonneg m us r = ⊗_nonneg m.slippage_bps_us bps r.slippage_us (omega arith)

pub abs_nonneg : (a : Decimal) → nat 0 ≤ᵈ abs a
unfolding abs neg
abs_nonneg a = ground arith

dmin_nonneg : (a b : Decimal) → nat 0 ≤ᵈ a → nat 0 ≤ᵈ b → nat 0 ≤ᵈ dmin a b
unfolding dmin
dmin_nonneg a b h k = ground arith

zero_nonneg : nat 0 ≤ᵈ nat 0
zero_nonneg = omega arith

module _ (m : CostModel) (r : HasRates m) (n : Decimal) (h : nat 0 ≤ᵈ n) where
  commission_nonneg : (c : Country) → nat 0 ≤ᵈ n ⊗ commission_rate m c
  unfolding commission_rate
  commission_nonneg kr = ⊗_nonneg n _ h r.kr_commission
  commission_nonneg us = ⊗_nonneg n _ h r.us_commission

  slippage_nonneg : (c : Country) → nat 0 ≤ᵈ n ⊗ slippage_rate m c
  unfolding slippage_rate
  slippage_nonneg kr = ⊗_nonneg n _ h (⊗_nonneg _ bps r.slippage_kr (omega arith))
  slippage_nonneg us = ⊗_nonneg n _ h (⊗_nonneg _ bps r.slippage_us (omega arith))

  tax_nonneg : (s : Side) (c : Country) (e : Bool) → nat 0 ≤ᵈ tax_of m s c n e
  unfolding tax_of sell_tax_rate
  tax_nonneg buy c e = zero_nonneg
  tax_nonneg sell kr true = ⊗_nonneg n _ h r.kr_etf_tax
  tax_nonneg sell kr false = ⊗_nonneg n _ h r.kr_stock_tax
  tax_nonneg sell us e = ⊗_nonneg n _ h zero_nonneg

  regulatory_nonneg : (s : Side) (c : Country) (q : Decimal) → nat 0 ≤ᵈ regulatory_of m s c n q
  unfolding regulatory_of
  regulatory_nonneg buy c q = zero_nonneg
  regulatory_nonneg sell kr q = zero_nonneg
  regulatory_nonneg sell us q =
      ⊕_nonneg _ _ (⊗_nonneg n _ h r.sec_fee)
        (dmin_nonneg _ _ (⊗_nonneg _ _ (abs_nonneg q) r.taf) (omega arith))

  pub fx_nonneg : (c : Country) → nat 0 ≤ᵈ fx_of m c n
  unfolding fx_of
  fx_nonneg kr = zero_nonneg
  fx_nonneg us = charged m.charge_fx_on_us_trades
    where
      charged : (b : Bool) → nat 0 ≤ᵈ (if b then n ⊗ m.fx_spread_rate else nat 0)
      charged true = ⊗_nonneg n _ h r.fx_spread
      charged false = zero_nonneg

-- With rates of zero or more, no part of the cost of any fill is negative.
pub cost_of-IsCharge :
    (m : CostModel) (side : Side) (country : Country) (price quantity : Decimal)
    (is_etf slip : Bool)
    → HasRates m
    → IsCharge (cost_of m side country price quantity is_etf slip)
unfolding cost_of
cost_of-IsCharge m side country price quantity is_etf slip r =
    charged (is_zero (abs (price ⊗ quantity))) slip
  where
    n : Decimal
    n = abs (price ⊗ quantity)

    h : nat 0 ≤ᵈ n
    h = abs_nonneg (price ⊗ quantity)

    charged :
        (z s : Bool)
        → IsCharge (
            if z then no_cost else record {
              commission = n ⊗ commission_rate m country;
              tax = tax_of m side country n is_etf;
              regulatory = regulatory_of m side country n quantity;
              slippage = if s then n ⊗ slippage_rate m country else nat 0;
              fx = fx_of m country n;
            })
    charged true s = record {
      commission = zero_nonneg;
      tax = zero_nonneg;
      regulatory = zero_nonneg;
      slippage = zero_nonneg;
      fx = zero_nonneg;
    }
    charged false true = record {
      commission = commission_nonneg m r n h country;
      tax = tax_nonneg m r n h side country is_etf;
      regulatory = regulatory_nonneg m r n h side country quantity;
      slippage = slippage_nonneg m r n h country;
      fx = fx_nonneg m r n h country;
    }
    charged false false = record {
      commission = commission_nonneg m r n h country;
      tax = tax_nonneg m r n h side country is_etf;
      regulatory = regulatory_nonneg m r n h side country quantity;
      slippage = zero_nonneg;
      fx = fx_nonneg m r n h country;
    }

pub total_nonneg : (c : TradeCost) → IsCharge c → nat 0 ≤ᵈ total c
unfolding total
total_nonneg c h =
    ⊕_nonneg _ _
      (⊕_nonneg _ _ (⊕_nonneg _ _ (⊕_nonneg _ _ h.commission h.tax) h.regulatory) h.slippage) h.fx

interchange : (a b c d : Decimal) → a ⊕ b ⊕ (c ⊕ d) ≡ a ⊕ c ⊕ (b ⊕ d)
unfolding ◌⊕◌
interchange a b c d = ground arith

-- The total of accumulated costs is the sum of their totals.
pub total-add_cost : (a b : TradeCost) → total (add_cost a b) ≡ total a ⊕ total b
unfolding total add_cost
total-add_cost a b =
    let x = a.commission ⊕ a.tax in
    let y = b.commission ⊕ b.tax in
    rw
      (
        interchange a.commission b.commission a.tax b.tax,
        interchange x y a.regulatory b.regulatory,
        interchange (x ⊕ a.regulatory) (y ⊕ b.regulatory) a.slippage b.slippage,
        interchange (x ⊕ a.regulatory ⊕ a.slippage) (y ⊕ b.regulatory ⊕ b.slippage) a.fx b.fx,
      )
      refl
