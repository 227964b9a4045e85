-- ===== src/Metrics/Tax.antt =====
-- `after_tax_summary` of src/tqt/backtest/metrics.py, without the annual rates, which take powers. A
-- curve has a point in every calendar year that it spans.
use toss_api_quant_trading.Decimal.{Decimal, nat, frac, lt, dmax, ◌⊕◌, ◌⊖◌, ◌⊗◌}
use toss_api_quant_trading.Metrics.{Point}
use toss_api_quant_trading.Prelude.{
  String, Option, some, none, List, [], ◌∷◌, if◌then◌else◌, ◌==◌, str_eq,
}

pub data AssetClass : Type 0 where
  kr_domestic_etf kr_foreign_etf us_stock : AssetClass

-- The key of the table of rates; none is the ValueError.
unfoldable pub asset_class_of : String → Option AssetClass
asset_class_of text =
    if str_eq text "kr_domestic_etf"
    then some kr_domestic_etf
    else if str_eq text "kr_foreign_etf"
    then some kr_foreign_etf
    else if str_eq text "us_stock"
    then some us_stock
    else none

abbrev pub tax_rate : AssetClass → Decimal
tax_rate kr_domestic_etf = nat 0
tax_rate kr_foreign_etf = frac 154 999
tax_rate us_stock = frac 22 99

abbrev pub deduction_of : AssetClass → Decimal → Decimal
deduction_of us_stock annual = annual
deduction_of _ annual = nat 0

-- `equity.resample("YE").last()`
unfoldable pub year_ends : List Point → List Decimal
year_ends [] = []
year_ends (p ∷ []) = p.value ∷ []
year_ends (p ∷ q ∷ ps) =
    let rest = year_ends (q ∷ ps) in if p.year == q.year then rest else p.value ∷ rest

abbrev pub last_value : Decimal → List Point → Decimal
last_value v [] = v
last_value v (p ∷ ps) = last_value p.value ps

-- The year ends, or the first and the last value where there are fewer than two of them.
abbrev pub or_ends : Decimal → Decimal → List Decimal → List Decimal
or_ends first last (a ∷ b ∷ rest) = a ∷ b ∷ rest
or_ends first last _ = first ∷ last ∷ []

-- One year's tax on a gain.
unfoldable pub year_tax : Decimal → Decimal → Decimal → Decimal
year_tax rate deduction gain =
    if lt (nat 0) gain then dmax (gain ⊖ deduction) (nat 0) ⊗ rate else nat 0

-- The loop over the year ends: the total gain and the total tax.
unfoldable pub tax_years :
    Decimal → Decimal → Decimal → List Decimal → Decimal × Decimal → Decimal × Decimal
tax_years rate deduction prev [] totals = totals
tax_years rate deduction prev (v ∷ vs) (gross, tax) =
    tax_years rate deduction v vs (gross ⊕ (v ⊖ prev), tax ⊕ year_tax rate deduction (v ⊖ prev))

pub record TaxSummary : Type 0 where
  pub gross_gain : Decimal
  pub estimated_tax : Decimal
  pub net_gain : Decimal

abbrev pub summary_of : Decimal × Decimal → TaxSummary
summary_of (gross, tax) = record { gross_gain = gross; estimated_tax = tax; net_gain = gross ⊖ tax }

-- `after_tax_summary` of a curve with a first point.
unfoldable pub after_tax_summary : AssetClass → Decimal → Point → List Point → TaxSummary
after_tax_summary class annual p ps =
    let yearly = or_ends p.value (last_value p.value ps) (year_ends (p ∷ ps)) in
    summary_of
      (tax_years (tax_rate class) (deduction_of class annual) p.value yearly (nat 0, nat 0))
