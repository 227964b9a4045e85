-- ===== src/Strategy/Tests.antt =====
-- The strategies on a sleeve of two risk assets and a safe one, with three closes each.
use toss_api_quant_trading.Decimal.{nat, sum_from, inverse, ◌⊕◌, ◌⊖◌, ◌⊗◌, ◌⊘◌}
use toss_api_quant_trading.Strategy.Allocations.{dual_momentum-IsAllocation}
use toss_api_quant_trading.Universe.{
  Sleeve, equity_role, Role, Asset, us, usd, bond, risk_symbols, safe_symbols,
}
use toss_api_quant_trading.Strategy.{
  Frame, faber, dual_momentum, in_frame, fill_up, assign, update, safe_weights, scores_of,
  newest_first,
}
use toss_api_quant_trading.Strategy.Weights.{IsAllocation}
use toss_api_quant_trading.Prelude.{String, some, ◌∷◌, none, [], arith, true, map, ◌≡◌, refl}

abbrev etf : String → Role → Asset
etf symbol role = record {
  symbol = symbol;
  country = us;
  currency = usd;
  role = role;
  is_etf = true;
}

abbrev sleeve : Sleeve
sleeve = record {
  key = "us-global-etf";
  risk = etf "SPY" equity_role ∷ etf "EFA" equity_role ∷ [];
  safe = etf "SHY" bond ∷ [];
  country = us;
}

abbrev closes : Frame
closes =
    ("SPY", some (nat 100) ∷ some (nat 101) ∷ some (nat 110) ∷ [])
    ∷ ("EFA", some (nat 50) ∷ none ∷ some (nat 40) ∷ [])
    ∷ ("SHY", some (nat 80) ∷ some (nat 80) ∷ some (nat 80) ∷ [])
    ∷ []

-- One asset of two is above its two-day mean, so half goes to the safe asset.
faber_halves : map (λ e. e.0) (faber 2 sleeve closes) ≡ "SPY" ∷ "SHY" ∷ []
unfolding faber in_frame fill_up assign update safe_weights scores_of newest_first risk_symbols
    safe_symbols sum_from inverse ◌⊕◌ ◌⊖◌ ◌⊗◌ ◌⊘◌
faber_halves = refl

dual_momentum-IsAllocation_example : IsAllocation (dual_momentum 2 1 (nat 0) sleeve closes)
dual_momentum-IsAllocation_example =
    dual_momentum-IsAllocation 2 1 (nat 0) sleeve closes (omega arith)
