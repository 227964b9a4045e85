-- ===== src/Metrics/Tests.antt =====
-- A curve that falls by a fifth and recovers.
use toss_api_quant_trading.Prelude.{[], ◌∷◌, ◌≡◌, arith, refl, List, some}
use toss_api_quant_trading.Decimal.{nat, ◌≈◌, ◌⊖◌, ◌⊗◌, ◌⊘◌, inverse, neg, frac, dmax}
use toss_api_quant_trading.Metrics.{
  Point, max_drawdown, drawdown_details, drawdown_series, drawdown_from, lowest, up_to, since,
  highest, underwater,
}
use toss_api_quant_trading.Metrics.Drawdown.{IsDepth, Falls, NoWorse, max_drawdown-Falls}

abbrev top : Point
top = record { day = 100; year = 2023; month = 12; value = nat 1000 }

abbrev bottom : Point
bottom = record { day = 110; year = 2024; month = 1; value = nat 800 }

abbrev regained : Point
regained = record { day = 130; year = 2024; month = 1; value = nat 1100 }

abbrev curve : List Point
curve = top ∷ bottom ∷ regained ∷ []

max_drawdown-Falls_example :
    IsDepth (max_drawdown curve)
    × Falls (max_drawdown curve) curve
    × NoWorse (max_drawdown curve) curve
max_drawdown-Falls_example =
    max_drawdown-Falls top bottom (regained ∷ []) (omega arith, (omega arith, (omega arith, tt)))

test_depth : max_drawdown curve ≈ neg (frac 1 4)
unfolding max_drawdown drawdown_series drawdown_from lowest ◌⊖◌ ◌⊗◌ ◌⊘◌ inverse dmax neg
test_depth = (omega arith, omega arith)

test_longest : (drawdown_details curve).longest_days ≡ 20
unfolding drawdown_details drawdown_series drawdown_from underwater ◌⊖◌ ◌⊗◌ ◌⊘◌ inverse dmax neg
test_longest = refl

test_recovery : (drawdown_details curve).recovery_date ≡ some 130
unfolding drawdown_details drawdown_series drawdown_from lowest up_to since highest ◌⊖◌ ◌⊗◌ ◌⊘◌
    inverse dmax neg
test_recovery = refl
