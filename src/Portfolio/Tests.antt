-- ===== src/Portfolio/Tests.antt =====
-- A plan of two sleeves.
use toss_api_quant_trading.Prelude.Dict.{values}
use toss_api_quant_trading.Decimal.{sum_from, frac, nat, ◌⊕◌, ◌≤ᵈ◌}
use toss_api_quant_trading.Portfolio.Exposure.{NonNegative, target_weights-bounded}
use toss_api_quant_trading.Portfolio.{
  plan_post_init, Allocation, target_weights, SleeveAnswer, weights_for,
}
use toss_api_quant_trading.Prelude.{List, ◌∷◌, [], ◌≡◌, some, refl, arith}

abbrev plan : List Allocation
plan =
    record { name = "kr-global-etf:faber"; weight = frac 3 3 }
    ∷ record { name = "us-global-etf:buy-and-hold"; weight = frac 1 3 }
    ∷ []

abbrev answer : Allocation → SleeveAnswer
answer a = weights_for (("SPY", frac 1 1) ∷ ("IEF", frac 1 1) ∷ []) "equal weight"

plan_passes : plan_post_init plan ≡ some plan
unfolding plan_post_init sum_from ◌⊕◌
plan_passes = refl

target_weights-bounded_example :
    NonNegative (target_weights answer plan).0
    × (sum_from (nat 0) (values (target_weights answer plan).0) ≤ᵈ nat 1)
target_weights-bounded_example =
    target_weights-bounded answer plan plan plan_passes (λ a. (omega arith, (omega arith, _)))
