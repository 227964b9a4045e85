-- ===== src/Portfolio.antt =====
-- src/tqt/portfolio.py: the plan and its blended target weights. What a sleeve's strategy answers on
-- the local data is a parameter; loading the plan from its file and the texts are left out.
pub mod Exposure
mod Tests
use toss_api_quant_trading.Prelude.{
  String, List, [], Option, Bool, ◌∷◌, false, none, if◌then◌else◌, ◌||◌, some,
}
use toss_api_quant_trading.Prelude.Dict.{Dict, insert, values, get_or}
use toss_api_quant_trading.Decimal.{Decimal, sum_from, nat, ◌⊖◌, ◌⊗◌, lt, ◌⊕◌, frac, ◌⊘◌}

pub record Allocation : Type 0 where
  pub name : String
  pub weight : Decimal

-- What one sleeve's strategy brings: no data, an exception, or weights with their reason.
pub data SleeveAnswer : Type 0 where
  no_data no_data_before strategy_error : SleeveAnswer
  weights_for : Dict Decimal → String → SleeveAnswer

pub data Reason : Type 0 where
  lacks_data lacks_data_before failed_strategy : Reason
  given : String → Reason

abbrev pub weight_list : List Allocation → List Decimal
weight_list [] = []
weight_list (a ∷ rest) = a.weight ∷ weight_list rest

abbrev pub some_negative : List Allocation → Bool
some_negative [] = false
some_negative (a ∷ rest) = lt a.weight (nat 0) || some_negative rest

-- `PortfolioPlan.__post_init__`: `none` is its ValueError.
unfoldable pub plan_post_init : List Allocation → Option (List Allocation)
plan_post_init [] = none
plan_post_init (a ∷ rest) =
    if lt (frac 10001 9999) (sum_from (nat 0) (weight_list (a ∷ rest)))
    then none
    else if some_negative (a ∷ rest)
    then none
    else some (a ∷ rest)

unfoldable pub cash_weight : List Allocation → Decimal
cash_weight plan = nat 1 ⊖ sum_from (nat 0) (weight_list plan)

-- `for sym, w in sleeve_targets.items()`
unfoldable pub add_targets : Decimal → Dict Decimal → Dict Decimal → Dict Decimal
add_targets weight [] combined = combined
add_targets weight ((sym, w) ∷ rest) combined =
    add_targets weight rest (insert sym (get_or sym (nat 0) combined ⊕ w ⊗ weight) combined)

-- One allocation: the combined weights and the reasons after it.
abbrev pub add_answer :
    Allocation → SleeveAnswer → Dict Decimal → Dict Reason → Dict Decimal × Dict Reason
add_answer a no_data combined reasons = (combined, insert a.name lacks_data reasons)
add_answer a no_data_before combined reasons = (combined, insert a.name lacks_data_before reasons)
add_answer a strategy_error combined reasons = (combined, insert a.name failed_strategy reasons)
add_answer a (weights_for targets why) combined reasons =
    (add_targets a.weight targets combined, insert a.name (given why) reasons)

unfoldable pub combine :
    (Allocation → SleeveAnswer)
    → List Allocation
    → Dict Decimal
    → Dict Reason
    → Dict Decimal × Dict Reason
combine answer [] combined reasons = (combined, reasons)
combine answer (a ∷ rest) combined reasons =
    let (combined', reasons') = add_answer a (answer a) combined reasons in
    combine answer rest combined' reasons'

unfoldable pub scale_by : Decimal → Dict Decimal → Dict Decimal
scale_by k [] = []
scale_by k ((sym, v) ∷ rest) = (sym, v ⊗ k) ∷ scale_by k rest

-- The guard against more than 100% invested.
unfoldable pub capped : Dict Decimal → Dict Decimal
capped combined =
    let total = sum_from (nat 0) (values combined) in
    if lt (nat 1) total then scale_by (nat 1 ⊘ total) combined else combined

unfoldable pub target_weights :
    (Allocation → SleeveAnswer) → List Allocation → Dict Decimal × Dict Reason
target_weights answer plan =
    let (combined, reasons) = combine answer plan [] [] in (capped combined, reasons)
