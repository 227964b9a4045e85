-- ===== src/Strategy.antt =====
-- src/tqt/strategy/base.py and momentum.py: the four strategies, as functions from closing prices to
-- weights. A frame has one column per symbol, the oldest close first, and `none` where a close is
-- missing. The reasons' texts are left out, and Backtest.Frames has the rebalance dates; `top_n` and the
-- moving average's length are positive.
pub mod Weights
pub mod Allocations
mod Tests
use toss_api_quant_trading.Prelude.Dict.{Dict, insert, lookup, get_or, values}
use toss_api_quant_trading.Prelude.{
  String, List, ℕ, Option, Bool, if◌then◌else◌, ◌∷◌, none, some, [], false, ltb, suc, leb, true,
  length, max, take, zero, ◌==◌,
}
use toss_api_quant_trading.Universe.{Sleeve, risk_symbols, safe_symbols, codes, codes_lt}
use toss_api_quant_trading.Decimal.{
  Decimal, lt, nat, ◌⊘◌, le, sum_from, ◌⊖◌, ◌⊗◌, ◌⊕◌, quotient, round_half_even,
}

abbrev pub Frame : Type 0
Frame = Dict (List (Option Decimal))

-- `series.dropna()`, the newest close first.
unfoldable pub newest_first : List (Option Decimal) → List Decimal → List Decimal
newest_first [] acc = acc
newest_first (none ∷ xs) acc = newest_first xs acc
newest_first (some x ∷ xs) acc = newest_first xs (x ∷ acc)

abbrev pub element : ℕ → List Decimal → Option Decimal
element n [] = none
element zero (x ∷ xs) = some x
element (suc n) (x ∷ xs) = element n xs

abbrev pub growth : Decimal → Option Decimal → Option Decimal
growth last none = none
growth last (some past) = if le past (nat 0) then none else some (last ⊘ past ⊖ nat 1)

-- `total_return` of a clean series; a missing past is a short history.
unfoldable pub return_over : ℕ → List Decimal → Option Decimal
return_over lookback [] = none
return_over lookback (x ∷ xs) = growth x (element lookback (x ∷ xs))

unfoldable pub total_return : ℕ → List (Option Decimal) → Option Decimal
total_return lookback series = return_over lookback (newest_first series [])

abbrev pub blend :
    Option Decimal → Option Decimal → Option Decimal → Option Decimal → Option Decimal
blend (some r1) (some r3) (some r6) (some r12) =
    some ((nat 12 ⊗ r1 ⊕ nat 4 ⊗ r3 ⊕ nat 2 ⊗ r6 ⊕ nat 1 ⊗ r12) ⊘ nat 19)
blend _ _ _ _ = none

unfoldable pub momentum_13612w : List (Option Decimal) → Option Decimal
momentum_13612w series =
    blend (total_return 21 series) (total_return 63 series) (total_return 126 series)
      (total_return 252 series)

-- A score with its symbol, and `max` and the descending sort of them, ties by the symbol.
abbrev pub Score : Type 0
Score = Decimal × String

abbrev pub score_lt : Score → Score → Bool
score_lt (a, x) (b, y) =
    if lt a b then true else if lt b a then false else codes_lt (codes x) (codes y)

abbrev pub best_of : Score → List Score → Score
best_of s [] = s
best_of s (t ∷ ts) = best_of (if score_lt s t then t else s) ts

abbrev pub insert_score : Score → List Score → List Score
insert_score s [] = s ∷ []
insert_score s (t ∷ ts) = if score_lt s t then t ∷ insert_score s ts else s ∷ t ∷ ts

unfoldable pub sort_scores : List Score → List Score
sort_scores [] = []
sort_scores (s ∷ ss) = insert_score s (sort_scores ss)

abbrev pub with_column : String → Option (List (Option Decimal)) → List String → List String
with_column sym none rest = rest
with_column sym (some _) rest = sym ∷ rest

-- `[s for s in symbols if s in closes.columns]`
unfoldable pub in_frame : Frame → List String → List String
in_frame closes [] = []
in_frame closes (s ∷ ss) = with_column s (lookup s closes) (in_frame closes ss)

abbrev pub add_score : String → Option Decimal → List Score → List Score
add_score sym none rest = rest
add_score sym (some r) rest = (r, sym) ∷ rest

-- The scores of the symbols for which there is one.
unfoldable pub scores_of :
    (List (Option Decimal) → Option Decimal) → Frame → List String → List Score
scores_of score closes [] = []
scores_of score closes (s ∷ ss) =
    add_score s (score (get_or s [] closes)) (scores_of score closes ss)

abbrev pub best_or : String → List Score → String
best_or fallback [] = fallback
best_or fallback (s ∷ ss) = (best_of s ss).1

abbrev pub park :
    Decimal → (List (Option Decimal) → Option Decimal) → Frame → List String → Dict Decimal
park weight score closes [] = []
park weight score closes (c ∷ cs) = (best_or c (scores_of score closes (c ∷ cs)), weight) ∷ []

-- The ratio of `_safe_weights`, which does not test the past close: a close of zero divides by zero
-- in the source.
abbrev pub raw_growth : Decimal → Option Decimal → Option Decimal
raw_growth last none = none
raw_growth last (some past) = some (last ⊘ past ⊖ nat 1)

abbrev pub raw_return : ℕ → List Decimal → Option Decimal
raw_return lookback [] = none
raw_return lookback (x ∷ xs) = raw_growth x (element lookback (x ∷ xs))

-- `_safe_weights`
unfoldable pub safe_weights : Sleeve → Frame → Decimal → Dict Decimal
safe_weights sleeve closes weight =
    if le weight (nat 0)
    then []
    else park weight (λ series. raw_return 126 (newest_first series [])) closes
        (in_frame closes (safe_symbols sleeve))

-- `weights[sym] = each`, for each symbol.
unfoldable pub assign : Decimal → List String → Dict Decimal → Dict Decimal
assign each [] d = d
assign each (s ∷ ss) d = assign each ss (insert s each d)

-- `weights.update(other)`
unfoldable pub update : Dict Decimal → Dict Decimal → Dict Decimal
update [] d = d
update ((s, v) ∷ rest) d = update rest (insert s v d)

-- The picked symbols at `each`, and the rest in the safe asset.
unfoldable pub fill_up : Sleeve → Frame → Decimal → List String → Dict Decimal
fill_up sleeve closes each picked =
    let weights = assign each picked [] in
    let invested = sum_from (nat 0) (values weights) in
    update (safe_weights sleeve closes (nat 1 ⊖ invested)) weights

abbrev pub names_of : List Score → List String
names_of [] = []
names_of ((_, s) ∷ rest) = s ∷ names_of rest

-- `[(r, s) for r, s in … if r > floor]`
abbrev pub above : Decimal → List Score → List Score
above floor [] = []
above floor ((r, s) ∷ rest) = if lt floor r then (r, s) ∷ above floor rest else above floor rest

abbrev pub equal_split : List String → Dict Decimal
equal_split [] = []
equal_split (s ∷ ss) = assign (nat 1 ⊘ nat (length (s ∷ ss))) (s ∷ ss) []

abbrev pub with_closes : Frame → List String → List String
with_closes closes [] = []
with_closes closes (s ∷ ss) = elim (newest_first (get_or s [] closes) []) [
  | [] ↦ with_closes closes ss
  | x ∷ xs ↦ s ∷ with_closes closes ss
]

-- `BuyAndHold.target_weights`
unfoldable pub buy_and_hold : Sleeve → Frame → Dict Decimal
buy_and_hold sleeve closes =
    equal_split (with_closes closes (in_frame closes (risk_symbols sleeve)))

abbrev pub dual_from : Sleeve → Frame → ℕ → Decimal → List Score → Dict Decimal
dual_from sleeve closes top_n floor [] = []
dual_from sleeve closes top_n floor (s ∷ ss) =
    fill_up sleeve closes (nat 1 ⊘ nat top_n)
      (names_of (above floor (take top_n (sort_scores (s ∷ ss)))))

-- `DualMomentum.target_weights`
unfoldable pub dual_momentum : ℕ → ℕ → Decimal → Sleeve → Frame → Dict Decimal
dual_momentum lookback top_n floor sleeve closes =
    dual_from sleeve closes top_n floor
      (scores_of (total_return lookback) closes (in_frame closes (risk_symbols sleeve)))

-- `_breadth_threshold`: Python's `round` to even, and a threshold of zero counts as not given.
unfoldable pub breadth_threshold : Option ℕ → ℕ → ℕ
breadth_threshold (some (suc b)) n = suc b
breadth_threshold _ n = max 1 (quotient round_half_even n 3)

abbrev pub count_falling : List Score → ℕ
count_falling [] = 0
count_falling ((m, _) ∷ rest) = let n = count_falling rest in if le m (nat 0) then suc n else n

abbrev pub vaa_from : Option ℕ → ℕ → Sleeve → Frame → List Score → Dict Decimal
vaa_from breadth_b top_n sleeve closes [] = []
vaa_from breadth_b top_n sleeve closes (s ∷ ss) =
    if leb (breadth_threshold breadth_b (length (s ∷ ss))) (count_falling (s ∷ ss))
    then safe_weights sleeve closes (nat 1)
    else equal_split (names_of (take top_n (sort_scores (s ∷ ss))))

-- `VAA.target_weights`
unfoldable pub vaa : Option ℕ → ℕ → Sleeve → Frame → Dict Decimal
vaa breadth_b top_n sleeve closes =
    vaa_from breadth_b top_n sleeve closes
      (scores_of momentum_13612w closes (in_frame closes (risk_symbols sleeve)))

-- Whether a clean series is above the mean of its last `days` closes.
abbrev pub above_mean : ℕ → List Decimal → Bool
above_mean days [] = false
above_mean days (x ∷ xs) =
    if ltb (length (x ∷ xs)) days
    then false
    else lt (sum_from (nat 0) (take days (x ∷ xs)) ⊘ nat days) x

abbrev pub in_trend : ℕ → Frame → List String → List String
in_trend days closes [] = []
in_trend days closes (s ∷ ss) =
    let rest = in_trend days closes ss in
    if above_mean days (newest_first (get_or s [] closes) []) then s ∷ rest else rest

abbrev pub faber_from : ℕ → Sleeve → Frame → List String → Dict Decimal
faber_from days sleeve closes [] = []
faber_from days sleeve closes (c ∷ cs) =
    fill_up sleeve closes (nat 1 ⊘ nat (length (c ∷ cs))) (in_trend days closes (c ∷ cs))

-- `FaberTiming.target_weights`
unfoldable pub faber : ℕ → Sleeve → Frame → Dict Decimal
faber days sleeve closes = faber_from days sleeve closes (in_frame closes (risk_symbols sleeve))
