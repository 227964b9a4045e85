-- ===== src/Validate.antt =====
-- `walk_forward` of src/tqt/backtest/validate.py, on the rows that the frames have in common. Dates
-- are day numbers, and the lengths of the windows are in days, as the code computes them from years.
-- The figures of each fold are left out but its dates, its returns and its number of trades.
pub mod Ends
pub mod Stitched
pub mod Folds
pub mod Slices
mod Tests
use toss_api_quant_trading.Prelude.{
  ℕ, zero, suc, Bool, Option, some, none, List, [], ◌∷◌, ◌++◌, ◌+◌, leb, ltb, length, min, true,
  false, if◌then◌else◌, ◌==◌,
}
use toss_api_quant_trading.Decimal.{Decimal, nat, ◌⊕◌, ◌⊖◌, ◌⊗◌, ◌⊘◌}
use toss_api_quant_trading.Backtest.Config.{BacktestConfig, Fill}
use toss_api_quant_trading.Backtest.Run.{BarRow, Decision, all_fills}
use toss_api_quant_trading.Backtest.Frames.{Row, Period, run_frames}

-- What a call passes on: the configuration, the strategy that the factory makes, with its warm-up and
-- the cadence of its rebalances, and the lengths of the windows.
pub record Setup : Type 0 where
  pub config : BacktestConfig
  pub strategy : Decision
  pub warmup : ℕ
  pub period : Period
  pub train_days : ℕ
  pub test_days : ℕ

-- `opens.loc[:day]`, and `eq.loc[eq.index > cut]`
unfoldable pub rows_to : ℕ → List Row → List Row
rows_to day [] = []
rows_to day (r ∷ rs) = let rest = rows_to day rs in if leb r.date day then r ∷ rest else rest

unfoldable pub after_cut : ℕ → List BarRow → List BarRow
after_cut cut [] = []
after_cut cut (r ∷ rs) = let rest = after_cut cut rs in if ltb cut r.date then r ∷ rest else rest

-- `pct_change().dropna()`, with the dates.
unfoldable pub pct_change : Decimal → List BarRow → List (ℕ × Decimal)
pct_change prev [] = []
pct_change prev (r ∷ rs) = (r.date, r.equity ⊘ prev ⊖ nat 1) ∷ pct_change r.equity rs

abbrev pub returns_of : List BarRow → List (ℕ × Decimal)
returns_of [] = []
returns_of (r ∷ rs) = pct_change r.equity rs

pub record Fold : Type 0 where
  pub test_start : ℕ
  pub test_end : ℕ
  pub returns : List (ℕ × Decimal)
  pub n_trades : ℕ

abbrev pub trades_after : ℕ → List Fill → ℕ
trades_after cut [] = 0
trades_after cut (f ∷ fs) =
    let rest = trades_after cut fs in if ltb cut f.date then suc rest else rest

abbrev pub last_date : ℕ → List BarRow → ℕ
last_date d [] = d
last_date d (r ∷ rs) = last_date r.date rs

-- The rows of one fold's backtest, on the frames up to the end of its test window.
unfoldable pub fold_rows : Setup → ℕ → List Row → List BarRow
fold_rows s test_end rows = run_frames s.config s.strategy s.warmup s.period (rows_to test_end rows)

abbrev pub fold_of : ℕ → List BarRow → List BarRow → List Fold
fold_of cut result [] = []
fold_of cut result (r ∷ rs) =
    if ltb 5 (length (r ∷ rs))
    then record {
      test_start = r.date;
      test_end = last_date r.date rs;
      returns = returns_of (r ∷ rs);
      n_trades = trades_after cut (all_fills result);
    }
      ∷ []
    else []

abbrev pub one_fold : Setup → ℕ → ℕ → List Row → List Fold
one_fold s cut test_end rows =
    let result = fold_rows s test_end rows in fold_of cut result (after_cut cut result)

abbrev pub put_before {ℓ} : {A : Type ℓ} → List A → Option (List A) → Option (List A)
put_before xs none = none
put_before xs (some ys) = some (xs ++ ys)

-- The loop over the cuts, on fuel; none where the fuel does not suffice.
unfoldable pub walk_folds : Setup → ℕ → List Row → ℕ → ℕ → Option (List Fold)
walk_folds s end rows zero cut = none
walk_folds s end rows (suc fuel) cut =
    let test_end = min (cut + s.test_days) end in
    let rest = put_before (one_fold s cut test_end rows) (walk_folds s end rows fuel test_end) in
    if ltb cut end
    then if ltb (length (rows_to test_end rows)) 60 then some [] else rest
    else some []

unfoldable pub all_returns : List Fold → List (ℕ × Decimal)
all_returns [] = []
all_returns (f ∷ fs) = f.returns ++ all_returns fs

-- `sort_index()`, where equal dates, whose order pandas leaves open, stay in order, and
-- `duplicated(keep="first")`.
unfoldable pub insert_return : ℕ × Decimal → List (ℕ × Decimal) → List (ℕ × Decimal)
insert_return (d, x) [] = (d, x) ∷ []
insert_return (d, x) ((e, y) ∷ rest) =
    let later = insert_return (d, x) rest in
    if leb d e then (d, x) ∷ (e, y) ∷ rest else (e, y) ∷ later

unfoldable pub sort_index : List (ℕ × Decimal) → List (ℕ × Decimal)
sort_index [] = []
sort_index (r ∷ rs) = insert_return r (sort_index rs)

-- On a sorted list a duplicate stands next to the first of its date.
unfoldable pub drop_duplicates : Option ℕ → List (ℕ × Decimal) → List (ℕ × Decimal)
drop_duplicates seen [] = []
drop_duplicates none ((d, x) ∷ rest) = (d, x) ∷ drop_duplicates (some d) rest
drop_duplicates (some e) ((d, x) ∷ rest) =
    let later = drop_duplicates (some d) rest in if d == e then later else (d, x) ∷ later

unfoldable pub stitched : List Fold → List (ℕ × Decimal)
stitched folds = drop_duplicates none (sort_index (all_returns folds))

-- `initial_cash * (1 + stitched).cumprod()`
unfoldable pub grown : Decimal → List (ℕ × Decimal) → List (ℕ × Decimal)
grown value [] = []
grown value ((d, x) ∷ rest) = let value' = value ⊗ (nat 1 ⊕ x) in (d, value') ∷ grown value' rest

pub data WalkResult : Type 0 where
  no_data too_short endless : WalkResult
  finished : List Fold → List (ℕ × Decimal) → WalkResult

abbrev pub finish_walk : Setup → Option (List Fold) → WalkResult
finish_walk s none = endless
finish_walk s (some []) = too_short
finish_walk s (some (f ∷ fs)) = finished (f ∷ fs) (grown s.config.initial_cash (stitched (f ∷ fs)))

abbrev pub end_date : ℕ → List Row → ℕ
end_date d [] = d
end_date d (r ∷ rs) = end_date r.date rs

-- `walk_forward`, with the fuel for its loop.
unfoldable pub walk_forward : ℕ → Setup → List Row → WalkResult
walk_forward fuel s [] = no_data
walk_forward fuel s (r ∷ rs) =
    finish_walk s (walk_folds s (end_date r.date rs) (r ∷ rs) fuel (r.date + s.train_days))
