-- ===== src/Metrics.antt =====
-- src/tqt/backtest/metrics.py: drawdowns, monthly returns and the tax estimate of an equity curve,
-- which is a list of points with increasing days and no missing value. `summarize` and `compare`,
-- which tabulate the statistics, are left out.
pub mod Drawdown
pub mod Spans
pub mod Tax
pub mod Taxed
pub mod Returns
pub mod Normal
pub mod Deflated
mod Tests
use toss_api_quant_trading.Prelude.{
  ℕ, Bool, Option, some, none, List, [], ◌∷◌, true, false, if◌then◌else◌, ◌-◌, max, ltb, ◌==◌, ◌&&◌,
  length, leb,
}
use toss_api_quant_trading.Decimal.{Decimal, nat, frac, neg, lt, le, dmin, dmax, ◌⊕◌, ◌⊖◌, ◌⊗◌, ◌⊘◌}

-- A day number with its calendar year and month, and the equity.
pub record Point : Type 0 where
  pub day : ℕ
  pub year : ℕ
  pub month : ℕ
  pub value : Decimal

-- `equity / equity.cummax() - 1`, with the days, from the peak so far.
unfoldable pub drawdown_from : Decimal → List Point → List (ℕ × Decimal)
drawdown_from peak [] = []
drawdown_from peak (p ∷ ps) =
    let peak' = dmax peak p.value in (p.day, p.value ⊘ peak' ⊖ nat 1) ∷ drawdown_from peak' ps

unfoldable pub drawdown_series : List Point → List (ℕ × Decimal)
drawdown_series [] = []
drawdown_series (p ∷ ps) = drawdown_from p.value (p ∷ ps)

-- The first entry that is lowest: `min` and `idxmin` of the series.
abbrev pub deeper : ℕ × Decimal → ℕ × Decimal → ℕ × Decimal
deeper (day, x) (d, y) = if lt y x then (d, y) else (day, x)

unfoldable pub lowest : ℕ × Decimal → List (ℕ × Decimal) → ℕ × Decimal
lowest best [] = best
lowest best (x ∷ rest) = lowest (deeper best x) rest

abbrev pub trough_of : List (ℕ × Decimal) → ℕ × Decimal
trough_of [] = (0, nat 0)
trough_of (x ∷ xs) = lowest x xs

unfoldable pub max_drawdown : List Point → Decimal
max_drawdown (p ∷ q ∷ ps) = (trough_of (drawdown_series (p ∷ q ∷ ps))).1
max_drawdown _ = nat 0

-- `equity.loc[:day]` and `equity.loc[day:]`
unfoldable pub up_to : ℕ → List Point → List Point
up_to day [] = []
up_to day (p ∷ ps) = let rest = up_to day ps in if leb p.day day then p ∷ rest else rest

unfoldable pub since : ℕ → List Point → List Point
since day [] = []
since day (p ∷ ps) = let rest = since day ps in if leb day p.day then p ∷ rest else rest

-- The first point that is highest: `idxmax`.
abbrev pub higher : Point → Point → Point
higher best p = if lt best.value p.value then p else best

unfoldable pub highest : Point → List Point → Point
highest best [] = best
highest best (p ∷ ps) = highest (higher best p) ps

abbrev pub peak_of : List Point → Option Point
peak_of [] = none
peak_of (p ∷ ps) = some (highest p ps)

-- `dd < -1e-12`
abbrev pub is_under : Decimal → Bool
is_under x = lt x (neg (frac 1 999999999999))

-- The loop over the days, with the longest stretch so far and the start of the present one. A
-- stretch that has not ended is measured to the last day.
abbrev pub step_start : Bool → ℕ → Option ℕ → Option ℕ
step_start true day none = some day
step_start true day (some start) = some start
step_start false day start = none

abbrev pub step_longest : Bool → ℕ → Option ℕ → ℕ → ℕ
step_longest false day (some start) longest = max longest (day - start)
step_longest _ day _ longest = longest

abbrev pub close_run : Option ℕ → ℕ → ℕ → ℕ
close_run none last longest = longest
close_run (some start) last longest = max longest (last - start)

unfoldable pub underwater : List (ℕ × Decimal) → ℕ → Option ℕ → ℕ → ℕ
underwater [] last start longest = close_run start last longest
underwater ((day, x) ∷ rest) last start longest =
    underwater rest day (step_start (is_under x) day start)
      (step_longest (is_under x) day start longest)

abbrev pub first_recovered : Decimal → List Point → Option ℕ
first_recovered level [] = none
first_recovered level (p ∷ ps) =
    let later = first_recovered level ps in if le level p.value then some p.day else later

pub record DrawdownDetails : Type 0 where
  pub depth : Decimal
  pub peak_date : Option ℕ
  pub trough_date : Option ℕ
  pub recovery_date : Option ℕ
  pub longest_days : ℕ

abbrev pub no_drawdown : DrawdownDetails
no_drawdown = record {
  depth = nat 0;
  peak_date = none;
  trough_date = none;
  recovery_date = none;
  longest_days = 0;
}

abbrev pub day_of : Option Point → Option ℕ
day_of none = none
day_of (some p) = some p.day

abbrev pub recovery : Option Point → List Point → Option ℕ
recovery none rest = none
recovery (some p) rest = first_recovered p.value rest

abbrev pub details : List Point → List (ℕ × Decimal) → DrawdownDetails
details equity dd =
    let (trough, depth) = trough_of dd in
    let peak = peak_of (up_to trough equity) in
    record {
      depth = depth;
      peak_date = day_of peak;
      trough_date = some trough;
      recovery_date = recovery peak (since trough equity);
      longest_days = underwater dd 0 none 0;
    }

unfoldable pub drawdown_details : List Point → DrawdownDetails
drawdown_details (p ∷ q ∷ ps) = details (p ∷ q ∷ ps) (drawdown_series (p ∷ q ∷ ps))
drawdown_details _ = no_drawdown
