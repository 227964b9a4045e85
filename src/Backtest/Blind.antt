-- ===== src/Backtest/Blind.antt =====
-- Backtests on shorter and longer frames, with the rebalance dates of each.
use toss_api_quant_trading.Prelude.{
  ℕ, Bool, List, [], ◌∷◌, ◌++◌, ◌≡◌, ◌≤◌, ◌<◌, true, false, not, ◌==◌, refl, arith, take, length,
  ap, inl, inr, Bool-cases,
}
use toss_api_quant_trading.Backtest.Config.{BacktestConfig}
use toss_api_quant_trading.Backtest.Run.{
  Bar, Decision, RunState, bar_step, run_bars, run_backtest, first_state, is_more,
}
use toss_api_quant_trading.Backtest.Frames.{
  Row, Period, key_of, in_period, period_ends, on_dates, bar_of, bars_on, run_frames,
}

-- The dates go up, and the periods do not go back.
abbrev pub Follows : Period → ℕ → ℕ → List Row → Type 0
Follows period date key [] = Unit
Follows period date key (r ∷ rs) =
    (date < r.date) × (key ≤ key_of period r) × Follows period r.date (key_of period r) rs

abbrev pub IsIndex : Period → List Row → Type 0
IsIndex period [] = Unit
IsIndex period (r ∷ rs) = Follows period r.date (key_of period r) rs

-- The bars, each marked by what comes after it.
marked : Period → List Row → List Bar
marked period [] = []
marked period (r ∷ rs) = bar_of r (not (in_period period (key_of period r) rs)) ∷ marked period rs

Follows-tail :
    (period : Period) (d k : ℕ) (rs : List Row) → Follows period d k rs → IsIndex period rs
Follows-tail period d k [] h = tt
Follows-tail period d k (r ∷ rs) h = h.2

-- An earlier date is none of the ends.
ends-later :
    (period : Period) (d d' k : ℕ) (rs : List Row)
    → d ≤ d'
    → Follows period d' k rs
    → on_dates d (period_ends period rs) ≡ false
unfolding period_ends
ends-later period d d' k [] le h = refl
ends-later period d d' k (r ∷ rs) le (h, g, hs) =
    let ih = ends-later period d r.date (key_of period r) rs (omega arith) hs in ground arith

-- The mark of a date by the whole index is that by a longer one.
on_dates-skip :
    (period : Period) (d : ℕ) (r : Row) (rs : List Row)
    → r.date < d
    → on_dates d (period_ends period (r ∷ rs)) ≡ on_dates d (period_ends period rs)
unfolding period_ends
on_dates-skip period d r rs h = ground arith

bars_on-skip :
    (period : Period) (r : Row) (rs xs : List Row) (k : ℕ)
    → Follows period r.date k xs
    → bars_on (period_ends period (r ∷ rs)) xs ≡ bars_on (period_ends period rs) xs
unfolding bars_on
bars_on-skip period r rs [] k h = refl
bars_on-skip period r rs (x ∷ xs) k (h, g, hs) = rw (on_dates-skip period x.date r rs h) (
    ap (λ bs. bar_of x (on_dates x.date (period_ends period rs)) ∷ bs)
      (bars_on-skip period r rs xs k (weaken xs hs)))
  where
    weaken :
        (ys : List Row) → Follows period x.date (key_of period x) ys → Follows period r.date k ys
    weaken [] f = tt
    weaken (y ∷ ys) (a, b, c) = (omega arith, omega arith, c)

on_dates-first :
    (period : Period) (r : Row) (rs : List Row)
    → Follows period r.date (key_of period r) rs
    → on_dates r.date (period_ends period (r ∷ rs)) ≡ not (in_period period (key_of period r) rs)
unfolding period_ends
on_dates-first period r rs h =
    let late = ends-later period r.date r.date (key_of period r) rs (omega arith) h in
    elim (Bool-cases (in_period period (key_of period r) rs)) [
      | inl e ↦ rw e late
      | inr e ↦ rw e (ground arith)
    ]

bars_on-marked :
    (period : Period) (rs : List Row)
    → IsIndex period rs
    → bars_on (period_ends period rs) rs ≡ marked period rs
unfolding bars_on marked
bars_on-marked period [] h = refl
bars_on-marked period (r ∷ rs) h =
    let ih = bars_on-marked period rs (Follows-tail period r.date (key_of period r) rs h) in
    rw (on_dates-first period r rs h, bars_on-skip period r rs rs (key_of period r) h, ih) refl

-- A period that the next row has left does not come back.
in_period-past :
    (period : Period) (d k k' : ℕ) (rs : List Row)
    → k < k'
    → Follows period d k' rs
    → in_period period k rs ≡ false
in_period-past period d k k' [] lt h = refl
in_period-past period d k k' (r ∷ rs) lt (h, g, hs) =
    let ih = in_period-past period r.date k (key_of period r) rs (omega arith) hs in ground arith

-- Whether a row is the last of its period is settled by the next row.
in_period-next :
    (period : Period) (k : ℕ) (y : Row) (xs ys : List Row)
    → k ≤ key_of period y
    → Follows period y.date (key_of period y) (xs ++ ys)
    → Follows period y.date (key_of period y) xs
    → in_period period k (y ∷ xs ++ ys) ≡ in_period period k (y ∷ xs)
in_period-next period k y xs ys le h g = elim (Bool-cases (k == key_of period y)) [
  | inl e ↦ rw e refl
  | inr e ↦
      let below : k < key_of period y = ground arith in
      rw
        (
          e,
          in_period-past period y.date k (key_of period y) (xs ++ ys) below h,
          in_period-past period y.date k (key_of period y) xs below g,
        )
        refl
]

Follows-prefix :
    (period : Period) (d k : ℕ) (xs ys : List Row)
    → Follows period d k (xs ++ ys)
    → Follows period d k xs
Follows-prefix period d k [] ys h = tt
Follows-prefix period d k (x ∷ xs) ys (h, g, hs) =
    (h, g, Follows-prefix period x.date (key_of period x) xs ys hs)

IsIndex-prefix :
    (period : Period) (xs ys : List Row) → IsIndex period (xs ++ ys) → IsIndex period xs
IsIndex-prefix period [] ys h = tt
IsIndex-prefix period (x ∷ xs) ys h = Follows-prefix period x.date (key_of period x) xs ys h

module _ (cfg : BacktestConfig) (strategy : Decision) (warmup : ℕ) (period : Period) where
  bar_step-marks :
      (b c m n : Bool) (r : Row) (st : RunState)
      → (bar_step cfg strategy warmup b (bar_of r m) st).0
        ≡ (bar_step cfg strategy warmup c (bar_of r n) st).0
  unfolding bar_step
  bar_step-marks b c m n r st = refl

  marked-prefix :
      (xs ys : List Row) (st : RunState)
      → IsIndex period (xs ++ ys)
      → take (length xs) (run_bars cfg strategy warmup (marked period (xs ++ ys)) st)
        ≡ run_bars cfg strategy warmup (marked period xs) st
  unfolding run_bars marked
  marked-prefix [] ys st h = refl
  marked-prefix (x ∷ []) ys st h =
      ap (λ r. r ∷ [])
        (bar_step-marks (is_more (marked period ys)) false
          (not (in_period period (key_of period x) ys)) true x st)
  marked-prefix (x ∷ y ∷ xs) ys st (h, g, hs) =
      let short = Follows-prefix period y.date (key_of period y) xs ys hs in
      let same = in_period-next period (key_of period x) y xs ys g hs short in
      rw same (
        let (row, st') =
          bar_step cfg strategy warmup true
            (bar_of x (not (in_period period (key_of period x) (y ∷ xs)))) st in
        ap (λ rows. row ∷ rows) (marked-prefix (y ∷ xs) ys st' hs))

  -- No look-ahead, rebalance dates included: a backtest on longer frames, whose month, week or year
  -- ends are found on the longer index, reports for the rows of the shorter frames exactly what a
  -- backtest on these alone reports. The dates go up and the periods do not go back.
  pub run_frames-prefix :
      (rows later : List Row)
      → IsIndex period (rows ++ later)
      → take (length rows) (run_frames cfg strategy warmup period (rows ++ later))
        ≡ run_frames cfg strategy warmup period rows
  unfolding run_frames run_backtest
  run_frames-prefix rows later h =
      rw
        (
          bars_on-marked period (rows ++ later) h,
          bars_on-marked period rows (IsIndex-prefix period rows later h),
        )
        (marked-prefix rows later (first_state cfg) h)
