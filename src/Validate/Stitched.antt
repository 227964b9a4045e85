-- ===== src/Validate/Stitched.antt =====
-- The stitched returns of the folds.
use mathlib.Core.List.{append-nil}
use toss_api_quant_trading.Prelude.{
  ℕ, suc, List, [], ◌∷◌, ◌≤◌, ◌<◌, leb, ltb, length, arith, inl, inr, Bool-cases, ltb→lt, leb→le,
  All,
}
use toss_api_quant_trading.Decimal.{Decimal}
use toss_api_quant_trading.Backtest.Config.{BacktestConfig}
use toss_api_quant_trading.Backtest.Run.{
  BarRow, Decision, RunState, bar_step, run_bars, run_backtest, first_state,
}
use toss_api_quant_trading.Backtest.Frames.{Row, Period, key_of, run_frames, bars_on, period_ends}
use toss_api_quant_trading.Backtest.Blind.{Follows}
use toss_api_quant_trading.Validate.{
  Setup, Fold, rows_to, after_cut, pct_change, fold_rows, fold_of, one_fold, all_returns,
}

-- The dates go up from a day on and stay within another.
abbrev RisesTo : ℕ → ℕ → List BarRow → Type 0
RisesTo lo hi [] = Unit
RisesTo lo hi (r ∷ rs) = (lo ≤ r.date) × (r.date ≤ hi) × RisesTo (suc r.date) hi rs

abbrev pub Rises : ℕ → List (ℕ × Decimal) → Type 0
Rises lo [] = Unit
Rises lo (e ∷ es) = (lo < e.0) × Rises e.0 es

abbrev pub UpTo : ℕ → List (ℕ × Decimal) → Type 0
UpTo hi [] = Unit
UpTo hi (e ∷ es) = (e.0 ≤ hi) × UpTo hi es

-- The rows up to a day, with dates that go up.
abbrev pub Ordered : ℕ → List Row → Type 0
Ordered lo [] = Unit
Ordered lo (r ∷ rs) = (lo ≤ r.date) × Ordered (suc r.date) rs

Ordered-weaken : (lo lo' : ℕ) (rs : List Row) → lo ≤ lo' → Ordered lo' rs → Ordered lo rs
Ordered-weaken lo lo' [] h g = tt
Ordered-weaken lo lo' (r ∷ rs) h (g, gs) = (omega arith, gs)

Ordered-rows_to : (day lo : ℕ) (rs : List Row) → Ordered lo rs → Ordered lo (rows_to day rs)
unfolding rows_to
Ordered-rows_to day lo [] h = tt
Ordered-rows_to day lo (r ∷ rs) (h, hs) = elim (Bool-cases (leb r.date day)) [
  | inl e ↦ rw e (h, Ordered-rows_to day (suc r.date) rs hs)
  | inr e ↦ rw e (Ordered-rows_to day lo rs (Ordered-weaken lo (suc r.date) rs (omega arith) hs))
]

rows_to-le : (day : ℕ) (rs : List Row) → All (λ r. r.date ≤ day) (rows_to day rs)
unfolding rows_to
rows_to-le day [] = tt
rows_to-le day (r ∷ rs) = elim (Bool-cases (leb r.date day)) [
  | inl e ↦ rw e (leb→le _ _ e, rows_to-le day rs)
  | inr e ↦ rw e (rows_to-le day rs)
]

pub Ordered-index :
    (period : Period) (d k : ℕ) (rs : List Row) → Follows period d k rs → Ordered (suc d) rs
Ordered-index period d k [] h = tt
Ordered-index period d k (r ∷ rs) (h, g, hs) =
    (omega arith, Ordered-index period r.date (key_of period r) rs hs)

module _ (cfg : BacktestConfig) (strategy : Decision) (warmup : ℕ) where
  -- The rows of a backtest have the dates of its bars.
  run_bars-RisesTo :
      (hi : ℕ) (dates : List ℕ) (rs : List Row) (lo : ℕ) (st : RunState)
      → Ordered lo rs
      → All (λ r. r.date ≤ hi) rs
      → RisesTo lo hi (run_bars cfg strategy warmup (bars_on dates rs) st)
  unfolding run_bars bar_step bars_on
  run_bars-RisesTo hi dates [] lo st h a = tt
  run_bars-RisesTo hi dates (r ∷ rs) lo st (h, hs) (a, as') =
      (h, a, run_bars-RisesTo hi dates rs (suc r.date) _ hs as')

RisesTo-weaken :
    (lo lo' hi : ℕ) (rs : List BarRow) → lo ≤ lo' → RisesTo lo' hi rs → RisesTo lo hi rs
RisesTo-weaken lo lo' hi [] h g = tt
RisesTo-weaken lo lo' hi (r ∷ rs) h (g, k, gs) = (omega arith, k, gs)

after_cut_keeps :
    (cut lo hi : ℕ) (rs : List BarRow) → RisesTo lo hi rs → RisesTo lo hi (after_cut cut rs)
unfolding after_cut
after_cut_keeps cut lo hi [] h = tt
after_cut_keeps cut lo hi (r ∷ rs) (h, k, hs) = elim (Bool-cases (ltb cut r.date)) [
  | inl e ↦ rw e (h, k, after_cut_keeps cut (suc r.date) hi rs hs)
  | inr e ↦ rw e (
      RisesTo-weaken lo (suc r.date) hi _ (omega arith) (after_cut_keeps cut (suc r.date) hi rs hs))
]

after_cut-RisesTo :
    (cut lo hi : ℕ) (rs : List BarRow) → RisesTo lo hi rs → RisesTo (suc cut) hi (after_cut cut rs)
unfolding after_cut
after_cut-RisesTo cut lo hi [] h = tt
after_cut-RisesTo cut lo hi (r ∷ rs) (h, k, hs) = elim (Bool-cases (ltb cut r.date)) [
  | inl e ↦ rw e (omega (arith, ltb→lt _ _ e), k, after_cut_keeps cut (suc r.date) hi rs hs)
  | inr e ↦ rw e (after_cut-RisesTo cut (suc r.date) hi rs hs)
]

pct_change-Rises :
    (lo hi : ℕ) (prev : Decimal) (rs : List BarRow)
    → RisesTo (suc lo) hi rs
    → Rises lo (pct_change prev rs) × UpTo hi (pct_change prev rs)
unfolding pct_change
pct_change-Rises lo hi prev [] h = (tt, tt)
pct_change-Rises lo hi prev (r ∷ rs) (h, k, hs) =
    let (a, b) = pct_change-Rises r.date hi r.equity rs hs in ((omega arith, a), (k, b))

-- A fold's returns come after its first test day.
abbrev pub StartsLate : Fold → Type 0
StartsLate f = Rises f.test_start f.returns

-- What the returns of a list of folds are, from a cut to a day.
abbrev pub Spans : ℕ → ℕ → List Fold → Type 0
Spans cut hi fs = Rises cut (all_returns fs) × UpTo hi (all_returns fs) × All StartsLate fs

pub Rises-weaken : (lo lo' : ℕ) (es : List (ℕ × Decimal)) → lo ≤ lo' → Rises lo' es → Rises lo es
Rises-weaken lo lo' [] h g = tt
Rises-weaken lo lo' (e ∷ es) h (g, gs) = (omega arith, gs)

fold_of-Spans :
    (cut hi : ℕ) (result rs : List BarRow)
    → RisesTo (suc cut) hi rs
    → Spans cut hi (fold_of cut result rs)
unfolding all_returns
fold_of-Spans cut hi result [] h = (tt, tt, tt)
fold_of-Spans cut hi result (r ∷ rs) (h, k, hs) =
    let (up, top) = pct_change-Rises r.date hi r.equity rs hs in
    elim (Bool-cases (ltb 5 (length (r ∷ rs)))) [
      | inl e ↦
          rw (e, append-nil (pct_change r.equity rs))
            (Rises-weaken cut r.date _ (omega arith) up, top, (up, tt))
      | inr e ↦ rw e (tt, tt, tt)
    ]

pub one_fold-Spans :
    (s : Setup) (cut te : ℕ) (rows : List Row)
    → Ordered 0 rows
    → Spans cut te (one_fold s cut te rows)
unfolding fold_rows run_frames run_backtest
one_fold-Spans s cut te rows h = fold_of-Spans cut te (fold_rows s te rows) _ (
    after_cut-RisesTo cut 0 te (fold_rows s te rows) (
      run_bars-RisesTo s.config s.strategy s.warmup te (period_ends s.period (rows_to te rows))
        (rows_to te rows) 0 (first_state s.config) (Ordered-rows_to te 0 rows h)
        (rows_to-le te rows)))
