-- ===== src/Validate/Slices.antt =====
-- The folds and the backtest on the whole sample.
use mathlib.Core.Path.{subst}
use toss_api_quant_trading.Prelude.{
  ℕ, suc, List, [], ◌∷◌, ◌++◌, ◌<◌, ◌≡◌, leb, length, take, refl, arith, inl, inr, Bool-cases,
  leb→le, leb-false, ap, sym,
}
use toss_api_quant_trading.Backtest.Frames.{Row, run_frames}
use toss_api_quant_trading.Backtest.Blind.{IsIndex, run_frames-prefix}
use toss_api_quant_trading.Validate.{Setup, rows_to, fold_rows}
use toss_api_quant_trading.Validate.Stitched.{Ordered}
use toss_api_quant_trading.Validate.Folds.{index-Ordered}

rows_to-late : (day lo : ℕ) (rs : List Row) → day < lo → Ordered lo rs → rows_to day rs ≡ []
unfolding rows_to
rows_to-late day lo [] l h = refl
rows_to-late day lo (r ∷ rs) l (h, hs) =
    let ih = rows_to-late day (suc r.date) rs (omega arith) hs in
    elim (Bool-cases (leb r.date day)) [
      | inl e ↦ absurd (omega (arith, leb→le _ _ e))
      | inr e ↦ rw e ih
    ]

-- The rows up to a day come first.
rows_to-split :
    (day lo : ℕ) (rs : List Row)
    → Ordered lo rs
    → (later : List Row) × (rows_to day rs ++ later ≡ rs)
unfolding rows_to
rows_to-split day lo [] h = ([], refl)
rows_to-split day lo (r ∷ rs) (h, hs) = elim (Bool-cases (leb r.date day)) [
  | inl e ↦
      let (later, q) = rows_to-split day (suc r.date) rs hs in
      (later, rw e (ap (λ (xs : List Row). r ∷ xs) q))
  | inr e ↦
      (r ∷ rs, rw (e, rows_to-late day (suc r.date) rs (omega (arith, leb-false _ _ e)) hs) refl)
]

-- A strategy without fitted parameters gains nothing from being run again: the rows of each fold's
-- own backtest are the first rows of the backtest on the whole sample, so that the out-of-sample
-- curve is cut from the in-sample one. The dates go up and the periods do not go back.
pub fold_rows-in_sample :
    (s : Setup) (test_end : ℕ) (rows : List Row)
    → IsIndex s.period rows
    → fold_rows s test_end rows
      ≡ take
          (length (rows_to test_end rows))
          (run_frames s.config s.strategy s.warmup s.period rows)
unfolding fold_rows
fold_rows-in_sample s test_end rows h =
    let (later, q) = rows_to-split test_end 0 rows (index-Ordered s rows h) in
    let whole =
      run_frames-prefix s.config s.strategy s.warmup s.period (rows_to test_end rows) later
        (subst (IsIndex s.period) (sym q) h) in
    sym (rw q at whole)
