-- ===== src/Validate/Ends.antt =====
-- When the walk through the folds ends.
use toss_api_quant_trading.Prelude.{
  ℕ, zero, suc, Option, some, none, List, [], ◌∷◌, ◌+◌, ◌-◌, ◌≤◌, ◌<◌, ◌≡◌, ◌≢◌, ltb, length, min,
  false, refl, arith, inl, inr, Bool-cases, ltb→lt, lt→ltb,
}
use toss_api_quant_trading.Backtest.Frames.{Row}
use toss_api_quant_trading.Validate.{
  Setup, Fold, rows_to, one_fold, put_before, walk_folds, walk_forward, end_date, finish_walk,
  endless,
}

put_before-some : (xs : List Fold) (o : Option (List Fold)) → o ≢ none → put_before xs o ≢ none
put_before-some xs none h = h
put_before-some xs (some ys) h = λ e. cc

-- Each round moves the cut on, where a test window has a day.
walk_folds_total :
    (s : Setup) (end : ℕ) (rows : List Row) (fuel cut : ℕ)
    → 0 < s.test_days
    → end - cut < fuel
    → walk_folds s end rows fuel cut ≢ none
unfolding walk_folds
walk_folds_total s end rows zero cut h k = absurd (omega arith)
walk_folds_total s end rows (suc fuel) cut h k = elim (Bool-cases (ltb cut end)) [
  | inr e ↦ rw e (λ q. cc)
  | inl e ↦
      let te = min (cut + s.test_days) end in
      let ih = walk_folds_total s end rows fuel te h (omega (arith, ltb→lt cut end e)) in
      elim (Bool-cases (ltb (length (rows_to te rows)) 60)) [
        | inl q ↦ rw (e, q) (λ p. cc)
        | inr q ↦ rw (e, q) (put_before-some (one_fold s cut te rows) _ ih)
      ]
]

finish_walk-some : (s : Setup) (o : Option (List Fold)) → o ≢ none → finish_walk s o ≢ endless
finish_walk-some s none h = absurd (h refl)
finish_walk-some s (some []) h = λ e. cc
finish_walk-some s (some (f ∷ fs)) h = λ e. cc

-- Where a test window has at least a day, a walk-forward test ends for any data, in no more rounds
-- than there are days between its first and its last row.
pub walk_forward_ends :
    (s : Setup) (r : Row) (rs : List Row)
    → 0 < s.test_days
    → walk_forward (suc (end_date r.date rs - r.date)) s (r ∷ rs) ≢ endless
unfolding walk_forward
walk_forward_ends s r rs h = finish_walk-some s _ (
    walk_folds_total s (end_date r.date rs) (r ∷ rs) (suc (end_date r.date rs - r.date))
      (r.date + s.train_days) h (omega arith))

stuck :
    (s : Setup) (end : ℕ) (rows : List Row) (fuel cut : ℕ)
    → s.test_days ≡ 0
    → cut < end
    → 60 ≤ length (rows_to cut rows)
    → walk_folds s end rows fuel cut ≡ none
unfolding walk_folds
stuck s end rows zero cut z h k = refl
stuck s end rows (suc fuel) cut z h k =
    let same : min (cut + s.test_days) end ≡ cut = omega arith in
    let long : ltb (length (rows_to cut rows)) 60 ≡ false = ground arith in
    rw (lt→ltb cut end h, same, long, stuck s end rows fuel cut z h k) refl

-- Where a test window is shorter than a day, which the code rounds down to none, and the training
-- window holds sixty rows and leaves some, the walk never ends: no number of rounds suffices.
pub walk_forward_stuck :
    (s : Setup) (r : Row) (rs : List Row) (fuel : ℕ)
    → s.test_days ≡ 0
    → r.date + s.train_days < end_date r.date rs
    → 60 ≤ length (rows_to (r.date + s.train_days) (r ∷ rs))
    → walk_forward fuel s (r ∷ rs) ≡ endless
unfolding walk_forward
walk_forward_stuck s r rs fuel z h k =
    rw (stuck s (end_date r.date rs) (r ∷ rs) fuel (r.date + s.train_days) z h k) refl
