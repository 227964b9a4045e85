-- ===== src/Validate/Folds.antt =====
-- The folds of a walk, one after the other.
use mathlib.Core.Path.{subst}
use toss_api_quant_trading.Prelude.{
  ℕ, zero, suc, Option, some, none, List, [], ◌∷◌, ◌++◌, ◌+◌, ◌≤◌, ◌≡◌, ltb, length, min, false,
  refl, arith, inl, inr, Bool-cases, ltb→lt, le→leb, All, ap, ◌∙◌, ◌==◌, sym,
}
use mathlib.Core.List.{append_assoc}
use toss_api_quant_trading.Decimal.{Decimal}
use toss_api_quant_trading.Backtest.Frames.{Row}
use toss_api_quant_trading.Backtest.Blind.{IsIndex}
use toss_api_quant_trading.Validate.{
  Setup, Fold, rows_to, one_fold, put_before, walk_folds, all_returns, insert_return, sort_index,
  drop_duplicates, stitched,
}
use toss_api_quant_trading.Validate.Stitched.{
  Ordered, Ordered-index, Rises, UpTo, Spans, StartsLate, one_fold-Spans, Rises-weaken,
}

-- What the returns are from a cut on.
abbrev GoesOn : ℕ → List Fold → Type 0
GoesOn cut fs = Rises cut (all_returns fs) × All StartsLate fs

Rises-append :
    (lo hi : ℕ) (xs ys : List (ℕ × Decimal))
    → lo ≤ hi
    → Rises lo xs
    → UpTo hi xs
    → Rises hi ys
    → Rises lo (xs ++ ys)
Rises-append lo hi [] ys le h u g = Rises-weaken lo hi ys le g
Rises-append lo hi (x ∷ xs) ys le (h, hs) (u, us) g = (h, Rises-append x.0 hi xs ys u hs us g)

all_returns-append : (xs ys : List Fold) → all_returns (xs ++ ys) ≡ all_returns xs ++ all_returns ys
unfolding all_returns
all_returns-append [] ys = refl
all_returns-append (f ∷ xs) ys =
    ap (λ rs. f.returns ++ rs) (all_returns-append xs ys)
    ∙ sym (append_assoc f.returns (all_returns xs) (all_returns ys))

All-append : (xs ys : List Fold) → All StartsLate xs → All StartsLate ys → All StartsLate (xs ++ ys)
All-append [] ys h k = k
All-append (x ∷ xs) ys (h, hs) k = (h, All-append xs ys hs k)

GoesOn-append :
    (cut te : ℕ) (xs ys : List Fold)
    → cut ≤ te
    → Spans cut te xs
    → GoesOn te ys
    → GoesOn cut (xs ++ ys)
GoesOn-append cut te xs ys le (up, top, late) (g, gs) = (
  rw (all_returns-append xs ys) (Rises-append cut te (all_returns xs) (all_returns ys) le up top g),
  All-append xs ys late gs,
)

GoesOn-of :
    (cut : ℕ) (xs folds : List Fold) → some xs ≡ some folds → GoesOn cut xs → GoesOn cut folds
GoesOn-of cut xs folds e h = let q : xs ≡ folds = cc in subst (GoesOn cut) q h

put_before-GoesOn :
    (cut te : ℕ) (xs folds : List Fold) (o : Option (List Fold))
    → put_before xs o ≡ some folds
    → cut ≤ te
    → Spans cut te xs
    → ((ys : List Fold) → o ≡ some ys → GoesOn te ys)
    → GoesOn cut folds
put_before-GoesOn cut te xs folds none e le h g = absurd (cc)
put_before-GoesOn cut te xs folds (some ys) e le h g =
    GoesOn-of cut (xs ++ ys) folds e (GoesOn-append cut te xs ys le h (g ys refl))

walk_folds-GoesOn :
    (s : Setup) (end : ℕ) (rows : List Row) (fuel cut : ℕ) (folds : List Fold)
    → Ordered 0 rows
    → walk_folds s end rows fuel cut ≡ some folds
    → GoesOn cut folds
unfolding walk_folds all_returns
walk_folds-GoesOn s end rows zero cut folds h e = absurd (cc)
walk_folds-GoesOn s end rows (suc fuel) cut folds h e = elim (Bool-cases (ltb cut end)) [
  | inr q ↦ GoesOn-of cut [] folds (rw q at e) (tt, tt)
  | inl q ↦
      let te = min (cut + s.test_days) end in
      elim (Bool-cases (ltb (length (rows_to te rows)) 60)) [
        | inl p ↦ GoesOn-of cut [] folds (rw (q, p) at e) (tt, tt)
        | inr p ↦
            put_before-GoesOn cut te (one_fold s cut te rows) folds _ (rw (q, p) at e)
              (omega (arith, ltb→lt cut end q)) (one_fold-Spans s cut te rows h)
              (λ ys r. walk_folds-GoesOn s end rows fuel te ys h r)
      ]
]

insert_return-first :
    (lo : ℕ) (e : ℕ × Decimal) (es : List (ℕ × Decimal))
    → Rises e.0 es
    → insert_return e es ≡ e ∷ es
unfolding insert_return
insert_return-first lo (d, x) [] h = refl
insert_return-first lo (d, x) ((c, y) ∷ es) (h, hs) = rw (le→leb d c (omega arith)) refl

sort_index-Rises : (lo : ℕ) (es : List (ℕ × Decimal)) → Rises lo es → sort_index es ≡ es
unfolding sort_index
sort_index-Rises lo [] h = refl
sort_index-Rises lo (e ∷ es) (h, hs) =
    rw (sort_index-Rises e.0 es hs) (insert_return-first lo e es hs)

drop_duplicates-Rises :
    (lo : ℕ) (es : List (ℕ × Decimal)) → Rises lo es → drop_duplicates (some lo) es ≡ es
unfolding drop_duplicates
drop_duplicates-Rises lo [] h = refl
drop_duplicates-Rises lo ((d, x) ∷ es) (h, hs) =
    let ih = drop_duplicates-Rises d es hs in
    let apart : (d == lo) ≡ false = ground arith in rw (apart, ih) refl

no_duplicates : (lo : ℕ) (es : List (ℕ × Decimal)) → Rises lo es → drop_duplicates none es ≡ es
unfolding drop_duplicates
no_duplicates lo [] h = refl
no_duplicates lo ((d, x) ∷ es) (h, hs) = ap (λ r. (d, x) ∷ r) (drop_duplicates-Rises d es hs)

pub index-Ordered : (s : Setup) (rows : List Row) → IsIndex s.period rows → Ordered 0 rows
index-Ordered s [] h = tt
index-Ordered s (r ∷ rs) h = (omega arith, Ordered-index s.period r.date _ rs h)

-- On data whose dates go up and whose periods do not go back, no date is scored twice: the returns
-- of the folds, one after the other, have dates that go up from the end of the training window, so
-- that stitching neither reorders nor drops any of them. In each fold they start after its first
-- test day, which has no return.
pub stitched-Rises :
    (s : Setup) (end : ℕ) (rows : List Row) (fuel cut : ℕ) (folds : List Fold)
    → IsIndex s.period rows
    → walk_folds s end rows fuel cut ≡ some folds
    → (stitched folds ≡ all_returns folds) × Rises cut (stitched folds) × All StartsLate folds
unfolding stitched
stitched-Rises s end rows fuel cut folds i e =
    let (up, late) = walk_folds-GoesOn s end rows fuel cut folds (index-Ordered s rows i) e in
    let sorted = sort_index-Rises cut (all_returns folds) up in
    let same = no_duplicates cut (all_returns folds) up in
    (rw (sorted, same) refl, rw (sorted, same) up, late)
