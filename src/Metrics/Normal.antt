-- ===== src/Metrics/Normal.antt =====
-- `_norm_ppf` of src/tqt/backtest/metrics.py: a rational approximation in three parts, as Horner
-- schemes over the coefficients of the source. Roots and logarithms are those of Returns.
use toss_api_quant_trading.Decimal.{Decimal, nat, frac, neg, lt, ◌⊕◌, ◌⊖◌, ◌⊗◌, ◌⊘◌}
use toss_api_quant_trading.Metrics.Returns.{Reals, deflated_sharpe}
use toss_api_quant_trading.Prelude.{ℕ, List, [], ◌∷◌, if◌then◌else◌, ◌&&◌}

abbrev central_over : List Decimal
central_over =
    neg (frac 3969683028665376 99999999999999)
    ∷ frac 2209460984245205 9999999999999
    ∷ neg (frac 2759285104469687 9999999999999)
    ∷ frac 1383577518672690 9999999999999
    ∷ neg (frac 3066479806614716 99999999999999)
    ∷ frac 2506628277459239 999999999999999
    ∷ []

abbrev central_under : List Decimal
central_under =
    neg (frac 5447609879822406 99999999999999)
    ∷ frac 1615858368580409 9999999999999
    ∷ neg (frac 1556989798598866 9999999999999)
    ∷ frac 6680131188771972 99999999999999
    ∷ neg (frac 1328068155288572 99999999999999)
    ∷ []

abbrev tail_over : List Decimal
tail_over =
    neg (frac 7784894002430293 999999999999999999)
    ∷ neg (frac 3223964580411365 9999999999999999)
    ∷ neg (frac 2400758277161838 999999999999999)
    ∷ neg (frac 2549732539343734 999999999999999)
    ∷ frac 4374664141464968 999999999999999
    ∷ frac 2938163982698783 999999999999999
    ∷ []

abbrev tail_under : List Decimal
tail_under =
    frac 7784695709041462 999999999999999999
    ∷ frac 3224671290700398 9999999999999999
    ∷ frac 2445134137142996 999999999999999
    ∷ frac 3754408661907416 999999999999999
    ∷ []

-- `((x0 * q + x1) * q + x2) * q + ...`, from a first value.
unfoldable pub horner : Decimal → Decimal → List Decimal → Decimal
horner q acc [] = acc
horner q acc (x ∷ xs) = horner q (acc ⊗ q ⊕ x) xs

abbrev tail : Decimal → Decimal
tail q = horner q (nat 0) tail_over ⊘ (horner q (nat 0) tail_under ⊗ q ⊕ nat 1)

abbrev central : Decimal → Decimal
central q =
    let r = q ⊗ q in
    horner r (nat 0) central_over ⊗ q ⊘ (horner r (nat 0) central_under ⊗ r ⊕ nat 1)

module _ (r : Reals) where
  abbrev tail_point : Decimal → Decimal
  tail_point p = r.sqrt (neg (nat 2) ⊗ r.log p)

  unfoldable pub norm_ppf : Decimal → Decimal
  norm_ppf p =
      let low = frac 2425 99999 in
      if lt (nat 0) p && lt p (nat 1)
      then if lt p low
        then tail (tail_point p)
        else if lt (nat 1 ⊖ low) p
        then neg (tail (tail_point (nat 1 ⊖ p)))
        else central (p ⊖ frac 1 1)
      else nat 0

  -- `deflated_sharpe` as the module calls it.
  unfoldable pub deflated_by_trials : Decimal → ℕ → ℕ → Decimal
  deflated_by_trials observed n_trials n_obs = deflated_sharpe r norm_ppf observed n_trials n_obs
