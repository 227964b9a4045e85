-- ===== src/Metrics/Deflated.antt =====
-- What the deflated Sharpe ratio takes off.
use toss_api_quant_trading.Decimal.{Decimal, nat, neg, ◌⊕◌, ◌⊖◌, ◌⊗◌, ◌≈◌, ◌<ᵈ◌, ◌≤ᵈ◌}
use toss_api_quant_trading.Decimal.Field.{⊕_mono}
use toss_api_quant_trading.Decimal.Cancel.{⊗-⊘_cancel}
use toss_api_quant_trading.Decimal.Order.{≤ᵈ_refl}
use toss_api_quant_trading.Metrics.Returns.{
  Reals, deflated_sharpe, expected_max, standard_error, trading_days,
}
use toss_api_quant_trading.Prelude.{ℕ, false, ◌≡◌, ◌<◌, arith, refl, ltb, ◌==◌}

⊖-⊕_neg : (a x : Decimal) → a ⊖ x ≡ a ⊕ neg x
unfolding ◌⊖◌ ◌⊕◌ neg
⊖-⊕_neg a x = refl

neg_antitone : (x y : Decimal) → x ≤ᵈ y → neg y ≤ᵈ neg x
unfolding neg
neg_antitone x y h = omega arith

⊖_cong : (a x y : Decimal) → x ≈ y → a ⊖ x ≈ a ⊖ y
⊖_cong a x y (h, k) =
    rw (⊖-⊕_neg a x, ⊖-⊕_neg a y)
      (
        ⊕_mono a a (neg x) (neg y) (≤ᵈ_refl a) (neg_antitone y x k),
        ⊕_mono a a (neg y) (neg x) (≤ᵈ_refl a) (neg_antitone x y h),
      )

-- The haircut is not annualised: for two trials or more, three observations or more and a positive
-- root of 252, the deflated ratio is the observed one less the expected maximum times the standard
-- error of one observation's ratio, since the factor for a year is divided out again.
pub deflated_sharpe-unscaled :
    (r : Reals) (norm_ppf : Decimal → Decimal) (observed : Decimal) (n_trials n_obs : ℕ)
    → 1 < n_trials
    → 2 < n_obs
    → nat 0 <ᵈ r.sqrt (nat trading_days)
    → deflated_sharpe r norm_ppf observed n_trials n_obs
      ≈ observed ⊖ expected_max r norm_ppf n_trials ⊗ standard_error r observed n_obs
unfolding deflated_sharpe
deflated_sharpe-unscaled r norm_ppf observed n_trials n_obs h k p =
    let a : ltb n_trials 1 ≡ false = ground arith in
    let b : ltb n_obs 3 ≡ false = ground arith in
    let c : (n_trials == 1) ≡ false = ground arith in
    rw (a, b, c)
      (⊖_cong observed _ _ (
        ⊗-⊘_cancel (expected_max r norm_ppf n_trials ⊗ standard_error r observed n_obs)
          (r.sqrt (nat trading_days)) p))
