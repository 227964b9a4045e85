-- ===== src/Decimal/Cancel.antt =====
-- Moving a divisor, and a summand, to the other side of an order.
use toss_api_quant_trading.Prelude.{arith, refl, ◌≡◌, ◌↔◌}
use toss_api_quant_trading.Decimal.{Decimal, nat, neg, inverse, ◌⊕◌, ◌⊗◌, ◌⊘◌, ◌≤ᵈ◌, ◌<ᵈ◌, ◌≈◌}
use toss_api_quant_trading.Decimal.Field.{
  ⊗_assoc, ⊗_comm, ⊗_mono, ⊕_mono, ⊘-⊗_cancel, inverse_nonneg,
}
use toss_api_quant_trading.Decimal.Order.{≤ᵈ_refl, ≤ᵈ_trans}

⊗-⊘_swap : (x y : Decimal) → x ⊗ y ⊘ y ≡ x ⊘ y ⊗ y
unfolding ◌⊘◌
⊗-⊘_swap x y = rw (⊗_assoc x y (inverse y), ⊗_comm y (inverse y), ⊗_assoc x (inverse y) y) refl

pub ⊗-⊘_cancel : (x y : Decimal) → nat 0 <ᵈ y → x ⊗ y ⊘ y ≈ x
⊗-⊘_cancel x y h = rw (⊗-⊘_swap x y) (⊘-⊗_cancel x y h)

positive_nonneg : (b : Decimal) → nat 0 <ᵈ b → nat 0 ≤ᵈ b
positive_nonneg b p = omega arith

-- A quotient by a positive number is at most `c` exactly when the dividend is at most its multiple.
pub ⊘-≤_iff : (a b c : Decimal) → nat 0 <ᵈ b → (a ⊘ b ≤ᵈ c) ↔ (a ≤ᵈ c ⊗ b)
unfolding ◌⊘◌
⊘-≤_iff a b c p =
    let low = positive_nonneg b p in
    (
      λ h. ≤ᵈ_trans a (a ⊘ b ⊗ b) (c ⊗ b) (⊘-⊗_cancel a b p).1 (⊗_mono (a ⊘ b) c b low h),
      λ h.
          ≤ᵈ_trans (a ⊘ b) (c ⊗ b ⊘ b) c (⊗_mono a (c ⊗ b) (inverse b) (inverse_nonneg b low) h)
            (⊗-⊘_cancel c b p).0,
    )

neg-⊕_cancel : (a x : Decimal) → neg a ⊕ (a ⊕ x) ≈ x
unfolding neg ◌⊕◌
neg-⊕_cancel a x = (omega arith, omega arith)

pub ⊕_cancel : (a x y : Decimal) → a ⊕ x ≤ᵈ a ⊕ y → x ≤ᵈ y
⊕_cancel a x y h = ≤ᵈ_trans x (neg a ⊕ (a ⊕ x)) y (neg-⊕_cancel a x).1 (
    ≤ᵈ_trans (neg a ⊕ (a ⊕ x)) (neg a ⊕ (a ⊕ y)) y
      (⊕_mono (neg a) (neg a) (a ⊕ x) (a ⊕ y) (≤ᵈ_refl (neg a)) h) (neg-⊕_cancel a y).0)
