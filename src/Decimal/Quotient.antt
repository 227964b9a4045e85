-- ===== src/Decimal/Quotient.antt =====
-- Bounds of the rounded quotient.
use native.Mathlib.Nat.{div-add-mod, mod-lt}
use toss_api_quant_trading.Prelude.{ℕ, ◌+◌, ◌*◌, ◌≤◌, ◌<◌, arith, ◌-◌}
use toss_api_quant_trading.Decimal.{
  quotient, round_up, round_down, truncate, Decimal, nat, ◌<ᵈ◌, ◌≤ᵈ◌, den,
}

-- Rounding up is the least whole number that is not below the fraction.
pub quotient-up :
    (n d : ℕ) → 0 < d → (n ≤ quotient round_up n d * d) × (quotient round_up n d * d < n + d)
unfolding quotient
quotient-up n d h = grind (arith, div-add-mod n d, mod-lt n h)

-- Rounding down is the greatest whole number that is not above the fraction.
pub quotient-down :
    (n d : ℕ) → 0 < d → (quotient round_down n d * d ≤ n) × (n < quotient round_down n d * d + d)
unfolding quotient
quotient-down n d h = grind (arith, div-add-mod n d, mod-lt n h)

-- Truncation of what has a positive truncation goes down.
pub truncate_le : (a : Decimal) → nat 0 <ᵈ truncate a → truncate a ≤ᵈ a
unfolding truncate
truncate_le a h = grind (arith, div-add-mod (a.plus - a.minus) (den a))

-- Truncation of what is not negative goes down.
pub truncate_le_nonneg : (a : Decimal) → nat 0 ≤ᵈ a → truncate a ≤ᵈ a
unfolding truncate
truncate_le_nonneg a h = grind (arith, div-add-mod (a.plus - a.minus) (den a))
