-- ===== src/Decimal/Order.antt =====
-- The order of fractions.
use mathlib.Core.Path.{subst}
use native.Mathlib.Nat.{le_of_mul-le-mul_right, mul-le-mul_right}
use toss_api_quant_trading.Prelude.{ℕ, suc, ◌+◌, ◌*◌, ◌≤◌, ◌⊎◌, ◌≡◌, arith}
use toss_api_quant_trading.Decimal.{Decimal, ◌≤ᵈ◌, dmax, dmin}

pub ≤ᵈ_refl : (a : Decimal) → a ≤ᵈ a
≤ᵈ_refl a = omega arith

pub ≤ᵈ_total : (a b : Decimal) → (a ≤ᵈ b) ⊎ (b ≤ᵈ a)
≤ᵈ_total a b = omega arith

cross_trans :
    (p n d p' n' d' q m e : ℕ)
    → p * suc d' + n' * suc d ≤ p' * suc d + n * suc d'
    → p' * suc e + m * suc d' ≤ q * suc d' + n' * suc e
    → (p * suc e + m * suc d) * suc d' ≤ (q * suc d + n * suc e) * suc d'
cross_trans p n d p' n' d' q m e h k =
    omega (arith, mul-le-mul_right (suc e) h, mul-le-mul_right (suc d) k)

pub ≤ᵈ_trans : (a b c : Decimal) → a ≤ᵈ b → b ≤ᵈ c → a ≤ᵈ c
≤ᵈ_trans a b c h k =
    le_of_mul-le-mul_right
      (cross_trans a.plus a.minus a.den_pred b.plus b.minus b.den_pred c.plus c.minus c.den_pred h
        k)
      (omega arith)

pub dmin_left : (a b : Decimal) → dmin a b ≤ᵈ a
unfolding dmin
dmin_left a b = ground (arith, ≤ᵈ_refl a)

pub dmin_right : (a b : Decimal) → dmin a b ≤ᵈ b
unfolding dmin
dmin_right a b = ground (arith, ≤ᵈ_refl b)

pub le-dmin : (a b c : Decimal) → a ≤ᵈ b → a ≤ᵈ c → a ≤ᵈ dmin b c
unfolding dmin
le-dmin a b c h k = ground arith

pub le-dmax_left : (a b : Decimal) → a ≤ᵈ dmax a b
unfolding dmax
le-dmax_left a b = ground (arith, ≤ᵈ_refl a)

pub le-dmax_right : (a b : Decimal) → b ≤ᵈ dmax a b
unfolding dmax
le-dmax_right a b = ground (arith, ≤ᵈ_refl b)

pub le_of_path : (a b : Decimal) → a ≡ b → a ≤ᵈ b
le_of_path a b e = subst (λ x. a ≤ᵈ x) e (≤ᵈ_refl a)
