-- ===== src/Decimal/Ratio.antt =====
-- Ratios of fractions, and their order.
use native.Mathlib.Nat.{mul-le-mul_right}
use native.Mathlib.Decide.{dec_lt}
use toss_api_quant_trading.Prelude.{ℕ, suc, ◌+◌, ◌*◌, ◌-◌, ◌≤◌, ◌<◌, ◌≡◌, arith, lt→ltb}
use toss_api_quant_trading.Decimal.{Decimal, den, nat, ◌⊗◌, ◌⊘◌, inverse, ◌≤ᵈ◌, ◌<ᵈ◌}
use toss_api_quant_trading.Decimal.Field.{⊗_mono, ⊘-⊗_cancel, ⊗_comm, inverse_nonneg}
use toss_api_quant_trading.Decimal.Order.{≤ᵈ_trans}

one_⊘ : (b : Decimal) → nat 1 ⊘ b ≡ inverse b
unfolding ◌⊘◌ ◌⊗◌
one_⊘ b = ground arith

-- A share of something at least as large is at most one.
pub ⊘_le_one : (a b : Decimal) → a ≤ᵈ b → nat 0 <ᵈ b → a ⊘ b ≤ᵈ nat 1
⊘_le_one a b h k =
    let low : nat 0 ≤ᵈ b = omega arith in
    let whole : inverse b ⊗ b ≤ᵈ nat 1 = rw (← one_⊘ b) ((⊘-⊗_cancel (nat 1) b k).0) in
    let same : b ⊗ inverse b ≤ᵈ nat 1 = rw (⊗_comm b (inverse b)) whole in
    ≤ᵈ_trans (a ⊘ b) (b ⊗ inverse b) (nat 1)
      (unfold ◌⊘◌ in ⊗_mono a b (inverse b) (inverse_nonneg b low) h) same

-- What is not below a positive number is positive.
pos_parts : (p n x q m y : ℕ) → n < p → p * suc y + m * suc x ≤ q * suc x + n * suc y → m < q
pos_parts p n x q m y h k =
    let g : suc n * suc y ≤ p * suc y = mul-le-mul_right (suc y) h in
    elim (dec_lt m q) [
      | yes r ↦ r
      | no r ↦
          let w : q * suc x ≤ m * suc x = mul-le-mul_right (suc x) (omega arith) in
          absurd (omega arith)
    ]

pub positive_above : (a b : Decimal) → nat 0 <ᵈ a → a ≤ᵈ b → b.minus < b.plus
positive_above a b h k =
    pos_parts a.plus a.minus a.den_pred b.plus b.minus b.den_pred (omega arith) k

antitone_parts :
    (n c x m d y p q : ℕ)
    → p ≡ n + suc c
    → q ≡ m + suc d
    → p * y + m * x ≤ q * x + n * y
    → y * suc c + 0 * suc d ≤ x * suc d + 0 * suc c
antitone_parts n c x m d y p q e f h = steps (rw (e, f) at h)
  where
    steps :
        (n + suc c) * y + m * x ≤ (m + suc d) * x + n * y
        → y * suc c + 0 * suc d ≤ x * suc d + 0 * suc c
    steps g = omega arith

-- The reciprocal of a larger number is smaller.
pub inverse_antitone : (a b : Decimal) → nat 0 <ᵈ a → a ≤ᵈ b → inverse b ≤ᵈ inverse a
unfolding inverse
inverse_antitone a b h k =
    let ea : a.plus ≡ a.minus + suc (a.plus - a.minus - 1) = omega arith in
    let eb : b.plus ≡ b.minus + suc (b.plus - b.minus - 1) =
      omega (arith, positive_above a b h k) in
    rw (lt→ltb a.minus a.plus (omega arith), lt→ltb b.minus b.plus (positive_above a b h k))
      (antitone_parts a.minus (a.plus - a.minus - 1) (den a) b.minus (b.plus - b.minus - 1) (den b)
        a.plus b.plus ea eb k)

-- A share of something larger is smaller.
pub ⊘_antitone : (q a b : Decimal) → nat 0 ≤ᵈ q → nat 0 <ᵈ a → a ≤ᵈ b → q ⊘ b ≤ᵈ q ⊘ a
unfolding ◌⊘◌
⊘_antitone q a b n h k =
    rw (⊗_comm q (inverse b), ⊗_comm q (inverse a))
      (⊗_mono (inverse b) (inverse a) q n (inverse_antitone a b h k))
