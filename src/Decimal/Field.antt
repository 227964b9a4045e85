-- ===== src/Decimal/Field.antt =====
-- The laws of the operations.
use native.Mathlib.Nat.{mul-le-mul_right}
use toss_api_quant_trading.Prelude.{ℕ, suc, ◌+◌, ◌-◌, ◌*◌, ◌≤◌, ◌≡◌, refl, ltb, true, arith, lt→ltb}
use toss_api_quant_trading.Decimal.{Decimal, den, ◌≤ᵈ◌, ◌<ᵈ◌, ◌≈◌, nat, ◌⊕◌, ◌⊖◌, ◌⊗◌, ◌⊘◌, inverse}

pub ⊕_comm : (a b : Decimal) → a ⊕ b ≈ b ⊕ a
unfolding ◌⊕◌
⊕_comm a b = (omega arith, omega arith)

pub ⊕_assoc : (a b c : Decimal) → a ⊕ b ⊕ c ≡ a ⊕ (b ⊕ c)
unfolding ◌⊕◌
⊕_assoc a b c = ground arith

pub ⊗_comm : (a b : Decimal) → a ⊗ b ≡ b ⊗ a
unfolding ◌⊗◌
⊗_comm a b = ground arith

pub den-⊕ : (a b : Decimal) → den (a ⊕ b) ≡ den a * den b
unfolding ◌⊕◌
den-⊕ a b = omega arith

pub den-⊗ : (a b : Decimal) → den (a ⊗ b) ≡ den a * den b
unfolding ◌⊗◌
den-⊗ a b = omega arith

pub ⊖_nonneg : (a b : Decimal) → b ≤ᵈ a → nat 0 ≤ᵈ a ⊖ b
unfolding ◌⊖◌
⊖_nonneg a b h = omega arith

-- `n ≤ p` and `m ≤ q` give a non-negative product of the differences.
cross_product : (n p m q : ℕ) → n ≤ p → m ≤ q → p * m + n * q ≤ p * q + n * m
cross_product n p m q h k =
    let e : p ≡ n + (p - n) = omega arith in
    let f : q ≡ m + (q - m) = omega arith in rw (e, f) (step n (p - n) m (q - m))
  where
    step : (n x m y : ℕ) → (n + x) * m + n * (m + y) ≤ (n + x) * (m + y) + n * m
    step n x m y = omega arith

scale : (k : ℕ) {m n : ℕ} → m ≤ n → m * k ≤ n * k
scale k h = mul-le-mul_right k h

pub nonneg : (a : Decimal) → nat 0 ≤ᵈ a → a.minus ≤ a.plus
nonneg a h = omega arith

pub ⊕_nonneg : (a b : Decimal) → nat 0 ≤ᵈ a → nat 0 ≤ᵈ b → nat 0 ≤ᵈ a ⊕ b
unfolding ◌⊕◌
⊕_nonneg a b h k = omega (arith, scale (den b) (nonneg a h), scale (den a) (nonneg b k))

pub ⊗_nonneg : (a b : Decimal) → nat 0 ≤ᵈ a → nat 0 ≤ᵈ b → nat 0 ≤ᵈ a ⊗ b
unfolding ◌⊗◌
⊗_nonneg a b h k =
    omega (arith, cross_product a.minus a.plus b.minus b.plus (nonneg a h) (nonneg b k))

pub ⊗_mono : (a b c : Decimal) → nat 0 ≤ᵈ c → a ≤ᵈ b → a ⊗ c ≤ᵈ b ⊗ c
unfolding ◌⊗◌
⊗_mono a b c h k = omega (
  arith,
  scale (den c) (
      cross_product (a.plus * den b + b.minus * den a) (b.plus * den a + a.minus * den b) c.minus
        c.plus k (nonneg c h)),
)

pub ⊕_mono : (a b c d : Decimal) → a ≤ᵈ b → c ≤ᵈ d → a ⊕ c ≤ᵈ b ⊕ d
unfolding ◌⊕◌
⊕_mono a b c d h k = omega (arith, scale (den c * den d) h, scale (den a * den b) k)

pub ≤-⊕_right : (a b : Decimal) → nat 0 ≤ᵈ b → a ≤ᵈ a ⊕ b
unfolding ◌⊕◌
≤-⊕_right a b h = omega (arith, scale (den a * den a) (nonneg b h))

pub ⊖_le : (a b : Decimal) → nat 0 ≤ᵈ b → a ⊖ b ≤ᵈ a
unfolding ◌⊖◌
⊖_le a b h = omega (arith, scale (den a * den a) (nonneg b h))

-- What is taken away and put back.
pub ⊖-⊕_cancel : (a b : Decimal) → a ⊖ b ⊕ b ≈ a
unfolding ◌⊖◌ ◌⊕◌
⊖-⊕_cancel a b = (omega arith, omega arith)

-- Equal cross products, with the denominators as variables.
pub ≈_of_parts :
    (a b : Decimal) (p n x q m y : ℕ)
    → a.plus ≡ p
    → a.minus ≡ n
    → den a ≡ x
    → b.plus ≡ q
    → b.minus ≡ m
    → den b ≡ y
    → p * y + m * x ≡ q * x + n * y
    → a ≈ b
≈_of_parts a b p n x q m y ap an ad bp bn bd e =
    (rw (ap, an, ad, bp, bn, bd) (omega arith), rw (ap, an, ad, bp, bn, bd) (omega arith))

distrib_parts :
    (p n x q m y r k z : ℕ)
    → ((p * z + r * x) * q + (n * z + k * x) * m) * (x * y * (z * y))
        + ((p * m + n * q) * (z * y) + (r * m + k * q) * (x * y)) * (x * z * y)
      ≡ ((p * q + n * m) * (z * y) + (r * q + k * m) * (x * y)) * (x * z * y)
        + ((p * z + r * x) * m + (n * z + k * x) * q) * (x * y * (z * y))
distrib_parts p n x q m y r k z = omega arith

pub ⊗_distrib : (a b c : Decimal) → (a ⊕ b) ⊗ c ≈ a ⊗ c ⊕ b ⊗ c
unfolding ◌⊗◌ ◌⊕◌
⊗_distrib a b c =
    ≈_of_parts ((a ⊕ b) ⊗ c) (a ⊗ c ⊕ b ⊗ c) _ _ (den a * den b * den c) _ _
      (den a * den c * (den b * den c)) refl refl (omega arith) refl refl (omega arith)
      (rw (den-⊗ a c, den-⊗ b c)
        (distrib_parts a.plus a.minus (den a) c.plus c.minus (den c) b.plus b.minus (den b)))

pub inverse_nonneg : (b : Decimal) → nat 0 ≤ᵈ b → nat 0 ≤ᵈ inverse b
unfolding inverse
inverse_nonneg b h = ground arith

pub ⊘_nonneg : (a b : Decimal) → nat 0 ≤ᵈ a → nat 0 ≤ᵈ b → nat 0 ≤ᵈ a ⊘ b
unfolding ◌⊘◌
⊘_nonneg a b h k = ⊗_nonneg a (inverse b) h (inverse_nonneg b k)

cancel_parts :
    (p n x m c y : ℕ)
    → (p * y * (m + c) + n * y * m) * x + n * (x * c * y)
      ≡ p * (x * c * y) + (p * y * m + n * y * (m + c)) * x
cancel_parts p n x m c y = omega arith

cancel_at :
    (p n x m c y q : ℕ)
    → q ≡ m + c
    → (p * y * q + n * y * m) * x + n * (x * c * y) ≡ p * (x * c * y) + (p * y * m + n * y * q) * x
cancel_at p n x m c y q e = rw e (cancel_parts p n x m c y)

-- Dividing by a positive number undoes multiplying by it.
pub ⊘-⊗_cancel : (a b : Decimal) → nat 0 <ᵈ b → a ⊘ b ⊗ b ≈ a
unfolding ◌⊘◌ ◌⊗◌ inverse
⊘-⊗_cancel a b h =
    let t : ltb b.minus b.plus ≡ true = lt→ltb _ _ (omega arith) in
    let e : b.plus ≡ b.minus + suc (b.plus - b.minus - 1) = omega arith in
    rw t (
      ≈_of_parts (a ⊗ record { plus = den b; minus = 0; den_pred = b.plus - b.minus - 1 } ⊗ b) a
        (a.plus * den b * b.plus + a.minus * den b * b.minus)
        (a.plus * den b * b.minus + a.minus * den b * b.plus)
        (den a * suc (b.plus - b.minus - 1) * den b) _ _ (den a) (omega arith) (omega arith)
        (omega arith) refl refl refl (cancel_at a.plus a.minus (den a) b.minus _ (den b) b.plus e))

pub ⊕_zero : (a : Decimal) → a ⊕ nat 0 ≡ a
unfolding ◌⊕◌
⊕_zero a = ground arith

pub ⊗_assoc : (a b c : Decimal) → a ⊗ b ⊗ c ≡ a ⊗ (b ⊗ c)
unfolding ◌⊗◌
⊗_assoc a b c = ground arith
