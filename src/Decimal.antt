-- ===== src/Decimal.antt =====
-- Python's `Decimal` (and `float`) as exact fractions: the value of `(p, n, d)` is (p - n) / (d + 1).
-- The 28-digit context rounding of `decimal` and the binary rounding of `float` are not modelled.
-- Two triples may stand for one value: `≤ᵈ`, and `≈` in both directions, compare values.
pub mod Order
pub mod Field
pub mod Quotient
pub mod Ratio
pub mod Cancel
use toss_api_quant_trading.Prelude.{
  ℕ, suc, ◌+◌, ◌-◌, ◌*◌, ◌/◌, ◌%◌, ◌≤◌, ◌<◌, Bool, true, false, leb, ltb, ◌==◌, if◌then◌else◌, List,
  [], ◌∷◌, not,
}

pub record Decimal : Type 0 where
  pub plus : ℕ
  pub minus : ℕ
  pub den_pred : ℕ

abbrev pub den : Decimal → ℕ
den a = suc a.den_pred

-- `Decimal(n)` for a whole number, and `Decimal("n / 10^k")` by `frac n (10^k - 1)`.
abbrev pub nat : ℕ → Decimal
nat n = record { plus = n; minus = 0; den_pred = 0 }

abbrev pub frac : ℕ → ℕ → Decimal
frac n d = record { plus = n; minus = 0; den_pred = d }

infixl 65 ◌⊕◌ ◌⊖◌
infixl 70 ◌⊗◌ ◌⊘◌
infix 50 ◌≤ᵈ◌ ◌<ᵈ◌
infix 49 ◌≈◌
unfoldable pub ◌⊕◌ : Decimal → Decimal → Decimal
a ⊕ b = record {
  plus = a.plus * den b + b.plus * den a;
  minus = a.minus * den b + b.minus * den a;
  den_pred = a.den_pred + b.den_pred + a.den_pred * b.den_pred;
}

unfoldable pub neg : Decimal → Decimal
neg a = record { plus = a.minus; minus = a.plus; den_pred = a.den_pred }

unfoldable pub ◌⊖◌ : Decimal → Decimal → Decimal
a ⊖ b = record {
  plus = a.plus * den b + b.minus * den a;
  minus = a.minus * den b + b.plus * den a;
  den_pred = a.den_pred + b.den_pred + a.den_pred * b.den_pred;
}

unfoldable pub ◌⊗◌ : Decimal → Decimal → Decimal
a ⊗ b = record {
  plus = a.plus * b.plus + a.minus * b.minus;
  minus = a.plus * b.minus + a.minus * b.plus;
  den_pred = a.den_pred + b.den_pred + a.den_pred * b.den_pred;
}

abbrev pub ◌≤ᵈ◌ : Decimal → Decimal → Type 0
a ≤ᵈ b = a.plus * den b + b.minus * den a ≤ b.plus * den a + a.minus * den b

abbrev pub ◌<ᵈ◌ : Decimal → Decimal → Type 0
a <ᵈ b = a.plus * den b + b.minus * den a < b.plus * den a + a.minus * den b

abbrev pub ◌≈◌ : Decimal → Decimal → Type 0
a ≈ b = (a ≤ᵈ b) × (b ≤ᵈ a)

abbrev pub le : Decimal → Decimal → Bool
le a b = leb (a.plus * den b + b.minus * den a) (b.plus * den a + a.minus * den b)

abbrev pub lt : Decimal → Decimal → Bool
lt a b = ltb (a.plus * den b + b.minus * den a) (b.plus * den a + a.minus * den b)

-- The reciprocal; Python raises for zero, and every use below is under a test that excludes it,
-- or says what it does there.
unfoldable pub inverse : Decimal → Decimal
inverse b =
    if ltb b.minus b.plus
    then record { plus = den b; minus = 0; den_pred = b.plus - b.minus - 1 }
    else if ltb b.plus b.minus
    then record { plus = 0; minus = den b; den_pred = b.minus - b.plus - 1 }
    else nat 0

unfoldable pub ◌⊘◌ : Decimal → Decimal → Decimal
a ⊘ b = a ⊗ inverse b

unfoldable pub is_zero : Decimal → Bool
is_zero a = if ltb a.plus a.minus then false else not (ltb a.minus a.plus)

unfoldable pub abs : Decimal → Decimal
abs a = if ltb a.plus a.minus then neg a else a

-- `min(a, b)` and `max(a, b)` return the first argument on a tie.
unfoldable pub dmin : Decimal → Decimal → Decimal
dmin a b = if lt b a then b else a

unfoldable pub dmax : Decimal → Decimal → Decimal
dmax a b = if lt a b then b else a

-- `Decimal(int(a))`: truncation towards zero.
unfoldable pub truncate : Decimal → Decimal
truncate a =
    if ltb a.plus a.minus
    then record { plus = 0; minus = (a.minus - a.plus) / den a; den_pred = 0 }
    else nat ((a.plus - a.minus) / den a)

-- `sum(xs, Decimal(0))`
unfoldable pub sum_from : Decimal → List Decimal → Decimal
sum_from acc [] = acc
sum_from acc (x ∷ xs) = sum_from (acc ⊕ x) xs

-- The rounding modes of `quantize`: ROUND_UP (away from zero), ROUND_DOWN (towards zero) and the
-- default ROUND_HALF_EVEN, on a magnitude n / d.
pub data Rounding : Type 0 where
  round_up round_down round_half_even : Rounding

unfoldable pub quotient : Rounding → ℕ → ℕ → ℕ
quotient round_up n d = if n % d == 0 then n / d else n / d + 1
quotient round_down n d = n / d
quotient round_half_even n d =
    if ltb (2 * (n % d)) d
    then n / d
    else if ltb d (2 * (n % d))
    then n / d + 1
    else if n / d % 2 == 0
    then n / d
    else n / d + 1

-- `a.quantize(Decimal(1), rounding=mode)`
unfoldable pub quantize : Rounding → Decimal → Decimal
quantize mode a =
    if ltb a.plus a.minus
    then record { plus = 0; minus = quotient mode (a.minus - a.plus) (den a); den_pred = 0 }
    else nat (quotient mode (a.plus - a.minus) (den a))

-- `a.quantize(Decimal("0.01"))`
unfoldable pub quantize_cents : Decimal → Decimal
quantize_cents a = quantize round_half_even (a ⊗ nat 100) ⊘ nat 100

-- `a % b`: the remainder of the division truncated towards zero.
unfoldable pub remainder : Decimal → Decimal → Decimal
remainder a b = a ⊖ b ⊗ truncate (a ⊘ b)
