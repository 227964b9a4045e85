-- ===== src/Tick/Snap.antt =====
-- Snapping a positive price, in whole numbers.
use native.Mathlib.Nat.{
  mul-pos, div-lt_iff_lt-mul, le_of_mul-le-mul_right, lt_of_mul-lt-mul_right, div-add-mod, mod-lt,
}
use toss_api_quant_trading.Prelude.{
  ℕ, zero, suc, ◌+◌, ◌-◌, ◌*◌, ◌/◌, ◌≤◌, ◌<◌, ◌≡◌, Bool, true, false, ltb, lt→ltb, if◌then◌else◌,
  arith,
}
use toss_api_quant_trading.Decimal.{
  Decimal, den, nat, quotient, round_up, round_down, lt, ◌≤ᵈ◌, inverse, ◌⊘◌, ◌⊗◌, quantize,
  Rounding,
}
use toss_api_quant_trading.Decimal.Quotient.{quotient-up, quotient-down}
use toss_api_quant_trading.Tick.{tick_size, snap}

-- The whole part of a price.
abbrev pub floor : Decimal → ℕ
floor a = (a.plus - a.minus) / den a

-- The schedule on whole prices.
abbrev pub tick_nat : Bool → ℕ → ℕ
tick_nat true f = if ltb f 2000 then 1 else 5
tick_nat false f =
    if ltb f 2000
    then 1
    else if ltb f 5000
    then 5
    else if ltb f 20000
    then 10
    else if ltb f 50000
    then 50
    else if ltb f 200000
    then 100
    else if ltb f 500000
    then 500
    else 1000

ltb_of_iff : (a b c d : ℕ) → (a < b → c < d) → (c < d → a < b) → ltb a b ≡ ltb c d
ltb_of_iff a b c d f g = ground arith

-- A price lies below a whole bound exactly when its whole part does.
lt-floor : (a : Decimal) (k : ℕ) → nat 0 ≤ᵈ a → lt a (nat k) ≡ ltb (floor a) k
lt-floor a k h =
    let i = div-lt_iff_lt-mul {k = den a} {x = a.plus - a.minus} {y = k} (omega arith) in
    ltb_of_iff _ _ _ _ (λ p. i.1 (omega (arith, p))) (λ p. omega (arith, i.0 p))

pub tick_size-floor :
    (a : Decimal) (is_etf : Bool)
    → nat 0 ≤ᵈ a
    → tick_size a is_etf ≡ nat (tick_nat is_etf (floor a))
unfolding tick_size
tick_size-floor a true h = ground (arith, lt-floor a 2000 h)
tick_size-floor a false h = ground (
  arith,
  lt-floor a 2000 h,
  lt-floor a 5000 h,
  lt-floor a 20000 h,
  lt-floor a 50000 h,
  lt-floor a 200000 h,
  lt-floor a 500000 h,
)

pub tick_nat_pos : (is_etf : Bool) (f : ℕ) → 0 < tick_nat is_etf f
tick_nat_pos true f = ground arith
tick_nat_pos false f = ground arith

inverse_whole : (k : ℕ) → inverse (nat (suc k)) ≡ record { plus = 1; minus = 0; den_pred = k }
unfolding inverse
inverse_whole k = rw (lt→ltb 0 (suc k) (omega arith)) (ground arith)

pub ⊘_whole :
    (a : Decimal) (k : ℕ)
    → a ⊘ nat (suc k) ≡ record { plus = a.plus; minus = a.minus; den_pred = den a * suc k - 1 }
unfolding ◌⊘◌ ◌⊗◌
⊘_whole a k = rw (inverse_whole k) (ground arith)

quantize_pos :
    (mode : Rounding) (p n d k : ℕ)
    → n ≤ p
    → quantize mode (record { plus = p; minus = n; den_pred = suc d * suc k - 1 })
      ≡ nat (quotient mode (p - n) (suc d * suc k))
unfolding quantize
quantize_pos mode p n d k h =
    let e : suc (suc d * suc k - 1) ≡ suc d * suc k = omega arith in rw e (ground arith)

-- Snapping a positive price gives a whole multiple of the tick.
pub snap_whole :
    (mode : Rounding) (a : Decimal) (k : ℕ)
    → nat 0 ≤ᵈ a
    → 0 < k
    → snap mode a (nat k) ≡ nat (quotient mode (a.plus - a.minus) (den a * k) * k)
unfolding snap ◌⊗◌
snap_whole mode a zero h p = absurd (omega arith)
snap_whole mode a (suc k) h p =
    rw (⊘_whole a k, quantize_pos mode a.plus a.minus a.den_pred k (omega arith)) (ground arith)

module _ (a : Decimal) (k : ℕ) (h : nat 0 ≤ᵈ a) (p : 0 < k) where
  floor_bounds : (floor a * den a ≤ a.plus - a.minus) × (a.plus - a.minus < floor a * den a + den a)
  floor_bounds = omega (
    arith,
    div-add-mod (a.plus - a.minus) (den a),
    mod-lt (a.plus - a.minus) {m = den a} (omega arith),
  )

  -- The price rounded up to a multiple of the tick, and down.
  abbrev pub upper : ℕ
  upper = quotient round_up (a.plus - a.minus) (den a * k) * k

  abbrev pub lower : ℕ
  lower = quotient round_down (a.plus - a.minus) (den a * k) * k

  upper_exact : (a.plus - a.minus ≤ upper * den a) × (upper * den a < a.plus - a.minus + den a * k)
  upper_exact =
      omega
        (arith, quotient-up (a.plus - a.minus) (den a * k) (mul-pos {m = den a} (omega arith) p))

  lower_exact : (lower * den a ≤ a.plus - a.minus) × (a.plus - a.minus < lower * den a + den a * k)
  lower_exact =
      omega
        (arith, quotient-down (a.plus - a.minus) (den a * k) (mul-pos {m = den a} (omega arith) p))

  -- Rounding up moves by at most one tick above the whole part, rounding down by less than one.
  pub upper_bounds : (floor a ≤ upper) × (upper ≤ floor a + k)
  upper_bounds =
      let up : floor a * den a ≤ upper * den a = omega (arith, floor_bounds, upper_exact) in
      let down : upper * den a < (floor a + 1 + k) * den a =
        omega (arith, floor_bounds, upper_exact) in
      (le_of_mul-le-mul_right up (omega arith), omega (arith, lt_of_mul-lt-mul_right (den a) down))

  pub lower_bounds : (lower ≤ floor a) × (floor a < lower + k)
  lower_bounds =
      let up : lower * den a < (floor a + 1) * den a = omega (arith, floor_bounds, lower_exact) in
      let down : floor a * den a < (lower + k) * den a = omega (arith, floor_bounds, lower_exact) in
      (omega (arith, lt_of_mul-lt-mul_right (den a) up), lt_of_mul-lt-mul_right (den a) down)

  pub upper-ge : a ≤ᵈ nat upper
  upper-ge = omega (arith, upper_exact)

  pub lower-le : nat lower ≤ᵈ a
  lower-le = omega (arith, lower_exact)
