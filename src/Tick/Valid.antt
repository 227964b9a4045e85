-- ===== src/Tick/Valid.antt =====
-- Rounded limit prices are on the tick grid, and on the aggressive side.
use native.Mathlib.Nat.{div-add-mod, mul-mod_left}
use toss_api_quant_trading.Prelude.{
  ℕ, zero, suc, ◌+◌, ◌-◌, ◌*◌, ◌/◌, ◌%◌, ◌≤◌, ◌<◌, ◌≡◌, ap, ◌∙◌, refl, Bool, true, false, some,
  arith, if◌then◌else◌,
}
use toss_api_quant_trading.Decimal.{
  Decimal, den, nat, quotient, Rounding, round_up, round_down, ◌≤ᵈ◌, ◌⊘◌, ◌⊗◌, ◌⊖◌, is_zero,
  truncate, remainder,
}
use toss_api_quant_trading.Tick.{tick_size, snap, round_to_tick, is_valid_tick}
use toss_api_quant_trading.Tick.Snap.{
  floor, tick_nat, tick_nat_pos, tick_size-floor, snap_whole, upper, lower, upper_bounds, ⊘_whole,
  lower_bounds, upper-ge, lower-le,
}

-- One tick above the whole part still lies on the grid of the band it falls in.
tick-divides-up :
    (is_etf : Bool) (f r : ℕ)
    → r % tick_nat is_etf f ≡ 0
    → f ≤ r
    → r ≤ f + tick_nat is_etf f
    → r % tick_nat is_etf r ≡ 0
tick-divides-up true f r e l u = ground arith
tick-divides-up false f r e l u = ground arith

-- Below, the band is that of the price.
tick-divides-down :
    (is_etf : Bool) (f r : ℕ)
    → r % tick_nat is_etf f ≡ 0
    → r ≤ f
    → f < r + tick_nat is_etf f
    → tick_nat is_etf r ≡ tick_nat is_etf f
tick-divides-down true f r e l u = ground arith
tick-divides-down false f r e l u = ground arith

-- A whole price on the grid of its band.
abbrev OnGrid : Bool → ℕ → Type 0
OnGrid is_etf r = r % tick_nat is_etf r ≡ 0

quotient_exact :
    (r t : ℕ)
    → 0 < t
    → r % t ≡ 0
    → (quotient round_up r t * t ≡ r) × (quotient round_down r t * t ≡ r)
unfolding quotient
quotient_exact r t p e = grind (arith, div-add-mod r t)

tick_size_whole : (is_etf : Bool) (r : ℕ) → tick_size (nat r) is_etf ≡ nat (tick_nat is_etf r)
tick_size_whole is_etf r =
    tick_size-floor (nat r) is_etf (omega arith) ∙ ap (λ f. nat (tick_nat is_etf f)) (omega arith)

resnap_mode :
    (mode : Rounding) (r t : ℕ)
    → 0 < t
    → quotient mode r t * t ≡ r
    → snap mode (nat r) (nat t) ≡ nat r
resnap_mode mode r t p q =
    let m : r - 0 ≡ r = omega arith in
    let one : 1 * t ≡ t = omega arith in
    snap_whole mode (nat r) t (omega arith) p ∙ ap nat (rw (m, one) q)

-- Snapping again a price that is on its grid keeps it.
resnap :
    (is_etf : Bool) (r : ℕ)
    → OnGrid is_etf r
    → (snap round_up (nat r) (nat (tick_nat is_etf r)) ≡ nat r)
      × (snap round_down (nat r) (nat (tick_nat is_etf r)) ≡ nat r)
resnap is_etf r e =
    let t = tick_nat is_etf r in
    let p = tick_nat_pos is_etf r in
    let q = quotient_exact r t p e in
    (resnap_mode round_up r t p q.0, resnap_mode round_down r t p q.1)

truncate_whole : (r t : ℕ) → truncate (nat r ⊘ nat (suc t)) ≡ nat (r / suc t)
unfolding truncate
truncate_whole r t =
    let d : suc (1 * suc t - 1) ≡ suc t = omega arith in
    let m : r - 0 ≡ r = omega arith in rw (⊘_whole (nat r) t, d, m) (ground arith)

remainder_whole : (r t : ℕ) → 0 < t → r % t ≡ 0 → is_zero (remainder (nat r) (nat t)) ≡ true
unfolding remainder is_zero ◌⊖◌ ◌⊗◌
remainder_whole r zero p e = absurd (omega arith)
remainder_whole r (suc t) p e = rw (truncate_whole r t) (ground (arith, div-add-mod r (suc t)))

-- A whole price on the grid passes `is_valid_tick`.
grid-is_valid : (is_etf : Bool) (r : ℕ) → OnGrid is_etf r → is_valid_tick (nat r) "KR" is_etf ≡ true
unfolding is_valid_tick
grid-is_valid is_etf r e =
    rw (tick_size_whole is_etf r) (remainder_whole r (tick_nat is_etf r) (tick_nat_pos is_etf r) e)

if_same : (b : Bool) (x : Decimal) → (if b then x else x) ≡ x
if_same true x = refl
if_same false x = refl

module _ (price : Decimal) (is_etf : Bool) (h : nat 0 ≤ᵈ price) where
  abbrev tick : ℕ
  tick = tick_nat is_etf (floor price)

  pos_tick : 0 < tick
  pos_tick = tick_nat_pos is_etf (floor price)

  abbrev up : ℕ
  up = upper price tick h pos_tick

  abbrev down : ℕ
  down = lower price tick h pos_tick

  up-OnGrid : OnGrid is_etf up
  up-OnGrid =
      let b = upper_bounds price tick h pos_tick in
      tick-divides-up is_etf (floor price) up (mul-mod_left _ tick) b.0 b.1

  down-OnGrid : OnGrid is_etf down
  down-OnGrid =
      let b = lower_bounds price tick h pos_tick in
      let m =
        mul-mod_left (quotient round_down (price.plus - price.minus) (den price * tick)) tick in
      rw (tick-divides-down is_etf (floor price) down m b.0 b.1) m

  buy_lem : round_to_tick price "KR" is_etf (some "BUY") ≡ nat up
  unfolding round_to_tick
  buy_lem =
      rw
        (
          tick_size-floor price is_etf h,
          snap_whole round_up price tick h pos_tick,
          tick_size_whole is_etf up,
          (resnap is_etf up up-OnGrid).0,
        )
        (if_same _ (nat up))

  sell_lem : round_to_tick price "KR" is_etf (some "SELL") ≡ nat down
  unfolding round_to_tick
  sell_lem =
      rw
        (
          tick_size-floor price is_etf h,
          snap_whole round_down price tick h pos_tick,
          tick_size_whole is_etf down,
          (resnap is_etf down down-OnGrid).1,
        )
        (if_same _ (nat down))

  -- For a price of zero or more on KRX, a buy limit rounds to a valid tick that is not below the
  -- price, and a sell limit to a valid tick that is not above it.
  pub round_to_tick-valid :
      (is_valid_tick (round_to_tick price "KR" is_etf (some "BUY")) "KR" is_etf ≡ true)
      × (price ≤ᵈ round_to_tick price "KR" is_etf (some "BUY"))
      × (is_valid_tick (round_to_tick price "KR" is_etf (some "SELL")) "KR" is_etf ≡ true)
      × (round_to_tick price "KR" is_etf (some "SELL") ≤ᵈ price)
  round_to_tick-valid =
      rw (buy_lem, sell_lem)
        (
          grid-is_valid is_etf up up-OnGrid,
          upper-ge price tick h pos_tick,
          grid-is_valid is_etf down down-OnGrid,
          lower-le price tick h pos_tick,
        )
