-- ===== src/Toss/RateLimit/Progress.antt =====
-- `acquire` comes back after at most one sleep, where the limit is steady.
use toss_api_quant_trading.Decimal.Field.{⊘-⊗_cancel, ⊗_mono}
use toss_api_quant_trading.Decimal.Order.{≤ᵈ_trans, le-dmin, le-dmax_left, le-dmax_right}
use toss_api_quant_trading.Toss.RateLimit.Bounds.{refill-updated, rate_floor}
use toss_api_quant_trading.Prelude.{ℕ, ◌≡◌, arith, some, ◌⊎◌, Bool-cases, inl, inr, refl, ap}
use toss_api_quant_trading.Toss.RateLimit.{
  acquire, refill, take_tokens, pass, Bucket, rate, limit_of, sleep, granted, capacity,
}
use toss_api_quant_trading.Decimal.{◌⊖◌, Decimal, frac, ◌⊕◌, ◌≤ᵈ◌, nat, dmax, ◌⊘◌, ◌<ᵈ◌, ◌⊗◌, le}

fits_sum : (a b c : Decimal) → a ⊖ b ≤ᵈ c → a ≤ᵈ b ⊕ c
unfolding ◌⊖◌ ◌⊕◌
fits_sum a b c h = omega arith

gap : (a b c : Decimal) → a ⊕ b ≤ᵈ c → b ≤ᵈ c ⊖ a
unfolding ◌⊖◌ ◌⊕◌
gap a b c h = omega arith

rate_positive : (r : Decimal) → frac 5 99 ≤ᵈ r → (nat 0 <ᵈ r) × (nat 0 ≤ᵈ r)
rate_positive r h = (omega arith, omega arith)

-- After the sleep for a deficit, the refill covers it.
covered :
    (r wanted held before after : Decimal)
    → frac 5 99 ≤ᵈ r
    → before ⊕ dmax ((wanted ⊖ held) ⊘ r) (frac 5 999) ≤ᵈ after
    → wanted ≤ᵈ held ⊕ dmax (after ⊖ before) (nat 0) ⊗ r
covered r wanted held before after h slept =
    let (positive, low) = rate_positive r h in
    let deficit = wanted ⊖ held in
    let d = dmax (deficit ⊘ r) (frac 5 999) in
    let elapsed = dmax (after ⊖ before) (nat 0) in
    let a : deficit ⊘ r ≤ᵈ d = le-dmax_left (deficit ⊘ r) (frac 5 999) in
    let b : d ≤ᵈ elapsed =
      ≤ᵈ_trans d (after ⊖ before) elapsed (gap before d after slept)
        (le-dmax_left (after ⊖ before) (nat 0)) in
    let c : deficit ⊘ r ≤ᵈ elapsed = ≤ᵈ_trans (deficit ⊘ r) d elapsed a b in
    let e : deficit ≤ᵈ elapsed ⊗ r =
      ≤ᵈ_trans deficit (deficit ⊘ r ⊗ r) (elapsed ⊗ r) ((⊘-⊗_cancel deficit r positive).1)
        (⊗_mono (deficit ⊘ r) elapsed r low c) in
    fits_sum wanted held (elapsed ⊗ r) e

take_tokens-cases :
    (r wanted : Decimal) (b : Bucket)
    → ((b' : Bucket) × (take_tokens r wanted b ≡ granted b'))
      ⊎ (take_tokens r wanted b ≡ sleep (dmax ((wanted ⊖ b.tokens) ⊘ r) (frac 5 999)) b)
unfolding take_tokens
take_tokens-cases r wanted b = elim (Bool-cases (le wanted b.tokens)) [
  | inl e ↦ inl (record b { tokens = b.tokens ⊖ wanted }, rw e refl)
  | inr e ↦ inr (rw e refl)
]

take_tokens-enough :
    (r wanted : Decimal) (b : Bucket)
    → wanted ≤ᵈ b.tokens
    → take_tokens r wanted b ≡ granted (record b { tokens = b.tokens ⊖ wanted })
unfolding take_tokens
take_tokens-enough r wanted b h = ground arith

refill-enough :
    (safety wanted : Decimal) (wall : ℕ) (now r : Decimal) (b : Bucket)
    → rate safety b wall ≡ r
    → frac 5 99 ≤ᵈ r
    → b.updated ⊕ dmax ((wanted ⊖ b.tokens) ⊘ r) (frac 5 999) ≤ᵈ now
    → wanted ≤ᵈ (refill safety wanted wall now b).tokens
unfolding refill
refill-enough safety wanted wall now r b e h slept =
    let x = b.tokens ⊕ dmax (now ⊖ b.updated) (nat 0) ⊗ r in
    rw e (
      le-dmin wanted (dmax (capacity b wall) wanted) x (le-dmax_right (capacity b wall) wanted)
        (covered r wanted b.tokens b.updated now h slept))

rate-steady :
    (safety wanted : Decimal) (wall wall' : ℕ) (now : Decimal) (b : Bucket)
    → limit_of b wall' ≡ limit_of b wall
    → rate safety (refill safety wanted wall now b) wall' ≡ rate safety b wall
unfolding rate refill limit_of
rate-steady safety wanted wall wall' now b e = ap (λ x. dmax (x ⊗ safety) (frac 5 99)) e

-- Where the limit is the same for two passes, and the clock moves by at least what was slept,
-- `acquire` returns in the first pass or in the second, also right after a penalty, and the time
-- that it reports is zero or the one sleep.
pub acquire_ends :
    (safety wanted : Decimal) (wall : ℕ → ℕ) (clock : ℕ → Decimal) (b : Bucket)
    → limit_of b (wall 1) ≡ limit_of b (wall 0)
    → ((d : Decimal) (b' : Bucket)
        → pass safety wanted (wall 0) (clock 0) b ≡ sleep d b'
        → clock 0 ⊕ d ≤ᵈ clock 1)
    → (out : Decimal × Bucket) × (acquire safety wanted wall clock 2 0 b (nat 0) ≡ some out)
unfolding acquire pass
acquire_ends safety wanted wall clock b steady moves =
    let r = rate safety b (wall 0) in
    let f = refill safety wanted (wall 0) (clock 0) b in
    let d = dmax ((wanted ⊖ f.tokens) ⊘ r) (frac 5 999) in
    let g = refill safety wanted (wall 1) (clock 1) f in
    elim (take_tokens-cases r wanted f) [
      | inl (b', e) ↦ ((nat 0, b'), rw (e, acquire) refl)
      | inr e ↦
          let slept : f.updated ⊕ d ≤ᵈ clock 1 =
            rw (refill-updated safety wanted (wall 0) (clock 0) b) (moves d f e) in
          let k = take_tokens-enough (rate safety f (wall 1)) wanted g (
            refill-enough safety wanted (wall 1) (clock 1) r f
              (rate-steady safety wanted (wall 0) (wall 1) (clock 0) b steady)
              (rate_floor safety b (wall 0)) slept) in
          (
            (nat 0 ⊕ d, record g { tokens = g.tokens ⊖ wanted }),
            rw (e, acquire) (rw (k, acquire) refl),
          )
    ]
