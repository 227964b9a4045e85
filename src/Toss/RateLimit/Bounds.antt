-- ===== src/Toss/RateLimit/Bounds.antt =====
-- What a bucket holds, and what a penalty leaves of it.
use toss_api_quant_trading.Decimal.Field.{⊗_nonneg, ⊖_nonneg, ⊖_le, ⊕_nonneg}
use toss_api_quant_trading.Decimal.Order.{
  ≤ᵈ_refl, ≤ᵈ_trans, dmin_right, le-dmax_right, le-dmax_left, le-dmin, dmin_left,
}
use toss_api_quant_trading.Prelude.{arith, ℕ, Bool-cases, some, inl, ◌≡◌, inr, refl}
use toss_api_quant_trading.Toss.RateLimit.{
  penalize, Pass, pass, rate, refill, capacity, Bucket, take_tokens, granted, sleep, limit_of,
}
use toss_api_quant_trading.Decimal.{
  dmax, dmin, Decimal, ◌≤ᵈ◌, nat, frac, ◌⊖◌, ◌<ᵈ◌, ◌≈◌, le, ◌⊕◌, ◌⊗◌, ◌⊘◌,
}

pub rate_floor : (safety : Decimal) (b : Bucket) (wall : ℕ) → frac 5 99 ≤ᵈ rate safety b wall
unfolding rate
rate_floor safety b wall = le-dmax_right (limit_of b wall ⊗ safety) (frac 5 99)

rate_nonneg : (safety : Decimal) (b : Bucket) (wall : ℕ) → nat 0 ≤ᵈ rate safety b wall
rate_nonneg safety b wall =
    ≤ᵈ_trans (nat 0) (frac 5 99) (rate safety b wall) (omega arith) (rate_floor safety b wall)

-- The tokens are between zero and the ceiling of a pass.
abbrev pub Within : Decimal → Decimal → Type 0
Within top tokens = (nat 0 ≤ᵈ tokens) × (tokens ≤ᵈ top)

pub refill-Within :
    (safety wanted : Decimal) (wall : ℕ) (now : Decimal) (b : Bucket)
    → nat 0 ≤ᵈ b.tokens
    → Within (dmax (capacity b wall) wanted) (refill safety wanted wall now b).tokens
unfolding refill capacity
refill-Within safety wanted wall now b h =
    let elapsed = dmax (now ⊖ b.updated) (nat 0) in
    let top = dmax (capacity b wall) wanted in
    let x = b.tokens ⊕ elapsed ⊗ rate safety b wall in
    let gain =
      ⊗_nonneg elapsed (rate safety b wall) (le-dmax_right (now ⊖ b.updated) (nat 0))
        (rate_nonneg safety b wall) in
    let one : nat 0 ≤ᵈ capacity b wall =
      ≤ᵈ_trans (nat 0) (nat 1) (capacity b wall) (omega arith)
        (le-dmax_right (limit_of b wall) (nat 1)) in
    let low : nat 0 ≤ᵈ top =
      ≤ᵈ_trans (nat 0) (capacity b wall) top one (le-dmax_left (capacity b wall) wanted) in
    (
      le-dmin (nat 0) top x low (⊕_nonneg b.tokens (elapsed ⊗ rate safety b wall) h gain),
      dmin_left top x,
    )

-- What a pass leaves, whether it grants or sleeps.
abbrev pub left_by : Pass → Bucket
left_by (granted b) = b
left_by (sleep d b) = b

-- A pass keeps the tokens between zero and the larger of the capacity and what was asked for.
pub pass-Within :
    (safety wanted : Decimal) (wall : ℕ) (now : Decimal) (b : Bucket)
    → nat 0 ≤ᵈ wanted
    → nat 0 ≤ᵈ b.tokens
    → Within (dmax (capacity b wall) wanted) (left_by (pass safety wanted wall now b)).tokens
unfolding pass take_tokens
pass-Within safety wanted wall now b w h =
    let filled = refill safety wanted wall now b in
    let top = dmax (capacity b wall) wanted in
    let (low, high) = refill-Within safety wanted wall now b h in
    elim (Bool-cases (le wanted filled.tokens)) [
      | inl e ↦ rw e (
        ⊖_nonneg filled.tokens wanted (ground arith),
        ≤ᵈ_trans (filled.tokens ⊖ wanted) filled.tokens top (⊖_le filled.tokens wanted w) high,
      )
      | inr e ↦ rw e (low, high)
    ]

pub refill-updated :
    (safety wanted : Decimal) (wall : ℕ) (now : Decimal) (b : Bucket)
    → (refill safety wanted wall now b).updated ≡ now
unfolding refill
refill-updated safety wanted wall now b = refl

-- The bucket right after a penalty.
abbrev drained : Decimal → Bucket → Bucket
drained until b = record b { tokens = nat 0; updated = until }

penalize-drained :
    (since retry_after : Decimal) (b : Bucket)
    → nat 0 <ᵈ retry_after
    → penalize since (some retry_after) b ≡ drained (since ⊕ retry_after) b
unfolding penalize
penalize-drained since retry_after b h = ground arith

zero_gain : (r : Decimal) → nat 0 ⊕ nat 0 ⊗ r ≤ᵈ nat 0
unfolding ◌⊕◌ ◌⊗◌
zero_gain r = omega arith

elapsed_none : (now until : Decimal) → now <ᵈ until → dmax (now ⊖ until) (nat 0) ≡ nat 0
unfolding dmax ◌⊖◌
elapsed_none now until h = ground arith

drained-tokens :
    (safety wanted : Decimal) (wall : ℕ) (now until : Decimal) (b : Bucket)
    → now <ᵈ until
    → (refill safety wanted wall now (drained until b)).tokens ≤ᵈ nat 0
unfolding refill
drained-tokens safety wanted wall now until b h =
    let r = rate safety (drained until b) wall in
    let top = dmax (capacity (drained until b) wall) wanted in
    rw (elapsed_none now until h) (
      ≤ᵈ_trans (dmin top (nat 0 ⊕ nat 0 ⊗ r)) (nat 0 ⊕ nat 0 ⊗ r) (nat 0)
        (dmin_right top (nat 0 ⊕ nat 0 ⊗ r)) (zero_gain r))

drained-same :
    (safety wanted : Decimal) (wall : ℕ) (now until until' : Decimal) (b : Bucket)
    → now <ᵈ until
    → now <ᵈ until'
    → refill safety wanted wall now (drained until b)
      ≡ refill safety wanted wall now (drained until' b)
unfolding refill capacity limit_of rate
drained-same safety wanted wall now until until' b h k =
    rw (elapsed_none now until h, elapsed_none now until' k) refl

-- The pass sleeps for what is missing of the tokens, and leaves the bucket `b'`.
abbrev pub Sleeps : Decimal → Decimal → Pass → Bucket → Type 0
Sleeps r wanted p b' = p ≡ sleep (dmax ((wanted ⊖ b'.tokens) ⊘ r) (frac 5 999)) b'

take_tokens-Sleeps :
    (r wanted : Decimal) (b : Bucket)
    → nat 0 <ᵈ wanted
    → b.tokens ≤ᵈ nat 0
    → Sleeps r wanted (take_tokens r wanted b) b
unfolding take_tokens
take_tokens-Sleeps r wanted b w h = elim (Bool-cases (le wanted b.tokens)) [
  | inl e ↦
      let k = ≤ᵈ_trans wanted b.tokens (nat 0) (ground arith) h in absurd (omega (arith, k, w))
  | inr e ↦ rw e refl
]

-- A pass before the end of a penalty forgets it: it finds exactly no token, sleeps for one refill of
-- what was asked for, and counts that refill from its own instant; and it is the same pass for any
-- longer or shorter wait that the server might have asked for and that is not over either.
pub penalize_forgotten :
    (safety wanted retry_after other : Decimal) (wall : ℕ) (since now : Decimal) (b : Bucket)
    → nat 0 <ᵈ retry_after
    → nat 0 <ᵈ other
    → nat 0 <ᵈ wanted
    → now <ᵈ since ⊕ retry_after
    → now <ᵈ since ⊕ other
    → let done = pass safety wanted wall now (penalize since (some retry_after) b) in
      ((b' : Bucket) × (b'.updated ≡ now)
        × (b'.tokens ≈ nat 0)
        × Sleeps (rate safety b wall) wanted done b')
      × (done ≡ pass safety wanted wall now (penalize since (some other) b))
unfolding pass rate limit_of
penalize_forgotten safety wanted retry_after other wall since now b positive positive' w early
      early' =
    let c = drained (since ⊕ retry_after) b in
    let none_left = drained-tokens safety wanted wall now (since ⊕ retry_after) b early in
    let b' = refill safety wanted wall now c in
    let (low, high) = refill-Within safety wanted wall now c (≤ᵈ_refl (nat 0)) in
    (
      (
        b',
        refill-updated safety wanted wall now c,
        (none_left, low),
        rw (penalize-drained since retry_after b positive)
            (take_tokens-Sleeps (rate safety c wall) wanted b' w none_left),
      ),
      rw
          (
            penalize-drained since retry_after b positive,
            penalize-drained since other b positive',
            drained-same safety wanted wall now (since ⊕ retry_after) (since ⊕ other) b early
                early',
          )
          refl,
    )
