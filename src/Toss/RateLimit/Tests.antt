-- ===== src/Toss/RateLimit/Tests.antt =====
-- A bucket of one request per second, under a penalty of a minute.
use toss_api_quant_trading.Toss.RateLimit.Progress.{acquire_ends}
use toss_api_quant_trading.Toss.RateLimit.Bounds.{Sleeps, penalize_forgotten}
use toss_api_quant_trading.Toss.RateLimit.{
  Bucket, pass, take_tokens, flat, acquire, refill, capacity, safety_factor, rate, penalize,
  limit_of, limit_at, sleep,
}
use toss_api_quant_trading.Decimal.{
  ◌≈◌, Decimal, nat, dmax, ◌≤ᵈ◌, ◌⊕◌, dmin, inverse, ◌⊖◌, ◌⊗◌, ◌⊘◌, is_zero,
}
use toss_api_quant_trading.Prelude.{refl, ℕ, ◌≡◌, none, ◌*◌, some, arith}

abbrev account_bucket : Bucket
account_bucket = record { group = flat 1; tokens = nat 1; updated = nat 0; server_limit = none }

penalize_forgotten_example :
    let done =
      pass safety_factor (nat 1) 0 (nat 11) (penalize (nat 10) (some (nat 60)) account_bucket) in
    ((b' : Bucket) × (b'.updated ≡ nat 11)
      × (b'.tokens ≈ nat 0)
      × Sleeps (rate safety_factor account_bucket 0) (nat 1) done b')
    × (done
        ≡ pass safety_factor (nat 1) 0 (nat 11) (penalize (nat 10) (some (nat 5)) account_bucket))
penalize_forgotten_example =
    penalize_forgotten safety_factor (nat 1) (nat 60) (nat 5) 0 (nat 10) (nat 11) account_bucket
      (omega arith) (omega arith) (omega arith) (unfold ◌⊕◌ in omega arith)
      (unfold ◌⊕◌ in omega arith)

abbrev empty_bucket : Bucket
empty_bucket = record account_bucket { tokens = nat 0 }

-- A clock that moves by one hundred seconds from pass to pass.
abbrev ticking : ℕ → Decimal
ticking n = nat (100 * n)

one_sleep :
    (d : Decimal) (b' : Bucket)
    → pass safety_factor (nat 1) 0 (nat 0) empty_bucket ≡ sleep d b'
    → nat 0 ⊕ d ≤ᵈ nat 100
unfolding pass take_tokens refill capacity rate limit_of limit_at dmax dmin inverse ◌⊕◌ ◌⊖◌ ◌⊗◌ ◌⊘◌
    is_zero
one_sleep d b' e = ground arith

acquire_ends_example :
    (out : Decimal × Bucket) × (acquire safety_factor
        (nat 1)
        (λ n. 0)
        ticking
        2
        0
        empty_bucket
        (nat 0)
      ≡ some out)
acquire_ends_example =
    acquire_ends safety_factor (nat 1) (λ n. 0) ticking empty_bucket refl one_sleep
