-- ===== src/Toss/Client/Retry.antt =====
-- The request loop ends, keeps to its number of attempts, and recovers from transient failures.
use toss_api_quant_trading.Toss.Errors.{from_response, ErrorClass}
use toss_api_quant_trading.Decimal.{Decimal}
use toss_api_quant_trading.Toss.Client.{
  Exchange, Step, attempt, Reply, request, Ending, loop, Effects, on_reply, ends, answered, again,
  worth_retrying, failed, no_effects, once_more, returned, raised, slept, backoff, invalidated,
  penalized, seen, Header, known, resolved, unresolved, on_header, header_at, with_nested,
}
use toss_api_quant_trading.Prelude.{
  ◌≡◌, refl, Bool, ℕ, Option, true, String, some, ◌≤◌, ◌<◌, if◌then◌else◌, ◌⊎◌, ◌+◌, arith, suc,
  inl, ltb, false, inr, zero, none, ◌==◌,
}

pub Step-cases {ℓ} :
    {A : Type ℓ} (t : Step A)
    → ((r : Ending A) × (fx : Effects) × (t ≡ ends r fx)) ⊎ ((fx : Effects) × (t ≡ again fx))
Step-cases (ends r fx) = inl (r, fx, refl)
Step-cases (again fx) = inr (fx, refl)

-- A reply after which the loop tries again, while retries are left.
abbrev pub IsTransient {ℓ} : {A : Type ℓ} → Bool → Reply A → Type 0
IsTransient idempotent failed = idempotent ≡ true
IsTransient idempotent (answered status payload code retry_after) =
    (400 ≤ status) × (worth_retrying (from_response status code retry_after) ≡ true)

-- A response after which the loop ends, and how.
abbrev pub IsFinal : ℕ → Option String → Option Decimal → Type 0
IsFinal status code retry_after =
    (status < 400) ⊎ (worth_retrying (from_response status code retry_after) ≡ false)

abbrev pub outcome_of {ℓ} : {A : Type ℓ} → ℕ → A → Option String → Option Decimal → Ending A
outcome_of status payload code retry_after =
    if ltb status 400 then returned payload else raised (from_response status code retry_after)

invalidated-penalized_sent :
    (c : ErrorClass) (r : Option Decimal) (fx : Effects)
    → (invalidated c (penalized c r (seen fx))).sent ≡ fx.sent
invalidated-penalized_sent c r fx = ground arith

-- The requests of the nested call for the account header.
abbrev pub nested_sent : Header → ℕ
nested_sent known = 0
nested_sent (resolved nested) = nested.sent
nested_sent (unresolved e nested) = nested.sent

module _ {ℓ} {A : Type ℓ} (x : Exchange A) where
  on_reply_again :
      (n : ℕ) (r : Reply A) (fx fx' : Effects)
      → on_reply x n r fx ≡ again fx'
      → (n ≤ x.max_retries) × (fx'.sent ≡ fx.sent)
  on_reply_again n failed fx fx' e = ground arith
  on_reply_again n (answered status payload code retry_after) fx fx' e = ground arith

  on_header_again :
      (n : ℕ) (h : Header) (fx fx' : Effects)
      → on_header x n h fx ≡ again fx'
      → (n ≤ x.max_retries) × (fx'.sent ≡ fx.sent + 1 + nested_sent h)
  on_header_again n known fx fx' e = ground (arith, on_reply_again n (x.reply n) (once_more fx) fx')
  on_header_again n (resolved nested) fx fx' e =
      ground (arith, on_reply_again n (x.reply n) (once_more (with_nested nested fx)) fx')
  on_header_again n (unresolved err nested) fx fx' e = absurd (cc)

  on_reply_ends :
      (n : ℕ) (r : Reply A) (fx fx' : Effects) (o : Ending A)
      → on_reply x n r fx ≡ ends o fx'
      → fx'.sent ≡ fx.sent
  on_reply_ends n failed fx fx' o e = ground arith
  on_reply_ends n (answered status payload code retry_after) fx fx' o e = ground arith

  on_header_ends :
      (n : ℕ) (h : Header) (fx fx' : Effects) (o : Ending A)
      → on_header x n h fx ≡ ends o fx'
      → fx'.sent ≤ fx.sent + 1 + nested_sent h
  on_header_ends n known fx fx' o e =
      ground (arith, on_reply_ends n (x.reply n) (once_more fx) fx' o)
  on_header_ends n (resolved nested) fx fx' o e =
      ground (arith, on_reply_ends n (x.reply n) (once_more (with_nested nested fx)) fx' o)
  on_header_ends n (unresolved err nested) fx fx' o e = ground arith

  attempt_again :
      (n : ℕ) (fx fx' : Effects)
      → attempt x n fx ≡ again fx'
      → (n ≤ x.max_retries) × (fx'.sent ≡ fx.sent + 1 + nested_sent (header_at x n))
  unfolding attempt
  attempt_again n fx fx' e = ground (arith, on_header_again n (header_at x n) fx fx')

  attempt_ends :
      (n : ℕ) (fx fx' : Effects) (o : Ending A)
      → attempt x n fx ≡ ends o fx'
      → fx'.sent ≤ fx.sent + 1 + nested_sent (header_at x n)
  unfolding attempt
  attempt_ends n fx fx' o e = ground (arith, on_header_ends n (header_at x n) fx fx' o)

  -- After the first attempt there is no nested call.
  header_later : (n : ℕ) → 1 < n → nested_sent (header_at x n) ≡ 0
  header_later n h = let e : (n == 1) ≡ false = ground arith in rw e refl

  loop_ends :
      (fuel n : ℕ) (fx : Effects)
      → 1 < n
      → n ≤ suc x.max_retries
      → suc x.max_retries < fuel + n
      → fx.sent + 1 ≡ n + nested_sent x.header
      → (out : Ending A × Effects) × (loop x fuel n fx ≡ some out)
        × (out.1.sent ≤ suc x.max_retries + nested_sent x.header)
  unfolding loop
  loop_ends zero n fx late low enough count = absurd (omega arith)
  loop_ends (suc fuel) n fx late low enough count = elim (Step-cases (attempt x n fx)) [
    | inl (o, fx', e) ↦
        ((o, fx'), rw (e, loop) refl, omega (arith, attempt_ends n fx fx' o e, header_later n late))
    | inr (fx', e) ↦
        let (left, more) = attempt_again n fx fx' e in
        let (out, done, few) =
          loop_ends fuel (suc n) fx' (omega arith) (omega arith) (omega arith)
            (omega (arith, header_later n late)) in
        (out, rw (e, loop) done, few)
  ]

  -- Every call ends, with a result or a raised error, and sends at most one request more than
  -- `max_retries`, besides those that the nested call for its account header sends, whatever the
  -- server does.
  pub request_ends :
      (out : Ending A × Effects) × (request x ≡ some out)
      × (out.1.sent ≤ x.max_retries + 1 + nested_sent x.header)
  unfolding request loop
  request_ends = elim (Step-cases (attempt x 1 no_effects)) [
    | inl (o, fx', e) ↦
        ((o, fx'), rw (e, loop) refl, omega (arith, attempt_ends 1 no_effects fx' o e))
    | inr (fx', e) ↦
        let (left, more) = attempt_again 1 no_effects fx' e in
        let (out, done, few) =
          loop_ends x.max_retries 2 fx' (omega arith) (omega arith) (omega arith)
            (omega (arith, more)) in
        (out, rw (e, loop) done, omega (arith, few))
  ]

  -- A transient reply, with retries left, is followed by another attempt; a final one is not.
  pub on_reply_transient :
      (n : ℕ) (r : Reply A) (fx : Effects)
      → IsTransient x.idempotent r
      → n ≤ x.max_retries
      → (fx' : Effects) × (on_reply x n r fx ≡ again fx') × (fx'.sent ≡ fx.sent)
  on_reply_transient n failed fx t low =
      (slept (backoff (x.jitter n) n none) fx, ground arith, refl)
  on_reply_transient n (answered status payload code retry_after) fx (bad, worth) low =
      let e = from_response status code retry_after in
      (
        slept (backoff (x.jitter n) n e.retry_after)
            (invalidated e.class (penalized e.class e.retry_after (seen fx))),
        ground arith,
        invalidated-penalized_sent e.class e.retry_after fx,
      )
