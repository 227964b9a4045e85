-- ===== src/Toss/Client.antt =====
-- src/tqt/toss/client.py: the request loop of `_request`. The HTTP server, the token manager and
-- the jitter are parameters, given for each attempt; parsing of payloads is left to the server.
pub mod Retry
mod Tests
use toss_api_quant_trading.Decimal.{Decimal, nat, ◌⊕◌, ◌⊗◌, frac, is_zero}
use toss_api_quant_trading.Toss.Errors.{
  TossError, ErrorClass, retryable, rate_limit, has_code, auth, transport, conflict, from_response,
}
use toss_api_quant_trading.Prelude.{
  Option, none, some, Bool, true, false, not, ℕ, List, [], ◌∷◌, String, ◌+◌, if◌then◌else◌, suc,
  ◌*◌, ltb, ◌||◌, ◌==◌, ◌++◌, zero, min, ◌-◌,
}

-- What one HTTP exchange brings: a network failure, or a status with what the loop reads of it.
pub data Reply {ℓ} (A : Type ℓ) : Type ℓ where
  failed : Reply A
  answered : ℕ → A → Option String → Option Decimal → Reply A

-- How a call ends.
pub data Ending {ℓ} (A : Type ℓ) : Type ℓ where
  returned : A → Ending A
  raised : TossError → Ending A

-- What a call did besides: requests sent, responses seen (`request_count`), the penalties given to
-- the limiter, the tokens dropped, and the sleeps.
pub record Effects : Type 0 where
  pub sent : ℕ
  pub responses : ℕ
  pub penalties : List (Option Decimal)
  pub invalidations : ℕ
  pub sleeps : List Decimal

abbrev pub no_effects : Effects
no_effects = record { sent = 0; responses = 0; penalties = []; invalidations = 0; sleeps = [] }

-- What reading `account_seq` for the header brings: it is known already, or the call needs none; or a
-- nested call resolves it, which is kept for later attempts; or that call raises.
pub data Header : Type 0 where
  known : Header
  resolved : Effects → Header
  unresolved : TossError → Effects → Header

pub record Exchange {ℓ} (A : Type ℓ) : Type ℓ where
  pub token : ℕ → Option TossError
  pub header : Header
  pub reply : ℕ → Reply A
  pub jitter : ℕ → Decimal
  pub max_retries : ℕ
  pub idempotent : Bool

abbrev pub transport_error : TossError
transport_error = record { class = transport; status = none; code = none; retry_after = none }

power : ℕ → ℕ
power zero = 1
power (suc n) = 2 * power n

-- `retry_after if retry_after else min(2.0 ** (attempt - 1), 30.0)`
unfoldable pub base_delay : ℕ → Option Decimal → Decimal
unfolding power
base_delay attempt none = nat (min (power (attempt - 1)) 30)
base_delay attempt (some r) = if is_zero r then nat (min (power (attempt - 1)) 30) else r

-- `_sleep_backoff`: the jitter is a fraction of a quarter of the delay.
unfoldable pub backoff : Decimal → ℕ → Option Decimal → Decimal
backoff jitter attempt retry_after =
    let delay = base_delay attempt retry_after in delay ⊕ jitter ⊗ (frac 1 3 ⊗ delay)

-- A conflict with our own request in flight is worth waiting for.
abbrev transient : ErrorClass → Option String → Bool
transient conflict code = has_code code "request-in-progress"
transient _ code = false

abbrev pub worth_retrying : TossError → Bool
worth_retrying e = retryable e || transient e.class e.code

-- `if isinstance(exc_obj, TossRateLimitError): self.limiter.penalize(…)`
abbrev pub penalized : ErrorClass → Option Decimal → Effects → Effects
penalized rate_limit r fx = record fx { penalties = r ∷ fx.penalties }
penalized _ r fx = fx

-- `if isinstance(exc_obj, TossAuthError): self.tokens.invalidate()`
abbrev pub invalidated : ErrorClass → Effects → Effects
invalidated auth fx = record fx { invalidations = fx.invalidations + 1 }
invalidated _ fx = fx

abbrev pub slept : Decimal → Effects → Effects
slept d fx = record fx { sleeps = d ∷ fx.sleeps }

abbrev pub once_more : Effects → Effects
once_more fx = record fx { sent = fx.sent + 1 }

abbrev pub seen : Effects → Effects
seen fx = record fx { responses = fx.responses + 1 }

-- The effects of a nested call, before those of the call.
abbrev pub with_nested : Effects → Effects → Effects
with_nested nested fx = record {
  sent = nested.sent + fx.sent;
  responses = nested.responses + fx.responses;
  penalties = nested.penalties ++ fx.penalties;
  invalidations = nested.invalidations + fx.invalidations;
  sleeps = nested.sleeps ++ fx.sleeps;
}

-- One attempt: an ending, or the effects with which the next attempt begins.
pub data Step {ℓ} (A : Type ℓ) : Type ℓ where
  ends : Ending A → Effects → Step A
  again : Effects → Step A

module _ {ℓ} {A : Type ℓ} (x : Exchange A) where
  -- A transport failure.
  abbrev pub on_failure : ℕ → Effects → Step A
  on_failure n fx =
      if not x.idempotent || ltb x.max_retries n
      then ends (raised transport_error) fx
      else again (slept (backoff (x.jitter n) n none) fx)

  -- An error response.
  abbrev pub on_error : ℕ → TossError → Effects → Step A
  on_error n e fx =
      let fx' = penalized e.class e.retry_after fx in
      if ltb x.max_retries n || not (worth_retrying e)
      then ends (raised e) fx'
      else again (slept (backoff (x.jitter n) n e.retry_after) (invalidated e.class fx'))

  abbrev pub on_reply : ℕ → Reply A → Effects → Step A
  on_reply n failed fx = on_failure n fx
  on_reply n (answered status payload code retry_after) fx =
      if ltb status 400
      then ends (returned payload) (seen fx)
      else on_error n (from_response status code retry_after) (seen fx)

  -- The account header of an attempt, and then the request.
  abbrev pub on_header : ℕ → Header → Effects → Step A
  on_header n known fx = on_reply n (x.reply n) (once_more fx)
  on_header n (resolved nested) fx = on_reply n (x.reply n) (once_more (with_nested nested fx))
  on_header n (unresolved e nested) fx = ends (raised e) (with_nested nested fx)

  -- Only the first attempt can find the account unknown.
  abbrev pub header_at : ℕ → Header
  header_at n = if n == 1 then x.header else known

  abbrev pub on_token : ℕ → Option TossError → Effects → Step A
  on_token n (some e) fx = ends (raised e) fx
  on_token n none fx = on_header n (header_at n) fx

  -- The body of the loop at attempt `n`.
  unfoldable pub attempt : ℕ → Effects → Step A
  attempt n fx = on_token n (x.token n) fx

  -- `while True`, on fuel; `none` means that the fuel ran out.
  unfoldable pub loop : ℕ → ℕ → Effects → Option (Ending A × Effects)
  loop zero n fx = none
  loop (suc fuel) n fx = elim (attempt n fx) [
    | ends ending fx' ↦ some (ending, fx')
    | again fx' ↦ loop fuel (suc n) fx'
  ]

  -- `_request`: the first attempt is number 1. The fuel is one more than the retries.
  unfoldable pub request : Option (Ending A × Effects)
  request = loop (suc x.max_retries) 1 no_effects
