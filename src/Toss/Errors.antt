-- ===== src/Toss/Errors.antt =====
-- src/tqt/toss/errors.py: the exception classes, and which of them are worth a retry. Messages,
-- request ids and the `data` of the envelope are left out.
use toss_api_quant_trading.Decimal.{Decimal}
use toss_api_quant_trading.Prelude.{
  Option, none, some, Bool, true, false, not, ℕ, List, [], ◌∷◌, String, str_eq, if◌then◌else◌,
  member, ◌==◌, ◌≡◌, leb, ◌&&◌, arith,
}

-- The subclasses of `TossError`, and the class itself.
pub data ErrorClass : Type 0 where
  plain transport auth ip_blocked forbidden not_found conflict rate_limit rejected_order server :
      ErrorClass

pub record TossError : Type 0 where
  pub class : ErrorClass
  pub status : Option ℕ
  pub code : Option String
  pub retry_after : Option Decimal

-- `code == text`, which no missing code satisfies.
abbrev pub has_code : Option String → String → Bool
has_code none text = false
has_code (some c) text = str_eq c text

abbrev pub in_codes : Option String → List String → Bool
in_codes none cs = false
in_codes (some c) cs = member c cs

abbrev retryable_class : ErrorClass → Option String → Bool
retryable_class transport code = true
retryable_class auth code = in_codes code ("expired-token" ∷ "invalid-token" ∷ [])
retryable_class rate_limit code = true
retryable_class server code = not (has_code code "maintenance")
retryable_class _ code = false

-- The property `retryable` of each class.
unfoldable pub retryable : TossError → Bool
retryable e = retryable_class e.class e.code

abbrev pub halt_worthy_codes : List String
halt_worthy_codes =
    "account-restricted" ∷ "prerequisite-required" ∷ "order-limit-exceeded" ∷ "maintenance" ∷ []

abbrev pub skip_symbol_codes : List String
skip_symbol_codes =
    "stock-restricted" ∷ "price-out-of-range" ∷ "invalid-tick-size" ∷ "order-type-not-allowed"
    ∷ "market-not-supported-for-stock" ∷ "opposite-pending-order-exists" ∷ "stock-not-found"
    ∷ "amount-order-outside-regular-hours" ∷ "fractional-quantity-outside-regular-hours" ∷ []

-- `_STATUS_MAP.get(status, TossError)`
unfoldable pub status_map : ℕ → ErrorClass
status_map status =
    if status == 401
    then auth
    else if status == 404
    then not_found
    else if status == 409
    then conflict
    else if status == 422
    then rejected_order
    else if status == 429
    then rate_limit
    else plain

unfoldable pub class_of : ℕ → Option String → ErrorClass
class_of status code =
    if status == 403
    then if has_code code "edge-blocked" then ip_blocked else forbidden
    else if status == 429
    then rate_limit
    else if leb 500 status
    then server
    else if status == 400 && has_code code "account-header-required"
    then forbidden
    else status_map status

-- `from_response`, on the status, the code of the parsed envelope and the Retry-After header, which
-- only a 429 keeps.
unfoldable pub from_response : ℕ → Option String → Option Decimal → TossError
from_response status code retry_after = record {
  class = class_of status code;
  status = some status;
  code = code;
  retry_after = if status == 429 then retry_after else none;
}

-- The retry decision by status: 429 always, 5xx unless it is maintenance, 401 for the two token
-- codes, and nothing else.
pub from_response-retryable :
    (status : ℕ) (code : Option String) (retry_after : Option Decimal)
    → retryable (from_response status code retry_after) ≡ (
        if status == 429
        then true
        else if leb 500 status
        then not (has_code code "maintenance")
        else if status == 401
        then in_codes code ("expired-token" ∷ "invalid-token" ∷ [])
        else false)
unfolding retryable from_response class_of status_map
from_response-retryable status code retry_after = ground arith
