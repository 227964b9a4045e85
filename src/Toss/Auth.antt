-- ===== src/Toss/Auth.antt =====
-- src/tqt/toss/auth.py: the cache of the bearer token. The clock and the token endpoint's answer are
-- arguments; the lock and the limiter's wait before a request are left out.
pub mod Fresh
mod Tests
use toss_api_quant_trading.Toss.Errors.{TossError, transport, from_response}
use toss_api_quant_trading.Decimal.{Decimal, nat, dmax, is_zero, ◌⊕◌, lt, ◌⊖◌}
use toss_api_quant_trading.Prelude.{Option, ℕ, String, none, some, if◌then◌else◌, leb, str_eq, ◌+◌}

pub record TokenManager : Type 0 where
  pub margin : Decimal
  pub token : Option String
  pub expires_at : Decimal
  pub issued_count : ℕ

-- What the endpoint answers: no answer, or a status with its error code, the access token and its
-- lifetime.
pub data TokenReply : Type 0 where
  unreachable : TokenReply
  replied : ℕ → Option String → Option String → Option Decimal → TokenReply

-- `TokenManager.__init__`
unfoldable pub new_manager : Decimal → TokenManager
new_manager margin = record { margin = margin; token = none; expires_at = nat 0; issued_count = 0 }

unfoldable pub expires_in : Decimal → TokenManager → Decimal
expires_in now m = dmax (m.expires_at ⊖ now) (nat 0)

unfoldable pub invalidate : TokenManager → TokenManager
invalidate m = record m { token = none; expires_at = nat 0 }

-- `float(payload.get("expires_in") or 3600)`
abbrev pub lifetime : Option Decimal → Decimal
lifetime none = nat 3600
lifetime (some x) = if is_zero x then nat 3600 else x

-- `if not token`, of a token that the payload may lack.
abbrev pub usable : Option String → Option String
usable none = none
usable (some t) = if str_eq t "" then none else some t

abbrev pub bare_transport_error : TossError
bare_transport_error = record { class = transport; status = none; code = none; retry_after = none }

pub data Issued : Type 0 where
  issued : String → TokenManager → Issued
  not_issued : TossError → TokenManager → Issued

abbrev pub keep : Option String → Option Decimal → Decimal → TokenManager → Issued
keep none life now m = not_issued bare_transport_error m
keep (some t) life now m = issued t (record m {
  token = some t;
  expires_at = now ⊕ lifetime life;
  issued_count = m.issued_count + 1;
})

-- `_issue_locked`; `now` is the clock after the answer.
unfoldable pub issue : TokenReply → Decimal → TokenManager → Issued
issue unreachable now m = not_issued bare_transport_error m
issue (replied status code access life) now m =
    if leb 400 status
    then not_issued (from_response status code none) m
    else keep (usable access) life now m

-- `if self._token and self._clock() < self._expires_at - self._margin`
abbrev pub cached : Option String → Decimal → TokenManager → Option String
cached none now m = none
cached (some t) now m = if lt now (m.expires_at ⊖ m.margin) then some t else none

abbrev pub reuse : Option String → TokenReply → Decimal → TokenManager → Issued
reuse (some t) r later m = issued t m
reuse none r later m = issue r later m

-- `token`: the clock before the request, and after it.
unfoldable pub token : Decimal → TokenReply → Decimal → TokenManager → Issued
token now r later m = reuse (cached (usable m.token) now m) r later m
