-- ===== src/Toss/Client/Tests.antt =====
-- Calls through the request loop.
use toss_api_quant_trading.Toss.Client.Retry.{request_ends}
use toss_api_quant_trading.Toss.Queries.{Account}
use toss_api_quant_trading.Decimal.{nat}
use toss_api_quant_trading.Prelude.{
  ℕ, none, some, ◌≡◌, true, ◌≤◌, if◌then◌else◌, ◌==◌, List, ◌∷◌, [],
}
use toss_api_quant_trading.Toss.Client.{Exchange, Ending, Reply, Effects, request, answered, known}

-- A server that fails twice and then answers.
abbrev flaky : ℕ → Reply ℕ
flaky n =
    if n == 1
    then answered 503 0 none none
    else if n == 2
    then answered 429 0 none (some (nat 5))
    else answered 200 42 none none

abbrev flaky_exchange : Exchange ℕ
flaky_exchange = record {
  token = λ n. none;
  header = known;
  reply = flaky;
  jitter = λ n. nat 0;
  max_retries = 3;
  idempotent = true;
}

request_ends_example :
    (out : Ending ℕ × Effects) × (request flaky_exchange ≡ some out) × (out.1.sent ≤ 4)
request_ends_example = request_ends flaky_exchange

-- A call for the account list that is answered at once.
abbrev account_exchange : Exchange (List Account)
account_exchange = record {
  token = λ n. none;
  header = known;
  reply = λ n. answered 200 (record { account_no = "123-45"; account_seq = 7 } ∷ []) none none;
  jitter = λ n. nat 0;
  max_retries = 3;
  idempotent = true;
}
