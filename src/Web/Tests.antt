-- ===== src/Web/Tests.antt =====
-- A dashboard over the paper broker, and one without a runner.
use toss_api_quant_trading.Prelude.{some, none, List, [], ◌∷◌, ◌≡◌, refl, true, ℕ}
use toss_api_quant_trading.Store.{empty_store}
use toss_api_quant_trading.Runner.{BrokerOps}
use toss_api_quant_trading.Risk.{halt}
use toss_api_quant_trading.Store.{log_event}
use toss_api_quant_trading.Runner.PaperOps.{paper_ops}
use toss_api_quant_trading.Paper.Account.{Market}
use toss_api_quant_trading.Costs.{default_model}
use toss_api_quant_trading.Prelude.{false}
use toss_api_quant_trading.Web.{
  Request, respond, respond_all, create_app, post_halt, auth, supplied_token, no_runner,
}
use toss_api_quant_trading.Web.Guard.{with_secret, respond_all-with_secret}

abbrev quotes : Market
quotes = record {
  book = λ symbol. none;
  last = λ symbol. none;
  usd_krw = none;
  marks = λ symbols. none;
}

abbrev runner : BrokerOps
runner = paper_ops (record { cost_model = default_model; etf_symbols = [] }) quotes (λ n. "id")

abbrev stranger : Request
stranger = record { endpoint = post_halt "x"; token = some "guess"; cookie = none }

abbrev owner : Request
owner = record { endpoint = post_halt "x"; token = none; cookie = some "secret" }

abbrev requests : List (ℕ × Request)
requests = (100, stranger) ∷ (200, owner) ∷ []

started : create_app "secret" ≡ some "secret"
unfolding create_app
started = refl

respond_all-with_secret_example :
    respond_all (some runner) "secret" requests empty_store
    ≡ respond_all (some runner) "secret" (with_secret "secret" requests) empty_store
respond_all-with_secret_example =
    respond_all-with_secret (some runner) "secret" requests empty_store started

test_no_runner : (respond none "secret" owner 100 empty_store).0 ≡ no_runner
unfolding respond auth supplied_token
test_no_runner = refl

-- The owner's halt counts, the stranger's does not.
test_halted : (respond_all (some runner) "secret" requests empty_store).halted ≡ true
unfolding respond_all respond auth supplied_token halt log_event
test_halted = refl

test_stranger : (respond (some runner) "secret" stranger 100 empty_store).1.halted ≡ false
unfolding respond auth supplied_token
test_stranger = refl
