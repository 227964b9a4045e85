-- ===== src/Paper/Tests.antt =====
-- Submissions to the paper broker.
use toss_api_quant_trading.Paper.Fill.{
  execute, resolve_quantity, size_of, positive_size, trim, finish, settle, gross_krw, cost_krw,
}
use toss_api_quant_trading.Paper.Cash.{submit-buy_solvent}
use toss_api_quant_trading.Costs.{
  default_model, cost_of, total, commission_rate, tax_of, regulatory_of, fx_of, slippage_rate,
}
use toss_api_quant_trading.Universe.{buy, krw, country_of}
use toss_api_quant_trading.Prelude.{some, arith, [], none, ◌∷◌, refl, ◌≡◌}
use toss_api_quant_trading.Broker.{OrderIntent, market}
use toss_api_quant_trading.Store.{Store, empty_store}
use toss_api_quant_trading.Paper.Audit.{Outcome, submit-Outcome}
use toss_api_quant_trading.Paper.Holdings.{HoldingsOk, submit-HoldingsOk}
use toss_api_quant_trading.Decimal.{
  nat, ◌≤ᵈ◌, frac, is_zero, truncate, abs, inverse, ◌⊕◌, ◌⊗◌, ◌⊘◌, ◌⊖◌,
}
use toss_api_quant_trading.Paper.{submit, with_price, submit_at}
use toss_api_quant_trading.Paper.Account.{Market, PaperBroker, cash_of, execution_price, positions}

abbrev quotes : Market
quotes = record {
  book = λ symbol. some (some (nat 71000), some (nat 70900));
  last = λ symbol. some (nat 71000);
  usd_krw = none;
  marks = λ symbols. none;
}

abbrev broker : PaperBroker
broker = record { cost_model = default_model; etf_symbols = [] }

abbrev samsung_order : OrderIntent
samsung_order = record {
  symbol = "005930";
  side = buy;
  quantity = some (frac 7 1);
  order_type = market;
  price = none;
  order_amount = none;
  strategy = "faber";
  reason = "";
}

abbrev ledger : Store
ledger = record empty_store {
  cash = some (nat 1000000);
  positions =
      (
        "005930",
        record { symbol = "005930"; quantity = nat 10; avg_price = nat 60000; currency = krw },
      )
      ∷ [];
}

ledger-HoldingsOk : HoldingsOk ledger
ledger-HoldingsOk = ((omega arith, λ e. refl), _)

ledger_cash : nat 0 ≤ᵈ cash_of ledger
unfolding cash_of
ledger_cash = omega arith

-- Three and a half shares are cut to three whole ones.
buys_three : (submit broker quotes samsung_order "id" 5 ledger).0.filled_quantity ≡ nat 3
unfolding submit with_price submit_at execution_price is_zero execute resolve_quantity size_of
    positive_size truncate trim finish settle cash_of gross_krw cost_krw cost_of country_of
    positions total commission_rate tax_of regulatory_of fx_of slippage_rate abs inverse ◌⊕◌ ◌⊗◌ ◌⊘◌
    ◌⊖◌
buys_three = refl

submit-HoldingsOk_example : HoldingsOk (submit broker quotes samsung_order "id" 5 ledger).1
submit-HoldingsOk_example =
    submit-HoldingsOk broker quotes samsung_order "id" 5 ledger ledger-HoldingsOk

submit-Outcome_example :
    Outcome broker quotes samsung_order "id" 5 ledger
      (submit broker quotes samsung_order "id" 5 ledger)
submit-Outcome_example = submit-Outcome broker quotes samsung_order "id" 5 ledger

submit-buy_solvent_example : nat 0 ≤ᵈ cash_of (submit broker quotes samsung_order "id" 5 ledger).1
submit-buy_solvent_example =
    submit-buy_solvent broker quotes samsung_order "id" 5 ledger refl ledger_cash
