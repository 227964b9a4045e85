-- ===== src/Runner/Intents/Tests.antt =====
-- The orders of a cycle that moves from one stock to another.
use toss_api_quant_trading.Universe.{krw, kr}
use toss_api_quant_trading.Runner.Intents.Sizes.{IsPlannedFor, build_intents-IsPlanned}
use toss_api_quant_trading.Runner.Intents.{build_intents}
use toss_api_quant_trading.Decimal.{Decimal, nat, frac}
use toss_api_quant_trading.Runner.Intents.Order.{SellsFirst, build_intents-SellsFirst}
use toss_api_quant_trading.Broker.{AccountSnapshot, Position}
use toss_api_quant_trading.Prelude.Dict.{Dict}
use toss_api_quant_trading.Prelude.{String, All, Option, ◌∷◌, some, []}

abbrev held : Position
held = record { symbol = "005930"; quantity = nat 10; avg_price = nat 60000; currency = krw }

abbrev account : AccountSnapshot
account = record {
  cash_krw = nat 400000;
  positions = ("005930", held) ∷ [];
  usd_krw = nat 1400;
  prices = [];
}

abbrev price_of : String → Option Decimal
price_of symbol = some (nat 60000)

abbrev targets : Dict Decimal
targets = ("000660", frac 1 1) ∷ []

build_intents-SellsFirst_example : SellsFirst (build_intents price_of targets account (kr ∷ []))
build_intents-SellsFirst_example = build_intents-SellsFirst price_of targets account (kr ∷ [])

build_intents-IsPlanned_example :
    All
      (λ x. (symbol : String) × IsPlannedFor price_of account (kr ∷ []) symbol x)
      (build_intents price_of targets account (kr ∷ []))
build_intents-IsPlanned_example = build_intents-IsPlanned price_of targets account (kr ∷ [])
