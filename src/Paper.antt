-- ===== src/Paper.antt =====
-- src/tqt/execution/paper.py: the simulated broker. The client's answers are parameters; an order
-- id and the instant are arguments of `submit`. Every write of one submission stands in one
-- transaction of the source. Account has the ledger, Fill the sizing and the booking of an order.
pub mod Account
pub mod Fill
pub mod Holdings
pub mod Cash
pub mod Sized
pub mod Booking
pub mod Audit
mod Tests
use toss_api_quant_trading.Prelude.{
  ℕ, Bool, true, false, not, Option, none, some, List, [], ◌∷◌, ◌++◌, String, member, if◌then◌else◌,
}
use toss_api_quant_trading.Prelude.Dict.{Dict, lookup, insert, erase, keys}
use toss_api_quant_trading.Decimal.{
  Decimal, nat, ◌⊕◌, ◌⊖◌, ◌⊗◌, ◌⊘◌, le, lt, is_zero, dmin, truncate,
}
use toss_api_quant_trading.Universe.{
  Country, kr, us, Side, buy, sell, Currency, krw, usd, country_of, currency_of,
}
use toss_api_quant_trading.Costs.{TradeCost, CostModel, total, cost_of}
use toss_api_quant_trading.Broker.{
  Position, OrderIntent, OrderType, OrderResult, AccountSnapshot, Status, filled, SubmitError,
  no_market_price, no_quantity, rounds_to_zero, nothing_to_sell, insufficient_cash, refusal,
}
use toss_api_quant_trading.Store.{
  Store, BrokerName, paper, same_broker, OrderRow, FillRow, EquityRow, paper_init, log_event,
}
use toss_api_quant_trading.Paper.Account.{
  PaperBroker, Market, current_fx, execution_price, positions,
}
use toss_api_quant_trading.Paper.Fill.{Sizing, refused, size, resolve_quantity, trim, execute}

abbrev pub then_trim : Sizing → Side → Option Position → Sizing
then_trim (refused e) side held = refused e
then_trim (size qty) side held = trim side held qty

-- The rate that applies, and the store after it was asked for.
abbrev pub rate_for : Country → Market → Store → Decimal × Store
rate_for kr mk s = (nat 1, s)
rate_for us mk s = current_fx mk s

unfoldable pub submit_at :
    PaperBroker → Market → OrderIntent → String → ℕ → Decimal → Store → OrderResult × Store
submit_at b mk intent order_id now px s =
    if le px (nat 0)
    then (refusal intent.symbol intent.side no_market_price, s)
    else let country = country_of intent.symbol in
      let (fx, s') = rate_for country mk s in
      let held = lookup intent.symbol (positions s'.positions) in
      execute b intent order_id now px fx held
        (then_trim (resolve_quantity intent px country) intent.side held) s'

unfoldable pub with_price :
    PaperBroker → Market → OrderIntent → String → ℕ → Option Decimal → Store → OrderResult × Store
with_price b mk intent order_id now none s = (refusal intent.symbol intent.side no_market_price, s)
with_price b mk intent order_id now (some px) s = submit_at b mk intent order_id now px s

unfoldable pub submit :
    PaperBroker → Market → OrderIntent → String → ℕ → Store → OrderResult × Store
submit b mk intent order_id now s =
    with_price b mk intent order_id now (execution_price mk intent.symbol intent.side).0 s
