-- ===== src/Runner/LiveOps.antt =====
-- The live broker as the broker of a cycle. `view` is what the account gives each time that it is
-- read, at first and again after every fill, for the ledger at that moment; a read that raises ends
-- the cycle, and is not in the model. `ids` are the client order ids that it draws.
use toss_api_quant_trading.Decimal.{Decimal}
use toss_api_quant_trading.Prelude.Dict.{Dict}
use toss_api_quant_trading.Universe.{Country}
use toss_api_quant_trading.Live.Count.{live_submit-count}
use toss_api_quant_trading.Live.Orders.{live_submit}
use toss_api_quant_trading.Runner.{BrokerOps, Cadence, Clock, cycle}
use toss_api_quant_trading.Runner.Budget.{AddsOneOrder, cycle-budget}
use toss_api_quant_trading.Runner.Halted.{OnlyLooks}
use toss_api_quant_trading.Store.{Store, live, utc_day}
use toss_api_quant_trading.Prelude.{Option, ℕ, String, ◌≡◌, refl, some, List, none, Bool, ◌≤◌, max}
use toss_api_quant_trading.Live.{LiveBroker, live_price_of}
use toss_api_quant_trading.Risk.{orders_today, RiskManager}
use toss_api_quant_trading.Broker.{OrderIntent, AccountSnapshot, OrderResult, refusal, order_failed}

-- `submit` has a result for every market order with a quantity, and a cycle submits no other; for
-- an order without a result the cycle would end.
abbrev pub result_or : OrderIntent → Option OrderResult × Store → OrderResult × Store
result_or intent (none, s) = (refusal intent.symbol intent.side order_failed, s)
result_or intent (some result, s) = (result, s)

abbrev pub live_ops : LiveBroker → (Store → AccountSnapshot) → (ℕ → String) → BrokerOps
live_ops b view ids = record {
  name = live;
  take_snapshot = λ s. (view s, s);
  price_of = live_price_of b.client;
  submit = λ n intent now s. result_or intent (live_submit b intent (ids n) now s);
}

result_or-store :
    (intent : OrderIntent) (x : Option OrderResult × Store) → (result_or intent x).1 ≡ x.1
result_or-store intent (none, s) = refl
result_or-store intent (some result, s) = refl

pub live_ops-AddsOneOrder :
    (b : LiveBroker) (view : Store → AccountSnapshot) (ids : ℕ → String)
    → AddsOneOrder (live_ops b view ids)
live_ops-AddsOneOrder b view ids = record {
  submits = λ n intent now s.
      rw (result_or-store intent (live_submit b intent (ids n) now s))
        (live_submit-count live (utc_day now) b intent (ids n) now s);
  looks = λ s. refl;
}

pub live_ops-OnlyLooks :
    (b : LiveBroker) (view : Store → AccountSnapshot) (ids : ℕ → String)
    → OnlyLooks (live_ops b view ids)
live_ops-OnlyLooks b view ids = record { orders = λ s. refl; switch = λ s. refl }

-- A cycle with the live broker, whatever the API answers to its orders, whatever the account is when
-- it is read again after a fill, and whatever the targets, leaves no more orders on the day than the daily limit, or than there were before the cycle.
pub live_cycle-order_budget :
    (b : LiveBroker) (view : Store → AccountSnapshot) (ids : ℕ → String) (now : ℕ)
    (cadence : Cadence) (clock : Clock) (markets : List Country) (force : Bool)
    (targets : Dict Decimal) (m : RiskManager) (s : Store)
    → m.broker_name ≡ live
    → let t = (cycle (live_ops b view ids) now cadence clock markets force targets m s).2 in
      orders_today m now t ≤ max (orders_today m now s) m.settings.max_orders_per_day
unfolding orders_today
live_cycle-order_budget b view ids now cadence clock markets force targets m s e = simp e (
    cycle-budget (live_ops b view ids) (live_ops-AddsOneOrder b view ids) now cadence clock markets
      force targets m s e)
