-- ===== src/Runner/PaperOps.antt =====
-- The paper broker as the broker of a cycle, and its order budget.
-- The paper broker of a cycle; `ids` are the order ids that it draws.
use toss_api_quant_trading.Runner.Halted.{OnlyLooks}
use toss_api_quant_trading.Paper.Fill.{order_row}
use toss_api_quant_trading.Decimal.{Decimal}
use toss_api_quant_trading.Prelude.Dict.{Dict}
use toss_api_quant_trading.Paper.Booking.{submit-Booking}
use toss_api_quant_trading.Universe.{Country}
use toss_api_quant_trading.Paper.{submit}
use toss_api_quant_trading.Runner.Budget.{AddsOneOrder, cycle-budget}
use toss_api_quant_trading.Runner.{Cadence, BrokerOps, Clock, cycle}
use toss_api_quant_trading.Broker.{OrderIntent}
use toss_api_quant_trading.Prelude.{
  ℕ, String, List, ◌≡◌, ◌++◌, arith, ◌∷◌, [], ◌+◌, ◌≤◌, Bool, inl, inr, max,
}
use toss_api_quant_trading.Store.{BrokerName, Store, OrderRow, paper, utc_day}
use toss_api_quant_trading.Paper.Account.{PaperBroker, snapshot, Market, current_fx}
use toss_api_quant_trading.Risk.{count_orders, orders_today, RiskManager}

abbrev pub paper_ops : PaperBroker → Market → (ℕ → String) → BrokerOps
paper_ops b mk ids = record {
  name = paper;
  take_snapshot = snapshot mk;
  price_of = mk.last;
  submit = λ n intent now s. submit b mk intent (ids n) now s;
}

count_append :
    (name : BrokerName) (day : ℕ) (xs ys : List OrderRow)
    → count_orders name day (xs ++ ys) ≡ count_orders name day xs + count_orders name day ys
unfolding count_orders
count_append name day [] ys = omega arith
count_append name day (x ∷ xs) ys = ground (arith, count_append name day xs ys)

count_one : (name : BrokerName) (day : ℕ) (x : OrderRow) → count_orders name day (x ∷ []) ≤ 1
unfolding count_orders
count_one name day x = ground arith

snapshot-orders : (mk : Market) (s : Store) → (snapshot mk s).1.orders ≡ s.orders
unfolding snapshot current_fx
snapshot-orders mk s = ground arith

submit-count :
    (b : PaperBroker) (mk : Market) (intent : OrderIntent) (id : String) (now : ℕ) (s : Store)
    → count_orders paper (utc_day now) (submit b mk intent id now s).1.orders
      ≤ count_orders paper (utc_day now) s.orders + 1
submit-count b mk intent id now s = elim (submit-Booking b mk intent id now s) [
  | inl (bad, u) ↦ rw u.orders (omega arith)
  | inr (ok, k) ↦
      rw (k.orders, count_append paper (utc_day now) s.orders (order_row k.x intent id now ∷ []))
        (omega (arith, count_one paper (utc_day now) (order_row k.x intent id now)))
]

pub paper_ops-AddsOneOrder :
    (b : PaperBroker) (mk : Market) (ids : ℕ → String) → AddsOneOrder (paper_ops b mk ids)
paper_ops-AddsOneOrder b mk ids = record {
  submits = λ n intent now s. submit-count b mk intent (ids n) now s;
  looks = snapshot-orders mk;
}

-- A cycle with the paper broker, whatever its targets, leaves no more orders on the day than the
-- daily limit, or than there were before the cycle.
pub paper_cycle-order_budget :
    (b : PaperBroker) (mk : Market) (ids : ℕ → String) (now : ℕ) (cadence : Cadence) (clock : Clock)
    (markets : List Country) (force : Bool) (targets : Dict Decimal) (m : RiskManager) (s : Store)
    → m.broker_name ≡ paper
    → let t = (cycle (paper_ops b mk ids) now cadence clock markets force targets m s).2 in
      orders_today m now t ≤ max (orders_today m now s) m.settings.max_orders_per_day
unfolding orders_today
paper_cycle-order_budget b mk ids now cadence clock markets force targets m s e = simp e (
    cycle-budget (paper_ops b mk ids) (paper_ops-AddsOneOrder b mk ids) now cadence clock markets
      force targets m s e)

snapshot-halted : (mk : Market) (s : Store) → (snapshot mk s).1.halted ≡ s.halted
unfolding snapshot current_fx
snapshot-halted mk s = ground arith

pub paper_ops-OnlyLooks :
    (b : PaperBroker) (mk : Market) (ids : ℕ → String) → OnlyLooks (paper_ops b mk ids)
paper_ops-OnlyLooks b mk ids = record { orders = snapshot-orders mk; switch = snapshot-halted mk }
