-- ===== src/Risk.antt =====
-- src/tqt/risk.py: the kill switch, the gates of a cycle and the gates of an order.
pub mod Limits
pub mod Orders
pub mod Switch
pub mod Daily
mod Tests
use toss_api_quant_trading.Prelude.{
  ℕ, suc, ◌-◌, Bool, true, false, ◌&&◌, ◌||◌, Option, none, some, List, [], ◌∷◌, String, leb, ltb,
  ◌==◌, member, if◌then◌else◌,
}
use toss_api_quant_trading.Prelude.Dict.{Dict, lookup, get_or, insert}
use toss_api_quant_trading.Decimal.{Decimal, nat, neg, ◌⊕◌, ◌⊖◌, ◌⊗◌, ◌⊘◌, le, lt, dmax}
use toss_api_quant_trading.Universe.{Country, kr, us, Side, buy, sell, country_of}
use toss_api_quant_trading.Broker.{
  Position, OrderIntent, AccountSnapshot, position_value_krw, equity_krw,
}
use toss_api_quant_trading.Store.{
  Store, BrokerName, same_broker, OrderRow, HaltReason, blank, operator, daily_loss_breached,
  budget_exhausted, halt_event, resume_event, log_event, utc_day, kst_day, first_equity_of_day,
}

pub record Settings : Type 0 where
  pub max_position_weight : Decimal
  pub max_daily_loss_pct : Decimal
  pub max_orders_per_day : ℕ
  pub max_gross_exposure : Decimal

-- The reasons of a refusal, as the source's texts.
pub data Refusal : Type 0 where
  halted_because : HaltReason → Refusal
  stopped : HaltReason → Refusal
  no_equity no_budget overweight overexposed no_cash : Refusal
  warned : List String → Refusal
  nothing_held exceeds_holding : Refusal

pub data Verdict : Type 0 where
  allow : Verdict
  deny : Refusal → Verdict

-- The warnings endpoint of the client: `none` is an exception.
abbrev pub WarningsApi : Type 0
WarningsApi = String → Option (List String)

pub record RiskManager : Type 0 where
  pub settings : Settings
  pub broker_name : BrokerName
  pub client : Option WarningsApi
  pub defensive_symbols : List String
  pub max_defensive_weight : Decimal
  pub warning_cache : Dict (List String)

unfoldable pub weight_limit_for : RiskManager → String → Decimal
weight_limit_for m symbol =
    if member symbol m.defensive_symbols
    then dmax m.max_defensive_weight m.settings.max_position_weight
    else m.settings.max_position_weight

abbrev pub dated : Option ℕ → ℕ → Bool
dated none day = false
dated (some d) day = d == day

unfoldable pub is_halted : ℕ → Store → Bool
is_halted now s = s.halted || dated s.halted_date (kst_day now)

unfoldable pub halt : HaltReason → Bool → ℕ → Store → Store
halt reason for_today_only now s =
    let marked =
      if for_today_only
      then record s { halted_date = some (kst_day now) }
      else record s { halted = true } in
    log_event halt_event (record marked { halt_reason = reason })

unfoldable pub resume : Store → Store
resume s =
    log_event resume_event (record s { halted = false; halted_date = none; halt_reason = blank })

unfoldable pub loss_from : Option Decimal → Decimal → Option Decimal
loss_from none equity = none
loss_from (some opening) equity =
    if le opening (nat 0) then none else some ((equity ⊖ opening) ⊘ opening)

unfoldable pub daily_loss : RiskManager → ℕ → AccountSnapshot → Store → Option Decimal
unfolding loss_from
daily_loss m now snapshot s =
    loss_from (first_equity_of_day m.broker_name (kst_day now) s) (equity_krw snapshot)

unfoldable pub count_orders : BrokerName → ℕ → List OrderRow → ℕ
count_orders broker day [] = 0
count_orders broker day (r ∷ rest) =
    let n = count_orders broker day rest in
    if same_broker r.broker broker && utc_day r.submitted_at == day then suc n else n

unfoldable pub orders_today : RiskManager → ℕ → Store → ℕ
orders_today m now s = count_orders m.broker_name (utc_day now) s.orders

unfoldable pub remaining_order_budget : RiskManager → ℕ → Store → ℕ
remaining_order_budget m now s = m.settings.max_orders_per_day - orders_today m now s

-- `loss is not None and loss <= -max_daily_loss_pct`
abbrev pub breached : Option Decimal → Decimal → Bool
breached none limit = false
breached (some loss) limit = le loss (neg limit)

abbrev pub loss_value : Option Decimal → Decimal
loss_value none = nat 0
loss_value (some loss) = loss

-- Stop for today, and refuse.
abbrev pub stop_today : HaltReason → ℕ → Store → Verdict × Store
stop_today reason now s = (deny (stopped reason), halt reason true now s)

unfoldable pub check_cycle : RiskManager → ℕ → AccountSnapshot → Store → Verdict × Store
check_cycle m now snapshot s =
    let loss = daily_loss m now snapshot s in
    let used = orders_today m now s in
    if is_halted now s
    then (deny (halted_because s.halt_reason), s)
    else if breached loss m.settings.max_daily_loss_pct
    then stop_today (daily_loss_breached (loss_value loss) m.settings.max_daily_loss_pct) now s
    else if leb m.settings.max_orders_per_day used
    then stop_today (budget_exhausted used m.settings.max_orders_per_day) now s
    else (allow, s)

abbrev pub answer : Option (List String) → List String
answer none = []
answer (some reasons) = reasons

abbrev pub asked :
    Option (List String) → WarningsApi → String → RiskManager → List String × RiskManager
asked (some cached) api symbol m = (cached, m)
asked none api symbol m =
    let reasons = answer (api symbol) in
    (reasons, record m { warning_cache = insert symbol reasons m.warning_cache })

abbrev pub consult : Option WarningsApi → String → RiskManager → List String × RiskManager
consult none symbol m = ([], m)
consult (some api) symbol m = asked (lookup symbol m.warning_cache) api symbol m

-- The reasons, and the manager with its cache.
unfoldable pub buy_warnings : RiskManager → String → List String × RiskManager
buy_warnings m symbol = consult m.client symbol m

unfoldable pub clear_cache : RiskManager → RiskManager
clear_cache m = record m { warning_cache = [] }

abbrev pub or_zero : Option Decimal → Decimal
or_zero none = nat 0
or_zero (some x) = x

abbrev pub fx_rate : AccountSnapshot → Country → Decimal
fx_rate snapshot us = snapshot.usd_krw
fx_rate snapshot kr = nat 1

abbrev pub amount_or : Option Decimal → Decimal → Decimal → Decimal
amount_or none fx notional = notional
amount_or (some amount) fx notional = amount ⊗ fx

-- What the order is worth in KRW.
unfoldable pub order_notional : OrderIntent → AccountSnapshot → Option Decimal → Decimal
order_notional intent snapshot price =
    let fx = fx_rate snapshot (country_of intent.symbol) in
    amount_or intent.order_amount fx (or_zero price ⊗ or_zero intent.quantity ⊗ fx)

abbrev pub exposure_of : Option Position → AccountSnapshot → String → Decimal
exposure_of none snapshot symbol = nat 0
exposure_of (some pos) snapshot symbol =
    get_or symbol pos.avg_price snapshot.prices
    ⊗ pos.quantity
    ⊗ fx_rate snapshot (country_of symbol)

-- What is held of the symbol already.
unfoldable pub current_exposure : AccountSnapshot → String → Decimal
current_exposure snapshot symbol = exposure_of (lookup symbol snapshot.positions) snapshot symbol

abbrev pub clear_of : List String → Verdict
clear_of [] = allow
clear_of (w ∷ ws) = deny (warned (w ∷ ws))

unfoldable pub check_buy :
    RiskManager → OrderIntent → AccountSnapshot → Decimal → Verdict × RiskManager
check_buy m intent snapshot notional =
    let equity = equity_krw snapshot in
    if lt (weight_limit_for m intent.symbol)
      ((current_exposure snapshot intent.symbol ⊕ notional) ⊘ equity)
    then (deny overweight, m)
    else if lt m.settings.max_gross_exposure ((position_value_krw snapshot ⊕ notional) ⊘ equity)
    then (deny overexposed, m)
    else if lt snapshot.cash_krw notional
    then (deny no_cash, m)
    else let (reasons, m') = buy_warnings m intent.symbol in (clear_of reasons, m')

unfoldable pub check_sell : Option Position → Decimal → Verdict
check_sell none qty = deny nothing_held
check_sell (some pos) qty =
    if le pos.quantity (nat 0)
    then deny nothing_held
    else if lt pos.quantity qty
    then deny exceeds_holding
    else allow

-- The branches of a side; `none` is any other text, which the code lets through.
abbrev pub gate :
    Option Side → RiskManager → OrderIntent → AccountSnapshot → Decimal → Verdict × RiskManager
gate (some buy) m intent snapshot notional = check_buy m intent snapshot notional
gate (some sell) m intent snapshot notional =
    (check_sell (lookup intent.symbol snapshot.positions) (or_zero intent.quantity), m)
gate none m intent snapshot notional = (allow, m)

-- `check_order`, of an intent whose side is one of the two.
unfoldable pub check_order :
    RiskManager → ℕ → OrderIntent → AccountSnapshot → Option Decimal → Store → Verdict × RiskManager
check_order m now intent snapshot price s =
    if le (equity_krw snapshot) (nat 0)
    then (deny no_equity, m)
    else if leb (remaining_order_budget m now s) 0
    then (deny no_budget, m)
    else gate (some intent.side) m intent snapshot (order_notional intent snapshot price)
