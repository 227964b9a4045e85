-- ===== src/Risk/Tests.antt =====
-- Runs of the risk gates, after tests/test_risk.py.
use toss_api_quant_trading.Prelude.Dict.{lookup}
use toss_api_quant_trading.Risk.Orders.{BuyLimits, check_order-buy, check_order-sell}
use toss_api_quant_trading.Risk.Limits.{
  in_dollars, by_quantity, given, holds_some, unquoted, ordinary,
}
use toss_api_quant_trading.Risk.Daily.{
  WithinLoss, daily_loss-blind, check_cycle-allow, check_cycle-daily_stop,
}
use toss_api_quant_trading.Decimal.{frac, nat, ◌<ᵈ◌, ◌≤ᵈ◌, dmax, inverse, ◌⊕◌, ◌⊗◌, ◌⊘◌}
use toss_api_quant_trading.Universe.{Side, buy, sell, usd, country_of}
use toss_api_quant_trading.Prelude.{
  List, ◌≢◌, ◌≡◌, ◌<◌, ◌≤◌, ◌∷◌, none, some, false, arith, [], ◌↔◌, refl, true, inr,
}
use toss_api_quant_trading.Broker.{
  AccountSnapshot, Position, OrderIntent, market, equity_krw, filled, position_value_krw,
  add_values, holding_value,
}
use toss_api_quant_trading.Risk.{
  check_cycle, check_order, is_halted, orders_today, RiskManager, Settings, daily_loss,
  count_orders, halt, check_buy, remaining_order_budget, allow, deny, halted_because,
  order_notional, current_exposure, weight_limit_for, buy_warnings,
}
use toss_api_quant_trading.Store.{
  first_equity_of_day, kst_day, OrderRow, Store, paper, empty_store, operator, kst_day, blank,
}
use toss_api_quant_trading.Risk.Switch.{
  run, RiskEvent, cycle_checked, operator_halts, halt-until_resume,
}

abbrev settings : Settings
settings = record {
  max_position_weight = frac 35 99;
  max_daily_loss_pct = frac 3 99;
  max_orders_per_day = 2;
  max_gross_exposure = nat 1;
}

abbrev manager : RiskManager
manager = record {
  settings = settings;
  broker_name = paper;
  client = none;
  defensive_symbols = "SHY" ∷ [];
  max_defensive_weight = nat 1;
  warning_cache = [];
}

abbrev spy : Position
spy = record { symbol = "SPY"; quantity = nat 2; avg_price = nat 500; currency = usd }

abbrev account : AccountSnapshot
account = record {
  cash_krw = nat 9000000;
  positions = ("SPY", spy) ∷ [];
  usd_krw = nat 1400;
  prices = [];
}

abbrev order : Side → OrderIntent
order side = record {
  symbol = "SPY";
  side = side;
  quantity = some (nat 1);
  order_type = market;
  price = none;
  order_amount = none;
  strategy = "faber";
  reason = "";
}

abbrev placed : OrderRow
placed = record {
  order_id = "a";
  broker = paper;
  strategy = "faber";
  symbol = "SPY";
  side = buy;
  order_type = market;
  quantity = nat 1;
  price = none;
  currency = usd;
  status = filled;
  filled_quantity = nat 1;
  avg_fill_price = none;
  commission = none;
  tax = none;
  submitted_at = 1700000000;
}

abbrev spent : Store
spent = record empty_store { orders = placed ∷ placed ∷ [] }

buy_allowed :
    (check_order manager 1700000000 (order buy) account (some (nat 510)) empty_store).0 ≡ allow
unfolding check_order check_buy remaining_order_budget orders_today count_orders equity_krw
    position_value_krw add_values holding_value order_notional current_exposure country_of
    weight_limit_for buy_warnings dmax inverse ◌⊕◌ ◌⊗◌ ◌⊘◌
buy_allowed = refl

check_order-buy_example :
    ((check_order manager 1700000000 (order buy) account (some (nat 510)) empty_store).0 ≡ allow)
    ↔ BuyLimits manager 1700000000
        (order buy)
        account
        (nat 510 ⊗ nat 1 ⊗ nat 1400)
        (nat 500 ⊗ nat 2 ⊗ nat 1400)
        (frac 35 99)
        empty_store
unfolding country_of
check_order-buy_example =
    check_order-buy manager 1700000000 (order buy) account (some (nat 510)) empty_store (nat 1400)
      (nat 510 ⊗ nat 1 ⊗ nat 1400) (nat 500 ⊗ nat 2 ⊗ nat 1400) (frac 35 99) refl in_dollars
      (by_quantity (nat 510) (nat 1) refl (given (nat 510)) (given (nat 1)))
      (holds_some spy (nat 500) refl (unquoted refl)) (ordinary refl)

check_order-sell_example :
    ((check_order manager 1700000000 (order sell) account (some (nat 510)) empty_store).0 ≡ allow)
    ↔ (nat 0 <ᵈ equity_krw account)
      × (orders_today manager 1700000000 empty_store < 2)
      × ((pos : Position) × (lookup "SPY" account.positions ≡ some pos)
          × (nat 0 <ᵈ pos.quantity)
          × (nat 1 ≤ᵈ pos.quantity))
check_order-sell_example =
    check_order-sell manager 1700000000 (order sell) account (some (nat 510)) empty_store refl

abbrev later : List RiskEvent
later = cycle_checked 1700090000 account ∷ operator_halts blank 1700090001 ∷ []

halt-until_resume_example :
    let t = run manager later (halt (operator "stop") false 1700000000 empty_store) in
    check_cycle manager 1700200000 account t ≡ (deny (halted_because t.halt_reason), t)
halt-until_resume_example =
    halt-until_resume manager (operator "stop") 1700000000 1700200000 later account empty_store _

check_cycle-allow_example :
    (check_cycle manager 1700000000 account spent ≡ (allow, spent))
    ↔ (spent.halted ≡ false)
      × (spent.halted_date ≢ some (kst_day 1700000000))
      × WithinLoss
          (first_equity_of_day paper (kst_day 1700000000) spent)
          (frac 3 99)
          (equity_krw account)
      × (orders_today manager 1700000000 spent < 2)
check_cycle-allow_example = check_cycle-allow manager 1700000000 account spent

spent_budget : 2 ≤ orders_today manager 1700000000 spent
unfolding orders_today count_orders
spent_budget = omega arith

not_halted : is_halted 1700000000 spent ≡ false
unfolding is_halted
not_halted = refl

check_cycle-daily_stop_example :
    let (verdict, t) = check_cycle manager 1700000000 account spent in
    (verdict ≢ allow)
    × (kst_day 1700003600 ≡ kst_day 1700000000 → is_halted 1700003600 t ≡ true)
    × (kst_day 1700003600 ≢ kst_day 1700000000 → is_halted 1700003600 t ≡ false)
check_cycle-daily_stop_example =
    check_cycle-daily_stop manager 1700000000 1700003600 account spent not_halted (inr spent_budget)

-- A mark of the same evening, worth more than the account has left.
abbrev marked : Store
marked = record empty_store {
  equity =
      record {
        broker = paper;
        ts = 1700000000;
        equity_krw = nat 20000000;
        cash_krw = nat 20000000;
        positions_krw = nat 0;
        usd_krw = nat 1400;
      }
      ∷ [];
}

marked_open : is_halted 1700003600 marked ≡ false
unfolding is_halted
marked_open = refl

marked_budget : orders_today manager 1700003600 marked < 2
unfolding orders_today count_orders
marked_budget = omega arith

daily_loss-blind_example :
    (daily_loss manager 1700003600 account marked ≡ none)
    × (check_cycle manager 1700003600 account marked ≡ (allow, marked))
daily_loss-blind_example =
    daily_loss-blind manager 1700003600 account marked (omega arith) (omega arith, _) marked_open
      marked_budget
