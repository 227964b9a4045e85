-- ===== src/Paper/Fill.antt =====
-- How a paper order is sized, settled and booked.
use toss_api_quant_trading.Prelude.{
  ℕ, true, false, Option, none, some, [], ◌∷◌, ◌++◌, String, member, if◌then◌else◌,
}
use toss_api_quant_trading.Decimal.{Decimal, nat, ◌⊕◌, ◌⊖◌, ◌⊗◌, ◌⊘◌, le, lt, dmin, truncate}
use toss_api_quant_trading.Universe.{Country, kr, us, Side, buy, sell, country_of, currency_of}
use toss_api_quant_trading.Costs.{TradeCost, total, cost_of}
use toss_api_quant_trading.Broker.{
  Position, OrderIntent, OrderResult, filled, SubmitError, no_quantity, rounds_to_zero,
  nothing_to_sell, insufficient_cash, refusal,
}
use toss_api_quant_trading.Store.{Store, paper, OrderRow, FillRow}
use toss_api_quant_trading.Paper.Account.{PaperBroker, cash_of, set_cash, write_position}

pub data Sizing : Type 0 where
  refused : SubmitError → Sizing
  size : Decimal → Sizing

-- KRX trades whole shares.
abbrev pub whole_shares : Country → Decimal → Decimal
whole_shares kr qty = truncate qty
whole_shares us qty = qty

unfoldable pub positive_size : Decimal → Sizing
positive_size qty = if le qty (nat 0) then refused rounds_to_zero else size qty

unfoldable pub size_of : Option Decimal → Option Decimal → Decimal → Country → Sizing
size_of (some qty) amount px country = positive_size (whole_shares country qty)
size_of none (some amount) px country = positive_size (whole_shares country (amount ⊘ px))
size_of none none px country = refused no_quantity

unfoldable pub resolve_quantity : OrderIntent → Decimal → Country → Sizing
resolve_quantity intent px country = size_of intent.quantity intent.order_amount px country

abbrev pub held_quantity : Option Position → Decimal
held_quantity none = nat 0
held_quantity (some pos) = pos.quantity

abbrev pub held_price : Option Position → Decimal
held_price none = nat 0
held_price (some pos) = pos.avg_price

-- A sell is trimmed to what is held.
unfoldable pub trim : Side → Option Position → Decimal → Sizing
trim buy held qty = size qty
trim sell held qty =
    let trimmed = dmin qty (held_quantity held) in
    if le trimmed (nat 0) then refused nothing_to_sell else size trimmed

-- One execution that is about to be booked.
pub record Execution : Type 0 where
  pub symbol : String
  pub side : Side
  pub country : Country
  pub px : Decimal
  pub fx : Decimal
  pub qty : Decimal
  pub held : Option Position
  pub cost : TradeCost

unfoldable pub gross_krw : Execution → Decimal
gross_krw x = x.px ⊗ x.qty ⊗ x.fx

unfoldable pub cost_krw : Execution → Decimal
cost_krw x = total x.cost ⊗ x.fx

abbrev pub needed_krw : Execution → Decimal
needed_krw x = gross_krw x ⊕ cost_krw x

abbrev pub bought : Execution → Position
bought x =
    let new_qty = held_quantity x.held ⊕ x.qty in
    record {
      symbol = x.symbol;
      quantity = new_qty;
      avg_price = (held_price x.held ⊗ held_quantity x.held ⊕ x.px ⊗ x.qty) ⊘ new_qty;
      currency = currency_of x.country;
    }

abbrev pub sold : Execution → Position
sold x = record {
  symbol = x.symbol;
  quantity = held_quantity x.held ⊖ x.qty;
  avg_price = held_price x.held;
  currency = currency_of x.country;
}

abbrev pub settle_by : Side → Execution → Decimal → Option (Decimal × Position)
settle_by buy x available =
    if lt available (needed_krw x) then none else some (available ⊖ needed_krw x, bought x)
settle_by sell x available = some (available ⊕ gross_krw x ⊖ cost_krw x, sold x)

-- The cash and the position after the execution; `none` is insufficient cash.
unfoldable pub settle : Execution → Decimal → Option (Decimal × Position)
settle x available = settle_by x.side x available

abbrev pub order_row : Execution → OrderIntent → String → ℕ → OrderRow
order_row x intent order_id now = record {
  order_id = order_id;
  broker = paper;
  strategy = intent.strategy;
  symbol = x.symbol;
  side = x.side;
  order_type = intent.order_type;
  quantity = x.qty;
  price = some x.px;
  currency = currency_of x.country;
  status = filled;
  filled_quantity = x.qty;
  avg_fill_price = some x.px;
  commission = some x.cost.commission;
  tax = some x.cost.tax;
  submitted_at = now;
}

abbrev pub fill_row : Execution → OrderIntent → String → ℕ → FillRow
fill_row x intent order_id now = record {
  broker = paper;
  order_id = order_id;
  symbol = x.symbol;
  side = x.side;
  quantity = x.qty;
  price = x.px;
  commission = x.cost.commission;
  tax = x.cost.tax ⊕ x.cost.regulatory ⊕ x.cost.fx;
  currency = currency_of x.country;
  filled_at = now;
  strategy = intent.strategy;
}

abbrev pub filled_result : Execution → String → OrderResult
filled_result x order_id = record {
  ok = true;
  symbol = x.symbol;
  side = x.side;
  order_id = some order_id;
  filled_quantity = x.qty;
  fill_price = some x.px;
  commission = x.cost.commission;
  tax = x.cost.tax ⊕ x.cost.regulatory ⊕ x.cost.fx;
  currency = currency_of x.country;
  status = filled;
  error = none;
}

-- The transaction: cash, position, order and fill are written together.
unfoldable pub book : Execution → OrderIntent → String → ℕ → Decimal → Position → Store → Store
book x intent order_id now new_cash pos s =
    let s' = set_cash new_cash s in
    record s' {
      positions = write_position pos s.positions;
      orders = s.orders ++ order_row x intent order_id now ∷ [];
      fills = s.fills ++ fill_row x intent order_id now ∷ [];
    }

unfoldable pub finish :
    Execution → OrderIntent → String → ℕ → Option (Decimal × Position) → Store → OrderResult × Store
finish x intent order_id now none s = (refusal x.symbol x.side insufficient_cash, s)
finish x intent order_id now (some (new_cash, pos)) s =
    (filled_result x order_id, book x intent order_id now new_cash pos s)

unfoldable pub execute :
    PaperBroker
    → OrderIntent
    → String
    → ℕ
    → Decimal
    → Decimal
    → Option Position
    → Sizing
    → Store
    → OrderResult × Store
execute b intent order_id now px fx held (refused e) s = (refusal intent.symbol intent.side e, s)
execute b intent order_id now px fx held (size qty) s =
    let country = country_of intent.symbol in
    let x : Execution = record {
      symbol = intent.symbol;
      side = intent.side;
      country = country;
      px = px;
      fx = fx;
      qty = qty;
      held = held;
      cost =
          cost_of b.cost_model intent.side country px qty (member intent.symbol b.etf_symbols)
            false;
    } in
    finish x intent order_id now (settle x (cash_of s)) s
