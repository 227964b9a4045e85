-- ===== src/Paper/Account.antt =====
-- The paper account: the client that it asks, its cash and its positions.
use toss_api_quant_trading.Prelude.{
  Bool, false, not, Option, none, some, List, [], ◌∷◌, String, if◌then◌else◌,
}
use toss_api_quant_trading.Prelude.Dict.{Dict, insert, erase, keys}
use toss_api_quant_trading.Decimal.{Decimal, nat, le, lt, is_zero}
use toss_api_quant_trading.Universe.{Side, buy, sell}
use toss_api_quant_trading.Costs.{CostModel}
use toss_api_quant_trading.Broker.{Position, AccountSnapshot}
use toss_api_quant_trading.Store.{
  Store, paper, same_broker, OrderRow, FillRow, EquityRow, paper_init, log_event,
}

-- What the client answers: `none` is an exception. `book` gives the best ask and the best bid.
pub record Market : Type 0 where
  pub book : String → Option (Option Decimal × Option Decimal)
  pub last : String → Option Decimal
  pub usd_krw : Option Decimal
  pub marks : List String → Option (Dict Decimal)

pub record PaperBroker : Type 0 where
  pub cost_model : CostModel
  pub etf_symbols : List String

abbrev pub or_empty : Option Decimal → Decimal
or_empty none = nat 0
or_empty (some x) = x

-- `PaperBroker.cash`
unfoldable pub cash_of : Store → Decimal
cash_of s = or_empty s.cash

abbrev pub updated : Option Decimal → Decimal → Option Decimal
updated none amount = none
updated (some _) amount = some amount

-- `_set_cash`: an UPDATE, which changes nothing where there is no row.
unfoldable pub set_cash : Decimal → Store → Store
set_cash amount s = record s { cash = updated s.cash amount }

fund : Option Decimal → Decimal → Store → Store
fund none starting s = log_event paper_init (record s { cash = some starting })
fund (some _) starting s = s

unfoldable pub ensure_cash : Decimal → Store → Store
unfolding fund
ensure_cash starting s = fund s.cash starting s

drop_orders : List OrderRow → List OrderRow
drop_orders [] = []
drop_orders (r ∷ rest) =
    if same_broker r.broker paper then drop_orders rest else r ∷ drop_orders rest

drop_fills : List FillRow → List FillRow
drop_fills [] = []
drop_fills (r ∷ rest) = if same_broker r.broker paper then drop_fills rest else r ∷ drop_fills rest

drop_equity : List EquityRow → List EquityRow
drop_equity [] = []
drop_equity (r ∷ rest) =
    if same_broker r.broker paper then drop_equity rest else r ∷ drop_equity rest

unfoldable pub reset : Decimal → Store → Store
unfolding drop_orders drop_fills drop_equity ensure_cash
reset starting s = ensure_cash starting (record s {
  orders = drop_orders s.orders;
  fills = drop_fills s.fills;
  positions = [];
  equity = drop_equity s.equity;
  cash = none;
})

-- `positions`: the rows of a positive quantity.
unfoldable pub positions : Dict Position → Dict Position
positions [] = []
positions ((sym, pos) ∷ rest) =
    if lt (nat 0) pos.quantity then (sym, pos) ∷ positions rest else positions rest

unfoldable pub write_position : Position → Dict Position → Dict Position
write_position pos rows =
    if le pos.quantity (nat 0) then erase pos.symbol rows else insert pos.symbol pos rows

-- Where a price came from.
pub data Source : Type 0 where
  from_book from_last from_none : Source

-- `if px:`, which a missing and a zero price fail.
abbrev pub truthy : Option Decimal → Bool
truthy none = false
truthy (some px) = not (is_zero px)

abbrev pub best : Side → Option (Option Decimal × Option Decimal) → Option Decimal
best side none = none
best buy (some (ask, bid)) = ask
best sell (some (ask, bid)) = bid

unfoldable pub execution_price : Market → String → Side → Option Decimal × Source
execution_price mk symbol side =
    let px = best side (mk.book symbol) in
    let fallback = mk.last symbol in
    if truthy px
    then (px, from_book)
    else (fallback, if truthy fallback then from_last else from_none)

-- The rate of `snapshot`, and the state that it leaves: the last known rate, at first 1400.
abbrev fx_fallback : Option Decimal → Decimal
fx_fallback none = nat 1400
fx_fallback (some rate) = rate

abbrev fx_of_answer : Option Decimal → Store → Decimal × Store
fx_of_answer none s = (fx_fallback s.last_usd_krw, s)
fx_of_answer (some rate) s = (rate, record s { last_usd_krw = some rate })

unfoldable pub current_fx : Market → Store → Decimal × Store
current_fx mk s = fx_of_answer mk.usd_krw s

abbrev marks_of : Option (Dict Decimal) → Dict Decimal
marks_of none = []
marks_of (some prices) = prices

abbrev fetch_marks : Market → Dict Position → Dict Decimal
fetch_marks mk [] = []
fetch_marks mk (p ∷ ps) = marks_of (mk.marks (keys (p ∷ ps)))

unfoldable pub snapshot : Market → Store → AccountSnapshot × Store
snapshot mk s =
    let held = positions s.positions in
    let (fx, s') = current_fx mk s in
    (
      record {
        cash_krw = cash_of s';
        positions = held;
        usd_krw = fx;
        prices = fetch_marks mk held;
      },
      s',
    )
