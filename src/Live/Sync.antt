-- ===== src/Live/Sync.antt =====
-- `sync_orders` of src/tqt/execution/live.py: the orders of the history, written to the ledger.
use toss_api_quant_trading.Toss.Errors.{TossError}
use toss_api_quant_trading.Toss.Queries.{OrdersPage, iter_orders}
use toss_api_quant_trading.Toss.Client.{Ending}
use toss_api_quant_trading.Live.Orders.{is_row, nonzero, average_of}
use toss_api_quant_trading.Store.{OrderRow, live}
use toss_api_quant_trading.Broker.{Status}
use toss_api_quant_trading.Toss.Models.{Order, executed, same_status}
use toss_api_quant_trading.Prelude.{
  String, Bool, Option, List, some, none, ℕ, ◌∷◌, false, ◌+◌, true, if◌then◌else◌, [],
}

abbrev pub status_in : Bool → OrderRow → Option Status → Option Status
status_in true row later = some row.status
status_in false row later = later

-- The status of an order of the live broker in the ledger.
unfoldable pub row_status : String → List OrderRow → Option Status
row_status order_id [] = none
row_status order_id (row ∷ rest) = status_in (is_row order_id row) row (row_status order_id rest)

-- A row for an order that the ledger does not have; it names no strategy.
abbrev pub history_row : Order → OrderRow
history_row o = record {
  order_id = o.order_id;
  broker = live;
  strategy = "";
  symbol = o.symbol;
  side = o.side;
  order_type = o.order_type;
  quantity = o.quantity;
  price = nonzero o.price;
  currency = o.currency;
  status = o.status;
  filled_quantity = executed o.execution;
  avg_fill_price = nonzero (average_of o.execution);
  commission = none;
  tax = none;
  submitted_at = o.ordered_at;
}

abbrev pub reconciled : Order → OrderRow → OrderRow
reconciled o row = record row {
  status = o.status;
  filled_quantity = executed o.execution;
  avg_fill_price = nonzero (average_of o.execution);
}

-- `INSERT … ON CONFLICT(broker,order_id) DO UPDATE`
unfoldable pub upsert : Order → List OrderRow → List OrderRow
upsert o [] = history_row o ∷ []
upsert o (row ∷ rest) =
    let later = upsert o rest in
    if is_row o.order_id row then reconciled o row ∷ rest else row ∷ later

abbrev pub is_current : Option Status → Order → Bool
is_current none o = false
is_current (some status) o = same_status status o.status

-- The body of the loop: the number of rows written, and the table.
unfoldable pub sync_one : Order → List OrderRow → ℕ × List OrderRow
sync_one o rows =
    if is_current (row_status o.order_id rows) o then (0, rows) else (1, upsert o rows)

-- The loop over the history.
unfoldable pub sync_orders : List Order → List OrderRow → ℕ × List OrderRow
sync_orders [] rows = (0, rows)
sync_orders (o ∷ rest) rows =
    let (n, rows') = sync_one o rows in let (m, rows'') = sync_orders rest rows' in (n + m, rows'')

-- `sync_orders` with the history that the API pages out: the number of rows written, the error that
-- ended it early, and the table.
unfoldable pub sync_ledger :
    (Option String → Ending OrdersPage) → List OrderRow → (ℕ × Option TossError) × List OrderRow
sync_ledger server rows =
    let (history, error) = iter_orders server 5 none in
    let (n, rows') = sync_orders history rows in ((n, error), rows')
