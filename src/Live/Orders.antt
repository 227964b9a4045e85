-- ===== src/Live/Orders.antt =====
-- `submit` of src/tqt/execution/live.py, with what it records.
use toss_api_quant_trading.Live.Size.{size_intent, SendSize, refused, sized, request_of}
use toss_api_quant_trading.Toss.Client.{returned, Ending, raised}
use toss_api_quant_trading.Toss.Orders.{OrderRequest, OrderBody, order_body}
use toss_api_quant_trading.Decimal.{Decimal, nat, is_zero, lt}
use toss_api_quant_trading.Universe.{country_of, currency_of}
use toss_api_quant_trading.Store.{
  OrderRow, EventKind, order_rejected_event, Store, same_broker, FillRow, live, order_failed_event,
  log_event,
}
use toss_api_quant_trading.Toss.Errors.{ErrorClass, rejected_order}
use toss_api_quant_trading.Live.{LiveClient, LiveBroker}
use toss_api_quant_trading.Broker.{
  SubmitError, OrderIntent, order_rejected, OrderResult, order_failed, refusal, submitted, pending,
}
use toss_api_quant_trading.Toss.Models.{Order, OrderExecution, executed, is_terminal, status_text}
use toss_api_quant_trading.Prelude.{
  String, List, ℕ, Option, none, ◌∷◌, some, Bool, [], suc, if◌then◌else◌, not, true, ◌++◌, ◌&&◌,
  member, str_eq, zero,
}

-- The quantity column: the quantity, or else the amount; an intent has one of them.
abbrev pub quantity_column : Option Decimal → Option Decimal → Decimal
quantity_column (some qty) amount = qty
quantity_column none (some amount) = amount
quantity_column none none = nat 0

-- The row of an accepted order.
unfoldable pub submission_row : String → OrderIntent → OrderRequest → ℕ → OrderRow
submission_row order_id intent r now = record {
  order_id = order_id;
  broker = live;
  strategy = intent.strategy;
  symbol = intent.symbol;
  side = intent.side;
  order_type = intent.order_type;
  quantity = quantity_column r.quantity intent.order_amount;
  price = r.price;
  currency = currency_of (country_of intent.symbol);
  status = submitted;
  filled_quantity = nat 0;
  avg_fill_price = none;
  commission = none;
  tax = none;
  submitted_at = now;
}

-- The row of the live broker with this order id.
abbrev pub is_row : String → OrderRow → Bool
is_row order_id row = same_broker row.broker live && str_eq row.order_id order_id

-- `INSERT OR REPLACE` on the key (broker, order_id), of a row of the live broker.
unfoldable pub put_order : OrderRow → List OrderRow → List OrderRow
put_order row [] = row ∷ []
put_order row (r ∷ rest) =
    let later = put_order row rest in if is_row row.order_id r then row ∷ rest else r ∷ later

-- A number that is not zero; Python takes zero for false.
abbrev pub nonzero : Option Decimal → Option Decimal
nonzero none = none
nonzero (some x) = if is_zero x then none else some x

abbrev pub average_of : Option OrderExecution → Option Decimal
average_of none = none
average_of (some ex) = ex.average_filled_price

abbrev pub commission_of : Option OrderExecution → Option Decimal
commission_of none = none
commission_of (some ex) = ex.commission

abbrev pub tax_amount : Option OrderExecution → Option Decimal
tax_amount none = none
tax_amount (some ex) = ex.tax

abbrev pub value_or_zero : Option Decimal → Decimal
value_or_zero none = nat 0
value_or_zero (some x) = x

abbrev pub finished : Order → OrderRow → OrderRow
finished o row = record row {
  status = o.status;
  filled_quantity = executed o.execution;
  avg_fill_price = nonzero (average_of o.execution);
  commission = nonzero (commission_of o.execution);
  tax = nonzero (tax_amount o.execution);
}

-- The UPDATE of `_record_final`.
unfoldable pub update_final : Order → List OrderRow → List OrderRow
update_final o [] = []
update_final o (row ∷ rest) =
    (if is_row o.order_id row then finished o row else row) ∷ update_final o rest

abbrev pub stamp_or : Option ℕ → ℕ → ℕ
stamp_or none now = now
stamp_or (some t) now = t

abbrev pub fill_at : Order → OrderIntent → ℕ → OrderExecution → Option Decimal → List FillRow
fill_at o intent now ex none = []
fill_at o intent now ex (some px) =
    if lt (nat 0) ex.filled_quantity
    then record {
      broker = live;
      order_id = o.order_id;
      symbol = o.symbol;
      side = o.side;
      quantity = ex.filled_quantity;
      price = px;
      commission = value_or_zero ex.commission;
      tax = value_or_zero ex.tax;
      currency = o.currency;
      filled_at = stamp_or ex.filled_at now;
      strategy = intent.strategy;
    }
      ∷ []
    else []

-- The fill of a final order, if it has a quantity and a price.
abbrev pub final_fill : Order → OrderIntent → ℕ → Option OrderExecution → List FillRow
final_fill o intent now none = []
final_fill o intent now (some ex) = fill_at o intent now ex (nonzero ex.average_filled_price)

-- `_record_final`
unfoldable pub record_final : Order → OrderIntent → ℕ → Store → Store
record_final o intent now s = record s {
  orders = update_final o s.orders;
  fills = s.fills ++ final_fill o intent now o.execution;
}

abbrev pub poll_attempts : ℕ
poll_attempts = 5

-- One poll, and what the later ones bring.
abbrev pub polled : Ending Order → Option Order → Option Order
polled (raised e) later = none
polled (returned o) later = if is_terminal o then some o else later

-- `_await_fill`, with the attempts left and the number of the poll.
unfoldable pub await_fill : LiveClient → String → ℕ → ℕ → Option Order
await_fill client order_id zero n = none
await_fill client order_id (suc left) n =
    let later = await_fill client order_id left (suc n) in
    polled (client.get_order n order_id) later

abbrev pub failed_statuses : List String
failed_statuses = "REJECTED" ∷ "CANCEL_REJECTED" ∷ "REPLACE_REJECTED" ∷ []

abbrev pub final_result : Order → OrderIntent → OrderResult
final_result o intent = record {
  ok = not (member (status_text o.status) failed_statuses);
  symbol = intent.symbol;
  side = intent.side;
  order_id = some o.order_id;
  filled_quantity = executed o.execution;
  fill_price = average_of o.execution;
  commission = value_or_zero (commission_of o.execution);
  tax = value_or_zero (tax_amount o.execution);
  currency = o.currency;
  status = o.status;
  error = none;
}

-- The result of an order that is not terminal yet.
abbrev pub pending_result : String → OrderIntent → OrderResult
pending_result order_id intent = record {
  ok = true;
  symbol = intent.symbol;
  side = intent.side;
  order_id = some order_id;
  filled_quantity = nat 0;
  fill_price = none;
  commission = nat 0;
  tax = nat 0;
  currency = currency_of (country_of intent.symbol);
  status = pending;
  error = none;
}

abbrev pub settled : Option Order → String → OrderIntent → ℕ → Store → OrderResult × Store
settled none order_id intent now s = (pending_result order_id intent, s)
settled (some o) order_id intent now s = (final_result o intent, record_final o intent now s)

abbrev pub error_of : ErrorClass → SubmitError
error_of rejected_order = order_rejected
error_of _ = order_failed

abbrev pub event_of : ErrorClass → EventKind
event_of rejected_order = order_rejected_event
event_of _ = order_failed_event

-- What follows the answer to the order.
abbrev pub acknowledged :
    LiveBroker → OrderIntent → OrderRequest → ℕ → Ending String → Store → OrderResult × Store
acknowledged b intent r now (raised e) s =
    (refusal intent.symbol intent.side (error_of e.class), log_event (event_of e.class) s)
acknowledged b intent r now (returned order_id) s =
    settled (await_fill b.client order_id poll_attempts 0) order_id intent now
      (record s { orders = put_order (submission_row order_id intent r now) s.orders })

abbrev pub send :
    LiveBroker
    → OrderIntent
    → OrderRequest
    → ℕ
    → Option OrderBody
    → Store
    → Option OrderResult × Store
send b intent r now none s = (none, s)
send b intent r now (some body) s =
    let (result, s') = acknowledged b intent r now (b.client.post_order body) s in (some result, s')

abbrev pub submit_sized :
    LiveBroker → OrderIntent → String → ℕ → SendSize → Store → Option OrderResult × Store
submit_sized b intent client_order_id now (refused why) s =
    (some (refusal intent.symbol intent.side why), s)
submit_sized b intent client_order_id now (sized qty) s =
    let r = request_of b intent client_order_id qty in send b intent r now (order_body r) s

-- `submit`, with the client order id that it draws; no result is the ValueError of `create_order`,
-- which `submit` does not catch.
unfoldable pub live_submit :
    LiveBroker → OrderIntent → String → ℕ → Store → Option OrderResult × Store
live_submit b intent client_order_id now s =
    submit_sized b intent client_order_id now (size_intent b.client intent) s
