-- ===== src/Live/Tests.antt =====
-- Submissions to a live broker that fills at once, and a reconciliation.
use toss_api_quant_trading.Live.Size.{size_intent, within_sellable, sized, request_of}
use toss_api_quant_trading.Toss.Orders.{order_body}
use toss_api_quant_trading.Toss.Client.{returned}
use toss_api_quant_trading.Store.{empty_store}
use toss_api_quant_trading.Universe.{sell, country_of, krw}
use toss_api_quant_trading.Live.Sync.{sync_orders}
use toss_api_quant_trading.Broker.{OrderIntent, rejected, market, filled}
use toss_api_quant_trading.Prelude.{List, [], ◌∷◌, some, false, none, ◌≡◌, refl, length}
use toss_api_quant_trading.Live.Orders.{
  live_submit, submission_row, put_order, await_fill, record_final,
}
use toss_api_quant_trading.Decimal.{nat, ◌≤ᵈ◌, frac, truncate, is_zero}
use toss_api_quant_trading.Live.Safe.{GrowsConfirmed, size_intent-sellable, live_submit-confirmed}
use toss_api_quant_trading.Toss.Models.{OrderExecution, Order, is_terminal}
use toss_api_quant_trading.Live.Reconcile.{IsDistinct, ledger_view, history_view, sync_orders-view}
use toss_api_quant_trading.Live.{LiveClient, LiveBroker, sellable}

abbrev execution : OrderExecution
execution = record {
  filled_quantity = nat 7;
  average_filled_price = some (nat 71000);
  commission = some (nat 74);
  tax = none;
  filled_at = none;
}

abbrev sold_order : Order
sold_order = record {
  order_id = "A1";
  symbol = "005930";
  side = sell;
  order_type = market;
  status = filled;
  price = none;
  quantity = nat 7;
  currency = krw;
  ordered_at = 1700000000;
  execution = some execution;
}

abbrev rejected_one : Order
rejected_one = record sold_order { order_id = "A2"; status = rejected; execution = none }

abbrev client : LiveClient
client = record {
  holdings = returned [];
  usd_krw = returned (nat 1380);
  cash_buying_power = λ c. returned (nat 100000);
  last_price = λ symbol. returned (nat 71000);
  sellable_quantity = λ symbol. returned (frac 15 1);
  post_order = λ body. returned "A1";
  get_order = λ n order_id. returned sold_order;
  open_orders = returned [];
  cancel_order = λ order_id. returned order_id;
}

abbrev broker : LiveBroker
broker = record { client = client; etf_symbols = []; confirm_high_value = false }

abbrev sell_all : OrderIntent
sell_all = record {
  symbol = "005930";
  side = sell;
  quantity = some (nat 10);
  order_type = market;
  price = none;
  order_amount = none;
  strategy = "faber";
  reason = "";
}

-- Ten shares are asked for, seven and a half are sellable, and seven go out.
trimmed_to_seven : size_intent client sell_all ≡ sized (some (nat 7))
unfolding size_intent within_sellable sellable country_of truncate
trimmed_to_seven = refl

size_intent-sellable_example : nat 7 ≤ᵈ sellable client "005930"
size_intent-sellable_example = size_intent-sellable client sell_all (nat 7) refl trimmed_to_seven

live_submit-confirmed_example :
    GrowsConfirmed []
      (live_submit broker sell_all "tqt-1" 1700000000 empty_store).1.fills
      (live_submit broker sell_all "tqt-1" 1700000000 empty_store).0
live_submit-confirmed_example = live_submit-confirmed broker sell_all "tqt-1" 1700000000 empty_store

test_submit_fills : length (live_submit broker sell_all "tqt-1" 1700000000 empty_store).1.fills ≡ 1
unfolding live_submit size_intent within_sellable sellable country_of truncate order_body
    submission_row put_order await_fill is_terminal record_final is_zero request_of
test_submit_fills = refl

abbrev order_history : List Order
order_history = sold_order ∷ rejected_one ∷ []

history-IsDistinct : IsDistinct order_history
unfolding IsDistinct
history-IsDistinct = ((refl, _), (_, _))

sync_orders-view_example :
    ledger_view (sync_orders order_history []).1 "A2"
    ≡ history_view order_history (ledger_view []) "A2"
sync_orders-view_example = sync_orders-view order_history [] "A2"
