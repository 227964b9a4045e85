-- ===== src/Live.antt =====
-- src/tqt/execution/live.py: the live broker. The API client is a record of answers; the log, and
-- the texts of the events, are left out.
pub mod Size
pub mod Orders
pub mod Sync
pub mod Count
pub mod Safe
pub mod Answers
pub mod Reconcile
mod Tests
use toss_api_quant_trading.Toss.Orders.{OrderBody}
use toss_api_quant_trading.Prelude.Dict.{Dict, insert}
use toss_api_quant_trading.Universe.{krw, Currency, usd}
use toss_api_quant_trading.Decimal.{Decimal, ◌⊕◌, nat, ◌⊗◌, le}
use toss_api_quant_trading.Toss.Models.{Order, HoldingItem}
use toss_api_quant_trading.Broker.{AccountSnapshot, Position}
use toss_api_quant_trading.Toss.Client.{Ending, returned, raised}
use toss_api_quant_trading.Store.{Store, log_event, cancel_all_event}
use toss_api_quant_trading.Prelude.{
  List, String, ℕ, Option, Bool, suc, some, ◌∷◌, if◌then◌else◌, none, [], zero,
}

-- What the broker asks of the API. `get_order` takes the number of the poll.
pub record LiveClient : Type 0 where
  pub holdings : Ending (List HoldingItem)
  pub usd_krw : Ending Decimal
  pub cash_buying_power : Currency → Ending Decimal
  pub last_price : String → Ending Decimal
  pub sellable_quantity : String → Ending Decimal
  pub post_order : OrderBody → Ending String
  pub get_order : ℕ → String → Ending Order
  pub open_orders : Ending (List Order)
  pub cancel_order : String → Ending String

pub record LiveBroker : Type 0 where
  pub client : LiveClient
  pub etf_symbols : List String
  pub confirm_high_value : Bool

-- A call whose error ends the caller.
abbrev pub bind {ℓ κ} : {A : Type ℓ} {B : Type κ} → Ending A → (A → Ending B) → Ending B
bind (returned a) f = f a
bind (raised e) f = raised e

-- The loop of `snapshot` over the holdings; an item without quantity is skipped.
unfoldable pub held_positions : List HoldingItem → Dict Position → Dict Position
held_positions [] d = d
held_positions (item ∷ rest) d = held_positions rest (
    if le item.quantity (nat 0)
    then d
    else insert item.symbol
        record {
          symbol = item.symbol;
          quantity = item.quantity;
          avg_price = item.average_purchase_price;
          currency = item.currency;
        }
        d)

unfoldable pub held_prices : List HoldingItem → Dict Decimal → Dict Decimal
held_prices [] d = d
held_prices (item ∷ rest) d =
    held_prices rest (if le item.quantity (nat 0) then d else insert item.symbol item.last_price d)

-- The dollars count if the API gives them.
abbrev pub with_dollars : Ending Decimal → Decimal → Decimal → Decimal
with_dollars (returned usd_cash) fx cash = cash ⊕ usd_cash ⊗ fx
with_dollars (raised e) fx cash = cash

unfoldable pub live_snapshot : LiveClient → Ending AccountSnapshot
live_snapshot client = bind client.holdings (λ items. bind client.usd_krw (λ fx.
    bind (client.cash_buying_power krw) (λ cash. returned record {
      cash_krw = with_dollars (client.cash_buying_power usd) fx cash;
      positions = held_positions items [];
      usd_krw = fx;
      prices = held_prices items [];
    })))

-- The orders that the API lets cancel.
abbrev pub count_if {ℓ} : {A : Type ℓ} → Ending A → ℕ → ℕ
count_if (returned _) n = suc n
count_if (raised e) n = n

unfoldable pub cancelled : LiveClient → List Order → ℕ
cancelled client [] = 0
cancelled client (o ∷ rest) = count_if (client.cancel_order o.order_id) (cancelled client rest)

abbrev pub note_cancelled : ℕ → Store → Store
note_cancelled zero s = s
note_cancelled (suc n) s = log_event cancel_all_event s

abbrev pub cancel_these : LiveClient → Ending (List Order) → Store → Ending ℕ × Store
cancel_these client (raised e) s = (raised e, s)
cancel_these client (returned os) s =
    let n = cancelled client os in (returned n, note_cancelled n s)

-- `cancel_all`
unfoldable pub cancel_all : LiveClient → Store → Ending ℕ × Store
cancel_all client s = cancel_these client client.open_orders s

abbrev pub or_none {ℓ} : {A : Type ℓ} → Ending A → Option A
or_none (returned a) = some a
or_none (raised e) = none

-- `price_of`
unfoldable pub live_price_of : LiveClient → String → Option Decimal
live_price_of client symbol = or_none (client.last_price symbol)

abbrev pub quantity_or_zero : Ending Decimal → Decimal
quantity_or_zero (returned qty) = qty
quantity_or_zero (raised e) = nat 0

unfoldable pub sellable : LiveClient → String → Decimal
sellable client symbol = quantity_or_zero (client.sellable_quantity symbol)
