-- ===== src/Live/Size.antt =====
-- The order that `submit` of src/tqt/execution/live.py sends: its quantity, its price and its body.
use toss_api_quant_trading.Tick.{round_to_tick}
use toss_api_quant_trading.Toss.Orders.{OrderRequest}
use toss_api_quant_trading.Decimal.{Decimal, truncate, le, nat, lt}
use toss_api_quant_trading.Prelude.{String, Option, if◌then◌else◌, some, none, member}
use toss_api_quant_trading.Broker.{
  SubmitError, OrderIntent, OrderType, limit, sellable_zero, rounds_to_zero,
}
use toss_api_quant_trading.Live.{LiveClient, LiveBroker, sellable}
use toss_api_quant_trading.Universe.{Side, Country, kr, country_of, buy, us, sell}

abbrev pub country_text : Country → String
country_text kr = "KR"
country_text us = "US"

abbrev pub side_text : Side → String
side_text buy = "BUY"
side_text sell = "SELL"

-- The quantity to send, or the reason to send nothing.
pub data SendSize : Type 0 where
  refused : SubmitError → SendSize
  sized : Option Decimal → SendSize

-- KRX trades whole shares.
abbrev pub whole_or_refused : Country → Decimal → SendSize
whole_or_refused us qty = sized (some qty)
whole_or_refused kr qty =
    if le (truncate qty) (nat 0) then refused rounds_to_zero else sized (some (truncate qty))

abbrev pub trimmed_to : Country → Decimal → Decimal
trimmed_to us avail = avail
trimmed_to kr avail = truncate avail

-- No sell of more than is sellable.
unfoldable pub within_sellable : Country → Decimal → Decimal → SendSize
within_sellable country avail qty =
    if le avail (nat 0)
    then refused sellable_zero
    else sized (some (if lt avail qty then trimmed_to country avail else qty))

abbrev pub sell_checked : Side → Country → Decimal → SendSize → SendSize
sell_checked sell country avail (sized (some qty)) = within_sellable country avail qty
sell_checked side country avail z = z

abbrev pub first_size : Country → Option Decimal → SendSize
first_size country none = sized none
first_size country (some qty) = whole_or_refused country qty

-- The quantity of an intent, through both checks.
unfoldable pub size_intent : LiveClient → OrderIntent → SendSize
size_intent client intent =
    let country = country_of intent.symbol in
    sell_checked intent.side country (sellable client intent.symbol)
      (first_size country intent.quantity)

-- The limit price, on the tick.
abbrev pub limit_price : LiveBroker → OrderIntent → OrderType → Option Decimal → Option Decimal
limit_price b intent limit (some px) = some (
    round_to_tick px (country_text (country_of intent.symbol)) (member intent.symbol b.etf_symbols)
      (some (side_text intent.side)))
limit_price b intent _ price = price

unfoldable pub request_of : LiveBroker → OrderIntent → String → Option Decimal → OrderRequest
request_of b intent client_order_id qty = record {
  symbol = intent.symbol;
  side = intent.side;
  order_type = intent.order_type;
  quantity = qty;
  price = limit_price b intent intent.order_type intent.price;
  order_amount = intent.order_amount;
  client_order_id = client_order_id;
  confirm_high_value = b.confirm_high_value;
}
