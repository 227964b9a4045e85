-- ===== src/Toss/Orders.antt =====
-- src/tqt/toss/client.py: `create_order`, up to the request that it sends. The time in force, which
-- the bot never gives, is left out.
use toss_api_quant_trading.Universe.{Side}
use toss_api_quant_trading.Broker.{OrderType, limit, market}
use toss_api_quant_trading.Decimal.{Decimal}
use toss_api_quant_trading.Prelude.{
  String, Option, some, Bool, none, ◌&&◌, if◌then◌else◌, false, true, not,
}

pub record OrderRequest : Type 0 where
  pub symbol : String
  pub side : Side
  pub order_type : OrderType
  pub quantity : Option Decimal
  pub price : Option Decimal
  pub order_amount : Option Decimal
  pub client_order_id : String
  pub confirm_high_value : Bool

-- The size of an order, as the body has it: a quantity with its price, or an amount of money.
pub data BodySize : Type 0 where
  by_quantity : Decimal → Option Decimal → BodySize
  by_amount : Decimal → BodySize

pub record OrderBody : Type 0 where
  pub symbol : String
  pub side : Side
  pub order_type : OrderType
  pub client_order_id : String
  pub size : BodySize
  pub confirm_high_value : Bool

abbrev pub is_given {ℓ} : {A : Type ℓ} → Option A → Bool
is_given none = false
is_given (some _) = true

-- `quantity=` or `order_amount=`, of which exactly one is given; `none` is the ValueError.
abbrev pub body_size : Option Decimal → Option Decimal → Option Decimal → Option BodySize
body_size (some qty) price none = some (by_quantity qty price)
body_size none price (some amount) = some (by_amount amount)
body_size _ _ _ = none

-- The checks on the type: a limit order has a price, a market order has none, and only a market
-- order has an amount.
abbrev pub type_allows : OrderType → Option Decimal → Option Decimal → Bool
type_allows limit price amount = is_given price && not (is_given amount)
type_allows market price amount = not (is_given price)

abbrev pub body_of : OrderRequest → Option BodySize → Option OrderBody
body_of r none = none
body_of r (some size) =
    if type_allows r.order_type r.price r.order_amount
    then some record {
      symbol = r.symbol;
      side = r.side;
      order_type = r.order_type;
      client_order_id = r.client_order_id;
      size = size;
      confirm_high_value = r.confirm_high_value;
    }
    else none

-- The body that `create_order` sends, or `none` where it raises a ValueError before any request.
unfoldable pub order_body : OrderRequest → Option OrderBody
order_body r = body_of r (body_size r.quantity r.price r.order_amount)
