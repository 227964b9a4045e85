-- ===== src/Broker.antt =====
-- src/tqt/execution/broker.py: positions, order intents, order results and account snapshots.
use toss_api_quant_trading.Prelude.{
  Bool, true, false, Option, none, some, [], ◌∷◌, String, if◌then◌else◌,
}
use toss_api_quant_trading.Prelude.Dict.{Dict, get_or}
use toss_api_quant_trading.Decimal.{Decimal, nat, ◌⊕◌, ◌⊗◌, ◌⊘◌, le}
use toss_api_quant_trading.Universe.{Side, Currency, krw, usd}

pub record Position : Type 0 where
  pub symbol : String
  pub quantity : Decimal
  pub avg_price : Decimal
  pub currency : Currency

pub data OrderType : Type 0 where
  market limit : OrderType

pub record OrderIntent : Type 0 where
  pub symbol : String
  pub side : Side
  pub quantity : Option Decimal
  pub order_type : OrderType
  pub price : Option Decimal
  pub order_amount : Option Decimal
  pub strategy : String
  pub reason : String

needs_price : OrderType → Option Decimal → Bool
needs_price limit none = true
needs_price _ _ = false

lacks_size : Option Decimal → Option Decimal → Bool
lacks_size none none = true
lacks_size _ _ = false

-- `OrderIntent.__post_init__`: `none` is its ValueError.
unfoldable pub intent_post_init : OrderIntent → Option OrderIntent
unfolding needs_price lacks_size
intent_post_init i =
    if lacks_size i.quantity i.order_amount
    then none
    else if needs_price i.order_type i.price
    then none
    else some i

pub data Status : Type 0 where
  unknown filled pending submitted partial_filled pending_cancel pending_replace canceled rejected
        replaced cancel_rejected replace_rejected :
      Status
  -- a text of the server that the source does not name
  other_status : String → Status

-- The reasons for which `submit` refuses, as the source's error texts.
pub data SubmitError : Type 0 where
  no_market_price no_quantity rounds_to_zero nothing_to_sell insufficient_cash sellable_zero
        order_rejected order_failed :
      SubmitError

pub record OrderResult : Type 0 where
  pub ok : Bool
  pub symbol : String
  pub side : Side
  pub order_id : Option String
  pub filled_quantity : Decimal
  pub fill_price : Option Decimal
  pub commission : Decimal
  pub tax : Decimal
  pub currency : Currency
  pub status : Status
  pub error : Option SubmitError

-- `OrderResult(ok=False, symbol=…, side=…, error=…)`
abbrev pub refusal : String → Side → SubmitError → OrderResult
refusal symbol side error = record {
  ok = false;
  symbol = symbol;
  side = side;
  order_id = none;
  filled_quantity = nat 0;
  fill_price = none;
  commission = nat 0;
  tax = nat 0;
  currency = krw;
  status = unknown;
  error = some error;
}

pub record AccountSnapshot : Type 0 where
  pub cash_krw : Decimal
  pub positions : Dict Position
  pub usd_krw : Decimal
  pub prices : Dict Decimal

abbrev pub in_krw : Currency → Decimal → Decimal → Decimal
in_krw krw fx value = value
in_krw usd fx value = value ⊗ fx

-- The value of one holding: the mark, or the average price where there is none.
unfoldable pub holding_value : AccountSnapshot → String → Position → Decimal
holding_value s sym pos =
    in_krw pos.currency s.usd_krw (get_or sym pos.avg_price s.prices ⊗ pos.quantity)

-- The loop of `position_value_krw`.
unfoldable pub add_values : AccountSnapshot → Dict Position → Decimal → Decimal
add_values s [] total = total
add_values s ((sym, pos) ∷ rest) total = add_values s rest (total ⊕ holding_value s sym pos)

unfoldable pub position_value_krw : AccountSnapshot → Decimal
position_value_krw s = add_values s s.positions (nat 0)

unfoldable pub equity_krw : AccountSnapshot → Decimal
equity_krw s = s.cash_krw ⊕ position_value_krw s

unfoldable pub weigh : AccountSnapshot → Decimal → Dict Position → Dict Decimal
weigh s eq [] = []
weigh s eq ((sym, pos) ∷ rest) = (sym, holding_value s sym pos ⊘ eq) ∷ weigh s eq rest

unfoldable pub weights : AccountSnapshot → Dict Decimal
weights s = let eq = equity_krw s in if le eq (nat 0) then [] else weigh s eq s.positions
