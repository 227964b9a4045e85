-- ===== src/Toss/Models.antt =====
-- src/tqt/toss/models.py: the orders, executions and holdings that the API returns, with the fields
-- that the bot reads. A stamp is the instant that its date and time name when they are read as
-- UTC's, as the ledger's queries by date read them.
use toss_api_quant_trading.Universe.{Currency, Side}
use toss_api_quant_trading.Decimal.{Decimal, dmax, nat, ◌⊖◌}
use toss_api_quant_trading.Prelude.{
  Bool, String, Option, List, ◌∷◌, member, str_eq, ℕ, some, [], none,
}
use toss_api_quant_trading.Broker.{
  Status, other_status, unknown, OrderType, filled, pending, submitted, partial_filled,
  pending_cancel, pending_replace, canceled, rejected, replaced, cancel_rejected, replace_rejected,
}

abbrev pub status_text : Status → String
status_text unknown = "UNKNOWN"
status_text filled = "FILLED"
status_text pending = "PENDING"
status_text submitted = "SUBMITTED"
status_text partial_filled = "PARTIAL_FILLED"
status_text pending_cancel = "PENDING_CANCEL"
status_text pending_replace = "PENDING_REPLACE"
status_text canceled = "CANCELED"
status_text rejected = "REJECTED"
status_text replaced = "REPLACED"
status_text cancel_rejected = "CANCEL_REJECTED"
status_text replace_rejected = "REPLACE_REJECTED"
status_text (other_status text) = text

abbrev pub same_status : Status → Status → Bool
same_status a b = str_eq (status_text a) (status_text b)

pub record OrderExecution : Type 0 where
  pub filled_quantity : Decimal
  pub average_filled_price : Option Decimal
  pub commission : Option Decimal
  pub tax : Option Decimal
  pub filled_at : Option ℕ

pub record Order : Type 0 where
  pub order_id : String
  pub symbol : String
  pub side : Side
  pub order_type : OrderType
  pub status : Status
  pub price : Option Decimal
  pub quantity : Decimal
  pub currency : Currency
  pub ordered_at : ℕ
  pub execution : Option OrderExecution

abbrev pub open_order_statuses : List String
open_order_statuses = "PENDING" ∷ "PARTIAL_FILLED" ∷ "PENDING_CANCEL" ∷ "PENDING_REPLACE" ∷ []

abbrev pub terminal_order_statuses : List String
terminal_order_statuses =
    "FILLED" ∷ "CANCELED" ∷ "REJECTED" ∷ "REPLACED" ∷ "CANCEL_REJECTED" ∷ "REPLACE_REJECTED" ∷ []

unfoldable pub is_open : Order → Bool
is_open o = member (status_text o.status) open_order_statuses

unfoldable pub is_terminal : Order → Bool
is_terminal o = member (status_text o.status) terminal_order_statuses

abbrev pub executed : Option OrderExecution → Decimal
executed none = nat 0
executed (some ex) = ex.filled_quantity

unfoldable pub filled_quantity : Order → Decimal
filled_quantity o = executed o.execution

unfoldable pub remaining_quantity : Order → Decimal
remaining_quantity o = dmax (o.quantity ⊖ filled_quantity o) (nat 0)

pub record HoldingItem : Type 0 where
  pub symbol : String
  pub currency : Currency
  pub quantity : Decimal
  pub last_price : Decimal
  pub average_purchase_price : Decimal
