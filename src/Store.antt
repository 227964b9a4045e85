-- ===== src/Store.antt =====
-- src/tqt/data/store.py: the tables of the ledger and of the bot's state. A table keyed by broker
-- and symbol is the paper broker's dictionary, since the live broker writes no position or cash
-- row. An instant is the number of seconds since 1970, UTC, and a calendar date is its day number:
-- a stamp's first ten characters name the UTC day of the instant.
pub mod State
mod Tests
use toss_api_quant_trading.Prelude.{
  ℕ, ◌+◌, ◌/◌, Bool, true, false, ◌&&◌, Option, none, some, List, [], ◌∷◌, ◌++◌, String, leb, ◌==◌,
  if◌then◌else◌,
}
use toss_api_quant_trading.Prelude.Dict.{Dict}
use toss_api_quant_trading.Decimal.{Decimal}
use toss_api_quant_trading.Universe.{Side, Currency}
use toss_api_quant_trading.Broker.{Position, OrderType, Status}

pub data BrokerName : Type 0 where
  paper live : BrokerName

abbrev pub same_broker : BrokerName → BrokerName → Bool
same_broker paper paper = true
same_broker live live = true
same_broker _ _ = false

-- One row of `orders`.
pub record OrderRow : Type 0 where
  pub order_id : String
  pub broker : BrokerName
  pub strategy : String
  pub symbol : String
  pub side : Side
  pub order_type : OrderType
  pub quantity : Decimal
  pub price : Option Decimal
  pub currency : Currency
  pub status : Status
  pub filled_quantity : Decimal
  pub avg_fill_price : Option Decimal
  pub commission : Option Decimal
  pub tax : Option Decimal
  pub submitted_at : ℕ

-- One row of `fills`.
pub record FillRow : Type 0 where
  pub broker : BrokerName
  pub order_id : String
  pub symbol : String
  pub side : Side
  pub quantity : Decimal
  pub price : Decimal
  pub commission : Decimal
  pub tax : Decimal
  pub currency : Currency
  pub filled_at : ℕ
  pub strategy : String

-- One row of `equity`.
pub record EquityRow : Type 0 where
  pub broker : BrokerName
  pub ts : ℕ
  pub equity_krw : Decimal
  pub cash_krw : Decimal
  pub positions_krw : Decimal
  pub usd_krw : Decimal

pub data EventKind : Type 0 where
  halt_event resume_event paper_init cancel_all_event order_rejected_event order_failed_event
        ip_changed cycle_event :
      EventKind

-- The texts that are stored under `halt_reason`; `blank` is the empty one.
pub data HaltReason : Type 0 where
  blank : HaltReason
  operator : String → HaltReason
  daily_loss_breached : Decimal → Decimal → HaltReason
  budget_exhausted : ℕ → ℕ → HaltReason

pub record Store : Type 0 where
  -- the keys `halted`, `halted_for_date`, `halt_reason` and `last_usd_krw` of `state`
  pub halted : Bool
  pub halted_date : Option ℕ
  pub halt_reason : HaltReason
  pub last_usd_krw : Option Decimal
  pub cash : Option Decimal
  pub positions : Dict Position
  pub orders : List OrderRow
  pub fills : List FillRow
  pub equity : List EquityRow
  pub signals : List (ℕ × String × Decimal)
  pub events : List EventKind

abbrev pub empty_store : Store
empty_store = record {
  halted = false;
  halted_date = none;
  halt_reason = blank;
  last_usd_krw = none;
  cash = none;
  positions = [];
  orders = [];
  fills = [];
  equity = [];
  signals = [];
  events = [];
}

-- The day of an instant in UTC, and in Korea (UTC + 9 hours).
abbrev pub utc_day : ℕ → ℕ
utc_day t = t / 86400

abbrev pub kst_day : ℕ → ℕ
kst_day t = (t + 32400) / 86400

unfoldable pub log_event : EventKind → Store → Store
log_event kind s = record s { events = s.events ++ kind ∷ [] }

-- `INSERT OR REPLACE` on the key (broker, ts).
unfoldable pub put_equity : EquityRow → List EquityRow → List EquityRow
put_equity row [] = row ∷ []
put_equity row (r ∷ rest) =
    if same_broker r.broker row.broker && r.ts == row.ts
    then row ∷ rest
    else r ∷ put_equity row rest

unfoldable pub record_equity : EquityRow → Store → Store
record_equity row s = record s { equity = put_equity row s.equity }

-- `ORDER BY ts ASC LIMIT 1`, of two candidates.
abbrev pub earlier : EquityRow → Option EquityRow → Option EquityRow
earlier r none = some r
earlier r (some q) = if leb r.ts q.ts then some r else some q

-- The earliest row of a broker whose stamp begins with the date.
unfoldable pub first_row : BrokerName → ℕ → List EquityRow → Option EquityRow
first_row broker day [] = none
first_row broker day (r ∷ rest) =
    let found = first_row broker day rest in
    if same_broker r.broker broker && utc_day r.ts == day then earlier r found else found

abbrev pub equity_of : Option EquityRow → Option Decimal
equity_of none = none
equity_of (some r) = some r.equity_krw

unfoldable pub first_equity_of_day : BrokerName → ℕ → Store → Option Decimal
first_equity_of_day broker day s = equity_of (first_row broker day s.equity)
