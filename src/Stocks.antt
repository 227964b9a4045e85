-- ===== src/Stocks.antt =====
-- The table of stocks of src/tqt/data/store.py and its download in src/tqt/data/ingest.py, with the
-- stocks of src/tqt/toss/models.py. The stamp of a write and the JSON of a stock are parameters.
mod Stored
use toss_api_quant_trading.Decimal.{Decimal, nat, is_zero, ◌⊖◌}
use toss_api_quant_trading.Prelude.Dict.{Dict, lookup, insert}
use toss_api_quant_trading.Toss.Client.{Ending, returned, raised}
use toss_api_quant_trading.Toss.Queries.{chunks_of}
use toss_api_quant_trading.Prelude.{
  ℕ, String, Bool, Option, some, none, List, [], ◌∷◌, true, false, not, ◌||◌, ◌+◌, if◌then◌else◌,
  str_eq, member, length,
}

pub record KrMarketDetail : Type 0 where
  pub liquidation_trading : Bool
  pub krx_trading_suspended : Bool

-- The fields that the code reads.
pub record Stock : Type 0 where
  pub symbol : String
  pub name : String
  pub market : String
  pub security_type : String
  pub status : String
  pub currency : String
  pub leverage_factor : Option Decimal
  pub korean_market_detail : Option KrMarketDetail

abbrev pub market_country : Stock → String
market_country st = if member st.market ("KOSPI" ∷ "KOSDAQ" ∷ "KR_ETC" ∷ []) then "KR" else "US"

abbrev pub blocks_trading : Option KrMarketDetail → Bool
blocks_trading none = false
blocks_trading (some d) = d.liquidation_trading || d.krx_trading_suspended

unfoldable pub is_tradable : Stock → Bool
is_tradable st =
    if str_eq st.status "ACTIVE" then not (blocks_trading st.korean_market_detail) else false

abbrev pub is_not_one : Option Decimal → Bool
is_not_one none = false
is_not_one (some x) = not (is_zero (x ⊖ nat 1))

unfoldable pub is_leveraged : Stock → Bool
is_leveraged st = is_not_one st.leverage_factor

-- A row of the table, whose key is the symbol.
pub record StockRow : Type 0 where
  pub name : String
  pub market : String
  pub country : String
  pub security_type : String
  pub currency : String
  pub status : String
  pub leverage_factor : Option Decimal
  pub updated_at : String
  pub raw : String

abbrev pub StockTable : Type 0
StockTable = Dict StockRow

unfoldable pub get_stock : String → StockTable → Option StockRow
get_stock symbol table = lookup symbol table

-- What the service answers for a list of symbols.
abbrev pub StockServer : Type 0
StockServer = List String → Ending (List Stock)

abbrev pub stocks_per_call : ℕ
stocks_per_call = 100

module _ (dump : Stock → String) (now : String) where
  abbrev pub stock_row : Stock → StockRow
  stock_row st = record {
    name = st.name;
    market = st.market;
    country = market_country st;
    security_type = st.security_type;
    currency = st.currency;
    status = st.status;
    leverage_factor = st.leverage_factor;
    updated_at = now;
    raw = dump st;
  }

  abbrev pub put_stocks : List Stock → StockTable → StockTable
  put_stocks [] table = table
  put_stocks (st ∷ rest) table = put_stocks rest (insert st.symbol (stock_row st) table)

  unfoldable pub upsert_stocks : List Stock → StockTable → ℕ × StockTable
  upsert_stocks stocks table = (length stocks, put_stocks stocks table)

  abbrev pub add_written : ℕ → Ending ℕ → Ending ℕ
  add_written n (raised e) = raised e
  add_written n (returned m) = returned (n + m)

  -- The batches of a download; the first error ends it, and what was written stays.
  unfoldable pub sync_batches :
      StockServer → List (List String) → StockTable → Ending ℕ × StockTable
  sync_batches server [] table = (returned 0, table)
  sync_batches server (batch ∷ rest) table = elim (server batch) [
    | raised e ↦ (raised e, table)
    | returned stocks ↦
        let (n, table') = upsert_stocks stocks table in
        let (written, last) = sync_batches server rest table' in (add_written n written, last)
  ]

  -- `sync_stock_master`
  unfoldable pub sync_stock_master : StockServer → List String → StockTable → Ending ℕ × StockTable
  sync_stock_master server symbols table =
      sync_batches server (chunks_of (length symbols) stocks_per_call symbols) table
