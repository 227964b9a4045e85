-- ===== src/Candles/Ingest.antt =====
-- src/tqt/data/ingest.py: the download of candles. `full` walks the whole window.
use toss_api_quant_trading.Candles.{Candle, CandleRow, candle_range, upsert_candles}
use toss_api_quant_trading.Candles.Paging.{CandlePage, iter_candles}
use toss_api_quant_trading.Toss.Errors.{TossError}
use toss_api_quant_trading.Toss.Client.{Ending, raised, returned}
use toss_api_quant_trading.Prelude.{String, Bool, ℕ, Option, none, List, true, some, false, ◌∷◌, []}

pub record SyncResult : Type 0 where
  pub symbol : String
  pub interval : String
  pub written : ℕ
  pub from_ts : Option String
  pub to_ts : Option String
  pub error : Option TossError

abbrev pub resume_at : Bool → Option String → Option String
resume_at true hi = none
resume_at false hi = hi

abbrev pub store_batch :
    String
    → String
    → Option (Ending (List Candle))
    → List CandleRow
    → Option (SyncResult × List CandleRow)
store_batch symbol interval none table = none
store_batch symbol interval (some (raised e)) table =
    let (lo, hi, n) = candle_range symbol interval table in
    some (
      record {
        symbol = symbol;
        interval = interval;
        written = 0;
        from_ts = lo;
        to_ts = hi;
        error = some e;
      },
      table,
    )
store_batch symbol interval (some (returned batch)) table =
    let (written, table') = upsert_candles symbol interval batch table in
    let (lo, hi, n) = candle_range symbol interval table' in
    some (
      record {
        symbol = symbol;
        interval = interval;
        written = written;
        from_ts = lo;
        to_ts = hi;
        error = none;
      },
      table',
    )

abbrev pub CandleServer : Type 0
CandleServer = String → ℕ → Option String → Ending CandlePage

module _ (server : CandleServer) (interval : String) (max_bars : ℕ) (full : Bool) where
  -- `sync_symbol`; `none` would be a walk that runs out of fuel.
  unfoldable pub sync_symbol : String → List CandleRow → Option (SyncResult × List CandleRow)
  sync_symbol symbol table =
      let (lo, hi, n) = candle_range symbol interval table in
      store_batch symbol interval (iter_candles (server symbol) max_bars (resume_at full hi)) table

  abbrev pub cons_result :
      SyncResult
      → Option (List SyncResult × List CandleRow)
      → Option (List SyncResult × List CandleRow)
  cons_result r none = none
  cons_result r (some (rs, table)) = some (r ∷ rs, table)

  -- `sync`: one symbol after another, whatever the errors.
  unfoldable pub sync : List String → List CandleRow → Option (List SyncResult × List CandleRow)
  sync [] table = some ([], table)
  sync (symbol ∷ rest) table = elim (sync_symbol symbol table) [
    | none ↦ none
    | some (r, table') ↦ cons_result r (sync rest table')
  ]
