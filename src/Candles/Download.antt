-- ===== src/Candles/Download.antt =====
-- The outcome of a download, for any server.
use toss_api_quant_trading.Candles.Pages.{iter_candles_ends}
use toss_api_quant_trading.Candles.Paging.{iter_candles}
use toss_api_quant_trading.Toss.Client.{Ending, raised, returned}
use toss_api_quant_trading.Candles.{CandleRow, upsert_candles, Candle, candle_range, put_candles}
use toss_api_quant_trading.Candles.Ingest.{
  CandleServer, SyncResult, sync, sync_symbol, store_batch, resume_at,
}
use toss_api_quant_trading.Prelude.{
  String, List, ℕ, ◌∷◌, Bool, Option, [], ◌≡◌, some, refl, none, length,
}

abbrev pub symbols_of_results : List SyncResult → List String
symbols_of_results [] = []
symbols_of_results (r ∷ rs) = r.symbol ∷ symbols_of_results rs

module _ (interval symbol : String) (table : List CandleRow) where
  -- A download either fails and leaves the table, or writes every candle that it got.
  abbrev pub IsOutcome : Ending (List Candle) → SyncResult → List CandleRow → Type 0
  IsOutcome (raised e) r after = (r.error ≡ some e) × (r.written ≡ 0) × (after ≡ table)
  IsOutcome (returned cs) r after =
      (r.error ≡ none) × (r.written ≡ length cs) × (after ≡ put_candles symbol interval cs table)

  store_batch-IsOutcome :
      (ending : Ending (List Candle))
      → (r : SyncResult) × (after : List CandleRow) × (store_batch symbol interval
            (some ending)
            table
          ≡ some (r, after))
        × (r.symbol ≡ symbol)
        × IsOutcome ending r after
  unfolding upsert_candles
  store_batch-IsOutcome (raised e) = (_, _, refl, refl, (refl, refl, refl))
  store_batch-IsOutcome (returned cs) = (_, _, refl, refl, (refl, refl, refl))

module _ (server : CandleServer) (interval : String) (max_bars : ℕ) (full : Bool) where
  -- The walk that `sync_symbol` makes.
  abbrev pub walked : String → List CandleRow → Option (Ending (List Candle))
  walked symbol table =
      let (lo, hi, n) = candle_range symbol interval table in
      iter_candles (server symbol) max_bars (resume_at full hi)

  -- The download of one symbol comes to an end for any server. Where the walk fails, the table is as
  -- it was and the result has the error; else the table has every candle of the walk written to
  -- it, and the result counts them.
  pub sync_symbol-IsOutcome :
      (symbol : String) (table : List CandleRow)
      → (ending : Ending (List Candle)) × (r : SyncResult) × (after : List CandleRow) × (walked
            symbol table
          ≡ some ending)
        × (sync_symbol server interval max_bars full symbol table ≡ some (r, after))
        × (r.symbol ≡ symbol)
        × IsOutcome interval symbol table ending r after
  unfolding sync_symbol
  sync_symbol-IsOutcome symbol table =
      let (lo, hi, n) = candle_range symbol interval table in
      let (ending, e) = iter_candles_ends (server symbol) max_bars (resume_at full hi) in
      let (r, after, f, s, o) = store_batch-IsOutcome interval symbol table ending in
      (ending, r, after, e, rw e f, s, o)

  -- One bad symbol never ends a run: for any server, a run over symbols has one result for each of
  -- them, in their order.
  pub sync_ends :
      (symbols : List String) (table : List CandleRow)
      → (rs : List SyncResult) × (after : List CandleRow) × (sync server interval max_bars full
            symbols table
          ≡ some (rs, after))
        × (symbols_of_results rs ≡ symbols)
  unfolding sync
  sync_ends [] table = ([], table, refl, refl)
  sync_ends (symbol ∷ rest) table =
      let (ending, r, after, w, e, s, o) = sync_symbol-IsOutcome symbol table in
      let (rs, last, f, g) = sync_ends rest after in
      (r ∷ rs, last, rw (e, sync, f) refl, rw (s, g) refl)
