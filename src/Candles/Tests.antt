-- ===== src/Candles/Tests.antt =====
-- A server with two pages of daily bars, and a failing one.
use toss_api_quant_trading.Decimal.{nat}
use toss_api_quant_trading.Candles.Download.{walked, IsOutcome, sync_symbol-IsOutcome}
use toss_api_quant_trading.Candles.{
  CandleRow, Candle, put_candles, load_candles, sort_candles, insert_candle, earliest,
}
use toss_api_quant_trading.Candles.Ingest.{CandleServer, SyncResult, sync_symbol}
use toss_api_quant_trading.Toss.Client.{Ending, raised, returned, transport_error}
use toss_api_quant_trading.Prelude.{List, All, String, ℕ, ◌∷◌, [], none, some, ◌≡◌, refl, false}
use toss_api_quant_trading.Candles.Kept.{AreApart, row_of}
use toss_api_quant_trading.Candles.Loaded.{IsAnswered, load_candles-put_candles}
use toss_api_quant_trading.Candles.Paging.{CandlePage, iter_candles, walk, turn}

abbrev bar : String → ℕ → Candle
bar ts close = record {
  timestamp = ts;
  open_price = nat close;
  high = nat close;
  low = nat close;
  close = nat close;
  volume = nat 100;
  currency = some "KRW";
}

abbrev first_page : CandlePage
first_page = record {
  candles = bar "2026-01-06" 103 ∷ bar "2026-01-05" 102 ∷ [];
  next_before = some "2026-01-05";
}

abbrev second_page : CandlePage
second_page = record { candles = bar "2026-01-02" 101 ∷ []; next_before = none }

abbrev server : CandleServer
server symbol count none = returned first_page
server symbol count (some cursor) = returned second_page

abbrev failing : CandleServer
failing symbol count before = raised transport_error

test_two_pages :
    iter_candles (server "005930") 10 none
    ≡ some (returned (bar "2026-01-05" 102 ∷ bar "2026-01-06" 103 ∷ bar "2026-01-02" 101 ∷ []))
unfolding iter_candles walk turn sort_candles insert_candle earliest
test_two_pages = refl

abbrev two_bars : List Candle
two_bars = bar "2026-01-05" 102 ∷ bar "2026-01-06" 103 ∷ []

abbrev old_table : List CandleRow
old_table = row_of "005930" "1d" (bar "2026-01-05" 99) ∷ []

two_bars-AreApart : AreApart two_bars
unfolding AreApart
two_bars-AreApart = ((refl, _), (_, _))

load_candles-put_candles_example :
    All
      (IsAnswered
        (load_candles "005930" "1d" none none old_table)
        (load_candles "005930" "1d" none none (put_candles "005930" "1d" two_bars old_table)))
      two_bars
load_candles-put_candles_example =
    load_candles-put_candles "005930" "1d" two_bars old_table two_bars-AreApart

sync_symbol-IsOutcome_example :
    (ending : Ending (List Candle)) × (r : SyncResult) × (after : List CandleRow) × (walked server
        "1d" 10 false "005930" old_table
      ≡ some ending)
    × (sync_symbol server "1d" 10 false "005930" old_table ≡ some (r, after))
    × (r.symbol ≡ "005930")
    × IsOutcome "1d" "005930" old_table ending r after
sync_symbol-IsOutcome_example = sync_symbol-IsOutcome server "1d" 10 false "005930" old_table
