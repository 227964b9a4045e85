-- ===== src/Candles.antt =====
-- src/tqt/data/store.py: the table of candles, and src/tqt/toss/models.py: the candles of the API.
-- A timestamp is an ISO text, which SQL and Python compare by its characters.
pub mod Paging
pub mod Ingest
pub mod Kept
pub mod Loaded
pub mod Pages
pub mod Download
mod Tests
use toss_api_quant_trading.Universe.{codes_lt, codes}
use toss_api_quant_trading.Decimal.{Decimal}
use toss_api_quant_trading.Prelude.{
  List, Option, String, ℕ, some, none, ◌∷◌, Bool, length, not, str_eq, true, if◌then◌else◌, [],
  ◌&&◌, ◌||◌,
}

pub record Candle : Type 0 where
  pub timestamp : String
  pub open_price : Decimal
  pub high : Decimal
  pub low : Decimal
  pub close : Decimal
  pub volume : Decimal
  pub currency : Option String

-- `a <= b` of texts.
abbrev pub text_le : String → String → Bool
text_le a b = not (codes_lt (codes b) (codes a))

-- One row of `candles`.
pub record CandleRow : Type 0 where
  pub symbol : String
  pub interval : String
  pub candle : Candle

-- The primary key of a row.
abbrev pub has_key : String → String → String → CandleRow → Bool
has_key symbol interval ts row =
    str_eq row.symbol symbol && str_eq row.interval interval && str_eq row.candle.timestamp ts

-- `COALESCE(excluded.currency, candles.currency)`
abbrev pub coalesce : Option String → Option String → Option String
coalesce (some c) old = some c
coalesce none old = old

abbrev pub overwritten : Candle → Candle → Candle
overwritten c old = record c { currency = coalesce c.currency old.currency }

-- `INSERT … ON CONFLICT(symbol, interval, ts) DO UPDATE`
unfoldable pub put_candle : String → String → Candle → List CandleRow → List CandleRow
put_candle symbol interval c [] = record { symbol = symbol; interval = interval; candle = c } ∷ []
put_candle symbol interval c (row ∷ rest) =
    let later = put_candle symbol interval c rest in
    if has_key symbol interval c.timestamp row
    then record row { candle = overwritten c row.candle } ∷ rest
    else row ∷ later

unfoldable pub put_candles : String → String → List Candle → List CandleRow → List CandleRow
put_candles symbol interval [] table = table
put_candles symbol interval (c ∷ cs) table =
    put_candles symbol interval cs (put_candle symbol interval c table)

-- `upsert_candles`: the number of rows given, and the table.
unfoldable pub upsert_candles : String → String → List Candle → List CandleRow → ℕ × List CandleRow
upsert_candles symbol interval cs table = (length cs, put_candles symbol interval cs table)

abbrev pub in_series : String → String → CandleRow → Bool
in_series symbol interval row = str_eq row.symbol symbol && str_eq row.interval interval

-- The candles of a series.
unfoldable pub series : String → String → List CandleRow → List Candle
series symbol interval [] = []
series symbol interval (row ∷ rest) =
    let later = series symbol interval rest in
    if in_series symbol interval row then row.candle ∷ later else later

abbrev pub lower_of : String → Option String → Option String
lower_of ts none = some ts
lower_of ts (some other) = if text_le ts other then some ts else some other

abbrev pub higher_of : String → Option String → Option String
higher_of ts none = some ts
higher_of ts (some other) = if text_le ts other then some other else some ts

-- `MIN(ts)` and `MAX(ts)`
unfoldable pub earliest : List Candle → Option String
earliest [] = none
earliest (c ∷ cs) = lower_of c.timestamp (earliest cs)

unfoldable pub latest : List Candle → Option String
latest [] = none
latest (c ∷ cs) = higher_of c.timestamp (latest cs)

-- `candle_range`
unfoldable pub candle_range : String → String → List CandleRow → Option String × Option String × ℕ
candle_range symbol interval table =
    let cs = series symbol interval table in (earliest cs, latest cs, length cs)

-- A stable sort by timestamp: `ORDER BY ts ASC`, and `sorted(…, key=…)`.
unfoldable pub insert_candle : Candle → List Candle → List Candle
insert_candle c [] = c ∷ []
insert_candle c (d ∷ ds) =
    let later = insert_candle c ds in
    if text_le c.timestamp d.timestamp then c ∷ d ∷ ds else d ∷ later

unfoldable pub sort_candles : List Candle → List Candle
sort_candles [] = []
sort_candles (c ∷ cs) = insert_candle c (sort_candles cs)

-- The bounds that a query may have; Python takes the empty text for none.
abbrev pub not_before : Option String → String → Bool
not_before none ts = true
not_before (some start) ts = str_eq start "" || text_le start ts

abbrev pub not_after : Option String → String → Bool
not_after none ts = true
not_after (some end) ts = str_eq end "" || text_le ts end

unfoldable pub between : Option String → Option String → List Candle → List Candle
between start end [] = []
between start end (c ∷ cs) =
    let later = between start end cs in
    if not_before start c.timestamp && not_after end c.timestamp then c ∷ later else later

-- `load_candles`
unfoldable pub load_candles :
    String → String → Option String → Option String → List CandleRow → List Candle
load_candles symbol interval start end table =
    sort_candles (between start end (series symbol interval table))
