-- ===== src/Candles/Paging.antt =====
-- `iter_candles` of src/tqt/toss/client.py. The server is a parameter that answers a count and a
-- cursor with a page.
use toss_api_quant_trading.Candles.{Candle, earliest, sort_candles, text_le}
use toss_api_quant_trading.Toss.Client.{Ending, raised, returned}
use toss_api_quant_trading.Prelude.{
  List, Option, none, ℕ, [], String, if◌then◌else◌, Bool, ◌+◌, suc, false, length, some, ltb, ◌∷◌,
  zero, ◌++◌, min, not, str_eq, ◌||◌, ◌&&◌, ◌-◌, member,
}

pub record CandlePage : Type 0 where
  pub candles : List Candle
  pub next_before : Option String

abbrev pub max_candles_per_call : ℕ
max_candles_per_call = 200

-- The variables of the loop, with what it has yielded.
pub record Walk : Type 0 where
  pub fetched : ℕ
  pub before : Option String
  pub seen_cursors : List String
  pub yielded : List Candle

abbrev pub first_walk : Walk
first_walk = record { fetched = 0; before = none; seen_cursors = []; yielded = [] }

-- What a pass of the loop does: it finishes, or goes on.
pub data Turn : Type 0 where
  finishes : Ending (List Candle) → Turn
  goes_on : Walk → Turn

abbrev pub reached : Option String → Option String → Bool
reached none oldest = false
reached (some stop) none = false
reached (some stop) (some oldest) = not (str_eq stop "") && text_le oldest stop

-- The next cursor: none, an empty one, or one that was seen ends the walk.
abbrev pub follow : Option String → Walk → Turn
follow none w = finishes (returned w.yielded)
follow (some cursor) w =
    if str_eq cursor "" || member cursor w.seen_cursors
    then finishes (returned w.yielded)
    else goes_on (record w { before = some cursor; seen_cursors = cursor ∷ w.seen_cursors })

abbrev pub took : List Candle → Walk → Walk
took cs w = record w { fetched = w.fetched + length cs; yielded = w.yielded ++ sort_candles cs }

abbrev pub on_candles : Option String → List Candle → Option String → Walk → Turn
on_candles stop_at [] cursor w = finishes (returned w.yielded)
on_candles stop_at (c ∷ cs) cursor w =
    if reached stop_at (earliest (c ∷ cs))
    then finishes (returned (took (c ∷ cs) w).yielded)
    else follow cursor (took (c ∷ cs) w)

abbrev pub on_page : Option String → Ending CandlePage → Walk → Turn
on_page stop_at (raised e) w = finishes (raised e)
on_page stop_at (returned page) w = on_candles stop_at page.candles page.next_before w

module _ (server : ℕ → Option String → Ending CandlePage) (max_bars : ℕ)
    (stop_at : Option String) where
  -- One pass of the loop.
  unfoldable pub turn : Walk → Turn
  turn w =
      if ltb w.fetched max_bars
      then on_page stop_at (server (min max_candles_per_call (max_bars - w.fetched)) w.before) w
      else finishes (returned w.yielded)

  -- The loop, on fuel; `none` means that the fuel ran out.
  unfoldable pub walk : ℕ → Walk → Option (Ending (List Candle))
  walk zero w = none
  walk (suc fuel) w = elim (turn w) [ finishes ending ↦ some ending | goes_on w' ↦ walk fuel w' ]

  -- `list(iter_candles(…))`: the fuel is one more than the number of bars.
  unfoldable pub iter_candles : Option (Ending (List Candle))
  iter_candles = walk (suc max_bars) first_walk
