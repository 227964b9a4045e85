-- ===== src/Ops/Clock.antt =====
-- `MarketClock` of src/tqt/ops.py. The API's calendar is a parameter; an instant that does not parse
-- is none, and so is the session of a closed day.
use toss_api_quant_trading.Decimal.{Decimal, nat, ◌⊖◌, ◌⊘◌}
use toss_api_quant_trading.Toss.Orders.{is_given}
use toss_api_quant_trading.Prelude.{
  Bool, Option, List, ℕ, some, none, false, leb, true, if◌then◌else◌, ◌&&◌, ◌∷◌, ltb, ◌==◌, [],
}
use toss_api_quant_trading.Universe.{Country, kr, us}
use toss_api_quant_trading.Toss.Client.{Ending, raised, returned}

pub record Session : Type 0 where
  pub start_time : Option ℕ
  pub end_time : Option ℕ

-- A day of a market, with its regular session.
pub record MarketDay : Type 0 where
  pub regular_market : Option Session

pub record MarketCalendar : Type 0 where
  pub today : MarketDay
  pub next_business_day : MarketDay

abbrev pub is_open_day : MarketDay → Bool
is_open_day d = is_given d.regular_market

pub record SessionWindow : Type 0 where
  pub start : Option ℕ
  pub end : Option ℕ

abbrev pub in_window : Option ℕ → Option ℕ → ℕ → Bool
in_window (some start) (some end) now = leb start now && leb now end
in_window _ _ now = false

-- `SessionWindow.contains`
unfoldable pub contains : SessionWindow → ℕ → Bool
contains w now = in_window w.start w.end now

abbrev pub session_start : Option Session → Option ℕ
session_start none = none
session_start (some s) = s.start_time

abbrev pub session_end : Option Session → Option ℕ
session_end none = none
session_end (some s) = s.end_time

abbrev pub window_of : MarketDay → SessionWindow
window_of d = record { start = session_start d.regular_market; end = session_end d.regular_market }

-- The cache of calendars, by country and date.
abbrev pub Cache : Type 0
Cache = List ((Country × ℕ) × MarketCalendar)

abbrev pub same_country : Country → Country → Bool
same_country kr kr = true
same_country us us = true
same_country _ _ = false

unfoldable pub cached_calendar : Country → ℕ → Cache → Option MarketCalendar
cached_calendar country date [] = none
cached_calendar country date (((c, d), cal) ∷ rest) =
    let later = cached_calendar country date rest in
    if same_country c country && d == date then some cal else later

abbrev pub keep_calendar :
    Country → ℕ → Ending MarketCalendar → Cache → Ending MarketCalendar × Cache
keep_calendar country date (raised e) cache = (raised e, cache)
keep_calendar country date (returned cal) cache = (returned cal, ((country, date), cal) ∷ cache)

abbrev pub reuse_calendar :
    Country
    → ℕ
    → Option MarketCalendar
    → Ending MarketCalendar
    → Cache
    → Ending MarketCalendar × Cache
reuse_calendar country date (some cal) answer cache = (returned cal, cache)
reuse_calendar country date none answer cache = keep_calendar country date answer cache

-- `_calendar`: the answer of the API counts only where the cache has no calendar. A failure is not
-- kept.
unfoldable pub calendar :
    Country → ℕ → Ending MarketCalendar → Cache → Ending MarketCalendar × Cache
calendar country date answer cache =
    reuse_calendar country date (cached_calendar country date cache) answer cache

abbrev pub window_in : Ending MarketCalendar → Ending SessionWindow
window_in (raised e) = raised e
window_in (returned cal) = returned (window_of cal.today)

-- `regular_session`, and the cache after it.
unfoldable pub regular_session :
    Country → ℕ → Ending MarketCalendar → Cache → Ending SessionWindow × Cache
regular_session country date answer cache =
    let (cal, cache') = calendar country date answer cache in (window_in cal, cache')

abbrev pub open_at : Ending SessionWindow → ℕ → Bool
open_at (raised e) now = false
open_at (returned w) now = contains w now

-- `is_open`: a failure counts as closed.
unfoldable pub market_is_open : Country → ℕ → Ending MarketCalendar → Cache → ℕ → Bool × Cache
market_is_open country date answer cache now =
    let (w, cache') = regular_session country date answer cache in (open_at w now, cache')

abbrev pub business_in : Ending MarketCalendar → Bool
business_in (raised e) = false
business_in (returned cal) = is_open_day cal.today

unfoldable pub is_business_day : Country → ℕ → Ending MarketCalendar → Cache → Bool × Cache
is_business_day country date answer cache =
    let (cal, cache') = calendar country date answer cache in (business_in cal, cache')

abbrev pub left_until : Option ℕ → ℕ → Option Decimal
left_until none now = none
left_until (some end) now = some ((nat end ⊖ nat now) ⊘ nat 60)

abbrev pub minutes_in : Ending SessionWindow → ℕ → Ending (Option Decimal)
minutes_in (raised e) now = raised e
minutes_in (returned w) now = returned (if contains w now then left_until w.end now else none)

-- `minutes_to_close`, which does not catch a failure.
unfoldable pub minutes_to_close :
    Country → ℕ → Ending MarketCalendar → Cache → ℕ → Ending (Option Decimal) × Cache
minutes_to_close country date answer cache now =
    let (w, cache') = regular_session country date answer cache in (minutes_in w now, cache')

abbrev pub first_start : Option ℕ → Option ℕ → ℕ → Option ℕ
first_start none later now = later
first_start (some start) later now = if ltb now start then some start else later

abbrev pub next_in : Ending MarketCalendar → ℕ → Option ℕ
next_in (raised e) now = none
next_in (returned cal) now =
    first_start (window_of cal.today).start (window_of cal.next_business_day).start now

-- `next_open`: the second look at the calendar finds it in the cache.
unfoldable pub next_open : Country → ℕ → Ending MarketCalendar → Cache → ℕ → Option ℕ × Cache
next_open country date answer cache now =
    let (cal, cache') = calendar country date answer cache in (next_in cal now, cache')
