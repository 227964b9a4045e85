-- ===== src/Ops/Hours.antt =====
-- What the market clock answers.
use toss_api_quant_trading.Decimal.Field.{⊘_nonneg, ⊖_nonneg}
use toss_api_quant_trading.Decimal.{nat, Decimal, ◌≤ᵈ◌, ◌⊖◌, ◌⊘◌}
use toss_api_quant_trading.Universe.{Country, kr, us}
use toss_api_quant_trading.Prelude.{
  Option, ℕ, ◌≡◌, true, ◌∷◌, ◌↔◌, arith, Bool-cases, some, refl, ◌≤◌, inl, none, inr,
}
use toss_api_quant_trading.Ops.Clock.{
  calendar, market_is_open, contains, cached_calendar, in_window, SessionWindow, minutes_to_close,
  MarketCalendar, minutes_in, open_at, Cache, reuse_calendar, left_until, regular_session,
}
use toss_api_quant_trading.Toss.Client.{Ending, raised, returned}

-- The time to the close, as a number of minutes that is not negative.
abbrev pub IsLeft : Ending (Option Decimal) → Type 0
IsLeft (raised e) = ⊥
IsLeft (returned none) = ⊥
IsLeft (returned (some m)) = nat 0 ≤ᵈ m

left_nonneg : (end now : ℕ) → now ≤ end → nat 0 ≤ᵈ (nat end ⊖ nat now) ⊘ nat 60
left_nonneg end now h =
    ⊘_nonneg (nat end ⊖ nat now) (nat 60) (⊖_nonneg (nat end) (nat now) (omega arith)) (omega arith)

window-IsLeft :
    (start end : Option ℕ) (now : ℕ)
    → in_window start end now ≡ true
    → IsLeft (returned (left_until end now))
window-IsLeft none end now e = absurd (cc)
window-IsLeft (some start) none now e = absurd (cc)
window-IsLeft (some start) (some end) now e = left_nonneg end now (ground arith)

minutes-IsLeft :
    (w : Ending SessionWindow) (now : ℕ) → open_at w now ≡ true → IsLeft (minutes_in w now)
unfolding contains
minutes-IsLeft (raised e) now h = absurd (cc)
minutes-IsLeft (returned w) now h = rw h (window-IsLeft w.start w.end now h)

IsLeft-open :
    (w : Ending SessionWindow) (now : ℕ) → IsLeft (minutes_in w now) → open_at w now ≡ true
IsLeft-open (raised e) now h = absurd h
IsLeft-open (returned w) now h = elim (Bool-cases (contains w now)) [
  | inl e ↦ e
  | inr e ↦ absurd (rw e at h)
]

-- The market is open exactly when there is a time to the close, which is then not negative; for the
-- same instant, calendar and cache.
pub market_is_open-minutes_to_close :
    (country : Country) (date : ℕ) (answer : Ending MarketCalendar) (cache : Cache) (now : ℕ)
    → (market_is_open country date answer cache now).0 ≡ true
      ↔ IsLeft (minutes_to_close country date answer cache now).0
unfolding market_is_open minutes_to_close
market_is_open-minutes_to_close country date answer cache now =
    let w = (regular_session country date answer cache).0 in
    (minutes-IsLeft w now, IsLeft-open w now)

cached-here :
    (country : Country) (date : ℕ) (cal : MarketCalendar) (cache : Cache)
    → cached_calendar country date (((country, date), cal) ∷ cache) ≡ some cal
unfolding cached_calendar
cached-here kr date cal cache = ground arith
cached-here us date cal cache = ground arith

reuse-cached :
    (country : Country) (date : ℕ) (found : Option MarketCalendar)
    (answer later : Ending MarketCalendar) (cache : Cache) (cal : MarketCalendar)
    → cached_calendar country date cache ≡ found
    → (reuse_calendar country date found answer cache).0 ≡ returned cal
    → calendar country date later (reuse_calendar country date found answer cache).1
      ≡ (returned cal, (reuse_calendar country date found answer cache).1)
unfolding calendar
reuse-cached country date (some c) answer later cache cal f e =
    let g : c ≡ cal = cc in rw (f, g) refl
reuse-cached country date none (raised x) later cache cal f e = absurd (cc)
reuse-cached country date none (returned c) later cache cal f e =
    let g : c ≡ cal = cc in rw (cached-here country date c cache, g) refl

-- A calendar that was given once is given again for that market and day, whatever the API would
-- answer by then, and the cache stays as it is.
pub calendar-cached :
    (country : Country) (date : ℕ) (answer later : Ending MarketCalendar) (cache : Cache)
    (cal : MarketCalendar)
    → (calendar country date answer cache).0 ≡ returned cal
    → calendar country date later (calendar country date answer cache).1
      ≡ (returned cal, (calendar country date answer cache).1)
unfolding calendar
calendar-cached country date answer later cache cal e =
    reuse-cached country date (cached_calendar country date cache) answer later cache cal refl e
