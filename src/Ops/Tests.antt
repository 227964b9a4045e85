-- ===== src/Ops/Tests.antt =====
-- A Korean trading day.
use toss_api_quant_trading.Ops.Hours.{IsLeft, market_is_open-minutes_to_close}
use toss_api_quant_trading.Store.{empty_store}
use toss_api_quant_trading.Toss.Client.{returned}
use toss_api_quant_trading.Prelude.{some, none, ◌∷◌, ◌≡◌, [], true, refl, ◌↔◌, Option, String}
use toss_api_quant_trading.Universe.{kr}
use toss_api_quant_trading.Ops.{public_ip, check_ip}
use toss_api_quant_trading.Ops.Clock.{
  MarketCalendar, MarketDay, calendar, market_is_open, cached_calendar, regular_session, contains,
  minutes_to_close,
}

abbrev trading_day : MarketDay
trading_day = record {
  regular_market = some (record { start_time = some 32400; end_time = some 55800 });
}

abbrev week : MarketCalendar
week = record { today = trading_day; next_business_day = trading_day }

market_is_open-minutes_to_close_example :
    (market_is_open kr 20000 (returned week) [] 40000).0 ≡ true
    ↔ IsLeft (minutes_to_close kr 20000 (returned week) [] 40000).0
market_is_open-minutes_to_close_example =
    market_is_open-minutes_to_close kr 20000 (returned week) [] 40000

test_open : (market_is_open kr 20000 (returned week) [] 40000).0 ≡ true
unfolding market_is_open regular_session calendar cached_calendar contains
test_open = refl

abbrev new_ip : Option String
new_ip = some "203.0.113.7"

abbrev old_ip : Option String
old_ip = some "203.0.113.6"

test_reported : (check_ip new_ip old_ip empty_store).0.changed ≡ true
unfolding check_ip
test_reported = refl

test_skips_bad_services :
    public_ip (none ∷ some (503, "busy") ∷ some (200, "203.0.113.7") ∷ []) ≡ some "203.0.113.7"
unfolding public_ip
test_skips_bad_services = refl
