-- ===== src/Runner/Intents.antt =====
-- `_build_intents` of src/tqt/runner.py: from target weights to orders, sells first. Python's order
-- of texts is that of their code points, and its sort is stable.
mod Tests
pub mod Order
pub mod Sizes
use toss_api_quant_trading.Risk.{fx_rate}
use toss_api_quant_trading.Paper.Fill.{whole_shares}
use toss_api_quant_trading.Prelude.Dict.{Dict, get_or, keys, lookup}
use toss_api_quant_trading.Universe.{Country, Side, sell, country_of, kr, codes, us, buy, codes_lt}
use toss_api_quant_trading.Broker.{
  AccountSnapshot, Position, OrderIntent, market, equity_krw, weights,
}
use toss_api_quant_trading.Decimal.{Decimal, frac, abs, le, ◌⊗◌, dmin, nat, ◌⊘◌, lt, ◌⊖◌}
use toss_api_quant_trading.Prelude.{
  List, Option, String, Bool, some, ℕ, ◌∷◌, false, none, [], if◌then◌else◌, str_eq, ◌||◌, true,
  ◌==◌, ltb, not, ◌++◌,
}

-- Into a sorted list without repetition.
unfoldable pub insert_symbol : String → List String → List String
insert_symbol x [] = x ∷ []
insert_symbol x (y ∷ ys) =
    if str_eq x y
    then y ∷ ys
    else if codes_lt (codes x) (codes y)
    then x ∷ y ∷ ys
    else y ∷ insert_symbol x ys

-- `sorted(set(…))`
unfoldable pub sorted_set : List String → List String
sorted_set [] = []
sorted_set (x ∷ xs) = insert_symbol x (sorted_set xs)

abbrev pub same_country : Country → Country → Bool
same_country kr kr = true
same_country us us = true
same_country _ _ = false

-- `country in markets`
abbrev pub has_market : Country → List Country → Bool
has_market c [] = false
has_market c (m ∷ ms) = same_country c m || has_market c ms

abbrev pub band : Decimal
band = frac 1 99

-- One entry of `planned`.
pub record Planned : Type 0 where
  pub drift : Decimal
  pub intent : OrderIntent
  pub price : Decimal

abbrev pub market_order : String → Side → Decimal → OrderIntent
market_order symbol side qty = record {
  symbol = symbol;
  side = side;
  quantity = some qty;
  order_type = market;
  price = none;
  order_amount = none;
  strategy = "portfolio";
  reason = "";
}

-- What is sold of a holding.
abbrev pub sell_size : Country → Option Position → Decimal → Option Decimal
sell_size country none qty = none
sell_size country (some pos) qty =
    let trimmed = whole_shares country (dmin qty pos.quantity) in
    if le trimmed (nat 0) then none else some trimmed

abbrev pub planned_sell : String → Decimal → Decimal → Option Decimal → Option Planned
planned_sell symbol drift price none = none
planned_sell symbol drift price (some qty) =
    some (record { drift = drift; intent = market_order symbol sell qty; price = price })

-- The order for a positive quantity and a drift out of the band.
unfoldable pub plan_sized :
    String → Country → Option Position → Decimal → Decimal → Decimal → Option Planned
plan_sized symbol country held drift price qty =
    if le qty (nat 0)
    then none
    else if lt (nat 0) drift
    then some (record { drift = drift; intent = market_order symbol buy qty; price = price })
    else planned_sell symbol drift price (sell_size country held qty)

unfoldable pub plan_priced :
    AccountSnapshot → String → Country → Decimal → Option Decimal → Option Planned
plan_priced snapshot symbol country drift none = none
plan_priced snapshot symbol country drift (some price) =
    let notional_krw = abs drift ⊗ equity_krw snapshot in
    let raw = notional_krw ⊘ (price ⊗ fx_rate snapshot country) in
    if le price (nat 0)
    then none
    else plan_sized symbol country (lookup symbol snapshot.positions) drift price
        (whole_shares country raw)

-- The body of the loop, for one symbol.
unfoldable pub plan_one :
    (String → Option Decimal)
    → Dict Decimal
    → Dict Decimal
    → AccountSnapshot
    → List Country
    → String
    → Option Planned
plan_one price_of targets current snapshot markets symbol =
    let country = country_of symbol in
    let drift = get_or symbol (nat 0) targets ⊖ get_or symbol (nat 0) current in
    if not (has_market country markets)
    then none
    else if lt (abs drift) band
    then none
    else plan_priced snapshot symbol country drift (price_of symbol)

abbrev pub cons_some {ℓ} : {A : Type ℓ} → Option A → List A → List A
cons_some none xs = xs
cons_some (some x) xs = x ∷ xs

unfoldable pub plan_all : (String → Option Planned) → List String → List Planned
plan_all one [] = []
plan_all one (x ∷ xs) = cons_some (one x) (plan_all one xs)

-- `planned.sort(key=lambda t: t[0])`
unfoldable pub insert_planned : Planned → List Planned → List Planned
insert_planned x [] = x ∷ []
insert_planned x (y ∷ ys) = if le x.drift y.drift then x ∷ y ∷ ys else y ∷ insert_planned x ys

unfoldable pub sort_planned : List Planned → List Planned
sort_planned [] = []
sort_planned (x ∷ xs) = insert_planned x (sort_planned xs)

unfoldable pub build_intents :
    (String → Option Decimal) → Dict Decimal → AccountSnapshot → List Country → List Planned
build_intents price_of targets snapshot markets =
    if le (equity_krw snapshot) (nat 0)
    then []
    else let one = plan_one price_of targets (weights snapshot) snapshot markets in
      sort_planned (plan_all one (sorted_set (keys targets ++ keys snapshot.positions)))
