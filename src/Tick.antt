-- ===== src/Tick.antt =====
-- src/tqt/tick.py: the KRX tick schedule and the rounding of limit prices. Prices are exact
-- decimals; a country and a side are the texts of the source.
pub mod Snap
pub mod Valid
mod Tests
use toss_api_quant_trading.Prelude.{
  ℕ, String, Bool, true, false, not, Option, none, some, List, [], ◌∷◌, str_eq, if◌then◌else◌,
}
use toss_api_quant_trading.Decimal.{
  Decimal, nat, lt, is_zero, ◌⊖◌, ◌⊗◌, ◌⊘◌, Rounding, round_up, round_down, round_half_even,
  quantize, quantize_cents, remainder,
}

-- A band: its exclusive upper bound, absent in the last one, and its tick.
abbrev pub Band : Type 0
Band = Option Decimal × Decimal

abbrev pub krx_stock_ticks : List Band
krx_stock_ticks =
    (some (nat 2000), nat 1)
    ∷ (some (nat 5000), nat 5)
    ∷ (some (nat 20000), nat 10)
    ∷ (some (nat 50000), nat 50)
    ∷ (some (nat 200000), nat 100)
    ∷ (some (nat 500000), nat 500)
    ∷ (none, nat 1000)
    ∷ []

abbrev pub krx_etf_ticks : List Band
krx_etf_ticks = (some (nat 2000), nat 1) ∷ (none, nat 5) ∷ []

-- The loop of `tick_size`; `last` is the tick of the table's last entry.
scan_bands : Decimal → Decimal → List Band → Decimal
scan_bands price last [] = last
scan_bands price last ((none, tick) ∷ bands) = tick
scan_bands price last ((some upper, tick) ∷ bands) =
    if lt price upper then tick else scan_bands price last bands

unfoldable pub tick_size : Decimal → Bool → Decimal
unfolding scan_bands
tick_size price true = scan_bands price (nat 5) krx_etf_ticks
tick_size price false = scan_bands price (nat 1000) krx_stock_ticks

-- The first rounding's mode, by the side.
abbrev pub first_mode : Option String → Rounding
first_mode none = round_half_even
first_mode (some side) =
    if str_eq side "BUY"
    then round_up
    else if str_eq side "SELL"
    then round_down
    else round_half_even

-- The mode of the second rounding: up for a buy, down for anything else.
abbrev pub second_mode : Option String → Rounding
second_mode none = round_down
second_mode (some side) = if str_eq side "BUY" then round_up else round_down

-- `(price / t).quantize(Decimal(1), rounding=mode) * t`
unfoldable pub snap : Rounding → Decimal → Decimal → Decimal
snap mode price t = quantize mode (price ⊘ t) ⊗ t

-- `t2 != t`
abbrev pub differs : Decimal → Decimal → Bool
differs a b = not (is_zero (a ⊖ b))

unfoldable pub round_to_tick : Decimal → String → Bool → Option String → Decimal
round_to_tick price country is_etf side =
    if not (str_eq country "KR")
    then quantize_cents price
    else let t = tick_size price is_etf in
      let rounded = snap (first_mode side) price t in
      let t2 = tick_size rounded is_etf in
      if differs t2 t then snap (second_mode side) rounded t2 else rounded

unfoldable pub is_valid_tick : Decimal → String → Bool → Bool
is_valid_tick price country is_etf =
    if not (str_eq country "KR")
    then is_zero (price ⊖ quantize_cents price)
    else is_zero (remainder price (tick_size price is_etf))
