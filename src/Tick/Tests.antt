-- ===== src/Tick/Tests.antt =====
-- Runs of the tick schedule, from tests/test_tick.py.
use toss_api_quant_trading.Prelude.{true, false, ◌≡◌, refl, some, arith}
use toss_api_quant_trading.Decimal.{
  nat, frac, ◌≤ᵈ◌, quantize, quotient, quantize_cents, inverse, ◌⊘◌, ◌⊗◌, ◌⊖◌, is_zero,
}
use toss_api_quant_trading.Tick.{round_to_tick, is_valid_tick, tick_size, snap}
use toss_api_quant_trading.Tick.Valid.{round_to_tick-valid}

buy_crosses_band : round_to_tick (nat 49980) "KR" false (some "BUY") ≡ nat 50000
unfolding round_to_tick tick_size snap quantize quotient ◌⊘◌ inverse ◌⊗◌ ◌⊖◌ is_zero
buy_crosses_band = refl

cents_is_valid : is_valid_tick (frac 3070837 9999) "US" true ≡ false
unfolding is_valid_tick quantize_cents quantize quotient ◌⊘◌ inverse ◌⊗◌ ◌⊖◌ is_zero
cents_is_valid = refl

round_to_tick-valid_example :
    (is_valid_tick (round_to_tick (frac 99961 1) "KR" false (some "BUY")) "KR" false ≡ true)
    × (frac 99961 1 ≤ᵈ round_to_tick (frac 99961 1) "KR" false (some "BUY"))
    × (is_valid_tick (round_to_tick (frac 99961 1) "KR" false (some "SELL")) "KR" false ≡ true)
    × (round_to_tick (frac 99961 1) "KR" false (some "SELL") ≤ᵈ frac 99961 1)
round_to_tick-valid_example = round_to_tick-valid (frac 99961 1) false (omega arith)
