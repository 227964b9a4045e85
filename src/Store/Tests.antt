-- ===== src/Store/Tests.antt =====
-- A state table whose values are truth values and texts.
use toss_api_quant_trading.Prelude.{
  Bool, if◌then◌else◌, false, str_eq, true, [], some, none, ◌≡◌, String, refl,
}
use toss_api_quant_trading.Store.State.{Codec, get_state, set_state, json, plain_text}

abbrev truth_codec : Codec Bool
truth_codec = record {
  dumps = λ b. if b then "true" else "false";
  loads = λ t. if str_eq t "true" then some true else if str_eq t "false" then some false else none;
}

abbrev ip_key : String
ip_key = "last_public_ip"

abbrev halted_key : String
halted_key = "halted"

-- A rate stays a text.
test_rate :
    get_state truth_codec "last_usd_krw"
      (json false)
      (set_state truth_codec "last_usd_krw" (plain_text "1380.5") [])
    ≡ plain_text "1380.5"
unfolding get_state set_state
test_rate = refl

-- A reason that reads like a JSON literal does not.
test_reason :
    get_state truth_codec "halt_reason"
      (json false)
      (set_state truth_codec "halt_reason" (plain_text " true") [])
    ≡ json true
unfolding get_state set_state
test_reason = refl
