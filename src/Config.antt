-- ===== src/Config.antt =====
-- src/tqt/config.py: the settings that decide how the bot trades, from the texts of the environment.
-- What pydantic parses a number into is a parameter; `none` is its ValidationError, or a ValueError
-- of the validators. The settings of the account, the dashboard and the storage are left out.
use toss_api_quant_trading.Prelude.{
  ℕ, String, Bool, Option, some, none, List, [], ◌∷◌, true, not, ◌&&◌, if◌then◌else◌, str_eq,
}
use toss_api_quant_trading.Universe.{codes}
use toss_api_quant_trading.Decimal.{Decimal, nat, frac}
use toss_api_quant_trading.Notify.Text.{is_space_char}
use toss_api_quant_trading.Risk.{Settings}

pub data Mode : Type 0 where
  backtest_mode paper_mode live_mode : Mode

abbrev pub live_confirm_sentinel : String
live_confirm_sentinel = "I_UNDERSTAND_REAL_MONEY"

-- The texts that are set, and none for a key that is missing.
pub record Environment : Type 0 where
  pub toss_client_id : Option String
  pub toss_client_secret : Option String
  pub mode : Option String
  pub live_confirm : Option String
  pub max_position_weight : Option String
  pub max_daily_loss_pct : Option String
  pub max_orders_per_day : Option String
  pub max_gross_exposure : Option String
  pub paper_starting_cash_krw : Option String

pub record AppSettings : Type 0 where
  pub client_id : String
  pub client_secret : String
  pub mode_of : Mode
  pub confirm_text : String
  pub limits : Settings
  pub starting_cash : Decimal

-- `not v.strip()`
abbrev pub all_spaces : List ℕ → Bool
all_spaces [] = true
all_spaces (c ∷ cs) = is_space_char c && all_spaces cs

-- `_blank_to_default` and the parsing of a number.
abbrev pub number_or {ℓ} : {A : Type ℓ} → (String → Option A) → A → Option String → Option A
number_or parse default none = some default
number_or parse default (some text) = if all_spaces (codes text) then some default else parse text

abbrev pub text_or : String → Option String → String
text_or default none = default
text_or default (some text) = text

unfoldable pub parse_mode : Option String → Option Mode
parse_mode none = some paper_mode
parse_mode (some text) =
    if str_eq text "backtest"
    then some backtest_mode
    else if str_eq text "paper"
    then some paper_mode
    else if str_eq text "live"
    then some live_mode
    else none

abbrev pub bind_option {ℓ κ} : {A : Type ℓ} {B : Type κ} → Option A → (A → Option B) → Option B
bind_option none f = none
bind_option (some a) f = f a

-- `_guard_live_mode`
abbrev pub guard_mode : Mode → String → AppSettings → Option AppSettings
guard_mode live_mode confirm s = if str_eq confirm live_confirm_sentinel then some s else none
guard_mode _ confirm s = some s

unfoldable pub guard_live_mode : AppSettings → Option AppSettings
guard_live_mode s = guard_mode s.mode_of s.confirm_text s

-- `Settings()`
unfoldable pub load_settings :
    (String → Option Decimal) → (String → Option ℕ) → Environment → Option AppSettings
load_settings decimal whole env = bind_option (parse_mode env.mode) λ mode.
    bind_option (number_or decimal (frac 20 99) env.max_position_weight) λ weight.
      bind_option (number_or decimal (frac 3 99) env.max_daily_loss_pct) λ loss.
        bind_option (number_or whole 40 env.max_orders_per_day) λ orders.
          bind_option (number_or decimal (nat 1) env.max_gross_exposure) λ exposure.
            bind_option (number_or decimal (nat 1000000) env.paper_starting_cash_krw) λ cash.
              guard_live_mode (record {
                client_id = text_or "" env.toss_client_id;
                client_secret = text_or "" env.toss_client_secret;
                mode_of = mode;
                confirm_text = text_or "" env.live_confirm;
                limits = record {
                  max_position_weight = weight;
                  max_daily_loss_pct = loss;
                  max_orders_per_day = orders;
                  max_gross_exposure = exposure;
                };
                starting_cash = cash;
              })

-- `has_credentials`
unfoldable pub has_credentials : AppSettings → Bool
has_credentials s = not (str_eq s.client_id "") && not (str_eq s.client_secret "")
