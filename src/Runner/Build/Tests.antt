-- ===== src/Runner/Build/Tests.antt =====
-- A bot that an operator has confirmed for live trading, and environments that give none.
use toss_api_quant_trading.Prelude.{some, none, [], ◌≡◌, refl, false, String, Option}
use toss_api_quant_trading.Decimal.{nat, frac}
use toss_api_quant_trading.Notify.Text.{is_space_char}
use toss_api_quant_trading.Costs.{from_api, post_init}
use toss_api_quant_trading.Store.{empty_store}
use toss_api_quant_trading.Toss.Client.{returned, raised, transport_error}
use toss_api_quant_trading.Toss.Queries.{iter_orders}
use toss_api_quant_trading.Live.{LiveClient}
use toss_api_quant_trading.Live.Sync.{sync_ledger, sync_orders}
use toss_api_quant_trading.Config.{
  Environment, AppSettings, load_settings, parse_mode, guard_live_mode, has_credentials, live_mode,
  live_confirm_sentinel,
}
use toss_api_quant_trading.Runner.Build.{Api, TradingBot, build, with_manager, live_with, etfs_in}
use toss_api_quant_trading.Runner.Build.Confirmed.{build-confirmed}
use toss_api_quant_trading.Universe.Sleeves.{sleeves}

abbrev environment : Option String → Environment
environment confirm = record {
  toss_client_id = some "id";
  toss_client_secret = some "secret";
  mode = some "live";
  live_confirm = confirm;
  max_position_weight = some " ";
  max_daily_loss_pct = none;
  max_orders_per_day = none;
  max_gross_exposure = none;
  paper_starting_cash_krw = none;
}

abbrev settings : AppSettings
settings = record {
  client_id = "id";
  client_secret = "secret";
  mode_of = live_mode;
  confirm_text = live_confirm_sentinel;
  limits = record {
    max_position_weight = frac 20 99;
    max_daily_loss_pct = frac 3 99;
    max_orders_per_day = 40;
    max_gross_exposure = nat 1;
  };
  starting_cash = nat 1000000;
}

abbrev client : LiveClient
client = record {
  holdings = returned [];
  usd_krw = returned (nat 1380);
  cash_buying_power = λ c. returned (nat 0);
  last_price = λ symbol. raised transport_error;
  sellable_quantity = λ symbol. returned (nat 0);
  post_order = λ body. raised transport_error;
  get_order = λ n order_id. raised transport_error;
  open_orders = returned [];
  cancel_order = λ order_id. returned order_id;
}

abbrev api : Api
api = record {
  client = client;
  warnings = λ symbol. none;
  commissions = returned [];
  closed_orders = λ cursor. returned (record { orders = []; next_cursor = none; has_next = false });
}

abbrev bot : TradingBot
bot = with_manager api settings (
    live_with
      (record { client = client; etf_symbols = etfs_in sleeves; confirm_high_value = false }))

loaded :
    load_settings (λ t. none) (λ t. none) (environment (some live_confirm_sentinel)) ≡ some settings
unfolding load_settings parse_mode guard_live_mode is_space_char
loaded = refl

built : (build api settings empty_store).0 ≡ some bot
unfolding build has_credentials from_api post_init sync_ledger sync_orders iter_orders
built = refl

build-confirmed_example :
    ((environment (some live_confirm_sentinel)).mode ≡ some "live")
    × ((environment (some live_confirm_sentinel)).live_confirm ≡ some live_confirm_sentinel)
build-confirmed_example =
    build-confirmed (λ t. none) (λ t. none) (environment (some live_confirm_sentinel)) settings api
      empty_store bot loaded built refl

-- A mistyped confirmation.
test_refused : load_settings (λ t. none) (λ t. none) (environment (some "I_UNDERSTAND")) ≡ none
unfolding load_settings parse_mode guard_live_mode is_space_char
test_refused = refl
