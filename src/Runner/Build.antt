-- ===== src/Runner/Build.antt =====
-- `Runner.build` of src/tqt/runner.py: which broker the settings give, with its risk manager. The API
-- is a record of answers; the plan and the notifier are left out.
pub mod Confirmed
mod Tests
use toss_api_quant_trading.Prelude.{
  String, Bool, Option, some, none, List, [], ◌∷◌, ◌++◌, true, false, ◌||◌, if◌then◌else◌,
}
use toss_api_quant_trading.Decimal.{Decimal, frac}
use toss_api_quant_trading.Universe.{Asset, Sleeve, Role, bond, cash_role, all_assets}
use toss_api_quant_trading.Universe.Sleeves.{sleeves}
use toss_api_quant_trading.Costs.{Commission, CostModel, from_api}
use toss_api_quant_trading.Store.{Store, BrokerName, paper, live}
use toss_api_quant_trading.Risk.{RiskManager, WarningsApi}
use toss_api_quant_trading.Paper.Account.{PaperBroker, ensure_cash}
use toss_api_quant_trading.Live.{LiveBroker, LiveClient}
use toss_api_quant_trading.Live.Sync.{sync_ledger}
use toss_api_quant_trading.Toss.Client.{Ending, returned, raised}
use toss_api_quant_trading.Toss.Errors.{TossError}
use toss_api_quant_trading.Toss.Queries.{OrdersPage}
use toss_api_quant_trading.Config.{AppSettings, Mode, live_mode, has_credentials, bind_option}

-- What `build` asks of the API.
pub record Api : Type 0 where
  pub client : LiveClient
  pub warnings : WarningsApi
  pub commissions : Ending (List Commission)
  pub closed_orders : Option String → Ending OrdersPage

pub data TradingBroker : Type 0 where
  live_with : LiveBroker → TradingBroker
  paper_with : PaperBroker → TradingBroker

pub record TradingBot : Type 0 where
  pub trader : TradingBroker
  pub manager : RiskManager

abbrev pub trades_live : TradingBroker → Bool
trades_live (live_with b) = true
trades_live (paper_with b) = false

abbrev pub broker_name_of : TradingBroker → BrokerName
broker_name_of (live_with b) = live
broker_name_of (paper_with b) = paper

-- The ETFs of all sleeves, and the bonds and cash among their safe assets.
abbrev pub etf_assets : List Asset → List String
etf_assets [] = []
etf_assets (a ∷ rest) = let later = etf_assets rest in if a.is_etf then a.symbol ∷ later else later

abbrev pub is_defensive : Role → Bool
is_defensive bond = true
is_defensive cash_role = true
is_defensive _ = false

abbrev pub defensive_assets : List Asset → List String
defensive_assets [] = []
defensive_assets (a ∷ rest) =
    let later = defensive_assets rest in if is_defensive a.role then a.symbol ∷ later else later

abbrev pub etfs_in : List Sleeve → List String
etfs_in [] = []
etfs_in (sl ∷ rest) = etf_assets (all_assets sl) ++ etfs_in rest

abbrev pub defensive_in : List Sleeve → List String
defensive_in [] = []
defensive_in (sl ∷ rest) = defensive_assets sl.safe ++ defensive_in rest

abbrev pub with_manager : Api → AppSettings → TradingBroker → TradingBot
with_manager api s trader = record {
  trader = trader;
  manager = record {
    settings = s.limits;
    broker_name = broker_name_of trader;
    client = some api.warnings;
    defensive_symbols = defensive_in sleeves;
    max_defensive_weight = frac 60 99;
    warning_cache = [];
  };
}

-- The live broker, unless reconciling its orders raises.
abbrev pub synced : Option TossError → TradingBot → Option TradingBot
synced none bot = some bot
synced (some e) bot = none

abbrev pub build_live : Api → AppSettings → Store → Option TradingBot × Store
build_live api s ledger =
    let ((n, error), rows) = sync_ledger api.closed_orders ledger.orders in
    (
      synced error (
          with_manager api s (
            live_with (record {
              client = api.client;
              etf_symbols = etfs_in sleeves;
              confirm_high_value = false;
            }))),
      record ledger { orders = rows },
    )

abbrev pub build_paper : CostModel → Api → AppSettings → Store → Option TradingBot × Store
build_paper cost_model api s ledger = (
  some (
      with_manager api s
        (paper_with (record { cost_model = cost_model; etf_symbols = etfs_in sleeves }))),
  ensure_cash s.starting_cash ledger,
)

abbrev pub build_mode : Mode → CostModel → Api → AppSettings → Store → Option TradingBot × Store
build_mode live_mode cost_model api s ledger = build_live api s ledger
build_mode _ cost_model api s ledger = build_paper cost_model api s ledger

abbrev pub build_with : Option CostModel → Api → AppSettings → Store → Option TradingBot × Store
build_with none api s ledger = (none, ledger)
build_with (some cost_model) api s ledger = build_mode s.mode_of cost_model api s ledger

abbrev pub cost_model_of : Ending (List Commission) → Option CostModel
cost_model_of (raised e) = none
cost_model_of (returned cs) = from_api cs

-- `Runner.build`: the bot, none where an exception ends it, and the ledger.
unfoldable pub build : Api → AppSettings → Store → Option TradingBot × Store
build api s ledger =
    if has_credentials s
    then build_with (cost_model_of api.commissions) api s ledger
    else (none, ledger)
