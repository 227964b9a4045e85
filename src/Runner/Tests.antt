-- ===== src/Runner/Tests.antt =====
-- A cycle of the paper broker that rebalances.
use toss_api_quant_trading.Toss.Client.{returned, raised, transport_error}
use toss_api_quant_trading.Broker.{AccountSnapshot}
use toss_api_quant_trading.Runner.LiveOps.{live_ops, live_cycle-order_budget}
use toss_api_quant_trading.Live.{LiveBroker, LiveClient}
use toss_api_quant_trading.Runner.Events.{
  RunnerEvent, RunnerState, timed_cycle, Moment, rebalance_command, equity_mark, resume_command,
}
use toss_api_quant_trading.Runner.Halted.{Stays}
use toss_api_quant_trading.Runner.Commands.{World, command_handlers}
use toss_api_quant_trading.Runner.Remote.{asks_resume, ledger_after, handle_updates-halted}
use toss_api_quant_trading.Notify.Text
use toss_api_quant_trading.Notify.Text.{lower_text, before_at, strip_slashes, is_space_char}
use toss_api_quant_trading.Notify.Commands.{Update, Bot, PollState, handle_updates, command_of}
use toss_api_quant_trading.Universe.{kr, codes}
use toss_api_quant_trading.Costs.{default_model}
use toss_api_quant_trading.Runner.PaperOps.{
  paper_ops, paper_cycle-order_budget, paper_ops-OnlyLooks,
}
use toss_api_quant_trading.Prelude.{
  some, true, none, [], ◌∷◌, ◌≤◌, max, refl, ℕ, List, Bool, ◌≡◌, false, All,
}
use toss_api_quant_trading.Decimal.{nat, Decimal, frac, ◌⊕◌, ◌⊗◌}
use toss_api_quant_trading.Risk.{RiskManager, orders_today}
use toss_api_quant_trading.Prelude.Dict.{Dict}
use toss_api_quant_trading.Runner.{Clock, cycle, monthly, BrokerOps}
use toss_api_quant_trading.Store.{Store, empty_store, paper, live}
use toss_api_quant_trading.Paper.Account.{PaperBroker, Market}

abbrev quotes : Market
quotes = record {
  book = λ symbol. some (some (nat 71000), some (nat 70900));
  last = λ symbol. some (nat 71000);
  usd_krw = none;
  marks = λ symbols. none;
}

abbrev broker : PaperBroker
broker = record { cost_model = default_model; etf_symbols = [] }

abbrev manager : RiskManager
manager = record {
  settings = record {
    max_position_weight = nat 1;
    max_daily_loss_pct = frac 3 99;
    max_orders_per_day = 1;
    max_gross_exposure = nat 1;
  };
  broker_name = paper;
  client = none;
  defensive_symbols = [];
  max_defensive_weight = nat 1;
  warning_cache = [];
}

abbrev clock : Clock
clock = record { is_open = λ c. true; calendar = λ c. none }

abbrev ledger : Store
ledger = record empty_store { cash = some (nat 1000000) }

abbrev targets : Dict Decimal
targets = ("005930", frac 1 3) ∷ ("000660", frac 1 3) ∷ []

paper_cycle-order_budget_example :
    let t =
      (cycle
        (paper_ops broker quotes (λ n. "id"))
        1700000000
        monthly
        clock
        (kr ∷ [])
        true
        targets
        manager
        ledger).2 in
    orders_today manager 1700000000 t ≤ max (orders_today manager 1700000000 ledger) 1
paper_cycle-order_budget_example =
    paper_cycle-order_budget broker quotes (λ n. "id") 1700000000 monthly clock (kr ∷ []) true
      targets manager ledger refl

abbrev start : RunnerState
start = record { manager = manager; last_ip = none; ledger = ledger }

abbrev at : ℕ → RunnerEvent → Moment
at now event = record { now = now; clock = clock; targets = targets; event = event }

-- A timed cycle, a forced one and a mark, which nothing but the switch keeps from trading.
abbrev afternoon : List Moment
afternoon =
    at 1700000000 (timed_cycle (kr ∷ []))
    ∷ at 1700000060 rebalance_command
    ∷ at 1700000120 equity_mark
    ∷ []

is_resume : RunnerEvent → Bool
is_resume resume_command = true
is_resume _ = false

abbrev paper_at : ℕ → BrokerOps
paper_at n = paper_ops broker quotes (λ k. "id")

-- An API that takes every order and does not fill it at once.
abbrev client : LiveClient
client = record {
  holdings = returned [];
  usd_krw = returned (nat 1380);
  cash_buying_power = λ c. returned (nat 1000000);
  last_price = λ symbol. returned (nat 71000);
  sellable_quantity = λ symbol. returned (nat 0);
  post_order = λ body. returned "A1";
  get_order = λ n order_id. raised transport_error;
  open_orders = returned [];
  cancel_order = λ order_id. returned order_id;
}

abbrev live_broker : LiveBroker
live_broker = record { client = client; etf_symbols = []; confirm_high_value = false }

abbrev account : AccountSnapshot
account = record {
  cash_krw = nat 1000000 ⊕ nat 1000000 ⊗ nat 1380;
  positions = [];
  usd_krw = nat 1380;
  prices = [];
}

live_cycle-order_budget_example :
    let t =
      (cycle
        (live_ops live_broker (λ s. account) (λ n. "tqt-1"))
        1700000000
        monthly
        clock
        (kr ∷ [])
        true
        targets
        (record manager { broker_name = live })
        ledger).2 in
    orders_today (record manager { broker_name = live }) 1700000000 t
    ≤ max (orders_today (record manager { broker_name = live }) 1700000000 ledger) 1
live_cycle-order_budget_example =
    live_cycle-order_budget live_broker (λ s. account) (λ n. "tqt-1") 1700000000 monthly clock
      (kr ∷ []) true targets (record manager { broker_name = live }) ledger refl

abbrev world : ℕ → World
world id = record {
  now = 1700000000;
  clock = clock;
  targets = targets;
  current_ip = none;
  reply = λ name st. codes "ok";
}

abbrev telegram_bot : Bot
telegram_bot = record {
  service = λ posts text. some 200;
  chat_id = codes "42";
  listing = λ cmd. codes "?";
}

-- A stranger's resume, and the operator's forced rebalance.
abbrev messages : List Update
messages =
    record { update_id = 7; chat = codes "13"; text = codes "/resume" }
    ∷ record { update_id = 8; chat = codes "42"; text = codes "/rebalance" }
    ∷ []

abbrev halted_chat : PollState RunnerState
halted_chat = record {
  offset = none;
  posts = [];
  app = record start { ledger = record ledger { halted = true } };
}

messages-no_resume : All (λ u. asks_resume telegram_bot u ≡ false) messages
unfolding command_of lower_text before_at strip_slashes Text.words is_space_char
messages-no_resume = (refl, (refl, tt))

handle_updates-halted_example : Stays halted_chat.app.ledger (
    ledger_after (
      handle_updates telegram_bot
        (command_handlers monthly paper_at world (λ t. "x"))
        messages
        0
        halted_chat))
handle_updates-halted_example =
    handle_updates-halted monthly paper_at (λ n. paper_ops-OnlyLooks broker quotes (λ k. "id"))
      world (λ t. "x") telegram_bot messages 0 halted_chat messages-no_resume refl
