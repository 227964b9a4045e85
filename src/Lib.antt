-- ===== src/Lib.antt =====
-- A model of the trading bot (src/tqt): from the tick schedule and the cost model, over the risk
-- gates, to the paper and the live broker, the cycle of the bot, its remote commands and dashboard,
-- the backtester with its metrics and validation, the store of candles and the client of the
-- exchange.
--
-- How the parts interact. A cycle of the bot takes a snapshot of the account, asks the risk manager
-- whether it may trade, asks it again for each order, and hands what is allowed to a broker. The
-- broker prices the order with the cost model and books it in the store, whose rows the risk
-- manager reads in the next cycle. The live side talks to the brokerage through the client's
-- request loop, whose errors say whether a retry is worth it. The backtester runs a strategy on the
-- bars that the ingest has put into the table of candles; the walk-forward test runs the backtester
-- fold by fold. An operator halts and resumes the bot by Telegram commands, which a poll hands to the
-- handlers of the runner, or on the dashboard.
--
-- Files, and the code that they model:
--   Tick       src/tqt/tick.py: tick_size, round_to_tick, is_valid_tick, under the same names
--   Universe   src/tqt/universe.py: Asset, Sleeve, country_of; Sleeves has the sleeves of the source
--   Config     src/tqt/config.py: the settings that decide how the bot trades, and their guards
--   Costs      src/tqt/backtest/costs.py: TradeCost, CostModel, cost_of; add_cost is __add__
--   Broker     src/tqt/execution/broker.py: the types that brokers and the risk manager share
--   Store      src/tqt/data/store.py: the tables orders, fills, positions, cash, equity and state;
--              State is set_state and get_state, with the JSON library as a parameter
--   Risk       src/tqt/risk.py: RiskManager; a method is a function of the manager, the instant
--              and the store. Orders, over the cases of Limits, Switch and Daily have what its gates
--              guarantee
--   Paper      src/tqt/execution/paper.py: PaperBroker; Account has its ledger, Fill the sizing and
--              the booking, and Sized, Booking, Audit, Holdings and Cash what a submission
--              guarantees
--   Strategy   src/tqt/strategy: the weights of the four strategies of momentum.py, and the scores
--              of base.py, on columns of closes
--   Portfolio  src/tqt/portfolio.py: the plan's checks and its blended weights; Exposure bounds them
--   Runner     src/tqt/runner.py: one cycle, over an interface for the broker; Intents is
--              _build_intents, Budget the order budget for any broker that adds one order at a
--              time, PaperOps and LiveOps the two brokers as such brokers, Events the jobs of the
--              scheduler and the commands as events, Halted what a halt does to them, Commands the
--              handlers of command_handlers, and Remote a halted bot under such commands; Build is
--              build, and Build/Confirmed what a live bot needs
--   Backtest   src/tqt/backtest/engine.py: _rebalance, with its configuration in Config and the loop
--              of run in Run; Frames has the rebalance dates of src/tqt/strategy and run on the rows
--              of the frames; Cash and Solvent follow the cash, Causal and Blind what a row depends on
--   Metrics    src/tqt/backtest/metrics.py: drawdowns, in Returns the return statistics, in Normal
--              _norm_ppf, and in Tax the tax estimate; Drawdown, Spans, Deflated and Taxed are about
--              them
--   Validate   src/tqt/backtest/validate.py: walk_forward; Ends, Stitched, Folds and Slices are about it
--   Notify     src/tqt/notify: Text has what it uses of Python's texts, Chunks the cutting of messages,
--              Group base.py, Telegram and Discord the channels, Commands the poll for commands and its
--              loop; Pack, LongLine, FanOut, Authorised and Backoff are about them
--   Web        src/tqt/web/app.py: the guard and the endpoints; Guard is about them
--   Live       src/tqt/execution/live.py: the live broker's view of the account; Size and
--              Orders are submit and what it records, Sync is sync_orders; Safe, Answers, Count and
--              Reconcile are about them
--   Candles    the table candles of src/tqt/data/store.py; Paging is iter_candles of client.py, Ingest
--              is src/tqt/data/ingest.py; Kept, Loaded, Pages and Download are about them
--   Stocks     the table stocks of src/tqt/data/store.py, the stocks of models.py, and
--              sync_stock_master of src/tqt/data/ingest.py
--   Ops        src/tqt/ops.py: the watch on the public address, and in Clock the market clock;
--              Address and Hours are about them
--   Toss       src/tqt/toss: Errors is errors.py, Client the loop of client.py's _request, Auth the
--              token cache of auth.py, RateLimit the token buckets of ratelimit.py,
--              Models the orders and holdings of models.py, Orders the body of create_order,
--              Queries the other calls of client.py that do more than pass an answer on, and
--              Queries/Resolved the call that has to resolve its account first
--   Prelude, Decimal   lists, dicts and exact fractions, with their laws
--
-- State. The store is one record that the operations take and return; a method that raises, or that
-- an `except` clause guards, has an option for its result. Instants are seconds since 1970 in UTC,
-- and dates are day numbers, so that the Korean day is the day of the instant nine hours later.
-- `Decimal` and `float` are exact fractions: the rounding of the 28-digit context and of binary
-- floats is not modelled. What the exchange answers is a parameter everywhere: quotes, rates,
-- warnings, and the replies to single requests.
--
-- Fuel. The request loop has as much fuel as `max_retries` allows attempts, since an attempt that
-- does not end the call uses one of them. `acquire` has fuel as an argument: where the limit is
-- steady, the second pass finds the tokens that the first one waited for. The walk through the pages
-- of candles has one more than the bars asked for, since a page after which it goes on brings a bar;
-- the chunks of a price call have as much as there are symbols, and the poll for a fill and the
-- pages of orders have the attempts of the source. The walk through the folds of a walk-forward test
-- has one more than the days between the first and the last row, where a test window has a day.
--
-- Not modelled: log lines and the texts of reports, SQL, threads and locks, the parsing of payloads,
-- the tables made of the metrics, the charts and pages, the settings that no trade depends on and the
-- command line, which are input and output. Roots, powers and logarithms are parameters.
pub mod Prelude
pub mod Decimal
pub mod Tick
pub mod Universe
pub mod Costs
pub mod Broker
pub mod Store
pub mod Risk
pub mod Paper
pub mod Backtest
pub mod Live
pub mod Candles
pub mod Ops
pub mod Strategy
pub mod Portfolio
pub mod Runner
pub mod Toss
pub mod Notify
pub mod Stocks
pub mod Web
pub mod Metrics
pub mod Validate
pub mod Config
