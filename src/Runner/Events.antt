-- ===== src/Runner/Events.antt =====
-- What the scheduler and the commands of src/tqt/runner.py do to the bot: timed cycles, forced ones,
-- marks of the equity, the watch on the address, reports, and the kill switch. The lock of `cycle`
-- makes an event run as a whole.
use Prim.Native.String.{◌++◌}
use toss_api_quant_trading.Ops.{check_ip}
use toss_api_quant_trading.Decimal.{Decimal}
use toss_api_quant_trading.Prelude.Dict.{Dict}
use toss_api_quant_trading.Store.{Store, record_equity, operator}
use toss_api_quant_trading.Universe.{Country}
use toss_api_quant_trading.Prelude.{
  ℕ, List, String, ◌∷◌, Option, if◌then◌else◌, str_eq, [], false, true,
}
use toss_api_quant_trading.Risk.{RiskManager, halt, resume}
use toss_api_quant_trading.Runner.{
  Cadence, CycleReport, BrokerOps, Clock, equity_row, cycle, open_markets,
}

pub data RunnerEvent : Type 0 where
  -- `cycle(["KR"])`, `cycle(["US"])`
  timed_cycle : List Country → RunnerEvent
  -- `/rebalance`
  rebalance_command : RunnerEvent
  equity_mark : RunnerEvent
  -- with the public address that is found
  ip_watch : Option String → RunnerEvent
  -- `/status`, `/positions` and the reports, which take a snapshot
  report_command : RunnerEvent
  halt_command : List String → RunnerEvent
  resume_command : RunnerEvent

-- An event at an instant, with what the market clock and the plan answer then.
pub record Moment : Type 0 where
  pub now : ℕ
  pub clock : Clock
  pub targets : Dict Decimal
  pub event : RunnerEvent

pub record RunnerState : Type 0 where
  pub manager : RiskManager
  pub last_ip : Option String
  pub ledger : Store

-- `" ".join(args) or "operator requested via Telegram"`
abbrev pub join_args : List String → String
join_args [] = ""
join_args (a ∷ []) = a
join_args (a ∷ b ∷ rest) = a ++ (" " ++ join_args (b ∷ rest))

abbrev pub halt_text : List String → String
halt_text args =
    let text = join_args args in if str_eq text "" then "operator requested via Telegram" else text

abbrev pub after_cycle : RunnerState → CycleReport × RiskManager × Store → RunnerState
after_cycle st (report, risk, s) = record st { manager = risk; ledger = s }

-- `mark_equity`
unfoldable pub mark_equity : BrokerOps → ℕ → Store → Store
mark_equity ops now s =
    let (snapshot, s') = ops.take_snapshot s in record_equity (equity_row ops.name now snapshot) s'

module _ (cadence : Cadence) (ops_at : ℕ → BrokerOps) where
  -- `/rebalance`: nothing where no market is open.
  abbrev pub force_cycle : List Country → ℕ → Clock → Dict Decimal → RunnerState → RunnerState
  force_cycle [] now clock targets st = st
  force_cycle (c ∷ cs) now clock targets st =
      after_cycle st
        (cycle (ops_at now) now cadence clock (c ∷ cs) true targets st.manager st.ledger)

  abbrev pub on_event : RunnerEvent → ℕ → Clock → Dict Decimal → RunnerState → RunnerState
  on_event (timed_cycle markets) now clock targets st =
      after_cycle st
        (cycle (ops_at now) now cadence clock markets false targets st.manager st.ledger)
  on_event rebalance_command now clock targets st =
      force_cycle (open_markets clock) now clock targets st
  on_event equity_mark now clock targets st = record st {
    ledger = mark_equity (ops_at now) now st.ledger;
  }
  on_event (ip_watch current) now clock targets st =
      let (status, kept, s) = check_ip current st.last_ip st.ledger in
      record st { last_ip = kept; ledger = s }
  on_event report_command now clock targets st = record st {
    ledger = ((ops_at now).take_snapshot st.ledger).1;
  }
  on_event (halt_command args) now clock targets st = record st {
    ledger = halt (operator (halt_text args)) false now st.ledger;
  }
  on_event resume_command now clock targets st = record st { ledger = resume st.ledger }

  unfoldable pub run_events : List Moment → RunnerState → RunnerState
  run_events [] st = st
  run_events (m ∷ ms) st = run_events ms (on_event m.event m.now m.clock m.targets st)
