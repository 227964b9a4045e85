-- ===== src/Runner/Commands.antt =====
-- `command_handlers` of src/tqt/runner.py: the commands of the Telegram channel, as events of the
-- bot. The texts of the replies, and the String of an
-- argument, are parameters.
use toss_api_quant_trading.Universe.{codes}
use toss_api_quant_trading.Decimal.{Decimal}
use toss_api_quant_trading.Prelude.Dict.{Dict}
use toss_api_quant_trading.Prelude.{ℕ, String, Option, List, [], ◌∷◌, map}
use toss_api_quant_trading.Notify.Text.{Text}
use toss_api_quant_trading.Notify.Commands.{Handler, Handlers, replied}
use toss_api_quant_trading.Runner.{BrokerOps, Cadence, Clock}
use toss_api_quant_trading.Runner.Events.{
  RunnerEvent, RunnerState, on_event, halt_command, resume_command, report_command, ip_watch,
  rebalance_command,
}

-- The world when a command comes in: the instant, the market clock, the plan's targets, the public
-- address, and the reply's text.
pub record World : Type 0 where
  pub now : ℕ
  pub clock : Clock
  pub targets : Dict Decimal
  pub current_ip : Option String
  pub reply : Text → RunnerState → Text

-- The events of the commands, of their arguments and the world.
abbrev pub takes_snapshot : List Text → World → RunnerEvent
takes_snapshot args w = report_command

abbrev pub halts : (Text → String) → List Text → World → RunnerEvent
halts words_of args w = halt_command (map words_of args)

abbrev pub resumes : List Text → World → RunnerEvent
resumes args w = resume_command

abbrev pub checks_ip : List Text → World → RunnerEvent
checks_ip args w = ip_watch w.current_ip

abbrev pub rebalances : List Text → World → RunnerEvent
rebalances args w = rebalance_command

module _ (cadence : Cadence) (ops_at : ℕ → BrokerOps) (world : ℕ → World) where
  -- A command that is an event, of its arguments and the world.
  abbrev pub acts : (List Text → World → RunnerEvent) → Text → Handler RunnerState
  acts event name id args st =
      let w = world id in
      let st' = on_event cadence ops_at (event args w) w.now w.clock w.targets st in
      (st', replied (w.reply name st'))

  -- A command that only reads.
  abbrev pub reads : Text → Handler RunnerState
  reads name id args st = (st, replied ((world id).reply name st))

  abbrev pub entry : String → (Text → Handler RunnerState) → Text × Handler RunnerState
  entry name h = (codes name, h (codes name))

  unfoldable pub command_handlers : (Text → String) → Handlers RunnerState
  command_handlers words_of =
      entry "status" (acts takes_snapshot)
      ∷ entry "positions" (acts takes_snapshot)
      ∷ entry "pnl" (acts takes_snapshot)
      ∷ entry "report" (acts takes_snapshot)
      ∷ entry "orders" reads
      ∷ entry "signals" reads
      ∷ entry "halt" (acts (halts words_of))
      ∷ entry "stop" (acts (halts words_of))
      ∷ entry "resume" (acts resumes)
      ∷ entry "ip" (acts checks_ip)
      ∷ entry "rebalance" (acts rebalances)
      ∷ entry "plan" reads
      ∷ entry "help" reads
      ∷ entry "start" reads
      ∷ []
