-- ===== src/Runner/Halted.antt =====
-- The orders and the switch of a halted bot.
use toss_api_quant_trading.Ops.{check_ip}
use toss_api_quant_trading.Risk.Switch.{check_cycle-halted}
use toss_api_quant_trading.Decimal.{Decimal}
use toss_api_quant_trading.Prelude.Dict.{Dict}
use toss_api_quant_trading.Universe.{Country}
use toss_api_quant_trading.Risk.{is_halted, RiskManager, clear_cache, halt}
use toss_api_quant_trading.Runner.Events.{
  Moment, resume_command, RunnerState, mark_equity, force_cycle, on_event, RunnerEvent, timed_cycle,
  halt_command, ip_watch, rebalance_command, equity_mark, report_command,
}
use toss_api_quant_trading.Store.{Store, record_equity, log_event}
use toss_api_quant_trading.Prelude.{
  List, ◌≡◌, ℕ, ◌∷◌, true, ◌≢◌, [], Bool, ◌∙◌, refl, String, Option, arith, false,
}
use toss_api_quant_trading.Runner.{Cadence, BrokerOps, cycle, Clock, equity_row, open_markets}

-- What this needs of a broker: a snapshot leaves the orders and the switch.
pub record OnlyLooks (ops : BrokerOps) : Type 0 where
  pub orders : (s : Store) → (ops.take_snapshot s).1.orders ≡ s.orders
  pub switch : (s : Store) → (ops.take_snapshot s).1.halted ≡ s.halted

-- No event of the list is a resume.
abbrev pub NeverResumes : List Moment → Type 0
NeverResumes [] = Unit
NeverResumes (m ∷ ms) = (m.event ≢ resume_command) × NeverResumes ms

-- Still halted, and with the same orders.
pub record Stays (s t : Store) : Type 0 where
  pub orders : t.orders ≡ s.orders
  pub halted : t.halted ≡ true

module _ (cadence : Cadence) (ops_at : ℕ → BrokerOps) (laws : (n : ℕ) → OnlyLooks (ops_at n)) where
  cycle-Stays :
      (now : ℕ) (clock : Clock) (markets : List Country) (force : Bool) (targets : Dict Decimal)
      (m : RiskManager) (s : Store)
      → s.halted ≡ true
      → Stays s (cycle (ops_at now) now cadence clock markets force targets m s).2
  unfolding cycle record_equity is_halted
  cycle-Stays now clock markets force targets m s h =
      let (snapshot, s1) = (ops_at now).take_snapshot s in
      let s2 = record_equity (equity_row (ops_at now).name now snapshot) s1 in
      let e : s2.halted ≡ true = (laws now).switch s ∙ h in
      let k = check_cycle-halted (clear_cache m) now snapshot s2 (rw e refl) in
      rw k (record { orders = (laws now).orders s; halted = e })

  forced-Stays :
      (markets : List Country) (now : ℕ) (clock : Clock) (targets : Dict Decimal) (st : RunnerState)
      → st.ledger.halted ≡ true
      → Stays st.ledger (force_cycle cadence ops_at markets now clock targets st).ledger
  forced-Stays [] now clock targets st h = record { orders = refl; halted = h }
  forced-Stays (c ∷ cs) now clock targets st h =
      cycle-Stays now clock (c ∷ cs) true targets st.manager st.ledger h

  check_ip-Stays :
      (current previous : Option String) (s : Store)
      → s.halted ≡ true
      → Stays s (check_ip current previous s).2
  unfolding check_ip log_event
  check_ip-Stays current previous s h = record { orders = ground arith; halted = ground arith }

  pub on_event-Stays :
      (e : RunnerEvent) (now : ℕ) (clock : Clock) (targets : Dict Decimal) (st : RunnerState)
      → e ≢ resume_command
      → st.ledger.halted ≡ true
      → Stays st.ledger (on_event cadence ops_at e now clock targets st).ledger
  unfolding mark_equity record_equity halt log_event
  on_event-Stays (timed_cycle markets) now clock targets st n h =
      cycle-Stays now clock markets false targets st.manager st.ledger h
  on_event-Stays rebalance_command now clock targets st n h =
      forced-Stays (open_markets clock) now clock targets st h
  on_event-Stays equity_mark now clock targets st n h = record {
    orders = (laws now).orders st.ledger;
    halted = (laws now).switch st.ledger ∙ h;
  }
  on_event-Stays (ip_watch current) now clock targets st n h =
      check_ip-Stays current st.last_ip st.ledger h
  on_event-Stays report_command now clock targets st n h = record {
    orders = (laws now).orders st.ledger;
    halted = (laws now).switch st.ledger ∙ h;
  }
  on_event-Stays (halt_command args) now clock targets st n h = record {
    orders = refl;
    halted = refl;
  }
  on_event-Stays resume_command now clock targets st n h = absurd (n refl)
