-- ===== src/Runner.antt =====
-- src/tqt/runner.py: the cycle of the bot. The broker, the market clock and the portfolio's targets
-- are an interface; one cycle happens at one instant. Notifications, logs and the dashboard are left
-- out.
pub mod Intents
pub mod Budget
pub mod PaperOps
pub mod LiveOps
pub mod Events
pub mod Halted
pub mod Commands
pub mod Remote
pub mod Build
mod Tests
use toss_api_quant_trading.Runner.Intents.{Planned, build_intents}
use toss_api_quant_trading.Prelude.Dict.{Dict}
use toss_api_quant_trading.Universe.{Country, us, kr}
use toss_api_quant_trading.Risk.{
  RiskManager, Refusal, Verdict, check_order, clear_cache, deny, allow, check_cycle,
}
use toss_api_quant_trading.Decimal.{Decimal, lt, nat}
use toss_api_quant_trading.Broker.{
  AccountSnapshot, OrderResult, equity_krw, OrderIntent, position_value_krw,
}
use toss_api_quant_trading.Store.{
  BrokerName, EquityRow, Store, record_equity, log_event, cycle_event,
}
use toss_api_quant_trading.Prelude.{
  List, Bool, ℕ, Option, false, if◌then◌else◌, ◌&&◌, [], String, ◌++◌, ◌∷◌, some, ◌||◌, none, suc,
  true, not, ◌==◌,
}

-- What a cycle uses of a broker. `submit` takes the number of the order in its cycle.
pub record BrokerOps : Type 0 where
  pub name : BrokerName
  pub take_snapshot : Store → AccountSnapshot × Store
  pub price_of : String → Option Decimal
  pub submit : ℕ → OrderIntent → ℕ → Store → OrderResult × Store

-- A market's calendar, of which `dates` are the month and the ISO week of today and of the next
-- business day; `none` are dates that do not parse.
pub record Calendar : Type 0 where
  pub open_today : Bool
  pub dates : Option ((ℕ × ℕ) × (ℕ × ℕ))

pub record Clock : Type 0 where
  pub is_open : Country → Bool
  pub calendar : Country → Option Calendar

pub data Cadence : Type 0 where
  daily weekly monthly : Cadence

-- Whether the period of the first day ends before the second.
abbrev pub crosses : Cadence → Option ((ℕ × ℕ) × (ℕ × ℕ)) → Bool
crosses cadence none = false
crosses daily (some _) = true
crosses weekly (some ((m, w), (m', w'))) = not (w == w')
crosses monthly (some ((m, w), (m', w'))) = not (m == m')

abbrev pub ends_period : Cadence → Option Calendar → Bool
ends_period cadence none = false
ends_period cadence (some cal) = if cal.open_today then crosses cadence cal.dates else false

unfoldable pub is_rebalance_day : Cadence → Clock → Country → Bool
is_rebalance_day cadence clock c = ends_period cadence (clock.calendar c)

unfoldable pub open_markets : Clock → List Country
open_markets clock =
    let us_open = if clock.is_open us then us ∷ [] else [] in
    if clock.is_open kr then kr ∷ us_open else us_open

abbrev pub any_rebalance : Cadence → Clock → List Country → Bool
any_rebalance cadence clock [] = false
any_rebalance cadence clock (c ∷ cs) =
    is_rebalance_day cadence clock c || any_rebalance cadence clock cs

pub data Skipped : Type 0 where
  not_skipped no_market no_targets : Skipped
  refused_cycle : Refusal → Skipped

-- `CycleReport`
pub record CycleReport : Type 0 where
  pub equity : Decimal
  pub targets : Dict Decimal
  pub rebalanced : Bool
  pub skipped : Skipped
  pub results : List OrderResult
  pub blocked : List Refusal

-- `result.ok and result.filled_quantity > 0`
abbrev pub did_fill : OrderResult → Bool
did_fill r = r.ok && lt (nat 0) r.filled_quantity

-- The state that the loop over the intents carries.
pub record Progress : Type 0 where
  pub risk : RiskManager
  pub snapshot : AccountSnapshot
  pub report : CycleReport
  pub store : Store

module _ (ops : BrokerOps) (now : ℕ) where
  -- The snapshot is taken again after a fill.
  abbrev pub refreshed : OrderResult → AccountSnapshot → Store → AccountSnapshot × Store
  refreshed r snapshot s = if did_fill r then ops.take_snapshot s else (snapshot, s)

  abbrev pub place : Verdict → RiskManager → ℕ → OrderIntent → Progress → Progress
  place (deny why) risk n intent p = record p {
    risk = risk;
    report = record p.report { blocked = p.report.blocked ++ why ∷ [] };
  }
  place allow risk n intent p =
      let (result, s) = ops.submit n intent now p.store in
      let (snapshot, s') = refreshed result p.snapshot s in
      record {
        risk = risk;
        snapshot = snapshot;
        report = record p.report { results = p.report.results ++ result ∷ [] };
        store = s';
      }

  -- One intent: the order gate, and the submission.
  unfoldable pub handle_intent : ℕ → Planned → Progress → Progress
  handle_intent n x p =
      let (verdict, risk) = check_order p.risk now x.intent p.snapshot (some x.price) p.store in
      place verdict risk n x.intent p

  unfoldable pub handle_all : ℕ → List Planned → Progress → Progress
  handle_all n [] p = p
  handle_all n (x ∷ xs) p = handle_all (suc n) xs (handle_intent n x p)

abbrev pub equity_row : BrokerName → ℕ → AccountSnapshot → EquityRow
equity_row name now snapshot = record {
  broker = name;
  ts = now;
  equity_krw = equity_krw snapshot;
  cash_krw = snapshot.cash_krw;
  positions_krw = position_value_krw snapshot;
  usd_krw = snapshot.usd_krw;
}

abbrev pub blank_report : AccountSnapshot → CycleReport
blank_report snapshot = record {
  equity = equity_krw snapshot;
  targets = [];
  rebalanced = false;
  skipped = not_skipped;
  results = [];
  blocked = [];
}

abbrev pub signal_rows : ℕ → Dict Decimal → List (ℕ × String × Decimal)
signal_rows now [] = []
signal_rows now ((sym, w) ∷ rest) = (now, sym, w) ∷ signal_rows now rest

-- `record_signals`
unfoldable pub record_signals : ℕ → Dict Decimal → Store → Store
record_signals now targets s = record s { signals = s.signals ++ signal_rows now targets }

module _ (ops : BrokerOps) (now : ℕ) where
  -- The rest of a cycle that rebalances.
  abbrev pub rebalance :
      Dict Decimal
      → List Country
      → RiskManager
      → AccountSnapshot
      → Store
      → CycleReport × RiskManager × Store
  rebalance [] markets risk snapshot s =
      (record (blank_report snapshot) { skipped = no_targets }, risk, s)
  rebalance (t ∷ ts) markets risk snapshot s =
      let s' = record_signals now (t ∷ ts) s in
      let p : Progress = record {
        risk = risk;
        snapshot = snapshot;
        report = record (blank_report snapshot) { targets = t ∷ ts; rebalanced = true };
        store = s';
      } in
      let q = handle_all ops now 0 (build_intents ops.price_of (t ∷ ts) snapshot markets) p in
      (q.report, q.risk, log_event cycle_event q.store)

  abbrev pub with_markets :
      List Country
      → Bool
      → Dict Decimal
      → RiskManager
      → AccountSnapshot
      → Store
      → CycleReport × RiskManager × Store
  with_markets [] due targets risk snapshot s =
      (record (blank_report snapshot) { skipped = no_market }, risk, s)
  with_markets (c ∷ cs) due targets risk snapshot s =
      if due then rebalance targets (c ∷ cs) risk snapshot s else (blank_report snapshot, risk, s)

  abbrev pub gated :
      Verdict
      → List Country
      → Bool
      → Dict Decimal
      → RiskManager
      → AccountSnapshot
      → Store
      → CycleReport × RiskManager × Store
  gated (deny why) markets due targets risk snapshot s =
      (record (blank_report snapshot) { skipped = refused_cycle why }, risk, s)
  gated allow markets due targets risk snapshot s = with_markets markets due targets risk snapshot s

  -- `_cycle`, for the given markets; `targets` is what the plan gives.
  unfoldable pub cycle :
      Cadence
      → Clock
      → List Country
      → Bool
      → Dict Decimal
      → RiskManager
      → Store
      → CycleReport × RiskManager × Store
  cycle cadence clock markets force targets risk s =
      let fresh = clear_cache risk in
      let (snapshot, s1) = ops.take_snapshot s in
      let s2 = record_equity (equity_row ops.name now snapshot) s1 in
      let (verdict, s3) = check_cycle fresh now snapshot s2 in
      gated verdict markets (force || any_rebalance cadence clock markets) targets fresh snapshot s3
