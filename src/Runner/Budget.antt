-- ===== src/Runner/Budget.antt =====
-- The order budget of a day, over whole cycles.
use toss_api_quant_trading.Prelude.Dict.{Dict}
use toss_api_quant_trading.Universe.{Country}
use toss_api_quant_trading.Decimal.{Decimal}
use toss_api_quant_trading.Runner.Intents.{Planned}
use toss_api_quant_trading.Risk.{
  count_orders, RiskManager, check_order, Verdict, remaining_order_budget, check_buy, buy_warnings,
  orders_today, allow, deny, check_cycle, halt, clear_cache,
}
use toss_api_quant_trading.Broker.{OrderIntent, OrderResult, AccountSnapshot}
use toss_api_quant_trading.Store.{Store, utc_day, log_event, record_equity}
use toss_api_quant_trading.Prelude.{
  ℕ, ◌≡◌, ◌≤◌, ◌+◌, arith, List, ◌<◌, Option, max, ◌∷◌, refl, some, suc, [], Bool, true, false, ◌∙◌,
  ◌||◌, ap,
}
use toss_api_quant_trading.Runner.{
  BrokerOps, refreshed, handle_all, Progress, handle_intent, place, cycle, record_signals,
  rebalance, Cadence, gated, Clock, equity_row, any_rebalance,
}

-- What the budget needs of a broker: a submission adds at most one order of its own to the day, and
-- a snapshot adds none.
pub record AddsOneOrder (ops : BrokerOps) : Type 0 where
  pub submits :
      (n : ℕ) (intent : OrderIntent) (now : ℕ) (s : Store)
      → count_orders ops.name (utc_day now) (ops.submit n intent now s).1.orders
        ≤ count_orders ops.name (utc_day now) s.orders + 1
  pub looks : (s : Store) → (ops.take_snapshot s).1.orders ≡ s.orders

module _ (ops : BrokerOps) (laws : AddsOneOrder ops) (now : ℕ) where
  -- The broker's orders of the day.
  abbrev pub today : Store → ℕ
  today s = count_orders ops.name (utc_day now) s.orders

  refreshed-orders :
      (r : OrderResult) (snapshot : AccountSnapshot) (s : Store)
      → (refreshed ops now r snapshot s).1.orders ≡ s.orders
  refreshed-orders r snapshot s = ground (arith, laws.looks s)

  place-budget :
      (v : Verdict) (risk : RiskManager) (n : ℕ) (intent : OrderIntent) (p : Progress) (limit : ℕ)
      → (v ≡ allow → today p.store < limit)
      → today (place ops now v risk n intent p).store ≤ max (today p.store) limit
  place-budget (deny why) risk n intent p limit h = omega arith
  place-budget allow risk n intent p limit h =
      let (result, s) = ops.submit n intent now p.store in
      let low = h refl in
      rw (refreshed-orders result p.snapshot s)
        (omega (arith, low, laws.submits n intent now p.store))

  place-risk :
      (v : Verdict) (risk : RiskManager) (n : ℕ) (intent : OrderIntent) (p : Progress)
      → (place ops now v risk n intent p).risk ≡ risk
  place-risk (deny why) risk n intent p = refl
  place-risk allow risk n intent p = refl

  -- The manager trades under the broker's name, with this limit.
  Manages : ℕ → RiskManager → Type 0
  Manages limit m = (m.broker_name ≡ ops.name) × (m.settings.max_orders_per_day ≡ limit)

  check_order-Manages :
      (m : RiskManager) (intent : OrderIntent) (snapshot : AccountSnapshot) (price : Option Decimal)
      (s : Store) (limit : ℕ)
      → Manages limit m
      → Manages limit (check_order m now intent snapshot price s).1
  unfolding Manages check_order check_buy buy_warnings
  check_order-Manages m intent snapshot price s limit (a, b) = (ground arith, ground arith)

  check_order_budget :
      (m : RiskManager) (intent : OrderIntent) (snapshot : AccountSnapshot) (price : Option Decimal)
      (s : Store) (limit : ℕ)
      → Manages limit m
      → (check_order m now intent snapshot price s).0 ≡ allow
      → today s < limit
  unfolding Manages check_order remaining_order_budget orders_today
  check_order_budget m intent snapshot price s limit (a, b) e = ground arith

  handle_all-budget :
      (n : ℕ) (xs : List Planned) (p : Progress) (limit : ℕ)
      → Manages limit p.risk
      → today (handle_all ops now n xs p).store ≤ max (today p.store) limit
  unfolding handle_all handle_intent
  handle_all-budget n [] p limit h = omega arith
  handle_all-budget n (x ∷ xs) p limit h =
      let (v, risk) = check_order p.risk now x.intent p.snapshot (some x.price) p.store in
      let q = handle_intent ops now n x p in
      let k : Manages limit q.risk =
        rw (place-risk v risk n x.intent p)
          (check_order-Manages p.risk x.intent p.snapshot (some x.price) p.store limit h) in
      omega (
        arith,
        handle_all-budget (suc n) xs q limit k,
        place-budget v risk n x.intent p limit
            (check_order_budget p.risk x.intent p.snapshot (some x.price) p.store limit h),
      )

  check_cycle-orders :
      (m : RiskManager) (snapshot : AccountSnapshot) (s : Store)
      → (check_cycle m now snapshot s).1.orders ≡ s.orders
  unfolding check_cycle halt log_event
  check_cycle-orders m snapshot s = ground arith

  rebalance-budget :
      (targets : Dict Decimal) (markets : List Country) (risk : RiskManager)
      (snapshot : AccountSnapshot) (s : Store) (limit : ℕ)
      → Manages limit risk
      → today (rebalance ops now targets markets risk snapshot s).2 ≤ max (today s) limit
  unfolding log_event record_signals
  rebalance-budget [] markets risk snapshot s limit h = omega arith
  rebalance-budget (t ∷ ts) markets risk snapshot s limit h = handle_all-budget 0 _ _ limit h

  gated-budget :
      (v : Verdict) (markets : List Country) (due : Bool) (targets : Dict Decimal)
      (risk : RiskManager) (snapshot : AccountSnapshot) (s : Store) (limit : ℕ)
      → Manages limit risk
      → today (gated ops now v markets due targets risk snapshot s).2 ≤ max (today s) limit
  gated-budget (deny why) markets due targets risk snapshot s limit h = omega arith
  gated-budget allow [] due targets risk snapshot s limit h = omega arith
  gated-budget allow (c ∷ cs) true targets risk snapshot s limit h =
      rebalance-budget targets (c ∷ cs) risk snapshot s limit h
  gated-budget allow (c ∷ cs) false targets risk snapshot s limit h = omega arith

  pub cycle-budget :
      (cadence : Cadence) (clock : Clock) (markets : List Country) (force : Bool)
      (targets : Dict Decimal) (m : RiskManager) (s : Store)
      → m.broker_name ≡ ops.name
      → today (cycle ops now cadence clock markets force targets m s).2
        ≤ max (today s) m.settings.max_orders_per_day
  unfolding cycle clear_cache record_equity Manages
  cycle-budget cadence clock markets force targets m s e =
      let (snapshot, s1) = ops.take_snapshot s in
      let s2 = record_equity (equity_row ops.name now snapshot) s1 in
      let fresh = clear_cache m in
      let (verdict, s3) = check_cycle fresh now snapshot s2 in
      let kept : s3.orders ≡ s.orders = check_cycle-orders fresh snapshot s2 ∙ laws.looks s in
      let same : today s3 ≡ today s = ap (count_orders ops.name (utc_day now)) kept in
      omega (
        arith,
        same,
        gated-budget verdict markets (force || any_rebalance cadence clock markets) targets fresh
            snapshot s3 m.settings.max_orders_per_day (e, refl),
      )
