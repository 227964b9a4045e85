-- ===== src/Risk/Daily.antt =====
-- The limits of a day: what a cycle checks, how long a daily stop lasts, and which day it looks at.
use toss_api_quant_trading.Prelude.{
  ℕ, ◌%◌, ◌<◌, ◌≤◌, ◌≡◌, ◌≢◌, ◌⊎◌, ◌↔◌, refl, true, false, none, some, Option, List, [], ◌∷◌, All,
  arith, Bool-cases, inl, inr, sym,
}
use toss_api_quant_trading.Broker.{AccountSnapshot, equity_krw}
use toss_api_quant_trading.Store.{
  Store, BrokerName, EquityRow, kst_day, first_row, first_equity_of_day, log_event,
}
use toss_api_quant_trading.Risk.{
  RiskManager, allow, is_halted, halt, check_cycle, daily_loss, orders_today, breached, loss_from,
  dated,
}
use toss_api_quant_trading.Decimal.{Decimal, nat, neg, le, ◌⊕◌, ◌⊖◌, ◌⊗◌, ◌⊘◌, ◌≤ᵈ◌, ◌<ᵈ◌, ◌≈◌}
use toss_api_quant_trading.Decimal.Field.{⊕_mono}
use toss_api_quant_trading.Decimal.Order.{≤ᵈ_refl, ≤ᵈ_trans}
use toss_api_quant_trading.Decimal.Cancel.{⊘-≤_iff, ⊕_cancel}
use mathlib.Core.Path.{subst}

-- An account that opened the day with `opening`, where that is known and positive, is worth more
-- than what the limit leaves of it.
abbrev pub WithinLoss : Option Decimal → Decimal → Decimal → Type 0
WithinLoss none limit equity = Unit
WithinLoss (some opening) limit equity = (opening ≤ᵈ nat 0) ⊎ (opening ⊖ limit ⊗ opening <ᵈ equity)

⊖-⊕_shift : (a b : Decimal) → b ⊕ (a ⊖ b) ≈ a
unfolding ◌⊖◌ ◌⊕◌
⊖-⊕_shift a b = (omega arith, omega arith)

neg-⊗ : (l o : Decimal) → o ⊕ neg l ⊗ o ≡ o ⊖ l ⊗ o
unfolding neg ◌⊗◌ ◌⊕◌ ◌⊖◌
neg-⊗ l o = ground arith

-- A change of at most minus the limit is a value of at most what the limit leaves.
fallen :
    (opening limit equity : Decimal)
    → nat 0 <ᵈ opening
    → ((equity ⊖ opening) ⊘ opening ≤ᵈ neg limit) ↔ (equity ≤ᵈ opening ⊖ limit ⊗ opening)
fallen opening limit equity p =
    let floor = opening ⊖ limit ⊗ opening in
    let gap = equity ⊖ opening in
    let (there, back) = ⊘-≤_iff gap opening (neg limit) p in
    (
      λ h. ≤ᵈ_trans equity (opening ⊕ gap) floor (⊖-⊕_shift equity opening).1 (
          subst (λ x. opening ⊕ gap ≤ᵈ x) (neg-⊗ limit opening)
            (⊕_mono opening opening gap (neg limit ⊗ opening) (≤ᵈ_refl opening) (there h))),
      λ h. back (
          ⊕_cancel opening gap (neg limit ⊗ opening) (
            ≤ᵈ_trans (opening ⊕ gap) equity (opening ⊕ neg limit ⊗ opening)
              (⊖-⊕_shift equity opening).0
              (subst (λ x. equity ≤ᵈ x) (sym (neg-⊗ limit opening)) h))),
    )

breached-WithinLoss :
    (opening : Option Decimal) (limit equity : Decimal)
    → (breached (loss_from opening equity) limit ≡ false) ↔ WithinLoss opening limit equity
unfolding loss_from
breached-WithinLoss none limit equity = (λ h. tt, λ h. refl)
breached-WithinLoss (some opening) limit equity = elim (Bool-cases (le opening (nat 0))) [
  | inl e ↦ (λ h. inl (ground arith), λ h. rw e refl)
  | inr e ↦
      let (there, back) = fallen opening limit equity (ground arith) in
      (
        λ h.
            let k : le ((equity ⊖ opening) ⊘ opening) (neg limit) ≡ false = rw e at h in
            inr (ground (arith, back)),
        λ h. rw e (ground (arith, there)),
      )
]

dated_iff : (date : Option ℕ) (day : ℕ) → (dated date day ≡ false) ↔ (date ≢ some day)
dated_iff none day = (λ h e. absurd (cc), λ h. refl)
dated_iff (some d) day = (λ h e. ground arith, λ h. ground arith)

-- A cycle is allowed exactly when the switch is off, the account is worth more than the day's
-- opening mark less the daily loss limit of it, where such a mark is known and positive, and fewer
-- orders were placed than the limit; then nothing changes.
pub check_cycle-allow :
    (m : RiskManager) (now : ℕ) (snapshot : AccountSnapshot) (s : Store)
    → (check_cycle m now snapshot s ≡ (allow, s))
      ↔ (s.halted ≡ false)
        × (s.halted_date ≢ some (kst_day now))
        × WithinLoss
            (first_equity_of_day m.broker_name (kst_day now) s)
            m.settings.max_daily_loss_pct
            (equity_krw snapshot)
        × (orders_today m now s < m.settings.max_orders_per_day)
unfolding check_cycle daily_loss is_halted
check_cycle-allow m now snapshot s =
    let opening = first_equity_of_day m.broker_name (kst_day now) s in
    let (there, back) =
      breached-WithinLoss opening m.settings.max_daily_loss_pct (equity_krw snapshot) in
    let (dated_there, dated_back) = dated_iff s.halted_date (kst_day now) in
    (
      λ h. (ground arith, ground (arith, dated_there), there (ground arith), ground arith),
      λ h. ground (arith, back, dated_back),
    )

-- When a cycle that is not halted meets a daily limit, it is refused, and the switch stays on for
-- every later instant of that Korean day and is off again on any other day.
pub check_cycle-daily_stop :
    (m : RiskManager) (now later : ℕ) (snapshot : AccountSnapshot) (s : Store)
    → is_halted now s ≡ false
    → (breached (daily_loss m now snapshot s) m.settings.max_daily_loss_pct ≡ true)
      ⊎ (m.settings.max_orders_per_day ≤ orders_today m now s)
    → let (verdict, t) = check_cycle m now snapshot s in
      (verdict ≢ allow)
      × (kst_day later ≡ kst_day now → is_halted later t ≡ true)
      × (kst_day later ≢ kst_day now → is_halted later t ≡ false)
unfolding check_cycle is_halted halt log_event
check_cycle-daily_stop m now later snapshot s off limit =
    (ground arith, λ e. ground arith, λ e. ground arith)

-- Every row was stamped at or before the instant.
abbrev StampedBy : ℕ → List EquityRow → Type 0
StampedBy now = All (λ r. r.ts ≤ now)

no_row :
    (broker : BrokerName) (now : ℕ) (rows : List EquityRow)
    → 54000 ≤ now % 86400
    → StampedBy now rows
    → first_row broker (kst_day now) rows ≡ none
unfolding first_row
no_row broker now [] late h = refl
no_row broker now (r ∷ rest) late h = ground (arith, no_row broker now rest late h.1)

-- From 15:00 UTC, midnight in Korea, to the end of the UTC day no daily loss is computed, whatever
-- the account is worth: the marks carry UTC stamps and are looked up by the Korean date. In these
-- hours a loss of any size does not stop a cycle that the switch and the order budget let through.
pub daily_loss-blind :
    (m : RiskManager) (now : ℕ) (snapshot : AccountSnapshot) (s : Store)
    → 54000 ≤ now % 86400
    → StampedBy now s.equity
    → is_halted now s ≡ false
    → orders_today m now s < m.settings.max_orders_per_day
    → (daily_loss m now snapshot s ≡ none) × (check_cycle m now snapshot s ≡ (allow, s))
unfolding daily_loss first_equity_of_day check_cycle
daily_loss-blind m now snapshot s late stamped off budget =
    let e = no_row m.broker_name now s.equity late stamped in (rw e, ground (arith, e))
