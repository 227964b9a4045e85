-- ===== src/Risk/Switch.antt =====
-- The kill switch over time.
use toss_api_quant_trading.Prelude.{ℕ, ◌≡◌, refl, true, false, List, [], ◌∷◌, arith}
use toss_api_quant_trading.Broker.{AccountSnapshot}
use toss_api_quant_trading.Store.{Store, HaltReason, log_event}
use toss_api_quant_trading.Risk.{
  RiskManager, deny, halted_because, is_halted, halt, resume, check_cycle,
}

-- What may happen to the switch: a cycle is checked, an operator halts, or an operator resumes.
pub data RiskEvent : Type 0 where
  cycle_checked : ℕ → AccountSnapshot → RiskEvent
  operator_halts : HaltReason → ℕ → RiskEvent
  operator_resumes : RiskEvent

abbrev pub handle : RiskManager → RiskEvent → Store → Store
handle m (cycle_checked now snapshot) s = (check_cycle m now snapshot s).1
handle m (operator_halts reason now) s = halt reason false now s
handle m operator_resumes s = resume s

abbrev pub run : RiskManager → List RiskEvent → Store → Store
run m [] s = s
run m (e ∷ es) s = run m es (handle m e s)

abbrev pub NoResume : List RiskEvent → Type 0
NoResume [] = Unit
NoResume (operator_resumes ∷ es) = ⊥
NoResume (e ∷ es) = NoResume es

-- A halted store is refused and left as it is.
pub check_cycle-halted :
    (m : RiskManager) (now : ℕ) (snapshot : AccountSnapshot) (s : Store)
    → is_halted now s ≡ true
    → check_cycle m now snapshot s ≡ (deny (halted_because s.halt_reason), s)
unfolding check_cycle
check_cycle-halted m now snapshot s h = ground arith

check_cycle-keeps :
    (m : RiskManager) (now : ℕ) (snapshot : AccountSnapshot) (s : Store)
    → s.halted ≡ true
    → (check_cycle m now snapshot s).1.halted ≡ true
unfolding is_halted
check_cycle-keeps m now snapshot s h = ground (arith, check_cycle-halted m now snapshot s)

run-keeps :
    (m : RiskManager) (es : List RiskEvent) (s : Store)
    → NoResume es
    → s.halted ≡ true
    → (run m es s).halted ≡ true
unfolding halt log_event
run-keeps m [] s n h = h
run-keeps m (cycle_checked now snapshot ∷ es) s n h =
    run-keeps m es _ n (check_cycle-keeps m now snapshot s h)
run-keeps m (operator_halts reason now ∷ es) s n h = run-keeps m es _ n refl
run-keeps m (operator_resumes ∷ es) s n h = absurd n

halt_sets : (reason : HaltReason) (at : ℕ) (s : Store) → (halt reason false at s).halted ≡ true
unfolding halt log_event
halt_sets reason at s = refl

-- After an operator's halt every later cycle is refused, on any day and whatever cycles and further
-- halts came between, until an operator resumes; and a refused cycle changes nothing.
pub halt-until_resume :
    (m : RiskManager) (reason : HaltReason) (at now : ℕ) (es : List RiskEvent)
    (snapshot : AccountSnapshot) (s : Store)
    → NoResume es
    → let t = run m es (halt reason false at s) in
      check_cycle m now snapshot t ≡ (deny (halted_because t.halt_reason), t)
unfolding is_halted
halt-until_resume m reason at now es snapshot s n =
    let t = run m es (halt reason false at s) in
    let h : t.halted ≡ true = run-keeps m es (halt reason false at s) n (halt_sets reason at s) in
    check_cycle-halted m now snapshot t (rw h)
