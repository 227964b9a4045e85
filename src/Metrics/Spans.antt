-- ===== src/Metrics/Spans.antt =====
-- The dates of the deepest drawdown, and the longest stretch below a peak.
use toss_api_quant_trading.Decimal.{Decimal, le, nat, dmax, ◌⊖◌, ◌⊘◌}
use toss_api_quant_trading.Metrics.{
  Point, drawdown_from, drawdown_series, trough_of, drawdown_details, up_to, since, highest, higher,
  peak_of, underwater, step_start, step_longest, close_run, is_under, first_recovered, recovery,
  day_of,
}
use toss_api_quant_trading.Metrics.Drawdown.{lowest_keeps}
use toss_api_quant_trading.Prelude.{
  ℕ, Bool, Option, some, none, List, [], ◌∷◌, ◌≤◌, ◌<◌, ◌-◌, All, arith, true, false, Bool-cases,
  inl, inr, leb, leb→le, le→leb,
}

-- The days go up, from a day on.
abbrev pub Ascends : ℕ → List Point → Type 0
Ascends day [] = Unit
Ascends day (p ∷ ps) = (day < p.day) × Ascends p.day ps

abbrev pub last_day : ℕ → List Point → ℕ
last_day day [] = day
last_day day (p ∷ ps) = last_day p.day ps

-- A date that is not after another, which may be missing.
abbrev pub IsBefore : Option ℕ → Option ℕ → Type 0
IsBefore a none = Unit
IsBefore none (some b) = ⊥
IsBefore (some a) (some b) = a ≤ b

abbrev DayWithin : ℕ → ℕ → ℕ × Decimal → Type 0
DayWithin lo hi e = (lo ≤ e.0) × (e.0 ≤ hi)

abbrev StartsWithin : ℕ → ℕ → Option ℕ → Type 0
StartsWithin lo hi none = Unit
StartsWithin lo hi (some day) = (lo ≤ day) × (day ≤ hi)

last_day-le : (day : ℕ) (ps : List Point) → Ascends day ps → day ≤ last_day day ps
last_day-le day [] h = omega arith
last_day-le day (p ∷ ps) (h, hs) = omega (arith, last_day-le p.day ps hs)

Within_weaken :
    (lo lo' hi : ℕ) (xs : List (ℕ × Decimal))
    → lo ≤ lo'
    → All (DayWithin lo' hi) xs
    → All (DayWithin lo hi) xs
Within_weaken lo lo' hi [] h a = tt
Within_weaken lo lo' hi (x ∷ xs) h (a, as') =
    ((omega arith, omega arith), Within_weaken lo lo' hi xs h as')

drawdown_from-Within :
    (day : ℕ) (peak : Decimal) (ps : List Point)
    → Ascends day ps
    → All (DayWithin day (last_day day ps)) (drawdown_from peak ps)
unfolding drawdown_from
drawdown_from-Within day peak [] h = tt
drawdown_from-Within day peak (p ∷ ps) (h, hs) = (
  (omega arith, last_day-le p.day ps hs),
  Within_weaken day p.day (last_day p.day ps) _ (omega arith)
      (drawdown_from-Within p.day (dmax peak p.value) ps hs),
)

step_start-Within :
    (lo hi day : ℕ) (under : Bool) (start : Option ℕ)
    → (lo ≤ day) × (day ≤ hi)
    → StartsWithin lo hi start
    → StartsWithin lo hi (step_start under day start)
step_start-Within lo hi day true none h s = h
step_start-Within lo hi day true (some d) h s = s
step_start-Within lo hi day false start h s = tt

step_longest-le :
    (lo hi day : ℕ) (under : Bool) (start : Option ℕ) (longest : ℕ)
    → (lo ≤ day) × (day ≤ hi)
    → StartsWithin lo hi start
    → longest ≤ hi - lo
    → step_longest under day start longest ≤ hi - lo
step_longest-le lo hi day true start longest h s l = l
step_longest-le lo hi day false none longest h s l = l
step_longest-le lo hi day false (some d) longest h s l = omega arith

close_run-le :
    (lo hi last : ℕ) (start : Option ℕ) (longest : ℕ)
    → last ≤ hi
    → StartsWithin lo hi start
    → longest ≤ hi - lo
    → close_run start last longest ≤ hi - lo
close_run-le lo hi last none longest h s l = l
close_run-le lo hi last (some d) longest h s l = omega arith

underwater-le :
    (lo hi : ℕ) (xs : List (ℕ × Decimal)) (last : ℕ) (start : Option ℕ) (longest : ℕ)
    → last ≤ hi
    → All (DayWithin lo hi) xs
    → StartsWithin lo hi start
    → longest ≤ hi - lo
    → underwater xs last start longest ≤ hi - lo
unfolding underwater
underwater-le lo hi [] last start longest h a s l = close_run-le lo hi last start longest h s l
underwater-le lo hi ((day, x) ∷ xs) last start longest h (a, as') s l =
    underwater-le lo hi xs day (step_start (is_under x) day start)
      (step_longest (is_under x) day start longest) a.1 as'
      (step_start-Within lo hi day (is_under x) start a s)
      (step_longest-le lo hi day (is_under x) start longest a s l)

higher-le : (day : ℕ) (best p : Point) → best.day ≤ day → p.day ≤ day → (higher best p).day ≤ day
higher-le day best p h k = ground arith

highest-le :
    (day : ℕ) (best : Point) (ps : List Point)
    → best.day ≤ day
    → All (λ p. p.day ≤ day) ps
    → (highest best ps).day ≤ day
unfolding highest
highest-le day best [] h a = h
highest-le day best (p ∷ ps) h (a, as') =
    highest-le day (higher best p) ps (higher-le day best p h a) as'

up_to-le : (day : ℕ) (ps : List Point) → All (λ p. p.day ≤ day) (up_to day ps)
unfolding up_to
up_to-le day [] = tt
up_to-le day (p ∷ ps) = elim (Bool-cases (leb p.day day)) [
  | inl e ↦ rw e (leb→le _ _ e, up_to-le day ps)
  | inr e ↦ rw e (up_to-le day ps)
]

peak-IsBefore :
    (day : ℕ) (p : Point) (ps : List Point)
    → p.day ≤ day
    → IsBefore (day_of (peak_of (up_to day (p ∷ ps)))) (some day)
unfolding up_to
peak-IsBefore day p ps h =
    rw (le→leb p.day day h) (highest-le day p (up_to day ps) h (up_to-le day ps))

recovered-IsBefore :
    (level : Decimal) (day : ℕ) (ps : List Point)
    → IsBefore (some day) (first_recovered level (since day ps))
unfolding since
recovered-IsBefore level day [] = tt
recovered-IsBefore level day (p ∷ ps) = elim (Bool-cases (leb day p.day)) [
  | inr e ↦ rw e (recovered-IsBefore level day ps)
  | inl e ↦ rw e (elim (Bool-cases (le level p.value)) [
    | inl q ↦ rw q (leb→le _ _ e)
    | inr q ↦ rw q (recovered-IsBefore level day ps)
  ])
]

recovery-IsBefore :
    (peak : Option Point) (day : ℕ) (ps : List Point)
    → IsBefore (some day) (recovery peak (since day ps))
recovery-IsBefore none day ps = tt
recovery-IsBefore (some p) day ps = recovered-IsBefore p.value day ps

-- The dates of the report are in order, and its longest stretch fits the data: for a curve whose
-- days go up, the peak is not after the trough, the recovery, if there is one, not before it, and the
-- longest stretch below a peak is no longer than the span of the curve.
pub drawdown_details-dates :
    (p q : Point) (ps : List Point)
    → Ascends p.day (q ∷ ps)
    → let d = drawdown_details (p ∷ q ∷ ps) in
      IsBefore d.peak_date d.trough_date
      × IsBefore d.trough_date d.recovery_date
      × (d.longest_days ≤ last_day q.day ps - p.day)
unfolding drawdown_details drawdown_series drawdown_from
drawdown_details-dates p q ps h =
    let dd = drawdown_from p.value (p ∷ q ∷ ps) in
    let hi = last_day q.day ps in
    let low : p.day ≤ hi = last_day-le p.day (q ∷ ps) h in
    let peak' = dmax p.value p.value in
    let rest = drawdown_from-Within p.day peak' (q ∷ ps) h in
    let trough = trough_of dd in
    let first : DayWithin p.day hi (p.day, p.value ⊘ peak' ⊖ nat 1) = (omega arith, low) in
    let t = lowest_keeps (DayWithin p.day hi) _ (drawdown_from peak' (q ∷ ps)) first rest in
    (
      peak-IsBefore trough.0 p (q ∷ ps) t.0,
      recovery-IsBefore (peak_of (up_to trough.0 (p ∷ q ∷ ps))) trough.0 (p ∷ q ∷ ps),
      underwater-le p.day hi dd 0 none 0 (omega arith) (first, rest) tt (omega arith),
    )
