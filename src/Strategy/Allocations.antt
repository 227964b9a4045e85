-- ===== src/Strategy/Allocations.antt =====
-- Every strategy answers an allocation, whatever the closes are.
use toss_api_quant_trading.Decimal.Order.{≤ᵈ_trans}
use toss_api_quant_trading.Decimal.Field.{⊖-⊕_cancel, ⊕_comm}
use toss_api_quant_trading.Prelude.Dict.{Dict, values, insert}
use toss_api_quant_trading.Strategy.Weights.{
  IsAllocation, empty-IsAllocation, assign-IsAllocation, insert-NonNegative, sum-insert, sum_mono,
  sum_shift,
}
use toss_api_quant_trading.Universe.{Sleeve, safe_symbols}
use toss_api_quant_trading.Prelude.{
  String, List, ℕ, Option, ◌∷◌, ◌≡◌, length, ◌<◌, take, ◌≤◌, [], arith, ap, Bool-cases, ◌⊎◌, inl,
  leb, suc, refl, inr, length-take,
}
use toss_api_quant_trading.Decimal.{Decimal, nat, ◌≤ᵈ◌, ◌⊖◌, sum_from, ◌⊕◌, ◌⊘◌, le}
use toss_api_quant_trading.Strategy.{
  faber, safe_weights, dual_momentum, buy_and_hold, fill_up, vaa, Frame, Score, update, equal_split,
  vaa_from, faber_from, in_trend, names_of, dual_from, above, sort_scores, assign, raw_return,
  newest_first, breadth_threshold, park, count_falling, best_or, scores_of, in_frame,
}

safe_weights-cases :
    (sleeve : Sleeve) (closes : Frame) (w : Decimal)
    → (safe_weights sleeve closes w ≡ [])
      ⊎ ((s : String) × (safe_weights sleeve closes w ≡ (s, w) ∷ []) × (nat 0 ≤ᵈ w))
unfolding safe_weights
safe_weights-cases sleeve closes w = elim (Bool-cases (le w (nat 0))) [
  | inl e ↦ inl (rw e refl)
  | inr e ↦ rw e (park-cases (in_frame closes (safe_symbols sleeve)) (ground arith))
]
  where
    score : List (Option Decimal) → Option Decimal
    score series = raw_return 126 (newest_first series [])

    park-cases :
        (cs : List String)
        → nat 0 ≤ᵈ w
        → (park w score closes cs ≡ [])
          ⊎ ((s : String) × (park w score closes cs ≡ (s, w) ∷ []) × (nat 0 ≤ᵈ w))
    park-cases [] h = inl refl
    park-cases (c ∷ cs) h = inr (best_or c (scores_of score closes (c ∷ cs)), refl, h)

rest_fits : (t : Decimal) → nat 1 ⊖ t ⊕ t ≤ᵈ nat 1
rest_fits t = (⊖-⊕_cancel (nat 1) t).0

-- The rest of an allocation goes into one more entry.
insert_rest :
    (s : String) (d : Dict Decimal)
    → IsAllocation d
    → nat 0 ≤ᵈ nat 1 ⊖ sum_from (nat 0) (values d)
    → IsAllocation (insert s (nat 1 ⊖ sum_from (nat 0) (values d)) d)
insert_rest s d h low =
    let t = sum_from (nat 0) (values d) in
    let w = nat 1 ⊖ t in
    record {
      long_only = insert-NonNegative s w d low h.long_only;
      bounded =
          ≤ᵈ_trans (sum_from (nat 0) (values (insert s w d))) (sum_from (nat 0 ⊕ w) (values d))
            (nat 1) (sum-insert s w (nat 0) d h.long_only)
            (≤ᵈ_trans (sum_from (nat 0 ⊕ w) (values d)) (sum_from (w ⊕ nat 0) (values d)) (nat 1)
              (sum_mono (nat 0 ⊕ w) (w ⊕ nat 0) (values d) ((⊕_comm (nat 0) w).0))
              (≤ᵈ_trans (sum_from (w ⊕ nat 0) (values d)) (w ⊕ t) (nat 1)
                (sum_shift w (nat 0) (values d)) (rest_fits t)));
    }

fill_up-IsAllocation :
    (sleeve : Sleeve) (closes : Frame) (n : ℕ) (picked : List String)
    → 0 < n
    → length picked ≤ n
    → IsAllocation (fill_up sleeve closes (nat 1 ⊘ nat n) picked)
unfolding fill_up update
fill_up-IsAllocation sleeve closes n picked p h =
    let d = assign (nat 1 ⊘ nat n) picked [] in
    let ok = assign-IsAllocation n picked p h in
    elim (safe_weights-cases sleeve closes (nat 1 ⊖ sum_from (nat 0) (values d))) [
      | inl e ↦ rw e ok
      | inr (s, e, low) ↦ rw e (insert_rest s d ok low)
    ]

length-names_of : (ss : List Score) → length (names_of ss) ≡ length ss
length-names_of [] = refl
length-names_of (s ∷ ss) = ap suc (length-names_of ss)

length-above : (floor : Decimal) (ss : List Score) → length (above floor ss) ≤ length ss
length-above floor [] = omega arith
length-above floor ((r, s) ∷ ss) = ground (arith, length-above floor ss)

length-in_trend :
    (days : ℕ) (closes : Frame) (ss : List String) → length (in_trend days closes ss) ≤ length ss
length-in_trend days closes [] = omega arith
length-in_trend days closes (s ∷ ss) = ground (arith, length-in_trend days closes ss)

equal_split-IsAllocation : (ss : List String) → IsAllocation (equal_split ss)
equal_split-IsAllocation [] = empty-IsAllocation
equal_split-IsAllocation (s ∷ ss) =
    assign-IsAllocation (length (s ∷ ss)) (s ∷ ss) (omega arith) (omega arith)

-- Buy and hold answers an allocation.
pub buy_and_hold-IsAllocation :
    (sleeve : Sleeve) (closes : Frame) → IsAllocation (buy_and_hold sleeve closes)
unfolding buy_and_hold
buy_and_hold-IsAllocation sleeve closes = equal_split-IsAllocation _

dual_from-IsAllocation :
    (sleeve : Sleeve) (closes : Frame) (top_n : ℕ) (floor : Decimal) (ss : List Score)
    → 0 < top_n
    → IsAllocation (dual_from sleeve closes top_n floor ss)
dual_from-IsAllocation sleeve closes top_n floor [] p = empty-IsAllocation
dual_from-IsAllocation sleeve closes top_n floor (s ∷ ss) p =
    let best = take top_n (sort_scores (s ∷ ss)) in
    fill_up-IsAllocation sleeve closes top_n (names_of (above floor best)) p (
      omega (
        arith,
        length-names_of (above floor best),
        length-above floor best,
        length-take top_n (sort_scores (s ∷ ss)),
      ))

-- Dual momentum answers an allocation, for any lookback and floor and a positive `top_n`.
pub dual_momentum-IsAllocation :
    (lookback top_n : ℕ) (floor : Decimal) (sleeve : Sleeve) (closes : Frame)
    → 0 < top_n
    → IsAllocation (dual_momentum lookback top_n floor sleeve closes)
unfolding dual_momentum
dual_momentum-IsAllocation lookback top_n floor sleeve closes p =
    dual_from-IsAllocation sleeve closes top_n floor _ p

faber_from-IsAllocation :
    (days : ℕ) (sleeve : Sleeve) (closes : Frame) (cs : List String)
    → IsAllocation (faber_from days sleeve closes cs)
faber_from-IsAllocation days sleeve closes [] = empty-IsAllocation
faber_from-IsAllocation days sleeve closes (c ∷ cs) =
    fill_up-IsAllocation sleeve closes (length (c ∷ cs)) (in_trend days closes (c ∷ cs))
      (omega arith) (length-in_trend days closes (c ∷ cs))

-- Faber's timing answers an allocation, for any length of the moving average.
pub faber-IsAllocation :
    (days : ℕ) (sleeve : Sleeve) (closes : Frame) → IsAllocation (faber days sleeve closes)
unfolding faber
faber-IsAllocation days sleeve closes = faber_from-IsAllocation days sleeve closes _

safe_weights-IsAllocation :
    (sleeve : Sleeve) (closes : Frame) → IsAllocation (safe_weights sleeve closes (nat 1))
safe_weights-IsAllocation sleeve closes = elim (safe_weights-cases sleeve closes (nat 1)) [
  | inl e ↦ rw e empty-IsAllocation
  | inr (s, e, low) ↦ rw e (whole_in s)
]
  where
    whole_in : (s : String) → IsAllocation ((s, nat 1) ∷ [])
    whole_in s = record {
      long_only = (omega arith, _);
      bounded = unfold sum_from ◌⊕◌ in omega arith;
    }

vaa_from-IsAllocation :
    (breadth_b : Option ℕ) (top_n : ℕ) (sleeve : Sleeve) (closes : Frame) (ss : List Score)
    → IsAllocation (vaa_from breadth_b top_n sleeve closes ss)
vaa_from-IsAllocation breadth_b top_n sleeve closes [] = empty-IsAllocation
vaa_from-IsAllocation breadth_b top_n sleeve closes (s ∷ ss) =
    elim (Bool-cases
      (leb (breadth_threshold breadth_b (length (s ∷ ss))) (count_falling (s ∷ ss)))) [
        | inl e ↦ rw e (safe_weights-IsAllocation sleeve closes)
        | inr e ↦ rw e (equal_split-IsAllocation _)
      ]

-- Vigilant allocation answers an allocation, for any threshold and number of picks.
pub vaa-IsAllocation :
    (breadth_b : Option ℕ) (top_n : ℕ) (sleeve : Sleeve) (closes : Frame)
    → IsAllocation (vaa breadth_b top_n sleeve closes)
unfolding vaa
vaa-IsAllocation breadth_b top_n sleeve closes =
    vaa_from-IsAllocation breadth_b top_n sleeve closes _
