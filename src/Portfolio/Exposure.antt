-- ===== src/Portfolio/Exposure.antt =====
-- The blended weights are neither negative nor more than everything.
use toss_api_quant_trading.Decimal.Order.{≤ᵈ_trans, ≤ᵈ_refl}
use toss_api_quant_trading.Decimal.Field.{
  ⊗_nonneg, ⊘_nonneg, ⊕_nonneg, ⊕_mono, ⊘-⊗_cancel, ⊗_distrib, ⊗_comm,
}
use toss_api_quant_trading.Decimal.{sum_from, ◌⊗◌, Decimal, nat, ◌≤ᵈ◌, ◌⊘◌, lt, ◌⊕◌, ◌<ᵈ◌}
use toss_api_quant_trading.Prelude.{
  String, List, ◌≡◌, some, arith, Bool-cases, false, Option-cases, [], ◌∷◌, inl, inr,
}
use toss_api_quant_trading.Prelude.Dict.{
  Dict, AllEntries, get_or, values, lookup, lookup-AllEntries, insert, insert-AllEntries,
}
use toss_api_quant_trading.Portfolio.{
  scale_by, plan_post_init, Allocation, add_targets, combine, capped, SleeveAnswer, target_weights,
  weights_for, Reason, some_negative, add_answer, no_data, no_data_before, strategy_error,
}

sum_scaled :
    (k acc acc' : Decimal) (d : Dict Decimal)
    → acc' ≤ᵈ acc ⊗ k
    → sum_from acc' (values (scale_by k d)) ≤ᵈ sum_from acc (values d) ⊗ k
unfolding sum_from scale_by
sum_scaled k acc acc' [] h = h
sum_scaled k acc acc' ((sym, v) ∷ d) h = sum_scaled k (acc ⊕ v) (acc' ⊕ v ⊗ k) d (
    ≤ᵈ_trans (acc' ⊕ v ⊗ k) (acc ⊗ k ⊕ v ⊗ k) ((acc ⊕ v) ⊗ k)
      (⊕_mono acc' (acc ⊗ k) (v ⊗ k) (v ⊗ k) h (≤ᵈ_refl (v ⊗ k))) ((⊗_distrib acc v k).1))

zero_scaled : (k : Decimal) → nat 0 ≤ᵈ nat 0 ⊗ k
unfolding ◌⊗◌
zero_scaled k = omega arith

capped-sum : (d : Dict Decimal) → sum_from (nat 0) (values (capped d)) ≤ᵈ nat 1
unfolding capped
capped-sum d =
    let t = sum_from (nat 0) (values d) in
    let k = nat 1 ⊘ t in
    elim (Bool-cases (lt (nat 1) t)) [
      | inl e ↦
          let positive : nat 0 <ᵈ t = ground arith in
          let one : k ⊗ t ≤ᵈ nat 1 = (⊘-⊗_cancel (nat 1) t positive).0 in
          rw e (
            ≤ᵈ_trans (sum_from (nat 0) (values (scale_by k d))) (t ⊗ k) (nat 1)
              (sum_scaled k (nat 0) (nat 0) d (zero_scaled k)) (rw (⊗_comm t k) one))
      | inr e ↦ rw e (ground arith)
    ]

abbrev pub NonNegative : Dict Decimal → Type 0
NonNegative = AllEntries (λ sym v. nat 0 ≤ᵈ v)

scale_by-NonNegative :
    (k : Decimal) (d : Dict Decimal) → nat 0 ≤ᵈ k → NonNegative d → NonNegative (scale_by k d)
unfolding scale_by
scale_by-NonNegative k [] h n = _
scale_by-NonNegative k ((sym, v) ∷ d) h n = (⊗_nonneg v k n.0 h, scale_by-NonNegative k d h n.1)

capped-NonNegative : (d : Dict Decimal) → NonNegative d → NonNegative (capped d)
unfolding capped
capped-NonNegative d n =
    let t = sum_from (nat 0) (values d) in
    elim (Bool-cases (lt (nat 1) t)) [
      | inl e ↦
          let low : nat 0 ≤ᵈ t = ground arith in
          rw e (scale_by-NonNegative (nat 1 ⊘ t) d (⊘_nonneg (nat 1) t (omega arith) low) n)
      | inr e ↦ rw e n
    ]

get_or_nonneg : (sym : String) (d : Dict Decimal) → NonNegative d → nat 0 ≤ᵈ get_or sym (nat 0) d
get_or_nonneg sym d n = elim (Option-cases (lookup sym d)) [
  | inl e ↦ rw (e, get_or) (omega arith)
  | inr (v, e) ↦ rw (e, get_or) (lookup-AllEntries (λ s v. nat 0 ≤ᵈ v) sym v d n e)
]

add_targets-NonNegative :
    (w : Decimal) (targets combined : Dict Decimal)
    → nat 0 ≤ᵈ w
    → NonNegative targets
    → NonNegative combined
    → NonNegative (add_targets w targets combined)
unfolding add_targets
add_targets-NonNegative w [] combined h t n = n
add_targets-NonNegative w ((sym, v) ∷ targets) combined h t n =
    let x = get_or sym (nat 0) combined ⊕ v ⊗ w in
    let low : nat 0 ≤ᵈ x =
      ⊕_nonneg (get_or sym (nat 0) combined) (v ⊗ w) (get_or_nonneg sym combined n)
        (⊗_nonneg v w t.0 h) in
    add_targets-NonNegative w targets (insert sym x combined) h t.1
      (insert-AllEntries (λ s v. nat 0 ≤ᵈ v) sym x combined low n)

-- The weights that a strategy answers are not negative.
abbrev pub LongOnly : SleeveAnswer → Type 0
LongOnly (weights_for targets why) = NonNegative targets
LongOnly _ = Unit

add_answer-NonNegative :
    (a : Allocation) (r : SleeveAnswer) (combined : Dict Decimal) (reasons : Dict Reason)
    → nat 0 ≤ᵈ a.weight
    → LongOnly r
    → NonNegative combined
    → NonNegative (add_answer a r combined reasons).0
add_answer-NonNegative a no_data combined reasons h l n = n
add_answer-NonNegative a no_data_before combined reasons h l n = n
add_answer-NonNegative a strategy_error combined reasons h l n = n
add_answer-NonNegative a (weights_for targets why) combined reasons h l n =
    add_targets-NonNegative a.weight targets combined h l n

combine-NonNegative :
    (answer : Allocation → SleeveAnswer) (plan : List Allocation) (combined : Dict Decimal)
    (reasons : Dict Reason)
    → ((a : Allocation) → LongOnly (answer a))
    → some_negative plan ≡ false
    → NonNegative combined
    → NonNegative (combine answer plan combined reasons).0
unfolding combine
combine-NonNegative answer [] combined reasons l p n = n
combine-NonNegative answer (a ∷ rest) combined reasons l p n =
    let (combined', reasons') = add_answer a (answer a) combined reasons in
    let w : nat 0 ≤ᵈ a.weight = ground arith in
    combine-NonNegative answer rest combined' reasons' l (ground arith)
      (add_answer-NonNegative a (answer a) combined reasons w (l a) n)

plan-some_negative :
    (plan valid : List Allocation)
    → plan_post_init plan ≡ some valid
    → (plan ≡ valid) × (some_negative plan ≡ false)
unfolding plan_post_init
plan-some_negative [] valid e = absurd (cc)
plan-some_negative (a ∷ rest) valid e = (ground arith, ground arith)

-- For a plan that passes its checks, and strategies that answer no negative weight, the blended
-- weights are not negative and sum to at most one: no short sale and no leverage.
pub target_weights-bounded :
    (answer : Allocation → SleeveAnswer) (plan valid : List Allocation)
    → plan_post_init plan ≡ some valid
    → ((a : Allocation) → LongOnly (answer a))
    → NonNegative (target_weights answer valid).0
      × (sum_from (nat 0) (values (target_weights answer valid).0) ≤ᵈ nat 1)
unfolding target_weights
target_weights-bounded answer plan valid e l =
    let (same, p) = plan-some_negative plan valid e in
    let q : some_negative valid ≡ false = rw⁻¹ same p in
    let combined = (combine answer valid [] []).0 in
    (
      capped-NonNegative combined (combine-NonNegative answer valid [] [] l q _),
      capped-sum combined,
    )
