-- ===== src/Strategy/Weights.antt =====
-- Sums of weights, as the strategies write them into a dict.
use toss_api_quant_trading.Decimal.Field.{
  ⊕_mono, ⊕_assoc, ⊘_nonneg, ⊘-⊗_cancel, ⊗_comm, ⊗_mono, ≤-⊕_right, ⊕_comm,
}
use toss_api_quant_trading.Decimal.Order.{≤ᵈ_refl, ≤ᵈ_trans, le_of_path}
use toss_api_quant_trading.Portfolio.Exposure.{NonNegative}
use toss_api_quant_trading.Prelude.Dict.{Dict, insert, values, insert-AllEntries}
use toss_api_quant_trading.Decimal.{◌⊕◌, sum_from, Decimal, nat, ◌⊗◌, ◌≤ᵈ◌, ◌⊘◌}
use toss_api_quant_trading.Prelude.{
  ℕ, String, [], ◌≤◌, List, arith, ◌<◌, suc, length, ◌∷◌, Bool-cases, str_eq, inl, inr, sym,
}
use toss_api_quant_trading.Strategy.{assign}

-- No negative weight, and at most everything invested.
pub record IsAllocation (d : Dict Decimal) : Type 0 where
  pub long_only : NonNegative d
  pub bounded : sum_from (nat 0) (values d) ≤ᵈ nat 1

pub sum_mono : (a b : Decimal) (xs : List Decimal) → a ≤ᵈ b → sum_from a xs ≤ᵈ sum_from b xs
unfolding sum_from
sum_mono a b [] h = h
sum_mono a b (x ∷ xs) h = sum_mono (a ⊕ x) (b ⊕ x) xs (⊕_mono a b x x h (≤ᵈ_refl x))

pub sum_shift : (a b : Decimal) (xs : List Decimal) → sum_from (a ⊕ b) xs ≤ᵈ a ⊕ sum_from b xs
unfolding sum_from
sum_shift a b [] = ≤ᵈ_refl (a ⊕ b)
sum_shift a b (x ∷ xs) =
    ≤ᵈ_trans (sum_from (a ⊕ b ⊕ x) xs) (sum_from (a ⊕ (b ⊕ x)) xs) (a ⊕ sum_from (b ⊕ x) xs)
      (sum_mono (a ⊕ b ⊕ x) (a ⊕ (b ⊕ x)) xs (le_of_path (a ⊕ b ⊕ x) (a ⊕ (b ⊕ x)) (⊕_assoc a b x)))
      (sum_shift a (b ⊕ x) xs)

swap_last : (a b c : Decimal) → a ⊕ b ⊕ c ≤ᵈ a ⊕ c ⊕ b
swap_last a b c =
    ≤ᵈ_trans (a ⊕ b ⊕ c) (a ⊕ (b ⊕ c)) (a ⊕ c ⊕ b)
      (le_of_path (a ⊕ b ⊕ c) (a ⊕ (b ⊕ c)) (⊕_assoc a b c))
      (≤ᵈ_trans (a ⊕ (b ⊕ c)) (a ⊕ (c ⊕ b)) (a ⊕ c ⊕ b)
        (⊕_mono a a (b ⊕ c) (c ⊕ b) (≤ᵈ_refl a) ((⊕_comm b c).0))
        (le_of_path (a ⊕ (c ⊕ b)) (a ⊕ c ⊕ b) (sym (⊕_assoc a c b))))

-- Writing one entry adds at most its value to the sum.
pub sum-insert :
    (k : String) (v acc : Decimal) (d : Dict Decimal)
    → NonNegative d
    → sum_from acc (values (insert k v d)) ≤ᵈ sum_from (acc ⊕ v) (values d)
unfolding sum_from
sum-insert k v acc [] n = ≤ᵈ_refl (acc ⊕ v)
sum-insert k v acc ((j, w) ∷ d) n = elim (Bool-cases (str_eq k j)) [
  | inl e ↦ rw e (sum_mono (acc ⊕ v) (acc ⊕ v ⊕ w) (values d) (≤-⊕_right (acc ⊕ v) w n.0))
  | inr e ↦ rw e (
      ≤ᵈ_trans (sum_from (acc ⊕ w) (values (insert k v d))) (sum_from (acc ⊕ w ⊕ v) (values d))
        (sum_from (acc ⊕ v ⊕ w) (values d)) (sum-insert k v (acc ⊕ w) d n.1)
        (sum_mono (acc ⊕ w ⊕ v) (acc ⊕ v ⊕ w) (values d) (swap_last acc w v)))
]

pub insert-NonNegative :
    (k : String) (v : Decimal) (d : Dict Decimal)
    → nat 0 ≤ᵈ v
    → NonNegative d
    → NonNegative (insert k v d)
insert-NonNegative k v d h n = insert-AllEntries (λ s w. nat 0 ≤ᵈ w) k v d h n

assign-NonNegative :
    (each : Decimal) (ss : List String) (d : Dict Decimal)
    → nat 0 ≤ᵈ each
    → NonNegative d
    → NonNegative (assign each ss d)
unfolding assign
assign-NonNegative each [] d h n = n
assign-NonNegative each (s ∷ ss) d h n =
    assign-NonNegative each ss (insert s each d) h (insert-NonNegative s each d h n)

one_more : (each : Decimal) (n : ℕ) → nat n ⊗ each ⊕ each ≤ᵈ nat (suc n) ⊗ each
unfolding ◌⊕◌ ◌⊗◌
one_more each n = omega arith

count_up : (acc each : Decimal) (n : ℕ) → acc ⊕ nat n ⊗ each ⊕ each ≤ᵈ acc ⊕ nat (suc n) ⊗ each
count_up acc each n =
    ≤ᵈ_trans (acc ⊕ nat n ⊗ each ⊕ each) (acc ⊕ (nat n ⊗ each ⊕ each)) (acc ⊕ nat (suc n) ⊗ each)
      (le_of_path (acc ⊕ nat n ⊗ each ⊕ each) (acc ⊕ (nat n ⊗ each ⊕ each))
        (⊕_assoc acc (nat n ⊗ each) each))
      (⊕_mono acc acc (nat n ⊗ each ⊕ each) (nat (suc n) ⊗ each) (≤ᵈ_refl acc) (one_more each n))

no_times : (acc each : Decimal) → acc ≤ᵈ acc ⊕ nat 0 ⊗ each
unfolding ◌⊕◌ ◌⊗◌
no_times acc each = omega arith

sum-assign :
    (each acc : Decimal) (ss : List String) (d : Dict Decimal)
    → nat 0 ≤ᵈ each
    → NonNegative d
    → sum_from acc (values (assign each ss d)) ≤ᵈ sum_from (acc ⊕ nat (length ss) ⊗ each) (values d)
unfolding assign
sum-assign each acc [] d h n = sum_mono acc (acc ⊕ nat 0 ⊗ each) (values d) (no_times acc each)
sum-assign each acc (s ∷ ss) d h n =
    let x = acc ⊕ nat (length ss) ⊗ each in
    ≤ᵈ_trans (sum_from acc (values (assign each ss (insert s each d))))
      (sum_from x (values (insert s each d)))
      (sum_from (acc ⊕ nat (suc (length ss)) ⊗ each) (values d))
      (sum-assign each acc ss (insert s each d) h (insert-NonNegative s each d h n))
      (≤ᵈ_trans (sum_from x (values (insert s each d))) (sum_from (x ⊕ each) (values d))
        (sum_from (acc ⊕ nat (suc (length ss)) ⊗ each) (values d)) (sum-insert s each x d n)
        (sum_mono (x ⊕ each) (acc ⊕ nat (suc (length ss)) ⊗ each) (values d)
          (count_up acc each (length ss))))

zero_left : (a : Decimal) → nat 0 ⊕ a ≤ᵈ a
unfolding ◌⊕◌
zero_left a = omega arith

nat_mono : (k n : ℕ) → k ≤ n → nat k ≤ᵈ nat n
nat_mono k n h = omega arith

share_nonneg : (n : ℕ) → nat 0 ≤ᵈ nat 1 ⊘ nat n
share_nonneg n = ⊘_nonneg (nat 1) (nat n) (omega arith) (omega arith)

shares_le : (k n : ℕ) → k ≤ n → 0 < n → nat k ⊗ (nat 1 ⊘ nat n) ≤ᵈ nat 1
shares_le k n h p =
    let e = nat 1 ⊘ nat n in
    let whole : e ⊗ nat n ≤ᵈ nat 1 = (⊘-⊗_cancel (nat 1) (nat n) (omega arith)).0 in
    let full : nat n ⊗ e ≤ᵈ nat 1 = rw (⊗_comm (nat n) e) whole in
    ≤ᵈ_trans (nat k ⊗ e) (nat n ⊗ e) (nat 1)
      (⊗_mono (nat k) (nat n) e (share_nonneg n) (nat_mono k n h)) full

-- At most `n` symbols with an `n`th each.
pub assign-IsAllocation :
    (n : ℕ) (ss : List String) → 0 < n → length ss ≤ n → IsAllocation (assign (nat 1 ⊘ nat n) ss [])
unfolding sum_from
assign-IsAllocation n ss p h =
    let e = nat 1 ⊘ nat n in
    let x = nat (length ss) ⊗ e in
    record {
      long_only = assign-NonNegative e ss [] (share_nonneg n) _;
      bounded =
          ≤ᵈ_trans (sum_from (nat 0) (values (assign e ss []))) (nat 0 ⊕ x) (nat 1)
            (sum-assign e (nat 0) ss [] (share_nonneg n) _)
            (≤ᵈ_trans (nat 0 ⊕ x) x (nat 1) (zero_left x) (shares_le (length ss) n h p));
    }

pub empty-IsAllocation : IsAllocation []
unfolding sum_from
empty-IsAllocation = record { long_only = _; bounded = omega arith }
