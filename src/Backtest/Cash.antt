-- ===== src/Backtest/Cash.antt =====
-- What a buy costs, and the price that a scaled-down buy reckons with.
use toss_api_quant_trading.Decimal.Quotient.{truncate_le}
use toss_api_quant_trading.Decimal.Order.{≤ᵈ_trans, ≤ᵈ_refl, le_of_path}
use toss_api_quant_trading.Backtest.{affordable_px, charge, shares, affordable_qty}
use toss_api_quant_trading.Universe.{buy}
use toss_api_quant_trading.Decimal.Field.{
  ⊕_nonneg, ⊗_assoc, ≤-⊕_right, ⊗_comm, ⊗_nonneg, ⊕_zero, ⊕_assoc, ⊕_mono, ⊗_mono, ⊘-⊗_cancel,
}
use toss_api_quant_trading.Costs.{total, cost_of, commission_rate, fx_of, tax_of, regulatory_of}
use toss_api_quant_trading.Prelude.{
  refl, ◌≡◌, arith, String, false, ℕ, ◌∙◌, ap, true, inl, sym, ◌⊎◌, inr, Bool-cases, Bool,
  if◌then◌else◌,
}
use toss_api_quant_trading.Costs.Laws.{HasRates, commission_rate_nonneg, fx_nonneg}
use toss_api_quant_trading.Backtest.Config.{BacktestConfig, charges_fx, fractional}
use toss_api_quant_trading.Decimal.{
  ◌⊕◌, Decimal, abs, ◌⊗◌, ◌≤ᵈ◌, nat, is_zero, le, lt, ◌<ᵈ◌, ◌⊘◌, truncate,
}

⊗_swap : (a b c : Decimal) → a ⊗ b ⊗ c ≡ a ⊗ c ⊗ b
⊗_swap a b c = ⊗_assoc a b c ∙ ap (λ x. a ⊗ x) (⊗_comm b c) ∙ sym (⊗_assoc a c b)

-- `n (1 + c)` is `n + n c`.
grow_by : (n c : Decimal) → n ⊕ n ⊗ c ≤ᵈ n ⊗ (nat 1 ⊕ c)
unfolding ◌⊕◌ ◌⊗◌
grow_by n c = omega arith

pub one_plus_nonneg : (c : Decimal) → nat 0 ≤ᵈ c → nat 0 ≤ᵈ nat 1 ⊕ c
one_plus_nonneg c h = ⊕_nonneg (nat 1) c (omega arith) h

pub abs_is : (n : Decimal) → nat 0 ≤ᵈ n → abs n ≡ n
unfolding abs
abs_is n h = ground arith

plain_fee : (n c : Decimal) → n ⊕ (n ⊗ c ⊕ nat 0) ≤ᵈ n ⊗ (nat 1 ⊕ c)
plain_fee n c =
    ≤ᵈ_trans (n ⊕ (n ⊗ c ⊕ nat 0)) (n ⊕ n ⊗ c) (n ⊗ (nat 1 ⊕ c))
      (le_of_path (n ⊕ (n ⊗ c ⊕ nat 0)) (n ⊕ n ⊗ c) (ap (λ x. n ⊕ x) (⊕_zero (n ⊗ c))))
      (grow_by n c)

fee_and_exchange :
    (n c f : Decimal)
    → nat 0 ≤ᵈ n
    → nat 0 ≤ᵈ c
    → nat 0 ≤ᵈ f
    → n ⊕ (n ⊗ c ⊕ n ⊗ f) ≤ᵈ n ⊗ (nat 1 ⊕ c) ⊗ (nat 1 ⊕ f)
fee_and_exchange n c f h k l =
    let x = n ⊗ (nat 1 ⊕ c) in
    let up : n ⊕ n ⊗ c ≤ᵈ x = grow_by n c in
    let low : n ≤ᵈ x = ≤ᵈ_trans n (n ⊕ n ⊗ c) x (≤-⊕_right n (n ⊗ c) (⊗_nonneg n c h k)) up in
    ≤ᵈ_trans (n ⊕ (n ⊗ c ⊕ n ⊗ f)) (n ⊕ n ⊗ c ⊕ n ⊗ f) (x ⊗ (nat 1 ⊕ f))
      (le_of_path (n ⊕ (n ⊗ c ⊕ n ⊗ f)) (n ⊕ n ⊗ c ⊕ n ⊗ f) (sym (⊕_assoc n (n ⊗ c) (n ⊗ f))))
      (≤ᵈ_trans (n ⊕ n ⊗ c ⊕ n ⊗ f) (x ⊕ x ⊗ f) (x ⊗ (nat 1 ⊕ f))
        (⊕_mono (n ⊕ n ⊗ c) x (n ⊗ f) (x ⊗ f) up (⊗_mono n x f l low)) (grow_by x f))

pub zeros : nat 0 ⊕ nat 0 ⊕ nat 0 ⊕ nat 0 ⊕ nat 0 ≡ nat 0
unfolding ◌⊕◌
zeros = refl

module _ (cfg : BacktestConfig) (date : ℕ) where
  exchange-cases :
      (n : Decimal)
      → ((charges_fx cfg ≡ true)
          × (fx_of cfg.cost_model cfg.country n ≡ n ⊗ cfg.cost_model.fx_spread_rate))
        ⊎ ((charges_fx cfg ≡ false) × (fx_of cfg.cost_model cfg.country n ≡ nat 0))
  unfolding charges_fx fx_of
  exchange-cases n = ground arith

  -- What is reckoned for a notional covers it with its fees.
  reckoned :
      (n : Decimal)
      → HasRates cfg.cost_model
      → nat 0 ≤ᵈ n
      → n ⊕ (n ⊗ commission_rate cfg.cost_model cfg.country ⊕ fx_of cfg.cost_model cfg.country n)
        ≤ᵈ affordable_px cfg date n
  unfolding affordable_px
  reckoned n r h =
      let c = commission_rate cfg.cost_model cfg.country in
      elim (exchange-cases n) [
        | inl (e, x) ↦
            rw (e, x)
              (fee_and_exchange n c cfg.cost_model.fx_spread_rate h
                (commission_rate_nonneg cfg.cost_model cfg.country r) r.fx_spread)
        | inr (e, x) ↦ rw (e, x) (plain_fee n c)
      ]

  -- The whole cost of a buy, and the notional, are within what is reckoned.
  buy_reckoned :
      (px qty : Decimal) (sym : String)
      → HasRates cfg.cost_model
      → nat 0 ≤ᵈ px ⊗ qty
      → px ⊗ qty ⊕ total (charge cfg date buy px qty sym) ≤ᵈ affordable_px cfg date (px ⊗ qty)
  unfolding total cost_of tax_of regulatory_of
  buy_reckoned px qty sym r h =
      let n = px ⊗ qty in
      let c = commission_rate cfg.cost_model cfg.country in
      let x = fx_of cfg.cost_model cfg.country n in
      let part : nat 0 ≤ᵈ n ⊗ c ⊕ x =
        ⊕_nonneg (n ⊗ c) x (⊗_nonneg n c h (commission_rate_nonneg cfg.cost_model cfg.country r))
          (fx_nonneg cfg.cost_model r n h cfg.country) in
      elim (Bool-cases (is_zero n)) [
        | inl z ↦
            rw (abs_is n h, z, zeros)
              (≤ᵈ_trans (n ⊕ nat 0) (n ⊕ (n ⊗ c ⊕ x)) (affordable_px cfg date n)
                (⊕_mono n n (nat 0) (n ⊗ c ⊕ x) (≤ᵈ_refl n) part) (reckoned n r h))
        | inr z ↦
            rw (abs_is n h, z, ⊕_zero (n ⊗ c), ⊕_zero (n ⊗ c), ⊕_zero (n ⊗ c)) (reckoned n r h)
      ]

pub lt-cases : (a b : Decimal) → ((lt a b ≡ true) × (a <ᵈ b)) ⊎ ((lt a b ≡ false) × (b ≤ᵈ a))
lt-cases a b = ground arith

pub le-cases : (a b : Decimal) → ((le a b ≡ true) × (a ≤ᵈ b)) ⊎ ((le a b ≡ false) × (b <ᵈ a))
le-cases a b = ground arith

<ᵈ-≤ᵈ : (a b : Decimal) → a <ᵈ b → a ≤ᵈ b
<ᵈ-≤ᵈ a b h = omega arith

whole_le : (frac_ok : Bool) (v : Decimal) → nat 0 <ᵈ shares frac_ok v → shares frac_ok v ≤ᵈ v
whole_le true v h = ≤ᵈ_refl v
whole_le false v h = truncate_le v h

none_fit : (frac_ok : Bool) → shares frac_ok (nat 0) ≤ᵈ nat 0
unfolding truncate
none_fit true = omega arith
none_fit false = omega arith

-- A whole or fractional part of a quotient, multiplied back, is within the dividend.
shares_fit :
    (frac_ok : Bool) (a c : Decimal)
    → nat 0 ≤ᵈ a
    → nat 0 <ᵈ shares frac_ok (if lt (nat 0) a then c ⊘ a else nat 0)
    → shares frac_ok (if lt (nat 0) a then c ⊘ a else nat 0) ⊗ a ≤ᵈ c
shares_fit frac_ok a c h k = elim (lt-cases (nat 0) a) [
  | inl (e, p) ↦
      let l : nat 0 <ᵈ shares frac_ok (c ⊘ a) = rw e at k in
      rw e (
        ≤ᵈ_trans (shares frac_ok (c ⊘ a) ⊗ a) (c ⊘ a ⊗ a) c
          (⊗_mono (shares frac_ok (c ⊘ a)) (c ⊘ a) a h (whole_le frac_ok (c ⊘ a) l))
          (⊘-⊗_cancel c a p).0)
  | inr (e, p) ↦
      let l : nat 0 <ᵈ shares frac_ok (nat 0) = rw e at k in
      absurd (omega (arith, none_fit frac_ok))
]

module _ (cfg : BacktestConfig) (date : ℕ) where
  affordable_px-⊗ :
      (px qty : Decimal) → affordable_px cfg date px ⊗ qty ≡ affordable_px cfg date (px ⊗ qty)
  unfolding affordable_px
  affordable_px-⊗ px qty =
      let k = nat 1 ⊕ commission_rate cfg.cost_model cfg.country in
      elim (Bool-cases (charges_fx cfg)) [
        | inl e ↦
            let f = nat 1 ⊕ cfg.cost_model.fx_spread_rate in
            rw (e, ⊗_swap (px ⊗ k) f qty, ⊗_swap px k qty) refl
        | inr e ↦ rw (e, ⊗_swap px k qty) refl
      ]

  affordable_px_nonneg :
      (px : Decimal) → HasRates cfg.cost_model → nat 0 ≤ᵈ px → nat 0 ≤ᵈ affordable_px cfg date px
  affordable_px_nonneg px r h =
      let c = commission_rate cfg.cost_model cfg.country in
      let x = fx_of cfg.cost_model cfg.country px in
      ≤ᵈ_trans (nat 0) (px ⊕ (px ⊗ c ⊕ x)) (affordable_px cfg date px)
        (⊕_nonneg px (px ⊗ c ⊕ x) h (
          ⊕_nonneg (px ⊗ c) x
            (⊗_nonneg px c h (commission_rate_nonneg cfg.cost_model cfg.country r))
            (fx_nonneg cfg.cost_model r px h cfg.country)))
        (reckoned cfg date px r h)

  fits :
      (px cash : Decimal)
      → HasRates cfg.cost_model
      → nat 0 ≤ᵈ px
      → nat 0 <ᵈ affordable_qty cfg date px cash
      → affordable_qty cfg date px cash ⊗ affordable_px cfg date px ≤ᵈ cash
  unfolding affordable_qty
  fits px cash r h k =
      shares_fit (fractional cfg) (affordable_px cfg date px) cash (affordable_px_nonneg px r h) k

  -- A buy scaled down to the cash costs no more than the cash, its fees included.
  pub affordable :
      (px cash : Decimal) (ticker : String)
      → HasRates cfg.cost_model
      → nat 0 ≤ᵈ px
      → nat 0 <ᵈ affordable_qty cfg date px cash
      → px ⊗ affordable_qty cfg date px cash
          ⊕ total (charge cfg date buy px (affordable_qty cfg date px cash) ticker)
        ≤ᵈ cash
  affordable px cash ticker r h k =
      let q = affordable_qty cfg date px cash in
      ≤ᵈ_trans (px ⊗ q ⊕ total (charge cfg date buy px q ticker)) (affordable_px cfg date (px ⊗ q))
        cash (buy_reckoned cfg date px q ticker r (⊗_nonneg px q h (<ᵈ-≤ᵈ (nat 0) q k)))
        (rw (sym (affordable_px-⊗ px q), ⊗_comm (affordable_px cfg date px) q) (fits px cash r h k))
