-- ===== src/Metrics/Taxed.antt =====
-- What the tax estimate adds up to.
use toss_api_quant_trading.Decimal.{Decimal, den, nat, lt, dmax, ◌⊕◌, ◌⊖◌, ◌≤ᵈ◌, ◌≈◌}
use toss_api_quant_trading.Decimal.Field.{⊕_nonneg, ⊗_nonneg, ⊕_mono, ⊕_assoc, ⊖_le, ≈_of_parts}
use toss_api_quant_trading.Decimal.Order.{≤ᵈ_refl, ≤ᵈ_trans, le-dmax_right}
use toss_api_quant_trading.Metrics.{Point}
use toss_api_quant_trading.Metrics.Tax.{
  AssetClass, kr_domestic_etf, kr_foreign_etf, us_stock, tax_rate, deduction_of, year_ends,
  last_value, or_ends, year_tax, tax_years, after_tax_summary,
}
use toss_api_quant_trading.Prelude.{
  ℕ, ◌+◌, ◌*◌, List, [], ◌∷◌, ◌≡◌, arith, refl, Bool-cases, inl, inr, ◌==◌,
}

den-⊖ : (a b : Decimal) → den (a ⊖ b) ≡ den a * den b
unfolding ◌⊖◌
den-⊖ a b = omega arith

telescope_parts :
    (p n x q m y r k z : ℕ)
    → ((q * x + n * y) * (z * y) + (r * y + m * z) * (y * x)) * (z * x)
        + (k * x + p * z) * (y * x * (z * y))
      ≡ (r * x + n * z) * (y * x * (z * y))
        + ((m * x + p * y) * (z * y) + (k * y + q * z) * (y * x)) * (z * x)
telescope_parts p n x q m y r k z = omega arith

-- Two changes in a row are one.
telescope : (a b c : Decimal) → (b ⊖ a) ⊕ (c ⊖ b) ≈ c ⊖ a
unfolding ◌⊕◌ ◌⊖◌
telescope a b c =
    ≈_of_parts ((b ⊖ a) ⊕ (c ⊖ b)) (c ⊖ a) _ _ (den b * den a * (den c * den b)) _ _ (den c * den a)
      refl refl (omega arith) refl refl (omega arith)
      (rw (den-⊖ b a, den-⊖ c b)
        (telescope_parts a.plus a.minus (den a) b.plus b.minus (den b) c.plus c.minus (den c)))

-- The last of a list of values, or what comes before it.
abbrev pub final : Decimal → List Decimal → Decimal
final v [] = v
final v (w ∷ ws) = final w ws

≈_refl : (a : Decimal) → a ≈ a
≈_refl a = (≤ᵈ_refl a, ≤ᵈ_refl a)

≈_trans : (a b c : Decimal) → a ≈ b → b ≈ c → a ≈ c
≈_trans a b c (h, h') (k, k') = (≤ᵈ_trans a b c h k, ≤ᵈ_trans c b a k' h')

≈_cong : (a b c : Decimal) → b ≈ c → a ⊕ b ≈ a ⊕ c
≈_cong a b c (h, k) = (⊕_mono a a b c (≤ᵈ_refl a) h, ⊕_mono a a c b (≤ᵈ_refl a) k)

no_change : (acc v : Decimal) → acc ≈ acc ⊕ (v ⊖ v)
unfolding ◌⊕◌ ◌⊖◌
no_change acc v = (omega arith, omega arith)

-- The gains of the years add up to the change over all of them.
tax_years-gross :
    (rate deduction prev : Decimal) (vs : List Decimal) (gross tax : Decimal)
    → (tax_years rate deduction prev vs (gross, tax)).0 ≈ gross ⊕ (final prev vs ⊖ prev)
unfolding tax_years
tax_years-gross rate deduction prev [] gross tax = no_change gross prev
tax_years-gross rate deduction prev (v ∷ vs) gross tax =
    let end = final v vs in
    ≈_trans _ (gross ⊕ (v ⊖ prev) ⊕ (end ⊖ v)) (gross ⊕ (end ⊖ prev))
      (tax_years-gross rate deduction v vs (gross ⊕ (v ⊖ prev))
        (tax ⊕ year_tax rate deduction (v ⊖ prev)))
      (rw (⊕_assoc gross (v ⊖ prev) (end ⊖ v))
        (≈_cong gross ((v ⊖ prev) ⊕ (end ⊖ v)) (end ⊖ prev) (telescope prev v end)))

year_tax_nonneg :
    (rate deduction gain : Decimal) → nat 0 ≤ᵈ rate → nat 0 ≤ᵈ year_tax rate deduction gain
unfolding year_tax
year_tax_nonneg rate deduction gain h = elim (Bool-cases (lt (nat 0) gain)) [
  | inl e ↦
      rw e (
        ⊗_nonneg (dmax (gain ⊖ deduction) (nat 0)) rate (le-dmax_right (gain ⊖ deduction) (nat 0))
          h)
  | inr e ↦ rw e (omega arith)
]

tax_years_nonneg :
    (rate deduction prev : Decimal) (vs : List Decimal) (gross tax : Decimal)
    → nat 0 ≤ᵈ rate
    → nat 0 ≤ᵈ tax
    → nat 0 ≤ᵈ (tax_years rate deduction prev vs (gross, tax)).1
unfolding tax_years
tax_years_nonneg rate deduction prev [] gross tax r h = h
tax_years_nonneg rate deduction prev (v ∷ vs) gross tax r h =
    tax_years_nonneg rate deduction v vs (gross ⊕ (v ⊖ prev))
      (tax ⊕ year_tax rate deduction (v ⊖ prev)) r
      (⊕_nonneg tax (year_tax rate deduction (v ⊖ prev)) h
        (year_tax_nonneg rate deduction (v ⊖ prev) r))

tax_rate_nonneg : (class : AssetClass) → nat 0 ≤ᵈ tax_rate class
tax_rate_nonneg kr_domestic_etf = omega arith
tax_rate_nonneg kr_foreign_etf = omega arith
tax_rate_nonneg us_stock = omega arith

final-year_ends :
    (v : Decimal) (p : Point) (ps : List Point)
    → final v (year_ends (p ∷ ps)) ≡ last_value p.value ps
unfolding year_ends
final-year_ends v p [] = refl
final-year_ends v p (q ∷ ps) = elim (Bool-cases (p.year == q.year)) [
  | inl e ↦ rw e (final-year_ends v q ps)
  | inr e ↦ rw e (final-year_ends p.value q ps)
]

final-or_ends :
    (first last : Decimal) (vs : List Decimal)
    → final first vs ≡ last
    → final first (or_ends first last vs) ≡ last
final-or_ends first last [] h = refl
final-or_ends first last (a ∷ []) h = refl
final-or_ends first last (a ∷ b ∷ rest) h = h

zero_⊕ : (x : Decimal) → nat 0 ⊕ x ≈ x
unfolding ◌⊕◌
zero_⊕ x = (omega arith, omega arith)

-- For every kind of asset and every curve, whatever the deduction: the gross gain is the change from
-- the first to the last value, the tax is not negative, and the net gain is not above the gross one.
pub after_tax_summary-gains :
    (class : AssetClass) (annual : Decimal) (p : Point) (ps : List Point)
    → let t = after_tax_summary class annual p ps in
      (t.gross_gain ≈ last_value p.value ps ⊖ p.value)
      × (nat 0 ≤ᵈ t.estimated_tax)
      × (t.net_gain ≤ᵈ t.gross_gain)
unfolding after_tax_summary
after_tax_summary-gains class annual p ps =
    let last = last_value p.value ps in
    let yearly = or_ends p.value last (year_ends (p ∷ ps)) in
    let rate = tax_rate class in
    let ded = deduction_of class annual in
    let total = tax_years rate ded p.value yearly (nat 0, nat 0) in
    let e : final p.value yearly ≡ last =
      final-or_ends p.value last (year_ends (p ∷ ps)) (final-year_ends p.value p ps) in
    let paid : nat 0 ≤ᵈ total.1 =
      tax_years_nonneg rate ded p.value yearly (nat 0) (nat 0) (tax_rate_nonneg class)
        (omega arith) in
    let gained = tax_years-gross rate ded p.value yearly (nat 0) (nat 0) in
    (
      ≈_trans total.0 (nat 0 ⊕ (last ⊖ p.value)) (last ⊖ p.value) (rw e at gained)
          (zero_⊕ (last ⊖ p.value)),
      paid,
      ⊖_le total.0 total.1 paid,
    )
