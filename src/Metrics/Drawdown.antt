-- ===== src/Metrics/Drawdown.antt =====
-- How deep a drawdown is.
use toss_api_quant_trading.Decimal.Field.{⊘_nonneg}
use toss_api_quant_trading.Decimal.Ratio.{⊘_le_one, ⊘_antitone, positive_above}
use toss_api_quant_trading.Decimal.Order.{≤ᵈ_trans, le-dmax_left, le-dmax_right, ≤ᵈ_refl}
use toss_api_quant_trading.Decimal.{Decimal, nat, neg, ◌⊖◌, ◌⊘◌, ◌≤ᵈ◌, ◌<ᵈ◌, dmax, lt}
use toss_api_quant_trading.Metrics.{
  Point, drawdown_from, drawdown_series, lowest, deeper, trough_of, max_drawdown,
}
use toss_api_quant_trading.Prelude.{
  ℕ, List, [], ◌∷◌, ◌≡◌, All, arith, refl, Bool-cases, inl, inr, ◌⊎◌,
}

abbrev pub IsPositive : Point → Type 0
IsPositive p = nat 0 <ᵈ p.value

-- Between a total loss and none.
abbrev pub IsDepth : Decimal → Type 0
IsDepth x = (neg (nat 1) ≤ᵈ x) × (x ≤ᵈ nat 0)

-- The change from one value to another, as a share of the first.
abbrev pub change_from : Decimal → Point → Decimal
change_from base p = p.value ⊘ base ⊖ nat 1

-- From every point on, no later point is worse off than `m`.
abbrev pub NoWorse : Decimal → List Point → Type 0
NoWorse m [] = Unit
NoWorse m (p ∷ ps) = All (λ q. m ≤ᵈ change_from p.value q) (p ∷ ps) × NoWorse m ps

-- A change from the base to one of the points, or from one of the points to a later one.
abbrev pub Reaches : Decimal → Decimal → List Point → Type 0
Reaches m base [] = ⊥
Reaches m base (q ∷ qs) = (m ≡ change_from base q) ⊎ Reaches m base qs

abbrev pub Falls : Decimal → List Point → Type 0
Falls m [] = ⊥
Falls m (p ∷ ps) = Reaches m p.value (p ∷ ps) ⊎ Falls m ps

abbrev AtLeast : Decimal → ℕ × Decimal → Type 0
AtLeast m (day, x) = m ≤ᵈ x

abbrev DepthAt : ℕ × Decimal → Type 0
DepthAt e = IsDepth e.1

⊖_one_nonneg : (x : Decimal) → nat 0 ≤ᵈ x → neg (nat 1) ≤ᵈ x ⊖ nat 1
unfolding ◌⊖◌ neg
⊖_one_nonneg x h = omega arith

⊖_one_le : (x : Decimal) → x ≤ᵈ nat 1 → x ⊖ nat 1 ≤ᵈ nat 0
unfolding ◌⊖◌
⊖_one_le x h = omega arith

⊖_one_mono : (x y : Decimal) → x ≤ᵈ y → x ⊖ nat 1 ≤ᵈ y ⊖ nat 1
unfolding ◌⊖◌
⊖_one_mono x y h = omega arith

nonneg_of : (x : Decimal) → nat 0 <ᵈ x → nat 0 ≤ᵈ x
nonneg_of x h = omega arith

lt_le_trans : (a b : Decimal) → nat 0 <ᵈ a → a ≤ᵈ b → nat 0 <ᵈ b
lt_le_trans a b h k = omega (arith, positive_above a b h k)

change_from-IsDepth :
    (base : Decimal) (p : Point) → nat 0 <ᵈ p.value → p.value ≤ᵈ base → IsDepth (change_from base p)
change_from-IsDepth base p h k =
    let b = lt_le_trans p.value base h k in
    (
      ⊖_one_nonneg _ (⊘_nonneg p.value base (nonneg_of _ h) (nonneg_of _ b)),
      ⊖_one_le _ (⊘_le_one p.value base k b),
    )

drawdown_from-DepthAt :
    (peak : Decimal) (ps : List Point) → All IsPositive ps → All DepthAt (drawdown_from peak ps)
unfolding drawdown_from
drawdown_from-DepthAt peak [] h = tt
drawdown_from-DepthAt peak (p ∷ ps) (h, hs) = (
  change_from-IsDepth (dmax peak p.value) p h (le-dmax_right peak p.value),
  drawdown_from-DepthAt (dmax peak p.value) ps hs,
)

-- A bound of the entries is a bound of the changes from any base that is not above the peak.
above_base :
    (m peak base : Decimal) (ps : List Point)
    → nat 0 <ᵈ base
    → base ≤ᵈ peak
    → All IsPositive ps
    → All (AtLeast m) (drawdown_from peak ps)
    → All (λ q. m ≤ᵈ change_from base q) ps
unfolding drawdown_from
above_base m peak base [] b k h a = tt
above_base m peak base (p ∷ ps) b k (h, hs) (a, as') =
    let peak' = dmax peak p.value in
    let up : base ≤ᵈ peak' = ≤ᵈ_trans base peak peak' k (le-dmax_left peak p.value) in
    (
      ≤ᵈ_trans m (change_from peak' p) (change_from base p) a
          (⊖_one_mono _ _ (⊘_antitone p.value base peak' (nonneg_of _ h) b up)),
      above_base m peak' base ps b up hs as',
    )

drawdown_from-NoWorse :
    (m peak : Decimal) (ps : List Point)
    → All IsPositive ps
    → All (AtLeast m) (drawdown_from peak ps)
    → NoWorse m ps
unfolding drawdown_from
drawdown_from-NoWorse m peak [] h a = tt
drawdown_from-NoWorse m peak (p ∷ ps) (h, hs) (a, as') =
    let peak' = dmax peak p.value in
    let up : p.value ≤ᵈ peak' = le-dmax_right peak p.value in
    (
      (
        ≤ᵈ_trans m (change_from peak' p) (change_from p.value p) a
            (⊖_one_mono _ _ (⊘_antitone p.value p.value peak' (nonneg_of _ h) h up)),
        above_base m peak' p.value ps h up hs as',
      ),
      drawdown_from-NoWorse m peak' ps hs as',
    )

AtLeast-weaken :
    (m n : Decimal) (xs : List (ℕ × Decimal)) → m ≤ᵈ n → All (AtLeast n) xs → All (AtLeast m) xs
AtLeast-weaken m n [] h a = tt
AtLeast-weaken m n ((d, x) ∷ xs) h (a, as') = (≤ᵈ_trans m n x h a, AtLeast-weaken m n xs h as')

deeper-le : (a b : ℕ × Decimal) → ((deeper a b).1 ≤ᵈ a.1) × ((deeper a b).1 ≤ᵈ b.1)
deeper-le (d, x) (e, y) = ground (arith, ≤ᵈ_refl x, ≤ᵈ_refl y)

lowest-AtLeast :
    (best : ℕ × Decimal) (xs : List (ℕ × Decimal))
    → ((lowest best xs).1 ≤ᵈ best.1) × All (AtLeast (lowest best xs).1) xs
unfolding lowest
lowest-AtLeast best [] = (≤ᵈ_refl best.1, tt)
lowest-AtLeast best (x ∷ rest) =
    let (a, as') = lowest-AtLeast (deeper best x) rest in
    let (l, r) = deeper-le best x in (≤ᵈ_trans _ _ _ a l, (≤ᵈ_trans _ _ _ a r, as'))

trough_of-AtLeast : (xs : List (ℕ × Decimal)) → All (AtLeast (trough_of xs).1) xs
trough_of-AtLeast [] = tt
trough_of-AtLeast (x ∷ xs) = lowest-AtLeast x xs

-- What holds of all entries holds of the trough.
pub lowest_keeps :
    (P : ℕ × Decimal → Type 0) (best : ℕ × Decimal) (xs : List (ℕ × Decimal))
    → P best
    → All P xs
    → P (lowest best xs)
unfolding lowest
lowest_keeps P best [] h hs = h
lowest_keeps P (d, x) ((e, y) ∷ rest) h (k, ks) = elim (Bool-cases (lt y x)) [
  | inl q ↦ rw q (lowest_keeps P (e, y) rest k ks)
  | inr q ↦ rw q (lowest_keeps P (d, x) rest h ks)
]

-- An entry is a change from the peak so far, which is that of the base or of a later point.
abbrev FallsAt : Decimal → List Point → ℕ × Decimal → Type 0
FallsAt base ps e = Reaches e.1 base ps ⊎ Falls e.1 ps

FallsAt-old :
    (base : Decimal) (p : Point) (ps : List Point) (xs : List (ℕ × Decimal))
    → All (FallsAt base ps) xs
    → All (FallsAt base (p ∷ ps)) xs
FallsAt-old base p ps [] h = tt
FallsAt-old base p ps (x ∷ xs) (inl a, hs) = (inl (inr a), FallsAt-old base p ps xs hs)
FallsAt-old base p ps (x ∷ xs) (inr a, hs) = (inr (inr a), FallsAt-old base p ps xs hs)

FallsAt-new :
    (base : Decimal) (p : Point) (ps : List Point) (xs : List (ℕ × Decimal))
    → All (FallsAt p.value ps) xs
    → All (FallsAt base (p ∷ ps)) xs
FallsAt-new base p ps [] h = tt
FallsAt-new base p ps (x ∷ xs) (inl a, hs) = (inr (inl (inr a)), FallsAt-new base p ps xs hs)
FallsAt-new base p ps (x ∷ xs) (inr a, hs) = (inr (inr a), FallsAt-new base p ps xs hs)

drawdown_from-FallsAt :
    (base : Decimal) (ps : List Point) → All (FallsAt base ps) (drawdown_from base ps)
unfolding drawdown_from dmax
drawdown_from-FallsAt base [] = tt
drawdown_from-FallsAt base (p ∷ ps) = elim (Bool-cases (lt base p.value)) [
  | inl e ↦ rw e (inr (inl (inl refl)), FallsAt-new base p ps _ (drawdown_from-FallsAt p.value ps))
  | inr e ↦ rw e (inl (inl refl), FallsAt-old base p ps _ (drawdown_from-FallsAt base ps))
]

same_base :
    (m : Decimal) (p : Point) (ps : List Point)
    → Reaches m p.value (p ∷ ps) ⊎ Falls m (p ∷ ps)
    → Falls m (p ∷ ps)
same_base m p ps (inl a) = inl a
same_base m p ps (inr a) = a

-- The maximum drawdown of a curve of positive equity lies between -1 and 0. It is the change from
-- some point to that point or a later one, and no such change is less: from whatever point on, at no
-- later point is the equity worse off.
pub max_drawdown-Falls :
    (p q : Point) (ps : List Point)
    → All IsPositive (p ∷ q ∷ ps)
    → IsDepth (max_drawdown (p ∷ q ∷ ps))
      × Falls (max_drawdown (p ∷ q ∷ ps)) (p ∷ q ∷ ps)
      × NoWorse (max_drawdown (p ∷ q ∷ ps)) (p ∷ q ∷ ps)
unfolding max_drawdown drawdown_series drawdown_from
max_drawdown-Falls p q ps h =
    let dd = drawdown_from p.value (p ∷ q ∷ ps) in
    let deep = drawdown_from-DepthAt p.value (p ∷ q ∷ ps) h in
    let falls = drawdown_from-FallsAt p.value (p ∷ q ∷ ps) in
    (
      lowest_keeps DepthAt _ _ deep.0 deep.1,
      same_base _ p (q ∷ ps) (lowest_keeps (FallsAt p.value (p ∷ q ∷ ps)) _ _ falls.0 falls.1),
      drawdown_from-NoWorse (trough_of dd).1 p.value (p ∷ q ∷ ps) h (trough_of-AtLeast dd),
    )
