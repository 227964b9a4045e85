-- ===== src/Runner/Intents/Order.antt =====
-- The orders of a cycle come sells first.
use toss_api_quant_trading.Prelude.Dict.{Dict, get_or, keys}
use toss_api_quant_trading.Broker.{Position, AccountSnapshot, weights, equity_krw}
use toss_api_quant_trading.Decimal.Order.{≤ᵈ_trans}
use toss_api_quant_trading.Universe.{Country, buy, Side, sell, country_of}
use toss_api_quant_trading.Decimal.{Decimal, ◌≤ᵈ◌, nat, ◌<ᵈ◌, le, ◌⊖◌, lt, abs}
use toss_api_quant_trading.Prelude.{
  String, List, ◌≡◌, Option, ◌∷◌, All, Bool-cases, [], some, arith, Option-cases, none, inl, refl,
  inr, ◌++◌,
}
use toss_api_quant_trading.Runner.Intents.{
  plan_sized, plan_all, Planned, insert_planned, sort_planned, planned_sell, sell_size, plan_priced,
  build_intents, plan_one, sorted_set, has_market, band,
}

abbrev DriftAbove : Decimal → List Planned → Type 0
DriftAbove d = All (λ y. d ≤ᵈ y.drift)

-- Every entry has a drift that is at most that of each later one.
abbrev Ascending : List Planned → Type 0
Ascending [] = Unit
Ascending (x ∷ xs) = DriftAbove x.drift xs × Ascending xs

-- The side follows the sign of the drift.
abbrev SideByDrift : Planned → Type 0
SideByDrift x = (x.intent.side ≡ buy → nat 0 <ᵈ x.drift) × (x.intent.side ≡ sell → x.drift ≤ᵈ nat 0)

-- After a buy comes no sell.
abbrev pub SellsFirst : List Planned → Type 0
SellsFirst [] = Unit
SellsFirst (x ∷ xs) = (x.intent.side ≡ buy → All (λ y. y.intent.side ≡ buy) xs) × SellsFirst xs

DriftAbove-le : (d e : Decimal) (xs : List Planned) → d ≤ᵈ e → DriftAbove e xs → DriftAbove d xs
DriftAbove-le d e [] h k = _
DriftAbove-le d e (x ∷ xs) h k = (≤ᵈ_trans d e x.drift h k.0, DriftAbove-le d e xs h k.1)

insert-All :
    (P : Planned → Type 0) (x : Planned) (xs : List Planned)
    → P x
    → All P xs
    → All P (insert_planned x xs)
unfolding insert_planned
insert-All P x [] p h = (p, _)
insert-All P x (y ∷ ys) p h = elim (Bool-cases (le x.drift y.drift)) [
  | inl e ↦ rw e (p, h)
  | inr e ↦ rw e (h.0, insert-All P x ys p h.1)
]

insert-Ascending :
    (x : Planned) (xs : List Planned) → Ascending xs → Ascending (insert_planned x xs)
unfolding insert_planned
insert-Ascending x [] h = (_, _)
insert-Ascending x (y ∷ ys) h = elim (Bool-cases (le x.drift y.drift)) [
  | inl e ↦
      let low : x.drift ≤ᵈ y.drift = ground arith in
      rw e ((low, DriftAbove-le x.drift y.drift ys low h.0), h)
  | inr e ↦
      let low : y.drift ≤ᵈ x.drift = ground arith in
      rw e (insert-All (λ z. y.drift ≤ᵈ z.drift) x ys low h.0, insert-Ascending x ys h.1)
]

sort-Ascending : (xs : List Planned) → Ascending (sort_planned xs)
unfolding sort_planned
sort-Ascending [] = _
sort-Ascending (x ∷ xs) = insert-Ascending x (sort_planned xs) (sort-Ascending xs)

pub sort-All : (P : Planned → Type 0) (xs : List Planned) → All P xs → All P (sort_planned xs)
unfolding sort_planned
sort-All P [] h = _
sort-All P (x ∷ xs) h = insert-All P x (sort_planned xs) h.0 (sort-All P xs h.1)

buys_after :
    (d : Decimal) (xs : List Planned)
    → nat 0 <ᵈ d
    → DriftAbove d xs
    → All SideByDrift xs
    → All (λ y. y.intent.side ≡ buy) xs
buys_after d [] p h k = _
buys_after d (y ∷ ys) p h k = (side y.intent.side refl, buys_after d ys p h.1 k.1)
  where
    side : (c : Side) → y.intent.side ≡ c → y.intent.side ≡ buy
    side buy e = e
    side sell e =
        let low = ≤ᵈ_trans d y.drift (nat 0) h.0 (k.0.1 e) in absurd (omega (arith, low, p))

Ascending-SellsFirst : (xs : List Planned) → Ascending xs → All SideByDrift xs → SellsFirst xs
Ascending-SellsFirst [] h k = _
Ascending-SellsFirst (x ∷ xs) h k =
    (λ e. buys_after x.drift xs (k.0.0 e) h.0 k.1, Ascending-SellsFirst xs h.1 k.1)

-- What one symbol's order satisfies, every order of the cycle satisfies.
pub plan_all-All :
    (P : Planned → Type 0) (one : String → Option Planned)
    → ((symbol : String) (x : Planned) → one symbol ≡ some x → P x)
    → (symbols : List String) → All P (plan_all one symbols)
unfolding plan_all
plan_all-All P one h [] = _
plan_all-All P one h (s ∷ ss) = elim (Option-cases (one s)) [
  | inl e ↦ rw e (plan_all-All P one h ss)
  | inr (x, e) ↦ rw e (h s x e, plan_all-All P one h ss)
]

planned_sell-SideByDrift :
    (symbol : String) (drift price : Decimal) (o : Option Decimal) (x : Planned)
    → drift ≤ᵈ nat 0
    → planned_sell symbol drift price o ≡ some x
    → SideByDrift x
planned_sell-SideByDrift symbol drift price none x low e = absurd (cc)
planned_sell-SideByDrift symbol drift price (some qty) x low e =
    (λ c. ground arith, λ c. ground arith)

plan_sized-SideByDrift :
    (symbol : String) (country : Country) (held : Option Position) (drift price qty : Decimal)
    (x : Planned)
    → plan_sized symbol country held drift price qty ≡ some x
    → SideByDrift x
unfolding plan_sized
plan_sized-SideByDrift symbol country held drift price qty x e =
    ground (arith, planned_sell-SideByDrift symbol drift price (sell_size country held qty) x)

plan_priced-SideByDrift :
    (snapshot : AccountSnapshot) (symbol : String) (country : Country) (drift : Decimal)
    (o : Option Decimal) (x : Planned)
    → plan_priced snapshot symbol country drift o ≡ some x
    → SideByDrift x
unfolding plan_priced
plan_priced-SideByDrift snapshot symbol country drift none x e = absurd (cc)
plan_priced-SideByDrift snapshot symbol country drift (some price) x e =
    elim (Bool-cases (le price (nat 0))) [
      | inl q ↦ let f = rw q at e in absurd (cc)
      | inr q ↦ plan_sized-SideByDrift symbol country _ drift price _ x (rw q at e)
    ]

plan_one-SideByDrift :
    (price_of : String → Option Decimal) (targets current : Dict Decimal)
    (snapshot : AccountSnapshot) (markets : List Country) (symbol : String) (x : Planned)
    → plan_one price_of targets current snapshot markets symbol ≡ some x
    → SideByDrift x
unfolding plan_one
plan_one-SideByDrift price_of targets current snapshot markets symbol x e =
    let drift = get_or symbol (nat 0) targets ⊖ get_or symbol (nat 0) current in
    elim (Bool-cases (has_market (country_of symbol) markets)) [
      | inr q ↦ let f = rw q at e in absurd (cc)
      | inl q ↦ elim (Bool-cases (lt (abs drift) band)) [
        | inl b ↦ let f = rw (q, b) at e in absurd (cc)
        | inr b ↦
            plan_priced-SideByDrift snapshot symbol _ drift (price_of symbol) x (rw (q, b) at e)
      ]
    ]

-- The orders of a cycle come sells first: after a buy comes no sell.
pub build_intents-SellsFirst :
    (price_of : String → Option Decimal) (targets : Dict Decimal) (snapshot : AccountSnapshot)
    (markets : List Country)
    → SellsFirst (build_intents price_of targets snapshot markets)
unfolding build_intents
build_intents-SellsFirst price_of targets snapshot markets =
    let one = plan_one price_of targets (weights snapshot) snapshot markets in
    let planned = plan_all one (sorted_set (keys targets ++ keys snapshot.positions)) in
    elim (Bool-cases (le (equity_krw snapshot) (nat 0))) [
      | inl e ↦ rw e _
      | inr e ↦ rw e (
          Ascending-SellsFirst (sort_planned planned) (sort-Ascending planned) (
            sort-All SideByDrift planned (
              plan_all-All SideByDrift one
                (plan_one-SideByDrift price_of targets (weights snapshot) snapshot markets) _)))
    ]
