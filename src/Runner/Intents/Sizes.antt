-- ===== src/Runner/Intents/Sizes.antt =====
-- What each planned order of a cycle satisfies.
use toss_api_quant_trading.Decimal.Quotient.{truncate_le}
use toss_api_quant_trading.Runner.Intents.Order.{sort-All, plan_all-All}
use toss_api_quant_trading.Risk.{fx_rate}
use toss_api_quant_trading.Prelude.Dict.{Dict, lookup, get_or, keys}
use mathlib.Core.Path.{subst}
use toss_api_quant_trading.Runner.Intents.{
  market_order, plan_sized, plan_priced, build_intents, plan_one, Planned, planned_sell, sell_size,
  has_market, plan_all, sorted_set, band,
}
use toss_api_quant_trading.Paper.Fill.{whole_shares, held_quantity}
use toss_api_quant_trading.Decimal.Order.{≤ᵈ_refl, ≤ᵈ_trans, dmin_right}
use toss_api_quant_trading.Broker.{Position, AccountSnapshot, weights, equity_krw}
use toss_api_quant_trading.Decimal.{
  dmin, truncate, Decimal, nat, ◌≤ᵈ◌, ◌<ᵈ◌, abs, le, ◌⊖◌, ◌⊗◌, lt, ◌⊘◌,
}
use toss_api_quant_trading.Universe.{Country, kr, us, buy, sell, country_of}
use toss_api_quant_trading.Prelude.{
  String, Option, ◌≡◌, arith, some, Bool-cases, List, refl, All, true, inl, inr, none, ap, ◌++◌,
  sym,
}

whole_shares_le : (c : Country) (a : Decimal) → nat 0 <ᵈ whole_shares c a → whole_shares c a ≤ᵈ a
whole_shares_le kr a h = truncate_le a h
whole_shares_le us a h = ≤ᵈ_refl a

whole_shares_kr : (c : Country) (a : Decimal) → c ≡ kr → (whole_shares c a).den_pred ≡ 0
unfolding truncate
whole_shares_kr kr a e = ground arith
whole_shares_kr us a e = absurd (cc)

-- The order has a positive quantity, whole on KRX, that a sell covers by the holding.
pub record IsSized (country : Country) (held : Option Position) (x : Planned) : Type 0 where
  pub qty : Decimal
  pub quantity : x.intent.quantity ≡ some qty
  pub positive : nat 0 <ᵈ qty
  pub whole : country ≡ kr → qty.den_pred ≡ 0
  pub covered : x.intent.side ≡ sell → qty ≤ᵈ held_quantity held

-- The order that a symbol's plan has to be.
abbrev pub IsPlannedFor :
    (String → Option Decimal) → AccountSnapshot → List Country → String → Planned → Type 0
IsPlannedFor price_of snapshot markets symbol x =
    (x.intent.symbol ≡ symbol)
    × (has_market (country_of symbol) markets ≡ true)
    × (price_of symbol ≡ some x.price)
    × (nat 0 <ᵈ x.price)
    × IsSized (country_of symbol) (lookup symbol snapshot.positions) x

buy-IsSized :
    (symbol : String) (country : Country) (held : Option Position) (drift price qty : Decimal)
    → nat 0 <ᵈ qty
    → (country ≡ kr → qty.den_pred ≡ 0)
    → IsSized country held
        (record { drift = drift; intent = market_order symbol buy qty; price = price })
buy-IsSized symbol country held drift price qty p w = record {
  qty = qty;
  quantity = refl;
  positive = p;
  whole = w;
  covered = λ e. absurd (cc);
}

sell-IsSized :
    (symbol : String) (country : Country) (pos : Position) (drift price qty : Decimal)
    → nat 0 <ᵈ whole_shares country (dmin qty pos.quantity)
    → IsSized country (some pos) (record {
      drift = drift;
      intent = market_order symbol sell (whole_shares country (dmin qty pos.quantity));
      price = price;
    })
sell-IsSized symbol country pos drift price qty p =
    let trimmed = whole_shares country (dmin qty pos.quantity) in
    record {
      qty = trimmed;
      quantity = refl;
      positive = p;
      whole = whole_shares_kr country (dmin qty pos.quantity);
      covered = λ e.
          ≤ᵈ_trans trimmed (dmin qty pos.quantity) pos.quantity
            (whole_shares_le country (dmin qty pos.quantity) p) (dmin_right qty pos.quantity);
    }

planned_is : (P : Planned → Type 0) (x y : Planned) → some x ≡ some y → P x → P y
planned_is P x y e p = let q : x ≡ y = cc in subst P q p

-- What the helpers of one symbol's plan give, when they give an order.
abbrev Sized : String → Country → Option Position → Decimal → Planned → Type 0
Sized symbol country held price x =
    (x.intent.symbol ≡ symbol) × (x.price ≡ price) × IsSized country held x

planned_sell-Sized :
    (symbol : String) (country : Country) (held : Option Position) (drift price qty : Decimal)
    (x : Planned)
    → planned_sell symbol drift price (sell_size country held qty) ≡ some x
    → Sized symbol country held price x
planned_sell-Sized symbol country none drift price qty x e = absurd (cc)
planned_sell-Sized symbol country (some pos) drift price qty x e =
    let trimmed = whole_shares country (dmin qty pos.quantity) in
    elim (Bool-cases (le trimmed (nat 0))) [
      | inl q ↦ let f = rw q at e in absurd (cc)
      | inr q ↦
          planned_is (Sized symbol country (some pos) price) _ x (rw q at e)
            (refl, refl, sell-IsSized symbol country pos drift price qty (ground arith))
    ]

plan_sized-Sized :
    (symbol : String) (country : Country) (held : Option Position) (drift price qty : Decimal)
    (x : Planned)
    → (country ≡ kr → qty.den_pred ≡ 0)
    → plan_sized symbol country held drift price qty ≡ some x
    → Sized symbol country held price x
unfolding plan_sized
plan_sized-Sized symbol country held drift price qty x w e = elim (Bool-cases (le qty (nat 0))) [
  | inl q ↦ let f = rw q at e in absurd (cc)
  | inr q ↦ elim (Bool-cases (lt (nat 0) drift)) [
    | inl b ↦
        planned_is (Sized symbol country held price) _ x (rw (q, b) at e)
          (refl, refl, buy-IsSized symbol country held drift price qty (ground arith) w)
    | inr b ↦ planned_sell-Sized symbol country held drift price qty x (rw (q, b) at e)
  ]
]

abbrev Priced : AccountSnapshot → String → Option Decimal → Planned → Type 0
Priced snapshot symbol o x =
    (x.intent.symbol ≡ symbol)
    × (o ≡ some x.price)
    × (nat 0 <ᵈ x.price)
    × IsSized (country_of symbol) (lookup symbol snapshot.positions) x

plan_priced-Priced :
    (snapshot : AccountSnapshot) (symbol : String) (drift : Decimal) (o : Option Decimal)
    (x : Planned)
    → plan_priced snapshot symbol (country_of symbol) drift o ≡ some x
    → Priced snapshot symbol o x
unfolding plan_priced
plan_priced-Priced snapshot symbol drift none x e = absurd (cc)
plan_priced-Priced snapshot symbol drift (some price) x e =
    let raw = abs drift ⊗ equity_krw snapshot ⊘ (price ⊗ fx_rate snapshot (country_of symbol)) in
    elim (Bool-cases (le price (nat 0))) [
      | inl q ↦ let f = rw q at e in absurd (cc)
      | inr q ↦
          let (named, priced, sized) =
            plan_sized-Sized symbol (country_of symbol) _ drift price _ x
              (whole_shares_kr (country_of symbol) raw) (rw q at e) in
          let positive : nat 0 <ᵈ price = ground arith in
          (named, ap some (sym priced), rw priced positive, sized)
    ]

pub plan_one-IsPlannedFor :
    (price_of : String → Option Decimal) (targets current : Dict Decimal)
    (snapshot : AccountSnapshot) (markets : List Country) (symbol : String) (x : Planned)
    → plan_one price_of targets current snapshot markets symbol ≡ some x
    → IsPlannedFor price_of snapshot markets symbol x
unfolding plan_one
plan_one-IsPlannedFor price_of targets current snapshot markets symbol x e =
    let drift = get_or symbol (nat 0) targets ⊖ get_or symbol (nat 0) current in
    elim (Bool-cases (has_market (country_of symbol) markets)) [
      | inr q ↦ let f = rw q at e in absurd (cc)
      | inl q ↦ elim (Bool-cases (lt (abs drift) band)) [
        | inl b ↦ let f = rw (q, b) at e in absurd (cc)
        | inr b ↦
            let (named, a, b, c) =
              plan_priced-Priced snapshot symbol drift (price_of symbol) x (rw (q, b) at e) in
            (named, q, a, b, c)
      ]
    ]

-- Every order that is planned is for a symbol of one of the markets given, at a positive price that
-- the broker quotes, in a positive quantity, whole on KRX, which for a sell is at most what is held.
pub build_intents-IsPlanned :
    (price_of : String → Option Decimal) (targets : Dict Decimal) (snapshot : AccountSnapshot)
    (markets : List Country)
    → All
        (λ x. (symbol : String) × IsPlannedFor price_of snapshot markets symbol x)
        (build_intents price_of targets snapshot markets)
unfolding build_intents
build_intents-IsPlanned price_of targets snapshot markets =
    let one = plan_one price_of targets (weights snapshot) snapshot markets in
    let planned = plan_all one (sorted_set (keys targets ++ keys snapshot.positions)) in
    elim (Bool-cases (le (equity_krw snapshot) (nat 0))) [
      | inl e ↦ rw e _
      | inr e ↦ rw e (
          sort-All (λ x. (symbol : String) × IsPlannedFor price_of snapshot markets symbol x)
            planned
            (plan_all-All _ one
              (λ symbol x p. (
                symbol,
                plan_one-IsPlannedFor price_of targets (weights snapshot) snapshot markets symbol x
                    p,
              ))
              _))
    ]
