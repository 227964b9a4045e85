-- ===== src/Risk/Limits.antt =====
-- What the gate of a buy computes, case by case: the rate, the worth of the order and of the
-- holding, the weight limit and the warnings.
use toss_api_quant_trading.Prelude.{
  ◌≡◌, ◌↔◌, ◌⊎◌, refl, Option, none, some, [], String, arith, Option-cases, inl, inr, true, false,
  member, ap, ◌∙◌,
}
use toss_api_quant_trading.Prelude.Dict.{lookup, get_or}
use toss_api_quant_trading.Decimal.{Decimal, nat, dmax, ◌⊗◌, ◌≤ᵈ◌, ◌<ᵈ◌}
use toss_api_quant_trading.Universe.{Country, kr, us, country_of}
use toss_api_quant_trading.Broker.{Position, OrderIntent, AccountSnapshot}
use toss_api_quant_trading.Risk.{
  RiskManager, weight_limit_for, order_notional, current_exposure, buy_warnings, or_zero,
  WarningsApi, fx_rate, asked, answer, consult,
}

-- The rate of a market's currency in KRW.
pub data Rate (snapshot : AccountSnapshot) : Country → Decimal → Type 0 where
  in_won : Rate snapshot kr (nat 1)
  in_dollars : Rate snapshot us snapshot.usd_krw

-- A number that was given, and zero where none was.
pub data Given : Option Decimal → Decimal → Type 0 where
  given : (x : Decimal) → Given (some x) x
  not_given : Given none (nat 0)

-- What an order is worth in KRW: its amount, or else its quantity at the price, at the rate.
pub data Worth (intent : OrderIntent) (price : Option Decimal) (fx : Decimal)
    : Decimal → Type 0 where
  by_amount : (a : Decimal) → intent.order_amount ≡ some a → Worth intent price fx (a ⊗ fx)
  by_quantity :
      (px qty : Decimal)
      → intent.order_amount ≡ none
      → Given price px
      → Given intent.quantity qty
      → Worth intent price fx (px ⊗ qty ⊗ fx)

-- The price of a position: its quote, or else what it was bought at.
pub data Mark (snapshot : AccountSnapshot) (symbol : String) (pos : Position)
    : Decimal → Type 0 where
  quoted : (px : Decimal) → lookup symbol snapshot.prices ≡ some px → Mark snapshot symbol pos px
  unquoted : lookup symbol snapshot.prices ≡ none → Mark snapshot symbol pos pos.avg_price

-- What is held of a symbol already, in KRW.
pub data Holds (snapshot : AccountSnapshot) (symbol : String) (fx : Decimal)
    : Decimal → Type 0 where
  holds_none : lookup symbol snapshot.positions ≡ none → Holds snapshot symbol fx (nat 0)
  holds_some :
      (pos : Position) (mark : Decimal)
      → lookup symbol snapshot.positions ≡ some pos
      → Mark snapshot symbol pos mark
      → Holds snapshot symbol fx (mark ⊗ pos.quantity ⊗ fx)

-- The weight that a symbol may have: a defensive one the larger of both limits.
pub data Limit (m : RiskManager) (symbol : String) : Decimal → Type 0 where
  ordinary :
      member symbol m.defensive_symbols ≡ false → Limit m symbol m.settings.max_position_weight
  raised_limit :
      member symbol m.defensive_symbols ≡ true
      → m.settings.max_position_weight ≤ᵈ m.max_defensive_weight
      → Limit m symbol m.max_defensive_weight
  same_limit :
      member symbol m.defensive_symbols ≡ true
      → m.max_defensive_weight <ᵈ m.settings.max_position_weight
      → Limit m symbol m.settings.max_position_weight

-- No warning disqualifies the symbol: there is no client, the cycle's cache has an empty list, or
-- the service is asked and answers with an empty list or not at all.
pub data Unwarned (m : RiskManager) (symbol : String) : Type 0 where
  unasked : m.client ≡ none → Unwarned m symbol
  known :
      (api : WarningsApi)
      → m.client ≡ some api
      → lookup symbol m.warning_cache ≡ some []
      → Unwarned m symbol
  asked_now :
      (api : WarningsApi)
      → m.client ≡ some api
      → lookup symbol m.warning_cache ≡ none
      → (api symbol ≡ none) ⊎ (api symbol ≡ some [])
      → Unwarned m symbol

Rate-fx_rate :
    (snapshot : AccountSnapshot) (c : Country) (fx : Decimal)
    → Rate snapshot c fx
    → fx_rate snapshot c ≡ fx
Rate-fx_rate snapshot kr _ in_won = refl
Rate-fx_rate snapshot us _ in_dollars = refl

Given-or_zero : (o : Option Decimal) (x : Decimal) → Given o x → or_zero o ≡ x
Given-or_zero _ _ (given x) = refl
Given-or_zero _ _ not_given = refl

pub Worth-order_notional :
    (intent : OrderIntent) (snapshot : AccountSnapshot) (price : Option Decimal)
    (fx notional : Decimal)
    → Rate snapshot (country_of intent.symbol) fx
    → Worth intent price fx notional
    → order_notional intent snapshot price ≡ notional
unfolding order_notional
Worth-order_notional intent snapshot price fx _ r (by_amount a e) =
    rw (Rate-fx_rate snapshot (country_of intent.symbol) fx r, e) refl
Worth-order_notional intent snapshot price fx _ r (by_quantity px qty e p q) =
    rw
      (
        Rate-fx_rate snapshot (country_of intent.symbol) fx r,
        e,
        Given-or_zero price px p,
        Given-or_zero intent.quantity qty q,
      )
      refl

Mark-get_or :
    (snapshot : AccountSnapshot) (symbol : String) (pos : Position) (mark : Decimal)
    → Mark snapshot symbol pos mark
    → get_or symbol pos.avg_price snapshot.prices ≡ mark
Mark-get_or snapshot symbol pos _ (quoted px e) = rw (get_or, e) refl
Mark-get_or snapshot symbol pos _ (unquoted e) = rw (get_or, e) refl

pub Holds-current_exposure :
    (snapshot : AccountSnapshot) (symbol : String) (fx held : Decimal)
    → Rate snapshot (country_of symbol) fx
    → Holds snapshot symbol fx held
    → current_exposure snapshot symbol ≡ held
unfolding current_exposure
Holds-current_exposure snapshot symbol fx _ r (holds_none e) = rw e refl
Holds-current_exposure snapshot symbol fx _ r (holds_some pos mark e k) =
    rw (e, Rate-fx_rate snapshot (country_of symbol) fx r, Mark-get_or snapshot symbol pos mark k)
      refl

pub Limit-weight_limit_for :
    (m : RiskManager) (symbol : String) (limit : Decimal)
    → Limit m symbol limit
    → weight_limit_for m symbol ≡ limit
unfolding weight_limit_for dmax
Limit-weight_limit_for m symbol _ (ordinary e) = rw e refl
Limit-weight_limit_for m symbol _ (raised_limit e h) = ground arith
Limit-weight_limit_for m symbol _ (same_limit e h) = ground arith

asked-Unwarned :
    (m : RiskManager) (symbol : String) (api : WarningsApi)
    → m.client ≡ some api
    → (asked (lookup symbol m.warning_cache) api symbol m).0 ≡ []
    → Unwarned m symbol
asked-Unwarned m symbol api c h = elim (Option-cases (lookup symbol m.warning_cache)) [
  | inl e ↦
      let k : answer (api symbol) ≡ [] = rw e at h in
      elim (Option-cases (api symbol)) [
        | inl f ↦ asked_now api c e (inl f)
        | inr (ws, f) ↦ asked_now api c e (inr (f ∙ ap some (rw f at k)))
      ]
  | inr (ws, e) ↦ known api c (e ∙ ap some (rw e at h))
]

consult-Unwarned :
    (m : RiskManager) (symbol : String) (client : Option WarningsApi)
    → m.client ≡ client
    → (consult client symbol m).0 ≡ []
    → Unwarned m symbol
consult-Unwarned m symbol none c h = unasked c
consult-Unwarned m symbol (some api) c h = asked-Unwarned m symbol api c h

pub buy_warnings-Unwarned :
    (m : RiskManager) (symbol : String) → ((buy_warnings m symbol).0 ≡ []) ↔ Unwarned m symbol
unfolding buy_warnings
buy_warnings-Unwarned m symbol = (there, back)
  where
    there : (buy_warnings m symbol).0 ≡ [] → Unwarned m symbol
    there h = consult-Unwarned m symbol m.client refl h

    back : Unwarned m symbol → (buy_warnings m symbol).0 ≡ []
    back (unasked c) = rw c refl
    back (known api c e) = rw (c, e) refl
    back (asked_now api c e (inl f)) = rw (c, e, f) refl
    back (asked_now api c e (inr f)) = rw (c, e, f) refl
