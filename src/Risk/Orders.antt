-- ===== src/Risk/Orders.antt =====
-- What an allowed order satisfies, and when an order is allowed.
use toss_api_quant_trading.Prelude.{
  ℕ, ◌<◌, ◌≡◌, ◌↔◌, refl, Option, some, [], ◌∷◌, List, arith, Option-cases, inl, inr,
}
use toss_api_quant_trading.Prelude.Dict.{lookup}
use toss_api_quant_trading.Decimal.{Decimal, nat, ◌⊕◌, ◌⊗◌, ◌⊘◌, ◌≤ᵈ◌, ◌<ᵈ◌}
use toss_api_quant_trading.Decimal.Cancel.{⊘-≤_iff}
use toss_api_quant_trading.Universe.{country_of, buy, sell}
use toss_api_quant_trading.Broker.{
  Position, OrderIntent, AccountSnapshot, position_value_krw, equity_krw,
}
use toss_api_quant_trading.Store.{Store}
use toss_api_quant_trading.Risk.Limits.{
  Rate, Worth, Holds, Limit, Unwarned, Worth-order_notional, Holds-current_exposure,
  Limit-weight_limit_for, buy_warnings-Unwarned,
}
use toss_api_quant_trading.Risk.{
  RiskManager, allow, weight_limit_for, orders_today, remaining_order_budget, order_notional,
  current_exposure, buy_warnings, check_buy, check_sell, check_order, or_zero, clear_of,
}

-- The limits that a buy worth `notional` has to keep, with `held` of the symbol already.
pub record BuyLimits (m : RiskManager) (now : ℕ) (intent : OrderIntent) (snapshot : AccountSnapshot)
    (notional held limit : Decimal) (s : Store) : Type 0 where
  pub solvent : nat 0 <ᵈ equity_krw snapshot
  pub budget : orders_today m now s < m.settings.max_orders_per_day
  pub weight : held ⊕ notional ≤ᵈ limit ⊗ equity_krw snapshot
  pub gross :
      position_value_krw snapshot ⊕ notional ≤ᵈ m.settings.max_gross_exposure ⊗ equity_krw snapshot
  pub covered : notional ≤ᵈ snapshot.cash_krw
  pub unwarned : Unwarned m intent.symbol

clear-allow : (ws : List _) → clear_of ws ≡ allow → ws ≡ []
clear-allow [] h = refl
clear-allow (w ∷ ws) h = absurd (cc)

-- The gate of a buy, as inequalities of quotients.
check_order-allow :
    (m : RiskManager) (now : ℕ) (intent : OrderIntent) (snapshot : AccountSnapshot)
    (price : Option Decimal) (s : Store)
    → intent.side ≡ buy
    → let equity = equity_krw snapshot in
      let notional = order_notional intent snapshot price in
      ((check_order m now intent snapshot price s).0 ≡ allow)
      ↔ (nat 0 <ᵈ equity)
        × (orders_today m now s < m.settings.max_orders_per_day)
        × ((current_exposure snapshot intent.symbol ⊕ notional) ⊘ equity
            ≤ᵈ weight_limit_for m intent.symbol)
        × ((position_value_krw snapshot ⊕ notional) ⊘ equity ≤ᵈ m.settings.max_gross_exposure)
        × (notional ≤ᵈ snapshot.cash_krw)
        × ((buy_warnings m intent.symbol).0 ≡ [])
unfolding check_order check_buy remaining_order_budget
check_order-allow m now intent snapshot price s side =
    (λ h. ground (arith, clear-allow (buy_warnings m intent.symbol).0), λ h. ground arith)

-- A buy is allowed exactly when equity and order budget are left, what is held of the symbol and the
-- order together are at most the symbol's weight limit of the equity, all positions and the order at
-- most the exposure limit of it, the order is within the cash, and no warning disqualifies. Here the
-- order is worth its amount or else its quantity at the price, and the holding its quote or else
-- its average price, both in KRW at the rate of the symbol's market.
pub check_order-buy :
    (m : RiskManager) (now : ℕ) (intent : OrderIntent) (snapshot : AccountSnapshot)
    (price : Option Decimal) (s : Store) (fx notional held limit : Decimal)
    → intent.side ≡ buy
    → Rate snapshot (country_of intent.symbol) fx
    → Worth intent price fx notional
    → Holds snapshot intent.symbol fx held
    → Limit m intent.symbol limit
    → ((check_order m now intent snapshot price s).0 ≡ allow)
      ↔ BuyLimits m now intent snapshot notional held limit s
check_order-buy m now intent snapshot price s fx notional held limit side r w k l =
    let equity = equity_krw snapshot in
    let (there, back) =
      rw
        (
          Worth-order_notional intent snapshot price fx notional r w,
          Holds-current_exposure snapshot intent.symbol fx held r k,
          Limit-weight_limit_for m intent.symbol limit l,
        )
        at (check_order-allow m now intent snapshot price s side) in
    let (clear, cleared) = buy_warnings-Unwarned m intent.symbol in
    (
      λ h.
          let (solvent, budget, weight, gross, covered, unwarned) = there h in
          record {
            solvent = solvent;
            budget = budget;
            weight = (⊘-≤_iff (held ⊕ notional) equity limit solvent).0 weight;
            gross =
                (⊘-≤_iff (position_value_krw snapshot ⊕ notional) equity
                    m.settings.max_gross_exposure solvent).0
                  gross;
            covered = covered;
            unwarned = clear unwarned;
          },
      λ b. back (
        b.solvent,
        b.budget,
        (⊘-≤_iff (held ⊕ notional) equity limit b.solvent).1 b.weight,
        (⊘-≤_iff (position_value_krw snapshot ⊕ notional) equity m.settings.max_gross_exposure
              b.solvent).1
            b.gross,
        b.covered,
        cleared b.unwarned,
      ),
    )

-- A sell is allowed exactly when equity and order budget are left, the symbol is held in a positive
-- quantity, and no more than that is sold.
pub check_order-sell :
    (m : RiskManager) (now : ℕ) (intent : OrderIntent) (snapshot : AccountSnapshot)
    (price : Option Decimal) (s : Store)
    → intent.side ≡ sell
    → ((check_order m now intent snapshot price s).0 ≡ allow)
      ↔ (nat 0 <ᵈ equity_krw snapshot)
        × (orders_today m now s < m.settings.max_orders_per_day)
        × ((pos : Position) × (lookup intent.symbol snapshot.positions ≡ some pos)
            × (nat 0 <ᵈ pos.quantity)
            × (or_zero intent.quantity ≤ᵈ pos.quantity))
unfolding check_order check_sell remaining_order_budget
check_order-sell m now intent snapshot price s side =
    elim (Option-cases (lookup intent.symbol snapshot.positions)) [
      | inl missing ↦ (λ h. ground arith, λ h. ground arith)
      | inr (pos, found) ↦ (
        λ h. (ground arith, ground arith, (pos, found, ground arith, ground arith)),
        λ h. ground arith,
      )
    ]
