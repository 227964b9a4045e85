-- ===== src/Paper/Cash.antt =====
-- The cash of the paper account.
use toss_api_quant_trading.Decimal.Field.{⊖_nonneg}
use toss_api_quant_trading.Paper.Booking.{submit-Booking}
use toss_api_quant_trading.Paper.{submit}
use toss_api_quant_trading.Universe.{buy}
use toss_api_quant_trading.Prelude.{◌≡◌, String, ◌⊎◌, ℕ, some, arith, inl, inr, ◌∙◌}
use toss_api_quant_trading.Broker.{Position, OrderIntent}
use toss_api_quant_trading.Store.{Store}
use toss_api_quant_trading.Paper.Fill.{Execution, settle_by, needed_krw}
use toss_api_quant_trading.Paper.Account.{PaperBroker, cash_of, Market, updated}
use toss_api_quant_trading.Decimal.{Decimal, nat, ◌≤ᵈ◌, ◌⊖◌}

updated_cash :
    (s t : Store) (c : Decimal) → t.cash ≡ updated s.cash c → (cash_of t ≡ c) ⊎ (cash_of t ≡ nat 0)
unfolding cash_of
updated_cash s t c e = ground arith

settle-buy :
    (x : Execution) (a c : Decimal) (pos : Position)
    → x.side ≡ buy
    → settle_by x.side x a ≡ some (c, pos)
    → (needed_krw x ≤ᵈ a) × (c ≡ a ⊖ needed_krw x)
settle-buy x a c pos b e = ground arith

-- From cash that is not negative, a submitted buy, filled or refused, never leaves the paper account
-- with negative cash.
pub submit-buy_solvent :
    (b : PaperBroker) (mk : Market) (intent : OrderIntent) (id : String) (now : ℕ) (s : Store)
    → intent.side ≡ buy
    → nat 0 ≤ᵈ cash_of s
    → nat 0 ≤ᵈ cash_of (submit b mk intent id now s).1
submit-buy_solvent b mk intent id now s side h = elim (submit-Booking b mk intent id now s) [
  | inl (bad, u) ↦ unfold cash_of in rw u.cash h
  | inr (ok, k) ↦
      let (fits, left) = settle-buy k.x (cash_of s) k.new_cash k.pos (k.side ∙ side) k.settled in
      elim (updated_cash s (submit b mk intent id now s).1 k.new_cash k.cash) [
        | inl e ↦ rw (e, left) (⊖_nonneg (cash_of s) (needed_krw k.x) fits)
        | inr e ↦ rw e (omega arith)
      ]
]
