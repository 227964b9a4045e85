-- ===== src/Backtest/Solvent.antt =====
-- The cash through a rebalance of the backtest.
use toss_api_quant_trading.Backtest.Cash.{one_plus_nonneg, le-cases, lt-cases, affordable}
use toss_api_quant_trading.Decimal.Field.{⊖_nonneg, ⊗_nonneg, ⊕_nonneg}
use toss_api_quant_trading.Universe.{Side, sell, buy}
use toss_api_quant_trading.Costs.{slippage_rate, total, cost_of}
use toss_api_quant_trading.Prelude.Dict.{Dict, get_or, lookup}
use toss_api_quant_trading.Prelude.{
  [], ◌∷◌, ℕ, String, List, Option, some, Bool-cases, inl, member, false, arith, inr, none,
}
use toss_api_quant_trading.Costs.Laws.{HasRates, slippage_rate_nonneg}
use toss_api_quant_trading.Decimal.{Decimal, ◌≤ᵈ◌, nat, ◌⊖◌, ◌⊗◌, dmin, ◌⊕◌, is_zero, lt, abs}
use toss_api_quant_trading.Backtest.Config.{BacktestConfig, fractional, dust_threshold}
use toss_api_quant_trading.Backtest.{
  rebalance_book, sell_order, scaled_buy, rebalance_all, buy_order, trade_at, rebalance_one,
  buy_fill, filled_at, slipped, sort_changes, Book, liquidate, trade, affordable_qty, desired_of,
  positive_price, charge, open_book, is_sliver, side_of,
}

-- What the rates of a configuration have to be: none negative, a slippage of at most one, and fees
-- of a sale that are within its proceeds.
pub record IsFair (cfg : BacktestConfig) : Type 0 where
  pub rates : HasRates cfg.cost_model
  pub slip : slippage_rate cfg.cost_model cfg.country ≤ᵈ nat 1
  pub sale :
      (px qty : Decimal) (sym : String)
      → nat 0 ≤ᵈ px
      → nat 0 ≤ᵈ qty
      → total (cost_of cfg.cost_model sell cfg.country px qty (member sym cfg.etf_symbols) false)
        ≤ᵈ px ⊗ qty

one_less_nonneg : (c : Decimal) → c ≤ᵈ nat 1 → nat 0 ≤ᵈ nat 1 ⊖ c
one_less_nonneg c h = ⊖_nonneg (nat 1) c h

module _ (cfg : BacktestConfig) (date : ℕ) (fair : IsFair cfg) where
  slipped_nonneg : (side : Side) (px : Decimal) → nat 0 ≤ᵈ px → nat 0 ≤ᵈ slipped cfg date side px
  slipped_nonneg buy px h = ⊗_nonneg px _ h (
      one_plus_nonneg (slippage_rate cfg.cost_model cfg.country)
        (slippage_rate_nonneg cfg.cost_model cfg.country fair.rates))
  slipped_nonneg sell px h =
      ⊗_nonneg px _ h (one_less_nonneg (slippage_rate cfg.cost_model cfg.country) fair.slip)

  scaled_buy-cash :
      (sym : String) (px have : Decimal) (b : Book)
      → nat 0 ≤ᵈ px
      → nat 0 ≤ᵈ b.cash
      → nat 0 ≤ᵈ (scaled_buy cfg date sym px (affordable_qty cfg date px b.cash) have b).cash
  unfolding scaled_buy buy_fill filled_at
  scaled_buy-cash sym px have b h k =
      let q = affordable_qty cfg date px b.cash in
      elim (le-cases q (nat 0)) [
        | inl (e, p) ↦ rw e k
        | inr (e, p) ↦ elim (Bool-cases (lt (px ⊗ q) (dust_threshold cfg))) [
          | inl d ↦ rw (e, d) k
          | inr d ↦
              rw (e, d)
                (⊖_nonneg b.cash (px ⊗ q ⊕ total (charge cfg date buy px q sym))
                  (affordable cfg date px b.cash sym fair.rates h p))
        ]
      ]

  buy_order-cash :
      (sym : String) (px qty have : Decimal) (b : Book)
      → nat 0 ≤ᵈ px
      → nat 0 ≤ᵈ b.cash
      → nat 0 ≤ᵈ (buy_order cfg date sym px qty have b).cash
  unfolding buy_order buy_fill filled_at
  buy_order-cash sym px qty have b h k =
      let due = px ⊗ qty ⊕ total (charge cfg date buy px qty sym) in
      elim (lt-cases b.cash due) [
        | inl (e, p) ↦ rw e (scaled_buy-cash sym px have b h k)
        | inr (e, p) ↦ rw e (⊖_nonneg b.cash due p)
      ]

  sell_order-cash :
      (sym : String) (px qty have : Decimal) (b : Book)
      → nat 0 ≤ᵈ px
      → nat 0 ≤ᵈ b.cash
      → nat 0 ≤ᵈ (sell_order cfg date sym px qty have b).cash
  unfolding sell_order filled_at
  sell_order-cash sym px qty have b h k =
      let sold = dmin qty have in
      let fee = total (charge cfg date sell px sold sym) in
      elim (le-cases sold (nat 0)) [
        | inl (e, p) ↦ rw e k
        | inr (e, p) ↦ rw e (
            ⊕_nonneg b.cash (px ⊗ sold ⊖ fee) k
              (⊖_nonneg (px ⊗ sold) fee (fair.sale px sold sym h (omega arith))))
      ]

  trade-cash :
      (side : Side) (sym : String) (px qty have : Decimal) (b : Book)
      → nat 0 ≤ᵈ px
      → nat 0 ≤ᵈ b.cash
      → nat 0 ≤ᵈ (trade cfg date side sym px qty have b).cash
  trade-cash buy sym px qty have b h k = buy_order-cash sym px qty have b h k
  trade-cash sell sym px qty have b h k = sell_order-cash sym px qty have b h k

  trade_at-cash :
      (equity : Decimal) (sym : String) (delta have px : Decimal) (b : Book)
      → nat 0 ≤ᵈ px
      → nat 0 ≤ᵈ b.cash
      → nat 0 ≤ᵈ (trade_at cfg date equity sym delta have (some px) b).cash
  unfolding trade_at
  trade_at-cash equity sym delta have px b h k = elim (Bool-cases (is_zero delta)) [
    | inl e ↦ rw e k
    | inr e ↦ elim (Bool-cases (is_sliver cfg date equity (px ⊗ abs delta) have)) [
      | inl d ↦ rw (e, d) k
      | inr d ↦
          rw (e, d)
            (trade-cash (side_of cfg date delta) sym (slipped cfg date (side_of cfg date delta) px)
              (abs delta) have b (slipped_nonneg (side_of cfg date delta) px h) k)
    ]
  ]

  at_positive :
      (equity : Decimal) (sym : String) (delta have : Decimal) (px : Option Decimal) (b : Book)
      → nat 0 ≤ᵈ b.cash
      → nat 0 ≤ᵈ (trade_at cfg date equity sym delta have (positive_price px) b).cash
  unfolding trade_at
  at_positive equity sym delta have none b k = k
  at_positive equity sym delta have (some px) b k = elim (lt-cases (nat 0) px) [
    | inl (e, p) ↦ rw e (trade_at-cash equity sym delta have px b (omega arith) k)
    | inr (e, p) ↦ rw e k
  ]

  rebalance_all-cash :
      (equity : Decimal) (prices : Dict Decimal) (xs : List (String × Decimal)) (b : Book)
      → nat 0 ≤ᵈ b.cash
      → nat 0 ≤ᵈ (rebalance_all cfg date equity prices xs b).cash
  unfolding rebalance_all rebalance_one
  rebalance_all-cash equity prices [] b k = k
  rebalance_all-cash equity prices ((sym, want) ∷ xs) b k =
      let have = get_or sym (nat 0) b.holdings in
      rebalance_all-cash equity prices xs (rebalance_one cfg date equity prices (sym, want) b)
        (at_positive equity sym (want ⊖ have) have (lookup sym prices) b k)

-- Where no rate is negative, the slippage rate is at most one and the fees of a sale are within its
-- proceeds, a rebalance that starts with cash of zero or more ends with cash of zero or more, for
-- any targets, prices, equity and holdings.
pub rebalance_book-solvent :
    (cfg : BacktestConfig) (date : ℕ) (targets prices : Dict Decimal) (equity cash : Decimal)
    (holdings : Dict Decimal)
    → IsFair cfg
    → nat 0 ≤ᵈ cash
    → nat 0 ≤ᵈ (rebalance_book cfg date targets prices equity cash holdings).cash
unfolding rebalance_book
rebalance_book-solvent cfg date targets prices equity cash holdings fair h =
    rebalance_all-cash cfg date fair equity prices
      (sort_changes holdings
        (liquidate holdings (desired_of (fractional cfg) equity prices targets)))
      (open_book cash holdings) h
