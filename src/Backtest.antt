-- ===== src/Backtest.antt =====
-- src/tqt/backtest/engine.py: one rebalance of the backtester. A row of prices
-- has one entry per symbol, and none where the frame has NaN. The texts of reasons are left out.
pub mod Config
pub mod Run
pub mod Cash
pub mod Solvent
pub mod Causal
pub mod Frames
pub mod Blind
mod Tests
use toss_api_quant_trading.Backtest.Config.{
  Fill, BacktestConfig, fractional, dust_threshold, charges_fx,
}
use toss_api_quant_trading.Costs.{
  CostModel, no_cost, TradeCost, total, cost_of, commission_rate, slippage_rate, add_cost,
}
use toss_api_quant_trading.Universe.{Country, Side, kr, buy, us, sell}
use toss_api_quant_trading.Prelude.Dict.{Dict, get_or, insert, lookup}
use toss_api_quant_trading.Prelude.{
  Bool, ℕ, Option, if◌then◌else◌, true, List, String, ◌&&◌, some, [], none, false, ◌∷◌, ◌||◌, ◌++◌,
  member,
}
use toss_api_quant_trading.Decimal.{
  Decimal, lt, nat, truncate, ◌⊗◌, ◌⊖◌, is_zero, ◌⊕◌, le, dmin, ◌⊘◌, abs,
}

-- `_equity`: holdings that have no price do not count.
abbrev pub plus_value : Option Decimal → Decimal → Decimal → Decimal
plus_value none qty total = total
plus_value (some px) qty total = total ⊕ px ⊗ qty

unfoldable pub book_equity : Dict Decimal → Dict Decimal → Decimal → Decimal
book_equity prices [] total = total
book_equity prices ((sym, qty) ∷ rest) total =
    book_equity prices rest (plus_value (lookup sym prices) qty total)

-- A price to trade at.
abbrev pub positive_price : Option Decimal → Option Decimal
positive_price none = none
positive_price (some px) = if lt (nat 0) px then some px else none

abbrev pub shares : Bool → Decimal → Decimal
shares true qty = qty
shares false qty = truncate qty

abbrev pub wanted_at : Bool → Decimal → Decimal → Option Decimal → Decimal
wanted_at frac_ok equity weight none = nat 0
wanted_at frac_ok equity weight (some px) =
    if le weight (nat 0) then nat 0 else shares frac_ok (equity ⊗ weight ⊘ px)

-- The loop over the targets.
unfoldable pub desired_of : Bool → Decimal → Dict Decimal → Dict Decimal → Dict Decimal
desired_of frac_ok equity prices [] = []
desired_of frac_ok equity prices ((sym, w) ∷ rest) =
    (sym, wanted_at frac_ok equity w (positive_price (lookup sym prices)))
    ∷ desired_of frac_ok equity prices rest

abbrev pub set_default : Option Decimal → String → Dict Decimal → Dict Decimal
set_default none sym d = insert sym (nat 0) d
set_default (some _) sym d = d

-- What is held and not targeted is to be sold.
unfoldable pub liquidate : Dict Decimal → Dict Decimal → Dict Decimal
liquidate [] d = d
liquidate ((sym, _) ∷ rest) d = liquidate rest (set_default (lookup sym d) sym d)

-- The stable sort by the change of the holding.
abbrev pub change : Dict Decimal → String × Decimal → Decimal
change positions (sym, want) = want ⊖ get_or sym (nat 0) positions

unfoldable pub insert_change :
    Dict Decimal → String × Decimal → List (String × Decimal) → List (String × Decimal)
insert_change positions x [] = x ∷ []
insert_change positions x (y ∷ ys) =
    if le (change positions x) (change positions y)
    then x ∷ y ∷ ys
    else y ∷ insert_change positions x ys

unfoldable pub sort_changes : Dict Decimal → List (String × Decimal) → List (String × Decimal)
sort_changes positions [] = []
sort_changes positions (x ∷ xs) = insert_change positions x (sort_changes positions xs)

-- What the loop over the orders changes.
pub record Book : Type 0 where
  pub cash : Decimal
  pub holdings : Dict Decimal
  pub fills : List Fill
  pub batch_cost : TradeCost
  pub traded : Decimal

module _ (cfg : BacktestConfig) (date : ℕ) where
  abbrev pub charge : Side → Decimal → Decimal → String → TradeCost
  charge side px qty sym =
      cost_of cfg.cost_model side cfg.country px qty (member sym cfg.etf_symbols) false

  abbrev pub slipped : Side → Decimal → Decimal
  slipped buy px = px ⊗ (nat 1 ⊕ slippage_rate cfg.cost_model cfg.country)
  slipped sell px = px ⊗ (nat 1 ⊖ slippage_rate cfg.cost_model cfg.country)

  -- The fill, with the cash and the holding that it leaves.
  unfoldable pub filled_at : Side → String → Decimal → Decimal → Decimal → Decimal → Book → Book
  filled_at side sym px qty cash holding b = record {
    cash = cash;
    holdings = insert sym holding b.holdings;
    fills =
        b.fills
        ++ record {
          date = date;
          symbol = sym;
          side = side;
          quantity = qty;
          price = px;
          cost = charge side px qty sym;
        }
          ∷ [];
    batch_cost = add_cost b.batch_cost (charge side px qty sym);
    traded = b.traded ⊕ px ⊗ qty;
  }

  unfoldable pub buy_fill : String → Decimal → Decimal → Decimal → Book → Book
  buy_fill sym px qty have b =
      filled_at buy sym px qty (b.cash ⊖ (px ⊗ qty ⊕ total (charge buy px qty sym))) (have ⊕ qty) b

  -- The price that a scaled-down buy reckons with.
  unfoldable pub affordable_px : Decimal → Decimal
  affordable_px px =
      let a = px ⊗ (nat 1 ⊕ commission_rate cfg.cost_model cfg.country) in
      if charges_fx cfg then a ⊗ (nat 1 ⊕ cfg.cost_model.fx_spread_rate) else a

  unfoldable pub affordable_qty : Decimal → Decimal → Decimal
  affordable_qty px cash =
      let a = affordable_px px in shares (fractional cfg) (if lt (nat 0) a then cash ⊘ a else nat 0)

  unfoldable pub scaled_buy : String → Decimal → Decimal → Decimal → Book → Book
  scaled_buy sym px qty have b =
      if le qty (nat 0)
      then b
      else if lt (px ⊗ qty) (dust_threshold cfg)
      then b
      else buy_fill sym px qty have b

  unfoldable pub buy_order : String → Decimal → Decimal → Decimal → Book → Book
  buy_order sym px qty have b =
      if lt b.cash (px ⊗ qty ⊕ total (charge buy px qty sym))
      then scaled_buy sym px (affordable_qty px b.cash) have b
      else buy_fill sym px qty have b

  unfoldable pub sell_order : String → Decimal → Decimal → Decimal → Book → Book
  sell_order sym px qty have b =
      let sold = dmin qty have in
      if le sold (nat 0)
      then b
      else filled_at sell sym px sold (b.cash ⊕ (px ⊗ sold ⊖ total (charge sell px sold sym)))
          (have ⊖ sold) b

  abbrev pub trade : Side → String → Decimal → Decimal → Decimal → Book → Book
  trade buy sym px qty have b = buy_order sym px qty have b
  trade sell sym px qty have b = sell_order sym px qty have b

  abbrev pub side_of : Decimal → Side
  side_of delta = if lt (nat 0) delta then buy else sell

  -- A change too small to be worth its costs.
  unfoldable pub is_sliver : Decimal → Decimal → Decimal → Bool
  is_sliver equity notional have =
      lt notional (dust_threshold cfg)
      || lt (nat 0) equity && lt (notional ⊘ equity) cfg.rebalance_band && lt (nat 0) have

  unfoldable pub trade_at : Decimal → String → Decimal → Decimal → Option Decimal → Book → Book
  trade_at equity sym delta have none b = b
  trade_at equity sym delta have (some ref_px) b =
      let side = side_of delta in
      if is_zero delta
      then b
      else if is_sliver equity (ref_px ⊗ abs delta) have
      then b
      else trade side sym (slipped side ref_px) (abs delta) have b

  -- The body of the loop.
  unfoldable pub rebalance_one : Decimal → Dict Decimal → String × Decimal → Book → Book
  rebalance_one equity prices (sym, want) b =
      let have = get_or sym (nat 0) b.holdings in
      trade_at equity sym (want ⊖ have) have (positive_price (lookup sym prices)) b

  unfoldable pub rebalance_all : Decimal → Dict Decimal → List (String × Decimal) → Book → Book
  rebalance_all equity prices [] b = b
  rebalance_all equity prices (x ∷ xs) b =
      rebalance_all equity prices xs (rebalance_one equity prices x b)

-- Sold-out holdings are dropped.
unfoldable pub drop_empty : Dict Decimal → Dict Decimal
drop_empty [] = []
drop_empty ((sym, qty) ∷ rest) =
    if lt (nat 0) qty then (sym, qty) ∷ drop_empty rest else drop_empty rest

abbrev pub open_book : Decimal → Dict Decimal → Book
open_book cash holdings = record {
  cash = cash;
  holdings = holdings;
  fills = [];
  batch_cost = no_cost;
  traded = nat 0;
}

-- `_rebalance`
unfoldable pub rebalance_book :
    BacktestConfig → ℕ → Dict Decimal → Dict Decimal → Decimal → Decimal → Dict Decimal → Book
rebalance_book cfg date targets prices equity cash holdings =
    let wanted = liquidate holdings (desired_of (fractional cfg) equity prices targets) in
    let b =
      rebalance_all cfg date equity prices (sort_changes holdings wanted)
        (open_book cash holdings) in
    record b { holdings = drop_empty b.holdings }
