-- ===== src/Paper/Audit.antt =====
-- What a submission writes, in figures.
use toss_api_quant_trading.Prelude.Dict.{Dict, lookup, insert, erase}
use toss_api_quant_trading.Prelude.{
  ◌≡◌, ◌⊎◌, String, ℕ, some, none, true, false, arith, inl, inr, refl, ◌++◌, ◌∷◌, [], member,
  Option, ◌∙◌, if◌then◌else◌, Bool-cases, ap,
}
use toss_api_quant_trading.Universe.{Side, buy, sell, country_of, currency_of}
use toss_api_quant_trading.Costs.{TradeCost, cost_of, total}
use toss_api_quant_trading.Broker.{OrderIntent, OrderResult, Position, filled}
use toss_api_quant_trading.Store.{Store, OrderRow, FillRow, paper}
use toss_api_quant_trading.Decimal.{Decimal, nat, le, lt, ◌⊕◌, ◌⊖◌, ◌⊗◌, ◌⊘◌, ◌≤ᵈ◌, ◌<ᵈ◌}
use mathlib.Core.Path.{subst}
use toss_api_quant_trading.Paper.{submit}
use toss_api_quant_trading.Paper.Account.{
  PaperBroker, Market, cash_of, positions, updated, write_position,
}
use toss_api_quant_trading.Paper.Fill.{
  Execution, settle_by, held_quantity, held_price, order_row, fill_row, gross_krw, cost_krw,
  needed_krw, bought,
}
use toss_api_quant_trading.Paper.Booking.{Unchanged, Booked, submit-Booking}
use toss_api_quant_trading.Paper.Sized.{Quoted, PaidAt, Asks, Trades}

-- What was traded, and at what.
pub record Deal : Type 0 where
  pub px : Decimal
  pub fx : Decimal
  pub qty : Decimal
  pub charges : TradeCost
  pub before : Option Position

-- The KRW that change hands, and those that the charges take.
abbrev pub value_krw : Deal → Decimal
value_krw d = d.px ⊗ d.qty ⊗ d.fx

abbrev pub charged_krw : Deal → Decimal
charged_krw d =
    let c = d.charges in (c.commission ⊕ c.tax ⊕ c.regulatory ⊕ c.slippage ⊕ c.fx) ⊗ d.fx

-- A buy is paid with its charges from the cash, which holds that much; a sell brings its value less
-- its charges.
abbrev pub CashMoves : Side → Deal → Store → Store → Type 0
CashMoves buy d s t =
    let paid = value_krw d ⊕ charged_krw d in
    (paid ≤ᵈ cash_of s) × (t.cash ≡ updated s.cash (cash_of s ⊖ paid))
CashMoves sell d s t = t.cash ≡ updated s.cash (cash_of s ⊕ value_krw d ⊖ charged_krw d)

-- A buy adds to the holding and averages its price; a sell takes from it and leaves the price.
abbrev pub moved : Side → Deal → String → Position
moved buy d symbol =
    let all = held_quantity d.before ⊕ d.qty in
    record {
      symbol = symbol;
      quantity = all;
      avg_price = (held_price d.before ⊗ held_quantity d.before ⊕ d.px ⊗ d.qty) ⊘ all;
      currency = currency_of (country_of symbol);
    }
moved sell d symbol = record {
  symbol = symbol;
  quantity = held_quantity d.before ⊖ d.qty;
  avg_price = held_price d.before;
  currency = currency_of (country_of symbol);
}

-- The table of positions has the one that the deal leaves, and none where nothing is left.
abbrev pub Moves : Position → String → Dict Position → Dict Position → Type 0
Moves pos symbol rows rows' =
    rows' ≡ (if le pos.quantity (nat 0) then erase symbol rows else insert symbol pos rows)

-- The order that a deal is recorded as.
pub record Ordered (intent : OrderIntent) (id : String) (now : ℕ) (d : Deal) (row : OrderRow)
    : Type 0 where
  pub order_id : row.order_id ≡ id
  pub broker : row.broker ≡ paper
  pub symbol : row.symbol ≡ intent.symbol
  pub side : row.side ≡ intent.side
  pub quantity : row.quantity ≡ d.qty
  pub filled_quantity : row.filled_quantity ≡ d.qty
  pub avg_fill_price : row.avg_fill_price ≡ some d.px
  pub status : row.status ≡ filled
  pub commission : row.commission ≡ some d.charges.commission
  pub tax : row.tax ≡ some d.charges.tax
  pub submitted_at : row.submitted_at ≡ now

-- The fill that a deal is recorded as.
pub record Filled (intent : OrderIntent) (id : String) (now : ℕ) (d : Deal) (row : FillRow)
    : Type 0 where
  pub order_id : row.order_id ≡ id
  pub broker : row.broker ≡ paper
  pub symbol : row.symbol ≡ intent.symbol
  pub side : row.side ≡ intent.side
  pub quantity : row.quantity ≡ d.qty
  pub price : row.price ≡ d.px
  pub commission : row.commission ≡ d.charges.commission
  pub tax : row.tax ≡ d.charges.tax ⊕ d.charges.regulatory ⊕ d.charges.fx
  pub filled_at : row.filled_at ≡ now

-- One deal of the intent, at the quote, at the market's rate, in the quantity asked for and held, at
-- the charges of the cost model; with its cash, its position, one more order and one more fill.
pub record Dealt (b : PaperBroker) (mk : Market) (intent : OrderIntent) (id : String) (now : ℕ)
    (s : Store) (r : OrderResult) (t : Store) : Type 0 where
  pub deal : Deal
  pub asked : Decimal
  pub order : OrderRow
  pub fill : FillRow
  pub held : deal.before ≡ lookup intent.symbol (positions s.positions)
  pub quoted : Quoted mk intent.symbol intent.side deal.px
  pub priced : nat 0 <ᵈ deal.px
  pub paid_at : PaidAt mk s (country_of intent.symbol) deal.fx
  pub asks : Asks intent deal.px (country_of intent.symbol) asked
  pub trades : Trades (held_quantity deal.before) asked intent.side deal.qty
  pub sized : nat 0 <ᵈ deal.qty
  pub charged :
      deal.charges
      ≡ cost_of b.cost_model intent.side
          (country_of intent.symbol)
          deal.px
          deal.qty
          (member intent.symbol b.etf_symbols)
          false
  pub cash : CashMoves intent.side deal s t
  pub moves : Moves (moved intent.side deal intent.symbol) intent.symbol s.positions t.positions
  pub orders : t.orders ≡ s.orders ++ order ∷ []
  pub ordered : Ordered intent id now deal order
  pub fills : t.fills ≡ s.fills ++ fill ∷ []
  pub filled_as : Filled intent id now deal fill
  pub told : (r.order_id ≡ some id) × (r.filled_quantity ≡ deal.qty) × (r.fill_price ≡ some deal.px)

-- A refused submission, or a deal.
abbrev pub Outcome :
    PaperBroker → Market → OrderIntent → String → ℕ → Store → OrderResult × Store → Type 0
Outcome b mk intent id now s (r, t) =
    ((r.ok ≡ false) × Unchanged s t) ⊎ ((r.ok ≡ true) × Dealt b mk intent id now s r t)

abbrev deal_of : Execution → Deal
deal_of x = record { px = x.px; fx = x.fx; qty = x.qty; charges = x.cost; before = x.held }

-- The cash after a deal, from the cash before it.
abbrev CashAfter : Side → Deal → Decimal → Decimal → Type 0
CashAfter buy d a c = let paid = value_krw d ⊕ charged_krw d in (paid ≤ᵈ a) × (c ≡ a ⊖ paid)
CashAfter sell d a c = c ≡ a ⊕ value_krw d ⊖ charged_krw d

settle_by-parts :
    (side : Side) (x : Execution) (a c : Decimal) (pos : Position)
    → settle_by side x a ≡ some (c, pos)
    → CashAfter side (deal_of x) a c
      × (pos ≡ record (moved side (deal_of x) x.symbol) { currency = currency_of x.country })
unfolding gross_krw cost_krw total
settle_by-parts buy x a c pos h = elim (Bool-cases (lt a (needed_krw x))) [
  | inl e ↦
      let f : ◌≡◌ {A = Option (Decimal × Position)} none (some (c, pos)) = rw e at h in absurd (cc)
  | inr e ↦
      let f : ◌≡◌ {A = Option (Decimal × Position)} (some (a ⊖ needed_krw x, bought x))
          (some (c, pos)) =
        rw e at h in
      ((ground arith, cc), cc)
]
settle_by-parts sell x a c pos h = (cc, cc)

CashMoves-updated :
    (side : Side) (d : Deal) (s t : Store) (c : Decimal)
    → CashAfter side d (cash_of s) c
    → t.cash ≡ updated s.cash c
    → CashMoves side d s t
CashMoves-updated buy d s t c (fits, e) h = (fits, h ∙ ap (updated s.cash) e)
CashMoves-updated sell d s t c e h = h ∙ ap (updated s.cash) e

Dealt-Booked :
    (b : PaperBroker) (mk : Market) (intent : OrderIntent) (id : String) (now : ℕ) (s : Store)
    (r : OrderResult) (t : Store)
    → Booked b mk intent id now s r t
    → Dealt b mk intent id now s r t
unfolding write_position
Dealt-Booked b mk intent id now s r t k =
    let x = k.x in
    let settled : settle_by intent.side x (cash_of s) ≡ some (k.new_cash, k.pos) =
      subst (λ d. settle_by d x (cash_of s) ≡ some (k.new_cash, k.pos)) k.side k.settled in
    let (paid, left) = settle_by-parts intent.side x (cash_of s) k.new_cash k.pos settled in
    let pos : k.pos ≡ moved intent.side (deal_of x) intent.symbol =
      moved-there intent.side x intent.symbol k.pos k.symbol k.country left in
    record {
      deal = deal_of x;
      asked = k.asked;
      order = order_row x intent id now;
      fill = fill_row x intent id now;
      held = k.held;
      quoted = k.quoted;
      priced = k.priced;
      paid_at = k.paid_at;
      asks = k.asks;
      trades = k.trades;
      sized = k.sized;
      charged = k.charged;
      cash = CashMoves-updated intent.side (deal_of x) s t k.new_cash paid k.cash;
      moves =
          k.positions
          ∙ ap (λ p. write_position p s.positions) pos
          ∙ moved-write intent.side (deal_of x) intent.symbol s.positions;
      orders = k.orders;
      ordered = record {
        order_id = refl;
        broker = refl;
        symbol = k.symbol;
        side = k.side;
        quantity = refl;
        filled_quantity = refl;
        avg_fill_price = refl;
        status = refl;
        commission = refl;
        tax = refl;
        submitted_at = refl;
      };
      fills = k.fills;
      filled_as = record {
        order_id = refl;
        broker = refl;
        symbol = k.symbol;
        side = k.side;
        quantity = refl;
        price = refl;
        commission = refl;
        tax = refl;
        filled_at = refl;
      };
      told = (
        ap (λ (q : OrderResult). q.order_id) k.result,
        ap (λ (q : OrderResult). q.filled_quantity) k.result,
        ap (λ (q : OrderResult). q.fill_price) k.result,
      );
    }
  where
    moved-there :
        (side : Side) (x : Execution) (symbol : String) (pos : Position)
        → x.symbol ≡ symbol
        → x.country ≡ country_of symbol
        → pos ≡ record (moved side (deal_of x) x.symbol) { currency = currency_of x.country }
        → pos ≡ moved side (deal_of x) symbol
    moved-there buy x symbol pos e f h = rw (e, f) at h
    moved-there sell x symbol pos e f h = rw (e, f) at h

    moved-write :
        (side : Side) (d : Deal) (symbol : String) (rows : Dict Position)
        → Moves (moved side d symbol) symbol rows (write_position (moved side d symbol) rows)
    moved-write buy d symbol rows = refl
    moved-write sell d symbol rows = refl

-- Every submission either is refused and leaves cash, positions, orders, fills and equity marks as
-- they were, or is one deal. Its price is the side's best quote or else the last price, its rate that
-- of the market, its quantity what the intent asks for, whole on KRX and for a sell at most what is
-- held, and its charges those of the cost model. A buy needs the cash and takes value and charges
-- from it, a sell adds its value less the charges; the position is written with its new quantity and
-- price, or deleted at zero; and exactly one order and one fill with these figures are added.
pub submit-Outcome :
    (b : PaperBroker) (mk : Market) (intent : OrderIntent) (id : String) (now : ℕ) (s : Store)
    → Outcome b mk intent id now s (submit b mk intent id now s)
submit-Outcome b mk intent id now s = elim (submit-Booking b mk intent id now s) [
  | inl (bad, u) ↦ inl (bad, u)
  | inr (ok, k) ↦ inr (
    ok,
    Dealt-Booked b mk intent id now s (submit b mk intent id now s).0
        (submit b mk intent id now s).1 k,
  )
]
