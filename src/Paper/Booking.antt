-- ===== src/Paper/Booking.antt =====
-- What one submission does to the ledger: nothing, or one booked execution.
use toss_api_quant_trading.Prelude.Dict.{lookup}
use toss_api_quant_trading.Prelude.{
  ◌≡◌, Bool-cases, Option, String, some, ℕ, inl, inr, false, arith, ◌⊎◌, true, none, ◌++◌, ◌∷◌, [],
  refl, member,
}
use toss_api_quant_trading.Universe.{sell, country_of}
use toss_api_quant_trading.Paper.Account.{
  PaperBroker, Market, set_cash, cash_of, positions, updated, write_position, execution_price,
}
use toss_api_quant_trading.Paper.{submit, submit_at, with_price}
use toss_api_quant_trading.Store.{Store}
use toss_api_quant_trading.Paper.Fill.{
  Sizing, refused, resolve_quantity, size, execute, finish, Execution, settle, book, held_quantity,
  settle_by, filled_result, order_row, fill_row,
}
use toss_api_quant_trading.Broker.{
  OrderIntent, Position, SubmitError, no_market_price, OrderResult, refusal,
}
use toss_api_quant_trading.Decimal.{Decimal, nat, le, ◌<ᵈ◌, ◌≤ᵈ◌}
use toss_api_quant_trading.Costs.{cost_of}
use toss_api_quant_trading.Paper.Sized.{
  Quoted, PaidAt, Asks, Trades, GoodSize, size_of-AskedSize, then_trim-GoodSize,
  execution_price-Quoted, rate_for-rated,
}

-- The ledger's tables are those of `s`.
pub record Unchanged (s t : Store) : Type 0 where
  pub cash : t.cash ≡ s.cash
  pub positions : t.positions ≡ s.positions
  pub orders : t.orders ≡ s.orders
  pub fills : t.fills ≡ s.fills
  pub equity : t.equity ≡ s.equity

-- One execution of the intent was settled against the ledger `s`, and `t` has its cash, its
-- position, exactly one more order and exactly one more fill, all of the same execution.
pub record Booked (b : PaperBroker) (mk : Market) (intent : OrderIntent) (id : String) (now : ℕ)
    (s : Store) (r : OrderResult) (t : Store) : Type 0 where
  pub x : Execution
  pub new_cash : Decimal
  pub pos : Position
  pub symbol : x.symbol ≡ intent.symbol
  pub side : x.side ≡ intent.side
  pub held : x.held ≡ lookup intent.symbol (positions s.positions)
  pub country : x.country ≡ country_of intent.symbol
  pub quoted : Quoted mk intent.symbol intent.side x.px
  pub paid_at : PaidAt mk s (country_of intent.symbol) x.fx
  pub asked : Decimal
  pub asks : Asks intent x.px (country_of intent.symbol) asked
  pub trades : Trades (held_quantity x.held) asked intent.side x.qty
  pub charged :
      x.cost
      ≡ cost_of b.cost_model intent.side
          (country_of intent.symbol)
          x.px
          x.qty
          (member intent.symbol b.etf_symbols)
          false
  pub priced : nat 0 <ᵈ x.px
  pub sized : nat 0 <ᵈ x.qty
  pub covered : intent.side ≡ sell → x.qty ≤ᵈ held_quantity x.held
  pub settled : settle_by x.side x (cash_of s) ≡ some (new_cash, pos)
  pub result : r ≡ filled_result x id
  pub cash : t.cash ≡ updated s.cash new_cash
  pub positions : t.positions ≡ write_position pos s.positions
  pub orders : t.orders ≡ s.orders ++ order_row x intent id now ∷ []
  pub fills : t.fills ≡ s.fills ++ fill_row x intent id now ∷ []

-- A refused submission, or a booked one.
abbrev pub Booking :
    PaperBroker → Market → OrderIntent → String → ℕ → Store → OrderResult × Store → Type 0
Booking b mk intent id now s (r, t) =
    ((r.ok ≡ false) × Unchanged s t) ⊎ ((r.ok ≡ true) × Booked b mk intent id now s r t)

-- Where an execution comes from.
pub record Origin (b : PaperBroker) (mk : Market) (intent : OrderIntent) (s : Store) (x : Execution)
    : Type 0 where
  pub symbol : x.symbol ≡ intent.symbol
  pub side : x.side ≡ intent.side
  pub country : x.country ≡ country_of intent.symbol
  pub held : x.held ≡ lookup intent.symbol (positions s.positions)
  pub quoted : Quoted mk intent.symbol intent.side x.px
  pub paid_at : PaidAt mk s (country_of intent.symbol) x.fx
  pub sized : GoodSize intent x.px x.held (size x.qty)
  pub priced : nat 0 <ᵈ x.px
  pub charged :
      x.cost
      ≡ cost_of b.cost_model intent.side
          (country_of intent.symbol)
          x.px
          x.qty
          (member intent.symbol b.etf_symbols)
          false

module _ (b : PaperBroker) (mk : Market) (intent : OrderIntent) (id : String) (now : ℕ) (s : Store)
    (o : Option Decimal) where
  -- The store after the exchange rate was asked for.
  abbrev rated : Store
  rated = record s { last_usd_krw = o }

  refused-Booking :
      (e : SubmitError) → Booking b mk intent id now s (refusal intent.symbol intent.side e, rated)
  refused-Booking e =
      inl
        (refl, record { cash = refl; positions = refl; orders = refl; fills = refl; equity = refl })

  finish-Booking :
      (x : Execution) (r : Option (Decimal × Position))
      → settle_by x.side x (cash_of rated) ≡ r
      → Origin b mk intent s x
      → Booking b mk intent id now s (finish x intent id now r rated)
  unfolding finish book set_cash cash_of
  finish-Booking x none e o =
      inl
        (refl, record { cash = refl; positions = refl; orders = refl; fills = refl; equity = refl })
  finish-Booking x (some (new_cash, pos)) e o =
      let (positive, covered, (asked, asks, trades)) = o.sized in
      inr (
        refl,
        record {
          x = x;
          new_cash = new_cash;
          pos = pos;
          symbol = o.symbol;
          side = o.side;
          held = o.held;
          country = o.country;
          quoted = o.quoted;
          paid_at = o.paid_at;
          asked = asked;
          asks = asks;
          trades = trades;
          charged = o.charged;
          priced = o.priced;
          sized = positive;
          covered = covered;
          settled = e;
          result = refl;
          cash = refl;
          positions = refl;
          orders = refl;
          fills = refl;
        },
      )

  execute-Booking :
      (px fx : Decimal) (held : Option Position) (sz : Sizing)
      → held ≡ lookup intent.symbol (positions s.positions)
      → Quoted mk intent.symbol intent.side px
      → PaidAt mk s (country_of intent.symbol) fx
      → nat 0 <ᵈ px
      → GoodSize intent px held sz
      → Booking b mk intent id now s (execute b intent id now px fx held sz rated)
  unfolding execute settle
  execute-Booking px fx held (refused e) h quoted paid p g = refused-Booking e
  execute-Booking px fx held (size q) h quoted paid p g = finish-Booking _ _ refl (record {
    symbol = refl;
    side = refl;
    country = refl;
    held = h;
    quoted = quoted;
    paid_at = paid;
    sized = g;
    priced = p;
    charged = refl;
  })

submit_at-Booking :
    (b : PaperBroker) (mk : Market) (intent : OrderIntent) (id : String) (now : ℕ) (px : Decimal)
    (s : Store)
    → Quoted mk intent.symbol intent.side px
    → Booking b mk intent id now s (submit_at b mk intent id now px s)
unfolding submit_at resolve_quantity
submit_at-Booking b mk intent id now px s quoted = elim (Bool-cases (le px (nat 0))) [
  | inl e ↦ rw e (refused-Booking b mk intent id now s s.last_usd_krw no_market_price)
  | inr e ↦
      let country = country_of intent.symbol in
      let (o, q, paid) = rate_for-rated country mk s in
      rw (e, q)
        (execute-Booking b mk intent id now s o px _ _ _ refl quoted paid (ground arith) (
          then_trim-GoodSize intent px _ _
            (size_of-AskedSize intent intent.quantity intent.order_amount px country refl refl)))
]

with_price-Booking :
    (b : PaperBroker) (mk : Market) (intent : OrderIntent) (id : String) (now : ℕ)
    (p : Option Decimal) (s : Store)
    → (execution_price mk intent.symbol intent.side).0 ≡ p
    → Booking b mk intent id now s (with_price b mk intent id now p s)
unfolding with_price
with_price-Booking b mk intent id now none s e =
    refused-Booking b mk intent id now s s.last_usd_krw no_market_price
with_price-Booking b mk intent id now (some px) s e =
    submit_at-Booking b mk intent id now px s
      (execution_price-Quoted mk intent.symbol intent.side px e)

-- Every submission either is refused and leaves cash, positions, orders, fills and equity marks as
-- they were, or books one execution of the intent.
pub submit-Booking :
    (b : PaperBroker) (mk : Market) (intent : OrderIntent) (id : String) (now : ℕ) (s : Store)
    → Booking b mk intent id now s (submit b mk intent id now s)
unfolding submit
submit-Booking b mk intent id now s = with_price-Booking b mk intent id now _ s refl
