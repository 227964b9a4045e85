-- ===== src/Paper/Sized.antt =====
-- Where the price, the rate and the quantity of a paper order come from.
use toss_api_quant_trading.Prelude.{
  ◌≡◌, Bool-cases, Option, String, some, inl, Option-cases, inr, false, arith, true, none, refl,
  sym,
}
use toss_api_quant_trading.Universe.{Side, Country, sell, country_of, kr, buy, us}
use toss_api_quant_trading.Paper.Account.{current_fx, Market, execution_price, truthy, best}
use toss_api_quant_trading.Paper.{then_trim, rate_for}
use toss_api_quant_trading.Store.{Store}
use toss_api_quant_trading.Paper.Fill.{
  Sizing, positive_size, trim, size_of, refused, size, held_quantity,
}
use toss_api_quant_trading.Broker.{OrderIntent, Position}
use toss_api_quant_trading.Decimal.{Decimal, nat, le, ◌<ᵈ◌, dmin, ◌≤ᵈ◌, ◌⊘◌, is_zero, truncate, lt}
use mathlib.Core.Path.{subst}

-- What a quote gives for a side: the best of the book, if it is given and not zero, or else the last
-- price.
pub data Quoted (mk : Market) (symbol : String) : Side → Decimal → Type 0 where
  at_ask :
      (px : Decimal) (bid : Option Decimal)
      → mk.book symbol ≡ some (some px, bid)
      → is_zero px ≡ false
      → Quoted mk symbol buy px
  at_bid :
      (px : Decimal) (ask : Option Decimal)
      → mk.book symbol ≡ some (ask, some px)
      → is_zero px ≡ false
      → Quoted mk symbol sell px
  at_last :
      (side : Side) (px : Decimal)
      → truthy (best side (mk.book symbol)) ≡ false
      → mk.last symbol ≡ some px
      → Quoted mk symbol side px

-- The rate of a market: one for KRW, and for USD the quoted one, the last known one, or 1400.
pub data PaidAt (mk : Market) (s : Store) : Country → Decimal → Type 0 where
  in_won : PaidAt mk s kr (nat 1)
  as_quoted : (rate : Decimal) → mk.usd_krw ≡ some rate → PaidAt mk s us rate
  as_remembered :
      (rate : Decimal) → mk.usd_krw ≡ none → s.last_usd_krw ≡ some rate → PaidAt mk s us rate
  at_first : mk.usd_krw ≡ none → s.last_usd_krw ≡ none → PaidAt mk s us (nat 1400)

-- What an intent asks for at a price: its quantity, or else its amount in shares, whole on KRX.
pub data Asks (intent : OrderIntent) (px : Decimal) : Country → Decimal → Type 0 where
  whole_quantity : (q : Decimal) → intent.quantity ≡ some q → Asks intent px kr (truncate q)
  any_quantity : (q : Decimal) → intent.quantity ≡ some q → Asks intent px us q
  whole_amount :
      (a : Decimal)
      → intent.quantity ≡ none
      → intent.order_amount ≡ some a
      → Asks intent px kr (truncate (a ⊘ px))
  any_amount :
      (a : Decimal)
      → intent.quantity ≡ none
      → intent.order_amount ≡ some a
      → Asks intent px us (a ⊘ px)

-- What is traded of it: all for a buy, and for a sell no more than is held.
pub data Trades (held asked : Decimal) : Side → Decimal → Type 0 where
  buys_all : Trades held asked buy asked
  sells_all : asked ≤ᵈ held → Trades held asked sell asked
  sells_held : held ≤ᵈ asked → Trades held asked sell held

-- A sizing that may be executed: positive, a sell within the holding, and as the intent asks.
abbrev pub GoodSize : OrderIntent → Decimal → Option Position → Sizing → Type 0
GoodSize intent px held (refused e) = Unit
GoodSize intent px held (size q) =
    (nat 0 <ᵈ q)
    × (intent.side ≡ sell → q ≤ᵈ held_quantity held)
    × ((asked : Decimal) × Asks intent px (country_of intent.symbol) asked
        × Trades (held_quantity held) asked intent.side q)

-- A sizing of what the intent asks for, before it is trimmed.
abbrev pub AskedSize : OrderIntent → Decimal → Country → Sizing → Type 0
AskedSize intent px country (refused e) = Unit
AskedSize intent px country (size q) = (nat 0 <ᵈ q) × Asks intent px country q

positive_size-AskedSize :
    (intent : OrderIntent) (px : Decimal) (country : Country) (q : Decimal)
    → Asks intent px country q
    → AskedSize intent px country (positive_size q)
unfolding positive_size
positive_size-AskedSize intent px country q a = elim (Bool-cases (le q (nat 0))) [
  | inl e ↦ rw e tt
  | inr e ↦ rw e (ground arith, a)
]

pub size_of-AskedSize :
    (intent : OrderIntent) (q a : Option Decimal) (px : Decimal) (country : Country)
    → intent.quantity ≡ q
    → intent.order_amount ≡ a
    → AskedSize intent px country (size_of q a px country)
unfolding size_of
size_of-AskedSize intent (some q) a px kr e f =
    positive_size-AskedSize intent px kr _ (whole_quantity q e)
size_of-AskedSize intent (some q) a px us e f =
    positive_size-AskedSize intent px us _ (any_quantity q e)
size_of-AskedSize intent none (some a) px kr e f =
    positive_size-AskedSize intent px kr _ (whole_amount a e f)
size_of-AskedSize intent none (some a) px us e f =
    positive_size-AskedSize intent px us _ (any_amount a e f)
size_of-AskedSize intent none none px country e f = tt

sold-Trades : (held q : Decimal) → (dmin q held ≤ᵈ held) × Trades held q sell (dmin q held)
unfolding dmin
sold-Trades held q = elim (Bool-cases (lt held q)) [
  | inl e ↦ rw e (omega arith, sells_held (ground arith))
  | inr e ↦ rw e (ground arith, sells_all (ground arith))
]

trimmed-GoodSize :
    (intent : OrderIntent) (px q : Decimal) (side : Side) (held : Option Position)
    → intent.side ≡ side
    → (nat 0 <ᵈ q) × Asks intent px (country_of intent.symbol) q
    → GoodSize intent px held (trim side held q)
unfolding trim
trimmed-GoodSize intent px q buy held e (p, a) =
    (p, λ k. absurd (cc), (q, a, subst (λ d. Trades (held_quantity held) q d q) (sym e) buys_all))
trimmed-GoodSize intent px q sell held e (p, a) =
    let t = dmin q (held_quantity held) in
    let (low, traded) = sold-Trades (held_quantity held) q in
    elim (Bool-cases (le t (nat 0))) [
      | inl z ↦ rw z tt
      | inr z ↦ rw z (
        ground arith,
        λ k. low,
        (q, a, subst (λ d. Trades (held_quantity held) q d t) (sym e) traded),
      )
    ]

pub then_trim-GoodSize :
    (intent : OrderIntent) (px : Decimal) (sz : Sizing) (held : Option Position)
    → AskedSize intent px (country_of intent.symbol) sz
    → GoodSize intent px held (then_trim sz intent.side held)
then_trim-GoodSize intent px (refused e) held p = tt
then_trim-GoodSize intent px (size q) held p = trimmed-GoodSize intent px q intent.side held refl p

best-Quoted :
    (mk : Market) (symbol : String) (side : Side) (o : Option (Option Decimal × Option Decimal))
    (px : Decimal)
    → mk.book symbol ≡ o
    → best side o ≡ some px
    → truthy (best side o) ≡ true
    → Quoted mk symbol side px
best-Quoted mk symbol side none px e f t = absurd (cc)
best-Quoted mk symbol buy (some (ask, bid)) px e f t =
    at_ask px bid (rw f at e) (ground (arith, rw f at t))
best-Quoted mk symbol sell (some (ask, bid)) px e f t =
    at_bid px ask (rw f at e) (ground (arith, rw f at t))

pub execution_price-Quoted :
    (mk : Market) (symbol : String) (side : Side) (px : Decimal)
    → (execution_price mk symbol side).0 ≡ some px
    → Quoted mk symbol side px
unfolding execution_price
execution_price-Quoted mk symbol side px h =
    elim (Bool-cases (truthy (best side (mk.book symbol)))) [
      | inl e ↦ best-Quoted mk symbol side (mk.book symbol) px refl (rw e at h) e
      | inr e ↦ at_last side px e (rw e at h)
    ]

pub rate_for-rated :
    (c : Country) (mk : Market) (s : Store)
    → (o : Option Decimal) × ((rate_for c mk s).1 ≡ record s { last_usd_krw = o })
      × PaidAt mk s c (rate_for c mk s).0
unfolding current_fx
rate_for-rated kr mk s = (s.last_usd_krw, refl, in_won)
rate_for-rated us mk s = elim (Option-cases mk.usd_krw) [
  | inl e ↦ elim (Option-cases s.last_usd_krw) [
    | inl f ↦ (s.last_usd_krw, rw e refl, simp (e, f) (at_first e f))
    | inr (rate, f) ↦ (s.last_usd_krw, rw e refl, simp (e, f) (as_remembered rate e f))
  ]
  | inr (rate, e) ↦ (some rate, rw e refl, simp e (as_quoted rate e))
]
