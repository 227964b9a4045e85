-- ===== src/Paper/Holdings.antt =====
-- What the positions table of the paper broker holds.

use toss_api_quant_trading.Prelude.{
  ℕ, ◌≡◌, refl, sym, ap, ◌+◌, ◌*◌, ◌∙◌, Option, none, some, [], ◌∷◌, String, arith, Bool-cases, inl,
  inr,
}
use toss_api_quant_trading.Prelude.Dict.{
  Dict, lookup, AllEntries, insert-AllEntries, erase-AllEntries, lookup-AllEntries,
}
use toss_api_quant_trading.Decimal.{Decimal, nat, ◌⊕◌, ◌⊖◌, ◌⊘◌, ◌<ᵈ◌, le, lt, dmin, truncate}
use toss_api_quant_trading.Universe.{Country, kr, us, Side, buy, sell, country_of}
use toss_api_quant_trading.Broker.{Position, OrderIntent}
use toss_api_quant_trading.Store.{Store}
use toss_api_quant_trading.Paper.{then_trim, rate_for, submit_at, with_price, submit}
use toss_api_quant_trading.Paper.Account.{
  PaperBroker, Market, positions, write_position, set_cash, current_fx, cash_of,
}
use toss_api_quant_trading.Paper.Fill.{
  Sizing, refused, size, resolve_quantity, trim, Execution, held_quantity, settle, execute, book,
  finish, whole_shares, positive_size, settle_by, size_of,
}

-- A held quantity is positive, and a whole number of shares on KRX.
abbrev pub IsHolding : String → Position → Type 0
IsHolding sym p = (nat 0 <ᵈ p.quantity) × (country_of sym ≡ kr → p.quantity.den_pred ≡ 0)

abbrev pub HoldingsOk : Store → Type 0
HoldingsOk s = AllEntries IsHolding s.positions

positions-AllEntries :
    (d : Dict Position) → AllEntries IsHolding d → AllEntries IsHolding (positions d)
unfolding positions
positions-AllEntries [] h = h
positions-AllEntries ((k, p) ∷ d) h = elim (Bool-cases (lt (nat 0) p.quantity)) [
  | inl e ↦ rw e (h.0, positions-AllEntries d h.1)
  | inr e ↦ rw e (positions-AllEntries d h.1)
]

write_position-AllEntries :
    (pos : Position) (rows : Dict Position)
    → (country_of pos.symbol ≡ kr → pos.quantity.den_pred ≡ 0)
    → AllEntries IsHolding rows
    → AllEntries IsHolding (write_position pos rows)
unfolding write_position
write_position-AllEntries pos rows w h = elim (Bool-cases (le pos.quantity (nat 0))) [
  | inl e ↦ rw e (erase-AllEntries IsHolding pos.symbol rows h)
  | inr e ↦ rw e (insert-AllEntries IsHolding pos.symbol pos rows (ground arith, w) h)
]

-- Sizes are whole where the country is Korea.
abbrev WholeSize : Country → Sizing → Type 0
WholeSize country (refused e) = Unit
WholeSize country (size q) = country ≡ kr → q.den_pred ≡ 0

positive_size-WholeSize :
    (country : Country) (q : Decimal)
    → (country ≡ kr → q.den_pred ≡ 0)
    → WholeSize country (positive_size q)
unfolding positive_size
positive_size-WholeSize country q h = elim (Bool-cases (le q (nat 0))) [
  | inl e ↦ rw e tt
  | inr e ↦ rw e h
]

whole_shares_whole :
    (country : Country) (q : Decimal) → country ≡ kr → (whole_shares country q).den_pred ≡ 0
unfolding truncate
whole_shares_whole kr q h = ground arith
whole_shares_whole us q h = absurd (cc)

size_of-WholeSize :
    (q a : Option Decimal) (px : Decimal) (country : Country)
    → WholeSize country (size_of q a px country)
unfolding size_of
size_of-WholeSize (some q) a px country =
    positive_size-WholeSize country _ (whole_shares_whole country q)
size_of-WholeSize none (some a) px country =
    positive_size-WholeSize country _ (whole_shares_whole country (a ⊘ px))
size_of-WholeSize none none px country = tt

abbrev WholeHeld : Country → Option Position → Type 0
WholeHeld country held = country ≡ kr → (held_quantity held).den_pred ≡ 0

then_trim-WholeSize :
    (sz : Sizing) (side : Side) (held : Option Position) (country : Country)
    → WholeSize country sz
    → WholeHeld country held
    → WholeSize country (then_trim sz side held)
unfolding trim
then_trim-WholeSize (refused e) side held country h w = tt
then_trim-WholeSize (size q) buy held country h w = h
then_trim-WholeSize (size q) sell held country h w =
    let t = dmin q (held_quantity held) in
    elim (Bool-cases (le t (nat 0))) [
      | inl e ↦ rw e tt
      | inr e ↦ rw e (λ k. unfold dmin in ground (arith, h k, w k))
    ]

whole_sum : (m n : ℕ) → m ≡ 0 → n ≡ 0 → m + n + m * n ≡ 0
whole_sum m n h k = rw (h, k) refl

-- What an execution leaves is whole, if it starts from whole shares.
settle-whole :
    (side : Side) (x : Execution) (a c : Decimal) (pos : Position)
    → settle_by side x a ≡ some (c, pos)
    → (held_quantity x.held).den_pred ≡ 0
    → x.qty.den_pred ≡ 0
    → pos.quantity.den_pred ≡ 0
unfolding ◌⊕◌ ◌⊖◌
settle-whole buy x a c pos e h q =
    ground (arith, whole_sum (held_quantity x.held).den_pred x.qty.den_pred h q)
settle-whole sell x a c pos e h q =
    ground (arith, whole_sum (held_quantity x.held).den_pred x.qty.den_pred h q)

settle-symbol :
    (side : Side) (x : Execution) (a c : Decimal) (pos : Position)
    → settle_by side x a ≡ some (c, pos)
    → pos.symbol ≡ x.symbol
settle-symbol buy x a c pos e = ground arith
settle-symbol sell x a c pos e = ground arith

finish-HoldingsOk :
    (x : Execution) (intent : OrderIntent) (id : String) (now : ℕ) (o : Option (Decimal × Position))
    (s : Store)
    → settle_by x.side x (cash_of s) ≡ o
    → (country_of x.symbol ≡ kr → x.qty.den_pred ≡ 0)
    → WholeHeld (country_of x.symbol) x.held
    → HoldingsOk s
    → HoldingsOk (finish x intent id now o s).1
unfolding finish book set_cash
finish-HoldingsOk x intent id now none s e q w h = h
finish-HoldingsOk x intent id now (some (c, pos)) s e q w h =
    write_position-AllEntries pos s.positions
      (λ k.
        let k' : country_of x.symbol ≡ kr =
          ap country_of (sym (settle-symbol x.side x (cash_of s) c pos e)) ∙ k in
        settle-whole x.side x (cash_of s) c pos e (w k') (q k'))
      h

execute-HoldingsOk :
    (b : PaperBroker) (intent : OrderIntent) (id : String) (now : ℕ) (px fx : Decimal)
    (held : Option Position) (sz : Sizing) (s : Store)
    → WholeSize (country_of intent.symbol) sz
    → WholeHeld (country_of intent.symbol) held
    → HoldingsOk s
    → HoldingsOk (execute b intent id now px fx held sz s).1
unfolding execute settle
execute-HoldingsOk b intent id now px fx held (refused e) s q w h = h
execute-HoldingsOk b intent id now px fx held (size qty) s q w h =
    finish-HoldingsOk _ intent id now _ s refl q w h

held-whole :
    (symbol : String) (d : Dict Position) (o : Option Position)
    → lookup symbol (positions d) ≡ o
    → AllEntries IsHolding d
    → WholeHeld (country_of symbol) o
held-whole symbol d none e h k = refl
held-whole symbol d (some pos) e h k =
    (lookup-AllEntries IsHolding symbol pos (positions d) (positions-AllEntries d h) e).1 k

rate_for-positions :
    (c : Country) (mk : Market) (s : Store) → (rate_for c mk s).1.positions ≡ s.positions
unfolding current_fx
rate_for-positions kr mk s = refl
rate_for-positions us mk s = ground arith

resolve-WholeSize :
    (intent : OrderIntent) (px : Decimal) (country : Country)
    → WholeSize country (resolve_quantity intent px country)
unfolding resolve_quantity
resolve-WholeSize intent px country =
    size_of-WholeSize intent.quantity intent.order_amount px country

submit_at-HoldingsOk :
    (b : PaperBroker) (mk : Market) (intent : OrderIntent) (id : String) (now : ℕ) (px : Decimal)
    (s : Store)
    → HoldingsOk s
    → HoldingsOk (submit_at b mk intent id now px s).1
unfolding submit_at
submit_at-HoldingsOk b mk intent id now px s h = elim (Bool-cases (le px (nat 0))) [
  | inl e ↦ rw e h
  | inr e ↦
      let country = country_of intent.symbol in
      let s' = (rate_for country mk s).1 in
      let h' : HoldingsOk s' = rw (rate_for-positions country mk s) h in
      let w = held-whole intent.symbol s'.positions _ refl h' in
      rw e (
        execute-HoldingsOk b intent id now px _ _ _ s'
          (then_trim-WholeSize _ intent.side _ country (resolve-WholeSize intent px country) w) w
          h')
]

with_price-HoldingsOk :
    (b : PaperBroker) (mk : Market) (intent : OrderIntent) (id : String) (now : ℕ)
    (o : Option Decimal) (s : Store)
    → HoldingsOk s
    → HoldingsOk (with_price b mk intent id now o s).1
unfolding with_price
with_price-HoldingsOk b mk intent id now none s h = h
with_price-HoldingsOk b mk intent id now (some px) s h =
    submit_at-HoldingsOk b mk intent id now px s h

-- Every submission, filled or refused, keeps the positions table positive, and whole on KRX.
pub submit-HoldingsOk :
    (b : PaperBroker) (mk : Market) (intent : OrderIntent) (id : String) (now : ℕ) (s : Store)
    → HoldingsOk s
    → HoldingsOk (submit b mk intent id now s).1
unfolding submit
submit-HoldingsOk b mk intent id now s h = with_price-HoldingsOk b mk intent id now _ s h
