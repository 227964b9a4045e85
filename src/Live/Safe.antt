-- ===== src/Live/Safe.antt =====
-- What a submission to the live broker may do.
use toss_api_quant_trading.Live.Size.{
  trimmed_to, within_sellable, SendSize, size_intent, sell_checked, sized, refused, request_of,
  first_size,
}
use mathlib.Core.List.{append-nil}
use toss_api_quant_trading.Toss.Orders.{OrderRequest, OrderBody, order_body}
use toss_api_quant_trading.Toss.Client.{Ending, returned, raised}
use toss_api_quant_trading.Store.{FillRow, Store, log_event}
use toss_api_quant_trading.Decimal.Quotient.{truncate_le_nonneg}
use toss_api_quant_trading.Backtest.Cash.{le-cases, lt-cases}
use toss_api_quant_trading.Decimal.Order.{≤ᵈ_refl}
use toss_api_quant_trading.Toss.Models.{
  Order, is_terminal, OrderExecution, status_text, terminal_order_statuses,
}
use toss_api_quant_trading.Broker.{OrderIntent, OrderResult}
use toss_api_quant_trading.Prelude.{
  String, Option, ◌≡◌, ℕ, some, none, true, inl, arith, inr, suc, zero, Bool-cases, List, ◌++◌, ◌⊎◌,
  member, ◌∷◌, [], refl,
}
use toss_api_quant_trading.Decimal.{Decimal, nat, ◌<ᵈ◌, ◌≤ᵈ◌}
use toss_api_quant_trading.Live.{LiveClient, sellable, LiveBroker}
use toss_api_quant_trading.Universe.{Country, sell, country_of, us, kr}
use toss_api_quant_trading.Live.Orders.{
  await_fill, nonzero, fill_at, final_result, live_submit, final_fill, polled, record_final,
  settled, submit_sized, acknowledged, send, poll_attempts, put_order, submission_row,
}

trimmed_le :
    (country : Country) (avail : Decimal) → nat 0 <ᵈ avail → trimmed_to country avail ≤ᵈ avail
trimmed_le us avail h = ≤ᵈ_refl avail
trimmed_le kr avail h = truncate_le_nonneg avail (omega arith)

within_sellable-le :
    (country : Country) (avail qty : Decimal) (sent : Option Decimal)
    → within_sellable country avail qty ≡ sized sent
    → (q : Decimal) × (sent ≡ some q) × (q ≤ᵈ avail)
unfolding within_sellable
within_sellable-le country avail qty sent e = elim (le-cases avail (nat 0)) [
  | inl (c, p) ↦ absurd (let f = rw c at e in cc)
  | inr (c, p) ↦ elim (lt-cases avail qty) [
    | inl (d, r) ↦
        (trimmed_to country avail, (let f = rw (c, d) at e in cc), trimmed_le country avail p)
    | inr (d, r) ↦ (qty, (let f = rw (c, d) at e in cc), r)
  ]
]

sell_checked-le :
    (country : Country) (avail : Decimal) (z : SendSize) (q : Decimal)
    → sell_checked sell country avail z ≡ sized (some q)
    → q ≤ᵈ avail
sell_checked-le country avail (refused why) q e = absurd (cc)
sell_checked-le country avail (sized none) q e = absurd (cc)
sell_checked-le country avail (sized (some qty)) q e =
    let (p, f, h) = within_sellable-le country avail qty (some q) e in let g : q ≡ p = cc in rw g h

-- The quantity that goes out for a sell, after the whole-share rule and the trimming, is never more
-- than what the API reports as sellable.
pub size_intent-sellable :
    (client : LiveClient) (intent : OrderIntent) (q : Decimal)
    → intent.side ≡ sell
    → size_intent client intent ≡ sized (some q)
    → q ≤ᵈ sellable client intent.symbol
unfolding size_intent
size_intent-sellable client intent q s e =
    let country = country_of intent.symbol in
    let avail = sellable client intent.symbol in
    let f : sell_checked sell country avail (first_size country intent.quantity) ≡ sized (some q) =
      rw s at e in
    sell_checked-le country avail (first_size country intent.quantity) q f

polled-terminal :
    (answer : Ending Order) (later : Option Order) (o : Order)
    → (later ≡ some o → is_terminal o ≡ true)
    → polled answer later ≡ some o
    → is_terminal o ≡ true
polled-terminal (raised e) later o h k = absurd (cc)
polled-terminal (returned p) later o h k = elim (Bool-cases (is_terminal p)) [
  | inl d ↦ let f = rw d at k in let g : o ≡ p = cc in rw g d
  | inr d ↦ h (rw d at k)
]

await_fill-terminal :
    (client : LiveClient) (order_id : String) (left n : ℕ) (o : Order)
    → await_fill client order_id left n ≡ some o
    → is_terminal o ≡ true
unfolding await_fill
await_fill-terminal client order_id zero n o e = absurd (cc)
await_fill-terminal client order_id (suc left) n o e =
    polled-terminal (client.get_order n order_id) (await_fill client order_id left (suc n)) o
      (await_fill-terminal client order_id left (suc n) o) e

-- A recorded fill and the result that reports it.
pub record IsConfirmed (f : FillRow) (answer : Option OrderResult) : Type 0 where
  pub result : OrderResult
  pub answered : answer ≡ some result
  pub quantity : result.filled_quantity ≡ f.quantity
  pub price : result.fill_price ≡ some f.price
  pub positive : nat 0 <ᵈ f.quantity
  pub terminal : member (status_text result.status) terminal_order_statuses ≡ true

-- The fills of a ledger grow by at most one, which is confirmed.
abbrev pub GrowsConfirmed : List FillRow → List FillRow → Option OrderResult → Type 0
GrowsConfirmed before after answer =
    (after ≡ before) ⊎ ((f : FillRow) × (after ≡ before ++ f ∷ []) × IsConfirmed f answer)

nonzero-some : (x : Option Decimal) (px : Decimal) → nonzero x ≡ some px → x ≡ some px
nonzero-some x px e = ground arith

fill_at-confirmed :
    (o : Order) (intent : OrderIntent) (now : ℕ) (ex : OrderExecution) (px : Option Decimal)
    (fs : List FillRow)
    → o.execution ≡ some ex
    → nonzero ex.average_filled_price ≡ px
    → is_terminal o ≡ true
    → GrowsConfirmed fs (fs ++ fill_at o intent now ex px) (some (final_result o intent))
unfolding is_terminal
fill_at-confirmed o intent now ex none fs a b t = inl (append-nil fs)
fill_at-confirmed o intent now ex (some px) fs a b t = elim (lt-cases (nat 0) ex.filled_quantity) [
  | inl (e, p) ↦ rw e (
      inr (
        _,
        refl,
        record {
          result = final_result o intent;
          answered = refl;
          quantity = rw a refl;
          price = rw a (nonzero-some ex.average_filled_price px b);
          positive = p;
          terminal = t;
        },
      ))
  | inr (e, p) ↦ rw e (inl (append-nil fs))
]

final_fill-confirmed :
    (o : Order) (intent : OrderIntent) (now : ℕ) (x : Option OrderExecution) (fs : List FillRow)
    → o.execution ≡ x
    → is_terminal o ≡ true
    → GrowsConfirmed fs (fs ++ final_fill o intent now x) (some (final_result o intent))
final_fill-confirmed o intent now none fs a t = inl (append-nil fs)
final_fill-confirmed o intent now (some ex) fs a t =
    fill_at-confirmed o intent now ex (nonzero ex.average_filled_price) fs a refl t

module _ (b : LiveBroker) (intent : OrderIntent) (now : ℕ) where
  settled-confirmed :
      (final : Option Order) (order_id : String) (s : Store)
      → ((o : Order) → final ≡ some o → is_terminal o ≡ true)
      → GrowsConfirmed s.fills
          (settled final order_id intent now s).1.fills
          (some (settled final order_id intent now s).0)
  unfolding record_final
  settled-confirmed none order_id s h = inl refl
  settled-confirmed (some o) order_id s h =
      final_fill-confirmed o intent now o.execution s.fills refl (h o refl)

  acknowledged-confirmed :
      (r : OrderRequest) (answer : Ending String) (s : Store)
      → GrowsConfirmed s.fills
          (acknowledged b intent r now answer s).1.fills
          (some (acknowledged b intent r now answer s).0)
  unfolding log_event
  acknowledged-confirmed r (raised e) s = inl refl
  acknowledged-confirmed r (returned order_id) s =
      settled-confirmed (await_fill b.client order_id poll_attempts 0) order_id
        (record s { orders = put_order (submission_row order_id intent r now) s.orders })
        (await_fill-terminal b.client order_id poll_attempts 0)

  send-confirmed :
      (r : OrderRequest) (body : Option OrderBody) (s : Store)
      → GrowsConfirmed s.fills (send b intent r now body s).1.fills (send b intent r now body s).0
  send-confirmed r none s = inl refl
  send-confirmed r (some body) s = acknowledged-confirmed r (b.client.post_order body) s

  submit_sized-confirmed :
      (id : String) (z : SendSize) (s : Store)
      → GrowsConfirmed s.fills
          (submit_sized b intent id now z s).1.fills
          (submit_sized b intent id now z s).0
  submit_sized-confirmed id (refused why) s = inl refl
  submit_sized-confirmed id (sized qty) s =
      let r = request_of b intent id qty in send-confirmed r (order_body r) s

-- A submission to the live broker, whatever the API answers, records no fill or exactly one; a
-- recorded fill has a positive quantity, it is the quantity and the price of the result, and the
-- order's status was terminal.
pub live_submit-confirmed :
    (b : LiveBroker) (intent : OrderIntent) (client_order_id : String) (now : ℕ) (s : Store)
    → GrowsConfirmed s.fills
        (live_submit b intent client_order_id now s).1.fills
        (live_submit b intent client_order_id now s).0
unfolding live_submit
live_submit-confirmed b intent client_order_id now s =
    submit_sized-confirmed b intent now client_order_id (size_intent b.client intent) s
